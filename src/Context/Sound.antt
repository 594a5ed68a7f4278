-- ===== src/Context/Sound.antt =====
-- The states that an execution context reaches (src-tauri/src/tools/execution_context.rs).
use gpt_tools_mcp.Prelude.{
  String, true, false, ◌≡◌, ◌≢◌, refl, sym, ◌∙◌, subst, List, [], ◌∷◌, Option, none, some, inl, inr,
  Bool-cases, ap₂, append_nil, arith,
}
use gpt_tools_mcp.Prelude.Split.{parts_of}
use gpt_tools_mcp.Prelude.Result.{Result-cases, ok_or}
use gpt_tools_mcp.Context.{
  System, ErrorCode, panicked, not_found, ContextResult, GitIdentity, PathIntent, command_cwd,
  path_key, path_is_within, path_is_within_iff,
}
use gpt_tools_mcp.Context.Git.{probe_git_identity_with_detached, git_metadata_present}
use gpt_tools_mcp.Context.Execution.{
  ExecutionContext, from_parts, canonical_roots, kept, for_workspace, with_probe, probed_again,
  enable_host_access,
}
use gpt_tools_mcp.Context.Validate.{
  observe_head, validate, validate_resolved_path, set_default_cwd, with_cwd,
}
use gpt_tools_mcp.Context.Inside.{validate-Frame}
use gpt_tools_mcp.Context.Operations.{
  IsAccompanied, IsSound, Operation, validates, resolves, sets_cwd, enables_host, step, on_platform,
  run,
}
use gpt_tools_mcp.Context.NoPanic.{validate-ne-panicked}

path_is_within_refl : (os : System) (a : String) → path_is_within os a a ≡ true
path_is_within_refl os a =
    (path_is_within_iff os a a).1 (refl, ([], sym (append_nil (parts_of b'/' (path_key os a)).1)))

within_platform :
    (os later : System) (root path : String)
    → path_is_within (on_platform os.windows later) root path ≡ path_is_within os root path
unfolding path_is_within path_key
within_platform os later root path = refl

from_parts-IsSound :
    (os : System) (roots : String × String) (identity : Option GitIdentity)
    (error : Option ErrorCode)
    → IsSound os (from_parts roots identity error)
from_parts-IsSound os roots none error = record {
  cwd = path_is_within_refl os roots.1;
  accompanied = record { git_common_dir = refl; branch = refl; observed_head = refl };
}
from_parts-IsSound os roots (some identity) error = record {
  cwd = path_is_within_refl os roots.1;
  accompanied = record { git_common_dir = refl; branch = refl; observed_head = refl };
}

-- A validation changes the branch and the head only where there are some.
validate-IsAccompanied :
    (os : System) (ctx after : ExecutionContext)
    → validate os ctx ≡ inr after
    → IsAccompanied ctx
    → IsAccompanied after
unfolding validate observe_head
validate-IsAccompanied os ctx after h v = record {
  git_common_dir = ground (arith, h, v);
  branch = ground (arith, h, v);
  observed_head = ground (arith, h, v);
}

validate-IsSound :
    (os later : System) (ctx after : ExecutionContext)
    → validate later ctx ≡ inr after
    → IsSound os ctx
    → IsSound os after
validate-IsSound os later ctx after h v =
    let f = validate-Frame later ctx after h in
    record {
      cwd = ap₂ (path_is_within os) f.execution_root f.default_cwd ∙ v.cwd;
      accompanied = validate-IsAccompanied later ctx after h v.accompanied;
    }

probed_again-IsSound :
    (os : System) (r : ContextResult GitIdentity) (ctx : ExecutionContext)
    → IsSound os ctx
    → IsSound os (probed_again r ctx)
probed_again-IsSound os (inl e) ctx v = v
probed_again-IsSound os (inr identity) ctx v = record {
  cwd = v.cwd;
  accompanied = record { git_common_dir = refl; branch = refl; observed_head = refl };
}

with_probe-IsSound :
    (os later : System) (error : Option ErrorCode) (ctx : ExecutionContext)
    → IsSound os ctx
    → IsSound os (with_probe later error ctx)
unfolding with_probe
with_probe-IsSound os later none ctx v = v
with_probe-IsSound os later (some e) ctx v =
    probed_again-IsSound os (probe_git_identity_with_detached later ctx.execution_root true) ctx v

enable_host_access-IsSound :
    (os later : System) (ctx : ExecutionContext)
    → IsSound os ctx
    → IsSound os (enable_host_access later ctx)
unfolding enable_host_access
enable_host_access-IsSound os later ctx v =
    let probed = with_probe-IsSound os later ctx.git_probe_error ctx v in
    let w = probed.accompanied in
    record {
      cwd = probed.cwd;
      accompanied = record {
        git_common_dir = w.git_common_dir;
        branch = w.branch;
        observed_head = w.observed_head;
      };
    }

resolved-IsSound :
    (os later : System) (path : String) (intent : PathIntent) (ctx : ExecutionContext)
    → IsSound os ctx
    → IsSound os (validate_resolved_path later path intent ctx).1
unfolding validate_resolved_path
resolved-IsSound os later path intent ctx v = elim (Result-cases (validate later ctx)) [
  | inl (e, q) ↦ rw (validate_resolved_path, q) v
  | inr (now, q) ↦ rw (validate_resolved_path, q) (validate-IsSound os later ctx now q v)
]

with_cwd-IsSound :
    (os later : System) (r : ContextResult String × ExecutionContext)
    → IsSound os r.1
    → IsSound os (with_cwd (on_platform os.windows later) r).1
unfolding with_cwd
with_cwd-IsSound os later (inl e, ctx) v = v
with_cwd-IsSound os later (inr path, ctx) v =
    let w = v.accompanied in
    let here = within_platform os later ctx.execution_root path in
    elim (Bool-cases (path_is_within (on_platform os.windows later) ctx.execution_root path)) [
      | inl h ↦ rw h (record {
        cwd = sym here ∙ h;
        accompanied = record {
          git_common_dir = w.git_common_dir;
          branch = w.branch;
          observed_head = w.observed_head;
        };
      })
      | inr h ↦ rw h v
    ]

set_default_cwd-IsSound :
    (os later : System) (path : String) (ctx : ExecutionContext)
    → IsSound os ctx
    → IsSound os (set_default_cwd (on_platform os.windows later) path ctx).1
unfolding set_default_cwd
set_default_cwd-IsSound os later path ctx v =
    let now = on_platform os.windows later in
    elim (Result-cases (ok_or not_found (later.canonicalize path))) [
      | inl (e, q) ↦ rw (set_default_cwd, q) v
      | inr (resolved, q) ↦ elim (Bool-cases (later.is_dir resolved)) [
        | inr h ↦ rw (set_default_cwd, q, h) v
        | inl h ↦
            let checked = validate_resolved_path now resolved command_cwd ctx in
            let sound = resolved-IsSound os now resolved command_cwd ctx v in
            rw (set_default_cwd, q, h) (with_cwd-IsSound os later checked sound)
      ]
    ]

step-IsSound :
    (os later : System) (op : Operation) (ctx : ExecutionContext)
    → IsSound os ctx
    → IsSound os (step (on_platform os.windows later) op ctx)
unfolding step
step-IsSound os later validates ctx v =
    let now = on_platform os.windows later in
    elim (Result-cases (validate now ctx)) [
      | inl (e, q) ↦ rw q v
      | inr (after, q) ↦ rw q (validate-IsSound os now ctx after q v)
    ]
step-IsSound os later (resolves path intent) ctx v =
    resolved-IsSound os (on_platform os.windows later) path intent ctx v
step-IsSound os later (sets_cwd path) ctx v = set_default_cwd-IsSound os later path ctx v
step-IsSound os later enables_host ctx v =
    enable_host_access-IsSound os (on_platform os.windows later) ctx v

run-IsSound :
    (os : System) (ops : List (System × Operation)) (ctx : ExecutionContext)
    → IsSound os ctx
    → IsSound os (run os.windows ops ctx)
unfolding run
run-IsSound os [] ctx v = v
run-IsSound os ((later, op) ∷ ops) ctx v =
    let next = step (on_platform os.windows later) op ctx in
    run-IsSound os ops next (step-IsSound os later op ctx v)

for_workspace-IsSound :
    (os : System) (repository execution : String) (ctx : ExecutionContext)
    → for_workspace os repository execution ≡ inr ctx
    → IsSound os ctx
unfolding for_workspace
for_workspace-IsSound os repository execution ctx h =
    elim (Result-cases (canonical_roots os repository execution)) [
      | inl (e, q) ↦ absurd (ground (arith, h, q))
      | inr (roots, q) ↦
          let found = probe_git_identity_with_detached os roots.1 false in
          let probe = kept (git_metadata_present os roots.1) found in
          let made : from_parts roots probe.0 probe.1 ≡ ctx = ground (arith, h, q) in
          subst (IsSound os) made (from_parts-IsSound os roots probe.0 probe.1)
    ]

-- However an execution context of a workspace is validated, asked for paths, given a default
-- directory or host access, whatever the system has become meanwhile, its default directory lies in
-- its execution root, and no `expect` of a later validation fails.
pub run_lem :
    (os : System) (repository execution : String) (ctx : ExecutionContext)
    (ops : List (System × Operation)) (later : System)
    → for_workspace os repository execution ≡ inr ctx
    → let now = run os.windows ops ctx in
      (path_is_within os now.execution_root now.default_cwd ≡ true)
      × (validate later now ≢ inl panicked)
run_lem os repository execution ctx ops later h =
    let v = run-IsSound os ops ctx (for_workspace-IsSound os repository execution ctx h) in
    (v.cwd, validate-ne-panicked later (run os.windows ops ctx) v.accompanied)
