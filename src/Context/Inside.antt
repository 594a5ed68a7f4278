-- ===== src/Context/Inside.antt =====
-- What the checks of a path promise (src-tauri/src/tools/execution_context.rs).
use gpt_tools_mcp.Prelude.{
  String, true, false, ◌≡◌, refl, ap, ◌∙◌, subst, ap₂, ◌⊎◌, inl, inr, Bool-cases, arith,
}
use gpt_tools_mcp.Prelude.Result.{Result-cases}
use gpt_tools_mcp.Context.{System, PathIntent, read, allows_external, path_is_within}
use gpt_tools_mcp.Context.Resolve.{canonicalize_with_anchor}
use gpt_tools_mcp.Context.Execution.{ExecutionContext, fingerprint}
use gpt_tools_mcp.Context.Validate.{
  observe_head, validate, skips_containment, outside_path, inside_path, contained_path,
  validate_resolved_path,
}

-- What `validate` leaves as it is; without host access also the branch.
pub record Frame (ctx after : ExecutionContext) : Type 0 where
  pub host_access : after.host_access ≡ ctx.host_access
  pub repository_root : after.repository_root ≡ ctx.repository_root
  pub execution_root : after.execution_root ≡ ctx.execution_root
  pub git_dir : after.git_dir ≡ ctx.git_dir
  pub git_common_dir : after.git_common_dir ≡ ctx.git_common_dir
  pub default_cwd : after.default_cwd ≡ ctx.default_cwd
  pub branch : (ctx.host_access ≡ true) ⊎ (after.branch ≡ ctx.branch)

pub validate-Frame :
    (os : System) (ctx after : ExecutionContext) → validate os ctx ≡ inr after → Frame ctx after
unfolding validate observe_head
validate-Frame os ctx after h = record {
  host_access = ground (arith, h);
  repository_root = ground (arith, h);
  execution_root = ground (arith, h);
  git_dir = ground (arith, h);
  git_common_dir = ground (arith, h);
  default_cwd = ground (arith, h);
  branch = ground (arith, h);
}

-- A path that `validate_resolved_path` accepts lies in the execution root, or is to be read and
-- lies outside the repository, unless host access lifts the containment of its intent.
abbrev pub IsContained : System → ExecutionContext → PathIntent → String → Type 0
IsContained os ctx intent resolved =
    (path_is_within os ctx.execution_root resolved ≡ true)
    ⊎ ((intent ≡ read) × (path_is_within os ctx.repository_root resolved ≡ false))

allows_external-read : (intent : PathIntent) → allows_external intent ≡ true → intent ≡ read
allows_external-read read h = refl
allows_external-read _ h = absurd (ground (arith, h))

contained_path-IsContained :
    (os : System) (ctx : ExecutionContext) (intent : PathIntent) (path : String)
    (found : String × String) (resolved : String)
    → skips_containment ctx.host_access intent ≡ false
    → contained_path os ctx intent path found ≡ inr resolved
    → IsContained os ctx intent resolved
unfolding contained_path inside_path outside_path
contained_path-IsContained os ctx intent path found resolved confined h =
    elim (Bool-cases (path_is_within os ctx.execution_root found.0)) [
      | inl e ↦ inl (ground (arith, confined, h, e))
      | inr e ↦ inr (
        allows_external-read intent (ground (arith, confined, h, e)),
        ground (arith, confined, h, e),
      )
    ]

-- A path that `validate_resolved_path` accepts, with an intent that host access does not free, lies
-- in the execution root, or is only read and lies outside the repository.
pub validate_resolved_path-IsContained :
    (os : System) (path : String) (intent : PathIntent) (ctx : ExecutionContext) (resolved : String)
    → skips_containment ctx.host_access intent ≡ false
    → (validate_resolved_path os path intent ctx).0 ≡ inr resolved
    → IsContained os ctx intent resolved
unfolding validate_resolved_path
validate_resolved_path-IsContained os path intent ctx resolved confined h =
    elim (Result-cases (validate os ctx)) [
      | inl (e, q) ↦ absurd (ground (arith, h, q))
      | inr (now, q) ↦
          let frame = validate-Frame os ctx now q in
          let free = ap (λ b. skips_containment b intent) frame.host_access ∙ confined in
          elim (Result-cases (canonicalize_with_anchor os path)) [
            | inl (e, r) ↦ absurd (ground (arith, h, q, r))
            | inr (found, r) ↦
                let accepted : contained_path os now intent path found ≡ inr resolved =
                  ground (arith, h, q, r) in
                subst
                  (λ (roots : String × String).
                    (path_is_within os roots.0 resolved ≡ true)
                    ⊎ ((intent ≡ read) × (path_is_within os roots.1 resolved ≡ false)))
                  (ap₂ (λ a b. (a, b)) frame.execution_root frame.repository_root)
                  (contained_path-IsContained os now intent path found resolved free accepted)
          ]
    ]

-- A validation keeps the fingerprint that owns the command sessions, also when HEAD or, with host
-- access, the branch moves.
pub fingerprint-validate :
    (os : System) (ctx after : ExecutionContext)
    → validate os ctx ≡ inr after
    → fingerprint os after ≡ fingerprint os ctx
unfolding fingerprint
fingerprint-validate os ctx after h =
    let f = validate-Frame os ctx after h in
    elim (f.branch) [
      | inl host ↦
          let host_after = f.host_access ∙ host in
          rw (f.repository_root, f.execution_root, f.git_dir, f.git_common_dir, host_after, host)
            refl
      | inr same ↦
          rw (f.repository_root, f.execution_root, f.git_dir, f.git_common_dir, f.host_access, same)
            refl
    ]
