-- ===== src/Exec/Started.antt =====
-- What holds when src-tauri/src/tools/exec.rs starts a process.
use gpt_tools_mcp.Prelude.{
  String, true, false, ◌≡◌, refl, sym, ap, ◌∙◌, subst, Option, none, some, inl, inr, ◌⊎◌,
}
use gpt_tools_mcp.Prelude.Result.{inl-ne-inr, inr_injective, ok_or}
use gpt_tools_mcp.Json.{Value, get_key, as_str}
use gpt_tools_mcp.Answer.{WorkspaceError, invalid_argument}
use gpt_tools_mcp.Permission.{host_access}
use gpt_tools_mcp.Context.{command_cwd, read, path_is_within}
use gpt_tools_mcp.Context.Execution.{ExecutionContext}
use gpt_tools_mcp.Context.Validate.{validate, skips_containment}
use gpt_tools_mcp.Context.Inside.{IsContained, validate-Frame}
use gpt_tools_mcp.Workspace.{PathResult, ResolvedPath}
use gpt_tools_mcp.ToolContext.{resolve_path_from_base}
use gpt_tools_mcp.ToolContext.Confined.{resolve_path-IsContained}
use gpt_tools_mcp.Dispatch.{Setup}
use gpt_tools_mcp.Exec.{Runner}
use gpt_tools_mcp.Exec.Environment.{parse_user_environment}
use gpt_tools_mcp.Exec.Diagnostic.{directory_at, validate_child_process_scope, path_found}
use gpt_tools_mcp.Exec.Command.{
  prepared, Prepared, preflight, validated, workdir_of, limits_of, diagnostic, with_directory,
  with_command, first_valid,
}
use gpt_tools_mcp.Exec.Checked.{next-ok, validated_by-ok, with_directory-Checked}

-- The native diagnostic of the command, tried in its directory, which is found from the context `first`.
abbrev pub tried :
    Setup
    → Runner
    → Value
    → ExecutionContext
    → Prepared
    → (WorkspaceError ⊎ Option String) × ExecutionContext
tried t r args first p =
    diagnostic t r p.cmd p.cwd (directory_at t r first.default_cwd (workdir_of args) first).1

-- The checks that a command has passed before a process is started for it, in the order of the code:
-- the context is valid at the start of the call, and again, after the directory was found and the
-- native diagnostic was tried there, right before the reservation, which is made in the context `now`.
pub record HasPassed (t : Setup) (r : Runner) (args : Value) (start now : ExecutionContext)
    (p : Prepared) : Type 0 where
  pub first : ExecutionContext
  pub valid_first : validate t.os start ≡ inr first
  pub named : as_str (get_key "cmd" args) ≡ some p.cmd
  pub found : (directory_at t r first.default_cwd (workdir_of args) first).0 ≡ inr p.cwd
  pub directory : t.os.is_dir p.cwd ≡ true
  pub scope : validate_child_process_scope (host_access t.policy.permissions) args ≡ inr tt
  pub not_native : (tried t r args first p).0 ≡ inr none
  pub enforced : r.sandbox ≡ none
  pub variables : parse_user_environment (host_access t.policy.permissions) args ≡ inr p.variables
  pub limits : p.limits ≡ limits_of args
  pub valid_last : validate t.os (tried t r args first p).1 ≡ inr now

-- Without host access the directory lies in the execution root.
abbrev pub IsInside : Setup → ExecutionContext → Prepared → Type 0
IsInside t ctx p = ctx.host_access ≡ false → path_is_within t.os ctx.execution_root p.cwd ≡ true

ok_or-some : (e : WorkspaceError) (x : Option String) (a : String) → ok_or e x ≡ inr a → x ≡ some a
ok_or-some e none a h = inl-ne-inr e a h
ok_or-some e (some b) a h = ap (λ c. some c) (inr_injective b a h)

cwd-ne-read : {P : Type 0} → command_cwd ≡ read → P
cwd-ne-read h = absurd (cc)

module _ (t : Setup) (r : Runner) (args : Value) (now : ExecutionContext) (p : Prepared) where
  path_found-ok :
      (x : PathResult ResolvedPath × ExecutionContext) (found : String)
      → (path_found r x).0 ≡ inr found
      → (q : ResolvedPath) × (x.0 ≡ inr q) × (q.path ≡ found)
  path_found-ok (inl e, ctx) found h = inl-ne-inr (r.path_error e) found h
  path_found-ok (inr q, ctx) found h = (q, refl, inr_injective q.path found h)

  found-IsInside :
      (ctx : ExecutionContext) (found : String)
      → (directory_at t r ctx.default_cwd (workdir_of args) ctx).0 ≡ inr found
      → found ≡ p.cwd
      → IsInside t ctx p
  unfolding directory_at
  found-IsInside ctx found at same guest =
      let raw = workdir_of args in
      let base = ctx.default_cwd in
      let (q, resolved, path) =
        path_found-ok (resolve_path_from_base t.os ctx base command_cwd false raw) found at in
      let confined : skips_containment ctx.host_access command_cwd ≡ false = rw guest refl in
      ap (path_is_within t.os ctx.execution_root) (sym (path ∙ same))
      ∙ within q (resolve_path-IsContained t.os ctx base command_cwd false raw q confined resolved)
    where
      within :
          (q : ResolvedPath)
          → IsContained t.os ctx command_cwd q.path
          → path_is_within t.os ctx.execution_root q.path ≡ true
      within q (inl inside) = inside
      within q (inr (reads, _)) = cwd-ne-read reads

  with_command-HasPassed :
      (start first : ExecutionContext) (cmd : String)
      → validate t.os start ≡ inr first
      → as_str (get_key "cmd" args) ≡ some cmd
      → with_command t r args cmd first ≡ (inr (prepared p), now)
      → HasPassed t r args start now p × IsInside t first p
  unfolding with_command
  with_command-HasPassed start first cmd valid named h =
      let found_at = directory_at t r first.default_cwd (workdir_of args) first in
      let (found, at, rest) = next-ok found_at (with_directory t r args cmd) (prepared p) now h in
      let c = with_directory-Checked t r args now p cmd found found_at.1 rest in
      (
        record {
          first = first;
          valid_first = valid;
          named = named ∙ ap (λ x. some x) c.same_cmd;
          found = at ∙ ap (λ x. inr x) c.same_cwd;
          directory = sym (ap t.os.is_dir c.same_cwd) ∙ c.directory;
          scope = c.scope;
          not_native =
              subst (λ x. (diagnostic t r x p.cwd found_at.1).0 ≡ inr none) c.same_cmd
                (subst (λ x. (diagnostic t r cmd x found_at.1).0 ≡ inr none) c.same_cwd
                  c.not_native);
          enforced = c.enforced;
          variables = c.variables;
          limits = c.limits;
          valid_last =
              subst (λ x. validate t.os (diagnostic t r x p.cwd found_at.1).1 ≡ inr now) c.same_cmd
                (subst (λ x. validate t.os (diagnostic t r cmd x found_at.1).1 ≡ inr now) c.same_cwd
                  c.valid_last);
        },
        found-IsInside first found at c.same_cwd,
      )

  pub preflight-HasPassed :
      (ctx : ExecutionContext)
      → preflight t r args ctx ≡ (inr (prepared p), now)
      → HasPassed t r args ctx now p × IsInside t ctx p
  unfolding preflight validated first_valid
  preflight-HasPassed ctx h =
      let (u, valid, rest) = next-ok (validated t ctx) (first_valid t r args) (prepared p) now h in
      let first = (validated t ctx).1 in
      let same = validated_by-ok t ctx (validate t.os ctx) u refl valid in
      let frame = validate-Frame t.os ctx first same in
      let (cmd, named, more) =
        next-ok (ok_or (invalid_argument "cmd is required") (as_str (get_key "cmd" args)), first)
          (with_command t r args) (prepared p) now rest in
      let (passed, inside) =
        with_command-HasPassed ctx first cmd same
          (ok_or-some (invalid_argument "cmd is required") (as_str (get_key "cmd" args)) cmd named)
          more in
      (
        passed,
        λ guest.
            ap (λ root. path_is_within t.os root p.cwd) (sym frame.execution_root)
            ∙ inside (frame.host_access ∙ guest),
      )
