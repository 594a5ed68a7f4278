-- ===== src/Exec/Checked.antt =====
-- What the checks of src-tauri/src/tools/exec.rs from the directory of a command on show of it.
use gpt_tools_mcp.Prelude.{
  String, true, ◌≡◌, refl, sym, ap, ◌∙◌, subst, List, Option, none, some, inl, inr, ◌⊎◌,
}
use gpt_tools_mcp.Prelude.Result.{inl-ne-inr, inr_injective, require-ok}
use gpt_tools_mcp.Json.{Value}
use gpt_tools_mcp.Answer.{WorkspaceError}
use gpt_tools_mcp.Permission.{host_access}
use gpt_tools_mcp.Context.{ContextResult}
use gpt_tools_mcp.Context.Execution.{ExecutionContext}
use gpt_tools_mcp.Context.Validate.{validate}
use gpt_tools_mcp.Dispatch.{Setup}
use gpt_tools_mcp.Exec.{Runner}
use gpt_tools_mcp.Exec.Environment.{Variable, parse_user_environment}
use gpt_tools_mcp.Exec.Diagnostic.{Step, next, not_a_directory, validate_child_process_scope}
use gpt_tools_mcp.Exec.Command.{
  prepared, Prepared, validated, validated_by, prepared_of, limits_of, sandbox_of,
  checked_directory, diagnostic, last_valid, sandboxed, last_checks, in_scope, in_directory,
  with_directory,
}

pub next-ok :
    {A B : Type 0} (x : (WorkspaceError ⊎ A) × ExecutionContext) (f : A → Step B) (b : B)
    (after : ExecutionContext)
    → next x f ≡ (inr b, after)
    → (a : A) × (x.0 ≡ inr a) × (f a x.1 ≡ (inr b, after))
next-ok (inl e, ctx) f b after h = inl-ne-inr e b (ap (λ p. p.0) h)
next-ok (inr a, ctx) f b after h = (a, refl, h)

sandbox_of-ok : (e : Option WorkspaceError) (u : Unit {0}) → sandbox_of e ≡ inr u → e ≡ none
sandbox_of-ok none u h = refl
sandbox_of-ok (some e) u h = inl-ne-inr e u h

prepared_injective : (p q : Prepared) → prepared p ≡ prepared q → p ≡ q
prepared_injective p q h = cc

pub validated_by-ok :
    (t : Setup) (ctx : ExecutionContext) (x : ContextResult ExecutionContext) (u : Unit {0})
    → validate t.os ctx ≡ x
    → (validated_by t x ctx).0 ≡ inr u
    → validate t.os ctx ≡ inr (validated_by t x ctx).1
validated_by-ok t ctx (inl e) u same h = inl-ne-inr (t.texts.context_error e) u h
validated_by-ok t ctx (inr now) u same h = same

-- What the checks from the directory on show of a command, found at `cwd` in the context `at`.
pub record Checked (t : Setup) (r : Runner) (args : Value) (cmd cwd : String)
    (at now : ExecutionContext) (p : Prepared) : Type 0 where
  pub same_cmd : cmd ≡ p.cmd
  pub same_cwd : cwd ≡ p.cwd
  pub directory : t.os.is_dir cwd ≡ true
  pub scope : validate_child_process_scope (host_access t.policy.permissions) args ≡ inr tt
  pub not_native : (diagnostic t r cmd cwd at).0 ≡ inr none
  pub enforced : r.sandbox ≡ none
  pub variables : parse_user_environment (host_access t.policy.permissions) args ≡ inr p.variables
  pub limits : p.limits ≡ limits_of args
  pub valid_last : validate t.os (diagnostic t r cmd cwd at).1 ≡ inr now

module _ (t : Setup) (r : Runner) (args : Value) (now : ExecutionContext) (p : Prepared) where
  last_valid-lem :
      (cmd cwd : String) (vs : List Variable) (ctx : ExecutionContext)
      → last_valid t args cmd cwd vs ctx ≡ (inr (prepared p), now)
      → (prepared_of args cmd cwd vs ≡ p) × (validate t.os ctx ≡ inr now)
  unfolding last_valid validated
  last_valid-lem cmd cwd vs ctx h =
      let (u, valid, same) =
        next-ok (validated t ctx) (λ valid ctx. (inr (prepared (prepared_of args cmd cwd vs)), ctx))
          (prepared p) now h in
      (
        prepared_injective (prepared_of args cmd cwd vs) p (
            inr_injective (prepared (prepared_of args cmd cwd vs)) (prepared p)
              (ap (λ x. x.0) same)),
        validated_by-ok t ctx (validate t.os ctx) u refl valid ∙ ap (λ x. inr x.1) same,
      )

  module _ (cmd cwd : String) (at : ExecutionContext) (directory : t.os.is_dir cwd ≡ true)
      (scope : validate_child_process_scope (host_access t.policy.permissions) args ≡ inr tt) where
    sandboxed-Checked :
        (diagnostic t r cmd cwd at).0 ≡ inr none
        → r.sandbox ≡ none
        → sandboxed t args cmd cwd tt (diagnostic t r cmd cwd at).1 ≡ (inr (prepared p), now)
        → Checked t r args cmd cwd at now p
    unfolding sandboxed prepared_of
    sandboxed-Checked not_native enforced h =
        let host = host_access t.policy.permissions in
        let mid = (diagnostic t r cmd cwd at).1 in
        let (vs, parsed, rest) =
          next-ok (parse_user_environment host args, mid) (last_valid t args cmd cwd) (prepared p)
            now h in
        let (same, valid) = last_valid-lem cmd cwd vs mid rest in
        record {
          same_cmd = ap (λ (q : Prepared). q.cmd) same;
          same_cwd = ap (λ (q : Prepared). q.cwd) same;
          directory = directory;
          scope = scope;
          not_native = not_native;
          enforced = enforced;
          variables = parsed ∙ ap (λ (q : Prepared). inr q.variables) same;
          limits = sym (ap (λ (q : Prepared). q.limits) same);
          valid_last = valid;
        }

    last_checks-Checked :
        (out : Option String)
        → (diagnostic t r cmd cwd at).0 ≡ inr out
        → last_checks t r args cmd cwd out (diagnostic t r cmd cwd at).1 ≡ (inr (prepared p), now)
        → Checked t r args cmd cwd at now p
    unfolding last_checks
    last_checks-Checked (some out) tried h = absurd (cc)
    last_checks-Checked none tried h =
        let (u, sound, rest) =
          next-ok (sandbox_of r.sandbox, (diagnostic t r cmd cwd at).1) (sandboxed t args cmd cwd)
            (prepared p) now h in
        sandboxed-Checked tried (sandbox_of-ok r.sandbox u sound) rest

  pub with_directory-Checked :
      (cmd found : String) (at : ExecutionContext)
      → with_directory t r args cmd found at ≡ (inr (prepared p), now)
      → Checked t r args cmd found at now p
  unfolding with_directory in_directory in_scope
  with_directory-Checked cmd found at h =
      let host = host_access t.policy.permissions in
      let (cwd, checked, rest) =
        next-ok (checked_directory t found, at) (in_directory t r args cmd) (prepared p) now h in
      let (directory, same) =
        require-ok (t.os.is_dir found) (not_a_directory "workdir is not a directory") (inr found)
          cwd checked in
      let found_same = inr_injective found cwd same in
      let (u, scope, more) =
        next-ok (validate_child_process_scope host args, at) (in_scope t r args cmd cwd)
          (prepared p) now rest in
      let (out, diagnosed, last) =
        next-ok (diagnostic t r cmd cwd at) (last_checks t r args cmd cwd) (prepared p) now more in
      let at_cwd : t.os.is_dir cwd ≡ true = sym (ap t.os.is_dir found_same) ∙ directory in
      subst (λ c. Checked t r args cmd c at now p) (sym found_same)
        (last_checks-Checked cmd cwd at at_cwd scope out diagnosed last)
