-- ===== src/ToolContext/Confined.antt =====
-- What a patch can change (src-tauri/src/tools/context.rs with src-tauri/src/tools/patch.rs).
use gpt_tools_mcp.Prelude.{
  String, Bool, true, false, ◌≡◌, ◌≢◌, ◌∙◌, refl, sym, ap, List, [], ◌∷◌, Option, none, some, inl,
  inr, str_eq, eq_iff, Bool-cases, Option-cases, arith,
}
use gpt_tools_mcp.Prelude.Result.{Result-cases}
use gpt_tools_mcp.Context.{System, PathIntent, read, write, path_is_within}
use gpt_tools_mcp.Context.Resolve.{is_present}
use gpt_tools_mcp.Context.Execution.{ExecutionContext}
use gpt_tools_mcp.Context.Validate.{validate_resolved_path, skips_containment}
use gpt_tools_mcp.Context.Inside.{IsContained, validate_resolved_path-IsContained}
use gpt_tools_mcp.Workspace.{PathResult, ResolvedPath, or_dot}
use gpt_tools_mcp.Patch.{Text, FilePatch}
use gpt_tools_mcp.Patch.Commit.{Files, Staged}
use gpt_tools_mcp.Patch.Written.{staged_at}
use gpt_tools_mcp.Patch.Apply.{Target, Calls, apply_files}
use gpt_tools_mcp.Patch.Outcome.{last_text, apply_files_lem}
use gpt_tools_mcp.ToolContext.{
  checked_path, check_candidate, candidate_of, resolve_path_from_base,
  resolve_for_write_from_default_cwd,
}

checked_path-validated :
    (os : System) (ctx : ExecutionContext) (candidate : String) (intent : PathIntent)
    (existed : Bool) (r : ResolvedPath)
    → (checked_path os ctx candidate intent existed).0 ≡ inr r
    → (validate_resolved_path os candidate intent ctx).0 ≡ inr r.path
unfolding checked_path
checked_path-validated os ctx candidate intent existed r h =
    elim (Result-cases (validate_resolved_path os candidate intent ctx).0) [
      | inl (e, q) ↦ absurd (ground (arith, h, q))
      | inr (path, q) ↦ let same : path ≡ r.path = ground (arith, h, q) in q ∙ ap (λ p. inr p) same
    ]

-- A path that `resolve_path_from_base` gives is contained as `validate_resolved_path` promises.
pub resolve_path-IsContained :
    (os : System) (ctx : ExecutionContext) (base : String) (intent : PathIntent) (missing : Bool)
    (raw : String) (r : ResolvedPath)
    → skips_containment ctx.host_access intent ≡ false
    → (resolve_path_from_base os ctx base intent missing raw).0 ≡ inr r
    → IsContained os ctx intent r.path
unfolding resolve_path_from_base
resolve_path-IsContained os ctx base intent missing raw r confined h =
    let candidate = candidate_of os base raw in
    elim (Result-cases (check_candidate os ctx intent missing (or_dot raw) candidate)) [
      | inl (e, q) ↦ absurd (ground (arith, h, q))
      | inr (tt, q) ↦
          let checked : (checked_path os ctx candidate intent (is_present os candidate)).0 ≡ inr r =
            ground (arith, h, q) in
          let valid =
            checked_path-validated os ctx candidate intent (is_present os candidate) r checked in
          validate_resolved_path-IsContained os candidate intent ctx r.path confined valid
    ]

abbrev target_of : PathResult ResolvedPath → Option Target
target_of (inl e) = none
target_of (inr r) = some (record { path = r.path; existed = r.existed })

-- The targets of a patch, resolved by the context for its paths, which `text` reads as strings. The
-- HEAD that the check of one path has seen is not kept for the next.
unfoldable pub resolves_in : System → ExecutionContext → (Text → String) → Text → Option Target
unfolding resolve_for_write_from_default_cwd
resolves_in os ctx text path = target_of (resolve_for_write_from_default_cwd os ctx (text path)).0

target_of-path :
    (r : PathResult ResolvedPath) (t : Target)
    → target_of r ≡ some t
    → (x : ResolvedPath) × (r ≡ inr x) × (x.path ≡ t.path)
target_of-path (inl e) t h = absurd (cc)
target_of-path (inr x) t h = (x, refl, ground (arith, h))

true-ne-false : true ≢ false
true-ne-false h = cc

write-ne-read : {P : Type 0} → write ≡ read → P
write-ne-read h = absurd (cc)

resolves_in-within :
    (os : System) (ctx : ExecutionContext) (text : Text → String) (path : Text) (t : Target)
    → ctx.host_access ≡ false
    → resolves_in os ctx text path ≡ some t
    → path_is_within os ctx.execution_root t.path ≡ true
unfolding resolves_in resolve_for_write_from_default_cwd
resolves_in-within os ctx text path t guest h =
    let (x, found, same) =
      target_of-path (resolve_for_write_from_default_cwd os ctx (text path)).0 t h in
    let confined : skips_containment ctx.host_access write ≡ false = rw guest refl in
    elim (resolve_path-IsContained os ctx ctx.default_cwd write true (text path) x confined found) [
      | inl within ↦ sym (ap (path_is_within os ctx.execution_root) same) ∙ within
      | inr (reads, _) ↦ write-ne-read reads
    ]

last_text-none :
    (c : Calls) (files : Files) (patches : List FilePatch) (q : String)
    → ((path : Text) (t : Target) → c.resolve path ≡ some t → str_eq t.path q ≡ false)
    → last_text c files patches q ≡ none
unfolding last_text
last_text-none c files [] q never = refl
last_text-none c files (fp ∷ patches) q never =
    let rest = last_text-none c files patches q never in
    elim (Option-cases (c.resolve fp.path)) [
      | inl n ↦ rw (rest, n) refl
      | inr (t, r) ↦ rw (rest, r, never fp.path t r) refl
    ]

-- A tool's calls, with its paths resolved in an execution context.
unfoldable pub in_context : System → ExecutionContext → (Text → String) → Calls → Calls
unfolding resolves_in
in_context os ctx text c = record c { resolve = resolves_in os ctx text }

-- A patch that is applied without host access changes no file outside the execution root.
pub apply_files-within :
    (os : System) (ctx : ExecutionContext) (text : Text → String) (c : Calls) (confirm : Bool)
    (patches : List FilePatch) (files : Files) (done : Staged) (q : String)
    → ctx.host_access ≡ false
    → (apply_files (in_context os ctx text c) false confirm patches files).1 ≡ inr done
    → path_is_within os ctx.execution_root q ≡ false
    → (apply_files (in_context os ctx text c) false confirm patches files).0.files q ≡ files q
unfolding in_context resolves_in
apply_files-within os ctx text c confirm patches files done q guest h outside =
    let calls = in_context os ctx text c in
    let never : (path : Text) (t : Target) → calls.resolve path ≡ some t → str_eq t.path q ≡ false =
      λ path t r. elim (Bool-cases (str_eq t.path q)) [
        | inr n ↦ n
        | inl e ↦
            let within = resolves_in-within os ctx text path t guest r in
            let same = (eq_iff t.path q).0 e in
            absurd (
              true-ne-false (sym within ∙ ap (path_is_within os ctx.execution_root) same ∙ outside))
      ] in
    apply_files_lem calls confirm patches files done h q
    ∙ ap (λ t. staged_at t (files q)) (last_text-none calls files patches q never)
