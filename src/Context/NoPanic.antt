-- ===== src/Context/NoPanic.antt =====
-- No `expect` of a validation fails in a sound context (src-tauri/src/tools/execution_context.rs).
use gpt_tools_mcp.Prelude.{
  String, true, ◌≡◌, ◌≢◌, refl, Option, none, some, inl, inr, Option-cases, arith,
}
use gpt_tools_mcp.Prelude.Result.{Result-cases}
use gpt_tools_mcp.Context.{System, panicked, GitIdentity}
use gpt_tools_mcp.Context.Execution.{ExecutionContext, git_identity}
use gpt_tools_mcp.Context.Validate.{directories_valid, compared, observe_head, validate}
use gpt_tools_mcp.Context.Operations.{is_some, IsAccompanied}

git_identity_of-ne-none :
    (ctx : ExecutionContext)
    → IsAccompanied ctx
    → is_some ctx.git_dir ≡ true
    → git_identity ctx ≢ none
git_identity_of-ne-none ctx v h none_found = ground (arith, v, h, none_found)

directories_valid-ne-panicked :
    (os : System) (ctx : ExecutionContext) → directories_valid os ctx ≢ inl panicked
unfolding directories_valid
directories_valid-ne-panicked os ctx h = ground (arith, h)

compared-ne-panicked :
    (os : System) (root : String) (expected : Option GitIdentity) (ctx : ExecutionContext)
    → expected ≢ none
    → compared os root expected ctx ≢ inl panicked
unfolding compared observe_head
compared-ne-panicked os root none ctx n h = n refl
compared-ne-panicked os root (some expected) ctx n h = ground (arith, h)

pub validate-ne-panicked :
    (os : System) (ctx : ExecutionContext) → IsAccompanied ctx → validate os ctx ≢ inl panicked
unfolding validate
validate-ne-panicked os ctx v h = elim (Result-cases (directories_valid os ctx)) [
  | inl (e, q) ↦ ground (arith, h, q, directories_valid-ne-panicked os ctx)
  | inr (root, q) ↦ elim (Option-cases ctx.git_dir) [
    | inl n ↦ ground (arith, h, q, n)
    | inr (dir, s) ↦
        let present : is_some ctx.git_dir ≡ true = rw s refl in
        let known = git_identity_of-ne-none ctx v present in
        compared-ne-panicked os root (git_identity ctx) ctx known (ground (arith, h, q, s))
  ]
]
