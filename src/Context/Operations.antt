-- ===== src/Context/Operations.antt =====
-- Sequences of operations on an execution context (src-tauri/src/tools/execution_context.rs).
use gpt_tools_mcp.Prelude.{
  String, Bool, true, false, ◌≡◌, List, [], ◌∷◌, Option, none, some, inl, inr,
}
use gpt_tools_mcp.Context.{System, ContextResult, PathIntent, path_is_within}
use gpt_tools_mcp.Context.Execution.{ExecutionContext, enable_host_access}
use gpt_tools_mcp.Context.Validate.{validate, validate_resolved_path, set_default_cwd}

abbrev pub is_some : Option String → Bool
is_some none = false
is_some (some s) = true

-- The four parts of a git identity come together.
pub record IsAccompanied (ctx : ExecutionContext) : Type 0 where
  pub git_common_dir : is_some ctx.git_common_dir ≡ is_some ctx.git_dir
  pub branch : is_some ctx.branch ≡ is_some ctx.git_dir
  pub observed_head : is_some ctx.observed_head ≡ is_some ctx.git_dir

-- The default directory lies in the execution root.
pub record IsSound (os : System) (ctx : ExecutionContext) : Type 0 where
  pub cwd : path_is_within os ctx.execution_root ctx.default_cwd ≡ true
  pub accompanied : IsAccompanied ctx

-- An operation on a context, with the state of the system that it sees.
pub data Operation : Type 0 where
  validates : Operation
  resolves : String → PathIntent → Operation
  sets_cwd : String → Operation
  enables_host : Operation

abbrev pub or_same : ExecutionContext → ContextResult ExecutionContext → ExecutionContext
or_same ctx (inl e) = ctx
or_same ctx (inr now) = now

unfoldable pub step : System → Operation → ExecutionContext → ExecutionContext
unfolding validate validate_resolved_path set_default_cwd enable_host_access
step os validates ctx = or_same ctx (validate os ctx)
step os (resolves path intent) ctx = (validate_resolved_path os path intent ctx).1
step os (sets_cwd path) ctx = (set_default_cwd os path ctx).1
step os enables_host ctx = enable_host_access os ctx

-- The same platform, whatever else the system has become.
abbrev pub on_platform : Bool → System → System
on_platform windows os = record os { windows = windows }

unfoldable pub run : Bool → List (System × Operation) → ExecutionContext → ExecutionContext
unfolding step
run windows [] ctx = ctx
run windows ((os, op) ∷ rest) ctx = run windows rest (step (on_platform windows os) op ctx)
