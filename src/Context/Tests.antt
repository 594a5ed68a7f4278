-- ===== src/Context/Tests.antt =====
-- Worktrees and paths on a concrete system.
use gpt_tools_mcp.Prelude.{
  ℕ, ◌+◌, ◌≤◌, ◌≡◌, ◌≢◌, refl, String, true, false, List, [], ◌∷◌, none, some, str_eq, inl, inr,
  if◌then◌else◌, arith,
}
use gpt_tools_mcp.Json.{Value, string, number, pos_int, object, field, end}
use gpt_tools_mcp.Context.{
  System, GitOutput, output, missing, panicked, GitIdentity, read, write, path_is_within,
}
use gpt_tools_mcp.Context.Pin.{
  PinOptions, WorkspaceContextPin, from_value, create_for_access, is_protected_branch,
}
use gpt_tools_mcp.Context.Forward.{Follows, validations, validations-Follows}
use gpt_tools_mcp.Context.Execution.{ExecutionContext, for_workspace, from_parts}
use gpt_tools_mcp.Context.Validate.{validate_resolved_path}
use gpt_tools_mcp.Context.Validate
use gpt_tools_mcp.Context.Inside.{IsContained, validate_resolved_path-IsContained}
use gpt_tools_mcp.Context.Sound.{run_lem}
use gpt_tools_mcp.Context.Operations.{Operation, validates, sets_cwd, resolves, run}

abbrev pub answer : List String → GitOutput
answer [] = output none ""
answer (command ∷ _) =
    if str_eq command "rev-parse"
    then output (some 0) "/repo\n/repo/.git\n/repo/.git\nabc\n"
    else output (some 0) (if str_eq command "symbolic-ref" then "feature\n" else "")

abbrev pub linux : System
linux = record {
  windows = false;
  canonicalize = λ path. some path;
  is_dir = λ path. true;
  exists = λ path. true;
  file_kind = λ path. missing;
  read_to_string = λ path. none;
  directory_id = λ path. some (1, 2);
  run_git = λ path args. answer args;
  join = λ path name. name;
  is_absolute = λ path. true;
  has_parent_dir = λ path. false;
  native_separators = λ path. path;
  ancestors = λ path. path ∷ [];
  file_name = λ path. some path;
  components_below = λ path root. none;
  sha256_hex = λ text. "digest";
}

sibling_is_outside : path_is_within linux "/work/repo" "/work/repository" ≡ false
unfolding path_is_within
sibling_is_outside = refl

-- On a system whose file names may hold a backslash, a sibling is taken for a descendant.
backslash_is_inside : path_is_within linux "/work/repo" "/work/repo\\other" ≡ true
unfolding path_is_within
backslash_is_inside = refl

abbrev args : Value
args =
    object (field "path" (string " /repo ") (field "expires_in_minutes" (number (pos_int 10)) end))

abbrev options : PinOptions
options = record {
  path = "/repo";
  expected_branch = none;
  ttl = 600;
  allow_protected_branch = false;
  confirm = false;
}

reads_options : from_value args ≡ inr options
unfolding from_value
reads_options = refl

abbrev pin : WorkspaceContextPin
pin = record {
  host_access = false;
  configured_root = "/repo";
  active_root = "/repo";
  git_dir = "/repo/.git";
  git_common_dir = "/repo/.git";
  branch = "feature";
  initial_head = "abc";
  last_head = "abc";
  source = "header";
  pinned_at = 100;
  expires_at = 700;
}

makes_pin : create_for_access linux 100 "/repo" options "header" false ≡ inr pin
unfolding create_for_access
makes_pin = refl

protects_main : is_protected_branch "Main" ≡ true
unfolding is_protected_branch
protects_main = refl

abbrev seen : List (System × ℕ)
seen = (linux, 200) ∷ (linux, 900) ∷ []

validations-Follows_example : Follows pin (validations seen pin)
validations-Follows_example = validations-Follows seen pin refl

late : 100 + 28800 ≤ 30000
late = omega arith

abbrev pub identity : GitIdentity
identity = record {
  root = "/repo";
  git_dir = "/repo/.git";
  git_common_dir = "/repo/.git";
  branch = "feature";
  head = "abc";
}

abbrev pub context : ExecutionContext
context = from_parts ("/repo", "/repo") (some identity) none

makes_context : for_workspace linux "/repo" "/repo" ≡ inr context
unfolding for_workspace
makes_context = refl

is_valid : Validate.validate linux context ≡ inr context
unfolding Validate.validate
is_valid = refl

resolves_source : (validate_resolved_path linux "/repo/src" write context).0 ≡ inr "/repo/src"
unfolding validate_resolved_path
resolves_source = refl

validate_resolved_path-IsContained_example : IsContained linux context write "/repo/src"
validate_resolved_path-IsContained_example =
    validate_resolved_path-IsContained linux "/repo/src" write context "/repo/src" refl
      resolves_source

abbrev operations : List (System × Operation)
operations = (linux, sets_cwd "/repo/src") ∷ (linux, validates) ∷ (linux, resolves "/tmp" read) ∷ []

run_example :
    let now = run linux.windows operations context in
    (path_is_within linux now.execution_root now.default_cwd ≡ true)
    × (Validate.validate linux now ≢ inl panicked)
run_example = run_lem linux "/repo" "/repo" context operations linux makes_context
