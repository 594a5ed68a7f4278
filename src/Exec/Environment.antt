-- ===== src/Exec/Environment.antt =====
-- `parse_user_environment_for_context` of src-tauri/src/tools/exec.rs.
use Prim.Native.String.{◌++◌}
use gpt_tools_mcp.Prelude.{
  ℕ, ◌-◌, String, Bool, false, not, ◌&&◌, ◌||◌, ◌==◌, leb, List, [], ◌∷◌, map, Option, none, some,
  any, ◌⊎◌, inl, inr, if◌then◌else◌,
}
use gpt_tools_mcp.Prelude.Text.{codes, codes_eq, contains_char, is_empty}
use gpt_tools_mcp.Prelude.Result.{and_then, require}
use gpt_tools_mcp.Json.{Value, Fields, string, object, end, field, get_key}
use gpt_tools_mcp.Answer.{WorkspaceError, tool_details, invalid_argument, json}
use gpt_tools_mcp.Exec.{sort_by}

-- `to_ascii_uppercase`.
abbrev pub ascii_upper : ℕ → ℕ
ascii_upper c = if leb b'a' c && leb c b'z' then c - 32 else c

unfoldable pub upper : String → List ℕ
upper s = map ascii_upper (codes s)

abbrev pub protected_keys : List String
protected_keys =
    "PATH" ∷ "PATHEXT" ∷ "TMP" ∷ "TEMP" ∷ "HOME" ∷ "USERPROFILE" ∷ "GIT_DIR" ∷ "GIT_WORK_TREE"
    ∷ "GIT_CONFIG_NOSYSTEM" ∷ "GIT_CONFIG_SYSTEM" ∷ "GIT_CONFIG_GLOBAL" ∷ "GIT_EXEC_PATH"
    ∷ "GIT_TEMPLATE_DIR" ∷ []

unfoldable pub is_protected : List ℕ → Bool
unfolding codes_eq
is_protected name = any (λ k. codes_eq (codes k) name) protected_keys

-- The test on a key and its value.
unfoldable pub is_refused : Bool → String → String → Bool
unfolding is_protected upper is_empty
is_refused host key value =
    is_empty key
    || (contains_char (λ c. c == b'=' || c == 0) (codes key)
        || (contains_char (λ c. c == 0) (codes value) || (not host && is_protected (upper key))))

abbrev pub Variable : Type 0
Variable = String × String

unfoldable pub key_protected : String → WorkspaceError
unfolding json
key_protected key =
    tool_details "ENVIRONMENT_KEY_PROTECTED"
      ("Environment variable cannot override sandbox key: " ++ key) "security" false
      (json (("key", string key) ∷ []))

-- The loop on the fields of the object.
unfoldable pub read_variables : Bool → Fields → WorkspaceError ⊎ List Variable
unfolding is_refused
read_variables host end = inr []
read_variables host (field key (string value) fs) =
    require (not (is_refused host key value)) (key_protected key)
      (and_then (read_variables host fs) (λ rest. inr ((key, value) ∷ rest)))
read_variables host (field key _ fs) = inl (invalid_argument "env values must be strings")

-- The order of the variables: their keys in upper case.
unfoldable pub by_key : Variable → List ℕ
unfolding upper
by_key v = upper v.0

abbrev variables_of : Bool → Option Value → WorkspaceError ⊎ List Variable
unfolding read_variables sort_by
variables_of host none = inr []
variables_of host (some (object fs)) =
    and_then (read_variables host fs) (λ read. inr (sort_by by_key read))
variables_of host (some _) = inl (invalid_argument "env must be an object of strings")

-- `parse_user_environment_for_context`; `host` is whether the context has host access.
unfoldable pub parse_user_environment : Bool → Value → WorkspaceError ⊎ List Variable
unfolding variables_of get_key
parse_user_environment host args = variables_of host (get_key "env" args)
