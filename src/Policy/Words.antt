-- ===== src/Policy/Words.antt =====
-- The first word of a command against the allowed commands, in src-tauri/src/tools/policy.rs.
use gpt_tools_mcp.Prelude.{
  ℕ, Bool, true, false, ◌&&◌, ◌||◌, ◌==◌, [], ◌∷◌, map, Option, none, some, any, if◌then◌else◌,
}
use gpt_tools_mcp.Prelude.Text.{codes, ascii_lower, contains_char, strip_suffix}
use gpt_tools_mcp.Json.{or_default}
use gpt_tools_mcp.Policy.{Text, PolicySettings}
use gpt_tools_mcp.Policy.Settings.{has_word}

unfoldable pub trim_dot_slash : Text → Text
trim_dot_slash (c ∷ d ∷ s) =
    let rest = trim_dot_slash s in if c == b'.' && d == b'/' then rest else c ∷ d ∷ s
trim_dot_slash s = s

abbrev pub is_slash : ℕ → Bool
is_slash c = c == b'/' || c == b'\\'

abbrev pub is_some : {A : Type 0} → Option A → Bool
is_some none = false
is_some (some a) = true

unfoldable pub after_last_slash : Text → Option Text
after_last_slash [] = none
after_last_slash (c ∷ s) =
    let rest = after_last_slash s in
    if is_some rest then rest else if is_slash c then some s else none

-- `rsplit(['/', '\\']).next()`.
unfoldable pub base_name : Text → Text
unfolding after_last_slash
base_name executable = or_default executable (after_last_slash executable)

abbrev pub or_else : Option Text → Option Text → Option Text
or_else none b = b
or_else (some a) b = some a

-- The base name without `.exe`, `.cmd` or `.bat`.
unfoldable pub stem : Text → Text
unfolding strip_suffix
stem name = or_default name (
    or_else (strip_suffix (codes ".exe") name)
      (or_else (strip_suffix (codes ".cmd") name) (strip_suffix (codes ".bat") name)))

abbrev pub ends_with : Text → Text → Bool
unfolding strip_suffix
ends_with suffix s = is_some (strip_suffix suffix s)

-- Whether the first word is an allowed command, or a file of the workspace where these are allowed;
-- `local_entry` is `workspace_local_entry_exists`.
unfoldable pub is_listed : PolicySettings → (Text → Bool) → Text → Bool
unfolding trim_dot_slash base_name stem ends_with has_word
is_listed settings local_entry word =
    let executable = trim_dot_slash word in
    let name = base_name executable in
    let candidate =
      local_entry executable
      || (contains_char is_slash executable
          || any (λ e. ends_with e (map ascii_lower name)) settings.workspace_script_extensions) in
    has_word (stem name) settings.allowed_commands
    || (settings.workspace_local_entries && candidate)
