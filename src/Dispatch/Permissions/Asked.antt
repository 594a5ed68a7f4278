-- ===== src/Dispatch/Permissions/Asked.antt =====
-- What `request_permissions` of src-tauri/src/tools/dispatch.rs answers without an error.
use gpt_tools_mcp.Prelude.{String, ◌≡◌, some, Any, inr}
use gpt_tools_mcp.Json.{Value}
use gpt_tools_mcp.Policy.{Text}
use gpt_tools_mcp.Policy.Assess.{Capabilities, command_of, assess_command_for_workspace}
use gpt_tools_mcp.Policy.Limits.{IsWithinLimits}
use gpt_tools_mcp.Dispatch.{Setup, label}
use gpt_tools_mcp.Dispatch.Permissions.{capability_for}

-- What a permission that was checked asks for, for the assessed arguments `args`.
abbrev IsNeeded : Setup → String → Value → Type 0
IsNeeded t permission args =
    (command : Text) × (capabilities : Capabilities) × (l : String) × (command_of args
      ≡ inr command)
    × IsWithinLimits t.matchers t.policy args command
    × (assess_command_for_workspace t.matchers t.local_entry args t.policy ≡ inr capabilities)
    × (capability_for permission ≡ some l)
    × Any (λ c. label c ≡ l) capabilities
