-- ===== src/Policy/Asks.antt =====
-- The capabilities that an accepted command asks for (src-tauri/src/tools/policy.rs).
use gpt_tools_mcp.Prelude.{
  Bool, true, false, not, ◌≡◌, ◌↔◌, refl, sym, ◌∙◌, List, [], ◌∷◌, Option, any, inl, inr,
  Bool-cases, Option-cases, subst, ap₂, arith,
}
use gpt_tools_mcp.Prelude.Result.{and_then, and_then-ok, require, require-ok, inr_injective}
use gpt_tools_mcp.Json.{Value, get_key, as_u64}
use gpt_tools_mcp.Permission.{host_access}
use gpt_tools_mcp.Policy.{
  Text, Verdict, PolicySettings, CommandCapability, shell_syntax, dangerous_operation, network,
  unlisted_executable, custom_environment, timeout_exceeded, Matchers,
}
use gpt_tools_mcp.Policy.Scan.{has_forbidden_shell_syntax}
use gpt_tools_mcp.Policy.Assess.{
  Capabilities, capabilities_of, command_of, when, is_dangerous, weigh_words, weigh_executable,
  within_timeout, weigh, weigh_environment, assess_command_for_workspace,
  validate_command_for_workspace,
}
use gpt_tools_mcp.Policy.Words.{is_some, is_listed}
use gpt_tools_mcp.Policy.Limits.{assess-steps}

abbrev is_capability : CommandCapability → CommandCapability → Bool
is_capability shell_syntax shell_syntax = true
is_capability dangerous_operation dangerous_operation = true
is_capability network network = true
is_capability unlisted_executable unlisted_executable = true
is_capability custom_environment custom_environment = true
is_capability _ _ = false

-- Whether a capability stands in the list.
abbrev pub asks_for : CommandCapability → Capabilities → Bool
asks_for c = any (is_capability c)

weigh-capabilities_of :
    (m : Matchers) (local_entry : Text → Bool) (args : Value) (settings : PolicySettings)
    (capabilities : Capabilities) (command : Text)
    → weigh m local_entry args settings command ≡ inr capabilities
    → (unlisted : Capabilities) × (env : Capabilities) × (weigh_executable m settings local_entry
          command
        ≡ inr unlisted)
      × (weigh_environment (get_key "env" args) ≡ inr env)
      × (capabilities
          ≡ capabilities_of
              (has_forbidden_shell_syntax command)
              (is_dangerous m settings args command)
              (m.network_command command)
              unlisted
              env)
unfolding weigh
weigh-capabilities_of m local_entry args settings capabilities command h =
    let within = within_timeout (as_u64 (get_key "timeout_ms" args)) in
    let all : Capabilities → Capabilities → Capabilities = λ unlisted env.
      capabilities_of (has_forbidden_shell_syntax command) (is_dangerous m settings args command)
        (m.network_command command) unlisted env in
    let last : Capabilities → Capabilities → Verdict Capabilities =
      λ unlisted env. require within timeout_exceeded (inr (all unlisted env)) in
    let (unlisted, u, rest) =
      and_then-ok (weigh_executable m settings local_entry command)
        (λ x. and_then (weigh_environment (get_key "env" args)) (last x)) capabilities h in
    let (env, v, end) =
      and_then-ok (weigh_environment (get_key "env" args)) (last unlisted) capabilities rest in
    let (_, made) = require-ok within timeout_exceeded (inr (all unlisted env)) capabilities end in
    (unlisted, env, u, v, sym (inr_injective (all unlisted env) capabilities made))

weigh_words-when :
    (settings : PolicySettings) (local_entry : Text → Bool) (words : List Text)
    (unlisted : Capabilities)
    → weigh_words settings local_entry words ≡ inr unlisted
    → (b : Bool) × (unlisted ≡ when b unlisted_executable)
unfolding weigh_words
weigh_words-when settings local_entry [] unlisted h = absurd (cc)
weigh_words-when settings local_entry (word ∷ words) unlisted h =
    let asked = not (is_listed settings local_entry word) in
    (asked, sym (inr_injective (when asked unlisted_executable) unlisted h))

weigh_executable-when :
    (m : Matchers) (settings : PolicySettings) (local_entry : Text → Bool) (command : Text)
    (unlisted : Capabilities)
    → weigh_executable m settings local_entry command ≡ inr unlisted
    → (b : Bool) × (unlisted ≡ when b unlisted_executable)
unfolding weigh_executable
weigh_executable-when m settings local_entry command unlisted h =
    elim (Bool-cases (host_access settings.permissions)) [
      | inl t ↦ (false, ground (arith, h, t))
      | inr f ↦ elim (Option-cases (m.shell_words command)) [
        | inl n ↦ absurd (ground (arith, h, f, n))
        | inr (words, w) ↦
            weigh_words-when settings local_entry words unlisted (ground (arith, h, f, w))
      ]
    ]

weigh_environment-when :
    (env : Option Value) (asked : Capabilities)
    → weigh_environment env ≡ inr asked
    → asked ≡ when (is_some env) custom_environment
unfolding weigh_environment
weigh_environment-when env asked h = ground (arith, h)

capabilities_of-asks_for :
    (shell dangerous uses_network listed env : Bool)
    → let cs =
        capabilities_of shell dangerous uses_network
          (when listed unlisted_executable)
          (when env custom_environment) in
      (asks_for shell_syntax cs ≡ shell)
      × (asks_for network cs ≡ uses_network)
      × (asks_for custom_environment cs ≡ env)
      × (asks_for dangerous_operation cs ≡ dangerous)
capabilities_of-asks_for shell dangerous uses_network listed env = ground arith

-- The capabilities of an accepted command are those that its text and its arguments need; for a
-- configuration of version 1 a dangerous command needs its own, whatever `confirm` says.
pub assess-asks_for :
    (m : Matchers) (local_entry : Text → Bool) (args : Value) (settings : PolicySettings)
    (capabilities : Capabilities) (command : Text)
    → assess_command_for_workspace m local_entry args settings ≡ inr capabilities
    → command_of args ≡ inr command
    → (asks_for shell_syntax capabilities ≡ has_forbidden_shell_syntax command)
      × (asks_for network capabilities ≡ m.network_command command)
      × (asks_for custom_environment capabilities ≡ is_some (get_key "env" args))
      × (asks_for dangerous_operation capabilities ≡ is_dangerous m settings args command)
assess-asks_for m local_entry args settings capabilities command h q =
    let (same, q₁, checked, weighed) = assess-steps m local_entry args settings capabilities h in
    let e : same ≡ command = inr_injective same command (sym q₁ ∙ q) in
    let asked = subst (λ c. weigh m local_entry args settings c ≡ inr capabilities) e weighed in
    let (unlisted, env, u, v, made) =
      weigh-capabilities_of m local_entry args settings capabilities command asked in
    let (b, only) = weigh_executable-when m settings local_entry command unlisted u in
    let env_only = weigh_environment-when (get_key "env" args) env v in
    let shell = has_forbidden_shell_syntax command in
    let danger = is_dangerous m settings args command in
    let net = m.network_command command in
    let whole = made ∙ ap₂ (capabilities_of shell danger net) only env_only in
    rw whole (capabilities_of-asks_for shell danger net b (is_some (get_key "env" args)))

-- A command is valid exactly if it is assessed: with the automatic approval of the presets no
-- capability refuses it, only the limits do.
pub validate_command_iff :
    (m : Matchers) (local_entry : Text → Bool) (args : Value) (settings : PolicySettings)
    → (validate_command_for_workspace m local_entry args settings ≡ inr tt)
      ↔ ((cs : Capabilities) × (assess_command_for_workspace m local_entry args settings ≡ inr cs))
unfolding validate_command_for_workspace
validate_command_iff m local_entry args settings = (
  λ h.
      let allow : Capabilities → Verdict Unit = λ cs. inr tt in
      let (cs, e, _) =
        and_then-ok (assess_command_for_workspace m local_entry args settings) allow tt h in
      (cs, e),
  λ a. rw a.1 refl,
)
