-- ===== src/Policy/Limits.antt =====
-- What an accepted command keeps to (src-tauri/src/tools/policy.rs).
use gpt_tools_mcp.Prelude.{
  ◌≤◌, Bool, true, false, ◌≡◌, ◌⊎◌, leb, leb→le, inl, inr, Option-cases, subst, arith,
}
use gpt_tools_mcp.Prelude.Text.{codes, utf8_length}
use gpt_tools_mcp.Prelude.Result.{and_then, and_then-ok}
use gpt_tools_mcp.Json.{Value, get_key, as_str, as_u64}
use gpt_tools_mcp.Permission.{host_access}
use gpt_tools_mcp.Policy.{Text, Verdict, PolicySettings, Matchers}
use gpt_tools_mcp.Policy.Scan.{
  has_forbidden_shell_syntax, command_contains_external_path,
  command_targets_protected_repository_asset,
}
use gpt_tools_mcp.Policy.Assess.{
  Capabilities, command_of, scope_matches, workdir_inside, within_timeout, Facts, facts_of,
  check_facts, weigh, assess_command_for_workspace,
}

-- The limits of a command that no approval lifts.
pub record IsWithinLimits (m : Matchers) (settings : PolicySettings) (args : Value) (command : Text)
    : Type 0 where
  pub size : utf8_length command ≤ 4000
  pub scope : scope_matches (host_access settings.permissions) args ≡ true
  pub directory : (host_access settings.permissions ≡ true) ⊎ (workdir_inside m args ≡ true)
  pub paths :
      (host_access settings.permissions ≡ true) ⊎ (command_contains_external_path m command ≡ false)
  pub assets :
      (host_access settings.permissions ≡ true)
      ⊎ ((command_targets_protected_repository_asset command ≡ false)
          ⊎ ((has_forbidden_shell_syntax command ≡ false)
              × (m.dangerous_command command ≡ false)
              × (m.interpreter_mutation command ≡ false)))
  pub network : (m.network_command command ≡ false) ⊎ (settings.permissions.network_allowed ≡ true)
  pub timeout : within_timeout (as_u64 (get_key "timeout_ms" args)) ≡ true

command_of-length :
    (args : Value) (command : Text) → command_of args ≡ inr command → utf8_length command ≤ 4000
unfolding command_of
command_of-length args command h = elim (Option-cases (as_str (get_key "cmd" args))) [
  | inl q ↦ absurd (ground (arith, h, q))
  | inr (text, q) ↦
      let fits : leb (utf8_length (codes text)) 4000 ≡ true = ground (arith, h, q) in
      let same : codes text ≡ command = ground (arith, h, q) in
      subst (λ c. utf8_length c ≤ 4000) same (leb→le (utf8_length (codes text)) 4000 fits)
]

check_facts-scope : (f : Facts) → check_facts f ≡ inr tt → f.scope ≡ true
unfolding check_facts
check_facts-scope f h = ground (arith, h)

check_facts-directory :
    (f : Facts) → check_facts f ≡ inr tt → (f.host ≡ true) ⊎ (f.directory ≡ true)
unfolding check_facts
check_facts-directory f h = ground (arith, h)

check_facts-external : (f : Facts) → check_facts f ≡ inr tt → (f.host ≡ true) ⊎ (f.external ≡ false)
unfolding check_facts
check_facts-external f h = ground (arith, h)

check_facts-protected :
    (f : Facts)
    → check_facts f ≡ inr tt
    → (f.host ≡ true)
      ⊎ ((f.protected ≡ false) ⊎ ((f.shell ≡ false) × (f.dangerous ≡ false) × (f.mutation ≡ false)))
unfolding check_facts
check_facts-protected f h = ground (arith, h)

check_facts-network :
    (f : Facts) → check_facts f ≡ inr tt → (f.uses_network ≡ false) ⊎ (f.network_allowed ≡ true)
unfolding check_facts
check_facts-network f h = ground (arith, h)

weigh-timeout :
    (m : Matchers) (local_entry : Text → Bool) (args : Value) (settings : PolicySettings)
    (command : Text) (capabilities : Capabilities)
    → weigh m local_entry args settings command ≡ inr capabilities
    → within_timeout (as_u64 (get_key "timeout_ms" args)) ≡ true
unfolding weigh
weigh-timeout m local_entry args settings command capabilities h = ground (arith, h)

-- The steps of a successful assessment.
pub assess-steps :
    (m : Matchers) (local_entry : Text → Bool) (args : Value) (settings : PolicySettings)
    (capabilities : Capabilities)
    → assess_command_for_workspace m local_entry args settings ≡ inr capabilities
    → (command : Text) × (command_of args ≡ inr command)
      × (check_facts (facts_of m args settings command) ≡ inr tt)
      × (weigh m local_entry args settings command ≡ inr capabilities)
unfolding assess_command_for_workspace
assess-steps m local_entry args settings capabilities h =
    let last : Text → Verdict Capabilities = λ c. weigh m local_entry args settings c in
    let checked : Text → Verdict Unit = λ c. check_facts (facts_of m args settings c) in
    let (command, q, rest) =
      and_then-ok (command_of args) (λ c. and_then (checked c) (λ passed. last c)) capabilities h in
    let (passed, c, w) = and_then-ok (checked command) (λ passed. last command) capabilities rest in
    (command, q, c, w)

-- Whatever its preset and its approvals, a policy accepts only a command within the limits: its
-- size and time, the scope of the policy, the network only if the policy allows it, and, without host
-- access, no path outside the workspace and no change of .git or .github.
pub assess-IsWithinLimits :
    (m : Matchers) (local_entry : Text → Bool) (args : Value) (settings : PolicySettings)
    (capabilities : Capabilities)
    → assess_command_for_workspace m local_entry args settings ≡ inr capabilities
    → (command : Text) × (command_of args ≡ inr command) × IsWithinLimits m settings args command
unfolding facts_of
assess-IsWithinLimits m local_entry args settings capabilities h =
    let (command, q, checked, weighed) = assess-steps m local_entry args settings capabilities h in
    let f = facts_of m args settings command in
    (
      command,
      q,
      record {
        size = command_of-length args command q;
        scope = check_facts-scope f checked;
        directory = check_facts-directory f checked;
        paths = check_facts-external f checked;
        assets = check_facts-protected f checked;
        network = check_facts-network f checked;
        timeout = weigh-timeout m local_entry args settings command capabilities weighed;
      },
    )
