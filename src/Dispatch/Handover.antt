-- ===== src/Dispatch/Handover.antt =====
-- The authorization that a command is handed (src-tauri/src/tools/dispatch.rs with
-- src-tauri/src/tools/authorized_invocation.rs).
use Prim.Native.String.{◌++◌}
use gpt_tools_mcp.Prelude.{
  true, ◌≡◌, ◌↔◌, refl, ap, ◌∙◌, subst, Option, none, some, inl, inr, ◌⊎◌, str_eq, eq_iff, arith,
  if◌then◌else◌, Bool-cases,
}
use gpt_tools_mcp.Json.{Value}
use gpt_tools_mcp.Context.{ContextResult}
use gpt_tools_mcp.Context.Execution.{ExecutionContext, fingerprint}
use gpt_tools_mcp.Context.Validate.{validate}
use gpt_tools_mcp.Policy.{Verdict}
use gpt_tools_mcp.Policy.Assess.{Capabilities, auto_approves_permissions}
use gpt_tools_mcp.Invocation.{
  AuthorizedInvocation, Caller, effect_args, matches, reserve, granted, new,
}
use gpt_tools_mcp.Invocation.Equality.{value_eq_iff}
use gpt_tools_mcp.Dispatch.{Setup, Call, World, permission_revision, policy_arguments}
use gpt_tools_mcp.Dispatch.Gate.{Passage, passes, stops, soft_capabilities, gate}
use gpt_tools_mcp.Dispatch.Prepare.{
  Outcome, Ready, prepare, refreshed_sessions, entered, assessed, at_gate, passed, ready, caller_of,
}

abbrev handed : Setup → Call → World → Option AuthorizedInvocation
handed t c w = if str_eq c.name "exec_command" then some (new (caller_of t c w)) else none

abbrev Hands : Setup → Call → World → Outcome ⊎ Ready → Type 0
Hands t c w (inl o) = Unit
Hands t c w (inr r) = r.invocation ≡ handed t c w

module _ (t : Setup) (c : Call) where
  passed-Hands : (x : World × Passage) → Hands t c (passed t c x).0 (passed t c x).1
  unfolding ready
  passed-Hands (w, passes used) = refl
  passed-Hands (w, stops answer) = tt

  at_gate-Hands :
      (w : World) (args : Value) (x : Verdict Capabilities)
      → Hands t c (at_gate t c w args x).0 (at_gate t c w args x).1
  at_gate-Hands w args (inl e) = tt
  at_gate-Hands w args (inr capabilities) =
      passed-Hands (gate (auto_approves_permissions t.policy) t c w args capabilities)

  assessed-Hands :
      (w : World) (x : Option Value) → Hands t c (assessed t c w x).0 (assessed t c w x).1
  assessed-Hands w none = tt
  assessed-Hands w (some args) = at_gate-Hands w args (soft_capabilities t c.name args)

  entered-Hands :
      (w : World) (x : ContextResult ExecutionContext)
      → Hands t c (entered t c w x).0 (entered t c w x).1
  entered-Hands w (inl e) = tt
  entered-Hands w (inr now) =
      assessed-Hands (record w { execution = now }) (policy_arguments t c.name c.args now)

  prepare-Hands : (w : World) → Hands t c (prepare t c w).0 (prepare t c w).1
  unfolding prepare
  prepare-Hands w = entered-Hands (refreshed_sessions t c w) (validate t.os w.execution)

  prepare-handed :
      (w : World) (r : Ready)
      → (prepare t c w).1 ≡ inr r
      → r.invocation ≡ handed t c (prepare t c w).0
  prepare-handed w r h = subst (Hands t c (prepare t c w).0) h (prepare-Hands w)

-- A fresh authorization is granted to a caller exactly if the caller is the one that it was made for.
matches_iff :
    (t : Setup) (c c' : Call) (w v : World)
    → (matches (new (caller_of t c w)) (caller_of t c' v) ≡ true) ↔ (
        (fingerprint t.os w.execution ≡ fingerprint t.os v.execution)
        × (c.name ≡ c'.name)
        × (effect_args c.args ≡ effect_args c'.args))
unfolding matches caller_of permission_revision
matches_iff t c c' w v =
    let print = eq_iff (fingerprint t.os w.execution) (fingerprint t.os v.execution) in
    let revision = eq_iff (permission_revision t w.execution) (permission_revision t v.execution) in
    let name = eq_iff c.name c'.name in
    let effect = value_eq_iff (effect_args c.args) (effect_args c'.args) in
    (
      λ h. (print.0 (ground (arith, h)), name.0 (ground (arith, h)), effect.0 (ground (arith, h))),
      λ h. ground (
        arith,
        print.1 h.0,
        revision.1 (ap (λ s. s ++ (":" ++ t.texts.permissions)) h.0),
        name.1 h.1,
        effect.1 h.2,
      ),
    )

reserve-granted_iff :
    (x caller : Caller) → ((reserve (new x) caller).1 ≡ granted) ↔ (matches (new x) caller ≡ true)
unfolding reserve
reserve-granted_iff x caller = elim (Bool-cases (matches (new x) caller)) [
  | inl y ↦ (λ h. y, λ h. rw y refl)
  | inr n ↦ (λ h. absurd (ground (arith, h, n)), λ h. absurd (ground (arith, h, n)))
]

-- A command is handed an authorization whose reservation is granted exactly to the call of the same
-- tool with the same arguments, but for the approval and the id of the request, in an execution
-- context of the same fingerprint.
pub prepare-granted_iff :
    (t : Setup) (c c' : Call) (w v : World) (r : Ready)
    → c.name ≡ "exec_command"
    → (prepare t c w).1 ≡ inr r
    → (i : AuthorizedInvocation) × (r.invocation ≡ some i)
      × (((reserve i (caller_of t c' v)).1 ≡ granted) ↔ (
          (fingerprint t.os (prepare t c w).0.execution ≡ fingerprint t.os v.execution)
          × (c.name ≡ c'.name)
          × (effect_args c.args ≡ effect_args c'.args)))
prepare-granted_iff t c c' w v r e h =
    let u = (prepare t c w).0 in
    let is_command = (eq_iff c.name "exec_command").1 e in
    let given =
      prepare-handed t c w r h
      ∙ ap (λ b. if b then some (new (caller_of t c u)) else none) is_command in
    let fresh = reserve-granted_iff (caller_of t c u) (caller_of t c' v) in
    let same = matches_iff t c c' u v in
    (new (caller_of t c u), given, (λ k. same.0 (fresh.0 k), λ k. fresh.1 (same.1 k)))
