-- ===== src/Dispatch/Passed.antt =====
-- What a call has passed when its tool runs (src-tauri/src/tools/dispatch.rs).
use gpt_tools_mcp.Prelude.{String, ◌≡◌, ◌≢◌, refl, Option, none, some, inl, inr, ◌⊎◌, eq_iff, arith}
use gpt_tools_mcp.Prelude.Result.{Result-cases}
use gpt_tools_mcp.Json.{Value}
use gpt_tools_mcp.Context.Execution.{ExecutionContext}
use gpt_tools_mcp.Context.Validate.{validate}
use gpt_tools_mcp.Context.{ContextResult}
use gpt_tools_mcp.Policy.{Text, Verdict}
use gpt_tools_mcp.Policy.Assess.{Capabilities, command_of, assess_command_for_workspace}
use gpt_tools_mcp.Policy.Limits.{IsWithinLimits, assess-IsWithinLimits}
use gpt_tools_mcp.Dispatch.{Setup, Call, World, policy_arguments}
use gpt_tools_mcp.Dispatch.Gate.{soft_capabilities}
use gpt_tools_mcp.Dispatch.Prepare.{
  Outcome, Ready, prepare, refreshed_sessions, entered, assessed, at_gate,
}
use gpt_tools_mcp.Dispatch.Run.{Tools, call_tool, continue}

-- What `prepare` has seen when it lets a call through.
record IsAccepted (t : Setup) (c : Call) (w : World) : Type 0 where
  pub now : ExecutionContext
  pub valid : validate t.os w.execution ≡ inr now
  pub args : Value
  pub given : policy_arguments t c.name c.args now ≡ some args
  pub capabilities : Capabilities
  pub weighed : soft_capabilities t c.name args ≡ inr capabilities

at_gate-weighed :
    (t : Setup) (c : Call) (w : World) (args : Value) (x : Verdict Capabilities) (r : Ready)
    → (at_gate t c w args x).1 ≡ inr r
    → (capabilities : Capabilities) × (x ≡ inr capabilities)
at_gate-weighed t c w args (inl e) r h = absurd (cc)
at_gate-weighed t c w args (inr capabilities) r h = (capabilities, refl)

assessed-given :
    (t : Setup) (c : Call) (w : World) (x : Option Value) (r : Ready)
    → (assessed t c w x).1 ≡ inr r
    → (args : Value) × (x ≡ some args)
      × ((at_gate t c w args (soft_capabilities t c.name args)).1 ≡ inr r)
assessed-given t c w none r h = absurd (cc)
assessed-given t c w (some args) r h = (args, refl, h)

entered-valid :
    (t : Setup) (c : Call) (w : World) (x : ContextResult ExecutionContext) (r : Ready)
    → (entered t c w x).1 ≡ inr r
    → (now : ExecutionContext) × (x ≡ inr now)
      × ((assessed t c (record w { execution = now }) (policy_arguments t c.name c.args now)).1
          ≡ inr r)
entered-valid t c w (inl e) r h = absurd (cc)
entered-valid t c w (inr now) r h = (now, refl, h)

prepare-IsAccepted :
    (t : Setup) (c : Call) (w : World) (r : Ready) → (prepare t c w).1 ≡ inr r → IsAccepted t c w
unfolding prepare
prepare-IsAccepted t c w r h =
    let u = refreshed_sessions t c w in
    let (now, valid, more) = entered-valid t c u (validate t.os w.execution) r h in
    let v : World = record u { execution = now } in
    let (args, given, last) = assessed-given t c v (policy_arguments t c.name c.args now) r more in
    let (capabilities, weighed) =
      at_gate-weighed t c v args (soft_capabilities t c.name args) r last in
    record {
      now = now;
      valid = valid;
      args = args;
      given = given;
      capabilities = capabilities;
      weighed = weighed;
    }

soft-assessed :
    (t : Setup) (name : String) (args : Value) (capabilities : Capabilities)
    → name ≡ "exec_command"
    → soft_capabilities t name args ≡ inr capabilities
    → assess_command_for_workspace t.matchers t.local_entry args t.policy ≡ inr capabilities
unfolding soft_capabilities
soft-assessed t name args capabilities e h = ground (arith, h, (eq_iff name "exec_command").1 e)

continue-same :
    (t : Setup) (tools tools' : Tools) (c : Call) (r : World × (Outcome ⊎ Ready)) (o : Outcome)
    → r.1 ≡ inl o
    → continue t tools c r ≡ continue t tools' c r
continue-same t tools tools' c (w, inl o') o h = refl
continue-same t tools tools' c (w, inr r) o h = absurd (cc)

-- A command reaches the tools, so that these make a difference, only in a valid execution context
-- and within the limits of the policy, whatever the approvals.
pub command-IsWithinLimits :
    (t : Setup) (tools tools' : Tools) (c : Call) (w : World)
    → c.name ≡ "exec_command"
    → call_tool t tools c w ≢ call_tool t tools' c w
    → (now : ExecutionContext) × (args : Value) × (command : Text) × (validate t.os w.execution
        ≡ inr now)
      × (policy_arguments t c.name c.args now ≡ some args)
      × (command_of args ≡ inr command)
      × IsWithinLimits t.matchers t.policy args command
unfolding call_tool
command-IsWithinLimits t tools tools' c w e differ = elim (Result-cases ((prepare t c w).1)) [
  | inl (o, q) ↦ absurd (differ (continue-same t tools tools' c (prepare t c w) o q))
  | inr (r, q) ↦
      let a = prepare-IsAccepted t c w r q in
      let assessed = soft-assessed t c.name a.args a.capabilities e a.weighed in
      let (command, named, limits) =
        assess-IsWithinLimits t.matchers t.local_entry a.args t.policy a.capabilities assessed in
      (a.now, a.args, command, a.valid, a.given, named, limits)
]
