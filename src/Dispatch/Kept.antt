-- ===== src/Dispatch/Kept.antt =====
-- What a dispatch leaves alone (src-tauri/src/tools/dispatch.rs): the approvals, and the harness
-- before a tool runs.
use gpt_tools_mcp.Prelude.{
  String, true, ◌≡◌, refl, sym, ap, ◌∙◌, subst, Option, none, some, inl, inr, ◌⊎◌, [], ◌∷◌, arith,
  Bool-cases,
}
use gpt_tools_mcp.Json.{Value}
use gpt_tools_mcp.Answer.{ToolResult, output_of}
use gpt_tools_mcp.Invocation.{AuthorizedInvocation}
use gpt_tools_mcp.Context.{ContextResult}
use gpt_tools_mcp.Context.Execution.{ExecutionContext}
use gpt_tools_mcp.Context.Validate.{validate}
use gpt_tools_mcp.Policy.{Verdict}
use gpt_tools_mcp.Policy.Assess.{Capabilities}
use gpt_tools_mcp.Harness.{TaskSession}
use gpt_tools_mcp.Harness.Store.{HarnessResult, ok, err}
use gpt_tools_mcp.Harness.State.{current_task}
use gpt_tools_mcp.Harness.Baseline.{check_baseline}
use gpt_tools_mcp.Harness.Operations.{OperationRecord}
use gpt_tools_mcp.Dispatch.{
  Setup, Call, World, found, checked, policy_arguments, requires_write_baseline, is_one_of,
  task_or_none,
}
use gpt_tools_mcp.Dispatch.Gate.{passes, gate, soft_capabilities}
use gpt_tools_mcp.Dispatch.Prepare.{
  Outcome, Ready, prepare, refreshed_sessions, entered, assessed, at_gate, passed, ready,
}
use gpt_tools_mcp.Dispatch.Record.{
  baseline, write_task, checked_write, log_started, mark_failed_launch,
}
use gpt_tools_mcp.Dispatch.Run.{
  Tools, call_tool, continue, perform, perform_write, perform_logged, harness_answer, conclude,
  harness_tools, known_tools,
}

gate-auto :
    (t : Setup) (c : Call) (w : World) (args : Value) (capabilities : Capabilities)
    → gate true t c w args capabilities ≡ (w, passes none)
unfolding gate
gate-auto t c w args [] = refl
gate-auto t c w args (x ∷ xs) = refl

abbrev KeepsRecords : World → World → Type 0
KeepsRecords w v =
    (v.approvals ≡ w.approvals) × (v.harness ≡ w.harness) × (v.operations ≡ w.operations)

-- No approval is carried on to the second part.
abbrev HasNone : Outcome ⊎ Ready → Type 0
HasNone (inl o) = Unit
HasNone (inr r) = r.consumed ≡ none

at_gate-keeps :
    (t : Setup) (c : Call) (w : World) (args : Value) (x : Verdict Capabilities)
    → KeepsRecords w (at_gate t c w args x).0 × HasNone (at_gate t c w args x).1
at_gate-keeps t c w args (inl e) = ((refl, refl, refl), tt)
at_gate-keeps t c w args (inr capabilities) =
    let open_gate = gate-auto t c w args capabilities in
    subst (λ g. KeepsRecords w (passed t c g).0 × HasNone (passed t c g).1) (sym open_gate)
      (unfold ready in ((refl, refl, refl), refl))

assessed-keeps :
    (t : Setup) (c : Call) (w : World) (x : Option Value)
    → KeepsRecords w (assessed t c w x).0 × HasNone (assessed t c w x).1
assessed-keeps t c w none = ((refl, refl, refl), tt)
assessed-keeps t c w (some args) = at_gate-keeps t c w args (soft_capabilities t c.name args)

entered-keeps :
    (t : Setup) (c : Call) (w : World) (x : ContextResult ExecutionContext)
    → KeepsRecords w (entered t c w x).0 × HasNone (entered t c w x).1
entered-keeps t c w (inl e) = ((refl, refl, refl), tt)
entered-keeps t c w (inr now) =
    assessed-keeps t c (record w { execution = now }) (policy_arguments t c.name c.args now)

refreshed-keeps : (t : Setup) (c : Call) (w : World) → KeepsRecords w (refreshed_sessions t c w)
unfolding refreshed_sessions
refreshed-keeps t c w = (ground arith, ground arith, ground arith)

pub prepare-keeps :
    (t : Setup) (c : Call) (w : World)
    → KeepsRecords w (prepare t c w).0 × HasNone (prepare t c w).1
unfolding prepare
prepare-keeps t c w =
    let u = refreshed_sessions t c w in
    let (a, h, o) = refreshed-keeps t c w in
    let ((a', h', o'), n) = entered-keeps t c u (validate t.os w.execution) in
    ((a' ∙ a, h' ∙ h, o' ∙ o), n)

-- The tools leave the approvals as they are in this call.
abbrev pub KeepsApprovals : Tools → Call → Type 0
KeepsApprovals tools c =
    ((w : World) → (tools.harness c w).0.approvals ≡ w.approvals)
    × ((i : Option AuthorizedInvocation) (w : World) → (tools.run c i w).0.approvals ≡ w.approvals)

conclude-approvals :
    (t : Setup) (c : Call) (r : Ready) (task_id : Option String)
    (operation : Option OperationRecord) (x : World × ToolResult)
    → r.consumed ≡ none
    → (conclude t c r task_id operation x).0.approvals ≡ x.0.approvals
unfolding conclude mark_failed_launch
conclude-approvals t c r task_id operation (w, result) unused =
    ap (λ u. (mark_failed_launch t c u (output_of result) w).approvals) unused

log_started-approvals :
    (c : Call) (task_id : Option String) (w : World)
    → (log_started c task_id w).0.approvals ≡ w.approvals
unfolding log_started
log_started-approvals c task_id w = ground arith

perform_logged-approvals :
    (t : Setup) (tools : Tools) (c : Call) (r : Ready) (task_id : Option String)
    (x : World × Option OperationRecord)
    → KeepsApprovals tools c
    → r.consumed ≡ none
    → (perform_logged t tools c r task_id x).0.approvals ≡ x.0.approvals
perform_logged-approvals t tools c r task_id (w, operation) (k, keeps) unused =
    elim (Bool-cases (is_one_of known_tools c.name)) [
      | inl y ↦ rw y (
          conclude-approvals t c r task_id operation (tools.run c r.invocation w) unused
          ∙ keeps r.invocation w)
      | inr n ↦ rw n refl
    ]

perform_write-approvals :
    (t : Setup) (tools : Tools) (c : Call) (r : Ready) (x : World × (Value ⊎ Option String))
    → KeepsApprovals tools c
    → r.consumed ≡ none
    → (perform_write t tools c r x).0.approvals ≡ x.0.approvals
perform_write-approvals t tools c r (w, inl answer) k unused = refl
perform_write-approvals t tools c r (w, inr task_id) k unused =
    perform_logged-approvals t tools c r task_id (log_started c task_id w) k unused
    ∙ log_started-approvals c task_id w

checked_write-approvals :
    (t : Setup) (c : Call) (w : World) (task : TaskSession) (x : HarnessResult (Unit {0}))
    → (checked_write t c w task x).0.approvals ≡ w.approvals
checked_write-approvals t c w task (ok tt) = refl
checked_write-approvals t c w task (err e) = refl

write_task-approvals :
    (t : Setup) (c : Call) (w : World) (task : Option TaskSession)
    → (write_task t c w task).0.approvals ≡ w.approvals
unfolding write_task
write_task-approvals t c w none = refl
write_task-approvals t c w (some task) =
    checked_write-approvals t c w task (check_baseline (c.at checked) task.id w.harness)

baseline-approvals : (t : Setup) (c : Call) (w : World) → (baseline t c w).0.approvals ≡ w.approvals
unfolding baseline
baseline-approvals t c w = elim (Bool-cases (requires_write_baseline c.name c.args)) [
  | inl y ↦
      rw y (write_task-approvals t c w (task_or_none (current_task (c.at found).io w.harness)))
  | inr n ↦ rw n refl
]

harness_answer-approvals :
    (t : Setup) (c : Call) (x : World × ToolResult)
    → (harness_answer t c x).0.approvals ≡ x.0.approvals
harness_answer-approvals t c (w, inl e) = refl
harness_answer-approvals t c (w, inr v) = refl

perform-approvals :
    (t : Setup) (tools : Tools) (c : Call) (r : Ready) (w : World)
    → KeepsApprovals tools c
    → r.consumed ≡ none
    → (perform t tools c r w).0.approvals ≡ w.approvals
unfolding perform
perform-approvals t tools c r w k unused = elim (Bool-cases (is_one_of harness_tools c.name)) [
  | inl y ↦ rw y (harness_answer-approvals t c (tools.harness c w) ∙ k.0 w)
  | inr n ↦
      rw n
        (perform_write-approvals t tools c r (baseline t c w) k unused ∙ baseline-approvals t c w)
]

continue-approvals :
    (t : Setup) (tools : Tools) (c : Call) (x : World × (Outcome ⊎ Ready))
    → KeepsApprovals tools c
    → HasNone x.1
    → (continue t tools c x).0.approvals ≡ x.0.approvals
continue-approvals t tools c (w, inl o) k n = refl
continue-approvals t tools c (w, inr r) k n = perform-approvals t tools c r w k n

-- A dispatch asks for no approval, consumes none and changes none, whatever the policy, the
-- capabilities of the call and the approval that it names: only a tool itself can.
pub call_tool-approvals :
    (t : Setup) (tools : Tools) (c : Call) (w : World)
    → KeepsApprovals tools c
    → (call_tool t tools c w).0.approvals ≡ w.approvals
unfolding call_tool
call_tool-approvals t tools c w k =
    let ((a, h, o), n) = prepare-keeps t c w in continue-approvals t tools c (prepare t c w) k n ∙ a
