-- ===== src/Dispatch/Log.antt =====
-- The log of operations around a tool (src-tauri/src/tools/dispatch.rs).
use mathlib.Core.List.{append_assoc}
use gpt_tools_mcp.Prelude.{
  String, true, inl, inr, ◌&&◌, ◌≡◌, refl, sym, ap, ◌∙◌, List, [], ◌∷◌, ◌++◌, Option, none, some,
  arith, Bool-cases, str_eq, if◌then◌else◌,
}
use gpt_tools_mcp.Json.{Value}
use gpt_tools_mcp.Answer.{ToolResult, output_of, succeeded}
use gpt_tools_mcp.Harness.Store.{ok}
use gpt_tools_mcp.Harness.State.{Env}
use gpt_tools_mcp.Harness.Operations.{
  OperationRecord, operation, append_operation, record_operation,
}
use gpt_tools_mcp.Dispatch.{
  Setup, Call, World, logged, closed, should_log_operation, is_one_of, operation_input,
}
use gpt_tools_mcp.Dispatch.Gate.{Consumed}
use gpt_tools_mcp.Dispatch.Codes.{launch_failed_output}
use gpt_tools_mcp.Dispatch.Prepare.{answers, Ready}
use gpt_tools_mcp.Dispatch.Record.{
  log_started, log_finished, mark_failed_launch, final_output, ending, started_input,
  started_result, finished_result,
}
use gpt_tools_mcp.Dispatch.Run.{Tools, perform_write, perform_logged, conclude, known_tools}

mark-operations :
    (t : Setup) (c : Call) (used : Option Consumed) (output : Value) (w : World)
    → (mark_failed_launch t c used output w).operations ≡ w.operations
unfolding mark_failed_launch
mark-operations t c none output w = refl
mark-operations t c (some (id, scope, effect)) output w =
    elim (Bool-cases (str_eq c.name "exec_command" && launch_failed_output output)) [
      | inl y ↦ rw y refl
      | inr n ↦ rw n refl
    ]

append-writes :
    (v : Env) (op : OperationRecord) (log : List OperationRecord)
    → v.io.appends ≡ true
    → append_operation v op log ≡ (log ++ op ∷ [], ok op)
unfolding append_operation
append-writes v op log writes = rw writes refl

log_finished-append :
    (c : Call) (task_id : Option String) (op : OperationRecord) (output : Value)
    (log : List OperationRecord)
    → (c.at closed).io.appends ≡ true
    → (last : OperationRecord) × (log_finished c task_id (some op) output log ≡ log ++ last ∷ [])
      × (last.id ≡ op.id)
      × (last.kind ≡ ending output)
unfolding log_finished record_operation operation
log_finished-append c task_id op output log writes =
    let end =
      operation (c.at closed) (some op.id) task_id c.name (ending output) (operation_input c.args)
        (finished_result c output) in
    (end, ap (λ x. x.0) (append-writes (c.at closed) end log writes), refl, refl)

conclude-log :
    (t : Setup) (c : Call) (r : Ready) (task_id : Option String) (op : OperationRecord)
    (x : World × ToolResult)
    → (c.at closed).io.appends ≡ true
    → (output : Value) × (last : OperationRecord) × ((conclude t c r task_id (some op) x).1
        ≡ answers output)
      × ((conclude t c r task_id (some op) x).0.operations ≡ x.0.operations ++ last ∷ [])
      × (last.id ≡ op.id)
      × (last.kind ≡ ending output)
unfolding conclude
conclude-log t c r task_id op (w, result) writes =
    let marked = mark_failed_launch t c r.consumed (output_of result) w in
    let output = final_output t c marked task_id (some op) (output_of result) in
    let (last, added, same, kind) =
      log_finished-append c task_id op output marked.operations writes in
    let kept = mark-operations t c r.consumed (output_of result) w in
    (output, last, refl, added ∙ ap (λ l. l ++ last ∷ []) kept, same, kind)

log_started-append :
    (c : Call) (task_id : Option String) (w : World)
    → should_log_operation c.name ≡ true
    → (c.at logged).io.appends ≡ true
    → (first : OperationRecord) × ((log_started c task_id w).1 ≡ some first)
      × ((log_started c task_id w).0.operations ≡ w.operations ++ first ∷ [])
      × (first.kind ≡ "started")
      × (first.tool ≡ c.name)
unfolding log_started record_operation append_operation operation
log_started-append c task_id w logs writes = (
  operation (c.at logged) none task_id c.name "started" (started_input c) started_result,
  rw (logs, writes) refl,
  rw (logs, writes) refl,
  refl,
  refl,
)

perform_logged-log :
    (t : Setup) (tools : Tools) (c : Call) (r : Ready) (task_id : Option String)
    (x : World × Option OperationRecord) (first : OperationRecord)
    → x.1 ≡ some first
    → is_one_of known_tools c.name ≡ true
    → (c.at closed).io.appends ≡ true
    → ((v : World) → (tools.run c r.invocation v).0.operations ≡ v.operations)
    → (output : Value) × (last : OperationRecord) × ((perform_logged t tools c r task_id x).1
        ≡ answers output)
      × ((perform_logged t tools c r task_id x).0.operations ≡ x.0.operations ++ last ∷ [])
      × (last.id ≡ first.id)
      × (last.kind ≡ ending output)
perform_logged-log t tools c r task_id (w, none) first op known writes keeps = absurd (cc)
perform_logged-log t tools c r task_id (w, some op) first same known writes keeps =
    let (output, last, answered, added, id, kind) =
      conclude-log t c r task_id op (tools.run c r.invocation w) writes in
    let is_first : op.id ≡ first.id = ground (arith, same) in
    rw known
      (output, last, answered, added ∙ ap (λ l. l ++ last ∷ []) (keeps w), id ∙ is_first, kind)

-- A tool that is logged leaves two more lines in the log, of one id: the start, and the end, which
-- says whether the answer is a success, if both can be written and the tool itself writes none.
pub perform_write-log :
    (t : Setup) (tools : Tools) (c : Call) (r : Ready) (task_id : Option String) (w : World)
    → should_log_operation c.name ≡ true
    → is_one_of known_tools c.name ≡ true
    → (c.at logged).io.appends ≡ true
    → (c.at closed).io.appends ≡ true
    → ((v : World) → (tools.run c r.invocation v).0.operations ≡ v.operations)
    → (output : Value) × (first : OperationRecord) × (last : OperationRecord) × ((perform_write t
          tools c r
          (w, inr task_id)).1
        ≡ answers output)
      × ((perform_write t tools c r (w, inr task_id)).0.operations
          ≡ w.operations ++ first ∷ last ∷ [])
      × (first.id ≡ last.id)
      × (first.kind ≡ "started")
      × (last.kind ≡ (if succeeded output then "completed" else "failed"))
perform_write-log t tools c r task_id w logs known starts ends keeps =
    let (first, is_first, begun, kind, name) = log_started-append c task_id w logs starts in
    let (output, last, answered, added, id, end) =
      perform_logged-log t tools c r task_id (log_started c task_id w) first is_first known ends
        keeps in
    (
      output,
      first,
      last,
      answered,
      added ∙ ap (λ l. l ++ last ∷ []) begun ∙ append_assoc w.operations (first ∷ []) (last ∷ []),
      sym id,
      kind,
      end,
    )
