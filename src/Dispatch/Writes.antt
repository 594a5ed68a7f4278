-- ===== src/Dispatch/Writes.antt =====
-- Tools that write, on a workspace that is not as the current task left it, and the log of operations
-- (src-tauri/src/tools/dispatch.rs).
use gpt_tools_mcp.Prelude.{
  String, true, false, ◌≡◌, refl, sym, ◌∙◌, subst, some, inl, inr, ◌⊎◌, str_eq, eq_iff, arith,
  Bool-cases,
}
use gpt_tools_mcp.Json.{Value}
use gpt_tools_mcp.Harness.{TaskSession}
use gpt_tools_mcp.Harness.Store.{HarnessError, ok, err}
use gpt_tools_mcp.Harness.State.{current_task}
use gpt_tools_mcp.Harness.Baseline.{check_baseline}
use gpt_tools_mcp.Dispatch.{Setup, Call, World, found, checked, requires_write_baseline, is_one_of}
use gpt_tools_mcp.Dispatch.Prepare.{Outcome, Ready, prepare}
use gpt_tools_mcp.Dispatch.Kept.{prepare-keeps}
use gpt_tools_mcp.Dispatch.Record.{baseline, write_task, checked_write}
use gpt_tools_mcp.Dispatch.Run.{Tools, call_tool, continue, perform, harness_tools}

write-is-no_harness_tool :
    (name : String) (args : Value)
    → requires_write_baseline name args ≡ true
    → is_one_of harness_tools name ≡ false
unfolding requires_write_baseline
write-is-no_harness_tool name args h = elim (Bool-cases (str_eq name "exec_command")) [
  | inl y ↦
      subst (λ n. is_one_of harness_tools n ≡ false) (sym ((eq_iff name "exec_command").0 y)) refl
  | inr n ↦
      let patch : str_eq name "apply_patch" ≡ true = ground (arith, h, n) in
      subst (λ n. is_one_of harness_tools n ≡ false) (sym ((eq_iff name "apply_patch").0 patch))
        refl
]

-- The answer to a write that is refused.
abbrev Refused : World → World × Outcome → Type 0
Refused w x =
    (x.0.harness ≡ w.harness) × (x.0.operations ≡ w.operations) × (x.0.approvals ≡ w.approvals)

module _ (t : Setup) (tools : Tools) (tools' : Tools) (c : Call) where
  baseline-stale :
      (r : Ready) (w : World) (task : TaskSession) (e : HarnessError)
      → requires_write_baseline c.name c.args ≡ true
      → current_task (c.at found).io w.harness ≡ ok (some task)
      → check_baseline (c.at checked) task.id w.harness ≡ err e
      → baseline t c w ≡ checked_write t c w task (err e)
  unfolding baseline write_task
  baseline-stale r w task e writes current stale = rw (writes, current, stale) refl

  perform-stale :
      (r : Ready) (w : World) (task : TaskSession) (e : HarnessError)
      → requires_write_baseline c.name c.args ≡ true
      → current_task (c.at found).io w.harness ≡ ok (some task)
      → check_baseline (c.at checked) task.id w.harness ≡ err e
      → (perform t tools c r w ≡ perform t tools' c r w) × Refused w (perform t tools c r w)
  unfolding perform
  perform-stale r w task e writes current stale =
      let no_harness = write-is-no_harness_tool c.name c.args writes in
      let refused = baseline-stale r w task e writes current stale in
      rw (no_harness, refused) (refl, (refl, refl, refl))

  continue-stale :
      (x : World × (Outcome ⊎ Ready)) (task : TaskSession) (e : HarnessError)
      → requires_write_baseline c.name c.args ≡ true
      → current_task (c.at found).io x.0.harness ≡ ok (some task)
      → check_baseline (c.at checked) task.id x.0.harness ≡ err e
      → (continue t tools c x ≡ continue t tools' c x) × Refused x.0 (continue t tools c x)
  continue-stale (w, inl o) task e writes current stale = (refl, (refl, refl, refl))
  continue-stale (w, inr r) task e writes current stale =
      perform-stale r w task e writes current stale

  -- A command or a patch reaches no tool, and changes neither the harness, nor its log, nor the
  -- approvals, where a task is current whose baseline the workspace does not match.
  pub stale_write :
      (w : World) (task : TaskSession) (e : HarnessError)
      → requires_write_baseline c.name c.args ≡ true
      → current_task (c.at found).io w.harness ≡ ok (some task)
      → check_baseline (c.at checked) task.id w.harness ≡ err e
      → (call_tool t tools c w ≡ call_tool t tools' c w)
        × ((call_tool t tools c w).0.harness ≡ w.harness)
        × ((call_tool t tools c w).0.operations ≡ w.operations)
        × ((call_tool t tools c w).0.approvals ≡ w.approvals)
  unfolding call_tool
  stale_write w task e writes current stale =
      let ((a, h, o), n) = prepare-keeps t c w in
      let v = prepare t c w in
      let current' = subst (λ s. current_task (c.at found).io s ≡ ok (some task)) (sym h) current in
      let stale' = subst (λ s. check_baseline (c.at checked) task.id s ≡ err e) (sym h) stale in
      let (same, (h', o', a')) = continue-stale v task e writes current' stale' in
      (same, h' ∙ h, o' ∙ o, a' ∙ a)
