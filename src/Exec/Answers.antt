-- ===== src/Exec/Answers.antt =====
-- Every call of `exec_command_authorized` in src-tauri/src/tools/exec.rs has an outcome.
use gpt_tools_mcp.Prelude.{
  ℕ, ◌≤◌, min, false, ◌≡◌, ◌≢◌, refl, sym, subst, none, some, inl, inr, ◌⊎◌, arith, if◌then◌else◌,
}
use gpt_tools_mcp.Prelude.Assoc
use gpt_tools_mcp.Json.{Value, get_key, as_u64, or_default}
use gpt_tools_mcp.Answer.{WorkspaceError, tool}
use gpt_tools_mcp.Permission.{host_access}
use gpt_tools_mcp.Context.Execution.{ExecutionContext}
use gpt_tools_mcp.Invocation.{
  AuthorizedInvocation, Reserved, granted, consumed, failed, in_flight, invalid, reserve,
}
use gpt_tools_mcp.Session.{ExecSession}
use gpt_tools_mcp.Session.Store.{SessionStore}
use gpt_tools_mcp.Dispatch.{Setup}
use gpt_tools_mcp.Exec.{LaunchPlan, Launch, Runner}
use gpt_tools_mcp.Exec.Program.{shell_launch, parse_and_resolve}
use gpt_tools_mcp.Exec.Wait.{
  Limits, How, finished, timed_out, runs_on, Waits, blocked, not_written, waited_for, await_process,
}
use gpt_tools_mcp.Exec.Ends.{IsPaced, IsBlocked, IsConcluded, await_process-IsConcluded}
use gpt_tools_mcp.Exec.Command.{Preflight, native, prepared, Prepared, preflight, limits_of}
use gpt_tools_mcp.Exec.Run.{
  Outcome, answers, refuses, out_of_turns, never_returns, execution_failure, outcome_of,
  after_start, spawned, launch_of, planned, run_command, caller, after_preflight,
  exec_command_authorized,
}
use gpt_tools_mcp.Exec.Run
use gpt_tools_mcp.Exec.Started.{preflight-HasPassed}

-- An outcome that the caller gets.
abbrev pub IsGiven : Outcome → Type 0
IsGiven o = (o ≢ out_of_turns) × (o ≢ never_returns)

execution_failure-answers : (e : WorkspaceError) → IsGiven (execution_failure e)
unfolding execution_failure
execution_failure-answers e = (λ h. ground (arith, h), λ h. ground (arith, h))

outcome_of-answers : (p : Prepared) (how : How) (s : ExecSession) → IsGiven (outcome_of p how s)
unfolding outcome_of
outcome_of-answers p finished s = (λ h. cc, λ h. cc)
outcome_of-answers p timed_out s = (λ h. cc, λ h. cc)
outcome_of-answers p runs_on s = (λ h. cc, λ h. cc)

min_le : (n : ℕ) → min n 30000 ≤ 30000
min_le n = omega arith

limits_of-short : (args : Value) → (limits_of args).yield_time ≤ 30000000000
unfolding limits_of
limits_of-short args =
    omega (arith, min_le (or_default 1000 (as_u64 (get_key "yield_time_ms" args))))

module _ (r : Runner) (p : Prepared) (store : SessionStore) where
  after_start-answers :
      (s : ExecSession) (x : Waits)
      → ¬ IsBlocked r p.limits
      → IsConcluded r p.limits s x
      → IsGiven (after_start p store x).0
  unfolding after_start
  after_start-answers s blocked free over = absurd (free over)
  after_start-answers s (not_written after) free over =
      execution_failure-answers (tool "SESSION_CLOSED" "Failed to write stdin." "runtime" false)
  after_start-answers s (waited_for none) free over = absurd over
  after_start-answers s (waited_for (some e)) free over = outcome_of-answers p e.how e.session

module _ (r : Runner) (p : Prepared) (free : ¬ IsBlocked r p.limits)
    (paced : IsPaced r.start r.polls) (short : p.limits.yield_time ≤ 30000000000)
    (store : SessionStore) where
  spawned-answers :
      (l : Launch) (ctx : ExecutionContext) (i : AuthorizedInvocation)
      (x : WorkspaceError ⊎ ExecSession)
      → IsGiven (spawned r p l ctx i store x).outcome
  unfolding spawned Run.start_fails
  spawned-answers l ctx i (inl e) = execution_failure-answers e
  spawned-answers l ctx i (inr s) =
      after_start-answers r p (Assoc.insert s.session_id s store) s (await_process r p.limits s)
        free (await_process-IsConcluded r p.limits s paced short)

  planned-answers :
      (i : AuthorizedInvocation) (x : (WorkspaceError ⊎ LaunchPlan) × ExecutionContext)
      → IsGiven (planned r p i store x).outcome
  unfolding planned Run.start_fails
  planned-answers i (inl e, ctx) = execution_failure-answers e
  planned-answers i (inr plan, ctx) =
      spawned-answers (launch_of p plan) ctx i (r.spawn (launch_of p plan))

module _ (t : Setup) (r : Runner) (args : Value) (i : AuthorizedInvocation) (store : SessionStore)
    (free : ¬ IsBlocked r (limits_of args)) (paced : IsPaced r.start r.polls) where
  after_reservation-answers :
      (p : Prepared) (now : ExecutionContext) (x : AuthorizedInvocation × Reserved)
      → p.limits ≡ limits_of args
      → IsGiven (Run.after_reservation t r p args now i store x).outcome
  unfolding Run.after_reservation run_command
  after_reservation-answers p now (after, granted) same =
      let plan =
        if host_access t.policy.permissions
        then (inr (shell_launch t r p.cmd), now)
        else parse_and_resolve t r now p.cwd p.cmd in
      let short =
        subst (λ (l : Limits). l.yield_time ≤ 30000000000) (sym same) (limits_of-short args) in
      let unblocked = subst (λ (l : Limits). ¬ IsBlocked r l) (sym same) free in
      planned-answers r p unblocked paced short store after plan
  after_reservation-answers p now (after, consumed) same = (λ h. cc, λ h. cc)
  after_reservation-answers p now (after, failed) same = (λ h. cc, λ h. cc)
  after_reservation-answers p now (after, in_flight) same = (λ h. cc, λ h. cc)
  after_reservation-answers p now (after, invalid) same = (λ h. cc, λ h. cc)

  after_preflight-answers :
      (ctx : ExecutionContext) (x : (WorkspaceError ⊎ Preflight) × ExecutionContext)
      → preflight t r args ctx ≡ x
      → IsGiven (after_preflight t r args i store x).outcome
  unfolding after_preflight
  after_preflight-answers ctx (inl e, now) same = (λ h. cc, λ h. cc)
  after_preflight-answers ctx (inr (native out), now) same = (λ h. cc, λ h. cc)
  after_preflight-answers ctx (inr (prepared p), now) same =
      let passed = (preflight-HasPassed t r args now p ctx same).0 in
      after_reservation-answers p now (reserve i (caller t args now)) passed.limits

-- Every call comes to an answer or an error within the turns that its wait has, if each turn sleeps
-- 20 ms and the call does not give a text that the process never reads.
pub exec_command-answers :
    (t : Setup) (r : Runner) (args : Value) (i : AuthorizedInvocation) (ctx : ExecutionContext)
    (store : SessionStore)
    → ¬ IsBlocked r (limits_of args)
    → IsPaced r.start r.polls
    → IsGiven (exec_command_authorized t r args i ctx store).outcome
unfolding exec_command_authorized
exec_command-answers t r args i ctx store free paced =
    after_preflight-answers t r args i store free paced ctx (preflight t r args ctx) refl
