-- ===== src/Exec/Unstarted.antt =====
-- A call of src-tauri/src/tools/exec.rs that starts no process.
use gpt_tools_mcp.Prelude.{
  true, false, ◌≡◌, ◌≢◌, refl, sym, ◌∙◌, none, inl, inr, ◌⊎◌, arith, Bool-cases, if◌then◌else◌,
}
use gpt_tools_mcp.Json.{Value}
use gpt_tools_mcp.Answer.{WorkspaceError}
use gpt_tools_mcp.Permission.{host_access}
use gpt_tools_mcp.Context.Execution.{ExecutionContext}
use gpt_tools_mcp.Invocation.{
  AuthorizedInvocation, State, available, reserved, committed, launch_failed, invalidated, Reserved,
  granted, consumed, failed, in_flight, invalid, matches, exchange, reserve, drop_reservation,
}
use gpt_tools_mcp.Session.{ExecSession}
use gpt_tools_mcp.Session.Store.{SessionStore}
use gpt_tools_mcp.Dispatch.{Setup}
use gpt_tools_mcp.Exec.{LaunchPlan, Launch, Runner}
use gpt_tools_mcp.Exec.Program.{shell_launch, parse_and_resolve}
use gpt_tools_mcp.Exec.Command.{Preflight, native, prepared, Prepared, preflight}
use gpt_tools_mcp.Exec.Run.{
  Outcome, Done, spawned, launch_of, planned, run_command, caller, after_preflight,
  exec_command_authorized,
}
use gpt_tools_mcp.Exec.Run
use gpt_tools_mcp.Exec.Authorized.{reserve-granted}

-- What a call that starts no process does to its authorization, by the result of the checks before
-- the reservation. A call that they refuse or answer leaves it as it is. After them, an authorization
-- that is not for this call becomes invalid, one that was available was used for a start that failed,
-- and any other keeps its state.
abbrev pub IsSpared :
    Setup
    → Value
    → AuthorizedInvocation
    → (WorkspaceError ⊎ Preflight) × ExecutionContext
    → AuthorizedInvocation
    → Type 0
IsSpared t args i (inl e, now) after = after ≡ i
IsSpared t args i (inr (native out), now) after = after ≡ i
IsSpared t args i (inr (prepared p), now) after =
    ((matches i (caller t args now) ≡ false) × (after.state ≡ invalidated))
    ⊎ (((matches i (caller t args now) ≡ true)
          × (i.state ≡ available)
          × (after.state ≡ launch_failed))
        ⊎ ((matches i (caller t args now) ≡ true)
            × (i.state ≢ available)
            × (after.state ≡ i.state)))

exchange-used : (s : State) → (exchange s).1 ≢ granted → s ≢ available
exchange-used available n h = n refl
exchange-used reserved n h = cc
exchange-used committed n h = cc
exchange-used launch_failed n h = cc
exchange-used invalidated n h = cc

exchange-spared : (s : State) → (exchange s).1 ≢ granted → (exchange s).0 ≡ s
exchange-spared available n = absurd (n refl)
exchange-spared reserved n = refl
exchange-spared committed n = refl
exchange-spared launch_failed n = refl
exchange-spared invalidated n = refl

reserve-IsSpared :
    (t : Setup) (args : Value) (i after : AuthorizedInvocation) (p : Prepared)
    (now : ExecutionContext) (answer : Reserved)
    → answer ≢ granted
    → reserve i (caller t args now) ≡ (after, answer)
    → IsSpared t args i (inr (prepared p), now) after
unfolding reserve
reserve-IsSpared t args i after p now answer other h =
    let c = caller t args now in
    elim (Bool-cases (matches i c)) [
      | inl m ↦
          let left : (exchange i.state).0 ≡ after.state = ground (arith, h, m) in
          let told : (exchange i.state).1 ≡ answer = ground (arith, h, m) in
          let not_granted : (exchange i.state).1 ≢ granted = λ e. other (sym told ∙ e) in
          inr (
            inr (
              m,
              exchange-used i.state not_granted,
              sym left ∙ exchange-spared i.state not_granted,
            ))
      | inr m ↦ inl (m, ground (arith, h, m))
    ]

-- Where no process was started, the sessions are as before and the authorization is spared.
abbrev pub LeavesAll :
    Setup
    → Value
    → AuthorizedInvocation
    → SessionStore
    → (WorkspaceError ⊎ Preflight) × ExecutionContext
    → Done
    → Type 0
LeavesAll t args i store x d =
    d.started ≡ none → (d.sessions ≡ store) × IsSpared t args i x d.invocation

module _ (r : Runner) (p : Prepared) (store : SessionStore) where
  -- And where the start fails, the authorization is that of a failed start.
  abbrev Fails : Done → Type 0
  Fails d = d.started ≡ none → (d.sessions ≡ store) × (d.invocation.state ≡ launch_failed)

  spawned-Fails :
      (l : Launch) (ctx : ExecutionContext) (i : AuthorizedInvocation)
      (x : WorkspaceError ⊎ ExecSession)
      → Fails (spawned r p l ctx i store x)
  unfolding spawned Run.start_fails drop_reservation
  spawned-Fails l ctx i (inl e) h = (refl, refl)
  spawned-Fails l ctx i (inr s) h = absurd (cc)

  planned-Fails :
      (i : AuthorizedInvocation) (x : (WorkspaceError ⊎ LaunchPlan) × ExecutionContext)
      → Fails (planned r p i store x)
  unfolding planned Run.start_fails drop_reservation
  planned-Fails i (inl e, ctx) h = (refl, refl)
  planned-Fails i (inr plan, ctx) h =
      spawned-Fails (launch_of p plan) ctx i (r.spawn (launch_of p plan)) h

module _ (t : Setup) (r : Runner) (args : Value) (i : AuthorizedInvocation)
    (store : SessionStore) where
  after_reservation-LeavesAll :
      (p : Prepared) (now : ExecutionContext) (x : AuthorizedInvocation × Reserved)
      → reserve i (caller t args now) ≡ x
      → LeavesAll t args i store
          (inr (prepared p), now)
          (Run.after_reservation t r p args now i store x)
  unfolding Run.after_reservation run_command
  after_reservation-LeavesAll p now (after, granted) e h =
      let plan =
        if host_access t.policy.permissions
        then (inr (shell_launch t r p.cmd), now)
        else parse_and_resolve t r now p.cwd p.cmd in
      let (sessions, lost) = planned-Fails r p store after plan h in
      let (m, unused) = reserve-granted i after (caller t args now) e in
      (sessions, inr (inl (m, unused, lost)))
  after_reservation-LeavesAll p now (after, consumed) e h =
      (refl, reserve-IsSpared t args i after p now consumed (λ q. cc) e)
  after_reservation-LeavesAll p now (after, failed) e h =
      (refl, reserve-IsSpared t args i after p now failed (λ q. cc) e)
  after_reservation-LeavesAll p now (after, in_flight) e h =
      (refl, reserve-IsSpared t args i after p now in_flight (λ q. cc) e)
  after_reservation-LeavesAll p now (after, invalid) e h =
      (refl, reserve-IsSpared t args i after p now invalid (λ q. cc) e)

  after_preflight-LeavesAll :
      (x : (WorkspaceError ⊎ Preflight) × ExecutionContext)
      → LeavesAll t args i store x (after_preflight t r args i store x)
  unfolding after_preflight
  after_preflight-LeavesAll (inl e, now) h = (refl, refl)
  after_preflight-LeavesAll (inr (native out), now) h = (refl, refl)
  after_preflight-LeavesAll (inr (prepared p), now) h =
      after_reservation-LeavesAll p now (reserve i (caller t args now)) refl h

-- A call that starts no process changes no session. If the checks before the reservation refuse it,
-- or the native diagnostic answers it, its authorization is as before. After them the authorization
-- becomes invalid if it is not for this call in the context validated last, is one of a failed start
-- if it was available, and keeps its state otherwise.
pub exec_command-unstarted :
    (t : Setup) (r : Runner) (args : Value) (i : AuthorizedInvocation) (ctx : ExecutionContext)
    (store : SessionStore)
    → (exec_command_authorized t r args i ctx store).started ≡ none
    → ((exec_command_authorized t r args i ctx store).sessions ≡ store)
      × IsSpared t args i
          (preflight t r args ctx)
          (exec_command_authorized t r args i ctx store).invocation
unfolding exec_command_authorized
exec_command-unstarted t r args i ctx store h =
    after_preflight-LeavesAll t r args i store (preflight t r args ctx) h
