-- ===== src/Exec/Authorized.antt =====
-- Which processes src-tauri/src/tools/exec.rs starts.
use gpt_tools_mcp.Prelude.{
  true, false, if◌then◌else◌, ◌≡◌, refl, sym, ap, ◌∙◌, subst, some, inl, inr, ◌⊎◌, arith,
  Bool-cases,
}
use gpt_tools_mcp.Json.{Value}
use gpt_tools_mcp.Answer.{WorkspaceError}
use gpt_tools_mcp.Context.{path_is_within}
use gpt_tools_mcp.Context.Execution.{ExecutionContext}
use gpt_tools_mcp.Invocation.{
  AuthorizedInvocation, Caller, State, available, reserved, committed, launch_failed, invalidated,
  Reserved, granted, consumed, failed, in_flight, invalid, matches, exchange, reserve, commit,
}
use gpt_tools_mcp.Session.{ExecSession}
use gpt_tools_mcp.Session.Store.{SessionStore}
use gpt_tools_mcp.Dispatch.{Setup}
use gpt_tools_mcp.Exec.{LaunchPlan, Launch, Runner}
use gpt_tools_mcp.Permission.{host_access}
use gpt_tools_mcp.Exec.Program.{shell_launch, parse_and_resolve}
use gpt_tools_mcp.Exec.Command.{Preflight, native, prepared, Prepared, preflight}
use gpt_tools_mcp.Exec.Run.{
  Outcome, Done, spawned, launch_of, planned, run_command, caller, after_preflight,
  exec_command_authorized,
}
use gpt_tools_mcp.Exec.Run
use gpt_tools_mcp.Exec.Started.{HasPassed, IsInside, preflight-HasPassed}

-- What `run_command` starts: the shell with host access, or the program that was found.
abbrev pub plan_of :
    Setup → Runner → Prepared → ExecutionContext → (WorkspaceError ⊎ LaunchPlan) × ExecutionContext
plan_of t r p now =
    if host_access t.policy.permissions
    then (inr (shell_launch t r p.cmd), now)
    else parse_and_resolve t r now p.cwd p.cmd

-- A process was started for a call that had passed the checks of `HasPassed`, with a plan that was
-- found after these, and with an authorization that was available, was for this call in the context
-- that was validated last, and is used up.
pub record IsAuthorized (t : Setup) (r : Runner) (args : Value) (i : AuthorizedInvocation)
    (ctx : ExecutionContext) (d : Done) (l : Launch) : Type 0 where
  pub prepared : Prepared
  pub now : ExecutionContext
  pub passed : HasPassed t r args ctx now prepared
  pub inside : ctx.host_access ≡ false → path_is_within t.os ctx.execution_root l.cwd ≡ true
  pub matching : matches i (caller t args now) ≡ true
  pub unused : i.state ≡ available
  pub plan : plan_of t r prepared now ≡ (inr l.plan, d.context)
  pub cwd : l.cwd ≡ prepared.cwd
  pub variables : l.variables ≡ prepared.variables
  pub interactive : l.interactive ≡ prepared.limits.tty
  pub used : d.invocation.state ≡ committed

some_injective : {A : Type 0} (a b : A) → some a ≡ some b → a ≡ b
some_injective a b h = cc

exchange-granted : (s : State) → (exchange s).1 ≡ granted → s ≡ available
exchange-granted available h = refl
exchange-granted reserved h = absurd (cc)
exchange-granted committed h = absurd (cc)
exchange-granted launch_failed h = absurd (cc)
exchange-granted invalidated h = absurd (cc)

pub reserve-granted :
    (i after : AuthorizedInvocation) (c : Caller)
    → reserve i c ≡ (after, granted)
    → (matches i c ≡ true) × (i.state ≡ available)
unfolding reserve
reserve-granted i after c h = elim (Bool-cases (matches i c)) [
  | inl m ↦ (m, exchange-granted i.state (ground (arith, h, m)))
  | inr m ↦ absurd (ground (arith, h, m))
]

module _ (r : Runner) (p : Prepared) (store : SessionStore) where
  -- What a process was started with, and what the start did to the authorization.
  abbrev IsLaunch : LaunchPlan → ExecutionContext → Done → Launch → Type 0
  IsLaunch plan ctx d l =
      (launch_of p plan ≡ l) × (d.context ≡ ctx) × (d.invocation.state ≡ committed)

  spawned-IsLaunch :
      (plan : LaunchPlan) (ctx : ExecutionContext) (i : AuthorizedInvocation)
      (x : WorkspaceError ⊎ ExecSession) (l : Launch)
      → (spawned r p (launch_of p plan) ctx i store x).started ≡ some l
      → IsLaunch plan ctx (spawned r p (launch_of p plan) ctx i store x) l
  unfolding spawned Run.start_fails commit
  spawned-IsLaunch plan ctx i (inl e) l h = absurd (cc)
  spawned-IsLaunch plan ctx i (inr s) l h = (some_injective (launch_of p plan) l h, refl, refl)

  planned-IsLaunch :
      (i : AuthorizedInvocation) (x : (WorkspaceError ⊎ LaunchPlan) × ExecutionContext) (l : Launch)
      → (planned r p i store x).started ≡ some l
      → (plan : LaunchPlan) × (ctx : ExecutionContext) × (x ≡ (inr plan, ctx))
        × IsLaunch plan ctx (planned r p i store x) l
  unfolding planned Run.start_fails
  planned-IsLaunch i (inl e, ctx) l h = absurd (cc)
  planned-IsLaunch i (inr plan, ctx) l h =
      (plan, ctx, refl, spawned-IsLaunch plan ctx i (r.spawn (launch_of p plan)) l h)

module _ (t : Setup) (r : Runner) (args : Value) (i : AuthorizedInvocation)
    (store : SessionStore) where
  after_reservation-lem :
      (p : Prepared) (ctx now : ExecutionContext) (l : Launch) (x : AuthorizedInvocation × Reserved)
      → HasPassed t r args ctx now p × IsInside t ctx p
      → reserve i (caller t args now) ≡ x
      → (Run.after_reservation t r p args now i store x).started ≡ some l
      → IsAuthorized t r args i ctx (Run.after_reservation t r p args now i store x) l
  unfolding Run.after_reservation run_command
  after_reservation-lem p ctx now l (after, granted) (passed, inside) e h =
      let (plan, end, found, (same, context, used)) =
        planned-IsLaunch r p store after (plan_of t r p now) l h in
      let (matching, unused) = reserve-granted i after (caller t args now) e in
      let cwd : l.cwd ≡ p.cwd = sym (ap (λ (m : Launch). m.cwd) same) in
      record {
        prepared = p;
        now = now;
        passed = passed;
        inside = λ guest. ap (path_is_within t.os ctx.execution_root) cwd ∙ inside guest;
        matching = matching;
        unused = unused;
        plan =
            subst
              (λ q.
                plan_of t r p now ≡ (inr q, (planned r p after store (plan_of t r p now)).context))
              (ap (λ (m : Launch). m.plan) same)
              (subst (λ c. plan_of t r p now ≡ (inr plan, c)) (sym context) found);
        cwd = cwd;
        variables = sym (ap (λ (m : Launch). m.variables) same);
        interactive = sym (ap (λ (m : Launch). m.interactive) same);
        used = used;
      }
  after_reservation-lem p ctx now l (after, consumed) checks e h = absurd (cc)
  after_reservation-lem p ctx now l (after, failed) checks e h = absurd (cc)
  after_reservation-lem p ctx now l (after, in_flight) checks e h = absurd (cc)
  after_reservation-lem p ctx now l (after, invalid) checks e h = absurd (cc)

  after_preflight-lem :
      (ctx : ExecutionContext) (l : Launch) (x : (WorkspaceError ⊎ Preflight) × ExecutionContext)
      → preflight t r args ctx ≡ x
      → (after_preflight t r args i store x).started ≡ some l
      → IsAuthorized t r args i ctx (after_preflight t r args i store x) l
  unfolding after_preflight
  after_preflight-lem ctx l (inl e, now) found h = absurd (cc)
  after_preflight-lem ctx l (inr (native out), now) found h = absurd (cc)
  after_preflight-lem ctx l (inr (prepared p), now) found h =
      after_reservation-lem p ctx now l (reserve i (caller t args now))
        (preflight-HasPassed t r args now p ctx found) refl h

-- A process is started only by a call whose context is valid at its start and again right before the
-- reservation, whose directory exists and, without host access, lies in the execution root, which has
-- passed the checks of its scope, sandbox and variables and is no native diagnostic; only with an
-- authorization that was available and is for the same call in the context validated last, and that is
-- used up; and only for the plan of the command, which without host access is the program that
-- `parse_and_resolve` found.
pub exec_command-IsAuthorized :
    (t : Setup) (r : Runner) (args : Value) (i : AuthorizedInvocation) (ctx : ExecutionContext)
    (store : SessionStore) (l : Launch)
    → (exec_command_authorized t r args i ctx store).started ≡ some l
    → IsAuthorized t r args i ctx (exec_command_authorized t r args i ctx store) l
unfolding exec_command_authorized
exec_command-IsAuthorized t r args i ctx store l h =
    after_preflight-lem t r args i store ctx l (preflight t r args ctx) refl h
