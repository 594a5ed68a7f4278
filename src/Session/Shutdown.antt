-- ===== src/Session/Shutdown.antt =====
-- The shutdown of sessions (src-tauri/src/tools/session.rs): each session of an execution context,
-- or every session, is killed and waited for in turn.
use gpt_tools_mcp.Prelude.{
  ℕ, ◌+◌, ◌-◌, ◌≡◌, refl, ap, ◌∙◌, String, Bool, true, false, [], ◌∷◌, Option, none, some, length,
  retain, str_eq, eq_iff, arith, if◌then◌else◌, Bool-cases, Option-cases, subst, inl, inr,
}
use gpt_tools_mcp.Prelude.Assoc
use gpt_tools_mcp.Json.{Number}
use gpt_tools_mcp.Session.{
  ExecSession, Waited, refresh_status, record_exit_status, mark_termination_reason,
  belongs_to_context,
}
use gpt_tools_mcp.Session.Store.{SessionStore}

-- The wait for a killed process: it ends, it cannot be waited for, or the time is over. In the last
-- two cases `try_wait` is asked.
pub data Wait : Type 0 where
  exit_status : Option Number → Wait
  wait_error : Waited → Wait
  elapsed : Waited → Wait

abbrev mark_if : Option String → ExecSession → ExecSession
mark_if none s = s
mark_if (some reason) s = mark_termination_reason reason s

-- `terminate_and_wait`: whether the session is over, and the session.
unfoldable pub wait_for : Wait → ExecSession → Bool × ExecSession
unfolding refresh_status record_exit_status
wait_for (exit_status code) s = (true, record_exit_status code s)
wait_for (wait_error w) s = ((refresh_status w s).exited, refresh_status w s)
wait_for (elapsed w) s = (false, refresh_status w s)

unfoldable pub terminate_and_wait : Option String → Wait → ExecSession → Bool × ExecSession
unfolding wait_for
terminate_and_wait reason wait s = wait_for wait (mark_if reason s)

pub record SessionShutdownReport : Type 0 where
  pub requested : ℕ
  pub terminated : ℕ
  pub timed_out : ℕ

-- `remaining`.
unfoldable pub remaining : SessionShutdownReport → ℕ
remaining report = report.requested - report.terminated

-- Whether a session is to be shut down.
unfoldable pub is_requested : Option String → ExecSession → Bool
unfolding belongs_to_context
is_requested none s = true
is_requested (some fingerprint) s = belongs_to_context fingerprint s

module _ (wait : String → Wait) (reason : String) where
  -- One session of `shutdown_matching`: it is removed, or left to the reaper.
  unfoldable pub shutdown_one :
      String
      → Bool × ExecSession
      → SessionShutdownReport × SessionStore
      → SessionShutdownReport × SessionStore
  unfolding Assoc.insert Assoc.remove
  shutdown_one id (true, s) (report, store) =
      (record report { terminated = report.terminated + 1 }, Assoc.remove id store)
  shutdown_one id (false, s) (report, store) =
      (record report { timed_out = report.timed_out + 1 }, Assoc.insert id s store)

  unfoldable pub shutdown_each :
      SessionStore → SessionShutdownReport × SessionStore → SessionShutdownReport × SessionStore
  unfolding shutdown_one terminate_and_wait
  shutdown_each [] done = done
  shutdown_each ((id, s) ∷ rest) done =
      shutdown_each rest (shutdown_one id (terminate_and_wait (some reason) (wait id) s) done)

  -- `shutdown_matching`, which `shutdown_context` and `shutdown_all` call.
  unfoldable pub shutdown_matching :
      Option String → SessionStore → SessionShutdownReport × SessionStore
  unfolding is_requested shutdown_each
  shutdown_matching fingerprint store =
      let sessions = retain (λ e. is_requested fingerprint e.1) store in
      shutdown_each sessions
        (record { requested = length sessions; terminated = 0; timed_out = 0 }, store)

  -- What becomes of a session that is shut down.
  abbrev pub after_wait : Bool × ExecSession → Option ExecSession
  after_wait (true, s) = none
  after_wait (false, s) = some s

  abbrev pub after_shutdown : String → Option ExecSession → Option ExecSession → Option ExecSession
  after_shutdown j none kept = kept
  after_shutdown j (some s) kept = after_wait (terminate_and_wait (some reason) (wait j) s)

  get-shutdown_one :
      (id j : String) (r : Bool × ExecSession) (done : SessionShutdownReport × SessionStore)
      → Assoc.get j (shutdown_one id r done).1
        ≡ (if str_eq id j then after_wait r else Assoc.get j done.1)
  unfolding shutdown_one
  get-shutdown_one id j (true, s) done = ground (arith, Assoc.get-remove id j done.1)
  get-shutdown_one id j (false, s) done = ground (arith, Assoc.get-insert id j s done.1)

  count-shutdown_one :
      (id : String) (r : Bool × ExecSession) (done : SessionShutdownReport × SessionStore)
      → let after = (shutdown_one id r done).0 in
        (after.requested ≡ done.0.requested)
        × (after.terminated + after.timed_out ≡ done.0.terminated + done.0.timed_out + 1)
  unfolding shutdown_one
  count-shutdown_one id (true, s) done = (refl, omega arith)
  count-shutdown_one id (false, s) done = (refl, omega arith)

  count-shutdown_each :
      (todo : SessionStore) (done : SessionShutdownReport × SessionStore)
      → let after = (shutdown_each todo done).0 in
        (after.requested ≡ done.0.requested)
        × (after.terminated + after.timed_out ≡ done.0.terminated + done.0.timed_out + length todo)
  unfolding shutdown_each
  count-shutdown_each [] done = (refl, omega arith)
  count-shutdown_each ((id, s) ∷ rest) done =
      let r = terminate_and_wait (some reason) (wait id) s in
      let one = count-shutdown_one id r done in
      let each = count-shutdown_each rest (shutdown_one id r done) in
      (each.0 ∙ one.0, omega (arith, each.1, one.1))

  get-shutdown_each :
      (todo : SessionStore) (done : SessionShutdownReport × SessionStore) (j : String)
      → Assoc.Distinct todo
      → Assoc.get j (shutdown_each todo done).1
        ≡ after_shutdown j (Assoc.get j todo) (Assoc.get j done.1)
  unfolding shutdown_each Assoc.get
  get-shutdown_each [] done j d = refl
  get-shutdown_each ((id, s) ∷ rest) done j d =
      let r = terminate_and_wait (some reason) (wait id) s in
      let one = get-shutdown_one id j r done in
      let each = get-shutdown_each rest (shutdown_one id r done) j d.1 in
      let by : Bool → Option ExecSession = λ b. if b then after_wait r else Assoc.get j done.1 in
      elim (Bool-cases (str_eq id j)) [
        | inr h ↦ rw h (each ∙ ap (after_shutdown j (Assoc.get j rest)) (one ∙ ap by h))
        | inl h ↦
            let same : id ≡ j = ground (arith, eq_iff id j, h) in
            let missing = subst (λ k. Assoc.get k rest ≡ none) same d.0 in
            let found = ap (λ k. after_wait (terminate_and_wait (some reason) (wait k) s)) same in
            let gone =
              ap (λ o. after_shutdown j o (Assoc.get j (shutdown_one id r done).1)) missing in
            rw h (each ∙ gone ∙ one ∙ ap by h ∙ found)
      ]

-- The entry of a session after a shutdown: none if it was not there; as it was if it was not to be
-- shut down; else removed if its wait is over, and kept as the wait leaves it if not.
abbrev pub expected :
    (String → Wait) → String → Option String → String → Option ExecSession → Option ExecSession
expected wait reason fingerprint j none = none
expected wait reason fingerprint j (some s) =
    if is_requested fingerprint s
    then after_wait wait reason (terminate_and_wait (some reason) (wait j) s)
    else some s

after_shutdown-expected :
    (wait : String → Wait) (reason : String) (fingerprint : Option String) (j : String)
    (s : ExecSession)
    → after_shutdown wait reason j (if is_requested fingerprint s then some s else none) (some s)
      ≡ expected wait reason fingerprint j (some s)
after_shutdown-expected wait reason fingerprint j s =
    elim (Bool-cases (is_requested fingerprint s)) [ inl h ↦ rw h refl | inr h ↦ rw h refl ]

-- A shutdown does to each session of the table what the wait for it says, leaves those of other
-- contexts as they are, and its report counts each session that was asked for once, as terminated
-- or as timed out.
pub shutdown_matching_lem :
    (wait : String → Wait) (reason : String) (fingerprint : Option String) (store : SessionStore)
    → Assoc.Distinct store
    → let done = shutdown_matching wait reason fingerprint store in
      ((j : String) → Assoc.get j done.1 ≡ expected wait reason fingerprint j (Assoc.get j store))
      × (done.0.requested ≡ length (retain (λ e. is_requested fingerprint e.1) store))
      × (done.0.terminated + done.0.timed_out ≡ done.0.requested)
      × (remaining done.0 ≡ done.0.timed_out)
unfolding shutdown_matching remaining
shutdown_matching_lem wait reason fingerprint store d =
    let p = is_requested fingerprint in
    let todo = retain (λ e. p e.1) store in
    let report : SessionShutdownReport = record {
      requested = length todo;
      terminated = 0;
      timed_out = 0;
    } in
    let counts = count-shutdown_each wait reason todo (report, store) in
    let after = after_shutdown wait reason in
    let each : (j : String)
        → Assoc.get j (shutdown_each wait reason todo (report, store)).1
          ≡ after j (Assoc.get j todo) (Assoc.get j store) =
      λ j. get-shutdown_each wait reason todo (report, store) j (Assoc.Distinct-retain p store d) in
    (
      λ j. elim (Option-cases (Assoc.get j store)) [
        | inl h ↦ rw h (
            each j
            ∙ ap (λ o. after j o (Assoc.get j store)) (Assoc.get-retain-none p j store h)
            ∙ h)
        | inr (s, h) ↦ rw h (
            each j
            ∙ ap (λ o. after j o (Assoc.get j store)) (Assoc.get-retain-some p j s store d h)
            ∙ ap (after j (if p s then some s else none)) h
            ∙ after_shutdown-expected wait reason fingerprint j s)
      ],
      counts.0,
      omega (arith, counts.0, counts.1),
      omega (arith, counts.0, counts.1),
    )
