-- ===== src/Session/Kill.antt =====
-- `kill_session` of src-tauri/src/tools/session.rs.
use gpt_tools_mcp.Prelude.{
  ℕ, ◌≡◌, refl, sym, ap, ◌∙◌, String, Bool, true, false, none, some, ◌⊎◌, inl, inr, str_eq, eq_iff,
  if◌then◌else◌, Bool-cases, arith,
}
use gpt_tools_mcp.Prelude.Assoc
use gpt_tools_mcp.Json.{Value, get_key, as_str, as_u64, or_default}
use gpt_tools_mcp.Session.{
  ExecSession, Waited, still_running, ended, Snapshot, refresh_status, record_exit_status,
  mark_termination_reason, snapshot,
}
use gpt_tools_mcp.Session.Store.{SessionStore, Answer, required, with_session, owned_session}

pub record Killed : Type 0 where
  pub snapshot : Snapshot
  pub killed : Bool
  pub evicted : Bool

-- The session after the signal was sent and the wait for its end is over.
unfoldable pub signalled : Waited → Waited → ExecSession → ExecSession
unfolding refresh_status
signalled first second s =
    refresh_status second (refresh_status first (mark_termination_reason "killed" s))

unfoldable pub answer : ℕ → String → Bool → Bool → ExecSession → Killed
unfolding snapshot
answer max_output_bytes status killed evicted s = record {
  snapshot = record (snapshot max_output_bytes s) { status = status };
  killed = killed;
  evicted = evicted;
}

-- The answer and the table, from the session before the signal and after the wait.
unfoldable pub settle : ℕ → String → SessionStore → ExecSession → ExecSession → Answer Killed
unfolding answer Assoc.insert Assoc.remove
settle max_output_bytes id store seen now =
    if seen.exited
    then (inr (answer max_output_bytes "exited" false true seen), Assoc.remove id store)
    else if now.exited
    then (inr (answer max_output_bytes "killed" true true now), Assoc.remove id store)
    else (inr (answer max_output_bytes "terminating" false false now), Assoc.insert id now store)

unfoldable pub kill :
    Waited → Waited → Waited → ℕ → String → SessionStore → ExecSession → Answer Killed
unfolding refresh_status signalled settle
kill before first second max_output_bytes id store s =
    let seen = refresh_status before s in
    settle max_output_bytes id store seen (signalled first second seen)

-- `kill_session`, with the answers of `try_wait` before the signal and, twice, after the wait.
unfoldable pub kill_session :
    String → Waited → Waited → Waited → Value → SessionStore → Answer Killed
unfolding get_key with_session kill
kill_session fingerprint before first second args store =
    let max_output_bytes = or_default 65536 (as_u64 (get_key "max_output_bytes" args)) in
    elim (required (as_str (get_key "session_id" args))) [
      | inl e ↦ (inl e, store)
      | inr id ↦
          with_session fingerprint id (kill before first second max_output_bytes id store) store
    ]

-- An answer of `try_wait` that the process has ended.
abbrev pub HasEnded : Waited → Type 0
HasEnded still_running = ⊥
HasEnded (ended code) = Unit

-- The process had ended before, or one of the answers of `try_wait` says so.
abbrev pub IsOver : Waited → Waited → Waited → ExecSession → Type 0
IsOver before first second s =
    (s.exited ≡ true) ⊎ (HasEnded before ⊎ (HasEnded first ⊎ HasEnded second))

-- The process runs on, and its session is marked.
pub record RunsOn (s : ExecSession) : Type 0 where
  pub running : s.exited ≡ false
  pub marked : s.termination_reason ≡ some "killed"

-- What the table holds under the id, by whether the answer says that the session is evicted.
abbrev pub Kept : Bool → String → SessionStore → Type 0 → Type 0
Kept true id after over = (Assoc.get id after ≡ none) × over
Kept false id after over = (now : ExecSession) × (Assoc.get id after ≡ some now) × RunsOn now

abbrev pub evicted_of : Answer Killed → Bool
evicted_of (inl e, after) = false
evicted_of (inr k, after) = k.evicted

refresh_status-HasEnded :
    (w : Waited) (s : ExecSession)
    → (refresh_status w s).exited ≡ true
    → (s.exited ≡ true) ⊎ HasEnded w
unfolding refresh_status
refresh_status-HasEnded still_running s h = inl h
refresh_status-HasEnded (ended code) s h = inr tt

refresh_status-running :
    (w : Waited) (s : ExecSession) → (refresh_status w s).exited ≡ false → refresh_status w s ≡ s
unfolding refresh_status record_exit_status
refresh_status-running still_running s h = refl
refresh_status-running (ended code) s h = absurd (cc)

signalled-RunsOn :
    (first second : Waited) (s : ExecSession)
    → (signalled first second s).exited ≡ false
    → RunsOn (signalled first second s)
unfolding signalled
signalled-RunsOn first second s h =
    let marked = mark_termination_reason "killed" s in
    let once = refresh_status first marked in
    let second_same = refresh_status-running second once h in
    let first_running : once.exited ≡ false = sym (ap (λ t. t.exited) second_same) ∙ h in
    let same = second_same ∙ refresh_status-running first marked first_running in
    record { running = h; marked = ap (λ t. t.termination_reason) same }

signalled-IsOver :
    (before first second : Waited) (s : ExecSession)
    → (signalled first second (refresh_status before s)).exited ≡ true
    → IsOver before first second s
unfolding signalled
signalled-IsOver before first second s h =
    let seen = refresh_status before s in
    let once = refresh_status first (mark_termination_reason "killed" seen) in
    elim (refresh_status-HasEnded second once h) [
      | inr e ↦ inr (inr (inr e))
      | inl h₁ ↦ elim (refresh_status-HasEnded first (mark_termination_reason "killed" seen) h₁) [
        | inr e ↦ inr (inr (inl e))
        | inl h₂ ↦ elim (refresh_status-HasEnded before s h₂) [
          | inr e ↦ inr (inl e)
          | inl h₃ ↦ inl h₃
        ]
      ]
    ]

get-insert_self :
    (id : String) (s : ExecSession) (m : SessionStore) → Assoc.get id (Assoc.insert id s m) ≡ some s
get-insert_self id s m = ground (arith, Assoc.get-insert id id s m, eq_iff id id)

get-remove_self : (id : String) (m : SessionStore) → Assoc.get id (Assoc.remove id m) ≡ none
get-remove_self id m = ground (arith, Assoc.get-remove id id m, eq_iff id id)

settle-Kept :
    (n : ℕ) (id : String) (store : SessionStore) (seen now : ExecSession) (over : Type 0)
    → (seen.exited ≡ true → over)
    → (now.exited ≡ true → over)
    → (now.exited ≡ false → RunsOn now)
    → let done = settle n id store seen now in Kept (evicted_of done) id done.1 over
unfolding settle answer
settle-Kept n id store seen now over ended_before ended_after running =
    elim (Bool-cases seen.exited) [
      | inl h ↦ rw h (get-remove_self id store, ended_before h)
      | inr h ↦ elim (Bool-cases now.exited) [
        | inl e ↦ rw (h, e) (get-remove_self id store, ended_after e)
        | inr e ↦
            let kept = record now { exited = false } in
            let same : kept ≡ now = ap (λ b. record now { exited = b }) (sym e) in
            rw (h, e) (now, get-insert_self id kept store ∙ ap some same, running e)
      ]
    ]

settle-get :
    (n : ℕ) (id j : String) (store : SessionStore) (seen now : ExecSession)
    → str_eq id j ≡ false
    → Assoc.get j (settle n id store seen now).1 ≡ Assoc.get j store
unfolding settle
settle-get n id j store seen now h =
    ground (arith, Assoc.get-insert id j now store, Assoc.get-remove id j store)

kill-Kept :
    (before first second : Waited) (n : ℕ) (id : String) (store : SessionStore) (s : ExecSession)
    → let done = kill before first second n id store s in
      Kept (evicted_of done) id done.1 (IsOver before first second s)
unfolding kill
kill-Kept before first second n id store s =
    let seen = refresh_status before s in
    settle-Kept n id store seen (signalled first second seen) (IsOver before first second s)
      (λ h. elim (refresh_status-HasEnded before s h) [ inl e ↦ inl e | inr e ↦ inr (inl e) ])
      (signalled-IsOver before first second s) (signalled-RunsOn first second seen)

-- A kill of a session of this context takes it from the table only if its process was seen to have
-- ended, keeps it, marked as killed, if it was not, and changes no other session.
pub kill_session_lem :
    (fingerprint : String) (before first second : Waited) (args : Value) (store : SessionStore)
    (id : String) (s : ExecSession)
    → as_str (get_key "session_id" args) ≡ some id
    → owned_session fingerprint id store ≡ inr s
    → let done = kill_session fingerprint before first second args store in
      Kept (evicted_of done) id done.1 (IsOver before first second s)
      × ((j : String) → str_eq id j ≡ false → Assoc.get j done.1 ≡ Assoc.get j store)
unfolding kill_session with_session kill
kill_session_lem fingerprint before first second args store id s named owned =
    let n = or_default 65536 (as_u64 (get_key "max_output_bytes" args)) in
    let seen = refresh_status before s in
    rw (kill_session, named, with_session, owned)
      (
        kill-Kept before first second n id store s,
        λ j. settle-get n id j store seen (signalled first second seen),
      )
