-- ===== src/Exec/Ends.antt =====
-- The wait of src-tauri/src/tools/exec.rs for a process comes to an end.
use gpt_tools_mcp.Prelude.{
  ℕ, zero, suc, ◌+◌, ◌*◌, ◌-◌, ◌≤◌, ◌<◌, ◌≡◌, refl, subst, true, false, not, ◌&&◌, ◌||◌, leb, ◌==◌,
  ==_iff, ◌≢◌, sym, Option, none, some, ◌⊎◌, inl, inr, arith, Bool-cases,
}
use gpt_tools_mcp.Prelude.Result.{Result-cases, inl_injective}
use gpt_tools_mcp.Prelude.Text.{is_empty}
use gpt_tools_mcp.Session.{ExecSession, refresh_status, mark_termination_reason}
use gpt_tools_mcp.Session.Store.{closed, write_failed, written}
use gpt_tools_mcp.Exec.{Poll, Runner, Input, returns, blocks}
use gpt_tools_mcp.Exec.Wait.{
  Limits, finished, timed_out, runs_on, Ended, Waits, blocked, not_written, waited_for, ends,
  read_by, waits_of, kill_overdue, turn, wait_loop, write_text, await_process,
}

-- Each turn is at least 20 ms after the one before.
abbrev pub IsPaced : ℕ → (ℕ → Poll) → Type 0
IsPaced start polls = (i : ℕ) → start + i * 20000000 ≤ (polls i).at_yield

-- How the wait goes on from a turn: a process that has not ended is waited for while there is time,
-- and it is killed at its deadline, or left to run when the time to wait is over.
pub data Concludes (start : ℕ) (l : Limits) (polls : ℕ → Poll)
    : ℕ → ExecSession → Ended → Type 0 where
  goes_on :
      {i : ℕ} {s : ExecSession} {e : Ended}
      → (refresh_status (polls i).waited s).exited ≡ false
      → l.tty ≡ false
      → (polls i).at_deadline < start + l.limit
      → (polls i).at_yield < start + l.yield_time
      → Concludes start l polls (suc i) (refresh_status (polls i).waited s) e
      → Concludes start l polls i s e
  has_ended :
      {i : ℕ} {s : ExecSession} {e : Ended}
      → (refresh_status (polls i).waited s).exited ≡ true
      → ends (polls i) finished (refresh_status (polls i).waited s) ≡ e
      → Concludes start l polls i s e
  overdue :
      {i : ℕ} {s : ExecSession} {e : Ended}
      → (refresh_status (polls i).waited s).exited ≡ false
      → l.tty ≡ false
      → start + l.limit ≤ (polls i).at_deadline
      → ends (polls i) timed_out (
          refresh_status (polls i).second (
            refresh_status
              (polls i).first
              (mark_termination_reason "timeout" (refresh_status (polls i).waited s))))
        ≡ e
      → Concludes start l polls i s e
  is_left :
      {i : ℕ} {s : ExecSession} {e : Ended}
      → (refresh_status (polls i).waited s).exited ≡ false
      → (l.tty ≡ true)
        ⊎ (((polls i).at_deadline < start + l.limit) × (start + l.yield_time ≤ (polls i).at_yield))
      → ends (polls i) runs_on (refresh_status (polls i).waited s) ≡ e
      → Concludes start l polls i s e

module _ (start : ℕ) (l : Limits) (polls : ℕ → Poll) where
  turn-Concludes :
      (i : ℕ) (s : ExecSession) (e : Ended)
      → start ≤ (polls i).at_yield
      → turn start l (polls i) s ≡ inl e
      → Concludes start l polls i s e
  unfolding turn kill_overdue
  turn-Concludes i s e paced h =
      let p = polls i in
      let seen = refresh_status p.waited s in
      let due = not l.tty && leb (start + l.limit) p.at_deadline in
      let over = leb l.yield_time (p.at_yield - start) || l.tty in
      let same_end : (f : Ended) → ◌≡◌ {A = Ended ⊎ ExecSession} (inl f) (inl e) → f ≡ e =
        λ f. inl_injective f e in
      elim (Bool-cases seen.exited) [
        | inl a ↦ has_ended a (same_end (ends p finished seen) (ground (arith, h, a)))
        | inr a ↦ elim (Bool-cases due) [
          | inl b ↦
              overdue a (ground (arith, b)) (ground (arith, b))
                (same_end (ends p timed_out (kill_overdue p seen)) (ground (arith, h, a, b)))
          | inr b ↦ elim (Bool-cases over) [
            | inl c ↦
                is_left a
                  (elim (Bool-cases l.tty) [
                    | inl t ↦ inl t
                    | inr t ↦ inr (ground (arith, b, t), ground (arith, c, t, paced))
                  ])
                  (same_end (ends p runs_on seen) (ground (arith, h, a, b, c)))
            | inr c ↦ absurd (ground (arith, h, a, b, c))
          ]
        ]
      ]

  turn-goes :
      (i : ℕ) (s next : ExecSession)
      → start ≤ (polls i).at_yield
      → turn start l (polls i) s ≡ inr next
      → ((refresh_status (polls i).waited s).exited ≡ false)
        × (l.tty ≡ false)
        × ((polls i).at_deadline < start + l.limit)
        × ((polls i).at_yield < start + l.yield_time)
        × (refresh_status (polls i).waited s ≡ next)
  unfolding turn
  turn-goes i s next paced h = ground (arith, h, paced)

  -- With turns left for the whole time the loop ends, as it should.
  wait_loop-ends :
      (n i : ℕ) (s : ExecSession)
      → IsPaced start polls
      → l.yield_time ≤ (i + n) * 20000000
      → (e : Ended) × (wait_loop (suc n) start l polls i s ≡ some e) × Concludes start l polls i s e
  unfolding wait_loop
  wait_loop-ends zero i s paced enough = elim (Result-cases (turn start l (polls i) s)) [
    | inl (e, t) ↦ (e, rw (t, wait_loop) refl, turn-Concludes i s e (omega (arith, paced i)) t)
    | inr (next, t) ↦
        let (running, quiet, early, short, same) = turn-goes i s next (omega (arith, paced i)) t in
        absurd (omega (arith, short, paced i, enough))
  ]
  wait_loop-ends (suc n) i s paced enough = elim (Result-cases (turn start l (polls i) s)) [
    | inl (e, t) ↦ (e, rw (t, wait_loop) refl, turn-Concludes i s e (omega (arith, paced i)) t)
    | inr (next, t) ↦
        let (running, quiet, early, short, same) = turn-goes i s next (omega (arith, paced i)) t in
        let (e, over, rest) = wait_loop-ends n (suc i) next paced (omega (arith, enough)) in
        (
          e,
          rw (t, wait_loop) over,
          goes_on running quiet early short
              (subst (λ x. Concludes start l polls (suc i) x e) (sym same) rest),
        )
  ]

-- A write that does not return: the process does not read its input.
abbrev pub IsBlocked : Runner → Limits → Type 0
IsBlocked r l =
    (r.stdin ≡ blocks) × (l.tty ≡ false) × (is_empty l.stdin_text ≡ false) × (l.yield_time ≢ 0)

-- How the wait for a process that was started is over. Without a time to wait it is over at once;
-- otherwise the text is written, and the loop is at its first turn.
abbrev pub IsConcluded : Runner → Limits → ExecSession → Waits → Type 0
IsConcluded r l s blocked = IsBlocked r l
IsConcluded r l s (not_written after) =
    (r.stdin ≡ returns write_failed) × (l.tty ≡ false) × (after ≡ s)
IsConcluded r l s (waited_for none) = ⊥
IsConcluded r l s (waited_for (some e)) =
    ((l.yield_time ≡ 0)
      × (record { how = runs_on; session = read_by r.at_once.0 r.at_once.1 s } ≡ e))
    ⊎ ((after : ExecSession) × (write_text r.stdin l s ≡ some (inr after))
        × Concludes r.start l r.polls 0 after e)

write_text-failed :
    (input : Input) (l : Limits) (s after : ExecSession)
    → write_text input l s ≡ some (inl after)
    → (input ≡ returns write_failed) × (l.tty ≡ false) × (after ≡ s)
unfolding write_text
write_text-failed (returns closed) l s after h = absurd (ground (arith, h))
write_text-failed (returns write_failed) l s after h = (refl, ground (arith, h), ground (arith, h))
write_text-failed (returns written) l s after h = absurd (ground (arith, h))
write_text-failed blocks l s after h = absurd (ground (arith, h))

write_text-blocked :
    (input : Input) (l : Limits) (s : ExecSession)
    → write_text input l s ≡ none
    → (input ≡ blocks) × (l.tty ≡ false) × (is_empty l.stdin_text ≡ false)
unfolding write_text
write_text-blocked (returns closed) l s h = absurd (ground (arith, h))
write_text-blocked (returns write_failed) l s h = absurd (ground (arith, h))
write_text-blocked (returns written) l s h = absurd (ground (arith, h))
write_text-blocked blocks l s h = (refl, ground (arith, h), ground (arith, h))

waits_of-IsConcluded :
    (r : Runner) (l : Limits) (s : ExecSession) (x : Option (ExecSession ⊎ ExecSession))
    → write_text r.stdin l s ≡ x
    → IsPaced r.start r.polls
    → l.yield_time ≤ 30000000000
    → l.yield_time ≢ 0
    → IsConcluded r l s (waits_of r l x)
unfolding waits_of
waits_of-IsConcluded r l s none w paced short some_time =
    let (stuck, quiet, given) = write_text-blocked r.stdin l s w in (stuck, quiet, given, some_time)
waits_of-IsConcluded r l s (some (inl after)) w paced short some_time =
    write_text-failed r.stdin l s after w
waits_of-IsConcluded r l s (some (inr after)) w paced short some_time =
    let (e, over, fits) =
      wait_loop-ends r.start l r.polls 1500 0 after paced (omega (arith, short)) in
    rw over (inr (after, w, fits))

pub await_process-IsConcluded :
    (r : Runner) (l : Limits) (s : ExecSession)
    → IsPaced r.start r.polls
    → l.yield_time ≤ 30000000000
    → IsConcluded r l s (await_process r l s)
unfolding await_process
await_process-IsConcluded r l s paced short = elim (Bool-cases (l.yield_time == 0)) [
  | inl z ↦ rw z (inl ((==_iff l.yield_time 0).0 z, refl))
  | inr z ↦ rw z (
      waits_of-IsConcluded r l s (write_text r.stdin l s) refl paced short
        (λ e. ground (arith, z, e)))
]
