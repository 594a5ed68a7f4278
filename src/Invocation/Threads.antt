-- ===== src/Invocation/Threads.antt =====
-- The handoff of src-tauri/src/tools/authorized_invocation.rs among threads: each access to the
-- atomic state is one step, and the threads take their steps in any order.
use gpt_tools_mcp.Prelude.{
  ℕ, ◌+◌, ◌-◌, ◌≤◌, ◌<◌, ◌≡◌, refl, true, false, Bool, List, [], ◌∷◌, All, length, arith, eq_iff,
  if◌then◌else◌, Bool-cases, inl, inr,
}
use gpt_tools_mcp.Invocation.{
  AuthorizedInvocation, Caller, State, Reserved, available, granted, new, effect_args, matches,
  reserve, commit, drop_reservation,
}
use gpt_tools_mcp.Invocation.Equality.{value_eq_iff}

-- The shared handoff, the reservations that threads hold, and the callers that were granted one.
pub record System : Type 0 where
  pub invocation : AuthorizedInvocation
  pub held : ℕ
  pub callers : List Caller

abbrev pub start : Caller → System
start c = record { invocation = new c; held = 0; callers = [] }

abbrev pub is_granted : Reserved → Bool
is_granted granted = true
is_granted _ = false

abbrev pub after_reserve : System → Caller → System
after_reserve s c =
    let got = is_granted (reserve s.invocation c).1 in
    record {
      invocation = (reserve s.invocation c).0;
      held = if got then s.held + 1 else s.held;
      callers = if got then c ∷ s.callers else s.callers;
    }

-- A thread calls `reserve`, or commits or drops a reservation that it holds.
pub data Step : System → System → Type 0 where
  reserves : (s : System) (c : Caller) → Step s (after_reserve s c)
  commits :
      (s : System)
      → 0 < s.held
      → Step s (record s { invocation = commit s.invocation; held = s.held - 1 })
  drops :
      (s : System)
      → 0 < s.held
      → Step s (record s { invocation = drop_reservation s.invocation; held = s.held - 1 })

pub data Reach (s : System) : System → Type 0 where
  here : Reach s s
  next : {t u : System} → Reach s t → Step t u → Reach s u

abbrev pub is_available : State → Bool
is_available available = true
is_available _ = false

-- The same operation in the same context under the same policy.
pub record SameOperation (c d : Caller) : Type 0 where
  pub context : c.execution_fingerprint ≡ d.execution_fingerprint
  pub policy : c.permission_revision ≡ d.permission_revision
  pub tool : c.tool ≡ d.tool
  pub effect : effect_args c.args ≡ effect_args d.args

record IsOnce (c : Caller) (s : System) : Type 0 where
  tool : s.invocation.tool ≡ c.tool
  effect : s.invocation.effect ≡ effect_args c.args
  context : s.invocation.execution_fingerprint ≡ c.execution_fingerprint
  policy : s.invocation.policy_revision ≡ c.permission_revision
  once : length s.callers + (if is_available s.invocation.state then 1 else 0) ≤ 1
  same : All (SameOperation c) s.callers

matches-SameOperation :
    (c d : Caller) (s : System) → IsOnce c s → matches s.invocation d ≡ true → SameOperation c d
unfolding matches
matches-SameOperation c d s v h =
    let i = s.invocation in
    let f = eq_iff i.execution_fingerprint d.execution_fingerprint in
    let p = eq_iff i.policy_revision d.permission_revision in
    let t = eq_iff i.tool d.tool in
    let e = value_eq_iff i.effect (effect_args d.args) in
    record {
      context = ground (arith, v.context, f);
      policy = ground (arith, v.policy, f, p);
      tool = ground (arith, v.tool, f, p, t);
      effect = ground (arith, v.effect, f, p, t, e);
    }

reserve-IsOnce : (c d : Caller) (s : System) → IsOnce c s → IsOnce c (after_reserve s d)
unfolding reserve
reserve-IsOnce c d s v = elim (Bool-cases (matches s.invocation d)) [
  | inr n ↦ ground arith
  | inl y ↦ let same = matches-SameOperation c d s v y in ground (arith, same)
]

Step-IsOnce : {c : Caller} {s t : System} → Step s t → IsOnce c s → IsOnce c t
unfolding commit drop_reservation
Step-IsOnce (reserves s d) v = reserve-IsOnce _ d s v
Step-IsOnce (commits s h) v = ground arith
Step-IsOnce (drops s h) v = ground arith

Reach-IsOnce : {c : Caller} {s t : System} → Reach s t → IsOnce c s → IsOnce c t
Reach-IsOnce here v = v
Reach-IsOnce (next r st) v = Step-IsOnce st (Reach-IsOnce r v)

-- However threads interleave their calls, commits and drops, an authorization is granted to at
-- most one call, and that call has the tool, the effective arguments, the execution context and
-- the policy revision that were authorized.
pub granted_once :
    (c : Caller) {s : System}
    → Reach (start c) s
    → (length s.callers ≤ 1) × All (SameOperation c) s.callers
granted_once c r =
    let v = Reach-IsOnce r (record {
      tool = refl;
      effect = refl;
      context = refl;
      policy = refl;
      once = omega arith;
      same = tt;
    }) in
    (omega (arith, v.once), v.same)
