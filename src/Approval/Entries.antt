-- ===== src/Approval/Entries.antt =====
-- How the operations of the approval store (src-tauri/src/security/approval.rs) carry a predicate
-- on the record of one id from a store to the next.
use gpt_tools_mcp.Prelude.{
  ℕ, String, ◌≡◌, inl, inr, refl, subst, Bool, true, false, List, Option, none, some, arith, str_eq,
  eq_iff, leb, length, retain, if◌then◌else◌, Bool-cases, Option-cases,
}
use gpt_tools_mcp.Prelude.Assoc.{get, insert, get-insert, get-retain-none, get-retain-some}
use gpt_tools_mcp.Approval.{Platform, Record, capacity, ApprovalStatus}
use gpt_tools_mcp.Approval.Fingerprint.{fingerprint_of}
use gpt_tools_mcp.Approval.Store.{
  ApprovalStore, Result, Request, cleaned, expire, is_kept, cleanup_locked, resume, new_record,
  usable_id, err, store_unavailable, or_create, request_with_details, create,
}
use gpt_tools_mcp.Approval.Decide.{with_record}
use gpt_tools_mcp.Approval.Cleanup.{get-cleanup, after_cleanup}
use gpt_tools_mcp.Approval.Invariant.{IsWellFormed, with_record_cases}

-- The record of an id, if there is one, satisfies `Q`.
abbrev pub At : String → (Record → Type 0) → ApprovalStore → Type 0
At id Q s = (r : Record) → get id s.records ≡ some r → Q r

module _ (id : String) (Q : Record → Type 0) where
  pub after_cleanup-At :
      (now : ℕ)
      → ((r : Record) → Q r → Q (expire now r))
      → (o : Option Record) → ((r : Record) → o ≡ some r → Q r)
      → (r : Record) → after_cleanup now o ≡ some r
      → Q r
  after_cleanup-At now keeps none h r e = cc
  after_cleanup-At now keeps (some x) h r e = elim (Bool-cases (is_kept now (expire now x))) [
    | inl k ↦ subst Q (ground arith) (keeps x (h x refl))
    | inr k ↦ absurd (ground arith)
  ]

  pub cleaned-At :
      (now : ℕ) (s : ApprovalStore)
      → IsWellFormed s
      → ((r : Record) → Q r → Q (expire now r))
      → At id Q s
      → At id Q (cleaned now s)
  cleaned-At now s v keeps h r e =
      after_cleanup-At now keeps (get id s.records) h r
        (cc (get-cleanup now id s.records v.distinct))

  pub inserted-At :
      (j : String) (x : Record) (m : List (String × Record))
      → (j ≡ id → Q x)
      → ((r : Record) → get id m ≡ some r → Q r)
      → (r : Record) → get id (insert j x m) ≡ some r
      → Q r
  inserted-At j x m new old r e = elim (Bool-cases (str_eq j id)) [
    | inl k ↦ subst Q (ground (arith, get-insert j id x m)) (new ((eq_iff j id).0 k))
    | inr k ↦ old r (ground (arith, get-insert j id x m))
  ]

  pub with_record-At {ℓ} :
      {A : Type ℓ} (j : String) (now : ℕ) (s : ApprovalStore) (act : Record → Record × Result A)
      → IsWellFormed s
      → ((r : Record) → Q r → Q (expire now r))
      → ((r : Record) → j ≡ id → Q r → Q (act r).0)
      → At id Q s
      → At id Q (with_record j now s act).0
  with_record-At j now s act v keeps acts h =
      let c = cleaned-At now s v keeps h in
      with_record_cases (At id Q) j now s act h c λ r e.
        inserted-At j (act r).0 (cleanup_locked now s.records)
          (λ same. acts r same (c r (rw (← same) e))) c

  pub retained-At :
      (keep : Record → Bool) (s : ApprovalStore)
      → IsWellFormed s
      → At id Q s
      → At id Q (record s { records = retain (λ e. keep e.1) s.records })
  retained-At keep s v h r e = elim (Option-cases (get id s.records)) [
    | inl n ↦ absurd (cc (get-retain-none keep id s.records n))
    | inr (x, n) ↦ elim (Bool-cases (keep x)) [
      | inl k ↦ h r (ground (arith, get-retain-some keep id x s.records v.distinct))
      | inr k ↦ absurd (ground (arith, get-retain-some keep id x s.records v.distinct))
    ]
  ]

  pub create-At :
      (p : Platform) (q : Request) (s : ApprovalStore)
      → (q.uuid ≡ id → (n : ℕ) → Q (new_record p q n))
      → At id Q s
      → At id Q (create p q s).0
  unfolding create
  create-At p q s new h r e = elim (Bool-cases (leb capacity (length s.records))) [
    | inl full ↦ h r (ground arith)
    | inr room ↦ elim (Bool-cases s.sequence_poisoned) [
      | inl bad ↦ h r (ground arith)
      | inr good ↦
          inserted-At q.uuid (new_record p q s.next_sequence) s.records
            (λ same. new same s.next_sequence) h r (ground arith)
    ]
  ]

  pub request-At :
      (p : Platform) (q : Request) (s : ApprovalStore)
      → IsWellFormed s
      → ((r : Record) → Q r → Q (expire q.now r))
      → (q.uuid ≡ id → (n : ℕ) → Q (new_record p q n))
      → At id Q s
      → At id Q (request_with_details p q s).0
  unfolding request_with_details
  request-At p q s v keeps new h = go s.records_poisoned (
      resume p q.scope q.tool (fingerprint_of p q.tool q.args) (usable_id q.request_id) q.now
        (cleanup_locked q.now s.records))
    where
      c : At id Q (cleaned q.now s)
      c = cleaned-At q.now s v keeps h

      go :
          (poisoned : Bool) (o : Option (Result ApprovalStatus))
          → At id Q
              (if poisoned then (s, err store_unavailable) else or_create p q (cleaned q.now s) o).0
      go true o = h
      go false (some result) = c
      go false none = create-At p q (cleaned q.now s) new c
