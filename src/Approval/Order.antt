-- ===== src/Approval/Order.antt =====
-- The order of the desktop's list of pending requests, and what a revocation removes
-- (src-tauri/src/security/approval.rs).
use mathlib.Core.List.{Perm}
use mathlib.Core.List.Perm
use gpt_tools_mcp.Prelude.{
  ℕ, ◌≡◌, inl, inr, true, false, List, [], ◌∷◌, arith, ==_iff, Bool-cases, map,
}
use gpt_tools_mcp.Prelude.Text.{codes}
use gpt_tools_mcp.Approval.{Platform}
use gpt_tools_mcp.Approval.Store.{ApprovalStore, cleanup_locked}
use gpt_tools_mcp.Approval.Queue.{Row, row_le, insert_row, sort_rows, pending_rows, pending_list}
use gpt_tools_mcp.Approval.Canonical.{before_asymm}

row_le_total : (a b : Row) → row_le a b ≡ false → row_le b a ≡ true
unfolding row_le
row_le_total (m, i, s) (n, j, t) h =
    ground (arith, before_asymm (codes j) (codes i), ==_iff m n, ==_iff n m)

-- Each row is at most its successor: oldest sequence number first, ties by the id.
abbrev pub IsSorted : List Row → Type 0
IsSorted [] = Unit
IsSorted (a ∷ []) = Unit
IsSorted (a ∷ b ∷ rows) = (row_le a b ≡ true) × IsSorted (b ∷ rows)

insert_row-IsSorted : (a : Row) (rows : List Row) → IsSorted rows → IsSorted (insert_row a rows)
unfolding insert_row
insert_row-IsSorted a [] h = tt
insert_row-IsSorted a (b ∷ []) h = ground (arith, row_le_total a b)
insert_row-IsSorted a (b ∷ c ∷ rows) h =
    ground (arith, row_le_total a b, insert_row-IsSorted a (c ∷ rows) h.1)

insert_row-perm : (a : Row) (rows : List Row) → Perm (insert_row a rows) (a ∷ rows)
unfolding insert_row
insert_row-perm a [] = Perm.refl (a ∷ [])
insert_row-perm a (b ∷ rows) = elim (Bool-cases (row_le a b)) [
  | inl e ↦ rw e (Perm.refl (a ∷ b ∷ rows))
  | inr e ↦ rw e (Perm.trans (Perm.cons b (insert_row-perm a rows)) (Perm.swap a b rows))
]

pub sort_rows-IsSorted : (rows : List Row) → IsSorted (sort_rows rows)
unfolding sort_rows
sort_rows-IsSorted [] = tt
sort_rows-IsSorted (a ∷ rows) = insert_row-IsSorted a (sort_rows rows) (sort_rows-IsSorted rows)

pub sort_rows-perm : (rows : List Row) → Perm (sort_rows rows) rows
unfolding sort_rows
sort_rows-perm [] = Perm.refl []
sort_rows-perm (a ∷ rows) =
    Perm.trans (insert_row-perm a (sort_rows rows)) (Perm.cons a (sort_rows-perm rows))

-- `pending` lists every request that is pending after the clean-up, each as often as it is in the
-- store, by the order of their sequence numbers and then of their ids.
pub pending_list_lem :
    (p : Platform) (now : ℕ) (s : ApprovalStore)
    → s.records_poisoned ≡ false
    → (rows : List Row) × ((pending_list p now s).1 ≡ map (λ row. row.2) rows)
      × IsSorted rows
      × Perm rows (pending_rows p now (cleanup_locked now s.records))
unfolding pending_list
pending_list_lem p now s sound =
    let found = pending_rows p now (cleanup_locked now s.records) in
    (sort_rows found, ground arith, sort_rows-IsSorted found, sort_rows-perm found)
