-- ===== src/Approval/Queue.antt =====
-- src-tauri/src/security/approval.rs: `pending`, `remove_context`, `remove_execution_root` and
-- `normalized_root`.
use gpt_tools_mcp.Prelude.{
  ℕ, ◌-◌, String, Bool, not, ◌&&◌, ◌||◌, List, [], ◌∷◌, map, Option, none, some, ltb, ◌==◌, length,
  retain, str_eq, if◌then◌else◌,
}
use gpt_tools_mcp.Prelude.Text.{codes, codes_eq, slashes, ascii_lower, trim_end_slashes}
use gpt_tools_mcp.Approval.{Platform, Record, ApprovalStatus, is_pending, status_of}
use gpt_tools_mcp.Prelude.Text.{before}
use gpt_tools_mcp.Approval.Store.{ApprovalStore, cleanup_locked, cleaned}

-- One element of the vector that `pending` sorts.
abbrev pub Row : Type 0
Row = ℕ × String × ApprovalStatus

-- `left.0.cmp(&right.0).then_with(|| left.1.cmp(&right.1))` is not `Greater`.
unfoldable pub row_le : Row → Row → Bool
unfolding before
row_le a b = ltb a.0 b.0 || (a.0 == b.0 && not (before (codes b.1) (codes a.1)))

-- `sort_by` is stable; this is the stable sort by insertion.
unfoldable pub insert_row : Row → List Row → List Row
insert_row a [] = a ∷ []
insert_row a (b ∷ rows) = if row_le a b then a ∷ b ∷ rows else b ∷ insert_row a rows

unfoldable pub sort_rows : List Row → List Row
unfolding row_le insert_row
sort_rows [] = []
sort_rows (a ∷ rows) = insert_row a (sort_rows rows)

abbrev pub row_of : Platform → ℕ → String × Record → Row
row_of p now e = (e.1.sequence, e.0, status_of p e.1 e.0 now)

abbrev pub pending_rows : Platform → ℕ → List (String × Record) → List Row
pending_rows p now rs = retain (λ row. is_pending row.2.decision) (map (row_of p now) rs)

-- `pending`.
unfoldable pub pending_list : Platform → ℕ → ApprovalStore → ApprovalStore × List ApprovalStatus
unfolding sort_rows cleanup_locked status_of
pending_list p now s = if s.records_poisoned then (s, []) else (
  cleaned now s,
  map (λ row. row.2) (sort_rows (pending_rows p now (cleanup_locked now s.records))),
)

-- `remove_context`.
unfoldable pub remove_context : String → ℕ → ApprovalStore → ApprovalStore
unfolding cleanup_locked
remove_context context now s = if s.records_poisoned then s else record s {
  records = retain (λ e. not (str_eq e.1.scope.context context)) (cleanup_locked now s.records);
}

abbrev or_itself : String → Option String → String
or_itself value none = value
or_itself value (some path) = path

-- `normalized_root`, as code points.
unfoldable pub normalized_root : Platform → String → List ℕ
unfolding trim_end_slashes
normalized_root p value =
    map ascii_lower (trim_end_slashes (slashes (codes (or_itself value (p.canonicalize value)))))

abbrev pub is_at_root : Platform → String → Record → Bool
is_at_root p root r = codes_eq (normalized_root p r.scope.execution_root) (normalized_root p root)

-- `remove_execution_root`; the number is of the records that it removed.
unfoldable pub remove_execution_root : Platform → String → ℕ → ApprovalStore → ApprovalStore × ℕ
unfolding cleanup_locked normalized_root codes_eq
remove_execution_root p root now s =
    if s.records_poisoned
    then (s, 0)
    else let rs = cleanup_locked now s.records in
      let left = retain (λ e. not (is_at_root p root e.1)) rs in
      (record s { records = left }, length rs - length left)
