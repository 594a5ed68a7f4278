-- ===== src/Patch/Whole.antt =====
-- Whole patches of one file (`apply_hunks` of src-tauri/src/tools/patch.rs).
use mathlib.Core.List.{append-nil}
use gpt_tools_mcp.Prelude.{
  ℕ, ◌≡◌, ◌≢◌, ◌⊎◌, inl, inr, refl, sym, ◌∙◌, ap, ap₂, subst, Bool, true, false, not, ◌&&◌, ◌||◌,
  List, [], ◌∷◌, ◌++◌, some, arith, ◌==◌, ==_iff, map, length, length-take, take, drop, all,
  if◌then◌else◌, Bool-cases,
}
use gpt_tools_mcp.Prelude.Text.{codes_eq, codes_eq_iff}
use gpt_tools_mcp.Patch.{
  Text, Hunk, ok, mismatch, panic, hunk_old, apply_lines, apply_hunk, apply_each, apply_hunks,
  split_terminator, trim_returns, has_crlf, ends_with_newline, join, finish, is_nil, cons_first,
  keep_unless_return, line_ending,
}
use gpt_tools_mcp.Patch.Splice.{hunk_new, apply_lines-splice}
use gpt_tools_mcp.Patch.Search.{Occurs, IsFirst, find_hunk_position-Finds}

-- What a hunk may do: replace the first occurrence of its old lines by its new ones and keep all
-- else, or refuse a text in which its old lines do not occur. It never panics.
pub apply_hunk_lem :
    (hunk : Hunk) (lines : List Text)
    → ((before : List Text) × (after : List Text) × Occurs lines (hunk_old hunk.lines) before after
        × IsFirst lines (hunk_old hunk.lines) (length before)
        × (apply_hunk hunk lines ≡ ok (before ++ (hunk_new hunk.lines ++ after))))
      ⊎ (((before after : List Text) → ¬ Occurs lines (hunk_old hunk.lines) before after)
          × (apply_hunk hunk lines ≡ mismatch))
unfolding apply_hunk
apply_hunk_lem hunk lines =
    let old = hunk_old hunk.lines in
    elim (find_hunk_position-Finds lines old) [
      | inr (e, nowhere) ↦ inr (nowhere, rw (e, apply_hunk) refl)
      | inl (pos, e, room, occurs, first) ↦
          let before = take pos lines in
          let after = drop (length old) (drop pos lines) in
          let at_pos : length before ≡ pos = omega (arith, length-take pos lines) in
          let done : apply_lines hunk.lines pos lines
              ≡ some (before ++ (hunk_new hunk.lines ++ after)) =
            subst
              (λ i.
                apply_lines hunk.lines i lines ≡ some (before ++ (hunk_new hunk.lines ++ after)))
              at_pos
              (ap (apply_lines hunk.lines (length before)) occurs.at
                ∙ apply_lines-splice hunk.lines before after) in
          inl (
            before,
            after,
            occurs,
            subst (IsFirst lines old) (sym at_pos) first,
            ground (arith, e, done),
          )
    ]

apply_hunk-ne-panic : (hunk : Hunk) (lines : List Text) → apply_hunk hunk lines ≢ panic
apply_hunk-ne-panic hunk lines h = elim (apply_hunk_lem hunk lines) [
  | inl (before, after, o, f, e) ↦ cc
  | inr (n, e) ↦ cc
]

apply_each-ne-panic : (hunks : List Hunk) (lines : List Text) → apply_each hunks lines ≢ panic
unfolding apply_each
apply_each-ne-panic [] lines h = cc
apply_each-ne-panic (hunk ∷ hunks) lines h = elim (apply_hunk_lem hunk lines) [
  | inl (before, after, o, f, e) ↦
      apply_each-ne-panic hunks (before ++ (hunk_new hunk.lines ++ after)) (ground (arith, e))
  | inr (n, e) ↦ ground (arith, e)
]

-- No patch panics: on every text and every list of hunks the result is a text or a refusal.
pub apply_hunks-ne-panic :
    (original : Text) (hunks : List Hunk) → apply_hunks original hunks ≢ panic
unfolding apply_hunks
apply_hunks-ne-panic original hunks h =
    ground (arith, apply_each-ne-panic hunks (map trim_returns (split_terminator original)))

split_terminator-cons :
    (d : ℕ) (rest : Text)
    → (line : Text) × (lines : List Text) × (split_terminator (d ∷ rest) ≡ line ∷ lines)
unfolding split_terminator
split_terminator-cons d rest = elim (Bool-cases (d == 10)) [
  | inl e ↦ ([], split_terminator rest, rw e refl)
  | inr e ↦ rw e (go (split_terminator rest))
]
  where
    go : (ls : List Text) → (line : Text) × (lines : List Text) × (cons_first d ls ≡ line ∷ lines)
    go [] = (d ∷ [], [], refl)
    go (l ∷ ls) = (d ∷ l, ls, refl)

abbrev pub newline : Text
newline = 10 ∷ []

join-cons_first :
    (c : ℕ) (line : Text) (lines : List Text)
    → join newline ((c ∷ line) ∷ lines) ≡ c ∷ join newline (line ∷ lines)
unfolding join
join-cons_first c line [] = refl
join-cons_first c line (next ∷ lines) = refl

abbrev last_newline : Text → Text
last_newline t = if ends_with_newline t then newline else []

-- Joining the lines of a text and restoring its last newline gives the text.
join-split_terminator :
    (c : ℕ) (rest : Text)
    → join newline (split_terminator (c ∷ rest)) ++ last_newline (c ∷ rest) ≡ c ∷ rest
unfolding split_terminator join ends_with_newline
join-split_terminator c [] = ground (arith)
join-split_terminator c (d ∷ rest) =
    let (l, ls, e) = split_terminator-cons d rest in
    let ih : join newline (l ∷ ls) ++ last_newline (d ∷ rest) ≡ d ∷ rest =
      subst (λ x. join newline x ++ last_newline (d ∷ rest) ≡ d ∷ rest) e
        (join-split_terminator d rest) in
    elim (Bool-cases (c == 10)) [
      | inl k ↦
          subst
            (λ x.
              join newline (if c == 10 then [] ∷ x else cons_first c x) ++ last_newline (d ∷ rest)
              ≡ c ∷ d ∷ rest)
            (sym e) (rw k (rw ((==_iff c 10).0 k) (ap (λ t. 10 ∷ t) ih)))
      | inr k ↦
          subst
            (λ x.
              join newline (if c == 10 then [] ∷ x else cons_first c x) ++ last_newline (d ∷ rest)
              ≡ c ∷ d ∷ rest)
            (sym e) (rw k (rw (join-cons_first c l ls) (ap (λ t. c ∷ t) ih)))
    ]

-- A text without carriage returns.
abbrev pub HasNoReturn : Text → Type 0
HasNoReturn t = all (λ c. not (c == 13)) t ≡ true

trim_returns-cons :
    (c : ℕ) (l : Text) → (c == 13) ≡ false → trim_returns l ≡ l → trim_returns (c ∷ l) ≡ c ∷ l
unfolding trim_returns
trim_returns-cons c [] h e = ground arith
trim_returns-cons c (d ∷ l) h e = ap (keep_unless_return c) e

map-trim_returns-cons_first :
    (c : ℕ) (ls : List Text)
    → (c == 13) ≡ false
    → map trim_returns ls ≡ ls
    → map trim_returns (cons_first c ls) ≡ cons_first c ls
unfolding cons_first
map-trim_returns-cons_first c [] h e =
    ap (λ l. l ∷ []) (trim_returns-cons c [] h (unfold trim_returns in refl))
map-trim_returns-cons_first c (l ∷ ls) h e =
    ap₂ (λ (x : Text) (xs : List Text). let r : List Text = x ∷ xs in r)
      (trim_returns-cons c l h (ground (arith, e))) (ground (arith, e))

map-trim_returns-split_terminator :
    (t : Text) → HasNoReturn t → map trim_returns (split_terminator t) ≡ split_terminator t
unfolding split_terminator
map-trim_returns-split_terminator [] h = refl
map-trim_returns-split_terminator (c ∷ rest) h =
    let ih = map-trim_returns-split_terminator rest (ground arith) in
    elim (Bool-cases (c == 10)) [
      | inl e ↦ rw e (
          ap₂ (λ (x : Text) (xs : List Text). let r : List Text = x ∷ xs in r)
            (unfold trim_returns in refl) ih)
      | inr e ↦ rw e (map-trim_returns-cons_first c (split_terminator rest) (ground arith) ih)
    ]

has_crlf-HasNoReturn : (t : Text) → HasNoReturn t → has_crlf t ≡ false
unfolding has_crlf
has_crlf-HasNoReturn [] h = refl
has_crlf-HasNoReturn (c ∷ []) h = refl
has_crlf-HasNoReturn (c ∷ d ∷ rest) h = ground (arith, has_crlf-HasNoReturn (d ∷ rest))

-- The last step of `apply_hunks`, on the joined text and on whether the original ended its line.
restore_newline :
    (out : Text) (ends : Bool) (t : Text)
    → out ++ (if ends then newline else []) ≡ t
    → is_nil t ≡ false
    → (t ≡ newline → ends ≡ true)
    → (if not (is_nil out) && (ends || is_nil t) then out ++ newline else out)
      ≡ (if codes_eq t newline then [] else t)
restore_newline [] true t e n h = ground (arith, codes_eq_iff t newline)
restore_newline [] false t e n h = ground arith
restore_newline (x ∷ []) true t e n h = ground (arith, codes_eq_iff t newline)
restore_newline (x ∷ y ∷ out) true t e n h = ground (arith, codes_eq_iff t newline)
restore_newline (x ∷ out) false t e n h =
    let kept : x ∷ out ≡ t = sym (append-nil (x ∷ out)) ∙ e in
    ground (arith, kept, codes_eq_iff t newline)

ends-newline : (t : Text) → t ≡ newline → ends_with_newline t ≡ true
ends-newline t e = rw e (unfold ends_with_newline in refl)

finish-split_terminator :
    (c : ℕ) (rest : Text)
    → HasNoReturn (c ∷ rest)
    → finish (c ∷ rest) (split_terminator (c ∷ rest))
      ≡ (if codes_eq (c ∷ rest) newline then [] else c ∷ rest)
finish-split_terminator c rest h =
    let t : Text = c ∷ rest in
    let ending : line_ending t ≡ newline = rw (has_crlf-HasNoReturn t h) refl in
    unfold finish in
    subst
      (λ (sep : Text).
        (if not (is_nil (join sep (split_terminator t))) && (ends_with_newline t || is_nil t)
          then join sep (split_terminator t) ++ sep
          else join sep (split_terminator t))
        ≡ (if codes_eq t newline then [] else t))
      (sym ending)
      (restore_newline (join newline (split_terminator t)) (ends_with_newline t) t
        (join-split_terminator c rest) refl (ends-newline t))

-- A patch without hunks gives a text without carriage returns back unchanged, but for the text of
-- one empty line, which it makes empty.
pub apply_hunks-nil :
    (t : Text) → HasNoReturn t → apply_hunks t [] ≡ ok (if codes_eq t newline then [] else t)
unfolding apply_hunks
apply_hunks-nil [] h = unfold codes_eq in refl
apply_hunks-nil (c ∷ rest) h =
    rw (map-trim_returns-split_terminator (c ∷ rest) h) (ap ok (finish-split_terminator c rest h))
