-- ===== src/Patch/Splice.antt =====
-- What one hunk does to the lines at its place (`apply_hunks` of src-tauri/src/tools/patch.rs).
use mathlib.Core.List.{append_assoc}
use gpt_tools_mcp.Prelude.{
  ◌+◌, ◌≡◌, refl, sym, List, [], ◌∷◌, ◌++◌, some, arith, ltb, length, length-append, if◌then◌else◌,
}
use gpt_tools_mcp.Patch.{
  Text, HunkLine, context, add, remove, hunk_old, remove_at, insert_at, apply_lines,
}

-- The lines that a hunk leaves in place of `hunk_old`.
unfoldable pub hunk_new : List HunkLine → List Text
hunk_new [] = []
hunk_new (context s ∷ rest) = s ∷ hunk_new rest
hunk_new (add s ∷ rest) = s ∷ hunk_new rest
hunk_new (remove s ∷ rest) = hunk_new rest

remove_at-append :
    (xs : List Text) (s : Text) (ys : List Text)
    → (if ltb (length xs) (length (xs ++ (s ∷ ys)))
        then remove_at (length xs) (xs ++ (s ∷ ys))
        else xs ++ (s ∷ ys))
      ≡ xs ++ ys
remove_at-append [] s ys = ground arith
remove_at-append (x ∷ xs) s ys = ground (arith, remove_at-append xs s ys, length-append xs (s ∷ ys))

insert_at-append :
    (xs : List Text) (s : Text) (ys : List Text)
    → insert_at (length xs) s (xs ++ ys) ≡ some (xs ++ (s ∷ ys))
insert_at-append [] s ys = refl
insert_at-append (x ∷ xs) s ys = rw (insert_at-append xs s ys) refl

-- The index after one more line, and the lines regrouped around it.
length-snoc : (xs : List Text) (s : Text) → length xs + 1 ≡ length (xs ++ (s ∷ []))
length-snoc xs s = omega (arith, length-append xs (s ∷ []))

snoc-append : (xs : List Text) (s : Text) (ys : List Text) → xs ++ (s ∷ ys) ≡ (xs ++ (s ∷ [])) ++ ys
snoc-append xs s ys = sym (append_assoc xs (s ∷ []) ys)

-- At the place where the expected lines stand, a hunk replaces them by its new lines and leaves
-- everything before and after as it is; no index goes out of range.
pub apply_lines-splice :
    (lines : List HunkLine) (before after : List Text)
    → apply_lines lines (length before) (before ++ (hunk_old lines ++ after))
      ≡ some (before ++ (hunk_new lines ++ after))
unfolding apply_lines hunk_old hunk_new
apply_lines-splice [] before after = refl
apply_lines-splice (context s ∷ rest) before after =
    rw
      (
        length-snoc before s,
        snoc-append before s (hunk_old rest ++ after),
        snoc-append before s (hunk_new rest ++ after),
      )
      (apply_lines-splice rest (before ++ (s ∷ [])) after)
apply_lines-splice (remove s ∷ rest) before after =
    rw (remove_at-append before s (hunk_old rest ++ after)) (apply_lines-splice rest before after)
apply_lines-splice (add s ∷ rest) before after =
    rw (insert_at-append before s (hunk_old rest ++ after), apply_lines)
      (rw
        (
          length-snoc before s,
          snoc-append before s (hunk_old rest ++ after),
          snoc-append before s (hunk_new rest ++ after),
        )
        (apply_lines-splice rest (before ++ (s ∷ [])) after))
