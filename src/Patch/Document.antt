-- ===== src/Patch/Document.antt =====
-- A printed patch as one text, through `str::lines` and `parse_unified_diff`
-- (src-tauri/src/tools/patch.rs).
use gpt_tools_mcp.Prelude.{
  ℕ, ◌≡◌, refl, ap, ◌∙◌, true, false, ◌&&◌, List, [], ◌∷◌, ◌++◌, map, All, arith, any, ◌==◌,
}
use gpt_tools_mcp.Prelude.Text.{codes, codes_eq}
use gpt_tools_mcp.Patch.{Text, trim_returns, keep_unless_return, cons_first}
use gpt_tools_mcp.Patch.Parse.{
  Parser, fresh, finish_codex_file, codex_line, codex_lines, parse_codex_patch, parse_unified_diff,
}
use gpt_tools_mcp.Patch.Strings.{lines, starts_newline}
use gpt_tools_mcp.Patch.Print.{
  Section, file_patch, print_section, print_sections, print_patch, IsLine, AreLines, IsPrintable,
}
use gpt_tools_mcp.Patch.RoundTrip.{codex_lines-append, codex_lines-cons}
use gpt_tools_mcp.Patch.Sections.{sections-parse}

-- The text of some lines.
unfoldable pub unlines : List Text → Text
unlines [] = []
unlines (t ∷ ts) = t ++ (10 ∷ unlines ts)

keep-tail : (c : ℕ) (r t : Text) → keep_unless_return c r ≡ c ∷ t → r ≡ t
unfolding keep_unless_return
keep-tail c [] t h = ground arith
keep-tail c (d ∷ r) t h = cc

IsLine-tail : (c : ℕ) (t : Text) → IsLine (c ∷ t) → IsLine t
unfolding trim_returns
IsLine-tail c t h = (keep-tail c (trim_returns t) t h.0, ground (arith, h.1))

no_break :
    (c : ℕ) (t u : Text) → IsLine (c ∷ t) → (c == 13 && starts_newline (t ++ (10 ∷ u))) ≡ false
unfolding trim_returns keep_unless_return
no_break c [] u h = ground (arith, h)
no_break c (d ∷ t) u h = ground (arith, h.1)

lines-line : (t u : Text) → IsLine t → lines (t ++ (10 ∷ u)) ≡ t ∷ lines u
unfolding lines cons_first
lines-line [] u h = refl
lines-line (c ∷ t) u h = ground (arith, h.1, no_break c t u h, lines-line t u (IsLine-tail c t h))

lines-unlines : (ts : List Text) → AreLines ts → lines (unlines ts) ≡ ts
unfolding unlines
lines-unlines [] h = unfold lines in refl
lines-unlines (t ∷ ts) h = lines-line t (unlines ts) h.0 ∙ ap (λ l. t ∷ l) (lines-unlines ts h.1)

All-append : (a b : List Text) → AreLines a → AreLines b → AreLines (a ++ b)
All-append [] b h k = k
All-append (t ∷ a) b h k = (h.0, All-append a b h.1 k)

sections-AreLines : (xs : List Section) → All IsPrintable xs → AreLines (print_sections xs)
unfolding print_sections
sections-AreLines [] v = tt
sections-AreLines (x ∷ xs) v =
    All-append (print_section x) (print_sections xs) v.0.sound (sections-AreLines xs v.1)

begin-IsLine : IsLine (codes "*** Begin Patch")
begin-IsLine = (unfold trim_returns keep_unless_return in refl, refl)

end-IsLine : IsLine (codes "*** End Patch")
end-IsLine = (unfold trim_returns keep_unless_return in refl, refl)

print_patch-AreLines : (xs : List Section) → All IsPrintable xs → AreLines (print_patch xs)
unfolding print_patch
print_patch-AreLines xs v = (
  begin-IsLine,
  All-append (print_sections xs) (codes "*** End Patch" ∷ []) (sections-AreLines xs v)
      (end-IsLine, tt),
)

begin-line : (p : Parser) → codex_line p (codes "*** Begin Patch") ≡ p
unfolding codex_line codes_eq
begin-line p = refl

end-line :
    (p : Parser)
    → (finish_codex_file (codex_line p (codes "*** End Patch"))).files ≡ (finish_codex_file p).files
unfolding codex_line codes_eq finish_codex_file
end-line p = refl

codex_lines-nil : (p : Parser) → codex_lines p [] ≡ p
unfolding codex_lines
codex_lines-nil p = refl

nothing : (finish_codex_file fresh).files ≡ []
unfolding finish_codex_file
nothing = refl

codex-print :
    (xs : List Section)
    → All IsPrintable xs
    → (finish_codex_file (codex_lines fresh (print_patch xs))).files ≡ map file_patch xs
unfolding print_patch
codex-print xs v =
    let body = print_sections xs ++ (codes "*** End Patch" ∷ []) in
    ap (λ q. (finish_codex_file q).files)
      (codex_lines-cons fresh (codes "*** Begin Patch") body begin-IsLine
        ∙ ap (λ q. codex_lines q body) (begin-line fresh)
        ∙ codex_lines-append fresh (print_sections xs) (codes "*** End Patch" ∷ [])
        ∙ codex_lines-cons (codex_lines fresh (print_sections xs)) (codes "*** End Patch") []
            end-IsLine)
    ∙ ap (λ q. (finish_codex_file q).files) (codex_lines-nil _)
    ∙ end-line (codex_lines fresh (print_sections xs))
    ∙ sections-parse fresh xs v
    ∙ ap (λ l. l ++ map file_patch xs) nothing

-- A patch in the `*** Begin Patch` form that is printed from its sections is read back as exactly
-- their files, in their order, with all their hunks and lines: for paths that `parse_diff_path`
-- leaves as they are, and lines without a line feed that do not end in a carriage return.
pub parse_unified_diff-print :
    (xs : List Section)
    → All IsPrintable xs
    → parse_unified_diff (unlines (print_patch xs)) ≡ map file_patch xs
unfolding parse_unified_diff parse_codex_patch
parse_unified_diff-print xs v =
    let read = lines-unlines (print_patch xs) (print_patch-AreLines xs v) in
    let codex : any (λ line. codes_eq (trim_returns line) (codes "*** Begin Patch"))
          (print_patch xs)
        ≡ true =
      unfold print_patch trim_returns keep_unless_return codes_eq in refl in
    rw (read, codex) (codex-print xs v)
