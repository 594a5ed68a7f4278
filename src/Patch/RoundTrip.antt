-- ===== src/Patch/RoundTrip.antt =====
-- `parse_codex_patch` of src-tauri/src/tools/patch.rs on a printed patch.
use gpt_tools_mcp.Prelude.{◌≡◌, refl, sym, ap, ◌∙◌, false, List, [], ◌∷◌, ◌++◌, Option, none, some}
use gpt_tools_mcp.Prelude.Text.{codes, codes_eq}
use gpt_tools_mcp.Patch.{Text, FilePatch, Hunk, HunkLine, context, add, remove, trim_returns}
use gpt_tools_mcp.Patch.Parse.{
  Parser, push_line, push_hunk, codex_line, codex_lines, codex_header, codex_body,
}
use gpt_tools_mcp.Patch.Strings.{strip_prefix}
use gpt_tools_mcp.Patch.Print.{print_line, print_lines, print_hunks, IsLine, AreLines}

-- The parser in a hunk of a file.
abbrev pub inside : List FilePatch → FilePatch → List HunkLine → Parser
inside files file done = record {
  files = files;
  current = some file;
  current_hunk = some (record { lines = done });
}

pub append_nil : {A : Type 0} (xs : List A) → xs ++ [] ≡ xs
append_nil [] = refl
append_nil (x ∷ xs) = ap (λ t. x ∷ t) (append_nil xs)

pub append_assoc : {A : Type 0} (xs ys zs : List A) → (xs ++ ys) ++ zs ≡ xs ++ (ys ++ zs)
append_assoc [] ys zs = refl
append_assoc (x ∷ xs) ys zs = ap (λ t. x ∷ t) (append_assoc xs ys zs)

pub codex_lines-append :
    (p : Parser) (a b : List Text) → codex_lines p (a ++ b) ≡ codex_lines (codex_lines p a) b
unfolding codex_lines
codex_lines-append p [] b = refl
codex_lines-append p (t ∷ a) b = codex_lines-append (codex_line p (trim_returns t)) a b

-- A line that does not end in a carriage return is read as it is.
pub codex_lines-cons :
    (p : Parser) (t : Text) (ts : List Text)
    → IsLine t
    → codex_lines p (t ∷ ts) ≡ codex_lines (codex_line p t) ts
unfolding codex_lines
codex_lines-cons p t ts h = ap (λ u. codex_lines (codex_line p u) ts) h.0

line-push :
    (files : List FilePatch) (file : FilePatch) (done : List HunkLine) (l : HunkLine)
    → file.is_deleted ≡ false
    → codex_line (inside files file done) (print_line l) ≡ inside files file (done ++ (l ∷ []))
unfolding codex_line codes_eq codex_header strip_prefix codex_body push_line
line-push files file done (context s) d = rw d refl
line-push files file done (add s) d = rw d refl
line-push files file done (remove s) d = rw d refl

pub lines-push :
    (files : List FilePatch) (file : FilePatch) (done ls : List HunkLine)
    → file.is_deleted ≡ false
    → AreLines (print_lines ls)
    → codex_lines (inside files file done) (print_lines ls) ≡ inside files file (done ++ ls)
unfolding print_lines
lines-push files file done [] d s =
    unfold codex_lines in ap (inside files file) (sym (append_nil done))
lines-push files file done (l ∷ ls) d s =
    codex_lines-cons (inside files file done) (print_line l) (print_lines ls) s.0
    ∙ ap (λ q. codex_lines q (print_lines ls)) (line-push files file done l d)
    ∙ lines-push files file (done ++ (l ∷ [])) ls d s.1
    ∙ ap (inside files file) (append_assoc done (l ∷ []) ls)

-- The parser after the hunks `hs` that follow the hunk `h`.
unfoldable pub after : List FilePatch → FilePatch → Option Hunk → List Hunk → Parser
after files file h [] = record { files = files; current = some file; current_hunk = h }
after files file h (x ∷ hs) = after files (push_hunk h file) (some x) hs

pub All-left : (a b : List Text) → AreLines (a ++ b) → AreLines a
All-left [] b h = tt
All-left (t ∷ a) b h = (h.0, All-left a b h.1)

pub All-right : (a b : List Text) → AreLines (a ++ b) → AreLines b
All-right [] b h = h
All-right (t ∷ a) b h = All-right a b h.1

hunk-open :
    (files : List FilePatch) (file : FilePatch) (h : Option Hunk)
    → codex_line (record { files = files; current = some file; current_hunk = h }) (codes "@@")
      ≡ inside files (push_hunk h file) []
unfolding codex_line codes_eq codex_header strip_prefix codex_body
hunk-open files file h = refl

push_hunk-deleted :
    (h : Option Hunk) (file : FilePatch) → (push_hunk h file).is_deleted ≡ file.is_deleted
push_hunk-deleted none file = refl
push_hunk-deleted (some x) file = refl

pub hunks-parse :
    (files : List FilePatch) (file : FilePatch) (h : Option Hunk) (hs : List Hunk)
    → file.is_deleted ≡ false
    → AreLines (print_hunks hs)
    → codex_lines (record { files = files; current = some file; current_hunk = h }) (print_hunks hs)
      ≡ after files file h hs
unfolding print_hunks after
hunks-parse files file h [] d s = unfold codex_lines in refl
hunks-parse files file h (x ∷ hs) d s =
    let rest = print_lines x.lines ++ print_hunks hs in
    let file' = push_hunk h file in
    let d' = push_hunk-deleted h file ∙ d in
    codex_lines-cons _ (codes "@@") rest s.0
    ∙ ap (λ q. codex_lines q rest) (hunk-open files file h)
    ∙ codex_lines-append (inside files file' []) (print_lines x.lines) (print_hunks hs)
    ∙ ap (λ q. codex_lines q (print_hunks hs))
        (lines-push files file' [] x.lines d' (All-left (print_lines x.lines) (print_hunks hs) s.1))
    ∙ hunks-parse files file' (some x) hs d' (All-right (print_lines x.lines) (print_hunks hs) s.1)
