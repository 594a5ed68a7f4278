-- ===== src/Session/Pages.antt =====
-- A client that reads a stream page by page: it asks `read_output` (src-tauri/src/tools/session.rs)
-- again with each `next_offset` that it is given.
use gpt_tools_mcp.Prelude.{
  ℕ, zero, suc, ◌+◌, ◌-◌, ◌≤◌, ◌<◌, ◌≡◌, refl, sym, ap, ◌∙◌, subst, min, Option, none, some, List,
  [], ◌∷◌, ◌++◌, length, take, drop, length-take, length-drop, drop-drop, drop_all, append_nil,
  arith, lt_or_le, inl, inr, All,
}
use gpt_tools_mcp.Json.{or_default}
use gpt_tools_mcp.Session.{Bytes, Output, no_output, Read, read_stream}
use gpt_tools_mcp.Session.Stream.{delivered, read_stream_refines}
use gpt_tools_mcp.Session.Store.{page, page_at, clamp_limit, Page}

abbrev before_rest : Bytes → Option Bytes → Option Bytes
before_rest content none = none
before_rest content (some rest) = some (content ++ rest)

-- All pages from an offset on, if the last of them comes within so many requests.
unfoldable pub read_pages : (Bytes → List ℕ) → ℕ → Output → Option ℕ → ℕ → Option (List ℕ)
read_pages lossy zero out limit offset = none
read_pages lossy (suc n) out limit offset =
    let p = page lossy out (some offset) limit in
    elim p.next_offset [
      | none ↦ some p.content
      | some next ↦ before_rest p.content (read_pages lossy n out limit next)
    ]

-- The bytes of a page as they are.
abbrev raw : Bytes → List ℕ
raw bytes = bytes

take-drop-length {ℓ} :
    {A : Type ℓ} (n : ℕ) (xs : List A) → take n xs ++ drop (length (take n xs)) xs ≡ xs
take-drop-length zero xs = refl
take-drop-length (suc n) [] = refl
take-drop-length (suc n) (x ∷ xs) = ap (λ t. x ∷ t) (take-drop-length n xs)

page_content-rest :
    (out : Output) (offset limit : ℕ)
    → let p = page_at raw out offset limit in
      p.content ++ drop (offset + length p.content) out.retained ≡ drop offset out.retained
page_content-rest out offset limit =
    let rest = drop offset out.retained in
    ap (λ t. take limit rest ++ t) (sym (drop-drop (length (take limit rest)) offset out.retained))
    ∙ take-drop-length limit rest

length-page_content :
    (out : Output) (offset limit : ℕ)
    → length (page_at raw out offset limit).content ≡ min limit (length out.retained - offset)
length-page_content out offset limit =
    length-take limit (drop offset out.retained) ∙ ap (min limit) (length-drop offset out.retained)

page-page_at :
    (out : Output) (offset : ℕ) (limit : Option ℕ)
    → offset ≤ length out.retained
    → page raw out (some offset) limit
      ≡ page_at raw out offset (clamp_limit (or_default 4096 limit))
unfolding page
page-page_at out offset limit h =
    let start : min offset (length out.retained) ≡ offset = omega (arith, h) in
    ap (λ o. page_at raw out o (clamp_limit (or_default 4096 limit))) start

next_offset-some :
    (out : Output) (offset limit : ℕ)
    → let p = page_at raw out offset limit in
      offset + length p.content < out.total → p.next_offset ≡ some (offset + length p.content)
next_offset-some out offset limit h = ground (arith, h)

next_offset-none :
    (out : Output) (offset limit : ℕ)
    → let p = page_at raw out offset limit in
      out.total ≤ offset + length p.content → p.next_offset ≡ none
next_offset-none out offset limit h = ground (arith, h)

-- The rest of the client's reading, from a page.
abbrev follow : ℕ → Output → Option ℕ → Page → Option Bytes
follow n out limit p = elim p.next_offset [
  | none ↦ some p.content
  | some next ↦ before_rest p.content (read_pages raw n out limit next)
]

clamp_limit-pos : (n : ℕ) → 0 < clamp_limit n
clamp_limit-pos n = ground arith

read_pages-drop :
    (n : ℕ) (out : Output) (limit : Option ℕ) (offset : ℕ)
    → out.total ≡ length out.retained
    → offset ≤ length out.retained
    → length out.retained - offset < n
    → read_pages raw n out limit offset ≡ some (drop offset out.retained)
unfolding read_pages
read_pages-drop zero out limit offset whole inside fuel = absurd (omega (arith, fuel))
read_pages-drop (suc n) out limit offset whole inside fuel =
    let l = clamp_limit (or_default 4096 limit) in
    let p = page_at raw out offset l in
    let next = offset + length p.content in
    let size = length-page_content out offset l in
    let pos = clamp_limit-pos (or_default 4096 limit) in
    let content = page_content-rest out offset l in
    ap (follow n out limit) (page-page_at out offset limit inside)
    ∙ elim (lt_or_le next out.total) [
      | inl more ↦
          let at = next_offset-some out offset l more in
          let ih =
            read_pages-drop n out limit next whole (omega (arith, more, whole))
              (omega (arith, size, pos, fuel, more, whole)) in
          rw (at, ih) (ap some content)
      | inr last ↦
          let at = next_offset-none out offset l last in
          let over : drop next out.retained ≡ [] =
            drop_all next out.retained (omega (arith, whole, last)) in
          rw at
            (ap some (sym (append_nil p.content) ∙ ap (λ t. p.content ++ t) (sym over) ∙ content))
    ]

-- A decoder that takes ASCII bytes for themselves.
abbrev pub KeepsAscii : (Bytes → List ℕ) → Type 0
KeepsAscii lossy = (bytes : Bytes) → All (λ b. b < 128) bytes → lossy bytes ≡ bytes

drop-ascii : (n : ℕ) (bytes : Bytes) → All (λ b. b < 128) bytes → All (λ b. b < 128) (drop n bytes)
drop-ascii zero bytes h = h
drop-ascii (suc n) [] h = tt
drop-ascii (suc n) (b ∷ bytes) h = drop-ascii n bytes h.1

take-ascii : (n : ℕ) (bytes : Bytes) → All (λ b. b < 128) bytes → All (λ b. b < 128) (take n bytes)
take-ascii zero bytes h = tt
take-ascii (suc n) [] h = tt
take-ascii (suc n) (b ∷ bytes) h = (h.0, take-ascii n bytes h.1)

follow-ascii :
    (lossy : Bytes → List ℕ) (n : ℕ) (out : Output) (limit next : Option ℕ) (a b : List ℕ)
    → a ≡ b
    → ((o : ℕ) → read_pages lossy n out limit o ≡ read_pages raw n out limit o)
    → elim next [ none ↦ some a | some o ↦ before_rest a (read_pages lossy n out limit o) ]
      ≡ elim next [ none ↦ some b | some o ↦ before_rest b (read_pages raw n out limit o) ]
follow-ascii lossy n out limit none a b same h = ap some same
follow-ascii lossy n out limit (some o) a b same h = rw (h o, same) refl

-- The pages of ASCII bytes are these bytes.
read_pages-ascii :
    (lossy : Bytes → List ℕ) (n : ℕ) (out : Output) (limit : Option ℕ) (offset : ℕ)
    → KeepsAscii lossy
    → All (λ b. b < 128) out.retained
    → read_pages lossy n out limit offset ≡ read_pages raw n out limit offset
unfolding read_pages page
read_pages-ascii lossy zero out limit offset keeps ascii = refl
read_pages-ascii lossy (suc n) out limit offset keeps ascii =
    let o = min offset (length out.retained) in
    let l = clamp_limit (or_default 4096 limit) in
    let chunk = take l (drop o out.retained) in
    let same = keeps chunk (take-ascii l (drop o out.retained) (drop-ascii o out.retained ascii)) in
    follow-ascii lossy n out limit (page_at raw out o l).next_offset (lossy chunk) chunk same
      (λ next. read_pages-ascii lossy n out limit next keeps ascii)

-- If a stream delivered ASCII bytes, no more than the buffer holds, a client that follows
-- `next_offset` from the start gets a last page, and the pages together are exactly what was
-- delivered, for a decoder that takes ASCII bytes for themselves.
pub read_pages_whole :
    (lossy : Bytes → List ℕ) (buffer : ℕ) (reads : List Read) (limit : Option ℕ)
    → KeepsAscii lossy
    → All (λ b. b < 128) (delivered reads)
    → length (delivered reads) ≤ buffer
    → read_pages lossy (suc (length (delivered reads))) (read_stream buffer no_output reads) limit 0
      ≡ some (delivered reads)
read_pages_whole lossy buffer reads limit keeps ascii fits =
    let w = delivered reads in
    let out = read_stream buffer no_output reads in
    let held = read_stream_refines buffer reads in
    let none_dropped : length w - buffer ≡ 0 = omega (arith, fits) in
    let retained : out.retained ≡ w = held.retained ∙ ap (λ k. drop k w) none_dropped in
    let size = ap (λ b. length b) retained in
    read_pages-ascii lossy (suc (length w)) out limit 0 keeps
      (subst (All (λ b. b < 128)) (sym retained) ascii)
    ∙ read_pages-drop (suc (length w)) out limit 0 (omega (arith, held.total, size)) (omega arith)
        (omega (arith, size))
    ∙ ap some retained
