-- ===== src/Session/Stream.antt =====
-- The buffer of a stream (src-tauri/src/tools/session.rs) against all the bytes that were read.
use gpt_tools_mcp.Prelude.{
  ℕ, ◌-◌, ◌≡◌, refl, sym, ap, ◌∙◌, List, [], ◌∷◌, ◌++◌, subst, length, drop, length-append,
  length-drop, drop-append_le, drop-drop, drop_nil, append_nil, append_assoc, arith, ltb,
  Bool-cases, inl, inr,
}
use gpt_tools_mcp.Session.{
  Bytes, Output, no_output, Read, got, broken, trim_buffer, read_chunk, read_stream,
}

-- All bytes of a stream, up to the read that ends it.
unfoldable pub delivered : List Read → Bytes
delivered [] = []
delivered (got [] ∷ rest) = []
delivered (got (b ∷ bytes) ∷ rest) = (b ∷ bytes) ++ delivered rest
delivered (broken ∷ rest) = []

-- The last bytes of a text, at most `limit`.
abbrev pub last_bytes : ℕ → Bytes → Bytes
last_bytes limit w = drop (length w - limit) w

trim_buffer-last_bytes : (limit : ℕ) (w : Bytes) → trim_buffer limit w ≡ last_bytes limit w
unfolding trim_buffer
trim_buffer-last_bytes limit w = elim (Bool-cases (ltb limit (length w))) [
  | inl h ↦ ground arith
  | inr h ↦ let z : length w - limit ≡ 0 = ground arith in ground (arith, ap (λ k. drop k w) z)
]

last_bytes-append :
    (limit : ℕ) (w c : Bytes)
    → last_bytes limit (last_bytes limit w ++ c) ≡ last_bytes limit (w ++ c)
last_bytes-append limit w c =
    let n = length w - limit in
    let joined : last_bytes limit w ++ c ≡ drop n (w ++ c) =
      sym (drop-append_le n w c (omega arith)) in
    ap (last_bytes limit) joined
    ∙ drop-drop (length (drop n (w ++ c)) - limit) n (w ++ c)
    ∙ ap (λ k. drop k (w ++ c)) (omega (arith, length-drop n (w ++ c), length-append w c))

-- A stream whose reads so far delivered `w`.
pub record HasRead (limit : ℕ) (w : Bytes) (out : Output) : Type 0 where
  pub retained : out.retained ≡ last_bytes limit w
  pub total : out.total ≡ length w

pub read_chunk-HasRead :
    (limit : ℕ) (w c : Bytes) (out : Output)
    → HasRead limit w out
    → HasRead limit (w ++ c) (read_chunk limit out c)
unfolding read_chunk
read_chunk-HasRead limit w c out h = record {
  retained =
      trim_buffer-last_bytes limit (out.retained ++ c)
      ∙ ap (λ r. last_bytes limit (r ++ c)) h.retained
      ∙ last_bytes-append limit w c;
  total = omega (arith, h.total, length-append w c);
}

read_stream-HasRead :
    (limit : ℕ) (w : Bytes) (out : Output) (reads : List Read)
    → HasRead limit w out
    → HasRead limit (w ++ delivered reads) (read_stream limit out reads)
unfolding read_stream delivered
read_stream-HasRead limit w out [] h = subst (λ v. HasRead limit v out) (sym (append_nil w)) h
read_stream-HasRead limit w out (got [] ∷ rest) h =
    subst (λ v. HasRead limit v out) (sym (append_nil w)) h
read_stream-HasRead limit w out (got (b ∷ bytes) ∷ rest) h =
    let c = b ∷ bytes in
    subst (λ v. HasRead limit v (read_stream limit (read_chunk limit out c) rest))
      (append_assoc w c (delivered rest))
      (read_stream-HasRead limit (w ++ c) (read_chunk limit out c) rest
        (read_chunk-HasRead limit w c out h))
read_stream-HasRead limit w out (broken ∷ rest) h =
    subst (λ v. HasRead limit v out) (sym (append_nil w)) h

-- However the bytes of a stream come in reads, the buffer is the last bytes of all that were
-- delivered, at most the limit, and the total counts them all.
pub read_stream_refines :
    (limit : ℕ) (reads : List Read)
    → HasRead limit (delivered reads) (read_stream limit no_output reads)
read_stream_refines limit reads =
    read_stream-HasRead limit [] no_output reads
      (record { retained = sym (drop_nil (0 - limit)); total = refl })
