-- ===== src/Patch/Search.antt =====
-- `find_hunk_position` of src-tauri/src/tools/patch.rs finds the first place of the expected lines.
use gpt_tools_mcp.Prelude.{
  ℕ, zero, suc, ◌+◌, ◌-◌, ◌≤◌, ◌<◌, ◌≡◌, ◌⊎◌, inl, inr, refl, sym, ◌∙◌, ap, subst, Bool, true, ◌||◌,
  List, [], ◌∷◌, ◌++◌, Option, none, some, arith, ltb, length, length-append, length-take,
  length-drop, take, drop, take-append-drop, take-append, drop-append, Bool-cases, Option-cases,
}
use gpt_tools_mcp.Prelude.Text.{codes_eq_iff}
use gpt_tools_mcp.Patch.{Text, all_same, search_from, find_hunk_position}

all_same-eq : (a b : List Text) → length a ≡ length b → all_same a b ≡ true → a ≡ b
unfolding all_same
all_same-eq [] [] e h = refl
all_same-eq [] (y ∷ b) e h = absurd (omega arith)
all_same-eq (x ∷ a) [] e h = absurd (omega arith)
all_same-eq (x ∷ a) (y ∷ b) e h = ground (arith, codes_eq_iff x y, all_same-eq a b (omega arith))

all_same_refl : (a : List Text) → all_same a a ≡ true
unfolding all_same
all_same_refl [] = refl
all_same_refl (x ∷ a) = ground (arith, codes_eq_iff x x, all_same_refl a)

abbrev matches_at : List Text → List Text → ℕ → Bool
matches_at lines pattern i = all_same (take (length pattern) (drop i lines)) pattern

search_from-some :
    (lines pattern : List Text) (i n pos : ℕ)
    → search_from lines pattern i n ≡ some pos
    → (i ≤ pos) × (pos < i + n) × (matches_at lines pattern pos ≡ true)
unfolding search_from
search_from-some lines pattern i zero pos h = absurd (cc)
search_from-some lines pattern i (suc n) pos h =
    ground (arith, search_from-some lines pattern (i + 1) n pos)

search_from-first :
    (lines pattern : List Text) (i n j pos : ℕ)
    → matches_at lines pattern j ≡ true
    → i ≤ j
    → j < i + n
    → (k : ℕ) × (search_from lines pattern i n ≡ some k) × (k ≤ j)
unfolding search_from
search_from-first lines pattern i zero j pos m h l = absurd (omega arith)
search_from-first lines pattern i (suc n) j pos m h l =
    elim (Bool-cases (matches_at lines pattern i)) [
      | inl e ↦ (i, rw e refl, h)
      | inr e ↦
          let (k, found, first) =
            search_from-first lines pattern (i + 1) n j pos m (ground arith) (omega arith) in
          (k, rw e found, first)
    ]

-- `pattern` stands in `lines` behind `before` and in front of `after`.
pub record Occurs (lines pattern before after : List Text) : Type 0 where
  pub at : lines ≡ before ++ (pattern ++ after)

found-Occurs :
    (lines pattern : List Text) (pos : ℕ)
    → pos + length pattern ≤ length lines
    → matches_at lines pattern pos ≡ true
    → Occurs lines pattern (take pos lines) (drop (length pattern) (drop pos lines))
found-Occurs lines pattern pos room m =
    let same : take (length pattern) (drop pos lines) ≡ pattern =
      all_same-eq (take (length pattern) (drop pos lines)) pattern
        (omega (arith, length-take (length pattern) (drop pos lines), length-drop pos lines)) m in
    record {
      at =
          sym (take-append-drop pos lines)
          ∙ ap (λ t. take pos lines ++ t)
              (sym (take-append-drop (length pattern) (drop pos lines))
                ∙ ap (λ t. t ++ drop (length pattern) (drop pos lines)) same);
    }

-- An occurrence is a match at its place.
Occurs-match :
    (lines pattern before after : List Text)
    → Occurs lines pattern before after
    → (matches_at lines pattern (length before) ≡ true)
      × (length before + length pattern ≤ length lines)
Occurs-match lines pattern before after o = (
  rw (o.at, drop-append before (pattern ++ after), take-append pattern after)
      (all_same_refl pattern),
  omega
      (arith, ap length o.at, length-append before (pattern ++ after), length-append pattern after),
)

abbrev pub IsFirst : List Text → List Text → ℕ → Type 0
IsFirst lines pattern pos =
    (before after : List Text) → Occurs lines pattern before after → pos ≤ length before

-- The outcomes of the search: the first place of the pattern, or none where it has no place.
abbrev pub Finds : List Text → List Text → Option ℕ → Type 0
Finds lines pattern r =
    ((pos : ℕ) × (r ≡ some pos)
      × (pos ≤ length lines)
      × Occurs lines pattern (take pos lines) (drop (length pattern) (drop pos lines))
      × IsFirst lines pattern pos)
    ⊎ ((r ≡ none) × ((before after : List Text) → ¬ Occurs lines pattern before after))

search-Finds :
    (lines pattern : List Text)
    → length pattern ≤ length lines
    → Finds lines pattern (search_from lines pattern 0 (length lines - length pattern + 1 - 0))
search-Finds lines pattern fits =
    let n = length lines - length pattern + 1 - 0 in
    elim (Option-cases (search_from lines pattern 0 n)) [
      | inl e ↦ inr (
        e,
        λ before after o.
            let (m, room) = Occurs-match lines pattern before after o in
            let (k, found, first) =
              search_from-first lines pattern 0 n (length before) 0 m (omega arith) (omega arith) in
            ground (arith, e, found),
      )
      | inr (pos, e) ↦
          let (low, high, m) = search_from-some lines pattern 0 n pos e in
          inl (
            pos,
            e,
            omega arith,
            found-Occurs lines pattern pos (omega arith) m,
            λ before after o.
                let (m', room) = Occurs-match lines pattern before after o in
                let (k, found, first) =
                  search_from-first lines pattern 0 n (length before) 0 m' (omega arith)
                    (omega arith) in
                ground (arith, e, found, first),
          )
    ]

-- The search returns the first place at which the expected lines stand, and fails exactly if they
-- stand nowhere in the text.
pub find_hunk_position-Finds :
    (lines pattern : List Text) → Finds lines pattern (find_hunk_position lines pattern 0)
unfolding find_hunk_position
find_hunk_position-Finds lines [] =
    inl (0, refl, omega arith, record { at = refl }, λ before after o. omega arith)
find_hunk_position-Finds lines (x ∷ pattern) =
    let all = x ∷ pattern in
    elim (Bool-cases (ltb (length lines) 0 || ltb (length lines - 0) (length all))) [
      | inl e ↦
          let missing : find_hunk_position lines all 0 ≡ none = ground arith in
          inr (missing, λ before after o. ground (arith, (Occurs-match lines all before after o).1))
      | inr e ↦
          let n = length lines - length all + 1 - 0 in
          let found : search_from lines all 0 n ≡ find_hunk_position lines all 0 = ground arith in
          subst (Finds lines all) found (search-Finds lines all (ground arith))
    ]
