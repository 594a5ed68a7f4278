-- ===== src/Prelude/Split.antt =====
-- A text, as code points, and its parts between separators.
use Prim.Native.Nat.{ℕ}
use mathlib.Core.Path.{◌≡◌, refl, sym, ap, ap₂, ◌∙◌}
use mathlib.Core.Logic.{◌↔◌, ◌⊎◌, inl, inr}
use mathlib.Core.Bool.{true}
use mathlib.Core.List.{List, [], ◌∷◌, ◌++◌}
use native.Mathlib.Omega.{arith}
use gpt_tools_mcp.Prelude.Tests.{◌==◌, if◌then◌else◌, Bool-cases, and-true}
use gpt_tools_mcp.Prelude.Lists.{append_nil, append_assoc}
use gpt_tools_mcp.Prelude.Text.{starts_with}

-- The first part and the others.
abbrev pub Parts : Type 0
Parts = List ℕ × List (List ℕ)

unfoldable pub parts_of : ℕ → List ℕ → Parts
parts_of sep [] = ([], [])
parts_of sep (c ∷ s) =
    let rest = parts_of sep s in if c == sep then ([], rest.0 ∷ rest.1) else (c ∷ rest.0, rest.1)

abbrev pub join_rest : ℕ → List (List ℕ) → List ℕ
join_rest sep [] = []
join_rest sep (part ∷ parts) = sep ∷ part ++ join_rest sep parts

-- The text of some parts.
abbrev pub joined : ℕ → Parts → List ℕ
joined sep p = p.0 ++ join_rest sep p.1

pub joined-parts_of : (sep : ℕ) (s : List ℕ) → joined sep (parts_of sep s) ≡ s
unfolding parts_of
joined-parts_of sep [] = refl
joined-parts_of sep (c ∷ s) = elim (Bool-cases (c == sep)) [
  | inl h ↦
      let same : sep ≡ c = ground (arith, h) in
      rw h (ap (λ t. sep ∷ t) (joined-parts_of sep s) ∙ ap (λ d. d ∷ s) same)
  | inr h ↦ rw h (ap (λ t. c ∷ t) (joined-parts_of sep s))
]

-- A separator ends a part.
pub parts_of-append :
    (sep : ℕ) (a b : List ℕ)
    → let p = parts_of sep a in
      let q = parts_of sep b in parts_of sep (a ++ (sep ∷ b)) ≡ (p.0, p.1 ++ (q.0 ∷ q.1))
unfolding parts_of
parts_of-append sep [] b = ground arith
parts_of-append sep (c ∷ a) b = elim (Bool-cases (c == sep)) [
  | inl h ↦ rw (h, parts_of-append sep a b) refl
  | inr h ↦ rw (h, parts_of-append sep a b) refl
]

-- The parts of one text, or the first of them, are those of another.
abbrev pub IsPrefix : Parts → Parts → Type 0
IsPrefix p q = (p.0 ≡ q.0) × ((rest : List (List ℕ)) × (q.1 ≡ p.1 ++ rest))

pub starts_with_append : (p s : List ℕ) → starts_with p (p ++ s) ≡ true
unfolding starts_with
starts_with_append [] s = refl
starts_with_append (c ∷ p) s = ground (arith, starts_with_append p s)

pub starts_with_rest : (p s : List ℕ) → starts_with p s ≡ true → (rest : List ℕ) × (s ≡ p ++ rest)
unfolding starts_with
starts_with_rest [] s h = (s, refl)
starts_with_rest (c ∷ p) [] h = absurd (cc)
starts_with_rest (c ∷ p) (d ∷ s) h =
    let both = and-true (c == d) (starts_with p s) h in
    let (rest, e) = starts_with_rest p s both.1 in
    let same : d ≡ c = ground (arith, both.0) in (rest, ap (λ x. x ∷ s) same ∙ ap (λ t. c ∷ t) e)

join_rest-append :
    (sep : ℕ) (xs ys : List (List ℕ))
    → join_rest sep (xs ++ ys) ≡ join_rest sep xs ++ join_rest sep ys
join_rest-append sep [] ys = refl
join_rest-append sep (x ∷ xs) ys =
    ap (λ t. sep ∷ x ++ t) (join_rest-append sep xs ys)
    ∙ ap (λ t. sep ∷ t) (sym (append_assoc x (join_rest sep xs) (join_rest sep ys)))

IsPrefix-start :
    (sep : ℕ) (a b : List ℕ)
    → (b ≡ a) ⊎ (starts_with (a ++ (sep ∷ [])) b ≡ true)
    → IsPrefix (parts_of sep a) (parts_of sep b)
IsPrefix-start sep a b (inl e) =
    let parts = ap (parts_of sep) e in
    (sym (ap (λ q. q.0) parts), ([], ap (λ q. q.1) parts ∙ sym (append_nil (parts_of sep a).1)))
IsPrefix-start sep a b (inr h) =
    let (rest, e) = starts_with_rest (a ++ (sep ∷ [])) b h in
    let split = e ∙ append_assoc a (sep ∷ []) rest in
    let parts = ap (parts_of sep) split ∙ parts_of-append sep a rest in
    let q = parts_of sep rest in (sym (ap (λ r. r.0) parts), (q.0 ∷ q.1, ap (λ r. r.1) parts))

start-IsPrefix :
    (sep : ℕ) (a b : List ℕ) (rest : List (List ℕ))
    → (parts_of sep a).0 ≡ (parts_of sep b).0
    → (parts_of sep b).1 ≡ (parts_of sep a).1 ++ rest
    → (b ≡ a) ⊎ (starts_with (a ++ (sep ∷ [])) b ≡ true)
start-IsPrefix sep a b [] e₀ e₁ =
    let p = parts_of sep a in
    inl (
      sym (joined-parts_of sep b)
      ∙ ap₂ (λ x y. x ++ join_rest sep y) (sym e₀) (e₁ ∙ append_nil p.1)
      ∙ joined-parts_of sep a)
start-IsPrefix sep a b (r ∷ rs) e₀ e₁ =
    let p = parts_of sep a in
    let t = r ++ join_rest sep rs in
    let whole : b ≡ (a ++ (sep ∷ [])) ++ t =
      sym (joined-parts_of sep b)
      ∙ ap₂ (λ x y. x ++ join_rest sep y) (sym e₀) e₁
      ∙ ap (λ y. p.0 ++ y) (join_rest-append sep p.1 (r ∷ rs))
      ∙ sym (append_assoc p.0 (join_rest sep p.1) (sep ∷ t))
      ∙ ap (λ y. y ++ (sep ∷ t)) (joined-parts_of sep a)
      ∙ sym (append_assoc a (sep ∷ []) t) in
    inr (ap (starts_with (a ++ (sep ∷ []))) whole ∙ starts_with_append (a ++ (sep ∷ [])) t)

-- A text is another, or starts with it and a separator, exactly if its parts start with the parts
-- of the other.
pub parts_of-IsPrefix :
    (sep : ℕ) (a b : List ℕ)
    → ((b ≡ a) ⊎ (starts_with (a ++ (sep ∷ [])) b ≡ true))
      ↔ IsPrefix (parts_of sep a) (parts_of sep b)
parts_of-IsPrefix sep a b = (IsPrefix-start sep a b, λ h. start-IsPrefix sep a b h.1.0 h.0 h.1.1)
