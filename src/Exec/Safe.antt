-- ===== src/Exec/Safe.antt =====
-- The environment that src-tauri/src/tools/exec.rs gives to a command.
use mathlib.Core.List.{Perm}
use mathlib.Core.List.Perm
use gpt_tools_mcp.Prelude.{
  ℕ, String, ◌≡◌, ◌≢◌, refl, ap, Bool, true, false, not, ◌||◌, ◌==◌, ==_iff, List, [], ◌∷◌, some,
  All, any, inl, inr, ◌⊎◌, arith, Bool-cases,
}
use gpt_tools_mcp.Prelude.Text.{codes, codes_eq, codes_eq_iff, before, contains_char, is_empty}
use gpt_tools_mcp.Prelude.Result.{and_then, and_then-ok, require-ok, inr_injective, inl-ne-inr}
use gpt_tools_mcp.Json.{
  Value, Fields, null, bool, number, string, array, object, end, field, get_key,
}
use gpt_tools_mcp.Answer.{WorkspaceError}
use gpt_tools_mcp.Exec.{insert_by, sort_by}
use gpt_tools_mcp.Exec.Environment.{
  upper, by_key, protected_keys, is_protected, is_refused, key_protected, Variable, read_variables,
  parse_user_environment,
}

-- A variable that a command may be given; without host access its key is none of the protected ones,
-- in whatever case.
pub record IsAllowed (host : Bool) (v : Variable) : Type 0 where
  pub named : v.0 ≢ ""
  pub plain_key : All (λ c. (c ≢ b'=') × (c ≢ 0)) (codes v.0)
  pub plain_value : All (λ c. c ≢ 0) (codes v.1)
  pub unprotected : host ≡ false → All (λ k. codes k ≢ upper v.0) protected_keys

-- The variables in the order of their keys in upper case.
abbrev pub IsOrdered : List Variable → Type 0
IsOrdered [] = Unit
IsOrdered (e ∷ []) = Unit
IsOrdered (e ∷ f ∷ rest) = (before (by_key f) (by_key e) ≡ false) × IsOrdered (f ∷ rest)

abbrev pub object_of : List Variable → Fields
object_of [] = end
object_of ((key, value) ∷ rest) = field key (string value) (object_of rest)

contains_char-All :
    (test : ℕ → Bool) (P : ℕ → Type 0)
    → ((c : ℕ) → test c ≡ false → P c)
    → (s : List ℕ) → contains_char test s ≡ false
    → All P s
contains_char-All test P pass [] h = tt
contains_char-All test P pass (c ∷ s) h =
    (pass c (ground (arith, h)), contains_char-All test P pass s (ground (arith, h)))

any-All :
    {A : Type 0} (test : A → Bool) (P : A → Type 0)
    → ((a : A) → test a ≡ false → P a)
    → (xs : List A) → any test xs ≡ false
    → All P xs
any-All test P pass [] h = tt
any-All test P pass (x ∷ xs) h =
    (pass x (ground (arith, h)), any-All test P pass xs (ground (arith, h)))

accepted-IsAllowed :
    (host : Bool) (key value : String)
    → is_refused host key value ≡ false
    → IsAllowed host (key, value)
unfolding is_refused is_protected
accepted-IsAllowed host key value h = record {
  named = λ e. let t : is_empty key ≡ true = ap is_empty e in absurd (ground (arith, h, t));
  plain_key =
      contains_char-All (λ c. c == b'=' || c == 0) (λ c. (c ≢ b'=') × (c ≢ 0))
        (λ c t. ground (arith, ==_iff c b'=', ==_iff c 0, t)) (codes key) (ground (arith, h));
  plain_value =
      contains_char-All (λ c. c == 0) (λ c. c ≢ 0)
        (λ c t e. absurd (ground (arith, ==_iff c 0, t, e))) (codes value) (ground (arith, h));
  unprotected = λ inside.
      any-All (λ k. codes_eq (codes k) (upper key)) (λ k. codes k ≢ upper key)
        (λ k t e. absurd (ground (arith, codes_eq_iff (codes k) (upper key), t, e))) protected_keys
        (ground (arith, h, inside));
}

false_of_negation : (b : Bool) → not b ≡ true → b ≡ false
false_of_negation true h = absurd (cc)
false_of_negation false h = refl

before_asym : (a b : List ℕ) → before a b ≡ true → before b a ≡ false
unfolding before
before_asym [] [] h = absurd (cc)
before_asym [] (y ∷ b) h = refl
before_asym (x ∷ a) [] h = absurd (cc)
before_asym (x ∷ a) (y ∷ b) h = ground (arith, h, before_asym a b, ==_iff x y, ==_iff y x)

insert_behind-IsOrdered :
    (e f : Variable) (rest : List Variable)
    → before (by_key f) (by_key e) ≡ true
    → IsOrdered (f ∷ rest)
    → IsOrdered (f ∷ insert_by by_key e rest)
unfolding insert_by
insert_behind-IsOrdered e f [] b h = (before_asym (by_key f) (by_key e) b, tt)
insert_behind-IsOrdered e f (g ∷ rest) b h = elim (Bool-cases (before (by_key g) (by_key e))) [
  | inl t ↦ rw t (h.0, insert_behind-IsOrdered e g rest t h.1)
  | inr t ↦ rw t (before_asym (by_key f) (by_key e) b, (t, h.1))
]

insert_by-IsOrdered :
    (e : Variable) (rest : List Variable) → IsOrdered rest → IsOrdered (insert_by by_key e rest)
unfolding insert_by
insert_by-IsOrdered e [] h = tt
insert_by-IsOrdered e (f ∷ rest) h = elim (Bool-cases (before (by_key f) (by_key e))) [
  | inl t ↦ rw t (insert_behind-IsOrdered e f rest t h)
  | inr t ↦ rw t (t, h)
]

insert_by-perm : (e : Variable) (rest : List Variable) → Perm (e ∷ rest) (insert_by by_key e rest)
unfolding insert_by
insert_by-perm e [] = Perm.rfl
insert_by-perm e (f ∷ rest) = elim (Bool-cases (before (by_key f) (by_key e))) [
  | inl t ↦ rw t (Perm.trans (Perm.swap f e rest) (Perm.cons f (insert_by-perm e rest)))
  | inr t ↦ rw t Perm.rfl
]

sort_by_lem : (vs : List Variable) → IsOrdered (sort_by by_key vs) × Perm vs (sort_by by_key vs)
unfolding sort_by
sort_by_lem [] = (tt, Perm.rfl)
sort_by_lem (e ∷ rest) =
    let (ordered, perm) = sort_by_lem rest in
    (
      insert_by-IsOrdered e (sort_by by_key rest) ordered,
      Perm.trans (Perm.cons e perm) (insert_by-perm e (sort_by by_key rest)),
    )

read_variables_lem :
    (host : Bool) (fs : Fields) (vs : List Variable)
    → read_variables host fs ≡ inr vs
    → (fs ≡ object_of vs) × All (IsAllowed host) vs
unfolding read_variables
read_variables_lem host end vs h = rw (← inr_injective [] vs h) (refl, tt)
read_variables_lem host (field key (string value) fs) vs h =
    let tail : WorkspaceError ⊎ List Variable =
      and_then (read_variables host fs) (λ rest. inr ((key, value) ∷ rest)) in
    let (accepted, more) =
      require-ok (not (is_refused host key value)) (key_protected key) tail vs h in
    let (rest, found, same) =
      and_then-ok (read_variables host fs) (λ rest. inr ((key, value) ∷ rest)) vs more in
    let (fields, allowed) = read_variables_lem host fs rest found in
    let good = accepted-IsAllowed host key value (false_of_negation _ accepted) in
    rw (← inr_injective ((key, value) ∷ rest) vs same)
      (ap (field key (string value)) fields, (good, allowed))
read_variables_lem host (field key null fs) vs h = inl-ne-inr _ _ h
read_variables_lem host (field key (bool b) fs) vs h = inl-ne-inr _ _ h
read_variables_lem host (field key (number n) fs) vs h = inl-ne-inr _ _ h
read_variables_lem host (field key (array items) fs) vs h = inl-ne-inr _ _ h
read_variables_lem host (field key (object inner) fs) vs h = inl-ne-inr _ _ h

-- The variables that a command is started with are exactly those of the object `env`, all texts and all
-- allowed, in the order of their keys in upper case.
pub parse_user_environment_lem :
    (host : Bool) (args : Value) (fs : Fields) (vs : List Variable)
    → get_key "env" args ≡ some (object fs)
    → parse_user_environment host args ≡ inr vs
    → (read : List Variable) × (fs ≡ object_of read)
      × All (IsAllowed host) read
      × Perm read vs
      × IsOrdered vs
unfolding parse_user_environment
parse_user_environment_lem host args fs vs given h =
    let whole : and_then (read_variables host fs) (λ read. inr (sort_by by_key read)) ≡ inr vs =
      ground (arith, given, h) in
    let (read, found, same) = and_then-ok (read_variables host fs) _ vs whole in
    let (fields, allowed) = read_variables_lem host fs read found in
    let (ordered, perm) = sort_by_lem read in
    let sorted = inr_injective (sort_by by_key read) vs same in
    (read, fields, allowed, rw (← sorted) perm, rw (← sorted) ordered)
