-- ===== src/Prelude/Assoc.antt =====
-- A `HashMap<String, V>` as an association list in the map's iteration order.
use Prim.Native.Nat.{◌≤◌, suc}
use Prim.Native.String.{String}
use mathlib.Core.Path.{◌≡◌, refl}
use mathlib.Core.Bool.{Bool, true}
use mathlib.Core.Option
use mathlib.Core.Option.{Option, none, some}
use mathlib.Core.List.{List, [], ◌∷◌, map}
use native.Mathlib.Omega.{arith}
use text.Mathlib.Text.{◌==◌}
use text.Mathlib.TextEquality.{eq_iff}
use gpt_tools_mcp.Prelude.Tests.{if◌then◌else◌}
use gpt_tools_mcp.Prelude.Lists.{retain, length}

module _ {ℓ} {V : Type ℓ} where
  -- `HashMap::get`.
  unfoldable pub get : String → List (String × V) → Option V
  get k [] = none
  get k ((j, v) ∷ m) = if j == k then some v else get k m

  -- `HashMap::insert`: in place for a key that is there.
  unfoldable pub insert : String → V → List (String × V) → List (String × V)
  insert k v [] = (k, v) ∷ []
  insert k v ((j, w) ∷ m) = if j == k then (k, v) ∷ m else (j, w) ∷ insert k v m

  -- `HashMap::remove`.
  unfoldable pub remove : String → List (String × V) → List (String × V)
  remove k [] = []
  remove k ((j, w) ∷ m) = if j == k then remove k m else (j, w) ∷ remove k m

  pub get-insert :
      (k j : String) (v : V) (m : List (String × V))
      → get j (insert k v m) ≡ (if k == j then some v else get j m)
  unfolding get insert
  get-insert k j v [] = refl
  get-insert k j v ((i, w) ∷ m) =
      ground (arith, eq_iff k j, eq_iff i k, eq_iff i j, get-insert k j v m)

  pub get-remove :
      (k j : String) (m : List (String × V))
      → get j (remove k m) ≡ (if k == j then none else get j m)
  unfolding get remove
  get-remove k j [] = ground arith
  get-remove k j ((i, w) ∷ m) = ground (arith, eq_iff k j, eq_iff i k, eq_iff i j, get-remove k j m)

  pub length-insert-le :
      (k : String) (v : V) (m : List (String × V)) → length (insert k v m) ≤ suc (length m)
  unfolding insert
  length-insert-le k v [] = omega arith
  length-insert-le k v ((i, w) ∷ m) = ground (arith, length-insert-le k v m)

-- No key stands twice, as in every `HashMap`.
module _ {ℓ} {V : Type ℓ} where
  abbrev pub Distinct : List (String × V) → Type ℓ
  Distinct [] = Unit
  Distinct ((k, v) ∷ m) = (get k m ≡ none) × Distinct m

  pub get-retain-none :
      (p : V → Bool) (k : String) (m : List (String × V))
      → get k m ≡ none
      → get k (retain (λ e. p e.1) m) ≡ none
  unfolding get
  get-retain-none p k [] h = refl
  get-retain-none p k ((j, v) ∷ m) h = ground (arith, get-retain-none p k m)

  pub get-retain-some :
      (p : V → Bool) (k : String) (v : V) (m : List (String × V))
      → Distinct m
      → get k m ≡ some v
      → get k (retain (λ e. p e.1) m) ≡ (if p v then some v else none)
  unfolding get
  get-retain-some p k v [] d h = ground arith
  get-retain-some p k v ((j, w) ∷ m) d h =
      ground (arith, get-retain-some p k v m d.1, get-retain-none p k m, eq_iff j k)

  pub Distinct-retain :
      (p : V → Bool) (m : List (String × V)) → Distinct m → Distinct (retain (λ e. p e.1) m)
  Distinct-retain p [] d = tt
  Distinct-retain p ((j, v) ∷ m) d =
      ground (arith, Distinct-retain p m d.1, get-retain-none p j m d.0)

  pub Distinct-insert :
      (k : String) (v : V) (m : List (String × V)) → Distinct m → Distinct (insert k v m)
  unfolding insert get
  Distinct-insert k v [] d = (refl, tt)
  Distinct-insert k v ((j, w) ∷ m) d =
      ground (arith, Distinct-insert k v m d.1, get-insert k j v m, eq_iff j k, eq_iff k j)

  pub length-insert_of_some :
      (k : String) (v w : V) (m : List (String × V))
      → get k m ≡ some w
      → length (insert k v m) ≡ length m
  unfolding insert get
  length-insert_of_some k v w [] h = ground arith
  length-insert_of_some k v w ((j, u) ∷ m) h = ground (arith, length-insert_of_some k v w m)

-- A map over the values, as `values_mut` makes it.
abbrev pub map_values {ℓ} : {V : Type ℓ} → (V → V) → List (String × V) → List (String × V)
map_values f = map (λ e. (e.0, f e.1))

module _ {ℓ} {V : Type ℓ} where
  pub get-map_values :
      (f : V → V) (k : String) (m : List (String × V))
      → get k (map_values f m) ≡ Option.map f (get k m)
  unfolding get
  get-map_values f k [] = refl
  get-map_values f k ((j, v) ∷ m) = ground (arith, get-map_values f k m)

  pub Distinct-map_values :
      (f : V → V) (m : List (String × V)) → Distinct m → Distinct (map_values f m)
  Distinct-map_values f [] d = tt
  Distinct-map_values f ((j, v) ∷ m) d =
      (rw (get-map_values f j m, d.0) refl, Distinct-map_values f m d.1)

module _ {ℓ} {V : Type ℓ} where
  -- A retained entry was there before, if no key stands twice.
  pub get-retain_back :
      (p : V → Bool) (k : String) (v : V) (m : List (String × V))
      → Distinct m
      → get k (retain (λ e. p e.1) m) ≡ some v
      → (get k m ≡ some v) × (p v ≡ true)
  unfolding get
  get-retain_back p k v [] d h = absurd (cc)
  get-retain_back p k v ((j, w) ∷ m) d h =
      ground (arith, get-retain_back p k v m d.1, get-retain-none p k m, eq_iff j k)

  pub Distinct-remove : (k : String) (m : List (String × V)) → Distinct m → Distinct (remove k m)
  unfolding remove get
  Distinct-remove k [] d = tt
  Distinct-remove k ((j, w) ∷ m) d =
      ground (arith, Distinct-remove k m d.1, get-remove k j m, eq_iff j k, eq_iff k j)
