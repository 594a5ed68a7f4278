-- ===== src/Approval/Canonical.antt =====
-- The fingerprint of a request does not depend on the order in which a client writes the fields of
-- its JSON objects (`fingerprint` and `canonical` of src-tauri/src/security/approval.rs).
use Prim.Native.String.{String}
use text.Mathlib.TextEquality.{Char-path}
use gpt_tools_mcp.Prelude.{
  ℕ, ◌≡◌, ◌≢◌, refl, sym, ◌∙◌, ap, ap₂, inl, inr, true, false, List, [], ◌∷◌, arith, ==_iff, str_eq,
  eq_iff, Bool-cases,
}
use gpt_tools_mcp.Prelude.Text.{codes}
use gpt_tools_mcp.Json.{Value, Items, Fields, array, object, nil, cons, end, field}
use gpt_tools_mcp.Approval.{Platform}
use gpt_tools_mcp.Prelude.Text.{before}
use gpt_tools_mcp.Approval.Fingerprint.{
  insert_field, canonical, canonical_items, canonical_fields, fingerprint_of,
}

pub before_asymm : (a b : List ℕ) → before a b ≡ true → before b a ≡ false
unfolding before
before_asymm [] [] h = refl
before_asymm [] (y ∷ b) h = refl
before_asymm (x ∷ a) [] h = absurd (cc)
before_asymm (x ∷ a) (y ∷ b) h = ground (arith, before_asymm a b, ==_iff x y, ==_iff y x)

before_trans : (a b c : List ℕ) → before a b ≡ true → before b c ≡ true → before a c ≡ true
unfolding before
before_trans a [] c h k = absurd (ground arith)
before_trans a (y ∷ b) [] h k = absurd (ground arith)
before_trans [] (y ∷ b) (z ∷ c) h k = refl
before_trans (x ∷ a) (y ∷ b) (z ∷ c) h k =
    ground (arith, before_trans a b c, ==_iff x y, ==_iff y z, ==_iff x z)

before_total : (a b : List ℕ) → before a b ≡ false → before b a ≡ false → a ≡ b
unfolding before
before_total [] [] h k = refl
before_total [] (y ∷ b) h k = absurd (cc)
before_total (x ∷ a) [] h k = absurd (cc)
before_total (x ∷ a) (y ∷ b) h k = ground (arith, before_total a b, ==_iff x y, ==_iff y x)

codes_injective : (s t : String) → codes s ≡ codes t → s ≡ t
codes_injective String.[] String.[] h = refl
codes_injective String.[] (String.◌∷◌ d t) h = absurd (cc)
codes_injective (String.◌∷◌ c s) String.[] h = absurd (cc)
codes_injective (String.◌∷◌ c s) (String.◌∷◌ d t) h =
    ap₂ String.◌∷◌ (Char-path c d (ground arith)) (codes_injective s t (ground arith))

-- Of two different keys exactly one comes first.
keys_total :
    (j k : String)
    → str_eq j k ≡ false
    → before (codes j) (codes k) ≡ false
    → before (codes k) (codes j) ≡ true
keys_total j k n h = elim (Bool-cases (before (codes k) (codes j))) [
  | inl e ↦ e
  | inr e ↦
      absurd
        (ground (arith, eq_iff j k, codes_injective j k (before_total (codes j) (codes k) h e)))
]

insert_field_comm :
    (k j : String) (v w : Value) (m : Fields)
    → k ≢ j
    → insert_field k v (insert_field j w m) ≡ insert_field j w (insert_field k v m)
unfolding insert_field
insert_field_comm k j v w end n = ground (
  arith,
  eq_iff j k,
  eq_iff k j,
  before_asymm (codes j) (codes k),
  before_asymm (codes k) (codes j),
  keys_total j k,
)
insert_field_comm k j v w (field i x m) n = ground (
  arith,
  eq_iff j k,
  eq_iff k j,
  eq_iff i k,
  eq_iff i j,
  before_asymm (codes j) (codes k),
  keys_total j k,
  keys_total i k,
  keys_total i j,
  before_trans (codes j) (codes k) (codes i),
  before_trans (codes k) (codes j) (codes i),
  before_trans (codes i) (codes k) (codes j),
  before_trans (codes i) (codes j) (codes k),
  before_asymm (codes i) (codes j),
  before_asymm (codes i) (codes k),
  insert_field_comm k j v w m,
)

-- Two values that differ only in the order of the fields of their objects, at any depth.
mutual
  pub data SameValue : Value → Value → Type 0 where
    here : (v : Value) → SameValue v v
    in_array : {a b : Items} → SameItems a b → SameValue (array a) (array b)
    in_object : {a b : Fields} → SameFields a b → SameValue (object a) (object b)

  pub data SameItems : Items → Items → Type 0 where
    no_items : SameItems nil nil
    item :
        {v w : Value} {a b : Items}
        → SameValue v w
        → SameItems a b
        → SameItems (cons v a) (cons w b)

  pub data SameFields : Fields → Fields → Type 0 where
    no_fields : SameFields end end
    same_field :
        (k : String) {v w : Value} {a b : Fields}
        → SameValue v w
        → SameFields a b
        → SameFields (field k v a) (field k w b)
    swapped :
        (k j : String) (v w : Value) (m : Fields)
        → k ≢ j
        → SameFields (field k v (field j w m)) (field j w (field k v m))
    chained : {a b c : Fields} → SameFields a b → SameFields b c → SameFields a c

mutual
  unfolding canonical

  canonical-same : {v w : Value} → SameValue v w → canonical v ≡ canonical w
  canonical-same (here v) = refl
  canonical-same (in_array s) = ap array (canonical_items-same s)
  canonical-same (in_object s) = ap object (canonical_fields-same s end)

  canonical_items-same : {a b : Items} → SameItems a b → canonical_items a ≡ canonical_items b
  canonical_items-same no_items = refl
  canonical_items-same (item s r) = ap₂ cons (canonical-same s) (canonical_items-same r)

  canonical_fields-same :
      {a b : Fields}
      → SameFields a b
      → (acc : Fields) → canonical_fields a acc ≡ canonical_fields b acc
  canonical_fields-same no_fields acc = refl
  canonical_fields-same (same_field k {v} {w} {a} {b} s r) acc =
      ap (λ x. canonical_fields a (insert_field k x acc)) (canonical-same s)
      ∙ canonical_fields-same r (insert_field k (canonical w) acc)
  canonical_fields-same (swapped k j v w m n) acc =
      ap (canonical_fields m) (sym (insert_field_comm k j (canonical v) (canonical w) acc n))
  canonical_fields-same (chained s r) acc =
      canonical_fields-same s acc ∙ canonical_fields-same r acc

-- Requests whose arguments differ only in the order of object fields, at any depth, have the same
-- fingerprint, whatever the hash and the JSON encoder are.
pub fingerprint-same :
    (p : Platform) (tool : String) {v w : Value}
    → SameValue v w
    → fingerprint_of p tool v ≡ fingerprint_of p tool w
unfolding fingerprint_of
fingerprint-same p tool s = ap (λ x. p.sha256_hex (p.to_json tool x)) (canonical-same s)
