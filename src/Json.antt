-- ===== src/Json.antt =====
-- `serde_json::Value` as the program uses it.
use gpt_tools_mcp.Prelude.{
  ℕ, String, Bool, true, false, ◌&&◌, ◌==◌, str_eq, Option, none, some, if◌then◌else◌,
}

pub data Number : Type 0 where
  pos_int : ℕ → Number
  neg_int : ℕ → Number
  float : ℕ → Number

mutual
  pub data Value : Type 0 where
    null : Value
    bool : Bool → Value
    number : Number → Value
    string : String → Value
    array : Items → Value
    object : Fields → Value

  pub data Items : Type 0 where
    nil : Items
    cons : Value → Items → Items

  pub data Fields : Type 0 where
    end : Fields
    field : String → Value → Fields → Fields

abbrev pub bool_eq : Bool → Bool → Bool
bool_eq true b = b
bool_eq false true = false
bool_eq false false = true

abbrev pub number_eq : Number → Number → Bool
number_eq (pos_int a) (pos_int b) = a == b
number_eq (neg_int a) (neg_int b) = a == b
number_eq (float a) (float b) = a == b
number_eq _ _ = false

-- The derived `PartialEq`; the fields of two equal objects stand in one order, that of the map.
unfoldable mutual
  pub value_eq : Value → Value → Bool
  value_eq null null = true
  value_eq (bool a) (bool b) = bool_eq a b
  value_eq (number a) (number b) = number_eq a b
  value_eq (string a) (string b) = str_eq a b
  value_eq (array a) (array b) = items_eq a b
  value_eq (object a) (object b) = fields_eq a b
  value_eq _ _ = false

  pub items_eq : Items → Items → Bool
  items_eq nil nil = true
  items_eq (cons v a) (cons w b) = value_eq v w && items_eq a b
  items_eq _ _ = false

  pub fields_eq : Fields → Fields → Bool
  fields_eq end end = true
  fields_eq (field j v a) (field k w b) = str_eq j k && (value_eq v w && fields_eq a b)
  fields_eq _ _ = false

-- `Value::get` on an object: the value of a key.
unfoldable pub lookup_field : String → Fields → Option Value
lookup_field k end = none
lookup_field k (field j v fs) = if str_eq j k then some v else lookup_field k fs

-- `arguments.get(key)`: none on a value that is no object.
unfoldable pub get_key : String → Value → Option Value
unfolding lookup_field
get_key k (object fs) = lookup_field k fs
get_key k v = none

-- `Value::as_str`, `as_bool`, `as_u64` and `as_object` under `and_then`.
abbrev pub as_str : Option Value → Option String
as_str (some (string s)) = some s
as_str _ = none

abbrev pub as_bool : Option Value → Option Bool
as_bool (some (bool b)) = some b
as_bool _ = none

abbrev pub as_u64 : Option Value → Option ℕ
as_u64 (some (number (pos_int n))) = some n
as_u64 _ = none

abbrev pub or_default {ℓ} : {A : Type ℓ} → A → Option A → A
or_default a none = a
or_default a (some b) = b
