-- ===== src/Invocation/Equality.antt =====
-- Equality of JSON values, as `reserve` of src-tauri/src/tools/authorized_invocation.rs compares
-- arguments.
use gpt_tools_mcp.Prelude.{
  String, ◌≡◌, ◌↔◌, refl, ap, subst, Bool, true, ◌&&◌, arith, str_eq, eq_iff, ==_iff, and-true,
}
use gpt_tools_mcp.Json.{
  Value, Items, Fields, Number, null, bool, number, string, array, object, nil, cons, end, field,
  pos_int, neg_int, float, value_eq, items_eq, fields_eq, bool_eq, number_eq,
}

bool_eq_sound : (a b : Bool) → bool_eq a b ≡ true → a ≡ b
bool_eq_sound a b h = ground arith

number_eq_sound : (a b : Number) → number_eq a b ≡ true → a ≡ b
number_eq_sound (pos_int a) (pos_int b) h = ap pos_int ((==_iff a b).0 h)
number_eq_sound (pos_int a) (neg_int b) h = absurd (cc)
number_eq_sound (pos_int a) (float b) h = absurd (cc)
number_eq_sound (neg_int a) (pos_int b) h = absurd (cc)
number_eq_sound (neg_int a) (neg_int b) h = ap neg_int ((==_iff a b).0 h)
number_eq_sound (neg_int a) (float b) h = absurd (cc)
number_eq_sound (float a) (pos_int b) h = absurd (cc)
number_eq_sound (float a) (neg_int b) h = absurd (cc)
number_eq_sound (float a) (float b) h = ap float ((==_iff a b).0 h)

cons_cong : {v w : Value} {a b : Items} → v ≡ w → a ≡ b → cons v a ≡ cons w b
cons_cong p q = cc

field_cong :
    {j k : String} {v w : Value} {a b : Fields} → j ≡ k → v ≡ w → a ≡ b → field j v a ≡ field k w b
field_cong p q r = cc

mutual
  unfolding value_eq items_eq fields_eq

  value_eq_sound : (v w : Value) → value_eq v w ≡ true → v ≡ w
  value_eq_sound null null h = refl
  value_eq_sound null (bool b) h = absurd (cc)
  value_eq_sound null (number b) h = absurd (cc)
  value_eq_sound null (string b) h = absurd (cc)
  value_eq_sound null (array b) h = absurd (cc)
  value_eq_sound null (object b) h = absurd (cc)
  value_eq_sound (bool a) null h = absurd (cc)
  value_eq_sound (bool a) (bool b) h = ap bool (bool_eq_sound a b h)
  value_eq_sound (bool a) (number b) h = absurd (cc)
  value_eq_sound (bool a) (string b) h = absurd (cc)
  value_eq_sound (bool a) (array b) h = absurd (cc)
  value_eq_sound (bool a) (object b) h = absurd (cc)
  value_eq_sound (number a) null h = absurd (cc)
  value_eq_sound (number a) (bool b) h = absurd (cc)
  value_eq_sound (number a) (number b) h = ap number (number_eq_sound a b h)
  value_eq_sound (number a) (string b) h = absurd (cc)
  value_eq_sound (number a) (array b) h = absurd (cc)
  value_eq_sound (number a) (object b) h = absurd (cc)
  value_eq_sound (string a) null h = absurd (cc)
  value_eq_sound (string a) (bool b) h = absurd (cc)
  value_eq_sound (string a) (number b) h = absurd (cc)
  value_eq_sound (string a) (string b) h = ap string ((eq_iff a b).0 h)
  value_eq_sound (string a) (array b) h = absurd (cc)
  value_eq_sound (string a) (object b) h = absurd (cc)
  value_eq_sound (array a) null h = absurd (cc)
  value_eq_sound (array a) (bool b) h = absurd (cc)
  value_eq_sound (array a) (number b) h = absurd (cc)
  value_eq_sound (array a) (string b) h = absurd (cc)
  value_eq_sound (array a) (array b) h = ap array (items_eq_sound a b h)
  value_eq_sound (array a) (object b) h = absurd (cc)
  value_eq_sound (object a) null h = absurd (cc)
  value_eq_sound (object a) (bool b) h = absurd (cc)
  value_eq_sound (object a) (number b) h = absurd (cc)
  value_eq_sound (object a) (string b) h = absurd (cc)
  value_eq_sound (object a) (array b) h = absurd (cc)
  value_eq_sound (object a) (object b) h = ap object (fields_eq_sound a b h)

  items_eq_sound : (a b : Items) → items_eq a b ≡ true → a ≡ b
  items_eq_sound nil nil h = refl
  items_eq_sound nil (cons w b) h = absurd (cc)
  items_eq_sound (cons v a) nil h = absurd (cc)
  items_eq_sound (cons v a) (cons w b) h =
      let (p, q) = and-true (value_eq v w) (items_eq a b) h in
      cons_cong (value_eq_sound v w p) (items_eq_sound a b q)

  fields_eq_sound : (a b : Fields) → fields_eq a b ≡ true → a ≡ b
  fields_eq_sound end end h = refl
  fields_eq_sound end (field k w b) h = absurd (cc)
  fields_eq_sound (field j v a) end h = absurd (cc)
  fields_eq_sound (field j v a) (field k w b) h =
      let (p, q) = and-true (str_eq j k) (value_eq v w && fields_eq a b) h in
      let (r, t) = and-true (value_eq v w) (fields_eq a b) q in
      field_cong ((eq_iff j k).0 p) (value_eq_sound v w r) (fields_eq_sound a b t)

mutual
  unfolding value_eq items_eq fields_eq

  value_eq_refl : (v : Value) → value_eq v v ≡ true
  value_eq_refl null = refl
  value_eq_refl (bool b) = ground arith
  value_eq_refl (number (pos_int n)) = ground arith
  value_eq_refl (number (neg_int n)) = ground arith
  value_eq_refl (number (float n)) = ground arith
  value_eq_refl (string s) = (eq_iff s s).1 refl
  value_eq_refl (array items) = items_eq_refl items
  value_eq_refl (object fs) = fields_eq_refl fs

  items_eq_refl : (a : Items) → items_eq a a ≡ true
  items_eq_refl nil = refl
  items_eq_refl (cons v a) = rw (value_eq_refl v, items_eq_refl a) refl

  fields_eq_refl : (a : Fields) → fields_eq a a ≡ true
  fields_eq_refl end = refl
  fields_eq_refl (field j v a) = rw ((eq_iff j j).1 refl, value_eq_refl v, fields_eq_refl a) refl

pub value_eq_iff : (v w : Value) → (value_eq v w ≡ true) ↔ (v ≡ w)
value_eq_iff v w = (value_eq_sound v w, λ e. subst (λ x. value_eq v x ≡ true) e (value_eq_refl v))
