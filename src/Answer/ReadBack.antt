-- ===== src/Answer/ReadBack.antt =====
-- What is read back from an object of JSON.
use gpt_tools_mcp.Prelude.{String, ◌≡◌, refl, some, str_eq, eq_iff, if◌then◌else◌, arith}
use gpt_tools_mcp.Json.{Value, Fields, object, end, field, lookup_field, get_key}
use gpt_tools_mcp.Approval.Fingerprint.{insert_field}
use gpt_tools_mcp.Answer.{insert_key}

pub lookup_field-insert_field :
    (k j : String) (v : Value) (fs : Fields)
    → lookup_field j (insert_field k v fs) ≡ (if str_eq k j then some v else lookup_field j fs)
unfolding lookup_field insert_field
lookup_field-insert_field k j v end = refl
lookup_field-insert_field k j v (field i w fs) =
    ground (arith, eq_iff k j, eq_iff i k, eq_iff i j, lookup_field-insert_field k j v fs)

pub get_key-insert_key :
    (k j : String) (v : Value) (fs : Fields)
    → get_key j (insert_key k v (object fs))
      ≡ (if str_eq k j then some v else get_key j (object fs))
unfolding get_key insert_key
get_key-insert_key k j v fs = lookup_field-insert_field k j v fs
