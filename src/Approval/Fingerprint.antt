-- ===== src/Approval/Fingerprint.antt =====
-- src-tauri/src/security/approval.rs: `fingerprint` and its nested `canonical`, which orders the
-- keys of every object.
use Prim.Native.String.{String}
use gpt_tools_mcp.Prelude.{str_eq, if◌then◌else◌}
use gpt_tools_mcp.Prelude.Text.{codes, before}
use gpt_tools_mcp.Json.{
  Value, Items, Fields, null, bool, number, string, array, object, nil, cons, end, field,
}
use gpt_tools_mcp.Approval.{Platform}

-- `BTreeMap::insert`: a later value replaces an earlier one of the same key.
unfoldable pub insert_field : String → Value → Fields → Fields
insert_field k v end = field k v end
insert_field k v (field j w m) =
    if str_eq j k
    then field k v m
    else if before (codes k) (codes j)
    then field k v (field j w m)
    else field j w (insert_field k v m)

-- `canonical`; the fields are collected in order of iteration into `acc`, an ordered map.
unfoldable mutual
  unfolding insert_field before

  pub canonical : Value → Value
  canonical null = null
  canonical (bool b) = bool b
  canonical (number n) = number n
  canonical (string s) = string s
  canonical (array items) = array (canonical_items items)
  canonical (object fs) = object (canonical_fields fs end)

  pub canonical_items : Items → Items
  canonical_items nil = nil
  canonical_items (cons v items) = cons (canonical v) (canonical_items items)

  pub canonical_fields : Fields → Fields → Fields
  canonical_fields end acc = acc
  canonical_fields (field k v fs) acc = canonical_fields fs (insert_field k (canonical v) acc)

-- `fingerprint`.
unfoldable pub fingerprint_of : Platform → String → Value → String
fingerprint_of p tool args = p.sha256_hex (p.to_json tool (canonical args))
