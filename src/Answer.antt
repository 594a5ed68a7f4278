-- ===== src/Answer.antt =====
-- src-tauri/src/tools/workspace.rs: the errors of the tools and the JSON that answers a call.
-- `serde_json::Map` is ordered by its keys.
pub mod ReadBack
use Prim.Native.String.{◌++◌}
use gpt_tools_mcp.Prelude.{
  String, Bool, true, false, not, ◌&&◌, List, [], ◌∷◌, Option, none, some, str_eq, if◌then◌else◌,
  ◌⊎◌, inl, inr,
}
use gpt_tools_mcp.Json.{
  Value, Items, Fields, null, bool, string, array, object, nil, cons, end, field, get_key, as_str,
  as_bool, or_default,
}
use gpt_tools_mcp.Approval.Fingerprint.{insert_field}

abbrev fields : List (String × Value) → Fields
unfolding insert_field
fields [] = end
fields ((k, v) ∷ rest) = insert_field k v (fields rest)

-- `json!({ … })`.
unfoldable pub json : List (String × Value) → Value
unfolding fields
json entries = object (fields entries)

abbrev string_items : List String → Items
string_items [] = nil
string_items (s ∷ rest) = cons (string s) (string_items rest)

abbrev pub strings : List String → Value
strings words = array (string_items words)

-- `as_object_mut` with `insert`: a value that is no object stays as it is.
unfoldable pub insert_key : String → Value → Value → Value
unfolding insert_field
insert_key k v (object fs) = object (insert_field k v fs)
insert_key k v w = w

-- The assignment `value[key] = v`, which makes an object of null and panics on any other value that
-- is no object.
unfoldable pub assign_key : String → Value → Value → Option Value
unfolding insert_field
assign_key k v (object fs) = some (object (insert_field k v fs))
assign_key k v null = some (object (field k v end))
assign_key k v _ = none

-- `WorkspaceError`: the code, the message, the category and whether a retry can help; the second
-- has details.
pub data WorkspaceError : Type 0 where
  tool : String → String → String → Bool → WorkspaceError
  tool_details : String → String → String → Bool → Value → WorkspaceError

abbrev pub message_of : WorkspaceError → String
message_of (tool code message category retryable) = message
message_of (tool_details code message category retryable details) = message

abbrev pub code_of : WorkspaceError → String
code_of (tool code message category retryable) = code
code_of (tool_details code message category retryable details) = code

abbrev pub invalid_argument : String → WorkspaceError
invalid_argument message = tool "INVALID_ARGUMENT" message "validation" false

unfoldable pub error_value : String → String → String → Bool → Value → Value
unfolding json
error_value code message category retryable details = json (
    ("code", string code)
    ∷ ("message", string message)
    ∷ ("category", string category)
    ∷ ("retryable", bool retryable)
    ∷ ("details", details)
    ∷ [])

-- `to_error_value`.
unfoldable pub to_error_value : WorkspaceError → Value
unfolding error_value
to_error_value (tool code message category retryable) =
    error_value code message category retryable (object end)
to_error_value (tool_details code message category retryable details) =
    error_value code message category retryable details

abbrev pub refusal : String → String → Value → Value
unfolding json
refusal status summary error = json (
    ("ok", bool false)
    ∷ ("status", string status)
    ∷ ("summary", string summary)
    ∷ ("error", error)
    ∷ [])

-- `tool_err`.
unfoldable pub tool_err : WorkspaceError → Value
unfolding refusal to_error_value
tool_err e = refusal "error" (message_of e) (to_error_value e)

-- `tool_err_code`.
unfoldable pub tool_err_code : String → String → String → Value
unfolding refusal error_value
tool_err_code code message category =
    refusal "error" message (error_value code message category false (object end))

abbrev add_ok : Option Value → Value → Value
unfolding insert_key
add_ok none v = insert_key "ok" (bool true) v
add_ok (some _) v = v

-- `tool_ok`, on an object.
unfoldable pub tool_ok : Value → Value
unfolding get_key add_ok
tool_ok v = add_ok (get_key "ok" v) v

abbrev is_true : Option Bool → Bool
is_true (some b) = b
is_true none = false

abbrev is_false : Option Bool → Bool
is_false (some true) = false
is_false (some false) = true
is_false none = false

-- `output.get("ok").and_then(Value::as_bool) == Some(true)`, and the same for false.
unfoldable pub succeeded : Value → Bool
unfolding get_key
succeeded v = is_true (as_bool (get_key "ok" v))

unfoldable pub failed : Value → Bool
unfolding get_key
failed v = is_false (as_bool (get_key "ok" v))

abbrev pub ToolResult : Type 0
ToolResult = WorkspaceError ⊎ Value

-- The output of a tool, an error or not.
unfoldable pub output_of : ToolResult → Value
unfolding tool_err
output_of (inl e) = tool_err e
output_of (inr v) = v

-- The part of `wrap_mcp_tool_result` that a client reads first.
abbrev image_wanted : Value → Bool
unfolding get_key
image_wanted args = str_eq (or_default "mcp_image" (as_str (get_key "output" args))) "mcp_image"

-- `wrap_mcp_tool_result`, with `to_string` of a value as an argument.
unfoldable pub wrap_mcp_tool_result : (Value → String) → String → Value → Value → Value
unfolding failed get_key json image_wanted
wrap_mcp_tool_result to_string tool_name args structured =
    let is_error = failed structured in
    let image = json (
      ("type", string "image")
      ∷ ("data", string (or_default "" (as_str (get_key "base64" structured))))
      ∷ (
        "mimeType",
        string (or_default "application/octet-stream" (as_str (get_key "mime_type" structured))),
      )
      ∷ []) in
    let text = json (("type", string "text") ∷ ("text", string (to_string structured)) ∷ []) in
    let shows_image = str_eq tool_name "view_image" && (image_wanted args && not is_error) in
    json (
      ("content", array (cons (if shows_image then image else text) nil))
      ∷ ("structuredContent", structured)
      ∷ ("isError", bool is_error)
      ∷ [])
