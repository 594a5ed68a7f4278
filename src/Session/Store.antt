-- ===== src/Session/Store.antt =====
-- The table of sessions and the tools on it (src-tauri/src/tools/session.rs). Each function gives
-- its result and the table after it; a session that is changed in place is put back into the table.
use gpt_tools_mcp.Prelude.{
  ℕ, ◌+◌, min, String, Bool, true, false, not, ◌||◌, List, [], ◌∷◌, Option, none, some, ◌⊎◌, inl,
  inr, ltb, length, take, drop, any, str_eq, if◌then◌else◌,
}
use gpt_tools_mcp.Prelude.Assoc
use gpt_tools_mcp.Prelude.Text.{is_empty, split}
use gpt_tools_mcp.Json.{Value, get_key, as_str, as_u64, or_default}
use gpt_tools_mcp.Session.{
  Bytes, Output, ExecSession, Waited, Snapshot, belongs_to_context, refresh_status, snapshot,
}

abbrev pub SessionStore : Type 0
SessionStore = List (String × ExecSession)

pub data SessionError : Type 0 where
  invalid_argument : SessionError
  session_not_found : SessionError
  context_mismatch : SessionError
  session_closed : SessionError

abbrev pub Answer : Type 0 → Type 0
Answer A = (SessionError ⊎ A) × SessionStore

-- `has_active_sessions`.
unfoldable pub has_active_sessions : SessionStore → Bool
has_active_sessions = any (λ e. not e.1.exited)

-- `ensure_context_match`.
unfoldable pub ensure_context_match : String → ExecSession → SessionError ⊎ ExecSession
unfolding belongs_to_context
ensure_context_match fingerprint s =
    if belongs_to_context fingerprint s then inr s else inl context_mismatch

-- `SessionStore::get`, then `ensure_context_match`.
unfoldable pub owned_session : String → String → SessionStore → SessionError ⊎ ExecSession
unfolding Assoc.get ensure_context_match
owned_session fingerprint id store = elim (Assoc.get id store) [
  | none ↦ inl session_not_found
  | some s ↦ ensure_context_match fingerprint s
]

-- `refresh_host_completions`, with the answer of `try_wait` for each session.
abbrev pub refresh_if_host : Waited → ExecSession → ExecSession
refresh_if_host w s = if str_eq s.execution_boundary "host" then refresh_status w s else s

unfoldable pub refresh_host_completions : (String → Waited) → SessionStore → SessionStore
refresh_host_completions waited [] = []
refresh_host_completions waited ((id, s) ∷ store) =
    (id, refresh_if_host (waited id) s) ∷ refresh_host_completions waited store

-- `retained_stream_bytes`.
unfoldable pub retained_stream_bytes : String → ExecSession → Output
retained_stream_bytes stream s = if str_eq stream "stderr" then s.stderr else s.stdout

-- A page; its content is the text that `String::from_utf8_lossy` makes of its bytes.
pub record Page : Type 0 where
  pub offset : ℕ
  pub limit : ℕ
  pub content : List ℕ
  pub next_offset : Option ℕ
  pub total_retained_bytes : ℕ
  pub total_stream_bytes : ℕ

-- `clamp(1, 1_048_576)` of a number.
abbrev pub clamp_limit : ℕ → ℕ
clamp_limit n = if ltb n 1 then 1 else min n 1048576

abbrev pub page_at : (Bytes → List ℕ) → Output → ℕ → ℕ → Page
page_at from_utf8_lossy out offset limit =
    let chunk = take limit (drop offset out.retained) in
    record {
      offset = offset;
      limit = limit;
      content = from_utf8_lossy chunk;
      next_offset =
          if ltb (offset + length chunk) out.total then some (offset + length chunk) else none;
      total_retained_bytes = length out.retained;
      total_stream_bytes = out.total;
    }

-- The page of `read_output` for the arguments `offset` and `limit`.
unfoldable pub page : (Bytes → List ℕ) → Output → Option ℕ → Option ℕ → Page
page from_utf8_lossy out offset limit =
    page_at from_utf8_lossy out (min (or_default 0 offset) (length out.retained))
      (clamp_limit (or_default 4096 limit))

-- The session and the stream that an `output_ref` names.
pub record OutputRef : Type 0 where
  pub session_id : String
  pub stream : String

abbrev is_stream : String → Bool
is_stream stream = str_eq stream "stdout" || str_eq stream "stderr"

abbrev of_parts : List String → Option OutputRef
of_parts (tag ∷ id ∷ stream ∷ []) =
    if not (str_eq tag "session")
    then none
    else if is_stream stream || str_eq stream "full"
    then some (record { session_id = id; stream = stream })
    else none
of_parts _ = none

unfoldable pub parse_output_ref : String → Option OutputRef
unfolding split
parse_output_ref text = of_parts (split 0x3A text)

-- The stream that is read: that of the reference, or else the one that is asked for.
unfoldable pub chosen_stream : String → String → String
chosen_stream ref_stream requested =
    if is_stream ref_stream then ref_stream else if is_stream requested then requested else "stdout"

-- An argument that a tool cannot do without.
abbrev pub required : {A : Type 0} → Option A → SessionError ⊎ A
required none = inl invalid_argument
required (some a) = inr a

-- The rest of a tool on the session of an id that is of this context.
unfoldable pub with_session :
    {A : Type 0} → String → String → (ExecSession → Answer A) → SessionStore → Answer A
unfolding owned_session
with_session fingerprint id body store = elim (owned_session fingerprint id store) [
  | inl e ↦ (inl e, store)
  | inr s ↦ body s
]

-- The page of a reference.
unfoldable pub read_of :
    (Bytes → List ℕ) → String → Waited → Value → SessionStore → OutputRef → Answer (String × Page)
unfolding with_session get_key refresh_status chosen_stream retained_stream_bytes page Assoc.insert
read_of from_utf8_lossy fingerprint waited args store ref =
    with_session fingerprint ref.session_id
      (λ s.
        let now = refresh_status waited s in
        let stream = chosen_stream ref.stream (or_default "" (as_str (get_key "stream" args))) in
        let offset = as_u64 (get_key "offset" args) in
        let limit = as_u64 (get_key "limit" args) in
        (
          inr (stream, page from_utf8_lossy (retained_stream_bytes stream now) offset limit),
          Assoc.insert ref.session_id now store,
        ))
      store

abbrev pub and_then : {A B : Type 0} → Option A → (A → Option B) → Option B
and_then none f = none
and_then (some a) f = f a

-- `read_output`, with the decoder of the standard library.
unfoldable pub read_output :
    (Bytes → List ℕ) → String → Waited → Value → SessionStore → Answer (String × Page)
unfolding get_key parse_output_ref read_of
read_output from_utf8_lossy fingerprint waited args store =
    elim (required (and_then (as_str (get_key "output_ref" args)) parse_output_ref)) [
      | inl e ↦ (inl e, store)
      | inr ref ↦ read_of from_utf8_lossy fingerprint waited args store ref
    ]

-- What the open standard input of a running session makes of bytes: there is none, the write
-- fails, or they are written. A write that never returns is left out.
pub data Stdin : Type 0 where
  closed : Stdin
  write_failed : Stdin
  written : Stdin

abbrev accepts : Stdin → Bool
accepts written = true
accepts _ = false

-- `write_stdin`, with the answers of `try_wait` before and after the write.
unfoldable pub write_chars :
    Waited → Waited → Stdin → String → ℕ → String → SessionStore → ExecSession → Answer Snapshot
unfolding refresh_status snapshot is_empty Assoc.insert
write_chars before after stdin chars max_output_bytes id store s =
    let seen = refresh_status before s in
    let now = refresh_status after seen in
    if seen.exited
    then (
      if is_empty chars then inr (snapshot max_output_bytes seen) else inl session_closed,
      Assoc.insert id seen store,
    )
    else if is_empty chars || accepts stdin
    then (inr (snapshot max_output_bytes now), Assoc.insert id now store)
    else (inl session_closed, Assoc.insert id seen store)

unfoldable pub write_stdin :
    String → Waited → Waited → Stdin → Value → SessionStore → Answer Snapshot
unfolding get_key with_session write_chars
write_stdin fingerprint before after stdin args store =
    let chars = or_default "" (as_str (get_key "chars" args)) in
    let max_output_bytes = or_default 65536 (as_u64 (get_key "max_output_bytes" args)) in
    elim (required (as_str (get_key "session_id" args))) [
      | inl e ↦ (inl e, store)
      | inr id ↦
          with_session fingerprint id
            (write_chars before after stdin chars max_output_bytes id store) store
    ]
