-- ===== src/Session/Tests.antt =====
-- Sessions on concrete streams and tables (src-tauri/src/tools/session.rs).
use gpt_tools_mcp.Prelude.{
  ℕ, suc, ◌+◌, ◌≤◌, ◌<◌, ltb, All, ◌≡◌, refl, true, false, String, List, [], ◌∷◌, none, some, inr,
  length, retain, str_eq, if◌then◌else◌, arith,
}
use gpt_tools_mcp.Prelude.Assoc
use gpt_tools_mcp.Json.{Value, string, object, field, end, pos_int, get_key, as_str}
use gpt_tools_mcp.Session.{
  Bytes, no_output, ExecSession, new_inner, Read, got, broken, read_stream, still_running, ended,
  Waited, truncate_tail,
}
use gpt_tools_mcp.Session.Stream.{HasRead, delivered, read_stream_refines}
use gpt_tools_mcp.Session.Pages.{KeepsAscii, read_pages, read_pages_whole}
use gpt_tools_mcp.Session.Store.{SessionStore, parse_output_ref, owned_session}
use gpt_tools_mcp.Session.Kill.{Kept, evicted_of, kill_session, IsOver, kill_session_lem}
use gpt_tools_mcp.Session.Shutdown.{
  Wait, exit_status, elapsed, is_requested, shutdown_matching, remaining, expected,
  shutdown_matching_lem,
}

abbrev reads : List Read
reads = got (1 ∷ 2 ∷ 3 ∷ []) ∷ got (4 ∷ 5 ∷ []) ∷ broken ∷ got (6 ∷ []) ∷ []

keeps_the_last : read_stream 3 no_output reads ≡ record { retained = 3 ∷ 4 ∷ 5 ∷ []; total = 5 }
unfolding read_stream
keeps_the_last = refl

tail : truncate_tail (1 ∷ 2 ∷ 3 ∷ []) 2 ≡ record { content = 2 ∷ 3 ∷ []; truncated = true }
unfolding truncate_tail
tail = refl

read_stream_refines_example : HasRead 3 (delivered reads) (read_stream 3 no_output reads)
read_stream_refines_example = read_stream_refines 3 reads

small : length (delivered reads) ≤ 8
unfolding delivered
small = omega arith

-- Every byte for itself, but for one that is no ASCII character.
abbrev decoded : Bytes → List ℕ
decoded [] = []
decoded (b ∷ bytes) = (if ltb b 128 then b else 0xFFFD) ∷ decoded bytes

decoded-KeepsAscii : KeepsAscii decoded
decoded-KeepsAscii [] h = refl
decoded-KeepsAscii (b ∷ bytes) h = ground (arith, h.0, decoded-KeepsAscii bytes h.1)

ascii : All (λ b. b < 128) (delivered reads)
unfolding delivered
ascii = (omega arith, (omega arith, (omega arith, (omega arith, (omega arith, tt)))))

read_pages_whole_example :
    read_pages decoded (suc (length (delivered reads))) (read_stream 8 no_output reads) (some 2) 0
    ≡ some (delivered reads)
read_pages_whole_example = read_pages_whole decoded 8 reads (some 2) decoded-KeepsAscii ascii small

large : 1 + 3 ≤ length (delivered reads)
unfolding delivered
large = omega arith

reads_ref :
    parse_output_ref "session:a:stderr" ≡ some (record { session_id = "a"; stream = "stderr" })
unfolding parse_output_ref
reads_ref = refl

refuses_ref : parse_output_ref "session:a:b:stderr" ≡ none
unfolding parse_output_ref
refuses_ref = refl

abbrev first : ExecSession
first = new_inner "a" true true "context-a" false "policy_only"

abbrev second : ExecSession
second = new_inner "b" true true "context-b" false "policy_only"

abbrev store : SessionStore
store = ("a", first) ∷ ("b", second) ∷ []

abbrev args : Value
args = object (field "session_id" (string "a") end)

named : as_str (get_key "session_id" args) ≡ some "a"
unfolding get_key
named = refl

owned : owned_session "context-a" "a" store ≡ inr first
unfolding owned_session
owned = refl

abbrev stops : Waited
stops = ended (some (pos_int 0))

kill_session_example :
    let done = kill_session "context-a" still_running still_running stops args store in
    Kept (evicted_of done) "a" done.1 (IsOver still_running still_running stops first)
    × ((j : String) → str_eq "a" j ≡ false → Assoc.get j done.1 ≡ Assoc.get j store)
kill_session_example =
    kill_session_lem "context-a" still_running still_running stops args store "a" first named owned

abbrev slow : String → Wait
slow id = if str_eq id "a" then elapsed still_running else exit_status none

distinct : Assoc.Distinct store
unfolding Assoc.get
distinct = (refl, (refl, tt))

shutdown_matching_example :
    let done = shutdown_matching slow "server_restart" none store in
    ((j : String) → Assoc.get j done.1 ≡ expected slow "server_restart" none j (Assoc.get j store))
    × (done.0.requested ≡ length (retain (λ e. is_requested none e.1) store))
    × (done.0.terminated + done.0.timed_out ≡ done.0.requested)
    × (remaining done.0 ≡ done.0.timed_out)
shutdown_matching_example = shutdown_matching_lem slow "server_restart" none store distinct
