-- ===== src/Lib.antt =====
-- GPT Tools MCP is a desktop program (Tauri, src-tauri/src) that gives a language model tools over
-- local workspaces: files, patches, commands. A request reaches a tool through an HTTP listener
-- that checks a bearer or an OAuth token; the workspace's execution policy says what the tool may
-- do; and a request that goes beyond it waits in the approval store until the user decides.
--
-- Approval, Approval/*: src-tauri/src/security/approval.rs. Approval holds the data (`Record`,
-- `ApprovalDecision`, `ApprovalStatus`), Fingerprint the canonical form of a request, Store the
-- requests and their status, Decide the operations on one record, Queue `pending`,
-- `remove_context` and `remove_execution_root`, and Trace the histories of operations. An
-- operation takes the store and returns it with its result. Each reading of the clock is its own
-- argument (an `Instant` is a number of nanoseconds), and so are the fresh UUID and the seconds
-- since the epoch. A poisoned lock is a flag of the store. The hash map is an association list in
-- the order of iteration. SHA-256, `serde_json::to_string` and `canonicalize` are the fields of
-- `Platform`, of which nothing is assumed.
--
-- Permission, Permission/*: src-tauri/src/security/permission.rs. `ExecutionPolicy`, `from_config`
-- and `intersect`. The order that a policy grants by is `IsWithin` of Permission/Lattice.
--
-- OAuth, OAuth/*: src-tauri/src/auth/oauth_flow.rs and the comparison of secrets of
-- src-tauri/src/auth/bearer.rs. Compare compares secrets byte by byte, Bearer is
-- `verify_bearer_header` on the header that the HTTP library finds, Flow is `OAuthRuntime` with
-- the authorization, Token the exchange for a token, Codes the histories of requests, Encode the
-- encoder of the redirect. SHA-256 with base64url, the signing of a token and the decoding of a
-- Basic header are the fields of `Crypto`, of which nothing is assumed. A response is its kind and
-- its texts. Not modelled: the HTML of the login page, and `verify_access_token`, which is a call
-- of the JWT library.
--
-- Patch, Patch/*: src-tauri/src/tools/patch.rs. Patch holds the data of a patch with
-- `apply_hunks` and `find_hunk_position`, Parse the two parsers as machines that read one line at
-- a time with the functions of `str` in Strings, Print the printer that the round trip is about.
-- A text is the list of its code points; `Vec::insert` past the end is a panic, `Vec::remove` is
-- guarded. Commit writes the staged files, Written and Atomic are about its result; which calls
-- of the file system succeed is an argument (`FileSystem`). Apply is `apply_patch` with
-- `commit_staged`, Outcome what it leaves on the disk, Refused what it leaves when it is refused;
-- the target of a path and the validity of the context are arguments (`Calls`).
--
-- Harness, Harness/*: src-tauri/src/harness. Harness holds the data of model.rs and the transitions
-- of a task, Store the files of one workspace (store.rs), State and Baseline the operations of
-- `Harness` (state.rs), Trace their histories. A task is started on a workspace, moves between its
-- statuses, and carries the baseline that the workspace is compared with before a write. Which
-- calls of the file system fail, and what `capture_baseline` sees, are arguments of each operation
-- (`Env`). A write is all or nothing, as the renaming of a temporary file makes it. Not modelled:
-- `project_state`, and of `status` the texts and the list of capabilities.
--
-- Invocation, Invocation/*: src-tauri/src/tools/authorized_invocation.rs, the handoff of an
-- approved call from the dispatcher to the runner of a process. Threads takes each access to the
-- atomic state as one step, in any order among the threads.
--
-- Session, Session/*: src-tauri/src/tools/session.rs. Session holds a command session and its
-- streams, Store the table of sessions with `read_output` and `write_stdin`, Kill `kill_session`,
-- Shutdown the end of all sessions of a context, Pages a client that reads a stream page by page.
-- Bytes are numbers; the decoder of a page, `from_utf8_lossy` of the standard library, is an
-- argument, and the tail of a snapshot is given before it. What the system answers about a
-- process (`try_wait`, the wait for a killed process, the write to its input) is an argument. The
-- table holds each session once under its id, so a shared session that is changed is put back.
-- Not modelled: a write of `write_stdin` that never returns, the process and its pipes, the
-- elapsed time and the suggestions of a snapshot.
--
-- Context, Context/*: src-tauri/src/tools/execution_context.rs and
-- src-tauri/src/mcp/workspace_context.rs. Context holds the keys of paths, Git what git says of a
-- directory, Resolve the resolution of a path that may not exist, Execution and Validate the
-- `ExecutionContext` with its checks of paths, Pin the lock of a conversation on a worktree. The
-- file system, the paths of the platform, the runs of git, with their time limit, and SHA-256 are
-- the fields of `System`, of which nothing is assumed; an operation sees one state of it. An
-- instant of a pin is a number of seconds.
--
-- Policy, Policy/*: src-tauri/src/tools/policy.rs. Settings holds the allowed commands, Scan the
-- reading of a command's text, Words the test of its first word, Assess its assessment with
-- `validate_command_for_workspace`. The regular expressions, `shell_words` and two tests of paths
-- are the fields of `Matchers`, of which nothing is assumed; whether an executable is a file of
-- the workspace is an argument.
--
-- Workspace, Workspace/*: src-tauri/src/tools/workspace.rs, the paths of a workspace. ToolContext,
-- ToolContext/*: of src-tauri/src/tools/context.rs the resolution of a path that a tool is given,
-- which `Calls` of Patch/Apply takes as an argument; Confined joins the two. An error of
-- `Workspace` is its code.
--
-- Answer, Answer/*: the errors and the JSON of the tools' answers, of
-- src-tauri/src/tools/workspace.rs.
--
-- Dispatch, Dispatch/*: src-tauri/src/tools/dispatch.rs, the entry of all tools, over the
-- components above. `World` is what a `ToolContext` changes, `Setup` what it keeps, `Call` a
-- request with what the clock, the UUIDs and the file system answer while it runs. Prepare is the
-- part of `call_tool_with_identity` before a tool is chosen, with the approvals in Gate; Run is
-- the rest, with what it records in Record. Codes are the answers, Summary what the desktop is
-- shown, Permissions the checks of `request_permissions`, Approvals its end with
-- `get_approval_status`. A panic is an outcome. All other tools are a function of the call
-- (`Tools`), and the texts of errors of other files, derived JSON and displayed paths are the
-- fields of `Texts`. Harness/Operations is the log of operations.
--
-- Exec, Exec/*: src-tauri/src/tools/exec.rs. Environment reads the variables of a caller, Program
-- finds the program of a command, Diagnostic answers the commands that need no process, Command is
-- `exec_command_authorized` up to the reservation of its authorization and Run the rest with
-- `run_command`, Wait the loop that waits for the process, one `Poll` a turn, after the writing of
-- its input, which may never return (`Input`). A start is an effect
-- of the model: `Done` says which process was started. The start itself, the files and PATH are a
-- `Runner`. The loop has 1,501 turns as fuel: a turn sleeps 20 ms, and the time to wait is at most
-- 30 seconds.
--
-- Json is `serde_json::Value`, with the fields of an object in the order of the map. Prelude,
-- Prelude/* hold the tests on numbers and strings, the list functions, association lists and their
-- lemmas.
--
-- Loops are structural recursions; the one that counts positions, `search_from`, gets the number of
-- positions that are left, as the range of the source does, so no fuel can run out. Only
-- the wait of Exec is on fuel, as said there.
--
-- Not modelled: the HTTP listeners and the gateway, the start of processes, tunnels, settings and
-- secrets, the desktop commands and the operating system's sandboxes, which are input and output;
-- and of the program's own logic the bindings of the gateway, which are left out for size, and the
-- tools on files, git and history and those that describe the server.
mod Prelude
pub mod Json
pub mod Answer
pub mod Approval
pub mod Permission
pub mod OAuth
pub mod Patch
pub mod Harness
pub mod Invocation
pub mod Session
pub mod Context
pub mod Policy
pub mod Workspace
pub mod ToolContext
pub mod Dispatch
pub mod Exec
