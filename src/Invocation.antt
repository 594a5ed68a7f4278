-- ===== src/Invocation.antt =====
-- src-tauri/src/tools/authorized_invocation.rs: the one-shot handoff from the dispatcher to the
-- runner of a process, its reservation, and what a caller gets for each state.
pub mod Equality
pub mod Threads
mod Tests
use gpt_tools_mcp.Prelude.{String, Bool, true, false, not, ◌&&◌, ◌||◌, str_eq, if◌then◌else◌}
use gpt_tools_mcp.Json.{
  Value, Fields, null, bool, number, string, array, object, end, field, value_eq,
}

-- The values of the atomic `state`.
pub data State : Type 0 where
  available reserved committed launch_failed invalidated : State

pub record AuthorizedInvocation : Type 0 where
  pub tool : String
  pub effect : Value
  pub execution_fingerprint : String
  pub policy_revision : String
  pub state : State

-- What a call reads from its `ToolContext`, and what it asks for.
pub record Caller : Type 0 where
  pub execution_fingerprint : String
  pub permission_revision : String
  pub tool : String
  pub args : Value

-- `Map::remove`.
unfoldable pub remove_field : String → Fields → Fields
remove_field k end = end
remove_field k (field j v fs) =
    if str_eq j k then remove_field k fs else field j v (remove_field k fs)

-- `effect_args`: the arguments without those that only identify the request.
unfoldable pub effect_args : Value → Value
unfolding remove_field
effect_args (object fs) = object (remove_field "client_request_id" (remove_field "approval_id" fs))
effect_args v = v

-- `AuthorizedInvocation::new`.
abbrev pub new : Caller → AuthorizedInvocation
new c = record {
  tool = c.tool;
  effect = effect_args c.args;
  execution_fingerprint = c.execution_fingerprint;
  policy_revision = c.permission_revision;
  state = available;
}

-- `context_matches`, `policy_matches` and `effect_matches` of `reserve`.
unfoldable pub matches : AuthorizedInvocation → Caller → Bool
unfolding effect_args value_eq
matches i c =
    str_eq i.execution_fingerprint c.execution_fingerprint
    && (str_eq i.policy_revision c.permission_revision
        && (str_eq i.tool c.tool && value_eq i.effect (effect_args c.args)))

-- The codes of `reserve`; `granted` is the reservation.
pub data Reserved : Type 0 where
  granted consumed failed in_flight invalid : Reserved

-- `compare_exchange(AVAILABLE, RESERVED)` with the arms of its result.
abbrev pub exchange : State → State × Reserved
exchange available = (reserved, granted)
exchange committed = (committed, consumed)
exchange launch_failed = (launch_failed, failed)
exchange reserved = (reserved, in_flight)
exchange invalidated = (invalidated, invalid)

-- `reserve`.
unfoldable pub reserve : AuthorizedInvocation → Caller → AuthorizedInvocation × Reserved
unfolding matches
reserve i c =
    if not (matches i c)
    then (record i { state = invalidated }, invalid)
    else (record i { state = (exchange i.state).0 }, (exchange i.state).1)

-- `InvocationReservation::commit`.
unfoldable pub commit : AuthorizedInvocation → AuthorizedInvocation
commit i = record i { state = committed }

-- `drop` of a reservation that was not committed.
unfoldable pub drop_reservation : AuthorizedInvocation → AuthorizedInvocation
drop_reservation i = record i { state = launch_failed }
