-- ===== src/Harness/Trace.antt =====
-- Histories of the tasks of a workspace (src-tauri/src/harness/state.rs): every operation that
-- writes a task, as a step with its surroundings.
use gpt_tools_mcp.Prelude.{String, List, [], ◌∷◌, Option, none}
use gpt_tools_mcp.Harness.{TaskStatus}
use gpt_tools_mcp.Harness.Store.{HarnessStore}
use gpt_tools_mcp.Harness.State.{
  Env, start_task, transition, refresh_expected_state, refresh_host_expected_state,
}
use gpt_tools_mcp.Harness.Baseline.{update_steps}

pub data Op : Type 0 where
  starts : Env → String → Op
  transitions : Env → String → TaskStatus → Op
  updates : Env → String → Option (List String) → Option (List String) → Op
  refreshes : Env → String → Op
  refreshes_host : Env → String → Op

unfoldable pub step : HarnessStore → Op → HarnessStore
unfolding start_task transition update_steps refresh_expected_state refresh_host_expected_state
step s (starts v objective) = (start_task v objective s).0
step s (transitions v id next) = (transition v id next s).0
step s (updates v id completed pending) = (update_steps v id completed pending s).0
step s (refreshes v id) = (refresh_expected_state v id s).0
step s (refreshes_host v id) = (refresh_host_expected_state v id s).0

unfoldable pub run : HarnessStore → List Op → HarnessStore
unfolding step
run s [] = s
run s (op ∷ ops) = run (step s op) ops

-- The files of a workspace in which nothing was done.
abbrev pub no_files : HarnessStore
no_files = record { tasks = []; state = none; events = [] }
