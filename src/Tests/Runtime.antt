-- ===== src/Tests/Runtime.antt =====
-- The Manager of the app-server process at concrete values.
use codex_remote.Prelude.{ℕ, true, false, refl, none, some, arith, if◌then◌else◌, ltb}
use codex_remote.Runtime.{Config, Manager, ready, new_manager, plain_state}
use codex_remote.Runtime.Supervise.{
  Try, fails, comes_up, restart, round, disconnected, no_connection,
}
use codex_remote.Runtime.Rounds.{IsServing, Restarts, restart-Restarts, round-Restarts}

abbrev config : Config
config = record { max_restarts = 3; has_socket_path = true }

-- The process comes up again at the third attempt.
tries : ℕ → Try
tries attempt = record {
  ended = false;
  launch = if ltb attempt 2 then fails 5 else comes_up 11 12 13 14;
}

abbrev serving : Manager
serving = record new_manager {
  started = true;
  state = plain_state ready 1 none;
  current = some 8;
  cmd = some 9;
}

serving-IsServing : IsServing serving
unfolding plain_state
serving-IsServing = record {
  is_ready = refl;
  has_adapter = λ h. ground (arith, h);
  has_process = λ h. ground (arith, h);
}

restart-Restarts_example :
    Restarts serving.state.restart_count 3 (restart 4 config false tries 0 serving)
restart-Restarts_example = restart-Restarts 4 config false tries serving (omega arith)

round-Restarts_example :
    Restarts serving.state.restart_count 3
      (round config (disconnected false (λ attempt. no_connection)) tries serving)
round-Restarts_example =
    round-Restarts config (disconnected false (λ attempt. no_connection)) tries serving
      serving-IsServing
