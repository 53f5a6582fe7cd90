-- ===== src/Runtime/Supervise.antt =====
-- internal/runtime/manager.go: `startInstance` and `supervise`. What the process, the socket and the
-- clock do is given; the loop without a bound in its head runs on fuel.
use codex_remote.Prelude.{
  ℕ, zero, suc, ◌+◌, Bool, true, false, not, ◌&&◌, ◌||◌, Option, none, some, if◌then◌else◌, ltb,
  leb,
}
use codex_remote.Runtime.{
  Status, starting, ready, restarting, stopped, failed, State, Config, Manager, plain_state,
  set_state, publish_state,
}

-- What the steps of `startInstance` after its first state come to: an error, or a process and an
-- adapter with the initialize result and the time.
pub data Launch : Type 0 where
  fails : ℕ → Launch
  comes_up : ℕ → ℕ → ℕ → ℕ → Launch

unfoldable pub is_restarting : Status → Bool
is_restarting restarting = true
is_restarting starting = false
is_restarting ready = false
is_restarting stopped = false
is_restarting failed = false

unfoldable pub launched : ℕ → Launch → Manager → Option ℕ × Manager
unfolding publish_state
launched count (fails e) m = (some e, m)
launched count (comes_up process ad info now) m =
    let s : State = record {
      status = ready;
      restart_count = count;
      started_at = now;
      app_server = some info;
      error = none;
    } in
    (none, publish_state s (record m { cmd = some process; current = some ad; state = s }))

-- `startInstance`: an error or none. The error 1 is that of a missing socket path.
unfoldable pub start_instance : Config → Status → Launch → Manager → Option ℕ × Manager
unfolding set_state plain_state launched is_restarting
start_instance cfg status launch m =
    let count = if is_restarting status then m.state.restart_count + 1 else m.state.restart_count in
    let m' = set_state (plain_state status count none) m in
    if cfg.has_socket_path then launched count launch m' else (some 1, m')

-- An attempt: whether the context ends during the delay before it, and the launch.
pub record Try : Type 0 where
  pub ended : Bool
  pub launch : Launch

-- Whether `supervise` goes on with a new process, or returns.
pub data Exit : Type 0 where
  resumes returns : Exit

unfoldable pub after_launch :
    Config → ℕ → Option ℕ × Manager → Option (Exit × Manager) → Option (Exit × Manager)
unfolding set_state plain_state
after_launch cfg attempt (none, m) next =
    some (resumes, record m { planned = false; planned_watcher = false })
after_launch cfg attempt (some e, m) next =
    if leb cfg.max_restarts attempt
    then some (returns, set_state (plain_state failed m.state.restart_count (some e)) m)
    else next

-- `for attempt := 0; ; attempt++`: none is out of fuel.
unfoldable pub restart : ℕ → Config → Bool → (ℕ → Try) → ℕ → Manager → Option (Exit × Manager)
unfolding after_launch start_instance set_state plain_state
restart zero cfg planned tries attempt m = none
restart (suc fuel) cfg planned tries attempt m =
    let r = start_instance cfg restarting (tries attempt).launch m in
    let next = restart fuel cfg planned tries (attempt + 1) r.1 in
    if (not planned || ltb 0 attempt) && (tries attempt).ended
    then some (returns, set_state (plain_state stopped 0 none) m)
    else after_launch cfg attempt r next

-- An attempt to connect again to a process that runs: the process exits or the context ends during
-- the delay, which the first attempt does not have; or the connection and its initialize result.
pub data Reconnect : Type 0 where
  process_exits : Reconnect
  context_ends : Reconnect
  no_connection : Reconnect
  connects : ℕ → ℕ → Reconnect

-- How the loop over the happenings of one process goes on.
pub data Loop : Type 0 where
  continues : Manager → Loop
  breaks : Bool → Manager → Loop
  leaves : Manager → Loop

unfoldable pub reconnected : ℕ → ℕ → Manager → Manager
unfolding publish_state
reconnected ad info m =
    let s : State = record {
      status = ready;
      restart_count = m.state.restart_count;
      started_at = m.state.started_at;
      app_server = some info;
      error = none;
    } in
    publish_state s (record m { current = some ad; state = s })

-- What an attempt comes to; none is the next attempt.
unfoldable pub attempted : Bool → Reconnect → Manager → Option Loop
unfolding reconnected set_state plain_state
attempted delayed process_exits m = if delayed then some (breaks false m) else none
attempted delayed context_ends m =
    if delayed then some (leaves (set_state (plain_state stopped 0 none) m)) else none
attempted delayed no_connection m = none
attempted delayed (connects ad info) m = some (continues (reconnected ad info m))

unfoldable pub or_next : Option Loop → Loop → Loop
or_next none next = next
or_next (some l) next = l

-- `for attempt := 0; attempt <= MaxRestarts; attempt++`, with the number of attempts left
unfoldable pub reconnect : ℕ → (ℕ → Reconnect) → ℕ → Manager → Loop
unfolding or_next attempted
reconnect zero tries attempt m = breaks false m
reconnect (suc left) tries attempt m =
    or_next (attempted (ltb 0 attempt) (tries attempt) m) (reconnect left tries (attempt + 1) m)

-- What the select of the connection loop sees first. The last one is ad.Done, with whether the context
-- is over too.
pub data Happening : Type 0 where
  exited : Option ℕ → Happening
  context_done : Happening
  woken : Happening
  disconnected : Bool → (ℕ → Reconnect) → Happening

-- Error 2 is adapter.ErrDisconnected.
unfoldable pub connection_loop : Config → Happening → Manager → Loop
unfolding set_state plain_state reconnect
connection_loop cfg (exited e) m =
    breaks false (set_state (plain_state restarting m.state.restart_count e) m)
connection_loop cfg context_done m = leaves (set_state (plain_state stopped 0 none) m)
connection_loop cfg woken m =
    breaks true
      (record (set_state (plain_state restarting m.state.restart_count none) m) { wake = false })
connection_loop cfg (disconnected over tries) m =
    if over
    then leaves (set_state (plain_state stopped 0 none) m)
    else (let m' = set_state (record m.state { status = restarting; error = some 2 }) m in
        reconnect (cfg.max_restarts + 1) tries 0 (record m' { current = none }))

unfoldable pub after_loop : Config → (ℕ → Try) → Loop → Option (Exit × Manager)
unfolding restart
after_loop cfg tries (continues m) = some (resumes, m)
after_loop cfg tries (leaves m) = some (returns, m)
after_loop cfg tries (breaks planned m) =
    restart (cfg.max_restarts + 1) cfg planned tries 0 (record m { current = none; cmd = none })

-- One happening of `supervise`, and the restart that it leads to
unfoldable pub round : Config → Happening → (ℕ → Try) → Manager → Option (Exit × Manager)
unfolding after_loop connection_loop
round cfg h tries m = after_loop cfg tries (connection_loop cfg h m)
