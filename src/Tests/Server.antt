-- ===== src/Tests/Server.antt =====
-- A connection at concrete values.
use codex_remote.Prelude.{
  ℕ, suc, ◌≤◌, String, true, false, ◌≡◌, ◌≢◌, inl, inr, refl, none, some, List, [], ◌∷◌, lookup,
  remove, arith, eq_iff,
}
use codex_remote.Errors.{ok}
use codex_remote.Activity.{Event, body}
use codex_remote.Activity.Watch.{Watch, resumed, unspecified}
use codex_remote.Gateway.Server.{
  ServerConfig, slow_consumer, server_hello, ping, idle, sending, hanging_up, returned, Connection,
  Events,
}
use codex_remote.Gateway.Server.Queue.{Wire}
use codex_remote.Gateway.Server.Moves.{
  Move, reads, watches, unwatches, forwards, ticks, takes, writes, hangs_up, answers, leaves,
  clears, happens, run,
}
use codex_remote.Gateway.Server.Frames.{requested}
use codex_remote.Gateway.Server.Writer.{IsConnection}
use codex_remote.Gateway.Server.Running.{run-IsConnection, run-close_written}
use codex_remote.Gateway.Server.Order.{Absent, events_at}
use codex_remote.Gateway.Server.Ledger.{Ledger, activity_events, activity_events-IsSpent}
use codex_remote.Activity.Publish.{publish}
use codex_remote.Persistence.{Db}
use codex_remote.Persistence.Events.Refines.{store as activity_store}
use codex_remote.Tests.Activity.{codec, event_of, view_of, world_with}
use codex_remote.Gateway.Server.Silence.{run-handle_unwatch}
use codex_remote.Gateway.Server.Closing.{run_timeout}

abbrev cfg : ServerConfig
cfg = record {
  max_frame_bytes = 100;
  send_queue_size = 3;
  watch_queue_size = 2;
  heartbeat_interval = 15;
  connection_timeout = 45;
  max_watches = 1;
  host_run_id = "run";
  has_events = true;
}

abbrev given : Watch ℕ ℕ
given = record {
  watcher = 7;
  response = record {
    codex_id = "c1";
    head_event_seq = 4;
    mode = resumed;
    reset_reason = unspecified;
    reset_view = none;
    replay_from_event_seq = 4;
  };
  replay = [];
}

-- An event store that always gives the watch 7 and counts what it was asked to cancel.
abbrev store : Events ℕ ℕ ℕ
store = record {
  watch = λ id after queue s. (ok given, s);
  force_reset = λ id queue s. (ok given, s);
  cancel = λ id w s. suc s;
}

abbrev connected : Connection ℕ ℕ ℕ
connected = record {
  client_id = "client";
  client_run_id = "client-run";
  last_valid = 100;
  watches = ("c1", 3) ∷ [];
  send = ping 1 90 ∷ [];
  control = none;
  close_once = false;
  cancelled = false;
  writer = idle;
  written = server_hello ∷ [];
  close_written = none;
}

abbrev wire : Wire ℕ ℕ ℕ
wire = record { size = λ f. some 10; accepts = true; close_size = λ code. some 20 }

abbrev change : Event ℕ
change = record {
  codex_id = "c1";
  event_seq = 5;
  occurred_at_unix_ms = 120;
  caused_by_request_id = "";
  payload = body 1;
}

abbrev moves : List (Move ℕ ℕ ℕ ℕ ℕ)
moves =
    reads 101 (record { size = 9; is_text = true; frame = some (requested 1) })
    ∷ answers 5
    ∷ forwards "c1" 3 change
    ∷ watches false "r1"
        (record { codex_id = "c1"; after_event_seq = none; after_host_run_id = "" })
    ∷ forwards "c1" 3 change
    ∷ takes false
    ∷ writes wire
    ∷ ticks 200 1
    ∷ takes false
    ∷ writes wire
    ∷ hangs_up
    ∷ leaves
    ∷ clears
    ∷ []

connected-IsConnection : IsConnection cfg connected
connected-IsConnection = record {
  send_bound = omega arith;
  watches_bound = omega arith;
  final = inl refl;
}

run-IsConnection_example : IsConnection cfg (run store cfg moves (connected, 0)).0
run-IsConnection_example = run-IsConnection store cfg moves connected 0 connected-IsConnection

abbrev over : Connection ℕ ℕ ℕ
over = record connected {
  close_once = true;
  writer = hanging_up;
  close_written = some slow_consumer;
}

over-IsConnection : IsConnection cfg over
over-IsConnection = record {
  send_bound = omega arith;
  watches_bound = omega arith;
  final = inr (inl refl);
}

run-close_written_example :
    ((run store cfg moves (over, 0)).0.written ≡ over.written)
    × ((run store cfg moves (over, 0)).0.close_written ≡ some slow_consumer)
run-close_written_example =
    run-close_written store cfg moves over 0 slow_consumer over-IsConnection refl

abbrev watched_id : String
watched_id = "c1"

named : watched_id ≢ ""
named e = ground (arith, e, eq_iff watched_id "")

here : lookup watched_id connected.watches ≡ some 3
unfolding lookup
here = refl

absent : Absent 3 (remove watched_id connected.watches)
unfolding remove
absent = tt

-- The Activity store, that has given out the watch 3.
abbrev given_out : Ledger ℕ ℕ Db
given_out = record { last = 3; given = (3, 1) ∷ []; world = world_with [] }

abbrev events : Events (Ledger ℕ ℕ Db) ℕ ℕ
events = activity_events codec activity_store

abbrev audited : List (Move ℕ ℕ ℕ ℕ (Ledger ℕ ℕ Db))
audited =
    forwards "c1" 3 change
    ∷ watches false "r1"
        (record { codex_id = "c1"; after_event_seq = none; after_host_run_id = "" })
    ∷ forwards "c1" 3 change
    ∷ happens (λ l. record l {
      world = (publish codec activity_store none (some (event_of 7)) (some (view_of 7)) l.world).1;
    })
    ∷ takes false
    ∷ writes wire
    ∷ []

abbrev unwatched_at : Connection ℕ ℕ ℕ
unwatched_at = (run events cfg (unwatches false "r2" watched_id ∷ audited) (connected, given_out)).0

run-handle_unwatch_example : events_at 3 unwatched_at ≤ events_at 3 connected
run-handle_unwatch_example =
    run-handle_unwatch events cfg "r2" watched_id 3 (λ l. 3 ≤ l.last) audited connected given_out
      named here absent (activity_events-IsSpent codec activity_store 3) (omega arith)
      (tt, (tt, (tt, ((λ l h. h), (tt, (tt, tt))))))

abbrev busy : Connection ℕ ℕ ℕ
busy = record connected { writer = sending server_hello }

not_returned : busy.writer ≢ returned
not_returned e = ground (arith, e)

run_timeout_example :
    (run {Q = ℕ} store cfg
      (ticks 150 2 ∷ writes wire ∷ takes false ∷ writes wire ∷ writes wire ∷ hangs_up ∷ [])
      (busy, 0)).0.cancelled
    ≡ true
run_timeout_example =
    run_timeout ℕ store cfg 150 2 wire wire wire busy 0 refl (omega arith) not_returned refl refl
