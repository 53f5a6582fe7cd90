-- ===== src/Tests/Activity.antt =====
-- The event streams over the modelled database: a Codex "a" with messages that are numbers.
use codex_remote.Prelude.{
  ℕ, ◌≡◌, ◌↔◌, refl, true, false, String, Option, none, some, List, [], ◌∷◌, lookup, insert, remove,
  arith,
}
use codex_remote.Errors.{Result, ok, sql_failed}
use codex_remote.Persistence.{Fault, runs, fails, commit_fails, Db}
use codex_remote.Persistence.Events.{load_event_state, commit_event}
use codex_remote.Persistence.Events.Laws.{durable, Commits, commit_event-Commits}
use codex_remote.Persistence.Events.Refines.{store, store-IsEventPersistence}
use codex_remote.Activity.{Event, body, CurrentView, Watcher, Stream, World}
use codex_remote.Activity.Interface.{Codec}
use codex_remote.Activity.Suffix.{IsSuffix}
use codex_remote.Activity.Load.{ensure}
use codex_remote.Activity.Publish.{deliver, publish}
use codex_remote.Activity.Watch.{Watch, resumed, reset, cursor_unavailable, answer, watch}
use codex_remote.Activity.Watch.Resume.{CanResume, answer_resumed, answer_replay}
use codex_remote.Activity.Invariant.World.{IsWorld}
use codex_remote.Activity.History.{Call, publishes, watches, forgets}
use codex_remote.Activity.Delivery.{publish_failed_resets}
use codex_remote.Activity.Delivery.Commit.{Published, publish_ok}

abbrev decode : List ℕ → Option (CurrentView ℕ)
decode (head ∷ content ∷ []) = some (record { head_event_seq = head; content = content })
decode _ = none

abbrev pub codec : Codec ℕ
codec = record {
  marshal = λ v. some (v.head_event_seq ∷ v.content ∷ []);
  unmarshal = decode;
  blank = 0;
}

abbrev db_with : List Fault → Db
db_with faults = record {
  codexes = ("a", record { current_view_json = []; last_activity_at_ms = 0 }) ∷ [];
  event_heads = [];
  request_dedup = [];
  faults = faults;
  now = 5;
}

abbrev pub world_with : List Fault → World ℕ ℕ Db
world_with faults = record {
  capacity = 2;
  codex = [];
  audit_err = none;
  departed = [];
  db = db_with faults;
}

abbrev pub event_of : ℕ → Event ℕ
event_of n = record {
  codex_id = "a";
  event_seq = 0;
  occurred_at_unix_ms = 0;
  caused_by_request_id = "";
  payload = body n;
}

abbrev pub view_of : ℕ → CurrentView ℕ
view_of n = record { head_event_seq = 0; content = n }

abbrev after_events : World ℕ ℕ Db
after_events = (publish codec store none (some (event_of 7)) (some (view_of 7)) (world_with [])).1

first_event_numbered :
    (publish codec store none (some (event_of 7)) (some (view_of 7)) (world_with [])).0
    ≡ ok (record (event_of 7) { event_seq = 1 })
unfolding publish ensure load_event_state commit_event lookup insert
first_event_numbered = refl

abbrev fresh_stream : Stream ℕ ℕ
fresh_stream = record {
  head = 0;
  events = [];
  view = none;
  replay_unsafe = false;
  safe_replay_floor = none;
  needs_reload = false;
  next_watcher = 0;
  watchers = [];
}

-- The world after the Codex "a" was read, with the answers of the driver that are left.
abbrev opened_with : List Fault → World ℕ ℕ Db
opened_with faults = record (world_with faults) { codex = ("a", fresh_stream) ∷ [] }

no_streams : {P V : Type 0} (w : World V P Db) → w.codex ≡ [] → IsWorld durable w
unfolding lookup
no_streams w e id st h = ground (arith, e)

publish_ok_example :
    Published codec durable
      (event_of 7)
      (view_of 7)
      fresh_stream
      (opened_with [])
      (record (event_of 7) { event_seq = 1 })
      after_events
unfolding publish ensure load_event_state commit_event lookup insert
publish_ok_example =
    publish_ok codec store durable store-IsEventPersistence none (event_of 7) (view_of 7)
      fresh_stream (world_with []) (opened_with []) after_events
      (record (event_of 7) { event_seq = 1 }) (no_streams (world_with []) refl) refl refl

-- A Codex with three events, a watcher that has room and one that has none.
abbrev db_at_three : Db
db_at_three = record (db_with []) {
  codexes = ("a", record { current_view_json = 3 ∷ 9 ∷ []; last_activity_at_ms = 0 }) ∷ [];
  event_heads = ("a", 3) ∷ [];
}

abbrev live_watcher : Watcher ℕ
live_watcher = record { id = 1; queue = 4; events = []; events_closed = false; slow_closed = false }

abbrev full_watcher : Watcher ℕ
full_watcher = record live_watcher {
  id = 2;
  queue = 1;
  events = record (event_of 9) { event_seq = 3 } ∷ [];
}

abbrev live_stream : Stream ℕ ℕ
live_stream = record fresh_stream {
  head = 3;
  next_watcher = 2;
  watchers = full_watcher ∷ live_watcher ∷ [];
}

abbrev live_world : World ℕ ℕ Db
live_world = record (world_with []) { codex = ("a", live_stream) ∷ []; db = db_at_three }

abbrev after_live : World ℕ ℕ Db
after_live = (publish codec store none (some (event_of 7)) (some (view_of 7)) live_world).1

live_watcher_handed :
    (publish codec store none (some (event_of 7)) (some (view_of 7)) live_world).1.departed
    ≡ ("a", record full_watcher { slow_closed = true }) ∷ []
unfolding publish ensure load_event_state commit_event lookup insert deliver
live_watcher_handed = refl

abbrev failing : World ℕ ℕ Db
failing = world_with (runs ∷ fails ∷ [])

abbrev after_failure : World ℕ ℕ Db
after_failure = (publish codec store none (some (event_of 7)) (some (view_of 7)) failing).1

abbrev watched : Result (Watch ℕ ℕ) × World ℕ ℕ Db
watched = watch codec store "a" (some 0) 4 after_failure

reset_watch : Watch ℕ ℕ
reset_watch = record {
  watcher = 1;
  response = record {
    codex_id = "a";
    head_event_seq = 0;
    mode = reset;
    reset_reason = cursor_unavailable;
    reset_view = some (record { head_event_seq = 0; content = 0 });
    replay_from_event_seq = 0;
  };
  replay = [];
}

publish_failed_resets_example : (reset_watch.response.mode ≡ reset) × (reset_watch.replay ≡ [])
unfolding publish ensure load_event_state commit_event lookup insert watch reset_watch
publish_failed_resets_example =
    publish_failed_resets codec store none (event_of 7) (view_of 7) fresh_stream failing
      (opened_with (fails ∷ [])) after_failure {e = sql_failed} refl refl refl (some 0) 4
      reset_watch refl

abbrev kept_stream : Stream ℕ ℕ
kept_stream = record fresh_stream {
  head = 3;
  events = record (event_of 8) { event_seq = 2 } ∷ record (event_of 9) { event_seq = 3 } ∷ [];
}

kept_suffix : IsSuffix 2 3 kept_stream.events
kept_suffix = record { numbered = (refl, (refl, tt)); up_to = refl }

answer_resumed_example :
    CanResume codec "a" kept_stream 2 1 ↔ ((answer codec "a" kept_stream (some 1)).0.mode ≡ resumed)
answer_resumed_example = answer_resumed codec "a" kept_stream 2 (omega arith) kept_suffix 1

answer_replay_example :
    ((answer codec "a" kept_stream (some 1)).1 ≡ kept_stream.events)
    × IsSuffix 2 3 (answer codec "a" kept_stream (some 1)).1
    × ((answer codec "a" kept_stream (some 1)).0.head_event_seq ≡ 3)
    × ((answer codec "a" kept_stream (some 1)).0.replay_from_event_seq ≡ 2)
unfolding answer
answer_replay_example = answer_replay codec "a" kept_stream 2 (omega arith) kept_suffix 1 refl

abbrev destroy_rows : String → Db → Result (Unit {0}) × Db
destroy_rows id db =
    (ok tt, record db { codexes = remove id db.codexes; event_heads = remove id db.event_heads })

abbrev history : List (Call ℕ ℕ Db)
history =
    watches "a" none 4 ∷ publishes (some (event_of 7)) (some (view_of 7)) ∷ forgets "a" "r" 9 ∷ []

commit_event-Commits_example :
    Commits
      (db_with [])
      "a"
      (λ seq. ok (seq ∷ []))
      (commit_event "a" (λ seq. ok (seq ∷ [])) (db_with []))
commit_event-Commits_example = commit_event-Commits (db_with []) "a" (λ seq. ok (seq ∷ []))
