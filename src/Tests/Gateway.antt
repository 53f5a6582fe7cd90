-- ===== src/Tests/Gateway.antt =====
-- The dispatcher over a backend that counts its calls and answers with the message it got.
use codex_remote.Prelude.{
  arith, eq_iff, ℕ, suc, pos, ◌≤◌, ◌≡◌, refl, true, false, Option, none, some, List, [], ◌∷◌,
  lookup, insert,
}
use codex_remote.Persistence.Dedup.{is_empty, begin_request, complete_request}
use codex_remote.Gateway.{
  Kind, start_turn, get_host, Request, reply, Response, value, Method, Backend, World, Dispatcher,
}
use codex_remote.Gateway.Kinds.{operation, flagged, mark_deduplicated, mark_deduplicated-flagged}
use codex_remote.Gateway.Call.{call}
use codex_remote.Gateway.Dispatch.{dispatch, validate_request, fingerprint_of}
use codex_remote.Gateway.Once.{executions, present}
use codex_remote.Errors.{ok}
use codex_remote.Persistence.{next_fault, later_faults}
use codex_remote.Gateway.Replay.{dispatch_replay}
use codex_remote.Gateway.History.{run, run_at_most_once}

abbrev echo : Method ℕ ℕ ℕ
echo id b s = (value (record { content = b; deduplicated = false }), suc s)

abbrev backend : Backend ℕ ℕ ℕ
backend = record {
  call_get_host = echo;
  call_list_directories = echo;
  call_list_session_candidates = echo;
  call_list_codexes = echo;
  call_create_codex = echo;
  call_import_session = echo;
  call_list_history = echo;
  call_start_turn = echo;
  call_interrupt_turn = echo;
  call_respond_approval = echo;
  call_respond_user_input = echo;
  call_unmanage_codex = echo;
  call_rename_codex = echo;
  call_forget_codex = echo;
  call_get_workspace = echo;
  call_list_workspace_entries = echo;
  call_read_workspace_text_file = echo;
  call_write_workspace_text_file = echo;
  call_upload_workspace_entry = echo;
  call_download_workspace_entry = echo;
  call_upload_image_attachment = echo;
  call_download_image_attachment = echo;
}

abbrev echoed : List ℕ → Option (Response ℕ)
echoed (n ∷ []) = some (record {
  request_id = "r";
  responded_at_unix_ms = 1;
  result = reply start_turn (record { content = n; deduplicated = false });
})
echoed _ = none

abbrev encoded_answer : Response ℕ → Option (List ℕ)
encoded_answer r = elim r.result [ reply k v ↦ some (v.content ∷ []) | _ ↦ none ]

abbrev payload_bytes : Option (Kind × ℕ) → Option (List ℕ)
payload_bytes none = none
payload_bytes (some (k, n)) = some (n ∷ [])

abbrev dispatcher : Dispatcher ℕ ℕ ℕ
dispatcher = record {
  backend = some backend;
  has_dedup = true;
  marshal_request = λ r. payload_bytes r.payload;
  sum256 = λ bytes. 0 ∷ bytes;
  marshal = encoded_answer;
  unmarshal = echoed;
  store_error_text = λ e. "store failed";
}

abbrev world : World ℕ
world = record {
  db = record { codexes = []; event_heads = []; request_dedup = []; faults = []; now = 1 };
  backend = 0;
  calls = [];
}

abbrev request : Kind → ℕ → Request ℕ
request k n = record {
  request_id = "r";
  sent_at_unix_ms = pos 0;
  deadline_unix_ms = pos 0;
  payload = some (k, n);
}

abbrev repeated : List (ℕ × Option (Request ℕ))
repeated =
    (1, some (request start_turn 7))
    ∷ (2, some (request start_turn 7))
    ∷ (3, some (request get_host 7))
    ∷ (4, some (request start_turn 8))
    ∷ []

-- The turn is started once; the reading request goes through.
two_calls : (run dispatcher repeated world).backend ≡ 2
unfolding run dispatch begin_request complete_request operation lookup call insert
two_calls = refl

run_at_most_once_example :
    (executions "r" (run dispatcher repeated world).calls ≤ 1)
    × (executions "r" (run dispatcher repeated world).calls
        ≤ present (lookup "r" (run dispatcher repeated world).db.request_dedup))
run_at_most_once_example = run_at_most_once dispatcher repeated world "r" refl

abbrev turn_response : Response ℕ
turn_response = record {
  request_id = "r";
  responded_at_unix_ms = 1;
  result = reply start_turn (record { content = 7; deduplicated = false });
}

mark_deduplicated-flagged_example : mark_deduplicated turn_response ≡ record turn_response {
  result = reply start_turn (record { content = 7; deduplicated = true });
}
unfolding flagged operation
mark_deduplicated-flagged_example = mark_deduplicated-flagged turn_response

abbrev after_turn : World ℕ
after_turn = (dispatch dispatcher (some (request start_turn 7)) world).1

abbrev later : World ℕ
later = run dispatcher ((3, some (request get_host 7)) ∷ []) after_turn

dispatch_replay_example : dispatch dispatcher (some (request start_turn 7)) later ≡ (
  ok (mark_deduplicated turn_response),
  record later { db = record later.db { faults = later_faults later.db.faults } },
)
unfolding run dispatch begin_request complete_request operation lookup call insert validate_request
    fingerprint_of next_fault later_faults is_empty
dispatch_replay_example =
    dispatch_replay dispatcher backend (request start_turn 7) (request start_turn 7) start_turn 7 7
      (0 ∷ 7 ∷ []) world turn_response ((3, some (request get_host 7)) ∷ []) refl refl refl
      (λ e. ground (arith, e, eq_iff "r" "")) refl refl refl refl refl refl refl refl refl
      (λ e. ground (arith, e)) (λ raw m. ground (arith, m))
