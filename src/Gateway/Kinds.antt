-- ===== src/Gateway/Kinds.antt =====
-- internal/gateway/dispatcher.go: `operation` and `markDeduplicated`, which must agree on the
-- requests that have side effects.
use codex_remote.Prelude.{
  ◌≢◌, arith, eq_iff, String, Bool, true, false, ◌≡◌, refl, ap, if◌then◌else◌,
}
use codex_remote.Gateway.{
  Kind, get_host, list_directories, list_session_candidates, list_codexes, create_codex,
  import_session, watch_codex, unwatch_codex, list_history, start_turn, interrupt_turn,
  respond_approval, respond_user_input, unmanage_codex, rename_codex, forget_codex, get_workspace,
  list_workspace_entries, read_workspace_text_file, write_workspace_text_file,
  upload_workspace_entry, download_workspace_entry, upload_image_attachment,
  download_image_attachment, Reply, Answer, reply, failure, Response,
}

unfoldable pub operation : Kind → String × Bool
operation get_host = ("get_host", false)
operation list_directories = ("list_directories", false)
operation list_session_candidates = ("list_session_candidates", false)
operation list_codexes = ("list_codexes", false)
operation create_codex = ("create_codex", true)
operation import_session = ("import_session", true)
operation watch_codex = ("watch_codex", false)
operation unwatch_codex = ("unwatch_codex", false)
operation list_history = ("list_history", false)
operation start_turn = ("start_turn", true)
operation interrupt_turn = ("interrupt_turn", true)
operation respond_approval = ("respond_approval", true)
operation respond_user_input = ("respond_user_input", true)
operation unmanage_codex = ("unmanage_codex", true)
operation rename_codex = ("rename_codex", true)
operation forget_codex = ("forget_codex", true)
operation get_workspace = ("get_workspace", false)
operation list_workspace_entries = ("list_workspace_entries", false)
operation read_workspace_text_file = ("read_workspace_text_file", false)
operation write_workspace_text_file = ("write_workspace_text_file", true)
operation upload_workspace_entry = ("upload_workspace_entry", true)
operation download_workspace_entry = ("download_workspace_entry", false)
operation upload_image_attachment = ("upload_image_attachment", true)
operation download_image_attachment = ("download_image_attachment", false)

module _ {R : Type 0} where
  set_deduplicated : Reply R → Reply R
  set_deduplicated r = record r { deduplicated = true }

  marked_answer : Answer R → Answer R
  unfolding set_deduplicated
  marked_answer (reply create_codex r) = reply create_codex (set_deduplicated r)
  marked_answer (reply import_session r) = reply import_session (set_deduplicated r)
  marked_answer (reply start_turn r) = reply start_turn (set_deduplicated r)
  marked_answer (reply interrupt_turn r) = reply interrupt_turn (set_deduplicated r)
  marked_answer (reply respond_approval r) = reply respond_approval (set_deduplicated r)
  marked_answer (reply respond_user_input r) = reply respond_user_input (set_deduplicated r)
  marked_answer (reply unmanage_codex r) = reply unmanage_codex (set_deduplicated r)
  marked_answer (reply rename_codex r) = reply rename_codex (set_deduplicated r)
  marked_answer (reply forget_codex r) = reply forget_codex (set_deduplicated r)
  marked_answer (reply upload_image_attachment r) =
      reply upload_image_attachment (set_deduplicated r)
  marked_answer (reply write_workspace_text_file r) =
      reply write_workspace_text_file (set_deduplicated r)
  marked_answer (reply upload_workspace_entry r) = reply upload_workspace_entry (set_deduplicated r)
  marked_answer (reply k r) = reply k r
  marked_answer (failure d) = failure d

  unfoldable pub mark_deduplicated : Response R → Response R
  unfolding marked_answer
  mark_deduplicated resp = record resp { result = marked_answer resp.result }

  -- An answer of an operation with side effects is flagged, and no other one.
  unfoldable pub flagged : Answer R → Answer R
  unfolding operation
  flagged (reply k r) = reply k (if (operation k).1 then record r { deduplicated = true } else r)
  flagged (failure d) = failure d

  marked_answer-flagged : (a : Answer R) → marked_answer a ≡ flagged a
  unfolding marked_answer flagged operation set_deduplicated
  marked_answer-flagged (reply get_host r) = refl
  marked_answer-flagged (reply list_directories r) = refl
  marked_answer-flagged (reply list_session_candidates r) = refl
  marked_answer-flagged (reply list_codexes r) = refl
  marked_answer-flagged (reply create_codex r) = refl
  marked_answer-flagged (reply import_session r) = refl
  marked_answer-flagged (reply watch_codex r) = refl
  marked_answer-flagged (reply unwatch_codex r) = refl
  marked_answer-flagged (reply list_history r) = refl
  marked_answer-flagged (reply start_turn r) = refl
  marked_answer-flagged (reply interrupt_turn r) = refl
  marked_answer-flagged (reply respond_approval r) = refl
  marked_answer-flagged (reply respond_user_input r) = refl
  marked_answer-flagged (reply unmanage_codex r) = refl
  marked_answer-flagged (reply rename_codex r) = refl
  marked_answer-flagged (reply forget_codex r) = refl
  marked_answer-flagged (reply get_workspace r) = refl
  marked_answer-flagged (reply list_workspace_entries r) = refl
  marked_answer-flagged (reply read_workspace_text_file r) = refl
  marked_answer-flagged (reply write_workspace_text_file r) = refl
  marked_answer-flagged (reply upload_workspace_entry r) = refl
  marked_answer-flagged (reply download_workspace_entry r) = refl
  marked_answer-flagged (reply upload_image_attachment r) = refl
  marked_answer-flagged (reply download_image_attachment r) = refl
  marked_answer-flagged (failure d) = refl

  -- A replayed response is the stored one with the answer of an operation with side effects
  -- flagged as deduplicated: the two lists of operations in the code agree, a failure and every
  -- other answer are as stored, and so is the rest of the response.
  pub mark_deduplicated-flagged :
      (resp : Response R) → mark_deduplicated resp ≡ record resp { result = flagged resp.result }
  unfolding mark_deduplicated
  mark_deduplicated-flagged resp =
      ap (λ (a : Answer R). record resp { result = a }) (marked_answer-flagged resp.result)

-- Every operation has a name.
pub operation-named : (k : Kind) → (operation k).0 ≢ ""
unfolding operation
operation-named get_host = λ e. ground (arith, e, eq_iff "get_host" "")
operation-named list_directories = λ e. ground (arith, e, eq_iff "list_directories" "")
operation-named list_session_candidates =
    λ e. ground (arith, e, eq_iff "list_session_candidates" "")
operation-named list_codexes = λ e. ground (arith, e, eq_iff "list_codexes" "")
operation-named create_codex = λ e. ground (arith, e, eq_iff "create_codex" "")
operation-named import_session = λ e. ground (arith, e, eq_iff "import_session" "")
operation-named watch_codex = λ e. ground (arith, e, eq_iff "watch_codex" "")
operation-named unwatch_codex = λ e. ground (arith, e, eq_iff "unwatch_codex" "")
operation-named list_history = λ e. ground (arith, e, eq_iff "list_history" "")
operation-named start_turn = λ e. ground (arith, e, eq_iff "start_turn" "")
operation-named interrupt_turn = λ e. ground (arith, e, eq_iff "interrupt_turn" "")
operation-named respond_approval = λ e. ground (arith, e, eq_iff "respond_approval" "")
operation-named respond_user_input = λ e. ground (arith, e, eq_iff "respond_user_input" "")
operation-named unmanage_codex = λ e. ground (arith, e, eq_iff "unmanage_codex" "")
operation-named rename_codex = λ e. ground (arith, e, eq_iff "rename_codex" "")
operation-named forget_codex = λ e. ground (arith, e, eq_iff "forget_codex" "")
operation-named get_workspace = λ e. ground (arith, e, eq_iff "get_workspace" "")
operation-named list_workspace_entries = λ e. ground (arith, e, eq_iff "list_workspace_entries" "")
operation-named read_workspace_text_file =
    λ e. ground (arith, e, eq_iff "read_workspace_text_file" "")
operation-named write_workspace_text_file =
    λ e. ground (arith, e, eq_iff "write_workspace_text_file" "")
operation-named upload_workspace_entry = λ e. ground (arith, e, eq_iff "upload_workspace_entry" "")
operation-named download_workspace_entry =
    λ e. ground (arith, e, eq_iff "download_workspace_entry" "")
operation-named upload_image_attachment =
    λ e. ground (arith, e, eq_iff "upload_image_attachment" "")
operation-named download_image_attachment =
    λ e. ground (arith, e, eq_iff "download_image_attachment" "")
