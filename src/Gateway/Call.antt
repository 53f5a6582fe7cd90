-- ===== src/Gateway/Call.antt =====
-- internal/gateway/dispatcher.go: `call`, which hands a request to its method of the backend, and
-- `errorResponse`.
use codex_remote.Prelude.{
  ℕ, String, Bool, true, false, ◌||◌, Option, none, some, ◌∷◌, if◌then◌else◌,
}
use codex_remote.Gateway.{
  Kind, get_host, list_directories, list_session_candidates, list_codexes, create_codex,
  import_session, watch_codex, unwatch_codex, list_history, start_turn, interrupt_turn,
  respond_approval, respond_user_input, unmanage_codex, rename_codex, forget_codex, get_workspace,
  list_workspace_entries, read_workspace_text_file, write_workspace_text_file,
  upload_workspace_entry, download_workspace_entry, upload_image_attachment,
  download_image_attachment, Request, ErrorCode, invalid_request, internal_error, deadline_exceeded,
  Detail, Answer, reply, failure, Response, Outcome, value, raised, Method, Backend, World,
}

unfoldable pub error_response : {R : Type 0} → ℕ → String → ErrorCode → String → Bool → Response R
error_response now id code text retry = record {
  request_id = id;
  responded_at_unix_ms = now;
  result = failure (record { error_code = code; message = text; retryable = retry });
}

-- The switch of `call`; `none` is its default.
unfoldable pub method : {B R S : Type 0} → Backend B R S → Kind → Option (Method B R S)
method be get_host = some be.call_get_host
method be list_directories = some be.call_list_directories
method be list_session_candidates = some be.call_list_session_candidates
method be list_codexes = some be.call_list_codexes
method be create_codex = some be.call_create_codex
method be import_session = some be.call_import_session
method be list_history = some be.call_list_history
method be start_turn = some be.call_start_turn
method be interrupt_turn = some be.call_interrupt_turn
method be respond_approval = some be.call_respond_approval
method be respond_user_input = some be.call_respond_user_input
method be unmanage_codex = some be.call_unmanage_codex
method be rename_codex = some be.call_rename_codex
method be forget_codex = some be.call_forget_codex
method be get_workspace = some be.call_get_workspace
method be list_workspace_entries = some be.call_list_workspace_entries
method be read_workspace_text_file = some be.call_read_workspace_text_file
method be write_workspace_text_file = some be.call_write_workspace_text_file
method be upload_workspace_entry = some be.call_upload_workspace_entry
method be download_workspace_entry = some be.call_download_workspace_entry
method be upload_image_attachment = some be.call_upload_image_attachment
method be download_image_attachment = some be.call_download_image_attachment
method be watch_codex = none
method be unwatch_codex = none

rpc_detail_or : String → Option Detail → Detail
rpc_detail_or text none = record { error_code = internal_error; message = text; retryable = true }
rpc_detail_or text (some detail) = detail

module _ {R : Type 0} where
  answer_of : Kind → Outcome R → Answer R
  unfolding rpc_detail_or
  answer_of k (value v) = reply k v
  answer_of k (raised e) = failure (
      if e.is_deadline || e.ctx_expired
      then record {
        error_code = deadline_exceeded;
        message = "request deadline has elapsed";
        retryable = true;
      }
      else rpc_detail_or e.text e.rpc_detail)

module _ {B R S : Type 0} where
  unfoldable pub call_with :
      Option (Method B R S) → Request B → Kind → B → World S → Response R × World S
  unfolding error_response answer_of
  call_with none req k b w =
      (error_response w.db.now req.request_id invalid_request "unsupported request" false, w)
  call_with (some m) req k b w =
      let (o, s) = m req.request_id b w.backend in
      (
        record {
          request_id = req.request_id;
          responded_at_unix_ms = w.db.now;
          result = answer_of k o;
        },
        record w { backend = s; calls = (req.request_id, k) ∷ w.calls },
      )

  unfoldable pub call : Backend B R S → Request B → Kind → B → World S → Response R × World S
  unfolding call_with method
  call be req k b w = call_with (method be k) req k b w
