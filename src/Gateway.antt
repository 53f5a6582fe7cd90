-- ===== src/Gateway.antt =====
-- internal/gateway/dispatcher.go: the requests and responses of the protocol, the Backend, and the
-- Dispatcher. The messages inside a request and a response are generated code: the type parameters
-- `B` and `R`; `S` is the state of the backend.
pub mod Kinds
pub mod Call
pub mod Dispatch
pub mod Once
pub mod History
pub mod Replay
pub mod Server
use codex_remote.Prelude.{ℕ, ℤ, String, Bool, Option, List}
use codex_remote.Errors.{Error}
use codex_remote.Persistence.{Db}

-- The members of the oneof `request`.
pub data Kind : Type 0 where
  get_host list_directories list_session_candidates list_codexes : Kind
  create_codex import_session watch_codex unwatch_codex : Kind
  list_history start_turn interrupt_turn respond_approval : Kind
  respond_user_input unmanage_codex rename_codex forget_codex : Kind
  get_workspace list_workspace_entries read_workspace_text_file write_workspace_text_file : Kind
  upload_workspace_entry download_workspace_entry upload_image_attachment
        download_image_attachment :
      Kind

pub record Request (B : Type 0) : Type 0 where
  pub request_id : String
  pub sent_at_unix_ms : ℤ
  pub deadline_unix_ms : ℤ
  pub payload : Option (Kind × B)

pub data ErrorCode : Type 0 where
  invalid_request host_not_ready conflict internal_error deadline_exceeded : ErrorCode
  -- any other code, by its number
  other_code : ℕ → ErrorCode

pub record Detail : Type 0 where
  pub error_code : ErrorCode
  pub message : String
  pub retryable : Bool

-- A response message; the flag has a meaning for the messages that have the field.
pub record Reply (R : Type 0) : Type 0 where
  pub content : R
  pub deduplicated : Bool

pub data Answer (R : Type 0) : Type 0 where
  reply : Kind → Reply R → Answer R
  failure : Detail → Answer R

pub record Response (R : Type 0) : Type 0 where
  pub request_id : String
  pub responded_at_unix_ms : ℕ
  pub result : Answer R

-- What the dispatcher asks of an error of the backend: errors.Is(err, context.DeadlineExceeded), the
-- same of ctx.Err() after the call, the Detail of an RPCError in its chain, and its text.
pub record CallError : Type 0 where
  pub is_deadline : Bool
  pub ctx_expired : Bool
  pub rpc_detail : Option Detail
  pub text : String

pub data Outcome (R : Type 0) : Type 0 where
  value : Reply R → Outcome R
  raised : CallError → Outcome R

-- A method of the backend: the request id of the context, the message and the state.
abbrev pub Method : Type 0 → Type 0 → Type 0 → Type 0
Method B R S = String → B → S → Outcome R × S

pub record Backend (B R S : Type 0) : Type 0 where
  pub call_get_host : Method B R S
  pub call_list_directories : Method B R S
  pub call_list_session_candidates : Method B R S
  pub call_list_codexes : Method B R S
  pub call_create_codex : Method B R S
  pub call_import_session : Method B R S
  pub call_list_history : Method B R S
  pub call_start_turn : Method B R S
  pub call_interrupt_turn : Method B R S
  pub call_respond_approval : Method B R S
  pub call_respond_user_input : Method B R S
  pub call_unmanage_codex : Method B R S
  pub call_rename_codex : Method B R S
  pub call_forget_codex : Method B R S
  pub call_get_workspace : Method B R S
  pub call_list_workspace_entries : Method B R S
  pub call_read_workspace_text_file : Method B R S
  pub call_write_workspace_text_file : Method B R S
  pub call_upload_workspace_entry : Method B R S
  pub call_download_workspace_entry : Method B R S
  pub call_upload_image_attachment : Method B R S
  pub call_download_image_attachment : Method B R S

-- The database, the state of the backend, and the calls it got, the latest first.
pub record World (S : Type 0) : Type 0 where
  pub db : Db
  pub backend : S
  pub calls : List (String × Kind)

-- The Dispatcher, with the libraries it calls: deterministic proto marshalling, SHA-256, protojson
-- for a Response, and the text of an error of the store.
pub record Dispatcher (B R S : Type 0) : Type 0 where
  pub backend : Option (Backend B R S)
  pub has_dedup : Bool
  pub marshal_request : Request B → Option (List ℕ)
  pub sum256 : List ℕ → List ℕ
  pub marshal : Response R → Option (List ℕ)
  pub unmarshal : List ℕ → Option (Response R)
  pub store_error_text : Error → String
