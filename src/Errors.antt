-- ===== src/Errors.antt =====
-- The error values that the modelled packages tell apart, and results that carry one.

-- `invalid_argument` and `current_view_unavailable` are plain `errors.New` values of
-- internal/activity/store.go and internal/persistence/store.go; `no_rows` is sql.ErrNoRows;
-- `sql_failed` is any other error of the database driver; `encoding` is an error of protojson.
pub data Error : Type 0 where
  invalid_argument : Error
  no_rows : Error
  sql_failed : Error
  encoding : Error
  request_conflict : Error
  request_in_progress : Error
  not_in_progress : Error
  commit_outcome_unknown : Error
  codex_not_found : Error
  current_view_unavailable : Error
  connection_scoped : Error
  codex_busy : Error
  workspace_busy : Error
  context_done : Error

pub data Result {ℓ} (A : Type ℓ) : Type ℓ where
  ok : A → Result A
  err : Error → Result A
