-- ===== src/Workspace/Reads.antt =====
-- internal/workspace/service.go: `ReadText` from its first look at the file, and the page of `List`.
use codex_remote.Prelude.{
  ℕ, ◌+◌, ◌-◌, min, Bool, false, not, ◌&&◌, Option, none, some, List, [], ◌∷◌, length, take, drop,
  if◌then◌else◌, ltb, ◌==◌,
}
use codex_remote.Workspace.Files.{
  conflict, entry_not_found, type_unsupported, invalid_request, text_too_large, text_not_utf8,
  system, Got, got, failed,
}

-- What os.Stat answers of the file; `identity` is what os.SameFile compares.
pub record Stat : Type 0 where
  pub is_regular : Bool
  pub size : ℕ
  pub identity : ℕ
  pub modified_at : ℕ

pub data StatAnswer : Type 0 where
  stat : Stat → StatAnswer
  missing : StatAnswer
  stat_failed : ℕ → StatAnswer

-- What one attempt sees: the file before, its content, and the file after.
pub record Look (C : Type 0) : Type 0 where
  pub before : StatAnswer
  pub content : Got C
  pub after : StatAnswer

unfoldable pub same_file : Stat → StatAnswer → Bool
same_file s (stat t) =
    (s.identity == t.identity) && (s.size == t.size) && (s.modified_at == t.modified_at)
same_file s missing = false
same_file s (stat_failed e) = false

module _ {C : Type 0} (utf8 : C → Bool) (limit : ℕ) where
  stable : Stat → Got C → StatAnswer → Option (Got C)
  unfolding same_file
  stable s (failed f) after = some (failed f)
  stable s (got content) after =
      if same_file s after
      then some (if utf8 content then got content else failed text_not_utf8)
      else none

  checked : StatAnswer → Look C → Option (Got C)
  unfolding stable
  checked missing look = some (failed entry_not_found)
  checked (stat_failed e) look = some (failed (system e))
  checked (stat s) look =
      if not s.is_regular
      then some (failed type_unsupported)
      else if ltb limit s.size
      then some (failed text_too_large)
      else stable s look.content look.after

  -- One attempt; none is to try again.
  unfoldable pub attempt_read : Look C → Option (Got C)
  unfolding checked
  attempt_read look = checked look.before look

  or_again : Option (Got C) → Got C → Got C
  or_again none again = again
  or_again (some r) again = r

  -- The two attempts
  unfoldable pub read_text : Look C → Look C → Got C
  unfolding or_again attempt_read
  read_text first second =
      or_again (attempt_read first) (or_again (attempt_read second) (failed conflict))

module _ {E : Type 0} where
  appended : Got (List E) → Got E → Got (List E)
  appended (failed f) e = failed f
  appended (got es) (failed f) = failed f
  appended (got es) (got e) = got (e ∷ es)

  -- The entries of a page, of which the first failure ends the listing; a context that is over is a
  -- failure of the next entry.
  unfoldable pub describe_all : List (Got E) → Got (List E)
  unfolding appended
  describe_all [] = got []
  describe_all (failed f ∷ items) = failed f
  describe_all (got e ∷ items) = let rest = describe_all items in appended rest (got e)

  -- The page of `List`, whose offset and size are not negative, and the number of all entries
  unfoldable pub list_page : ℕ → ℕ → List (Got E) → Got (List E) × ℕ
  unfolding describe_all
  list_page start size dir =
      let total = length dir in
      if ltb total start
      then (failed invalid_request, total)
      else (describe_all (take (min (start + size) total - start) (drop start dir)), total)
