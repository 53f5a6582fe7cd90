-- ===== src/Workspace/Files/Staging.antt =====
-- internal/workspace/service.go: `stageTarget`, `rollback`, `discard`, `rollbackMutation` and
-- `atomicFile`.
use codex_remote.Prelude.{String, true, false, Option, none, some, if◌then◌else◌}
use codex_remote.Workspace.Files.{
  Failure, system, joined, Looked, found, absent, unreadable, Done, Got, got, failed, Os, Backup,
}

module _ {D N C : Type 0} (os : Os D N C) where
  unfoldable pub moved : Backup → Done D → Got Backup × D
  moved b (none, d) = (got (record b { existed = true }), d)
  moved b (some f, d) = (failed f, d)

  unfoldable pub staged : Backup → Looked N → D → Got Backup × D
  unfolding moved
  staged b (found n) d = moved b (os.rename b.target b.backup d)
  staged b absent d = (got b, d)
  staged b (unreadable x) d = (failed (system x), d)

  -- `name` is ".codex-remote-rollback-" with a new token.
  unfoldable pub stage_target : String → String → D → Got Backup × D
  unfolding staged
  stage_target name target d =
      let b : Backup = record { target = target; backup = name; existed = false } in
      staged b (os.lstat target d) d

  unfoldable pub restored : Backup → Done D → Done D
  restored b (some f, d) = (some f, d)
  restored b (none, d) = if b.existed then os.rename b.backup b.target d else (none, d)

  unfoldable pub rollback : Backup → D → Done D
  unfolding restored
  rollback b d = restored b (os.remove_all b.target d)

  unfoldable pub discard : Backup → D → D
  discard b d = if b.existed then (os.remove_all b.backup d).1 else d

  unfoldable pub with_cause : Failure → Done D → Failure × D
  with_cause cause (none, d) = (cause, d)
  with_cause cause (some f, d) = (joined cause f, d)

  unfoldable pub rollback_mutation : Backup → Failure → D → Failure × D
  unfolding rollback with_cause
  rollback_mutation b cause d = with_cause cause (rollback b d)

  -- `if err == nil { err = op }`
  unfoldable pub and_then : Done D → (D → Done D) → Done D
  and_then (none, d) op = op d
  and_then (some f, d) op = (some f, d)

  unfoldable pub first_of : Option Failure → Option Failure → Option Failure
  first_of none later = later
  first_of (some f) later = some f

  -- The file is closed whether or not it could be written.
  unfoldable pub closed : String → Done D → Done D
  unfolding first_of
  closed name (f, d) = let c = os.close name d in (first_of f c.0, c.1)

  unfoldable pub fill : String → C → D → Done D
  unfolding and_then closed
  fill name content d =
      closed name (and_then (and_then (os.chmod name d) (os.write name content)) (os.sync name))

  unfoldable pub atomic_with : String → C → Got String × D → Done D
  unfolding fill and_then
  atomic_with target content (failed f, d) = (some f, d)
  atomic_with target content (got name, d) =
      let r = and_then (fill name content d) (os.rename name target) in
      (r.0, (os.remove_all name r.1).1)

  unfoldable pub atomic_file : String → C → D → Done D
  unfolding atomic_with
  atomic_file target content d = atomic_with target content (os.create_temp d)
