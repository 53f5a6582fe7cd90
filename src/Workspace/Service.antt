-- ===== src/Workspace/Service.antt =====
-- internal/workspace/service.go: `New`, `Register`, `Unregister`, `State`, `rootForAccess` and the page of
-- `List`.
use codex_remote.Prelude.{
  ℕ, ◌*◌, ◌^◌, ◌≤◌, String, false, ◌≡◌, refl, Option, none, some, List, lookup, insert, remove,
  lookup-insert_self, subst, sym, ap, if◌then◌else◌, ◌==◌, arith,
}
use codex_remote.Errors.{Result, ok, err, codex_not_found}
use codex_remote.Workspace.{AccessState, Entry}
use codex_remote.Workspace.Access.{
  registered_state, idle_state, new_entry, register_again, unregister,
}

pub record Config : Type 0 where
  pub max_text_file_bytes : ℕ
  pub max_inline_upload_bytes : ℕ
  pub max_inline_download_bytes : ℕ
  pub max_archive_expanded_bytes : ℕ
  pub max_archive_entry_count : ℕ

or_default : ℕ → ℕ → ℕ
or_default given n = if n == 0 then given else n

-- `New`
unfoldable pub with_defaults : Config → Config
unfolding or_default
with_defaults c = record {
  max_text_file_bytes = or_default (2 ^ 20) c.max_text_file_bytes;
  max_inline_upload_bytes = or_default (2 * 2 ^ 20) c.max_inline_upload_bytes;
  max_inline_download_bytes = or_default (2 * 2 ^ 20) c.max_inline_download_bytes;
  max_archive_expanded_bytes = or_default (32 * 2 ^ 20) c.max_archive_expanded_bytes;
  max_archive_entry_count = or_default 1000 c.max_archive_entry_count;
}

abbrev pub States : Type 0
States = List (String × Entry)

registered : String → String → AccessState → Option Entry → Entry
registered resolved display s none = new_entry resolved display s
registered resolved display s (some e) = register_again resolved display s e

-- `Register`, with the root that `registerRoot` found, a new token and the time.
unfoldable pub register_workspace :
    String → String → String → Option AccessState → String → ℕ → States → AccessState × States
unfolding registered
register_workspace id resolved display persisted token now states =
    let e = registered resolved display (registered_state persisted token now) (lookup id states) in
    (e.state, insert id e states)

known_entry : Option Entry → Result Entry
known_entry none = err codex_not_found
known_entry (some e) = ok e

unfoldable pub known : String → States → Result Entry
unfolding known_entry
known id states = known_entry (lookup id states)

resolve_root : Result String → Entry → Result String × Entry
resolve_root (ok resolved) e = (ok resolved, record e { root = resolved })
resolve_root (err x) e = (err x, e)

-- `rootForAccess`; `canonical` is `canonicalRoot`, which asks the file system.
unfoldable pub root_for_access : (String → Result String) → Entry → Result String × Entry
unfolding resolve_root
root_for_access canonical e =
    if e.removed then (err codex_not_found, e) else resolve_root (canonical e.root) e

seen_state : Result String × Entry → Result (AccessState × String) × Entry
seen_state (ok resolved, e) = (ok (e.state, e.display_root), e)
seen_state (err x, e) = (err x, e)

state_with :
    (String → Result String)
    → String
    → States
    → Result Entry
    → Result (AccessState × String) × States
unfolding seen_state root_for_access
state_with canonical id states (err x) = (err x, states)
state_with canonical id states (ok e) =
    let r = seen_state (root_for_access canonical e) in (r.0, insert id r.1 states)

-- `State`
unfoldable pub state :
    (String → Result String) → String → States → Result (AccessState × String) × States
unfolding state_with known
state canonical id states = state_with canonical id states (known id states)

dropped : Option Entry → Option Entry
dropped none = none
dropped (some e) = some (unregister e)

-- `Unregister`: the states, and the object that an operation in flight still has.
unfoldable pub unregister_workspace : String → States → Option Entry × States
unfolding dropped
unregister_workspace id states = (dropped (lookup id states), remove id states)

registered-generation :
    (resolved display : String) (s : AccessState) (e : Entry)
    → (e.state.generation ≤ (registered resolved display s (some e)).state.generation)
      × (s.generation ≤ (registered resolved display s (some e)).state.generation)
      × ((registered resolved display s (some e)).removed ≡ false)
unfolding registered register_again
registered-generation resolved display s e = ground arith

registered_state-generation :
    (p : AccessState) (token : String) (now : ℕ)
    → p.generation ≤ (registered_state (some p) token now).generation
unfolding registered_state idle_state
registered_state-generation p token now = ground arith

pub record Again (id : String) (p : AccessState) (e : Entry) (r : AccessState × States)
    : Type 0 where
  pub entry : Entry
  pub here : known id r.1 ≡ ok entry
  pub there : entry.removed ≡ false
  pub answered : entry.state ≡ r.0
  pub memory : e.state.generation ≤ entry.state.generation
  pub persisted : p.generation ≤ entry.state.generation

-- A workspace that is there is registered again with a persisted state: it is found and not removed,
-- its state is the one answered, and its generation is neither before the one it had in memory nor
-- before the persisted one.
pub register_workspace-generation :
    (id resolved display : String) (p : AccessState) (token : String) (now : ℕ) (states : States)
    (e : Entry)
    → lookup id states ≡ some e
    → Again id p e (register_workspace id resolved display (some p) token now states)
unfolding register_workspace known known_entry
register_workspace-generation id resolved display p token now states e h =
    let s = registered_state (some p) token now in
    let g = registered-generation resolved display s e in
    let e' = registered resolved display s (some e) in
    subst
      (λ (o : Option Entry). Again id p e (
        (registered resolved display s o).state,
        insert id (registered resolved display s o) states,
      ))
      (sym h)
      (record {
        entry = e';
        here = ap known_entry (lookup-insert_self id e' states);
        there = g.2;
        answered = refl;
        memory = g.0;
        persisted = omega (arith, g.1, registered_state-generation p token now);
      })
