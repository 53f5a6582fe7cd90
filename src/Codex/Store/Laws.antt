-- ===== src/Codex/Store/Laws.antt =====
-- internal/codex/manager.go: what the calls of the stores leave in memory, and what they write.
use codex_remote.Prelude.{
  ℕ, String, Bool, true, false, ◌≡◌, refl, ◌∙◌, ◌++◌, Option, none, some, List, [], ◌∷◌, lookup,
}
use codex_remote.Errors.{Error}
use codex_remote.Codex.{
  codex_updated, Codex, View, Row, Published, Reply, done, fails, unknown, Manager, Config,
}
use codex_remote.Codex.Store.{
  note_async_error, persist_with, persist_state, put_row, commit, publish_with, publish_event,
  publish_found, publish_codex, reload_durable, note_joined, rolled_back, rollback_lifecycle_state,
  preserved_reload, preserved, preserve_lifecycle_state, set_memory, spend, next_reply,
}

-- Two managers with the same maps in memory.
pub record SameMemory (m n : Manager) : Type 0 where
  pub same_views : n.by_id ≡ m.by_id
  pub same_markers : n.warning_deadline ≡ m.warning_deadline
  pub same_titles : n.manual_title ≡ m.manual_title

pub note_async_error-memory : (e : List Error) (m : Manager) → SameMemory m (note_async_error e m)
unfolding note_async_error
note_async_error-memory [] m = record { same_views = refl; same_markers = refl; same_titles = refl }
note_async_error-memory (e ∷ es) m = record {
  same_views = refl;
  same_markers = refl;
  same_titles = refl;
}

persist_with-memory : (r : Reply) (v : View) (m : Manager) → SameMemory m (persist_with r v m).1
unfolding persist_with put_row
persist_with-memory done v m = record { same_views = refl; same_markers = refl; same_titles = refl }
persist_with-memory fails v m = record {
  same_views = refl;
  same_markers = refl;
  same_titles = refl;
}
persist_with-memory (unknown true) v m = record {
  same_views = refl;
  same_markers = refl;
  same_titles = refl;
}
persist_with-memory (unknown false) v m = record {
  same_views = refl;
  same_markers = refl;
  same_titles = refl;
}

pub persist_state-memory : (v : View) (m : Manager) → SameMemory m (persist_state v m).1
unfolding persist_state spend
persist_state-memory v m =
    let s = persist_with-memory (next_reply m.replies) v (spend m) in
    record { same_views = s.same_views; same_markers = s.same_markers; same_titles = s.same_titles }

publish_with-memory :
    (r : Reply) (id : String) (ev : Published) (v : View) (row : Option Row) (m : Manager)
    → SameMemory m (publish_with r id ev v row m).1
unfolding publish_with commit
publish_with-memory done id ev v none m = record {
  same_views = refl;
  same_markers = refl;
  same_titles = refl;
}
publish_with-memory done id ev v (some row) m = record {
  same_views = refl;
  same_markers = refl;
  same_titles = refl;
}
publish_with-memory fails id ev v row m = record {
  same_views = refl;
  same_markers = refl;
  same_titles = refl;
}
publish_with-memory (unknown b) id ev v none m = record {
  same_views = refl;
  same_markers = refl;
  same_titles = refl;
}
publish_with-memory (unknown true) id ev v (some row) m = record {
  same_views = refl;
  same_markers = refl;
  same_titles = refl;
}
publish_with-memory (unknown false) id ev v (some row) m = record {
  same_views = refl;
  same_markers = refl;
  same_titles = refl;
}

pub publish_event-memory :
    (id : String) (ev : Published) (v : View) (m : Manager)
    → SameMemory m (publish_event id ev v m).1
unfolding publish_event spend
publish_event-memory id ev v m =
    let s = publish_with-memory (next_reply m.replies) id ev v (lookup id m.rows) (spend m) in
    record { same_views = s.same_views; same_markers = s.same_markers; same_titles = s.same_titles }

publish_found-memory :
    (cfg : Config) (c : Codex) (o : Option View) (m : Manager)
    → SameMemory m (publish_found cfg c o m).1
unfolding publish_found
publish_found-memory cfg c none m = record {
  same_views = refl;
  same_markers = refl;
  same_titles = refl;
}
publish_found-memory cfg c (some v) m =
    publish_event-memory c.codex_id (cfg.bound_canonical_event (codex_updated c)) v m

pub publish_codex-memory :
    (cfg : Config) (c : Codex) (m : Manager) → SameMemory m (publish_codex cfg c m).1
unfolding publish_codex
publish_codex-memory cfg c m = publish_found-memory cfg c (lookup c.codex_id m.by_id) m

pub SameMemory-trans : (l m n : Manager) → SameMemory l m → SameMemory m n → SameMemory l n
SameMemory-trans l m n a b = record {
  same_views = b.same_views ∙ a.same_views;
  same_markers = b.same_markers ∙ a.same_markers;
  same_titles = b.same_titles ∙ a.same_titles;
}

note_joined-memory :
    (e : List Error) (r : List Error × Manager) → SameMemory r.1 (note_joined e r).1
unfolding note_joined
note_joined-memory e ([], m) = record { same_views = refl; same_markers = refl; same_titles = refl }
note_joined-memory e (e' ∷ es, m) = note_async_error-memory (e ++ e' ∷ es) m

reload_durable-memory : (m : Manager) → SameMemory m (reload_durable m).1
unfolding reload_durable spend
reload_durable-memory m = record { same_views = refl; same_markers = refl; same_titles = refl }

rolled_back-memory :
    (e : List Error) (r : List Error × Manager) → SameMemory r.1 (rolled_back e r).1
unfolding rolled_back
rolled_back-memory e ([], m) =
    SameMemory-trans m (reload_durable m).1 (note_joined e (reload_durable m)).1
      (reload_durable-memory m) (note_joined-memory e (reload_durable m))
rolled_back-memory e (e' ∷ es, m) = note_joined-memory e (e' ∷ es, m)

pub rollback-memory :
    (id : String) (v : View) (deadline : ℕ) (e : List Error) (m : Manager)
    → SameMemory (set_memory id v deadline m) (rollback_lifecycle_state id v deadline e m).1
unfolding rollback_lifecycle_state
rollback-memory id v deadline e m =
    let n = set_memory id v deadline m in
    SameMemory-trans n (persist_state v n).1 (rolled_back e (persist_state v n)).1
      (persist_state-memory v n) (rolled_back-memory e (persist_state v n))

preserved_reload-memory :
    (e : List Error) (r : List Error × Manager) → SameMemory r.1 (preserved_reload e r).1
unfolding preserved_reload
preserved_reload-memory e ([], m) = note_async_error-memory e m
preserved_reload-memory e (e' ∷ es, m) = note_joined-memory e (e' ∷ es, m)

preserved-memory : (e : List Error) (r : List Error × Manager) → SameMemory r.1 (preserved e r).1
unfolding preserved
preserved-memory e ([], m) =
    SameMemory-trans m (reload_durable m).1 (preserved_reload e (reload_durable m)).1
      (reload_durable-memory m) (preserved_reload-memory e (reload_durable m))
preserved-memory e (e' ∷ es, m) = note_joined-memory e (e' ∷ es, m)

pub preserve-memory :
    (id : String) (v : View) (deadline : ℕ) (persist : Bool) (e : List Error) (m : Manager)
    → SameMemory (set_memory id v deadline m) (preserve_lifecycle_state id v deadline persist e m).1
unfolding preserve_lifecycle_state
preserve-memory id v deadline true e m =
    let n = set_memory id v deadline m in
    SameMemory-trans n (persist_state v n).1 (preserved e (persist_state v n)).1
      (persist_state-memory v n) (preserved-memory e (persist_state v n))
preserve-memory id v deadline false e m = preserved-memory e ([], set_memory id v deadline m)
