-- ===== src/Codex/Lease/Unmanage.antt =====
-- internal/codex/manager.go: what a successful transition of a lease has written.
use codex_remote.Prelude.{
  ℕ, String, Bool, false, ◌≡◌, ◌≢◌, refl, sym, ap, subst, ◌∙◌, ◌⊎◌, inl, Option, none, some, List,
  [], ◌∷◌, lookup, insert, Map, lookup-insert_self, if_cases, arith, str_eq, if◌then◌else◌,
}
use codex_remote.Errors.{Error}
use codex_remote.Codex.{
  unmanaged, Codex, View, Row, Published, codex_updated, Reply, done, fails, unknown, Manager,
  Config,
}
use codex_remote.Codex.Store.{
  number_at, note_joined, rolled_back, preserved_reload, preserved, reload_durable,
  rollback_lifecycle_state, preserve_lifecycle_state, is_unknown, persist_state, persist_with,
  put_row, row_of, publish_event, publish_with, commit, publish_found, publish_codex, set_marker,
  set_view, set_memory, spend, next_reply,
}
use codex_remote.Codex.Lease.{
  is_unmanaged, manual_unmanage_busy, with_lease, undo, lease_published, lease_persisted,
  transition, unmanaged_answer, unmanage_found, unmanage_codex,
}

note_joined-error :
    (e : Error) (es : List Error) (r : List Error × Manager) → (note_joined (e ∷ es) r).0 ≢ []
unfolding note_joined
note_joined-error e es ([], m) h = ground (arith, h)
note_joined-error e es (e' ∷ es', m) h = ground (arith, h)

rolled_back-error :
    (e : Error) (es : List Error) (r : List Error × Manager) → (rolled_back (e ∷ es) r).0 ≢ []
unfolding rolled_back
rolled_back-error e es ([], m) = note_joined-error e es (reload_durable m)
rolled_back-error e es (e' ∷ es', m) = note_joined-error e es (e' ∷ es', m)

preserved_reload-error :
    (e : Error) (es : List Error) (r : List Error × Manager) → (preserved_reload (e ∷ es) r).0 ≢ []
unfolding preserved_reload
preserved_reload-error e es ([], m) = λ h. ground (arith, h)
preserved_reload-error e es (e' ∷ es', m) = note_joined-error e es (e' ∷ es', m)

preserved-error :
    (e : Error) (es : List Error) (r : List Error × Manager) → (preserved (e ∷ es) r).0 ≢ []
unfolding preserved
preserved-error e es ([], m) = preserved_reload-error e es (reload_durable m)
preserved-error e es (e' ∷ es', m) = note_joined-error e es (e' ∷ es', m)

undo-error :
    (id : String) (v s : View) (marker : ℕ) (persist : Bool) (old : ℕ) (e : Error) (es : List Error)
    (m : Manager)
    → (undo id v s marker persist old (e ∷ es) m).0 ≢ []
unfolding undo rollback_lifecycle_state preserve_lifecycle_state
undo-error id v s marker persist old e es m =
    if_cases (λ (r : List Error × Manager). r.0 ≢ []) (is_unknown (e ∷ es))
      (λ lost. preserved-error e es (
        if persist
        then persist_state s (set_memory id s marker m)
        else ([], set_memory id s marker m)))
      (λ failed. rolled_back-error e es (persist_state v (set_memory id v old m)))

persist_with-ok :
    (r : Reply) (v : View) (m : Manager)
    → (persist_with r v m).0 ≡ []
    → (persist_with r v m).1 ≡ put_row v m
unfolding persist_with
persist_with-ok done v m h = refl
persist_with-ok fails v m h = ground (arith, h)
persist_with-ok (unknown b) v m h = ground (arith, h)

publish_with-ok :
    (r : Reply) (id : String) (ev : Published) (v : View) (o : Option Row) (m : Manager)
    → (publish_with r id ev v o m).0 ≡ []
    → (row : Row) × (o ≡ some row) × ((publish_with r id ev v o m).1 ≡ commit id ev v row m)
unfolding publish_with
publish_with-ok done id ev v none m h = ground (arith, h)
publish_with-ok done id ev v (some row) m h = (row, refl, refl)
publish_with-ok fails id ev v o m h = ground (arith, h)
publish_with-ok (unknown b) id ev v none m h = ground (arith, h)
publish_with-ok (unknown b) id ev v (some row) m h = ground (arith, h)

-- Memory, row and event log agree on the view of the Codex, and the marker of its warning.
pub record Stored (cfg : Config) (id : String) (v : View) (marker : ℕ) (m n : Manager)
    : Type 0 where
  pub in_memory : lookup id n.by_id ≡ some v
  pub same_marker : lookup id n.warning_deadline ≡ some marker
  pub in_row :
      (row : Row) × (lookup id n.rows ≡ some row) × (row.view ≡ v) × (row.warning_deadline ≡ marker)
  pub announced : n.events ≡ (id, cfg.bound_canonical_event (codex_updated v.codex)) ∷ m.events

lease_published-ok :
    (id : String) (v s : View) (marker : ℕ) (persist : Bool) (old : ℕ) (r : List Error × Manager)
    → (lease_published id v s marker persist old r).0 ≡ []
    → (r.0 ≡ []) × ((lease_published id v s marker persist old r).1 ≡ r.1)
unfolding lease_published
lease_published-ok id v s marker persist old ([], m) h = (refl, refl)
lease_published-ok id v s marker persist old (e ∷ es, m) h =
    elim (undo-error id v s marker persist old e es m h) [ ]

publish_codex-ok :
    (cfg : Config) (s : View) (m : Manager)
    → lookup s.codex.codex_id m.by_id ≡ some s
    → (publish_codex cfg s.codex m).0 ≡ []
    → (row : Row) × (lookup s.codex.codex_id m.rows ≡ some row)
      × ((publish_codex cfg s.codex m).1
          ≡ commit s.codex.codex_id
              (cfg.bound_canonical_event (codex_updated s.codex))
              s
              row
              (spend m))
unfolding publish_codex publish_event
publish_codex-ok cfg s m at =
    subst
      (λ (o : Option View).
        (publish_found cfg s.codex o m).0 ≡ []
        → (row : Row) × (lookup s.codex.codex_id m.rows ≡ some row)
          × ((publish_found cfg s.codex o m).1
              ≡ commit s.codex.codex_id (cfg.bound_canonical_event (codex_updated s.codex)) s row
                  (spend m)))
      (sym at)
      (λ h.
        publish_with-ok (next_reply m.replies) s.codex.codex_id
          (cfg.bound_canonical_event (codex_updated s.codex)) s (lookup s.codex.codex_id m.rows)
          (spend m) h)

number_at-insert : (id : String) (n : ℕ) (m : Map ℕ) → number_at id (insert id n m) ≡ n
unfolding number_at
number_at-insert id n m =
    ap (λ (o : Option ℕ). elim o [ none ↦ 0 | some k ↦ k ]) (lookup-insert_self id n m)

shown : (id : String) (s : View) (n : Manager) → lookup id (set_view id s n).by_id ≡ some s
unfolding set_view
shown id s n = lookup-insert_self id s n.by_id

rows_kept :
    (id : String) (s : View) (n : Manager) (row : Row)
    → lookup id (set_view id s n).rows ≡ some row
    → lookup id n.rows ≡ some row
unfolding set_view
rows_kept id s n row h = h

Stored-commit :
    (cfg : Config) (s : View) (new : ℕ) (m : Manager) (row : Row)
    → lookup s.codex.codex_id (put_row s (spend (set_marker s.codex.codex_id new m))).rows
      ≡ some row
    → Stored cfg s.codex.codex_id s new m (
        commit s.codex.codex_id (cfg.bound_canonical_event (codex_updated s.codex)) s row (
          spend
            (set_view s.codex.codex_id s (put_row s (spend (set_marker s.codex.codex_id new m))))))
unfolding commit set_view put_row set_marker spend row_of
Stored-commit cfg s new m row at =
    let id = s.codex.codex_id in
    let r = row_of s (spend (set_marker id new m)) in
    let same : r ≡ row = ground (arith, at, lookup-insert_self id r m.rows) in
    record {
      in_memory = lookup-insert_self id s m.by_id;
      same_marker = lookup-insert_self id new m.warning_deadline;
      in_row = (
        record row { view = s },
        lookup-insert_self id (record row { view = s }) (insert id r m.rows),
        refl,
        ap (λ (x : Row). x.warning_deadline) (sym same)
            ∙ number_at-insert id new m.warning_deadline,
      );
      announced = refl;
    }

lease_persisted-ok :
    (cfg : Config) (v s : View) (marker : ℕ) (persist : Bool) (old new : ℕ) (m : Manager)
    (r : List Error × Manager)
    → (r.0 ≡ [] → r.1 ≡ put_row s (spend (set_marker s.codex.codex_id new m)))
    → (lease_persisted cfg s.codex.codex_id v s marker persist old r).0 ≡ []
    → Stored cfg s.codex.codex_id s new m
        (lease_persisted cfg s.codex.codex_id v s marker persist old r).1
unfolding lease_persisted
lease_persisted-ok cfg v s marker persist old new m (e ∷ es, n) written h = ground (arith, h)
lease_persisted-ok cfg v s marker persist old new m ([], n) written h =
    let id = s.codex.codex_id in
    let base = put_row s (spend (set_marker id new m)) in
    let same : n ≡ base = written refl in
    let (clean, kept) =
      lease_published-ok id v s marker persist old (publish_codex cfg s.codex (set_view id s n))
        h in
    let (row, at, moved) = publish_codex-ok cfg s (set_view id s n) (shown id s n) clean in
    subst (Stored cfg id s new m)
      (sym (
        kept
        ∙ moved
        ∙ ap
            (λ (k : Manager).
              commit id (cfg.bound_canonical_event (codex_updated s.codex)) s row
                (spend (set_view id s k)))
            same))
      (Stored-commit cfg s new m row
        (sym (ap (λ (k : Manager). lookup id k.rows) same) ∙ rows_kept id s n row at))

-- A transition that succeeded has written its view and marker everywhere.
pub transition-Stored :
    (cfg : Config) (v s : View) (new marker : ℕ) (persist : Bool) (m : Manager)
    → (transition cfg s.codex.codex_id v s new marker persist m).0 ≡ []
    → Stored cfg s.codex.codex_id s new m
        (transition cfg s.codex.codex_id v s new marker persist m).1
unfolding transition persist_state
transition-Stored cfg v s new marker persist m h =
    let n = set_marker s.codex.codex_id new m in
    lease_persisted-ok cfg v s marker persist (number_at s.codex.codex_id m.warning_deadline) new m
      (persist_state s n) (λ e. persist_with-ok (next_reply n.replies) s (spend n) e) h

unmanaged_answer-ok :
    (v : View) (r : List Error × Manager) (c : Codex)
    → (unmanaged_answer v r).0 ≡ inl c
    → (c ≡ v.codex) × (r.0 ≡ []) × ((unmanaged_answer v r).1 ≡ r.1)
unfolding unmanaged_answer
unmanaged_answer-ok v ([], m) c h = (ground (arith, h), refl, refl)
unmanaged_answer-ok v (e ∷ es, m) c h = ground (arith, h)

unmanage_found-Stored :
    (cfg : Config) (v : View) (m : Manager) (c : Codex)
    → is_unmanaged v.codex.management_state ≡ false
    → (unmanage_found cfg v.codex.codex_id (some v) m).0 ≡ inl c
    → (c ≡ (with_lease unmanaged 0 m.now v).codex)
      × Stored cfg v.codex.codex_id
          (with_lease unmanaged 0 m.now v)
          0
          m
          (unmanage_found cfg v.codex.codex_id (some v) m).1
unfolding unmanage_found with_lease
unmanage_found-Stored cfg v m c leased =
    let s = with_lease unmanaged 0 m.now v in
    let id = v.codex.codex_id in
    let t = transition cfg id v s 0 0 false m in
    if_cases
      (λ (r : (Codex ⊎ List Error) × Manager).
        r.0 ≡ inl c → (c ≡ s.codex) × Stored cfg id s 0 m r.1)
      (is_unmanaged v.codex.management_state) (λ free h. ground (arith, free, leased))
      (λ held.
        if_cases
          (λ (r : (Codex ⊎ List Error) × Manager).
            r.0 ≡ inl c → (c ≡ s.codex) × Stored cfg id s 0 m r.1)
          (manual_unmanage_busy v) (λ busy h. ground (arith, h))
          (λ quiet h.
            let (same, clean, kept) = unmanaged_answer-ok s t c h in
            (
              same,
              subst (Stored cfg id s 0 m) (sym kept) (transition-Stored cfg v s 0 0 false m clean),
            )))

-- When UnmanageCodex answers for a Codex that was managed, the answer is its released state, and
-- memory, row and the latest event agree on it, with the warning marker cleared.
pub unmanage_codex-Stored :
    (cfg : Config) (v : View) (m : Manager) (c : Codex)
    → lookup v.codex.codex_id m.by_id ≡ some v
    → is_unmanaged v.codex.management_state ≡ false
    → (unmanage_codex cfg v.codex.codex_id m).0 ≡ inl c
    → (c ≡ (with_lease unmanaged 0 m.now v).codex)
      × Stored cfg v.codex.codex_id
          (with_lease unmanaged 0 m.now v)
          0
          m
          (unmanage_codex cfg v.codex.codex_id m).1
unfolding unmanage_codex
unmanage_codex-Stored cfg v m c at leased =
    let s = with_lease unmanaged 0 m.now v in
    let id = v.codex.codex_id in
    if_cases
      (λ (r : (Codex ⊎ List Error) × Manager).
        r.0 ≡ inl c → (c ≡ s.codex) × Stored cfg id s 0 m r.1)
      (str_eq id "") (λ blank h. ground (arith, h))
      (λ named.
        subst
          (λ (o : Option View).
            (unmanage_found cfg id o m).0 ≡ inl c
            → (c ≡ s.codex) × Stored cfg id s 0 m (unmanage_found cfg id o m).1)
          (sym at) (unmanage_found-Stored cfg v m c leased))
