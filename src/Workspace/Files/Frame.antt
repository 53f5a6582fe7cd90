-- ===== src/Workspace/Files/Frame.antt =====
-- internal/workspace/service.go: what the file operations leave alone, from what the documentation of
-- package os says of its calls.
use codex_remote.Prelude.{
  String, Bool, true, false, ◌≡◌, ◌≢◌, refl, sym, subst, ◌∙◌, ap, Option, none, some, arith,
}
use codex_remote.Workspace.Files.{Failure, found, absent, Done, Got, got, failed, Os}
use codex_remote.Workspace.Files.Staging.{
  and_then, first_of, closed, fill, atomic_with, atomic_file,
}

-- The disks `d` and `d'` have the same entry `q`.
abbrev pub Same : {D N : Type 0} → (D → String → Option N) → D → D → String → Type 0
Same look d d' q = look d' q ≡ look d q

-- The content that an entry has, if it is a file.
unfoldable pub content_at : {N C : Type 0} → (N → Option C) → Option N → Option C
content_at content none = none
content_at content (some n) = content n

abbrev pub Holds :
    {D N C : Type 0} → (D → String → Option N) → (N → Option C) → D → String → C → Type 0
Holds look content d q c = content_at content (look d q) ≡ some c

-- The documented behaviour of the calls, for the entry `look d q` of name `q` on the disk `d`.
pub record IsOs {D N C : Type 0} (os : Os D N C) (look : D → String → Option N)
    (content : N → Option C) (is_temp : String → Bool) : Type 0 where
  pub lstat_found : (q : String) (d : D) (n : N) → os.lstat q d ≡ found n → look d q ≡ some n
  pub lstat_absent : (q : String) (d : D) → os.lstat q d ≡ absent → look d q ≡ none
  pub rename_done :
      (a b : String) (d : D) → (os.rename a b d).0 ≡ none → look (os.rename a b d).1 b ≡ look d a
  pub rename_failed :
      (a b q : String) (d : D) (f : Failure)
      → (os.rename a b d).0 ≡ some f
      → Same look d (os.rename a b d).1 q
  pub rename_other : (a b q : String) (d : D) → q ≢ a → q ≢ b → Same look d (os.rename a b d).1 q
  pub remove_done :
      (q : String) (d : D) → (os.remove_all q d).0 ≡ none → look (os.remove_all q d).1 q ≡ none
  pub remove_other : (a q : String) (d : D) → q ≢ a → Same look d (os.remove_all a d).1 q
  pub temp_named : (d : D) (name : String) → (os.create_temp d).0 ≡ got name → is_temp name ≡ true
  pub temp_other : (d : D) (q : String) → is_temp q ≡ false → Same look d (os.create_temp d).1 q
  pub chmod_other : (a q : String) (d : D) → q ≢ a → Same look d (os.chmod a d).1 q
  pub write_other : (a q : String) (c : C) (d : D) → q ≢ a → Same look d (os.write a c d).1 q
  pub write_done :
      (a : String) (c : C) (d : D)
      → (os.write a c d).0 ≡ none
      → Holds look content (os.write a c d).1 a c
  pub sync_same : (a q : String) (d : D) → Same look d (os.sync a d).1 q
  pub close_same : (a q : String) (d : D) → Same look d (os.close a d).1 q

module _ {D N C : Type 0} (os : Os D N C) (look : D → String → Option N) (content : N → Option C)
    (is_temp : String → Bool) (laws : IsOs os look content is_temp) where
  not_temp : (q name : String) → is_temp q ≡ false → is_temp name ≡ true → q ≢ name
  not_temp q name a b e = ground (arith, sym (ap is_temp e) ∙ a, b)

  and_then-Same :
      (r : Done D) (op : D → Done D) (d : D) (q : String)
      → Same look d r.1 q
      → ((d' : D) → Same look d' (op d').1 q)
      → Same look d (and_then os r op).1 q
  unfolding and_then
  and_then-Same (none, d') op d q h k = k d' ∙ h
  and_then-Same (some f, d') op d q h k = h

  closed-Same :
      (name : String) (r : Done D) (d : D) (q : String)
      → Same look d r.1 q
      → Same look d (closed os name r).1 q
  unfolding closed
  closed-Same name r d q h = laws.close_same name q r.1 ∙ h

  fill-Same :
      (name : String) (c : C) (d : D) (q : String) → q ≢ name → Same look d (fill os name c d).1 q
  unfolding fill
  fill-Same name c d q other =
      let filled = and_then os (os.chmod name d) (os.write name c) in
      closed-Same name (and_then os filled (os.sync name)) d q (
        and_then-Same filled (os.sync name) d q
          (and_then-Same (os.chmod name d) (os.write name c) d q (laws.chmod_other name q d other)
            (λ d'. laws.write_other name q c d' other))
          (laws.sync_same name q))

  atomic_with-Same :
      (target : String) (c : C) (r : Got String × D) (d : D) (q : String)
      → q ≢ target
      → ((name : String) → r.0 ≡ got name → q ≢ name)
      → Same look d r.1 q
      → Same look d (atomic_with os target c r).1 q
  unfolding atomic_with
  atomic_with-Same target c (failed f, d') d q other fresh h = h
  atomic_with-Same target c (got name, d') d q other fresh h =
      laws.remove_other name q _ (fresh name refl)
      ∙ and_then-Same (fill os name c d') (os.rename name target) d q
          (fill-Same name c d' q (fresh name refl) ∙ h)
          (λ d''. laws.rename_other name target q d'' (fresh name refl) other)

  pub atomic_file-Same :
      (target : String) (c : C) (d : D) (q : String)
      → q ≢ target
      → is_temp q ≡ false
      → Same look d (atomic_file os target c d).1 q
  unfolding atomic_file
  atomic_file-Same target c d q other plain =
      atomic_with-Same target c (os.create_temp d) d q other
        (λ name named. not_temp q name plain (laws.temp_named d name named))
        (laws.temp_other d q plain)

  and_then-done :
      (r : Done D) (op : D → Done D)
      → (and_then os r op).0 ≡ none
      → (r.0 ≡ none) × ((op r.1).0 ≡ none) × ((and_then os r op).1 ≡ (op r.1).1)
  unfolding and_then
  and_then-done (none, d') op h = (refl, h, refl)
  and_then-done (some f, d') op h = ground (arith, h)

  first_of-none : (a b : Option Failure) → first_of os a b ≡ none → a ≡ none
  unfolding first_of
  first_of-none none b h = refl
  first_of-none (some f) b h = h

  Holds-Same :
      (d d' : D) (q : String) (c : C)
      → Same look d d' q
      → Holds look content d q c
      → Holds look content d' q c
  Holds-Same d d' q c same h = ap (content_at content) same ∙ h

  fill-done :
      (name : String) (c : C) (d : D)
      → (fill os name c d).0 ≡ none
      → Holds look content (fill os name c d).1 name c
  unfolding fill closed
  fill-done name c d h =
      let opened = os.chmod name d in
      let filled = and_then os opened (os.write name c) in
      let synced = and_then os filled (os.sync name) in
      let s =
        and_then-done filled (os.sync name) (first_of-none synced.0 (os.close name synced.1).0 h) in
      let w = and_then-done opened (os.write name c) s.0 in
      let wrote : Holds look content filled.1 name c =
        subst (λ x. Holds look content x name c) (sym w.2) (laws.write_done name c opened.1 w.1) in
      Holds-Same synced.1 (os.close name synced.1).1 name c (laws.close_same name name synced.1) (
        subst (λ x. Holds look content x name c) (sym s.2)
          (Holds-Same filled.1 (os.sync name filled.1).1 name c (laws.sync_same name name filled.1)
            wrote))

  atomic_with-done :
      (target : String) (c : C) (r : Got String × D)
      → ((name : String) → r.0 ≡ got name → target ≢ name)
      → (atomic_with os target c r).0 ≡ none
      → Holds look content (atomic_with os target c r).1 target c
  unfolding atomic_with
  atomic_with-done target c (failed f, d) fresh h = ground (arith, h)
  atomic_with-done target c (got name, d) fresh h =
      let filled = fill os name c d in
      let r = and_then os filled (os.rename name target) in
      let m = and_then-done filled (os.rename name target) h in
      Holds-Same r.1 (os.remove_all name r.1).1 target c
        (laws.remove_other name target r.1 (fresh name refl))
        (subst (λ x. Holds look content x target c) (sym m.2)
          (ap (content_at content) (laws.rename_done name target filled.1 m.1)
            ∙ fill-done name c d m.0))

  pub atomic_file-Holds :
      (target : String) (c : C) (d : D)
      → is_temp target ≡ false
      → (atomic_file os target c d).0 ≡ none
      → Holds look content (atomic_file os target c d).1 target c
  unfolding atomic_file
  atomic_file-Holds target c d plain h =
      atomic_with-done target c (os.create_temp d)
        (λ name named. not_temp target name plain (laws.temp_named d name named)) h
