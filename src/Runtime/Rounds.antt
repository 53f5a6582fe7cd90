-- ===== src/Runtime/Rounds.antt =====
-- internal/runtime/manager.go: the rounds of `supervise` and its restarts, which end.
use codex_remote.Prelude.{
  ℕ, zero, suc, ◌+◌, ◌-◌, ◌≤◌, Bool, true, false, not, ◌&&◌, ◌||◌, ◌≡◌, ◌≢◌, ◌⊎◌, inl, inr, refl,
  sym, ◌∙◌, ap, subst, Option, none, some, length, if_cases, arith, ltb, leb,
}
use codex_remote.Runtime.{
  Status, ready, restarting, stopped, failed, State, Config, Manager, plain_state, set_state,
  publish_state,
}
use codex_remote.Runtime.Supervise.{
  Launch, fails, comes_up, is_restarting, launched, start_instance, Try, Exit, resumes, returns,
  after_launch, restart, Reconnect, process_exits, context_ends, no_connection, connects, Loop,
  continues, breaks, leaves, reconnected, attempted, or_next, reconnect, Happening, exited,
  context_done, woken, disconnected, connection_loop, after_loop, round,
}

-- A manager that supervises a process, with the adapter available.
pub record IsServing (m : Manager) : Type 0 where
  pub is_ready : m.state.status ≡ ready
  pub has_adapter : m.current ≢ none
  pub has_process : m.cmd ≢ none

publish_state-same :
    (s : State) (m : Manager)
    → ((publish_state s m).state ≡ m.state)
      × ((publish_state s m).current ≡ m.current)
      × ((publish_state s m).cmd ≡ m.cmd)
unfolding publish_state
publish_state-same s m =
    if_cases (λ (x : Manager). (x.state ≡ m.state) × (x.current ≡ m.current) × (x.cmd ≡ m.cmd))
      (ltb (length m.states) 32) (λ room. (refl, refl, refl)) (λ full. (refl, refl, refl))

publish_state-IsServing : (s : State) (m : Manager) → IsServing m → IsServing (publish_state s m)
publish_state-IsServing s m v =
    let same = publish_state-same s m in
    record {
      is_ready = ap (λ (x : State). x.status) same.0 ∙ v.is_ready;
      has_adapter = subst (λ (o : Option ℕ). o ≢ none) (sym same.1) v.has_adapter;
      has_process = subst (λ (o : Option ℕ). o ≢ none) (sym same.2) v.has_process;
    }

is_some : (n : ℕ) → some n ≢ none
is_some n h = ground (arith, h)

abbrev Launches : ℕ → Option ℕ × Manager → Type 0
Launches count (none, m) = IsServing m × (m.state.restart_count ≡ count)
Launches count (some e, m) = m.state.restart_count ≡ count

launched-Launches :
    (count : ℕ) (launch : Launch) (m : Manager)
    → m.state.restart_count ≡ count
    → Launches count (launched count launch m)
unfolding launched
launched-Launches count (fails e) m h = h
launched-Launches count (comes_up process ad info now) m h =
    let s : State = record {
      status = ready;
      restart_count = count;
      started_at = now;
      app_server = some info;
      error = none;
    } in
    let m' = record m { cmd = some process; current = some ad; state = s } in
    (
      publish_state-IsServing s m'
          (record { is_ready = refl; has_adapter = is_some ad; has_process = is_some process }),
      ap (λ (x : State). x.restart_count) (publish_state-same s m').0,
    )

start_instance-Launches :
    (cfg : Config) (launch : Launch) (m : Manager)
    → Launches (m.state.restart_count + 1) (start_instance cfg restarting launch m)
unfolding start_instance set_state plain_state is_restarting
start_instance-Launches cfg launch m =
    let count = m.state.restart_count + 1 in
    let s = plain_state restarting count none in
    let m' = set_state s m in
    let same : m'.state.restart_count ≡ count =
      ap (λ (x : State). x.restart_count) (publish_state-same s (record m { state = s })).0 in
    if_cases (Launches count) cfg.has_socket_path (λ path. launched-Launches count launch m' same)
      (λ missing. same)

-- A restart from a manager with `count` restarts and `left` further attempts allowed: it serves again
-- after at most so many further restarts, or it is over, with the status `stopped` or `failed`.
-- Out of fuel is not among the cases.
pub data Restarts (count left : ℕ) (r : Option (Exit × Manager)) : Type 0 where
  serves :
      (m : Manager)
      → r ≡ some (resumes, m)
      → IsServing m
      → m.state.restart_count ≤ count + left + 1
      → Restarts count left r
  ends :
      (m : Manager)
      → r ≡ some (returns, m)
      → (m.state.status ≡ stopped) ⊎ (m.state.status ≡ failed)
      → Restarts count left r

set_state-status : (s : State) (m : Manager) → (set_state s m).state ≡ s
unfolding set_state
set_state-status s m = (publish_state-same s (record m { state = s })).0

Restarts-later :
    (count left left' : ℕ) (r : Option (Exit × Manager))
    → left' + 1 ≡ left
    → Restarts (count + 1) left' r
    → Restarts count left r
Restarts-later count left left' r more (serves m h v low) = serves m h v (omega (arith, low, more))
Restarts-later count left left' r more (ends m h over) = ends m h over

stopped_status :
    (status : Status) (count : ℕ) (e : Option ℕ) (m : Manager)
    → (set_state (plain_state status count e) m).state.status ≡ status
unfolding plain_state
stopped_status status count e m =
    ap (λ (x : State). x.status) (set_state-status (plain_state status count e) m)

after_launch-Restarts :
    (cfg : Config) (count attempt : ℕ) (r : Option ℕ × Manager) (next : Option (Exit × Manager))
    → Launches (count + 1) r
    → attempt ≤ cfg.max_restarts
    → (suc attempt ≤ cfg.max_restarts
        → r.1.state.restart_count ≡ count + 1
        → Restarts (count + 1) (cfg.max_restarts - suc attempt) next)
    → Restarts count (cfg.max_restarts - attempt) (after_launch cfg attempt r next)
unfolding after_launch
after_launch-Restarts cfg count attempt (none, m) next h low go =
    serves (record m { planned = false; planned_watcher = false }) refl
      (record {
        is_ready = h.0.is_ready;
        has_adapter = h.0.has_adapter;
        has_process = h.0.has_process;
      })
      (omega (arith, h.1))
after_launch-Restarts cfg count attempt (some e, m) next h low go =
    if_cases (Restarts count (cfg.max_restarts - attempt)) (leb cfg.max_restarts attempt)
      (λ last.
        ends (set_state (plain_state failed m.state.restart_count (some e)) m) refl
          (inr (stopped_status failed m.state.restart_count (some e) m)))
      (λ more.
        Restarts-later count (cfg.max_restarts - attempt) (cfg.max_restarts - suc attempt) next
          (ground (arith, more)) (go (ground (arith, more)) h))

restart-Restarts_from :
    (fuel : ℕ) (cfg : Config) (planned : Bool) (tries : ℕ → Try) (attempt : ℕ) (m : Manager)
    → attempt ≤ cfg.max_restarts
    → cfg.max_restarts + 1 ≤ fuel + attempt
    → Restarts m.state.restart_count
        (cfg.max_restarts - attempt)
        (restart fuel cfg planned tries attempt m)
unfolding restart
restart-Restarts_from zero cfg planned tries attempt m low enough = ground (arith, low, enough)
restart-Restarts_from (suc fuel) cfg planned tries attempt m low enough =
    let r = start_instance cfg restarting (tries attempt).launch m in
    let next = restart fuel cfg planned tries (attempt + 1) r.1 in
    if_cases (Restarts m.state.restart_count (cfg.max_restarts - attempt))
      ((not planned || ltb 0 attempt) && (tries attempt).ended)
      (λ over.
        ends (set_state (plain_state stopped 0 none) m) refl
          (inl (stopped_status stopped 0 none m)))
      (λ live.
        after_launch-Restarts cfg m.state.restart_count attempt r next
          (start_instance-Launches cfg (tries attempt).launch m) low
          (λ more same.
            subst (λ (k : ℕ). Restarts k (cfg.max_restarts - suc attempt) next) same
              (subst (λ (k : ℕ). Restarts r.1.state.restart_count (cfg.max_restarts - k) next)
                (omega arith)
                (restart-Restarts_from fuel cfg planned tries (attempt + 1) r.1
                  (omega (arith, more)) (omega (arith, enough))))))

-- The loop of `supervise` that starts the process again ends, whatever the process, the socket and the
-- clock do, and however often it may try: it serves again, with at most MaxRestarts + 1 further
-- restarts counted, or it returns with the status `stopped` or `failed`. MaxRestarts + 1 rounds of
-- fuel are enough, and so are more.
pub restart-Restarts :
    (fuel : ℕ) (cfg : Config) (planned : Bool) (tries : ℕ → Try) (m : Manager)
    → cfg.max_restarts + 1 ≤ fuel
    → Restarts m.state.restart_count cfg.max_restarts (restart fuel cfg planned tries 0 m)
restart-Restarts fuel cfg planned tries m enough =
    subst (λ (k : ℕ). Restarts m.state.restart_count k (restart fuel cfg planned tries 0 m))
      (omega arith)
      (restart-Restarts_from fuel cfg planned tries 0 m (omega arith) (omega (arith, enough)))

some_injective : {l l' : Loop} → some l ≡ some l' → l ≡ l'
some_injective h = ground (arith, h)

set_state-cmd : (s : State) (m : Manager) → (set_state s m).cmd ≡ m.cmd
unfolding set_state
set_state-cmd s m = (publish_state-same s (record m { state = s })).2

-- How the loop over one process goes on, from a manager with `count` restarts.
abbrev Loops : ℕ → Loop → Type 0
Loops count (continues m) = IsServing m × (m.state.restart_count ≡ count)
Loops count (breaks planned m) = m.state.restart_count ≡ count
Loops count (leaves m) = m.state.status ≡ stopped

reconnected-Loops :
    (ad info : ℕ) (m : Manager)
    → m.cmd ≢ none
    → Loops m.state.restart_count (continues (reconnected ad info m))
unfolding reconnected
reconnected-Loops ad info m running =
    let s : State = record {
      status = ready;
      restart_count = m.state.restart_count;
      started_at = m.state.started_at;
      app_server = some info;
      error = none;
    } in
    let m' = record m { current = some ad; state = s } in
    (
      publish_state-IsServing s m'
          (record { is_ready = refl; has_adapter = is_some ad; has_process = running }),
      ap (λ (x : State). x.restart_count) (publish_state-same s m').0,
    )

or_next-Loops :
    (count : ℕ) (o : Option Loop) (next : Loop)
    → ((l : Loop) → o ≡ some l → Loops count l)
    → Loops count next
    → Loops count (or_next o next)
unfolding or_next
or_next-Loops count none next h k = k
or_next-Loops count (some l) next h k = h l refl

attempted-Loops :
    (delayed : Bool) (r : Reconnect) (m : Manager) (l : Loop)
    → m.cmd ≢ none
    → attempted delayed r m ≡ some l
    → Loops m.state.restart_count l
unfolding attempted
attempted-Loops true process_exits m l running h =
    subst (Loops m.state.restart_count) (some_injective h) refl
attempted-Loops false process_exits m l running h = ground (arith, h)
attempted-Loops true context_ends m l running h =
    subst (Loops m.state.restart_count) (some_injective h) (stopped_status stopped 0 none m)
attempted-Loops false context_ends m l running h = ground (arith, h)
attempted-Loops delayed no_connection m l running h = ground (arith, h)
attempted-Loops delayed (connects ad info) m l running h =
    subst (Loops m.state.restart_count) (some_injective h) (reconnected-Loops ad info m running)

reconnect-Loops :
    (left : ℕ) (tries : ℕ → Reconnect) (attempt : ℕ) (m : Manager)
    → m.cmd ≢ none
    → Loops m.state.restart_count (reconnect left tries attempt m)
unfolding reconnect
reconnect-Loops zero tries attempt m running = refl
reconnect-Loops (suc left) tries attempt m running =
    or_next-Loops m.state.restart_count (attempted (ltb 0 attempt) (tries attempt) m)
      (reconnect left tries (attempt + 1) m)
      (λ l. attempted-Loops (ltb 0 attempt) (tries attempt) m l running)
      (reconnect-Loops left tries (attempt + 1) m running)

connection_loop-Loops :
    (cfg : Config) (h : Happening) (m : Manager)
    → m.cmd ≢ none
    → Loops m.state.restart_count (connection_loop cfg h m)
unfolding connection_loop plain_state
connection_loop-Loops cfg (exited e) m running =
    ap (λ (x : State). x.restart_count)
      (set_state-status (plain_state restarting m.state.restart_count e) m)
connection_loop-Loops cfg context_done m running = stopped_status stopped 0 none m
connection_loop-Loops cfg woken m running =
    ap (λ (x : State). x.restart_count)
      (set_state-status (plain_state restarting m.state.restart_count none) m)
connection_loop-Loops cfg (disconnected over tries) m running =
    let s = record m.state { status = restarting; error = some 2 } in
    let m' = set_state s m in
    let m'' = record m' { current = none } in
    let count = ap (λ (x : State). x.restart_count) (set_state-status s m) in
    if_cases (Loops m.state.restart_count) over (λ ended. stopped_status stopped 0 none m)
      (λ live.
        subst (λ (k : ℕ). Loops k (reconnect (cfg.max_restarts + 1) tries 0 m'')) count
          (reconnect-Loops (cfg.max_restarts + 1) tries 0 m''
            (subst (λ (o : Option ℕ). o ≢ none) (sym (set_state-cmd s m)) running)))

after_loop-Restarts :
    (cfg : Config) (count : ℕ) (tries : ℕ → Try) (l : Loop)
    → Loops count l
    → Restarts count cfg.max_restarts (after_loop cfg tries l)
unfolding after_loop
after_loop-Restarts cfg count tries (continues m) h = serves m refl h.0 (omega (arith, h.1))
after_loop-Restarts cfg count tries (leaves m) h = ends m refl (inl h)
after_loop-Restarts cfg count tries (breaks planned m) h =
    let m' = record m { current = none; cmd = none } in
    subst
      (λ (k : ℕ).
        Restarts k cfg.max_restarts (restart (cfg.max_restarts + 1) cfg planned tries 0 m'))
      h (restart-Restarts (cfg.max_restarts + 1) cfg planned tries m' (omega arith))

-- A manager that supervises a process, whatever happens to the process, its connection, the context
-- and a restart that was asked for, and whatever comes of the attempts to connect or start again:
-- the round ends, and then the manager is ready with an adapter and a process, and counts at most
-- MaxRestarts + 1 restarts more; or `supervise` has returned, stopped or failed.
pub round-Restarts :
    (cfg : Config) (h : Happening) (tries : ℕ → Try) (m : Manager)
    → IsServing m
    → Restarts m.state.restart_count cfg.max_restarts (round cfg h tries m)
unfolding round
round-Restarts cfg h tries m v =
    after_loop-Restarts cfg m.state.restart_count tries (connection_loop cfg h m)
      (connection_loop-Loops cfg h m v.has_process)
