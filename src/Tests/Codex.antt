-- ===== src/Tests/Codex.antt =====
-- The lease of a Codex, its budgets and its page tokens at concrete values.
use codex_remote.Prelude.{
  ℕ, String, ◌≢◌, ◌≤◌, ◌<◌, ◌≡◌, ◌⊎◌, inl, inr, refl, true, false, Bool, Option, none, some, List,
  [], ◌∷◌, map, length, length-take, eq_iff, take, leb, arith, lookup,
}
use codex_remote.Errors.{codex_busy, ok, err, invalid_argument}
use codex_remote.Codex.{idle, managed, View, Manager, Config, done, fails, Reply}
use codex_remote.Codex.{unmanaged, Codex}
use codex_remote.Codex.Lease.Unmanage.{Stored, unmanage_codex-Stored}
use codex_remote.Codex.Store.{publish_codex, persist_state}
use codex_remote.Prelude.{insert}
use codex_remote.Codex.Lease.{with_lease, is_unmanaged}
use codex_remote.Codex.Lease.{unmanage_codex, sweep_lease}
use codex_remote.Codex.Lease.Sweep.{SweptTo, sweep_lease-SweptTo}
use codex_remote.Codex.Turn.{set_running}
use codex_remote.Codex.Turn.Busy.{set_running_blocks_unmanage}
use codex_remote.Codex.Budget.{
  budget_completeness, bound_string, bounded_proto_prefix, at_least_one,
}
use codex_remote.Codex.Budget.Prefix.{IsLongestPrefix, bounded_proto_prefix-IsLongestPrefix}
use codex_remote.Codex.Budget.Text.{IsLongest, bound_string-IsLongest}
use codex_remote.Codex.Budget.Pending.{
  PendingRequest, approval_request, unknown_request, identity_of, bound_pending_request,
  bound_pending_request-identity,
}
use codex_remote.Codex.Budget.Warnings.{Note, IsShortened, bound_warning, bound_warning-IsShortened}
use codex_remote.Codex.Store.{next_reply}
use codex_remote.Codex.Lease.{member}
use codex_remote.Codex.Pending.{
  pending_id_of, upsert_pending, find_pending, upsert_pending-find_pending, resolve_pending,
  resolve_pending-member,
}
use codex_remote.Codex.Items.{Item, find_item, upsert_item, find_item-upsert_item}
use codex_remote.Codex.Pages.{
  TokenForm, PageRequest, encode_page_token, offset_token, page, page_size, page-encode_page_token,
}

abbrev config : Config
config = record {
  lease_duration = 100;
  lease_warning_before = 20;
  bound_canonical_event = λ e. e;
  bound_current_view = λ v. v;
}

abbrev idle_view : View
idle_view = record {
  codex = record {
    codex_id = "a";
    title = "t";
    status = idle;
    active_turn_id = "";
    management_state = managed;
    managed_until_unix_ms = 50;
    last_activity_at_unix_ms = 1;
    warnings = [];
  };
  active_turn = none;
  pending_requests = [];
  generated_at_unix_ms = 1;
}

abbrev manager_at : ℕ → List Reply → Manager
manager_at now replies = record {
  by_id = ("a", idle_view) ∷ [];
  warning_deadline = [];
  manual_title = [];
  async_error = [];
  rows =
      ("a", record { view = idle_view; warning_deadline = 0; manual_title_override = false }) ∷ [];
  resolved_pending = [];
  events = [];
  replies = replies;
  now = now;
}

sweep_lease-SweptTo_example :
    SweptTo config "a" idle_view 60 (sweep_lease config "a" (manager_at 60 (done ∷ fails ∷ []))).1
unfolding lookup
sweep_lease-SweptTo_example =
    sweep_lease-SweptTo config "a" idle_view (manager_at 60 (done ∷ fails ∷ [])) refl

abbrev started : Manager
started = (set_running config "a" "turn" (manager_at 60 (fails ∷ []))).1

set_running_blocks_unmanage_example :
    unmanage_codex config "a" started ≡ (inr (codex_busy ∷ []), started)
unfolding lookup
set_running_blocks_unmanage_example =
    set_running_blocks_unmanage config "a" "turn" idle_view (manager_at 60 (fails ∷ []))
      (λ e. ground (arith, e, eq_iff "a" "")) (λ e. ground (arith, e, eq_iff "turn" "")) (λ u. refl)
      (λ u. refl) refl

abbrev fits : List ℕ → Bool
fits xs = leb (length xs) 2

two_fit : (xs : List ℕ) (a b : ℕ) → a ≤ b → fits (take b xs) ≡ true → fits (take a xs) ≡ true
two_fit xs a b h k = ground (arith, h, k, length-take a xs, length-take b xs)

bounded_proto_prefix-IsLongestPrefix_example :
    IsLongestPrefix fits (1 ∷ 2 ∷ 3 ∷ 4 ∷ []) (bounded_proto_prefix (1 ∷ 2 ∷ 3 ∷ 4 ∷ []) 1 fits)
bounded_proto_prefix-IsLongestPrefix_example =
    bounded_proto_prefix-IsLongestPrefix fits (1 ∷ 2 ∷ 3 ∷ 4 ∷ []) 1 (two_fit (1 ∷ 2 ∷ 3 ∷ 4 ∷ []))
      refl

two_of_four : bounded_proto_prefix (1 ∷ 2 ∷ 3 ∷ 4 ∷ []) 1 fits ≡ 1 ∷ 2 ∷ []
unfolding bounded_proto_prefix
two_of_four = refl

-- Two bytes make one letter; a text of whole letters is valid.
abbrev even : List ℕ → Bool
even [] = true
even (x ∷ []) = false
even (x ∷ y ∷ xs) = even xs

abbrev four : List ℕ
four = 1 ∷ 2 ∷ 3 ∷ 4 ∷ []

bound_string-IsLongest_example :
    ((length four ≤ at_least_one 3) × (bound_string even four 3 ≡ (four, none)))
    ⊎ ((at_least_one 3 < length four)
        × IsLongest even four (at_least_one 3) (bound_string even four 3).0
        × ((bound_string even four 3).1
            ≡ some (budget_completeness 4 "content exceeds C/S frame budget")))
bound_string-IsLongest_example = bound_string-IsLongest even four 3 refl

abbrev approval : PendingRequest
approval = approval_request (record {
  approval_id = "p";
  title = 1 ∷ 2 ∷ 3 ∷ 4 ∷ [];
  explanation = [];
  command = (1 ∷ 2 ∷ []) ∷ (3 ∷ 4 ∷ []) ∷ [];
})

bound_pending_request-identity_example :
    identity_of (bound_pending_request even (λ p. 100) (some approval) 10).0
    ≡ identity_of (some approval)
bound_pending_request-identity_example =
    bound_pending_request-identity even (λ p. 100) (some approval) 10

abbrev warning : Note
warning = record { message = 1 ∷ 2 ∷ 3 ∷ 4 ∷ []; metadata = ("k", 1 ∷ 2 ∷ []) ∷ [] }

abbrev note_size : Note → ℕ
note_size n = length n.message

bound_warning-IsShortened_example :
    ((note_size warning ≤ 3) × (bound_warning even note_size warning 3 ≡ (warning, none)))
    ⊎ ((3 < note_size warning)
        × IsShortened even note_size warning 3 (bound_warning even note_size warning 3).0
        × ((bound_warning even note_size warning 3).1
            ≡ some (budget_completeness (note_size warning) "warning exceeds C/S frame budget")))
bound_warning-IsShortened_example = bound_warning-IsShortened even note_size warning 3 refl

-- A form that knows one token.
abbrev form : TokenForm
form = record { encode = λ t. "token"; decode = λ s. some (offset_token "list_codexes" "" 40) }

abbrev next_page : Option PageRequest
next_page = some (record {
  page_size = 20;
  page_token = encode_page_token form (offset_token "list_codexes" "" 40);
})

page-encode_page_token_example :
    (page form next_page 100 "list_codexes" "" ≡ ok (40, page_size next_page 100))
    × (page form next_page 100 "list_history" "" ≡ err invalid_argument)
page-encode_page_token_example =
    page-encode_page_token form 20 100 40 "list_codexes" "" "list_history" "" refl
      (λ e. ground (arith, e, eq_iff "token" ""))
      (inl (λ e. ground (arith, e, eq_iff "list_codexes" "list_history")))

abbrev asking_view : View
asking_view = record idle_view { pending_requests = "q" ∷ "p" ∷ [] }

abbrev asking : Manager
asking = record (manager_at 60 (done ∷ fails ∷ [])) { by_id = ("a", asking_view) ∷ [] }

resolve_pending-member_example :
    (v : View) × (lookup "a" (resolve_pending config "a" "p" asking).1.by_id ≡ some v)
    × (member "p" v.pending_requests ≡ false)
    × ((q : String) → q ≢ "p" → member q v.pending_requests ≡ member q ("q" ∷ "p" ∷ []))
unfolding lookup next_reply
resolve_pending-member_example =
    resolve_pending-member config "a" "p" asking_view asking (λ u. refl) refl refl

abbrev old_approval : PendingRequest
old_approval =
    approval_request (record { approval_id = "p"; title = []; explanation = []; command = [] })

upsert_pending-find_pending_example :
    (map pending_id_of (upsert_pending (unknown_request ∷ old_approval ∷ []) approval)
      ≡ "" ∷ "p" ∷ [])
    × (find_pending (upsert_pending (unknown_request ∷ old_approval ∷ []) approval) "p"
        ≡ some approval)
    × ((id : String)
        → id ≢ "p"
        → find_pending (upsert_pending (unknown_request ∷ old_approval ∷ []) approval) id
          ≡ find_pending (unknown_request ∷ old_approval ∷ []) id)
unfolding pending_id_of member
upsert_pending-find_pending_example =
    upsert_pending-find_pending (unknown_request ∷ old_approval ∷ []) approval

abbrev released : Codex
released = record idle_view.codex { management_state = unmanaged; managed_until_unix_ms = 0 }

unmanage_codex-Stored_example :
    (released ≡ (with_lease unmanaged 0 60 idle_view).codex)
    × Stored config "a"
        (with_lease unmanaged 0 60 idle_view)
        0
        (manager_at 60 [])
        (unmanage_codex config "a" (manager_at 60 [])).1
unfolding lookup insert unmanage_codex with_lease is_unmanaged publish_codex persist_state
unmanage_codex-Stored_example =
    unmanage_codex-Stored config idle_view (manager_at 60 []) released refl refl refl

abbrev item : ℕ → Item ℕ
item n = record { item_id = "i"; content = n }

find_item-upsert_item_example : find_item (upsert_item (item 1 ∷ []) (item 2)) "i" ≡ some (item 2)
find_item-upsert_item_example = find_item-upsert_item (item 1 ∷ []) (item 2) "i"
