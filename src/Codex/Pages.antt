-- ===== src/Codex/Pages.antt =====
-- internal/codex/manager.go: `pageSize`, `page`, `cursorPage`, `encodePageToken` and
-- `decodePageToken`. The JSON and base64 form of a token is the argument `form`.
use codex_remote.Prelude.{
  ℕ, ℤ, pos, negsuc, String, Bool, false, not, ◌&&◌, ◌||◌, ◌≡◌, ◌≢◌, refl, ap, ◌∙◌, ◌⊎◌, Option,
  none, some, if_cases, if◌then◌else◌, ltb, ◌==◌, str_eq, arith, eq_iff,
}
use codex_remote.Errors.{Result, ok, err, invalid_argument}

pub record PageRequest : Type 0 where
  pub page_size : ℕ
  pub page_token : String

pub record PageToken : Type 0 where
  pub operation : String
  pub query : String
  pub offset : ℤ
  pub cursor : String

-- json.Marshal with base64, and back; `decode` has no value for a text that is not a token.
pub record TokenForm : Type 0 where
  pub encode : PageToken → String
  pub decode : String → Option PageToken

unfoldable pub requested_size : Option PageRequest → ℕ
requested_size none = 50
requested_size (some p) = if ltb 0 p.page_size then p.page_size else 50

unfoldable pub page_size : Option PageRequest → ℕ → ℕ
unfolding requested_size
page_size p limit = let n = requested_size p in if ltb 0 limit && ltb limit n then limit else n

unfoldable pub matching : String → String → Option PageToken → Result PageToken
matching operation query none = err invalid_argument
matching operation query (some t) =
    if not (str_eq t.operation operation) || not (str_eq t.query query)
    then err invalid_argument
    else ok t

unfoldable pub decode_page_token : TokenForm → String → String → String → Result PageToken
unfolding matching
decode_page_token form value operation query = matching operation query (form.decode value)

unfoldable pub encode_page_token : TokenForm → PageToken → String
encode_page_token form t = form.encode t

offset_page : ℤ → String → ℕ → Result (ℕ × ℕ)
offset_page (negsuc n) cursor size = err invalid_argument
offset_page (pos n) cursor size =
    if not (str_eq cursor "") then err invalid_argument else ok (n, size)

start_page : Result PageToken → ℕ → Result (ℕ × ℕ)
unfolding offset_page
start_page (err e) size = err invalid_argument
start_page (ok t) size = offset_page t.offset t.cursor size

unfoldable pub page : TokenForm → Option PageRequest → ℕ → String → String → Result (ℕ × ℕ)
unfolding start_page decode_page_token page_size
page form none limit operation query = ok (0, page_size none limit)
page form (some p) limit operation query =
    if str_eq p.page_token ""
    then ok (0, page_size (some p) limit)
    else start_page (decode_page_token form p.page_token operation query) (page_size (some p) limit)

is_zero : ℤ → Bool
is_zero (pos n) = n == 0
is_zero (negsuc n) = false

cursor_of : Result PageToken → Result String
unfolding is_zero
cursor_of (err e) = err invalid_argument
cursor_of (ok t) =
    if not (is_zero t.offset) || str_eq t.cursor "" then err invalid_argument else ok t.cursor

unfoldable pub cursor_page : TokenForm → Option PageRequest → String → String → Result String
unfolding cursor_of decode_page_token
cursor_page form none operation query = ok ""
cursor_page form (some p) operation query =
    if str_eq p.page_token ""
    then ok ""
    else cursor_of (decode_page_token form p.page_token operation query)

-- The tokens that the Host makes: an offset or a cursor, for an operation and its query.
unfoldable pub offset_token : String → String → ℕ → PageToken
offset_token operation query n = record {
  operation = operation;
  query = query;
  offset = pos n;
  cursor = "";
}

matching-own :
    (operation query : String) (t : PageToken)
    → t.operation ≡ operation
    → t.query ≡ query
    → matching operation query (some t) ≡ ok t
unfolding matching
matching-own operation query t same_operation same_query =
    ground (arith, same_operation, same_query, eq_iff t.operation operation, eq_iff t.query query)

matching-other :
    (operation query : String) (t : PageToken)
    → (t.operation ≢ operation) ⊎ (t.query ≢ query)
    → matching operation query (some t) ≡ err invalid_argument
unfolding matching
matching-other operation query t other =
    ground (arith, other, eq_iff t.operation operation, eq_iff t.query query)

page-token :
    (form : TokenForm) (p : PageRequest) (t : PageToken) (limit : ℕ) (operation query : String)
    → p.page_token ≢ ""
    → form.decode p.page_token ≡ some t
    → page form (some p) limit operation query
      ≡ start_page (matching operation query (some t)) (page_size (some p) limit)
unfolding page decode_page_token
page-token form p t limit operation query filled at =
    if_cases (λ r. r ≡ start_page (matching operation query (some t)) (page_size (some p) limit))
      (str_eq p.page_token "")
      (λ none_given. ground (arith, none_given, eq_iff p.page_token "", filled))
      (λ given. ap (λ o. start_page (matching operation query o) (page_size (some p) limit)) at)

-- A page token that the Host made for an offset is read back as that offset by the same operation
-- with the same query, if its text can be decoded and is not empty; by any other operation or
-- query it is refused.
pub page-encode_page_token :
    (form : TokenForm) (size limit n : ℕ) (operation query operation' query' : String)
    → form.decode (form.encode (offset_token operation query n))
      ≡ some (offset_token operation query n)
    → form.encode (offset_token operation query n) ≢ ""
    → (operation ≢ operation') ⊎ (query ≢ query')
    → let p : Option PageRequest = some (record {
      page_size = size;
      page_token = encode_page_token form (offset_token operation query n);
    }) in
      (page form p limit operation query ≡ ok (n, page_size p limit))
      × (page form p limit operation' query' ≡ err invalid_argument)
unfolding page decode_page_token encode_page_token offset_token start_page offset_page
page-encode_page_token form size limit n operation query operation' query' back filled other =
    let t = offset_token operation query n in
    let p : PageRequest = record { page_size = size; page_token = encode_page_token form t } in
    (
      page-token form p t limit operation query filled back
          ∙ ap (λ r. start_page r (page_size (some p) limit))
              (matching-own operation query t refl refl),
      page-token form p t limit operation' query' filled back
          ∙ ap (λ r. start_page r (page_size (some p) limit))
              (matching-other operation' query' t other),
    )
