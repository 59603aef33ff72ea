-- ===== src/Http/Credential.antt =====
-- crates/http/src/credential.rs: credentials in HTTP headers, and the names of crates/core/src/headers.rs.
use forgeguard.Base.{
  ℕ, zero, suc, ◌+◌, ◌*◌, ◌^◌, ◌-◌, Str, Bool, not, ◌&&◌, List, [], ◌∷◌, Option, none, some, codes,
  true, leb, ltb, ◌=ℕ◌, any, find, filter, length, take, if◌then◌else◌,
}
use forgeguard.Base.Result.{Result, ok, err, ◌>>=◌}
use forgeguard.Base.Text.{starts_with, is_ascii_digit}
use forgeguard.Base.Trim.{trim, eq_ignore_ascii_case, to_ascii_lowercase}
use forgeguard.Authn.Identity.{Credential, bearer, api_key, signed_request}

abbrev pub x_fg_prefix : Str
x_fg_prefix = codes "x-fg-"

abbrev pub x_fg_org_id : Str
x_fg_org_id = codes "x-fg-org-id"

abbrev pub x_fg_trace_id : Str
x_fg_trace_id = codes "x-fg-trace-id"

abbrev pub x_fg_timestamp : Str
x_fg_timestamp = codes "x-fg-timestamp"

abbrev pub x_fg_key_id : Str
x_fg_key_id = codes "x-fg-key-id"

abbrev pub x_fg_signature : Str
x_fg_signature = codes "x-fg-signature"

abbrev pub value_of : Option (Str × Str) → Option Str
value_of none = none
value_of (some (name, value)) = some value

unfoldable pub find_header : List (Str × Str) → Str → Option Str
find_header headers name = value_of (find (λ h. eq_ignore_ascii_case h.0 name) headers)

abbrev signed_request_headers : List Str
signed_request_headers = x_fg_signature ∷ x_fg_timestamp ∷ x_fg_key_id ∷ x_fg_trace_id ∷ []

unfoldable pub is_protocol_header : Str → Bool
is_protocol_header name = any (λ h. eq_ignore_ascii_case h name) signed_request_headers

-- `str::parse::<u64>`: digits, with a plus sign in front or not, that make a number below 2 ^ 64.
digits_value : ℕ → Str → Option ℕ
digits_value n [] = some n
digits_value n (b ∷ s) =
    let m = n * 10 + (b - b'0') in
    let rest = digits_value m s in if is_ascii_digit b && ltb m (2 ^ 64) then rest else none

digits_only : Str → Option ℕ
unfolding digits_value
digits_only [] = none
digits_only (b ∷ s) = digits_value 0 (b ∷ s)

unfoldable pub parse_u64 : Str → Option ℕ
unfolding digits_only
parse_u64 [] = none
parse_u64 (b ∷ s) = if b =ℕ b'+' then digits_only s else digits_only (b ∷ s)

abbrev drop : ℕ → Str → Str
drop zero s = s
drop (suc n) [] = []
drop (suc n) (b ∷ s) = drop n s

-- `is_char_boundary` of UTF-8: not in front of a continuation byte.
abbrev pub is_char_boundary : ℕ → Str → Bool
is_char_boundary index s = elim (drop index s) [
  | [] ↦ true
  | b ∷ _ ↦ not (leb 0x80 b && leb b 0xbf)
]

-- The token of an `Authorization` header. An error is the panic of `trimmed[..7]`.
unfoldable pub bearer_token : Str → Result (Unit {0}) (Option Str)
bearer_token auth =
    let trimmed = trim auth in
    let token = trim (drop 7 trimmed) in
    if not (ltb 7 (length trimmed))
    then ok none
    else if not (is_char_boundary 7 trimmed)
    then err tt
    else if not (eq_ignore_ascii_case (take 7 trimmed) (codes "bearer "))
    then ok none
    else if length token =ℕ 0
    then ok none
    else ok (some token)

unfoldable pub api_key_text : Str → Option Str
api_key_text key = let trimmed = trim key in if length trimmed =ℕ 0 then none else some trimmed

-- `?` on an option.
abbrev and_then {ℓ κ} : {A : Type ℓ} {B : Type κ} → Option A → (A → Option B) → Option B
and_then none k = none
and_then (some a) k = k a

unfoldable pub identity_headers_of : List (Str × Str) → List (Str × Str)
identity_headers_of =
    filter (λ h. starts_with x_fg_prefix (to_ascii_lowercase h.0) && not (is_protocol_header h.0))

unfoldable pub signed_credential : List (Str × Str) → Option Credential
signed_credential headers = and_then (find_header headers x_fg_signature) λ sig.
    and_then (find_header headers x_fg_timestamp) λ ts.
      and_then (find_header headers x_fg_key_id) λ key_id.
        and_then (find_header headers x_fg_trace_id) λ trace_id.
          and_then (parse_u64 ts) λ timestamp.
            some (signed_request key_id timestamp sig trace_id (identity_headers_of headers))

-- What a request without a bearer token has.
unfoldable pub other_credential : List (Str × Str) → Option Credential
other_credential headers = elim (and_then (find_header headers (codes "x-api-key")) api_key_text) [
  | some key ↦ some (api_key key)
  | none ↦ signed_credential headers
]

-- An error is a panic.
unfoldable pub extract_credential : List (Str × Str) → Result (Unit {0}) (Option Credential)
unfolding other_credential
extract_credential headers = do
  token ← elim (find_header headers (codes "authorization")) [
    | none ↦ ok none
    | some auth ↦ bearer_token auth
  ]
  ok (elim token [ some text ↦ some (bearer text) | none ↦ other_credential headers ])
