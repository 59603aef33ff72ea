-- ===== src/Authn/Signing.antt =====
-- crates/authn-core/src/signing.rs: the bytes that a signed request signs, and the window of its
-- timestamp. The signature scheme is a parameter, ed25519-dalek.
pub mod Framing
use forgeguard.Base.{
  ℕ, ◌-◌, ◌+◌, Str, Bool, true, false, not, List, [], ◌∷◌, ◌++◌, codes, ltb, if◌then◌else◌, Option,
  none, some,
}
use forgeguard.Base.Text.{decimal, strip_text}
use forgeguard.Base.Text.Framing.{newline}
use forgeguard.Base.Text.Order.{text_le}
use forgeguard.Base.Result.{ok, err, ◌>>=◌, ◌>>◌, ensure}
use forgeguard.Authn.Error.{Error, AuthnResult}

-- `KeyId::try_from`
unfoldable pub key_id_new : Str → AuthnResult Str
key_id_new [] = err Error.invalid_key_id
key_id_new (b ∷ s) = ok (b ∷ s)

-- `sort_by_key` by name, which is stable.
unfoldable pub put_header : Str × Str → List (Str × Str) → List (Str × Str)
put_header h [] = h ∷ []
put_header h (g ∷ headers) = if text_le h.0 g.0 then h ∷ g ∷ headers else g ∷ put_header h headers

unfoldable pub sort_headers : List (Str × Str) → List (Str × Str)
sort_headers [] = []
sort_headers (h ∷ headers) = put_header h (sort_headers headers)

-- "{name}:{value}\n" for each header, in front of `rest`.
abbrev pub header_lines : List (Str × Str) → Str
header_lines [] = []
header_lines ((name, value) ∷ headers) = name ++ b':' ∷ (value ++ newline ∷ header_lines headers)

-- `CanonicalPayload::new`
unfoldable pub canonical_payload : Str → ℕ → List (Str × Str) → Str
canonical_payload trace_id timestamp headers =
    codes "forgeguard-sig-v1"
    ++ newline
      ∷ (codes "trace-id:"
          ++ (trace_id
              ++ newline
                ∷ (codes "timestamp:"
                    ++ (decimal timestamp ++ newline ∷ header_lines (sort_headers headers)))))

-- `u64::abs_diff`
abbrev pub abs_diff : ℕ → ℕ → ℕ
abs_diff a b = if ltb a b then b - a else a - b

-- `TimestampValidator::check`
unfoldable pub check_timestamp : ℕ → ℕ → ℕ → AuthnResult (Unit {0})
check_timestamp max_drift request_ts now =
    ensure (not (ltb max_drift (abs_diff request_ts now)))
      (Error.timestamp_drift (abs_diff request_ts now))
