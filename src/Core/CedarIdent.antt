-- ===== src/Core/CedarIdent.antt =====
-- crates/core/src/cedar_ident.rs, `CedarIdent`: identifiers of the Cedar policy language, and
-- `Segment::to_cedar_ident` of crates/core/src/segment.rs.
pub mod Laws
use forgeguard.Base.{
  ℕ, Str, Bool, true, false, not, ◌&&◌, ◌||◌, List, [], ◌∷◌, all, ◌=ℕ◌, if◌then◌else◌, map,
}
use forgeguard.Base.Text.{is_ascii_lowercase, is_ascii_uppercase, is_ascii_digit}
use forgeguard.Base.Result.{ok, err}
use forgeguard.Core.Error.{Error, CoreResult}
use forgeguard.Core.Segment.{Segment}

pub record CedarIdent : Type 0 where
  pub raw : Str

abbrev pub is_ascii_alphabetic : ℕ → Bool
is_ascii_alphabetic b = is_ascii_lowercase b || is_ascii_uppercase b

abbrev pub ident_byte : ℕ → Bool
ident_byte b = b =ℕ b'_' || (is_ascii_alphabetic b || is_ascii_digit b)

-- `CedarIdent::new`
unfoldable pub ident_new : Str → CoreResult CedarIdent
ident_new [] = err (Error.parse "cedar_ident" [] "cannot be empty")
ident_new (b ∷ s) =
    if not (b =ℕ b'_') && not (is_ascii_alphabetic b)
    then err (Error.parse "cedar_ident" (b ∷ s) "must start with an underscore or ASCII letter")
    else if not (all ident_byte (b ∷ s))
    then err (
        Error.parse "cedar_ident" (b ∷ s)
          "must contain only underscores, ASCII letters, and digits")
    else ok (record { raw = b ∷ s })

-- `str::replace` of one byte by another.
abbrev pub replace : ℕ → ℕ → Str → Str
replace a b [] = []
replace a b (c ∷ s) = (if c =ℕ a then b else c) ∷ replace a b s

unfoldable pub to_cedar_ident : Segment → CedarIdent
to_cedar_ident s = record { raw = replace b'-' b'_' s.raw }
