-- ===== src/Core/Segment.antt =====
-- crates/core/src/segment.rs, `Segment`: a validated identifier segment.
pub mod Grammar
use forgeguard.Base.{
  ℕ, Str, String, ◌≡◌, ◌↔◌, refl, Bool, true, false, not, ◌&&◌, ◌||◌, [], ◌∷◌, all, ◌=ℕ◌, arith, Eq,
  nat_eq, list_beq, list_beq_iff, if◌then◌else◌,
}
use forgeguard.Base.Text.{is_ascii_lowercase, is_ascii_digit, ends_with, contains_pair}
use forgeguard.Base.Result.{ok, err}
use forgeguard.Core.Error.{Error, CoreResult}

pub record Segment : Type 0 where
  pub raw : Str

abbrev pub segment_beq : Segment → Segment → Bool
segment_beq a b = list_beq a.raw b.raw

pub segment_beq_iff : (a b : Segment) → (segment_beq a b ≡ true) ↔ (a ≡ b)
segment_beq_iff a b = ground (arith, list_beq_iff a.raw b.raw)

instance abbrev pub segment_eq : Eq Segment
segment_eq = record { beq = segment_beq; beq_iff = segment_beq_iff }

abbrev pub segment_byte : ℕ → Bool
segment_byte b = is_ascii_lowercase b || is_ascii_digit b || b =ℕ b'-'

abbrev segment_error : Str → String → Error
segment_error s reason = Error.parse "segment" s reason

unfoldable pub try_new : Str → CoreResult Segment
try_new [] = err (segment_error [] "cannot be empty")
try_new (b ∷ s) =
    if not (is_ascii_lowercase b) && not (is_ascii_digit b)
    then err (segment_error (b ∷ s) "must start with a lowercase letter or digit")
    else if ends_with b'-' (b ∷ s)
    then err (segment_error (b ∷ s) "must not end with a hyphen")
    else if contains_pair b'-' b'-' (b ∷ s)
    then err (segment_error (b ∷ s) "consecutive hyphens are not allowed")
    else if not (all segment_byte (b ∷ s))
    then err (segment_error (b ∷ s) "must contain only lowercase letters, digits, and hyphens")
    else ok (record { raw = b ∷ s })
