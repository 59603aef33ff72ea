-- ===== src/Core/Verb.antt =====
-- crates/core/src/verb.rs: the action words of grants.
use forgeguard.Base.{
  ℕ, Str, ◌≡◌, ◌↔◌, ◌≤◌, Bool, true, not, ◌||◌, [], ◌∷◌, all, ◌=ℕ◌, arith, Eq, nat_eq, list_beq,
  list_beq_iff, if◌then◌else◌, length, ltb,
}
use forgeguard.Base.Text.{is_ascii_lowercase, is_ascii_digit}
use forgeguard.Base.Result.{ok, err}
use forgeguard.Core.Error.{Error, CoreResult}

pub record Verb : Type 0 where
  pub raw : Str

abbrev pub verb_beq : Verb → Verb → Bool
verb_beq a b = list_beq a.raw b.raw

pub verb_beq_iff : (a b : Verb) → (verb_beq a b ≡ true) ↔ (a ≡ b)
verb_beq_iff a b = ground (arith, list_beq_iff a.raw b.raw)

instance abbrev pub verb_eq : Eq Verb
verb_eq = record { beq = verb_beq; beq_iff = verb_beq_iff }

abbrev verb_byte : ℕ → Bool
verb_byte c = is_ascii_lowercase c || is_ascii_digit c || c =ℕ b'-'

unfoldable pub try_new : Str → CoreResult Verb
try_new [] = err (Error.parse "verb" [] "must not be empty")
try_new (c ∷ s) =
    if ltb 64 (length (c ∷ s))
    then err (Error.parse "verb" (c ∷ s) "must be at most 64 characters")
    else if not (is_ascii_lowercase c)
    then err (Error.parse "verb" (c ∷ s) "must start with a lowercase letter")
    else if not (all verb_byte (c ∷ s))
    then err (Error.parse "verb" (c ∷ s) "must contain only lowercase letters, digits, and hyphens")
    else ok (record { raw = c ∷ s })

-- A lowercase letter, then at most 63 letters, digits and hyphens.
abbrev pub IsVerb : Str → Type 0
IsVerb [] = ⊥
IsVerb (c ∷ s) = (is_ascii_lowercase c ≡ true) × (all verb_byte s ≡ true) × (length s ≤ 63)

pub try_new-iff-IsVerb : (s : Str) → (try_new s ≡ ok (record { raw = s })) ↔ IsVerb s
unfolding try_new
try_new-iff-IsVerb [] = ground arith
try_new-iff-IsVerb (c ∷ s) = ground arith
