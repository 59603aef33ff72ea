-- ===== src/Base/Text.antt =====
-- What the program uses of `str` and `u8`, over the bytes of a text.
pub mod Decimal
pub mod Framing
pub mod Order
use Prim.Native.Char.{code}
use Prim.Native.String.{String}
use Prim.Native.Nat.{ℕ, zero, suc, ◌+◌, ◌%◌, ◌/◌}
use mathlib.Core.Path.{◌≡◌, refl}
use mathlib.Core.Bool.{Bool, true, false, ◌&&◌, ◌||◌}
use mathlib.Core.List.{List, [], ◌∷◌, ◌++◌}
use mathlib.Core.Logic.{inl, inr}
use mathlib.Core.Option.{Option, none, some}
use native.Mathlib.Omega.{arith}
use forgeguard.Base.Tests.{leb, ltb, ◌=ℕ◌, if◌then◌else◌, Option-cases}
use forgeguard.Base.Lists.{Str, all}
use forgeguard.Base.Equality.{nat_eq, contains}

abbrev pub is_ascii_lowercase : ℕ → Bool
is_ascii_lowercase b = leb b'a' b && leb b b'z'

abbrev pub is_ascii_uppercase : ℕ → Bool
is_ascii_uppercase b = leb b'A' b && leb b b'Z'

abbrev pub is_ascii_digit : ℕ → Bool
is_ascii_digit b = leb b'0' b && leb b b'9'

abbrev pub is_ascii_graphic : ℕ → Bool
is_ascii_graphic b = leb 0x21 b && leb b 0x7e

-- `ends_with(c)` for one byte.
abbrev pub ends_with : ℕ → Str → Bool
ends_with c [] = false
ends_with c (b ∷ []) = b =ℕ c
ends_with c (b ∷ d ∷ s) = ends_with c (d ∷ s)

-- `contains` for two bytes in a row.
abbrev pub contains_pair : ℕ → ℕ → Str → Bool
contains_pair c d [] = false
contains_pair c d (a ∷ []) = false
contains_pair c d (a ∷ b ∷ s) = (a =ℕ c && b =ℕ d) || contains_pair c d (b ∷ s)

-- Puts one byte before the first part.
abbrev pub on_first : ℕ → Option (Str × Str) → Option (Str × Str)
on_first b none = none
on_first b (some (s, r)) = some (b ∷ s, r)

-- `split_once(c)`: what stands before and after the first `c`.
unfoldable pub split_once : ℕ → Str → Option (Str × Str)
split_once c [] = none
split_once c (b ∷ s) = if b =ℕ c then some ([], s) else on_first b (split_once c s)

-- `splitn(n, c)`: at most `n` parts, the last with all that is left.
unfoldable pub splitn : ℕ → ℕ → Str → List Str
splitn zero c s = []
splitn (suc zero) c s = s ∷ []
splitn (suc (suc n)) c s = elim (split_once c s) [
  | none ↦ s ∷ []
  | some (a, r) ↦ a ∷ splitn (suc n) c r
]

-- A text without the separator in front of it is the first part.
pub split_once-append :
    (c : ℕ) (s r : Str) → contains s c ≡ false → split_once c (s ++ c ∷ r) ≡ some (s, r)
unfolding split_once
split_once-append c [] r h = ground arith
split_once-append c (b ∷ s) r h = ground (arith, split_once-append c s r)

pub split_once-none : (c : ℕ) (s : Str) → contains s c ≡ false → split_once c s ≡ none
unfolding split_once
split_once-none c [] h = refl
split_once-none c (b ∷ s) h = ground (arith, split_once-none c s)

-- The parts and the separator make up the text again, and the first part does not hold it.
pub split_once_sound :
    (c : ℕ) (s a r : Str) → split_once c s ≡ some (a, r) → (s ≡ a ++ c ∷ r) × (contains a c ≡ false)
unfolding split_once
split_once_sound c [] a r h = cc
split_once_sound c (b ∷ s) a r h = go (split_once c s) (split_once_sound c s) h
  where
    go :
        (o : Option (Str × Str))
        → ((a r : Str) → o ≡ some (a, r) → (s ≡ a ++ c ∷ r) × (contains a c ≡ false))
        → (if b =ℕ c then some ([], s) else on_first b o) ≡ some (a, r)
        → (b ∷ s ≡ a ++ c ∷ r) × (contains a c ≡ false)
    go none ih h = ground arith
    go (some (a', r')) ih h = ground (arith, ih a' r' refl)

pub all-contains-false :
    (p : ℕ → Bool) (c : ℕ) (s : Str) → p c ≡ false → all p s ≡ true → contains s c ≡ false
all-contains-false p c [] h a = refl
all-contains-false p c (b ∷ s) h a = ground (arith, all-contains-false p c s h)

-- Four parts of which the first three do not hold the separator.
pub splitn-four :
    (c : ℕ) (p q r s : Str)
    → contains p c ≡ false
    → contains q c ≡ false
    → contains r c ≡ false
    → splitn 4 c (p ++ c ∷ (q ++ c ∷ (r ++ c ∷ s))) ≡ p ∷ q ∷ r ∷ s ∷ []
unfolding splitn
splitn-four c p q r s hp hq hr = ground (
  arith,
  split_once-append c p (q ++ c ∷ (r ++ c ∷ s)) hp,
  split_once-append c q (r ++ c ∷ s) hq,
  split_once-append c r s hr,
)

-- Text that `splitn` cuts into four parts is these parts with the separator between them.
pub splitn-four_sound :
    (c : ℕ) (t p q r s : Str)
    → splitn 4 c t ≡ p ∷ q ∷ r ∷ s ∷ []
    → t ≡ p ++ c ∷ (q ++ c ∷ (r ++ c ∷ s))
unfolding splitn
splitn-four_sound c t p q r s h = elim (Option-cases (split_once c t)) [
  | inl e ↦ cc (rw (e, splitn) at h)
  | inr ((p', t'), e) ↦ elim (Option-cases (split_once c t')) [
    | inl e' ↦ ground (arith, e, e')
    | inr ((q', t''), e') ↦ elim (Option-cases (split_once c t'')) [
      | inl e'' ↦ ground (arith, e, e', e'')
      | inr ((r', s'), e'') ↦ ground (
        arith,
        e,
        e',
        e'',
        split_once_sound c t p' t' e,
        split_once_sound c t' q' t'' e',
        split_once_sound c t'' r' s' e'',
      )
    ]
  ]
]

-- The decimal digits of `n` in front of `acc`, at most `rounds` of them.
decimal_from : ℕ → ℕ → Str → Str
decimal_from zero n acc = acc
decimal_from (suc rounds) n acc =
    let digits = (b'0' + n % 10) ∷ acc in
    let more = decimal_from rounds (n / 10) digits in if n / 10 =ℕ 0 then digits else more

-- How a `u64` is displayed: it has at most 20 digits.
unfoldable pub decimal : ℕ → Str
unfolding decimal_from
decimal n = decimal_from 20 n []

-- Three parts, none of which holds the separator.
pub splitn-three :
    (c : ℕ) (p q r : Str)
    → contains p c ≡ false
    → contains q c ≡ false
    → contains r c ≡ false
    → splitn 4 c (p ++ c ∷ (q ++ c ∷ r)) ≡ p ∷ q ∷ r ∷ []
unfolding splitn
splitn-three c p q r hp hq hr = ground (
  arith,
  split_once-append c p (q ++ c ∷ r) hp,
  split_once-append c q r hq,
  split_once-none c r hr,
)

-- Text that `splitn` cuts into three parts is these parts with the separator between them.
pub splitn-three_sound :
    (c : ℕ) (t p q r : Str) → splitn 4 c t ≡ p ∷ q ∷ r ∷ [] → t ≡ p ++ c ∷ (q ++ c ∷ r)
unfolding splitn
splitn-three_sound c t p q r h = elim (Option-cases (split_once c t)) [
  | inl e ↦ ground (arith, e)
  | inr ((p', t'), e) ↦ elim (Option-cases (split_once c t')) [
    | inl e' ↦ ground (arith, e, e')
    | inr ((q', t''), e') ↦ elim (Option-cases (split_once c t'')) [
      | inl e'' ↦
          ground (arith, e, e', e'', split_once_sound c t p' t' e, split_once_sound c t' q' t'' e')
      | inr ((r', s'), e'') ↦ ground (arith, e, e', e'')
    ]
  ]
]

-- The UTF-8 bytes of a code point, and of a literal.
abbrev utf8_char : ℕ → Str → Str
utf8_char c rest =
    if ltb c 0x80
    then c ∷ rest
    else if ltb c 0x800
    then (0xc0 + c / 64) ∷ (0x80 + c % 64) ∷ rest
    else if ltb c 0x10000
    then (0xe0 + c / 4096) ∷ (0x80 + c / 64 % 64) ∷ (0x80 + c % 64) ∷ rest
    else (0xf0 + c / 262144)
      ∷ (0x80 + c / 4096 % 64)
      ∷ (0x80 + c / 64 % 64)
      ∷ (0x80 + c % 64)
      ∷ rest

abbrev pub utf8 : String → Str
utf8 (String.◌∷◌ b rest) = utf8_char (code b) (utf8 rest)
utf8 String.[] = []

-- `strip_prefix` at a text.
abbrev pub strip_text : Str → Str → Option Str
strip_text [] s = some s
strip_text (p ∷ prefix) [] = none
strip_text (p ∷ prefix) (b ∷ s) = if p =ℕ b then strip_text prefix s else none

abbrev pub starts_with : Str → Str → Bool
starts_with prefix s = elim (strip_text prefix s) [ none ↦ false | some _ ↦ true ]
