-- ===== src/Core/Segment/Grammar.antt =====
-- The texts that `Segment::try_new` accepts, described by a grammar.
use forgeguard.Base.{ℕ, Str, ◌≡◌, ◌↔◌, ◌⊎◌, Bool, true, false, ◌||◌, [], ◌∷◌, arith, all}
use forgeguard.Base.Text.{is_ascii_lowercase, is_ascii_digit, ends_with, contains_pair}
use forgeguard.Base.Result.{ok}
use forgeguard.Core.Segment.{Segment, segment_byte, try_new}

abbrev pub is_alnum : ℕ → Bool
is_alnum b = is_ascii_lowercase b || is_ascii_digit b

-- One or more words of letters and digits, with one hyphen between two: `Word` reads the first
-- byte of a word, `Rest` what may follow it.
abbrev mutual
  pub Word : Str → Type 0
  Word [] = ⊥
  Word (b ∷ s) = (is_alnum b ≡ true) × Rest s

  pub Rest : Str → Type 0
  Rest [] = Unit
  Rest (b ∷ s) = ((is_alnum b ≡ true) × Rest s) ⊎ ((b ≡ b'-') × Word s)

-- The tests of `try_new` that look past the byte `b`.
abbrev Passes : ℕ → Str → Type 0
Passes b s =
    (ends_with b'-' (b ∷ s) ≡ false)
    × (contains_pair b'-' b'-' (b ∷ s) ≡ false)
    × (all segment_byte s ≡ true)

mutual
  Passes-Rest : (b : ℕ) (s : Str) → is_alnum b ≡ true → Passes b s ↔ Rest s
  Passes-Rest b [] h = ground arith
  Passes-Rest b (c ∷ s) h = ground (arith, Passes-Rest c s, Passes-Word s)

  Passes-Word : (s : Str) → Passes b'-' s ↔ Word s
  Passes-Word [] = ground arith
  Passes-Word (b ∷ s) = ground (arith, Passes-Rest b s)

-- Whatever `try_new` returns holds the text that it was given.
pub raw-try_new : (s : Str) (seg : Segment) → try_new s ≡ ok seg → seg.raw ≡ s
unfolding try_new
raw-try_new [] seg h = cc
raw-try_new (b ∷ s) seg h = ground arith
