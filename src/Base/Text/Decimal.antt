-- ===== src/Base/Text/Decimal.antt =====
-- Reading back the decimal digits of a number.
use Prim.Native.Nat.{ℕ, zero, suc, ◌+◌, ◌*◌, ◌/◌, ◌%◌, ◌-◌, ◌<◌, ◌^◌}
use mathlib.Core.Path.{◌≡◌, refl, ◌∙◌, sym, ap}
use mathlib.Core.Logic.{inl, inr}
use mathlib.Core.Bool.{false}
use mathlib.Core.List.{[], ◌∷◌}
use native.Mathlib.Omega.{arith}
use forgeguard.Base.Tests.{◌=ℕ◌, Bool-cases}
use forgeguard.Base.Lists.{Str}
use forgeguard.Base.Equality.{contains, nat_eq}
use forgeguard.Base.Text.{decimal, decimal_from}

-- Reads digits after those that make `n`.
abbrev number_from : ℕ → Str → ℕ
number_from n [] = n
number_from n (b ∷ s) = number_from (n * 10 + (b - b'0')) s

-- The least number that has more digits.
abbrev digits_bound : ℕ → ℕ
digits_bound zero = 1
digits_bound (suc rounds) = 10 * digits_bound rounds

number_from-decimal_from :
    (rounds n : ℕ) (acc : Str)
    → n < digits_bound rounds
    → number_from 0 (decimal_from rounds n acc) ≡ number_from n acc
unfolding decimal_from
number_from-decimal_from zero n acc h = ap (λ k. number_from k acc) (omega arith)
number_from-decimal_from (suc rounds) n acc h = elim (Bool-cases (n / 10 =ℕ 0)) [
  | inl y ↦ rw (y, decimal_from) (ap (λ k. number_from k acc) (ground arith))
  | inr f ↦
      rw (f, decimal_from)
        (number_from-decimal_from rounds (n / 10) ((b'0' + n % 10) ∷ acc) (omega arith)
          ∙ ap (λ k. number_from k acc) (omega arith))
]

-- A `u64` is read back from its digits.
pub decimal_inj : (m n : ℕ) → m < 2 ^ 64 → n < 2 ^ 64 → decimal m ≡ decimal n → m ≡ n
unfolding decimal
decimal_inj m n hm hn e =
    sym (number_from-decimal_from 20 m [] (omega arith))
    ∙ ap (number_from 0) e
    ∙ number_from-decimal_from 20 n [] (omega arith)

contains-decimal_from :
    (c rounds n : ℕ) (acc : Str)
    → c < b'0'
    → contains (decimal_from rounds n acc) c ≡ contains acc c
unfolding decimal_from
contains-decimal_from c zero n acc h = refl
contains-decimal_from c (suc rounds) n acc h =
    ground (arith, contains-decimal_from c rounds (n / 10) ((b'0' + n % 10) ∷ acc))

-- The digits hold no byte below them.
pub contains-decimal : (c n : ℕ) → c < b'0' → contains (decimal n) c ≡ false
unfolding decimal
contains-decimal c n h = contains-decimal_from c 20 n [] h
