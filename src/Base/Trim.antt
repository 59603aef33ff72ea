-- ===== src/Base/Trim.antt =====
-- `str::trim` and ASCII case, over the UTF-8 bytes of a text.
use Prim.Native.Nat.{ℕ, zero, suc, ◌+◌, ◌-◌}
use mathlib.Core.Bool.{Bool, ◌&&◌, ◌||◌}
use mathlib.Core.List.{[], ◌∷◌, map, reverse}
use forgeguard.Base.Tests.{leb, ◌=ℕ◌, if◌then◌else◌}
use forgeguard.Base.Lists.{Str}
use forgeguard.Base.Equality.{list_beq, nat_eq}
use forgeguard.Base.Text.{is_ascii_uppercase, is_ascii_lowercase}

unfoldable pub to_ascii_lowercase : Str → Str
to_ascii_lowercase = map (λ b. if is_ascii_uppercase b then b + 32 else b)

unfoldable pub to_ascii_uppercase : Str → Str
to_ascii_uppercase = map (λ b. if is_ascii_lowercase b then b - 32 else b)

unfoldable pub eq_ignore_ascii_case : Str → Str → Bool
unfolding to_ascii_lowercase
eq_ignore_ascii_case s t = list_beq (to_ascii_lowercase s) (to_ascii_lowercase t)

abbrev is_ascii_space : ℕ → Bool
is_ascii_space b = (leb 9 b && leb b 13) || b =ℕ 32

-- The third byte of a space whose first two are 0xe2 0x80.
abbrev is_general_space : ℕ → Bool
is_general_space b = (leb 0x80 b && leb b 0x8a) || (b =ℕ 0xa8 || (b =ℕ 0xa9 || b =ℕ 0xaf))

abbrev is_space_of_two : ℕ → ℕ → Bool
is_space_of_two a b = a =ℕ 0xc2 && (b =ℕ 0x85 || b =ℕ 0xa0)

abbrev is_space_of_three : ℕ → ℕ → ℕ → Bool
is_space_of_three a b c =
    (a =ℕ 0xe1 && (b =ℕ 0x9a && c =ℕ 0x80))
    || ((a =ℕ 0xe2 && (b =ℕ 0x80 && is_general_space c))
        || ((a =ℕ 0xe2 && (b =ℕ 0x81 && c =ℕ 0x9f)) || (a =ℕ 0xe3 && (b =ℕ 0x80 && c =ℕ 0x80))))

-- The bytes of the character in front, if it is white space, and 0 if it is not.
abbrev space_in_front : Str → ℕ
space_in_front [] = 0
space_in_front (a ∷ []) = if is_ascii_space a then 1 else 0
space_in_front (a ∷ b ∷ []) = if is_ascii_space a then 1 else if is_space_of_two a b then 2 else 0
space_in_front (a ∷ b ∷ c ∷ s) =
    if is_ascii_space a
    then 1
    else if is_space_of_two a b
    then 2
    else if is_space_of_three a b c
    then 3
    else 0

-- The same of the last character, in a text that is read backwards.
abbrev space_at_end : Str → ℕ
space_at_end [] = 0
space_at_end (a ∷ []) = if is_ascii_space a then 1 else 0
space_at_end (b ∷ a ∷ []) = if is_ascii_space b then 1 else if is_space_of_two a b then 2 else 0
space_at_end (c ∷ b ∷ a ∷ s) =
    if is_ascii_space c
    then 1
    else if is_space_of_two b c
    then 2
    else if is_space_of_three a b c
    then 3
    else 0

-- Drops the rest of a character of which some bytes are left, and the white space after it.
strip : (Str → ℕ) → ℕ → Str → Str
strip space left [] = []
strip space (suc left) (b ∷ s) = strip space left s
strip space zero (b ∷ s) = elim (space (b ∷ s)) [ zero ↦ b ∷ s | suc left ↦ strip space left s ]

unfoldable pub trim : Str → Str
unfolding strip
trim s = reverse (strip space_at_end 0 (reverse (strip space_in_front 0 s)))
