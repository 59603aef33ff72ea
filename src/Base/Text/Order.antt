-- ===== src/Base/Text/Order.antt =====
-- The order of `str`, byte by byte.
use forgeguard.Base.{Str, Bool, true, false, ◌≡◌, refl, [], ◌∷◌, ltb, if◌then◌else◌, arith}

-- Whether the first text comes before the second, or is the second.
abbrev pub text_le : Str → Str → Bool
text_le [] t = true
text_le (a ∷ s) [] = false
text_le (a ∷ s) (b ∷ t) =
    let rest = text_le s t in if ltb a b then true else if ltb b a then false else rest

pub text_le_total : (s t : Str) → text_le s t ≡ false → text_le t s ≡ true
text_le_total [] t h = cc
text_le_total (a ∷ s) [] h = refl
text_le_total (a ∷ s) (b ∷ t) h = ground (arith, text_le_total s t)
