-- ===== src/Base/Text/Framing.antt =====
-- Texts that are put together with separators, as the signed bytes of the program are.
use forgeguard.Base.{
  ℕ, ◌≡◌, ◌∙◌, refl, sym, ap, ap₂, Str, false, [], ◌∷◌, ◌++◌, contains, Option, some, nat_eq,
}
use forgeguard.Base.Text.{split_once, split_once-append}

abbrev pub newline : ℕ
newline = 10

-- A text with no line break.
abbrev pub IsLine : Str → Type 0
IsLine s = contains s newline ≡ false

-- Two texts up to a separator that neither holds, with what follows it.
pub cut :
    (c : ℕ) (s t r u : Str)
    → contains s c ≡ false
    → contains t c ≡ false
    → s ++ c ∷ r ≡ t ++ c ∷ u
    → (s ≡ t) × (r ≡ u)
cut c s t r u hs ht e =
    let both : ◌≡◌ {A = Option (Str × Str)} (some (s, r)) (some (t, u)) =
      sym (split_once-append c s r hs) ∙ ap (split_once c) e ∙ split_once-append c t u ht in
    (cc, cc)

-- The same text in front of both.
pub uncut : (p s t : Str) → p ++ s ≡ p ++ t → s ≡ t
uncut [] s t e = e
uncut (b ∷ p) s t e = uncut p s t (cc)

-- The same byte behind both.
pub uncut_end : (c : ℕ) (s t : Str) → s ++ c ∷ [] ≡ t ++ c ∷ [] → s ≡ t
uncut_end c [] [] e = refl
uncut_end c [] (b ∷ []) e = absurd (cc)
uncut_end c [] (b ∷ d ∷ t) e = absurd (cc)
uncut_end c (b ∷ []) [] e = absurd (cc)
uncut_end c (b ∷ d ∷ s) [] e = absurd (cc)
uncut_end c (b ∷ s) (d ∷ t) e = ap₂ (λ x y. x ∷ y) (cc) (uncut_end c s t (cc))
