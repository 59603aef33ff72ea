-- ===== src/Authn/Signing/Framing.antt =====
-- What a signed request's bytes determine.
use forgeguard.Base.{
  subst, ℕ, ◌<◌, ◌^◌, ◌≡◌, refl, sym, ap₂, Str, false, List, [], ◌∷◌, ◌++◌, codes, All, contains,
  nat_eq, arith, Bool-cases, inl, inr,
}
use forgeguard.Base.Text.{decimal}
use forgeguard.Base.Text.Framing.{newline, cut, uncut}
use forgeguard.Base.Text.Decimal.{decimal_inj, contains-decimal}
use mathlib.Core.List.{Perm}
use mathlib.Core.List.Perm
use forgeguard.Authn.Signing.{canonical_payload, header_lines, sort_headers, put_header}
use forgeguard.Base.Text.Order.{text_le}

-- What an HTTP header can be: a name with no colon, and no line break.
abbrev pub IsHeader : Str × Str → Type 0
IsHeader (name, value) = (contains name b':' ≡ false) × (contains value newline ≡ false)

header_lines_inj :
    (h k : List (Str × Str))
    → All IsHeader h
    → All IsHeader k
    → header_lines h ≡ header_lines k
    → h ≡ k
header_lines_inj [] [] vh vk e = refl
header_lines_inj [] ((n, v) ∷ k) vh vk e = absurd (nonempty n (v ++ newline ∷ header_lines k) e)
  where
    nonempty : (n r : Str) → [] ≡ n ++ b':' ∷ r → ⊥
    nonempty [] r e = cc
    nonempty (b ∷ n) r e = cc
header_lines_inj ((n, v) ∷ h) [] vh vk e =
    absurd (nonempty n (v ++ newline ∷ header_lines h) (sym e))
  where
    nonempty : (n r : Str) → [] ≡ n ++ b':' ∷ r → ⊥
    nonempty [] r e = cc
    nonempty (b ∷ n) r e = cc
header_lines_inj ((n, v) ∷ h) ((m, w) ∷ k) ((hn, hv), vh) ((km, kw), vk) e =
    let (same_name, rest) = cut b':' n m _ _ hn km e in
    let (same_value, rest') = cut newline v w _ _ hv kw rest in
    ap₂ (λ x y. x ∷ y) (ap₂ (λ x y. (x, y)) same_name same_value) (header_lines_inj h k vh vk rest')

All-put_header :
    (h : Str × Str) (headers : List (Str × Str))
    → IsHeader h
    → All IsHeader headers
    → All IsHeader (put_header h headers)
unfolding put_header
All-put_header h [] v vs = (v, tt)
All-put_header h (g ∷ headers) v (vg, vs) = elim (Bool-cases (text_le h.0 g.0)) [
  | inl y ↦ rw (y, put_header) (v, (vg, vs))
  | inr n ↦ rw (n, put_header) (vg, All-put_header h headers v vs)
]

All-sort_headers :
    (headers : List (Str × Str)) → All IsHeader headers → All IsHeader (sort_headers headers)
unfolding sort_headers
All-sort_headers [] vs = tt
All-sort_headers (h ∷ headers) (v, vs) =
    All-put_header h (sort_headers headers) v (All-sort_headers headers vs)

put_header-perm :
    (h : Str × Str) (headers : List (Str × Str)) → Perm (put_header h headers) (h ∷ headers)
unfolding put_header
put_header-perm h [] = Perm.rfl
put_header-perm h (g ∷ headers) = elim (Bool-cases (text_le h.0 g.0)) [
  | inl y ↦ rw (y, put_header) Perm.rfl
  | inr n ↦
      rw (n, put_header)
        (Perm.trans (Perm.cons g (put_header-perm h headers)) (Perm.swap h g headers))
]

-- Sorting drops no header and makes up none.
sort_headers-perm : (headers : List (Str × Str)) → Perm (sort_headers headers) headers
unfolding sort_headers
sort_headers-perm [] = Perm.rfl
sort_headers-perm (h ∷ headers) =
    Perm.trans (put_header-perm h (sort_headers headers)) (Perm.cons h (sort_headers-perm headers))

-- A signature covers the request's trace id, its timestamp and its identity headers: if two requests
-- have the same canonical bytes, these are the same, the headers up to their order: each as often in
-- the one as in the other. No line break is
-- in a trace id or a header value, no colon in a header name, and the timestamps are `u64`.
pub canonical_payload_inj :
    (trace trace' : Str) (timestamp timestamp' : ℕ) (headers headers' : List (Str × Str))
    → contains trace newline ≡ false
    → contains trace' newline ≡ false
    → timestamp < 2 ^ 64
    → timestamp' < 2 ^ 64
    → All IsHeader headers
    → All IsHeader headers'
    → canonical_payload trace timestamp headers ≡ canonical_payload trace' timestamp' headers'
    → (trace ≡ trace') × (timestamp ≡ timestamp') × Perm headers headers'
unfolding canonical_payload
canonical_payload_inj t t' n n' h h' ct ct' b b' vh vh' e =
    let after_version = uncut (codes "forgeguard-sig-v1" ++ newline ∷ []) _ _ e in
    let (same_trace, rest) =
      cut newline t t' _ _ ct ct' (uncut (codes "trace-id:") _ _ after_version) in
    let (same_time, lines) =
      cut newline (decimal n) (decimal n') _ _ (contains-decimal newline n (omega arith))
        (contains-decimal newline n' (omega arith)) (uncut (codes "timestamp:") _ _ rest) in
    let same_headers =
      header_lines_inj (sort_headers h) (sort_headers h') (All-sort_headers h vh)
        (All-sort_headers h' vh') lines in
    (
      same_trace,
      decimal_inj n n' b b' same_time,
      Perm.trans (Perm.symm (sort_headers-perm h))
          (subst (λ l. Perm l h') (sym same_headers) (sort_headers-perm h')),
    )
