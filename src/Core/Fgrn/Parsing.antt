-- ===== src/Core/Fgrn/Parsing.antt =====
-- What `Fgrn::parse` accepts.
use forgeguard.Base.{
  Str, ◌≡◌, refl, List, [], ◌∷◌, ◌++◌, Option, some, arith, codes, nat_eq, list_beq, list_beq_iff,
  inl, inr, Bool-cases, Option-cases, sym, subst,
}
use forgeguard.Base.Text.{split_once, splitn, splitn-four_sound, split_once_sound}
use forgeguard.Base.Result.{ok, Result-cases}
use forgeguard.Core.Segment
use forgeguard.Core.Segment.{Segment, segment_byte}
use forgeguard.Core.Segment.Grammar
use forgeguard.Core.NativeId
use forgeguard.Core.NativeId.{NativeId}
use forgeguard.Core.Fgrn.{
  FgrnKind, resource, kind_str, kind_from_str, Fgrn, new, parse, parse_id, parse_parts, parse_split,
  resource_id,
}
use forgeguard.Core.Fgrn.WellFormed.{ValidSegment, ValidId, Shape, IsWellFormed}

kind_str-kind_from_str : (s : Str) (k : FgrnKind) → kind_from_str s ≡ ok k → s ≡ kind_str k
unfolding kind_from_str
kind_str-kind_from_str s k h = ground (
  arith,
  list_beq_iff s (codes "orgunit"),
  list_beq_iff s (codes "principal"),
  list_beq_iff s (codes "principal-set"),
  list_beq_iff s (codes "resource"),
)

ValidSegment-of : (s : Str) (a : Segment) → Segment.try_new s ≡ ok a → ValidSegment a × (a.raw ≡ s)
ValidSegment-of s a h =
    let e = Grammar.raw-try_new s a h in (subst (λ x. Segment.try_new x ≡ ok a) (sym e) h, e)

ValidId-of : (s : Str) (a : NativeId) → NativeId.try_new s ≡ ok a → ValidId a × (a.raw ≡ s)
ValidId-of s a h =
    let e = NativeId.raw-try_new s a h in (subst (λ x. NativeId.try_new x ≡ ok a) (sym e) h, e)

-- What `parse_id` returns has the shape of its kind.
abbrev IsParsedId : Str → FgrnKind → NativeId × Option Segment × Option NativeId → Type 0
IsParsedId i k p = ValidId p.0 × Shape k p.1 p.2 p.0 × (p.0.raw ≡ i)

resource_id-IsParsedId :
    (s i r m : Str) (p : NativeId × Option Segment × Option NativeId)
    → split_once b'/' i ≡ some (r, m)
    → resource_id s (some (r, m)) i ≡ ok p
    → IsParsedId i resource p
unfolding resource_id
resource_id-IsParsedId s i r m p e h = elim (Result-cases (Segment.try_new r)) [
  | inr (x, ha) ↦ ground arith
  | inl (a, ha) ↦ elim (Result-cases (NativeId.try_new m)) [
    | inr (x, hb) ↦ ground arith
    | inl (b, hb) ↦ elim (Result-cases (NativeId.try_new i)) [
      | inr (x, hw) ↦ ground arith
      | inl (w, hw) ↦ ground (
        arith,
        ValidSegment-of r a ha,
        ValidId-of m b hb,
        ValidId-of i w hw,
        split_once_sound b'/' i r m e,
      )
    ]
  ]
]

parse_id-IsParsedId :
    (s i : Str) (k : FgrnKind) (p : NativeId × Option Segment × Option NativeId)
    → parse_id s k i ≡ ok p
    → IsParsedId i k p
unfolding parse_id resource_id
parse_id-IsParsedId s i resource p h = elim (Option-cases (split_once b'/' i)) [
  | inl e ↦ cc (rw (e, resource_id) at h)
  | inr ((r, m), e) ↦ resource_id-IsParsedId s i r m p e (rw e at h)
]
parse_id-IsParsedId s i k p h = elim (Result-cases (NativeId.try_new i)) [
  | inr (x, hw) ↦ ground arith
  | inl (w, hw) ↦ ground (arith, ValidId-of i w hw)
]

-- The value that `parse_parts` returns on success.
abbrev assembled : Str → Segment → FgrnKind → NativeId × Option Segment × Option NativeId → Fgrn
assembled s a k p = record {
  organization = a;
  kind = k;
  id = p.0;
  resource_type = p.1;
  native_id = p.2;
  raw = s;
}

assembled-IsWellFormed :
    (s o k i : Str) (a : Segment) (kind : FgrnKind)
    (p : NativeId × Option Segment × Option NativeId)
    → s ≡ codes "fgrn" ++ b':' ∷ (o ++ b':' ∷ (k ++ b':' ∷ i))
    → Segment.try_new o ≡ ok a
    → kind_from_str k ≡ ok kind
    → IsParsedId i kind p
    → IsWellFormed (assembled s a kind p)
unfolding new
assembled-IsWellFormed s o k i a kind p e ha hk (w, shape, vi) =
    let (v, va) = ValidSegment-of o a ha in
    let vk = kind_str-kind_from_str k kind hk in
    record { organization = v; id = w; shape = shape; canonical = cc (e, va, vi, vk) }

parse_parts-IsWellFormed :
    (s o k i : Str) (f : Fgrn)
    → s ≡ codes "fgrn" ++ b':' ∷ (o ++ b':' ∷ (k ++ b':' ∷ i))
    → parse_parts s o k i ≡ ok f
    → IsWellFormed f × (f.raw ≡ s)
unfolding parse_parts new
parse_parts-IsWellFormed s o k i f e h = elim (Result-cases (Segment.try_new o)) [
  | inr (x, ha) ↦ absurd (ground arith)
  | inl (a, ha) ↦ elim (Result-cases (kind_from_str k)) [
    | inr (x, hk) ↦ absurd (ground arith)
    | inl (kind, hk) ↦ elim (Result-cases (parse_id s kind i)) [
      | inr (x, hp) ↦ absurd (ground arith)
      | inl (p, hp) ↦
          let whole : assembled s a kind p ≡ f = ground arith in
          subst (λ x. IsWellFormed x × (x.raw ≡ s)) whole
            (
              assembled-IsWellFormed s o k i a kind p e ha hk (parse_id-IsParsedId s i kind p hp),
              refl,
            )
    ]
  ]
]

-- Whatever `parse` accepts is a well-formed FGRN whose text is the input, byte for byte: every
-- position is valid, and the text is the canonical one of the positions.
pub parse-IsWellFormed : (s : Str) (f : Fgrn) → parse s ≡ ok f → IsWellFormed f × (f.raw ≡ s)
unfolding parse
parse-IsWellFormed s f h = go (splitn 4 b':' s) refl h
  where
    go :
        (parts : List Str)
        → splitn 4 b':' s ≡ parts
        → parse_split s parts ≡ ok f
        → IsWellFormed f × (f.raw ≡ s)
    go (p ∷ o ∷ k ∷ i ∷ []) e h = elim (Bool-cases (list_beq p (codes "fgrn"))) [
      | inl q ↦
          parse_parts-IsWellFormed s o k i f
            (subst (λ x. s ≡ x ++ b':' ∷ (o ++ b':' ∷ (k ++ b':' ∷ i)))
              ((list_beq_iff p (codes "fgrn")).0 q) (splitn-four_sound b':' s p o k i e))
            (rw q at h)
      | inr q ↦ cc (rw q at h)
    ]
    go _ e h = cc
