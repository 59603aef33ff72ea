-- ===== src/Core/Fgrn/Builders.antt =====
-- What the builders of `Fgrn` make.
use forgeguard.Base.{ℕ, ◌≡◌, refl, true, ◌∷◌, ◌++◌, none, some, arith, all_mono, nat_eq, ap}
use forgeguard.Base.Text.{is_ascii_graphic}
use forgeguard.Base.Result.{ok}
use forgeguard.Core.Segment.{Segment, segment_byte}
use forgeguard.Core.NativeId
use forgeguard.Core.NativeId.{NativeId}
use forgeguard.Core.Fgrn.{
  FgrnKind, org_unit, principal, principal_set, resource, Fgrn, new, org_unit_of, principal_of,
  principal_set_of, resource_of, resource_parts, built,
}
use forgeguard.Core.Fgrn.WellFormed.{
  ValidSegment, ValidId, Shape, IsWellFormed, no_byte, all-segment_byte,
}

-- The builders of the kinds other than resource give well-formed FGRNs.
pub builders-IsWellFormed :
    (o : Segment) (id : NativeId)
    → ValidSegment o
    → ValidId id
    → IsWellFormed (org_unit_of o id)
      × IsWellFormed (principal_of o id)
      × IsWellFormed (principal_set_of o id)
unfolding org_unit_of principal_of principal_set_of
builders-IsWellFormed o id v w =
    let make : (k : FgrnKind) → Shape k none none id → IsWellFormed (new o k id none none) =
      λ k h. record { organization = v; id = w; shape = h; canonical = refl } in
    (make org_unit tt, make principal tt, make principal_set tt)

segment_byte-graphic : (b : ℕ) → segment_byte b ≡ true → is_ascii_graphic b ≡ true
segment_byte-graphic b h = ground arith

compound-valid :
    (t : Segment) (n : NativeId)
    → ValidSegment t
    → ValidId n
    → NativeId.try_new (t.raw ++ b'/' ∷ n.raw) ≡ ok (record { raw = t.raw ++ b'/' ∷ n.raw })
compound-valid t n v w = (NativeId.try_new-iff-IsValid (t.raw ++ b'/' ∷ n.raw)).1 (
    NativeId.IsValid-append t.raw b'/' n.raw
      (
        all_mono segment_byte is_ascii_graphic t.raw segment_byte-graphic
            (all-segment_byte t.raw t v),
        no_byte b':' t refl v,
        no_byte b'*' t refl v,
      )
      (refl, refl, refl) ((NativeId.try_new-iff-IsValid n.raw).0 w))

-- `Fgrn::resource` never reaches its `unreachable!`: of a valid type and a valid native id it
-- builds a well-formed FGRN of the organization, of kind resource, that has these two as its parts.
pub resource_of-IsWellFormed :
    (o t : Segment) (n : NativeId)
    → ValidSegment o
    → ValidSegment t
    → ValidId n
    → (f : Fgrn) × (resource_of o t n ≡ some f)
      × IsWellFormed f
      × (f.organization ≡ o)
      × (f.kind ≡ resource)
      × (resource_parts f ≡ some (t, n))
unfolding resource_of resource_parts
resource_of-IsWellFormed o t n v w u =
    let id : NativeId = record { raw = t.raw ++ b'/' ∷ n.raw } in
    let e = compound-valid t n w u in
    (
      new o resource id (some t) (some n),
      ap (built o t n) e,
      record { organization = v; id = e; shape = (w, u, refl); canonical = refl },
      refl,
      refl,
      refl,
    )
