-- ===== src/Core/Fgrn/RoundTrip.antt =====
-- Reading back the text of a well-formed FGRN.
use forgeguard.Base.{
  Str, ◌≡◌, ◌∙◌, refl, false, [], ◌∷◌, ◌++◌, Option, none, some, contains, codes, nat_eq, ap,
}
use forgeguard.Base.Text.{split_once, splitn, splitn-four, split_once-append}
use forgeguard.Base.Result.{ok}
use forgeguard.Core.Segment.{Segment}
use forgeguard.Core.NativeId.{NativeId}
use forgeguard.Core.Fgrn.{
  FgrnKind, org_unit, principal, principal_set, resource, kind_str, kind_from_str, Fgrn, new, parse,
  parse_id, parse_parts, resource_id,
}
use forgeguard.Core.Fgrn.WellFormed.{ValidSegment, ValidId, Shape, IsWellFormed, no_byte}

kind_from_str-kind_str : (k : FgrnKind) → kind_from_str (kind_str k) ≡ ok k
unfolding kind_from_str
kind_from_str-kind_str org_unit = refl
kind_from_str-kind_str principal = refl
kind_from_str-kind_str principal_set = refl
kind_from_str-kind_str resource = refl

kind_str-no_colon : (k : FgrnKind) → contains (kind_str k) b':' ≡ false
kind_str-no_colon org_unit = refl
kind_str-no_colon principal = refl
kind_str-no_colon principal_set = refl
kind_str-no_colon resource = refl

split_once-resource :
    (a : Segment) (b id : NativeId)
    → ValidSegment a
    → id.raw ≡ a.raw ++ b'/' ∷ b.raw
    → split_once b'/' id.raw ≡ some (a.raw, b.raw)
split_once-resource a b id va e =
    ap (split_once b'/') e ∙ split_once-append b'/' a.raw b.raw (no_byte b'/' a refl va)

parse_id-eq :
    (k : FgrnKind) (t : Option Segment) (n : Option NativeId) (id : NativeId) (s : Str)
    → ValidId id
    → Shape k t n id
    → parse_id s k id.raw ≡ ok (id, t, n)
unfolding parse_id resource_id
parse_id-eq resource (some a) (some b) id s v (va, vb, e) =
    rw (split_once-resource a b id va e) (rw (va, vb, v) refl)
parse_id-eq resource (some a) none id s v h = absurd h
parse_id-eq resource none t id s v h = absurd h
parse_id-eq _ none none id s v h = rw v refl
parse_id-eq _ _ _ id s v h = absurd h

splitn-canonical :
    (a : Segment) (k : FgrnKind) (id : NativeId) (t : Option Segment) (n : Option NativeId)
    → ValidSegment a
    → splitn 4 b':' (new a k id t n).raw ≡ codes "fgrn" ∷ a.raw ∷ kind_str k ∷ id.raw ∷ []
unfolding new
splitn-canonical a k id t n va =
    splitn-four b':' (codes "fgrn") a.raw (kind_str k) id.raw refl (no_byte b':' a refl va)
      (kind_str-no_colon k)

parse_parts-eq :
    (f : Fgrn) (s : Str)
    → IsWellFormed f
    → parse_parts s f.organization.raw (kind_str f.kind) f.id.raw ≡ ok (record f { raw = s })
unfolding parse_parts
parse_parts-eq f s w =
    rw
      (
        w.organization,
        kind_from_str-kind_str f.kind,
        parse_id-eq f.kind f.resource_type f.native_id f.id s w.id w.shape,
      )
      refl

-- A well-formed FGRN is read back from its text: `parse` after `to_string` returns it whole.
pub parse-raw : (f : Fgrn) → IsWellFormed f → parse f.raw ≡ ok f
unfolding parse
parse-raw f w =
    rw
      (ap (λ (x : Fgrn). splitn 4 b':' x.raw) w.canonical
        ∙ splitn-canonical f.organization f.kind f.id f.resource_type f.native_id w.organization)
      (parse_parts-eq f f.raw w)
