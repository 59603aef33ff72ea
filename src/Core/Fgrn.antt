-- ===== src/Core/Fgrn.antt =====
-- crates/core/src/fgrn.rs: `fgrn:{organization}:{type}:{id}`, the stable names of entities.
pub mod WellFormed
pub mod RoundTrip
pub mod Parsing
pub mod Builders
use forgeguard.Base.{
  ℕ, Str, String, ◌≡◌, ◌↔◌, Bool, true, false, ◌&&◌, List, [], ◌∷◌, ◌++◌, Option, none, some, arith,
  Eq, nat_eq, codes, list_beq, list_beq_iff, option_beq, option_beq_iff, if◌then◌else◌,
}
use forgeguard.Base.Text.{split_once, splitn}
use forgeguard.Base.Result.{ok, err, ◌>>=◌}
use forgeguard.Core.Error.{Error, CoreResult}
use forgeguard.Core.Segment
use forgeguard.Core.Segment.{Segment, segment_eq, segment_beq, segment_beq_iff}
use forgeguard.Core.NativeId
use forgeguard.Core.NativeId.{NativeId, native_id_eq, native_id_beq, native_id_beq_iff}

pub data FgrnKind : Type 0 where
  org_unit principal principal_set resource : FgrnKind

abbrev pub kind_str : FgrnKind → Str
kind_str org_unit = codes "orgunit"
kind_str principal = codes "principal"
kind_str principal_set = codes "principal-set"
kind_str resource = codes "resource"

abbrev pub kind_beq : FgrnKind → FgrnKind → Bool
kind_beq org_unit org_unit = true
kind_beq principal principal = true
kind_beq principal_set principal_set = true
kind_beq resource resource = true
kind_beq _ _ = false

pub kind_beq_iff : (a b : FgrnKind) → (kind_beq a b ≡ true) ↔ (a ≡ b)
kind_beq_iff a b = ground arith

instance abbrev pub kind_eq : Eq FgrnKind
kind_eq = record { beq = kind_beq; beq_iff = kind_beq_iff }

-- `FgrnKind::from_str`
unfoldable pub kind_from_str : Str → CoreResult FgrnKind
kind_from_str s =
    if list_beq s (codes "orgunit")
    then ok org_unit
    else if list_beq s (codes "principal")
    then ok principal
    else if list_beq s (codes "principal-set")
    then ok principal_set
    else if list_beq s (codes "resource")
    then ok resource
    else err (
        Error.parse "fgrn" s
          "unknown kind — expected orgunit, principal, principal-set, or resource")

pub record Fgrn : Type 0 where
  pub organization : Segment
  pub kind : FgrnKind
  pub id : NativeId
  pub resource_type : Option Segment
  pub native_id : Option NativeId
  pub raw : Str

-- The derived equality compares every field.
unfoldable pub fgrn_beq : Fgrn → Fgrn → Bool
fgrn_beq a b =
    segment_beq a.organization b.organization
    && kind_beq a.kind b.kind
    && native_id_beq a.id b.id
    && option_beq a.resource_type b.resource_type
    && option_beq a.native_id b.native_id
    && list_beq a.raw b.raw

pub fgrn_beq_iff : (a b : Fgrn) → (fgrn_beq a b ≡ true) ↔ (a ≡ b)
unfolding fgrn_beq
fgrn_beq_iff a b = ground (
  arith,
  segment_beq_iff a.organization b.organization,
  native_id_beq_iff a.id b.id,
  option_beq_iff a.resource_type b.resource_type,
  option_beq_iff a.native_id b.native_id,
  list_beq_iff a.raw b.raw,
)

instance abbrev pub fgrn_eq : Eq Fgrn
fgrn_eq = record { beq = fgrn_beq; beq_iff = fgrn_beq_iff }

-- The private constructor, which writes the canonical text.
unfoldable pub new : Segment → FgrnKind → NativeId → Option Segment → Option NativeId → Fgrn
new organization kind id resource_type native_id = record {
  organization = organization;
  kind = kind;
  id = id;
  resource_type = resource_type;
  native_id = native_id;
  raw = codes "fgrn:" ++ (organization.raw ++ b':' ∷ (kind_str kind ++ b':' ∷ id.raw));
}

-- The two halves of a resource's id, and the id itself.
resource_id :
    Str → Option (Str × Str) → Str → CoreResult (NativeId × Option Segment × Option NativeId)
resource_id s none id = err (Error.parse "fgrn" s "resource id must be {resource_type}/{native_id}")
resource_id s (some (rtype, nid)) id = do
  resource_type ← Segment.try_new rtype
  native_id ← NativeId.try_new nid
  whole ← NativeId.try_new id
  ok (whole, some resource_type, some native_id)

parse_id : Str → FgrnKind → Str → CoreResult (NativeId × Option Segment × Option NativeId)
parse_id s kind id =
    if kind_beq kind resource
    then resource_id s (split_once b'/' id) id
    else (do whole ← NativeId.try_new id; ok (whole, none, none))

parse_parts : Str → Str → Str → Str → CoreResult Fgrn
parse_parts s organization kind id = do
  organization ← Segment.try_new organization
  kind ← kind_from_str kind
  parts ← parse_id s kind id
  ok (record {
    organization = organization;
    kind = kind;
    id = parts.0;
    resource_type = parts.1;
    native_id = parts.2;
    raw = s;
  })

shape_error : Str → Error
shape_error s = Error.parse "fgrn" s "expected fgrn:{organization}:{type}:{id}"

parse_split : Str → List Str → CoreResult Fgrn
parse_split s (scheme ∷ organization ∷ kind ∷ id ∷ []) =
    if list_beq scheme (codes "fgrn")
    then parse_parts s organization kind id
    else err (shape_error s)
parse_split s _ = err (shape_error s)

unfoldable pub parse : Str → CoreResult Fgrn
unfolding parse_split parse_parts parse_id resource_id shape_error
parse s = parse_split s (splitn 4 b':' s)

unfoldable pub org_unit_of : Segment → NativeId → Fgrn
unfolding new
org_unit_of organization id = new organization org_unit id none none

unfoldable pub principal_of : Segment → NativeId → Fgrn
unfolding new
principal_of organization id = new organization principal id none none

unfoldable pub principal_set_of : Segment → NativeId → Fgrn
unfolding new
principal_set_of organization id = new organization principal_set id none none

-- `Fgrn::resource`: `none` is its `unreachable!`.
built : Segment → Segment → NativeId → CoreResult NativeId → Option Fgrn
built organization resource_type native_id (ok compound) =
    some (new organization resource compound (some resource_type) (some native_id))
built organization resource_type native_id (err e) = none

unfoldable pub resource_of : Segment → Segment → NativeId → Option Fgrn
unfolding built new
resource_of organization resource_type native_id =
    built organization resource_type native_id
      (NativeId.try_new (resource_type.raw ++ b'/' ∷ native_id.raw))

pub resource_parts : Fgrn → Option (Segment × NativeId)
resource_parts f = zip f.resource_type f.native_id
  where
    zip : Option Segment → Option NativeId → Option (Segment × NativeId)
    zip (some a) (some b) = some (a, b)
    zip _ _ = none
