-- ===== src/Core/Selector/Resolve.antt =====
-- crates/core/src/selector.rs, `Selector::resolve`: the org units that a selector names in a spine.
use forgeguard.Base.{
  ℕ, Str, true, false, List, [], ◌∷◌, Option, none, some, ◌==◌, option_eq, ltb, if◌then◌else◌,
}
use forgeguard.Base.Result.{Result, ok, err, ◌>>=◌, ◌>>◌, ensure, map_err}
use forgeguard.Core.Error.{Error}
use forgeguard.Core.Segment.{Segment, segment_eq}
use forgeguard.Core.NativeId.{NativeId, native_id_eq}
use forgeguard.Core.Fgrn.{Fgrn, FgrnKind, org_unit, principal, principal_set, resource, fgrn_eq}
use forgeguard.Core.Spine.{Spine, Units, Fault, raised, parent, is_at_or_below}
use forgeguard.Core.Selector.{Selector, SelectorScope, node, subtree, display}

pub data Ordering : Type 0 where
  less equal greater : Ordering

-- Compares by the second where the first is equal.
abbrev pub and_then : Ordering → Ordering → Ordering
and_then less o = less
and_then equal o = o
and_then greater o = greater

abbrev pub compare_bytes : Str → Str → Ordering
compare_bytes [] [] = equal
compare_bytes [] (b ∷ t) = less
compare_bytes (a ∷ s) [] = greater
compare_bytes (a ∷ s) (b ∷ t) =
    let rest = compare_bytes s t in if ltb a b then less else if ltb b a then greater else rest

-- A missing value comes before any other.
abbrev pub compare_option : Option Str → Option Str → Ordering
compare_option none none = equal
compare_option none (some t) = less
compare_option (some s) none = greater
compare_option (some s) (some t) = compare_bytes s t

abbrev pub rank : FgrnKind → ℕ
rank org_unit = 0
rank principal = 1
rank principal_set = 2
rank resource = 3

abbrev pub compare_kind : FgrnKind → FgrnKind → Ordering
compare_kind a b =
    if ltb (rank a) (rank b) then less else if ltb (rank b) (rank a) then greater else equal

abbrev pub segment_raw : Option Segment → Option Str
segment_raw none = none
segment_raw (some s) = some s.raw

abbrev pub id_raw : Option NativeId → Option Str
id_raw none = none
id_raw (some id) = some id.raw

-- The derived `Ord` of `Fgrn`: field by field.
unfoldable pub compare : Fgrn → Fgrn → Ordering
compare a b = and_then (compare_bytes a.organization.raw b.organization.raw) (
    and_then (compare_kind a.kind b.kind) (
      and_then (compare_bytes a.id.raw b.id.raw) (
        and_then (compare_option (segment_raw a.resource_type) (segment_raw b.resource_type)) (
          and_then (compare_option (id_raw a.native_id) (id_raw b.native_id))
            (compare_bytes a.raw b.raw)))))

-- `sort`, which is stable.
unfoldable pub put_sorted : Fgrn → List Fgrn → List Fgrn
put_sorted a [] = a ∷ []
put_sorted a (b ∷ units) = elim (compare a b) [
  | greater ↦ b ∷ put_sorted a units
  | _ ↦ a ∷ b ∷ units
]

unfoldable pub sort : List Fgrn → List Fgrn
sort [] = []
sort (a ∷ units) = put_sorted a (sort units)

-- The loop over the units, to the first one of the id below the current unit.
unfoldable pub find_child : Spine → Fgrn → NativeId → Units → Result Fault (Option Fgrn)
find_child spine current id [] = ok none
find_child spine current id ((unit, _) ∷ units) = elim (unit.id == id) [
  | false ↦ find_child spine current id units
  | true ↦ (do
    above ← map_err raised (parent spine unit)
    elim (above == some current) [
      | true ↦ ok (some unit)
      | false ↦ find_child spine current id units
    ])
]

abbrev pub mismatch : Selector → Fault
mismatch s = raised (Error.spine (display s) "selector path does not match any org unit")

abbrev pub or_mismatch : Selector → Option Fgrn → Result Fault Fgrn
or_mismatch s none = err (mismatch s)
or_mismatch s (some unit) = ok unit

-- The loop over the ids of the path.
unfoldable pub descend : Selector → Spine → List NativeId → Fgrn → Result Fault Fgrn
descend s spine [] current = ok current
descend s spine (id ∷ path) current = do
  found ← find_child spine current id spine.units
  next ← or_mismatch s found
  descend s spine path next

-- The loop that gathers the subtree.
unfoldable pub gather : Spine → Fgrn → Units → Result Fault (List Fgrn)
gather spine current [] = ok []
gather spine current ((unit, _) ∷ units) = do
  below ← is_at_or_below spine unit current
  rest ← gather spine current units
  ok (if below then unit ∷ rest else rest)

unfoldable pub within : Spine → SelectorScope → Fgrn → Result Fault (List Fgrn)
within spine node current = ok (current ∷ [])
within spine subtree current = do resolved ← gather spine current spine.units; ok (sort resolved)

unfoldable pub resolve : Selector → Spine → Result Fault (List Fgrn)
resolve s spine = do
  ensure (spine.organization == s.organization)
      (raised (Error.spine (display s) "selector organization does not match spine"))
  current ← descend s spine s.path spine.root
  within spine s.scope current
