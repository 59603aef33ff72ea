-- ===== src/Core/Selector/Tests.antt =====
-- Selectors of a small tree.
use forgeguard.Base.{◌≡◌, ◌↔◌, ◌⊎◌, refl, ℕ, true, List, [], ◌∷◌, codes, contains}
use forgeguard.Base.Result.{ok, err}
use forgeguard.Core.Segment
use forgeguard.Core.Segment.{Segment}
use forgeguard.Core.NativeId
use forgeguard.Core.NativeId.{NativeId}
use forgeguard.Core.Verb.{verb_eq}
use forgeguard.Core.Fgrn.{Fgrn, fgrn_eq, fgrn_beq, parse, new, org_unit_of}
use forgeguard.Core.Fgrn.WellFormed.{ValidSegment, ValidId}
use forgeguard.Core.Selector.{
  Selector, subtree, display, from_str, strip_prefix, strip_suffix, split, parse_body, try_ids,
}
use forgeguard.Core.Selector.RoundTrip.{from_str-display}
use forgeguard.Core.Selector.Resolve.{
  resolve, mismatch, find_child, descend, gather, within, compare, put_sorted, sort,
}
use forgeguard.Core.Selector.Resolved.{resolve_lem, Descends, Names, Strays}
use forgeguard.Core.Selector.Sorted.{resolve-IsSorted, IsSorted}
use forgeguard.Core.Spine.{is_at_or_below, parent}
use forgeguard.Core.Spine.Tests.{run, ou, tree, tree-IsTree}

abbrev acme : Segment
acme = record { raw = codes "acme" }

acme_valid : ValidSegment acme
unfolding Segment.try_new
acme_valid = refl

abbrev nid : List ℕ → NativeId
nid s = record { raw = s }

abbrev below_finance : Selector
below_finance = record { organization = acme; path = nid (codes "finance") ∷ []; scope = subtree }

finance_plain : ValidId (nid (codes "finance"))
unfolding NativeId.try_new
finance_plain = refl

from_str-display_example : from_str (display below_finance) ≡ ok below_finance
from_str-display_example =
    from_str-display below_finance acme_valid ((finance_plain, refl, refl), tt)

resolve_lem_example :
    ((resolve below_finance tree ≡ err (mismatch below_finance))
      × Strays tree tree-IsTree tree.root below_finance.path)
    ⊎ ((target : Fgrn) × (found : List Fgrn) × (resolve below_finance tree ≡ ok found)
        × Descends tree tree-IsTree tree.root below_finance.path target
        × ((u : Fgrn) → (contains found u ≡ true) ↔ Names tree tree-IsTree subtree target u))
resolve_lem_example = resolve_lem below_finance tree tree-IsTree refl

-- The finance unit and the one under it, in the order of their names.
resolved_below_finance : resolve below_finance tree ≡ ok (ou "accounting" ∷ ou "finance" ∷ [])
unfolding run NativeId.try_new Segment.try_new parse new org_unit_of fgrn_beq resolve find_child
    descend gather within compare put_sorted sort is_at_or_below parent
resolved_below_finance = refl

resolve-IsSorted_example : IsSorted (ou "accounting" ∷ ou "finance" ∷ [])
resolve-IsSorted_example =
    resolve-IsSorted below_finance tree (ou "accounting" ∷ ou "finance" ∷ []) resolved_below_finance

-- An id with a dot is read back as two ids.
dotted :
    from_str
      (display (record { organization = acme; path = nid (codes "a.b") ∷ []; scope = subtree }))
    ≡ ok (record {
      organization = acme;
      path = nid (codes "a") ∷ nid (codes "b") ∷ [];
      scope = subtree;
    })
unfolding NativeId.try_new Segment.try_new from_str display strip_prefix strip_suffix split
    parse_body try_ids
dotted = refl
