-- ===== src/Core/Tests.antt =====
-- The other modules on small inputs: a document of acme, shared through a team.
use forgeguard.Base.{◌≡◌, ◌≢◌, ◌↔◌, refl, ℕ, Bool, true, List, [], ◌∷◌, some, codes, contains, All}
use forgeguard.Base.Text.{splitn, split_once}
use forgeguard.Base.Sets.{to_set, insert_set}
use forgeguard.Base.Result.{ok}
use forgeguard.Core.Error.{CoreResult}
use forgeguard.Core.Forest.{IsBelow}
use forgeguard.Core.Segment
use forgeguard.Core.Segment.{Segment}
use forgeguard.Core.Segment.Grammar
use forgeguard.Core.NativeId
use forgeguard.Core.NativeId.{NativeId}
use forgeguard.Core.Verb
use forgeguard.Core.Verb.{Verb, verb_eq}
use forgeguard.Core.Fgrn.{
  Fgrn, FgrnKind, fgrn_eq, fgrn_beq, parse, new, principal_of, principal_set_of, org_unit_of,
  resource_of, resource_parts, kind_from_str,
}
use forgeguard.Core.Fgrn.WellFormed.{ValidSegment, ValidId, IsWellFormed}
use forgeguard.Core.Fgrn.RoundTrip.{parse-raw}
use forgeguard.Core.Fgrn.Parsing.{parse-IsWellFormed}
use forgeguard.Core.Grant.{Grant, grant_new, permits, PromotedResource, ShareRequest, share}
use forgeguard.Core.Grant.Laws.{grant_new-MayGrant, MayGrant, share_lem, MayShare}
use forgeguard.Core.PrincipalSet.{PrincipalSet, set_new, add_member, has_member}
use forgeguard.Core.Delegation.{set_contains, EffectiveScopeQuery, effective_verbs, chain_new}
use forgeguard.Core.Delegation.Search.{InSet}
use forgeguard.Core.Delegation.Scope.{set_contains_iff, effective_verbs_iff, Holds}
use forgeguard.Core.Visibility.{VisibilityQuery, at_principal, opaque, subtree_visible}
use forgeguard.Core.Visibility.Laws.{subtree_visible_iff, Passes}
use forgeguard.Core.Spine.Tests.{ou, tree, tree-IsTree, known, known_root}

-- All that a run of the operations computes with.
run_core : Unit {0}
unfolding splitn split_once Segment.try_new NativeId.try_new Verb.try_new kind_from_str parse new
    principal_of principal_set_of org_unit_of resource_of fgrn_beq grant_new permits share set_new
    add_member has_member insert_set chain_new
run_core = tt

abbrev acme : Segment
acme = record { raw = codes "acme" }

abbrev nid : List ℕ → NativeId
nid s = record { raw = s }

segment_rejected : Segment.try_new (codes "my--seg") ≢ ok (record { raw = codes "my--seg" })
unfolding run_core
segment_rejected h = cc

acme_valid : ValidSegment acme
unfolding run_core
acme_valid = refl

abbrev document : Segment
document = record { raw = codes "document" }

document_valid : ValidSegment document
unfolding run_core
document_valid = refl

id_valid : ValidId (nid (codes "doc/1"))
unfolding run_core
id_valid = refl

abbrev maria : Fgrn
unfolding principal_of
maria = principal_of acme (nid (codes "maria"))

abbrev joe : Fgrn
unfolding principal_of
joe = principal_of acme (nid (codes "joe"))

abbrev team : Fgrn
unfolding principal_set_of
team = principal_set_of acme (nid (codes "team"))

maria_parsed : parse (codes "fgrn:acme:principal:maria") ≡ ok maria
unfolding run_core
maria_parsed = refl

parse-IsWellFormed_example : IsWellFormed maria × (maria.raw ≡ codes "fgrn:acme:principal:maria")
parse-IsWellFormed_example =
    parse-IsWellFormed (codes "fgrn:acme:principal:maria") maria maria_parsed

maria_well : IsWellFormed maria
unfolding run_core
maria_well = record { organization = refl; id = refl; shape = tt; canonical = refl }

parse-raw_example : parse maria.raw ≡ ok maria
parse-raw_example = parse-raw maria maria_well

abbrev doc : Fgrn
unfolding new
doc =
    new acme FgrnKind.resource (nid (codes "document/doc/1")) (some document)
      (some (nid (codes "doc/1")))

abbrev read : Verb
read = record { raw = codes "read" }

grant_new-MayGrant_example :
    ((g : Grant)
      → grant_new doc (read ∷ []) maria ≡ ok g
      → MayGrant doc (read ∷ []) maria
        × (g.resource ≡ doc)
        × (g.to ≡ maria)
        × ((v : Verb) → permits g v ≡ contains (read ∷ []) v))
    × (MayGrant doc (read ∷ []) maria
        → grant_new doc (read ∷ []) maria
          ≡ ok (record { resource = doc; actions = to_set (read ∷ []); to = maria }))
grant_new-MayGrant_example = grant_new-MayGrant doc (read ∷ []) maria

abbrev finance : Fgrn
unfolding org_unit_of
finance = org_unit_of acme (nid (codes "finance"))

abbrev request : ShareRequest
request = record {
  target = record { resource_type = document; anchor = finance };
  native_id = nid (codes "doc/1");
  to = team;
  actions = read ∷ [];
}

share_lem_example :
    (outcome : CoreResult (PromotedResource × Grant)) × (share request ≡ some outcome)
    × (((p : PromotedResource) × (g : Grant) × (outcome ≡ ok (p, g))) ↔ MayShare request)
    × ((p : PromotedResource) (g : Grant)
        → outcome ≡ ok (p, g)
        → IsWellFormed p.fgrn
          × (p.fgrn.organization ≡ acme)
          × (resource_parts p.fgrn ≡ some (document, nid (codes "doc/1")))
          × (p.anchor ≡ finance)
          × (g.resource ≡ p.fgrn)
          × (g.to ≡ team)
          × ((v : Verb) → permits g v ≡ contains (read ∷ []) v))
unfolding finance
share_lem_example = share_lem request acme_valid document_valid id_valid

abbrev empty_team : PrincipalSet
empty_team = record { fgrn = team; anchor = finance; members = [] }

abbrev staffed : PrincipalSet
staffed = record { fgrn = team; anchor = finance; members = maria ∷ [] }

maria_added : add_member empty_team maria ≡ ok (staffed, true)
unfolding run_core
maria_added = refl

set_contains_iff_example :
    (b : Bool) × (set_contains (staffed ∷ []) team maria ≡ some b)
    × ((b ≡ true) ↔ InSet (staffed ∷ []) maria team)
set_contains_iff_example = set_contains_iff (staffed ∷ []) team maria

abbrev query : EffectiveScopeQuery
query = record {
  chain = record { links = maria ∷ joe ∷ [] };
  resource = doc;
  grants =
      record { resource = doc; actions = read ∷ []; to = team }
      ∷ record { resource = doc; actions = read ∷ []; to = joe }
      ∷ [];
  sets = staffed ∷ [];
}

query_resource : query.resource.kind ≡ FgrnKind.resource
unfolding new
query_resource = refl

effective_verbs_iff_example :
    (verbs : List Verb) × (effective_verbs query ≡ ok (some verbs))
    × ((v : Verb) → (contains verbs v ≡ true) ↔ All (Holds query v) (maria ∷ joe ∷ []))
effective_verbs_iff_example = effective_verbs_iff query query_resource (λ h. cc)

abbrev seen : VisibilityQuery
seen = record {
  requester = maria;
  scope = ou "root";
  anchor = at_principal maria (ou "accounting") opaque;
  spine = tree;
}

kinds :
    (maria.kind ≡ FgrnKind.principal)
    × ((ou "root").kind ≡ FgrnKind.org_unit)
    × ((ou "accounting").kind ≡ FgrnKind.org_unit)
unfolding run_core
kinds = (refl, refl, refl)

subtree_visible_iff_example :
    (b : Bool) × (subtree_visible seen ≡ ok b)
    × ((b ≡ true) ↔ (IsBelow tree.units (ou "accounting") (ou "root") × Passes maria seen.anchor))
subtree_visible_iff_example =
    subtree_visible_iff seen tree-IsTree kinds.0 kinds.1 kinds.2 kinds.0 known_root known.0

abbrev numbered : Segment
numbered = record { raw = codes "3d-model" }
