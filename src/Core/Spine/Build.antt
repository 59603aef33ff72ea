-- ===== src/Core/Spine/Build.antt =====
-- `Spine::try_new` builds trees.
use forgeguard.Base.{
  ◌≡◌, ◌↔◌, refl, true, false, List, [], ◌∷◌, Option, none, some, arith, inl, inr, length, distinct,
  subst, sym, ap, ◌∙◌, ◌++◌, append-nil, append_assoc,
}
use forgeguard.Base.Assoc.{
  lookup, insert, keys, contains_key, lookup-insert, contains_key-insert, distinct-insert,
  contains_key_of_lookup, insert_new,
}
use forgeguard.Base.Result.{ok, Result-cases}
use forgeguard.Core.Forest.{IsClosed, climbs}
use forgeguard.Core.Forest.Climb.{IsGrounded-of_climbs}
use forgeguard.Core.Segment.{Segment, segment_eq, segment_beq_iff}
use forgeguard.Core.Fgrn.{Fgrn, fgrn_eq, fgrn_beq_iff}
use forgeguard.Core.Spine.{
  Spine, OrgUnit, Units, claim_root, collect, check_parents, check_acyclic, finish, try_new,
}
use forgeguard.Core.Spine.Tree.{IsTree}

-- What holds of the map and the root so far, in the loop over the units.
record IsCollected (organization : Segment) (map : Units) (root : Option Fgrn) : Type 0 where
  unique : distinct (keys map) ≡ true
  tops : (k : Fgrn) → (lookup k map ≡ some none) ↔ (root ≡ some k)
  home : (k : Fgrn) → contains_key map k ≡ true → k.organization ≡ organization

claim_root-IsCollected :
    (o : Segment) (unit : OrgUnit) (map : Units) (root root' : Option Fgrn)
    → IsCollected o map root
    → contains_key map unit.fgrn ≡ false
    → unit.fgrn.organization ≡ o
    → claim_root unit root ≡ ok root'
    → IsCollected o (insert unit.fgrn unit.parent map) root'
unfolding claim_root
claim_root-IsCollected o unit map root root' c new home h = record {
  unique = distinct-insert unit.fgrn unit.parent map c.unique;
  tops = λ k. ground (
    arith,
    lookup-insert unit.fgrn k unit.parent map,
    c.tops k,
    fgrn_beq_iff unit.fgrn k,
    contains_key_of_lookup map unit.fgrn {v = none},
  );
  home = λ k h.
      ground (
        arith,
        contains_key-insert unit.fgrn k unit.parent map,
        c.home k,
        fgrn_beq_iff unit.fgrn k,
      );
}

collect-IsCollected :
    (o : Segment) (units : List OrgUnit) (map map' : Units) (root root' : Option Fgrn)
    → IsCollected o map root
    → collect o units map root ≡ ok (map', root')
    → IsCollected o map' root'
unfolding collect
collect-IsCollected o [] map map' root root' c h =
    subst (λ (p : Units × Option Fgrn). IsCollected o p.0 p.1) (ground arith) c
collect-IsCollected o (unit ∷ units) map map' root root' c h =
    let new : contains_key map unit.fgrn ≡ false = ground arith in
    let home : unit.fgrn.organization ≡ o =
      ground (arith, segment_beq_iff unit.fgrn.organization o) in
    elim (Result-cases (claim_root unit root)) [
      | inr (x, hr) ↦ absurd (ground arith)
      | inl (r, hr) ↦
          collect-IsCollected o units (insert unit.fgrn unit.parent map) map' r root'
            (claim_root-IsCollected o unit map root r c new home hr) (ground arith)
    ]

-- The edges of the units, in their order.
abbrev pub edges : List OrgUnit → Units
edges [] = []
edges (unit ∷ units) = (unit.fgrn, unit.parent) ∷ edges units

-- Each unit is new when it comes, and none is left out.
collect-edges :
    (o : Segment) (units : List OrgUnit) (map map' : Units) (root root' : Option Fgrn)
    → collect o units map root ≡ ok (map', root')
    → map' ≡ map ++ edges units
unfolding collect
collect-edges o [] map map' root root' h = sym (append-nil map ∙ ground arith)
collect-edges o (unit ∷ units) map map' root root' h =
    let new : contains_key map unit.fgrn ≡ false = ground arith in
    elim (Result-cases (claim_root unit root)) [
      | inr (x, hr) ↦ absurd (ground arith)
      | inl (r, hr) ↦
          collect-edges o units (insert unit.fgrn unit.parent map) map' r root' (ground arith)
          ∙ ap (λ m. m ++ edges units) (insert_new unit.fgrn unit.parent map new)
          ∙ append_assoc map ((unit.fgrn, unit.parent) ∷ []) (edges units)
    ]

check_parents-closed :
    (map rest : Units) (k p : Fgrn)
    → check_parents map rest ≡ ok tt
    → lookup k rest ≡ some (some p)
    → contains_key map p ≡ true
unfolding check_parents lookup
check_parents-closed map [] k p h found = cc
check_parents-closed map ((j, none) ∷ rest) k p h found =
    ground (arith, check_parents-closed map rest k p)
check_parents-closed map ((j, some q) ∷ rest) k p h found =
    ground (arith, check_parents-closed map rest k p)

check_acyclic-climbs :
    (map rest : Units) (k : Fgrn)
    → check_acyclic map rest ≡ ok tt
    → contains_key rest k ≡ true
    → climbs map (length map) k ≡ true
unfolding check_acyclic
check_acyclic-climbs map [] k h c = cc
check_acyclic-climbs map ((j, v) ∷ rest) k h c =
    ground (arith, check_acyclic-climbs map rest k, fgrn_beq_iff k j)

finish-IsTree :
    (o : Segment) (map : Units) (root : Option Fgrn) (s : Spine)
    → IsCollected o map root
    → finish o (map, root) ≡ ok s
    → IsTree s
unfolding finish
finish-IsTree o map none s c h = cc
finish-IsTree o map (some root) s c h =
    let parents : check_parents map map ≡ ok tt = ground arith in
    let acyclic : check_acyclic map map ≡ ok tt = ground arith in
    let result : record { units = map; root = root; organization = o } ≡ s = ground arith in
    let closed : IsClosed map = λ k p f. check_parents-closed map map k p parents f in
    subst IsTree result (record {
      unique = c.unique;
      top = (c.tops root).1 refl;
      only_root = λ k f. ground (arith, c.tops k);
      closed = closed;
      grounded = λ k f.
          IsGrounded-of_climbs map closed (length map) k f
            (check_acyclic-climbs map map k acyclic f);
      one_organization = c.home;
    })

finish-units :
    (o : Segment) (map : Units) (root : Option Fgrn) (s : Spine)
    → finish o (map, root) ≡ ok s
    → s.units ≡ map
unfolding finish
finish-units o map none s h = cc
finish-units o map (some root) s h =
    let result : record { units = map; root = root; organization = o } ≡ s = ground arith in
    ap (λ (x : Spine). x.units) (sym result)

IsCollected-nil : (o : Segment) → IsCollected o [] none
unfolding lookup
IsCollected-nil o = record { unique = refl; tops = λ k. ((λ h. cc), (λ h. cc)); home = λ k f. cc }

-- Whatever list of units `Spine::try_new` accepts, the spine that it returns is a tree. No unit is in
-- the list twice, and the spine has just the units of the list, each with its parent.
pub try_new-IsTree :
    (units : List OrgUnit) (s : Spine)
    → try_new units ≡ ok s
    → IsTree s
      × (distinct (keys (edges units)) ≡ true)
      × ((k : Fgrn) → lookup k s.units ≡ lookup k (edges units))
unfolding try_new
try_new-IsTree [] s h = cc
try_new-IsTree (first ∷ units) s h =
    let o = first.fgrn.organization in
    elim (Result-cases (collect o (first ∷ units) [] none)) [
      | inr (x, hc) ↦ absurd (cc (rw (hc, try_new) at h))
      | inl (p, hc) ↦
          let collected =
            collect-IsCollected o (first ∷ units) [] p.0 none p.1 (IsCollected-nil o) hc in
          let same = collect-edges o (first ∷ units) [] p.0 none p.1 hc in
          (
            finish-IsTree o p.0 p.1 s collected (rw hc at h),
            subst (λ (m : Units). distinct (keys m) ≡ true) same collected.unique,
            λ k. ap (lookup k) (finish-units o p.0 p.1 s (rw hc at h) ∙ same),
          )
    ]
