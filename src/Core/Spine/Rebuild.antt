-- ===== src/Core/Spine/Rebuild.antt =====
-- `Spine::try_new` refuses no tree: the units of a spine build that spine again.
use forgeguard.Base.{
  ◌≡◌, refl, true, false, List, [], ◌∷◌, ◌++◌, Option, none, some, arith, length, distinct, subst,
  sym, ap, ◌∙◌, ◌==◌, ==_refl, if◌then◌else◌, append_assoc, append-nil, contains-append,
}
use forgeguard.Base.Assoc.{lookup, keys, contains_key, insert_new, contains_key_of_lookup}
use forgeguard.Base.Result.{ok, ◌>>=◌}
use forgeguard.Core.Forest.Climb.{climbs_of_Depth}
use forgeguard.Core.Forest.Depth.{Depth-lt-length}
use forgeguard.Core.Segment.{segment_eq, segment_beq_iff}
use forgeguard.Core.Fgrn.{Fgrn, fgrn_eq, fgrn_beq_iff}
use forgeguard.Core.Spine.{
  Spine, OrgUnit, Units, claim_root, collect, check_parents, check_acyclic, finish, try_new,
}
use forgeguard.Core.Spine.Tree.{IsTree}

-- The units of a map, as they are given to `try_new`.
abbrev pub listed : Units → List OrgUnit
listed [] = []
listed ((k, p) ∷ rest) = record { fgrn = k; parent = p } ∷ listed rest

lookup-append_distinct :
    (done rest : Units) (k : Fgrn) (p : Option Fgrn)
    → distinct (keys (done ++ (k, p) ∷ rest)) ≡ true
    → (contains_key done k ≡ false) × (lookup k (done ++ (k, p) ∷ rest) ≡ some p)
unfolding lookup
lookup-append_distinct [] rest k p d = (refl, ground (arith, ==_refl k))
lookup-append_distinct ((j, q) ∷ done) rest k p d =
    let (no_key, found) = lookup-append_distinct done rest k p (ground arith) in
    let other : (j == k) ≡ false =
      ground
        (arith, fgrn_beq_iff j k, contains_key_of_lookup (done ++ (k, p) ∷ rest) k {v = p} found) in
    (ground (arith, fgrn_beq_iff j k, fgrn_beq_iff k j), ground arith)

module _ (s : Spine) (tree : IsTree s) where
  -- What stands at a point of the loops over the units.
  here :
      (done rest : Units) (k : Fgrn) (p : Option Fgrn)
      → s.units ≡ done ++ (k, p) ∷ rest
      → (contains_key done k ≡ false) × (lookup k s.units ≡ some p)
  here done rest k p e =
      let (new, found) =
        lookup-append_distinct done rest k p
          (subst (λ (m : Units). distinct (keys m) ≡ true) e tree.unique) in
      (new, ap (lookup k) e ∙ found)

  next :
      (done rest : Units) (k : Fgrn) (p : Option Fgrn)
      → s.units ≡ done ++ (k, p) ∷ rest
      → s.units ≡ (done ++ (k, p) ∷ []) ++ rest
  next done rest k p e = e ∙ sym (append_assoc done ((k, p) ∷ []) rest)

  check_parents-ok :
      (done rest : Units) → s.units ≡ done ++ rest → check_parents s.units rest ≡ ok tt
  unfolding check_parents
  check_parents-ok done [] e = refl
  check_parents-ok done ((k, none) ∷ rest) e =
      check_parents-ok (done ++ (k, none) ∷ []) rest (next done rest k none e)
  check_parents-ok done ((k, some p) ∷ rest) e =
      rw (tree.closed k p (here done rest k (some p) e).1)
        (check_parents-ok (done ++ (k, some p) ∷ []) rest (next done rest k (some p) e))

  check_acyclic-ok :
      (done rest : Units) → s.units ≡ done ++ rest → check_acyclic s.units rest ≡ ok tt
  unfolding check_acyclic
  check_acyclic-ok done [] e = refl
  check_acyclic-ok done ((k, p) ∷ rest) e =
      let (n, d) =
        tree.grounded k (contains_key_of_lookup s.units k {v = p} (here done rest k p e).1) in
      rw
        (climbs_of_Depth s.units n (length s.units) k d
          (omega (arith, Depth-lt-length s.units n k d)))
        (check_acyclic-ok (done ++ (k, p) ∷ []) rest (next done rest k p e))

  -- The root so far: that of the spine, once it is among the units that are done.
  abbrev root_of : Units → Option Fgrn
  root_of done = if contains_key done s.root then some s.root else none

  keys-append :
      (done : Units) (k : Fgrn) (p : Option Fgrn) → keys (done ++ (k, p) ∷ []) ≡ keys done ++ k ∷ []
  keys-append [] k p = refl
  keys-append ((j, q) ∷ done) k p = ap (λ ks. j ∷ ks) (keys-append done k p)

  claim_root-root_of :
      (done rest : Units) (k : Fgrn) (p : Option Fgrn)
      → s.units ≡ done ++ (k, p) ∷ rest
      → claim_root (record { fgrn = k; parent = p }) (root_of done)
        ≡ ok (root_of (done ++ (k, p) ∷ []))
  unfolding claim_root
  claim_root-root_of done rest k none e =
      let (new, found) = here done rest k none e in
      let top : k ≡ s.root = tree.only_root k found in
      ground
        (arith, keys-append done k none, contains-append (keys done) (k ∷ []) s.root, ==_refl k)
  claim_root-root_of done rest k (some p) e =
      let (new, found) = here done rest k (some p) e in
      let other : (s.root == k) ≡ false = ground (arith, tree.top, fgrn_beq_iff s.root k) in
      ground (arith, keys-append done k (some p), contains-append (keys done) (k ∷ []) s.root)

  collect-ok :
      (done rest : Units)
      → s.units ≡ done ++ rest
      → collect s.organization (listed rest) done (root_of done) ≡ ok (s.units, root_of s.units)
  unfolding collect
  collect-ok done [] e = ap (λ (m : Units). ok (m, root_of m)) (sym (append-nil done) ∙ sym e)
  collect-ok done ((k, p) ∷ rest) e =
      let (new, found) = here done rest k p e in
      let home = tree.one_organization k (contains_key_of_lookup s.units k {v = p} found) in
      rw
        (
          new,
          (segment_beq_iff k.organization s.organization).1 home,
          claim_root-root_of done rest k p e,
          insert_new k p done new,
        )
        (collect-ok (done ++ (k, p) ∷ []) rest (next done rest k p e))

  root_of-units : root_of s.units ≡ some s.root
  root_of-units = rw (contains_key_of_lookup s.units s.root {v = none} tree.top) refl

  finish-ok : finish s.organization (s.units, root_of s.units) ≡ ok s
  unfolding finish
  finish-ok =
      rw (root_of-units, check_parents-ok [] s.units refl, check_acyclic-ok [] s.units refl) refl

  built : (units : Units) → s.units ≡ units → try_new (listed units) ≡ ok s
  unfolding try_new
  built [] e = absurd (unfold lookup in cc (rw e at tree.top))
  built ((k, p) ∷ rest) e =
      let (new, found) = here [] rest k p e in
      let home = tree.one_organization k (contains_key_of_lookup s.units k {v = p} found) in
      ap (λ o. collect o (listed ((k, p) ∷ rest)) [] none >>= finish o) home
      ∙ ap (λ (m : Units). collect s.organization (listed m) [] none >>= finish s.organization)
          (sym e)
      ∙ ap (λ r. r >>= finish s.organization) (collect-ok [] s.units refl)
      ∙ finish-ok

-- Every tree is accepted: building a spine from the units of a tree gives that tree again.
pub try_new-listed : (s : Spine) → IsTree s → try_new (listed s.units) ≡ ok s
try_new-listed s tree = built s tree s.units refl
