-- ===== src/Core/Selector/Resolved.antt =====
-- What a selector resolves to.
use forgeguard.Base.{
  ◌≡◌, ◌≢◌, ◌↔◌, ◌⊎◌, ◌++◌, refl, Bool, true, false, ◌||◌, List, [], ◌∷◌, Option, none, some, ◌==◌,
  option_eq, arith, contains, ==_refl, ==-eq, Bool-cases, inl, inr, ap, ◌∙◌, subst, sym,
}
use forgeguard.Base.Assoc.{lookup, contains_key, contains_key_of_lookup, lookup_of_contains_key}
use forgeguard.Base.Result.{Result, ok, err}
use forgeguard.Core.Forest.{IsBelow}
use forgeguard.Core.Segment.{segment_eq, segment_beq_iff}
use forgeguard.Core.NativeId.{NativeId, native_id_eq}
use forgeguard.Core.Fgrn.{Fgrn, fgrn_eq, fgrn_beq, fgrn_beq_iff}
use forgeguard.Core.Spine.{Spine, Units, Fault, parent, is_at_or_below}
use forgeguard.Core.Spine.Tree.{IsTree}
use forgeguard.Core.Spine.Path.{is_at_or_below_iff}
use forgeguard.Core.Selector.{Selector, SelectorScope, node, subtree}
use forgeguard.Core.Selector.Resolve.{
  Ordering, less, equal, greater, compare, put_sorted, sort, find_child, mismatch, descend, gather,
  within, resolve,
}

contains-put_sorted :
    (a b : Fgrn) (units : List Fgrn)
    → contains (put_sorted a units) b ≡ (b == a || contains units b)
unfolding put_sorted
contains-put_sorted a b [] = refl
contains-put_sorted a b (c ∷ units) = by_order (compare a c) (contains-put_sorted a b units)
  where
    by_order :
        (o : Ordering)
        → contains (put_sorted a units) b ≡ (b == a || contains units b)
        → contains
            (elim o as (λ _. List Fgrn) [ greater ↦ c ∷ put_sorted a units | _ ↦ a ∷ c ∷ units ])
            b
          ≡ (b == a || (b == c || contains units b))
    by_order less h = refl
    by_order equal h = refl
    by_order greater h = ground arith

contains-sort : (units : List Fgrn) (b : Fgrn) → contains (sort units) b ≡ contains units b
unfolding sort
contains-sort [] b = refl
contains-sort (a ∷ units) b =
    contains-put_sorted a b (sort units) ∙ ap (λ c. b == a || c) (contains-sort units b)

module _ (spine : Spine) (tree : IsTree spine) where
  -- Down from a unit, by the ids of a path.
  abbrev pub Descends : Fgrn → List NativeId → Fgrn → Type 0
  Descends current [] target = current ≡ target
  Descends current (id ∷ path) target =
      (child : Fgrn) × (child.id ≡ id)
      × (lookup child spine.units ≡ some (some current))
      × Descends child path target

  -- No unit of the id is below the current one.
  abbrev pub HasNone : Fgrn → NativeId → Type 0
  HasNone current id =
      (child : Fgrn) → child.id ≡ id → lookup child spine.units ≢ some (some current)

  -- The loop finds no child of the id among the units, or a known one.
  Finds : Units → Fgrn → NativeId → Option Fgrn → Type 0
  Finds units current id none =
      (child : Fgrn)
      → contains_key units child ≡ true
      → child.id ≡ id
      → lookup child spine.units ≢ some (some current)
  Finds units current id (some child) =
      (child.id ≡ id) × (lookup child spine.units ≡ some (some current))

  -- One more unit, which is no child of the id.
  Finds-skip :
      (unit : Fgrn) (p : Option Fgrn) (units : Units) (current : Fgrn) (id : NativeId)
      (found : Option Fgrn)
      → (unit.id ≡ id → lookup unit spine.units ≢ some (some current))
      → Finds units current id found
      → Finds ((unit, p) ∷ units) current id found
  unfolding Finds
  Finds-skip unit p units current id none other finds = λ child c same at.
      elim (Bool-cases (child == unit)) [
        | inl e ↦
            let is = ==-eq child unit e in
            other (sym (ap (λ (x : Fgrn). x.id) is) ∙ same)
              (ap (λ x. lookup x spine.units) (sym is) ∙ at)
        | inr n ↦ finds child (ground arith) same at
      ]
  Finds-skip unit p units current id (some child) other finds = finds

  find_child-Finds :
      (current : Fgrn) (id : NativeId) (units : Units)
      → ((k : Fgrn) → contains_key units k ≡ true → contains_key spine.units k ≡ true)
      → (found : Option Fgrn) × (find_child spine current id units ≡ ok found)
        × Finds units current id found
  unfolding find_child parent Finds
  find_child-Finds current id [] part = (none, refl, λ child c. cc)
  find_child-Finds current id ((unit, p) ∷ units) part =
      let (found, run, finds) = find_child-Finds current id units (λ k c. part k (ground arith)) in
      elim (Bool-cases (unit.id == id)) [
        | inr n ↦ (
          found,
          rw (n, find_child) run,
          Finds-skip unit p units current id found
              (λ same. cc ((native_id_eq.beq_iff unit.id id).1 same, n)) finds,
        )
        | inl y ↦
            let (above, at) =
              lookup_of_contains_key spine.units unit (part unit (ground (arith, ==_refl unit))) in
            with_parent above at y found run finds
      ]
    where
      with_parent :
          (above : Option Fgrn)
          → lookup unit spine.units ≡ some above
          → (unit.id == id) ≡ true
          → (found : Option Fgrn) → find_child spine current id units ≡ ok found
          → Finds units current id found
          → (found : Option Fgrn) × (find_child spine current id ((unit, p) ∷ units) ≡ ok found)
            × Finds ((unit, p) ∷ units) current id found
      with_parent none at y found run finds = (
        found,
        rw (y, at, find_child) run,
        Finds-skip unit p units current id found (λ same below. cc) finds,
      )
      with_parent (some q) at y found run finds =
          let take : Bool → Result Fault (Option Fgrn) =
            λ b. elim b [ false ↦ find_child spine current id units | true ↦ ok (some unit) ] in
          elim (Bool-cases (fgrn_beq q current)) [
            | inr n ↦ (
              found,
              rw (y, at, find_child) (ap take n ∙ run),
              Finds-skip unit p units current id found
                  (λ same below. ground (arith, fgrn_beq_iff q current)) finds,
            )
            | inl e ↦ (
              some unit,
              rw (y, at, find_child) (ap take e),
              (==-eq unit.id id y, at ∙ ap (λ x. some (some x)) ((fgrn_beq_iff q current).0 e)),
            )
          ]

  -- The path leads down to a unit that has no child of the id that is next.
  abbrev pub Strays : Fgrn → List NativeId → Type 0
  Strays current path =
      (before : List NativeId) × (id : NativeId) × (after : List NativeId) × (last : Fgrn) × (path
        ≡ before ++ id ∷ after)
      × Descends current before last
      × HasNone last id

  -- The walk down ends at a known unit, or at an id that matches none.
  abbrev Walks : Selector → List NativeId → Fgrn → Type 0
  Walks s path current =
      ((descend s spine path current ≡ err (mismatch s)) × Strays current path)
      ⊎ ((target : Fgrn) × (descend s spine path current ≡ ok target)
          × (contains_key spine.units target ≡ true)
          × Descends current path target)

  descend-Descends :
      (s : Selector) (path : List NativeId) (current : Fgrn)
      → contains_key spine.units current ≡ true
      → Walks s path current
  unfolding descend Finds
  descend-Descends s [] current c = inr (current, refl, c, refl)
  descend-Descends s (id ∷ path) current c =
      let (found, run, finds) = find_child-Finds current id spine.units (λ k h. h) in
      go found run finds (λ child at.
        descend-Descends s path child
          (contains_key_of_lookup spine.units child {v = some current} at))
    where
      go :
          (found : Option Fgrn)
          → find_child spine current id spine.units ≡ ok found
          → Finds spine.units current id found
          → ((child : Fgrn) → lookup child spine.units ≡ some (some current) → Walks s path child)
          → Walks s (id ∷ path) current
      go none run finds below = inl (
        rw (run, descend) refl,
        (
          [],
          id,
          path,
          current,
          refl,
          refl,
          λ child same at.
              finds child (contains_key_of_lookup spine.units child {v = some current} at) same at,
        ),
      )
      go (some child) run (same, at) below = elim (below child at) [
        | inl (e, (before, next, after, last, split, way, no_child)) ↦ inl (
          rw (run, descend) e,
          (
            id ∷ before,
            next,
            after,
            last,
            ap (λ l. id ∷ l) split,
            (child, same, at, way),
            no_child,
          ),
        )
        | inr (target, e, known, way) ↦
            inr (target, rw (run, descend) e, known, (child, same, at, way))
      ]

  gather_iff :
      (current : Fgrn) (units : Units)
      → contains_key spine.units current ≡ true
      → ((k : Fgrn) → contains_key units k ≡ true → contains_key spine.units k ≡ true)
      → (found : List Fgrn) × (gather spine current units ≡ ok found)
        × ((u : Fgrn)
            → (contains found u ≡ true)
              ↔ ((contains_key units u ≡ true) × IsBelow spine.units u current))
  unfolding gather
  gather_iff current [] c part = ([], refl, λ u. ((λ h. cc), λ h. cc (h.0)))
  gather_iff current ((unit, p) ∷ units) c part =
      let (rest, run, iff) = gather_iff current units c (λ k h. part k (ground arith)) in
      let (below, run', iff') =
        is_at_or_below_iff spine tree unit current (part unit (ground (arith, ==_refl unit))) c in
      with_unit below run' iff' rest run iff
    where
      with_unit :
          (below : Bool)
          → is_at_or_below spine unit current ≡ ok below
          → ((below ≡ true) ↔ IsBelow spine.units unit current)
          → (rest : List Fgrn) → gather spine current units ≡ ok rest
          → ((u : Fgrn)
              → (contains rest u ≡ true)
                ↔ ((contains_key units u ≡ true) × IsBelow spine.units u current))
          → (found : List Fgrn) × (gather spine current ((unit, p) ∷ units) ≡ ok found)
            × ((u : Fgrn)
                → (contains found u ≡ true)
                  ↔ ((contains_key ((unit, p) ∷ units) u ≡ true) × IsBelow spine.units u current))
      with_unit true run' iff' rest run iff = (
        unit ∷ rest,
        rw (run', run, gather) refl,
        λ u. (
          (λ h. elim (Bool-cases (u == unit)) [
            | inl e ↦ (
              ground arith,
              subst (λ x. IsBelow spine.units x current) (sym (==-eq u unit e)) (iff'.0 refl),
            )
            | inr n ↦ let (k, b) = (iff u).0 (ground arith) in (ground arith, b)
          ]),
          λ (k, b). elim (Bool-cases (u == unit)) [
            | inl e ↦ ground arith
            | inr n ↦ let m = (iff u).1 (ground arith, b) in ground arith
          ],
        ),
      )
      with_unit false run' iff' rest run iff = (
        rest,
        rw (run', run, gather) refl,
        λ u. (
          (λ h. let (k, b) = (iff u).0 h in (ground arith, b)),
          λ (k, b). elim (Bool-cases (u == unit)) [
            | inl e ↦ cc (iff'.1 (subst (λ x. IsBelow spine.units x current) (==-eq u unit e) b))
            | inr n ↦ (iff u).1 (ground arith, b)
          ],
        ),
      )

  -- The units that a scope names at a unit.
  abbrev pub Names : SelectorScope → Fgrn → Fgrn → Type 0
  Names node target u = u ≡ target
  Names subtree target u = (contains_key spine.units u ≡ true) × IsBelow spine.units u target

  within_iff :
      (scope : SelectorScope) (target : Fgrn)
      → contains_key spine.units target ≡ true
      → (found : List Fgrn) × (within spine scope target ≡ ok found)
        × ((u : Fgrn) → (contains found u ≡ true) ↔ Names scope target u)
  unfolding within
  within_iff node target c = (target ∷ [], refl, λ u. ground (arith, fgrn_beq_iff u target))
  within_iff subtree target c =
      let (found, run, iff) = gather_iff target spine.units c (λ k h. h) in
      (
        sort found,
        rw (run, within) refl,
        λ u. subst (λ b. (b ≡ true) ↔ Names subtree target u) (sym (contains-sort found u)) (iff u),
      )

-- Resolving a selector in a tree of its organization ends in one of two ways. Either the
-- path leads down from the root to a unit that has no child of the id that is next, which is the
-- error; or the path leads down from the root to a unit, and the
-- result has that unit alone, or all the units at or below it.
pub resolve_lem :
    (s : Selector) (spine : Spine) (tree : IsTree spine)
    → spine.organization ≡ s.organization
    → ((resolve s spine ≡ err (mismatch s)) × Strays spine tree spine.root s.path)
      ⊎ ((target : Fgrn) × (found : List Fgrn) × (resolve s spine ≡ ok found)
          × Descends spine tree spine.root s.path target
          × ((u : Fgrn) → (contains found u ≡ true) ↔ Names spine tree s.scope target u))
unfolding resolve
resolve_lem s spine tree o =
    let same = (segment_beq_iff spine.organization s.organization).1 o in
    elim (descend-Descends spine tree s s.path spine.root
      (contains_key_of_lookup spine.units spine.root {v = none} tree.top)) [
        | inl (e, strays) ↦ inl (rw (same, e, resolve) refl, strays)
        | inr (target, e, known, way) ↦
            let (found, run, iff) = within_iff spine tree s.scope target known in
            inr (target, found, rw (same, e, resolve) run, way, iff)
      ]
