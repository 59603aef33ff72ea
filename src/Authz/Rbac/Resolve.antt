-- ===== src/Authz/Rbac/Resolve.antt =====
-- What `resolve_inherits` answers.
use forgeguard.Base.{
  none, suc, Str, ◌≡◌, ◌↔◌, ◌⊎◌, refl, true, false, List, [], ◌∷◌, contains, distinct, length,
  nat_eq, list_eq, arith, inl, inr, Bool-cases, ==_refl, subst, ==-eq,
}
use forgeguard.Base.Assoc.{contains_key, lookup, lookup_of_contains_key}
use forgeguard.Base.Result.{Result, ok, err, ◌>>=◌}
use forgeguard.Authz.Rbac.{
  InheritanceWalker, Names, RbacEntry, Fault, failed, out_of_fuel, not_found_message, cycle_message,
  unknown_message, collect, maps, walker, resolve_inherits,
}
use forgeguard.Authz.Rbac.Walk.{
  Allowed, own, inherited, Closed, Failed, Outcome, Reaches, Inherits, visited-of_Reaches,
}
use forgeguard.Authz.Rbac.Walk.Whole.{collect-Outcome}

abbrev pub rbac_of : List RbacEntry → Names
rbac_of entries = (maps entries ([], [])).0

abbrev pub inherits_of : List RbacEntry → Names
inherits_of entries = (maps entries ([], [])).1

-- What is allowed to a visited role is collected, once all visited roles are done.
collected-of_Allowed :
    (rbac_map inherits_map : Names) (w : InheritanceWalker) (a role : Str)
    → Closed rbac_map inherits_map w
    → contains w.visited role ≡ true
    → Allowed rbac_map inherits_map a role
    → contains w.collected a ≡ true
collected-of_Allowed rbac_map inherits_map w a role closed v (own actions l m) =
    (closed role v).0 actions a l m
collected-of_Allowed rbac_map inherits_map w a role closed v (inherited p m al) =
    collected-of_Allowed rbac_map inherits_map w a p closed ((closed role v).1 p m) al

-- The actions are those that the role may do, each once; the role and all that it inherits from are
-- there, and none inherits from itself.
abbrev pub AreActions : List RbacEntry → Str → List Str → Type 0
AreActions entries target actions =
    (distinct actions ≡ true)
    × ((a : Str)
        → (contains actions a ≡ true) ↔ Allowed (rbac_of entries) (inherits_of entries) a target)
    × ((role : Str)
        → Reaches (inherits_of entries) target role
        → (contains_key (rbac_of entries) role ≡ true)
          × (Inherits (inherits_of entries) role role → ⊥))

-- Why the resolution fails.
abbrev pub Refused : List RbacEntry → Str → Str → Type 0
Refused entries target message =
    ((message ≡ not_found_message target) × (contains_key (rbac_of entries) target ≡ false))
    ⊎ (((role : Str) × (message ≡ cycle_message role)
          × Reaches (inherits_of entries) target role
          × Inherits (inherits_of entries) role role)
        ⊎ ((role : Str) × (message ≡ unknown_message role)
            × Inherits (inherits_of entries) target role
            × (lookup role (rbac_of entries) ≡ none)))

-- Why a walk from a role that is there fails.
Refused-of_Failed :
    (entries : List RbacEntry) (target message : Str)
    → contains_key (rbac_of entries) target ≡ true
    → Failed (rbac_of entries) (inherits_of entries) (target ∷ []) message
    → Refused entries target message
Refused-of_Failed entries target message there (start, m, inl (role, text, way, around)) =
    let same : start ≡ target = ==-eq start target (ground arith) in
    inr (inl (role, text, subst (λ x. Reaches (inherits_of entries) x role) same way, around))
Refused-of_Failed entries target message there (start, m, inr (role, text, inl e, absent)) =
    let same : start ≡ target = ==-eq start target (ground arith) in
    let (_, found) = lookup_of_contains_key (rbac_of entries) target there in
    cc (found, absent, e, same)
Refused-of_Failed entries target message there (start, m, inr (role, text, inr way, absent)) =
    let same : start ≡ target = ==-eq start target (ground arith) in
    inr (inr (role, text, subst (λ x. Inherits (inherits_of entries) x role) same way, absent))

-- `resolve_inherits` always ends within its fuel. It gives the actions of the role and of all roles
-- that it inherits from, each once and no other, and then all of these roles are there and none
-- inherits from itself; or it says that the role is not there, that the role or one that it inherits
-- from inherits from itself, or that a role that it inherits from is not there, and then that is so.
pub resolve_inherits_lem :
    (entries : List RbacEntry) (target : Str)
    → ((actions : List Str) × (resolve_inherits entries target ≡ ok actions)
        × AreActions entries target actions)
      ⊎ ((message : Str) × (resolve_inherits entries target ≡ err (failed message))
          × Refused entries target message)
unfolding resolve_inherits
resolve_inherits_lem entries target = elim (Bool-cases (contains_key (rbac_of entries) target)) [
  | inr absent ↦
      inr (not_found_message target, rw (absent, resolve_inherits) refl, inl (refl, absent))
  | inl there ↦
      conclude there
        (collect (rbac_of entries) (inherits_of entries) (suc (length (rbac_of entries))) target
          walker)
        (rw (there, resolve_inherits) refl)
        (collect-Outcome (rbac_of entries) (inherits_of entries) (suc (length (rbac_of entries)))
          target walker (record { distinct_roles = refl; defined = refl; above = λ v h. cc })
          (record { once = refl; seen = λ a. refl }) (λ role h. cc) (omega arith))
]
  where
    conclude :
        contains_key (rbac_of entries) target ≡ true
        → (r : Result Fault InheritanceWalker)
        → resolve_inherits entries target ≡ (r >>= λ w. ok w.collected)
        → Outcome (rbac_of entries) (inherits_of entries) (target ∷ []) walker r
        → ((actions : List Str) × (resolve_inherits entries target ≡ ok actions)
            × AreActions entries target actions)
          ⊎ ((message : Str) × (resolve_inherits entries target ≡ err (failed message))
              × Refused entries target message)
    conclude there (err (failed message)) run bad =
        inr (message, run, Refused-of_Failed entries target message there bad)
    conclude there (err out_of_fuel) run bad = absurd bad
    conclude there (ok w) run (g, visited, from) = inl (
      w.collected,
      run,
      (
        g.tidy.once,
        (λ a. (
          (λ h. elim (from a h) [
            | inl before ↦ cc
            | inr (p, m, al) ↦
                subst (Allowed (rbac_of entries) (inherits_of entries) a)
                  (==-eq p target (ground arith)) al
          ]),
          collected-of_Allowed (rbac_of entries) (inherits_of entries) w a target g.closed
              (visited target (ground (arith, ==_refl target))),
        )),
        λ role way.
            let done = g.closed role (
              visited-of_Reaches (rbac_of entries) (inherits_of entries) w target role g.closed
                (visited target (ground (arith, ==_refl target))) way) in
            (done.2, done.3),
      ),
    )
