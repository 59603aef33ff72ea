-- ===== src/Authz/Rbac/Walk.antt =====
-- What a walk through the roles promises, and how its parts fit together.
pub mod Collect
pub mod Whole
use forgeguard.Base.{
  ℕ, Str, ◌≡◌, ◌⊎◌, refl, Bool, true, false, not, ◌&&◌, ◌||◌, List, [], ◌∷◌, Option, none, some,
  contains, distinct, all, ◌==◌, nat_eq, list_eq, arith, inl, inr, ==_refl, ==-eq, Bool-cases, sym,
  ap, subst, ◌∙◌,
}
use forgeguard.Base.Assoc.{lookup, keys, contains_key}
use forgeguard.Base.Result.{Result, ok, err}
use forgeguard.Authz.Rbac.{
  InheritanceWalker, Names, Fault, failed, out_of_fuel, cycle_message, unknown_message, parents_of,
}
use forgeguard.Authz.Rbac.Add.{IsTidy}

-- `role` inherits from the other role, in one step or more.
pub data Inherits (inherits_map : Names) : Str → Str → Type 0 where
  once :
      {role parent : Str}
      → contains (parents_of inherits_map role) parent ≡ true
      → Inherits inherits_map role parent
  more :
      {role middle parent : Str}
      → Inherits inherits_map role middle
      → contains (parents_of inherits_map middle) parent ≡ true
      → Inherits inherits_map role parent

-- A parent's ancestors are a role's ancestors.
pub Inherits-before :
    (inherits_map : Names) {role parent other : Str}
    → contains (parents_of inherits_map role) parent ≡ true
    → Inherits inherits_map parent other
    → Inherits inherits_map role other
Inherits-before inherits_map m (once n) = more (once m) n
Inherits-before inherits_map m (more way n) = more (Inherits-before inherits_map m way) n

-- The other role is `role`, or one that it inherits from.
abbrev pub Reaches : Names → Str → Str → Type 0
Reaches inherits_map role other = (other ≡ role) ⊎ Inherits inherits_map role other

module _ (rbac_map inherits_map : Names) where
  -- The role may do the action: by its own list, or by that of a parent.
  pub data Allowed (action : Str) : Str → Type 0 where
    own :
        {role : Str} (actions : List Str)
        → lookup role rbac_map ≡ some actions
        → contains actions action ≡ true
        → Allowed action role
    inherited :
        {role : Str} (parent : Str)
        → contains (parents_of inherits_map role) parent ≡ true
        → Allowed action parent
        → Allowed action role

  -- The actions of a visited role are collected, and its parents are visited. It is defined, and does
  -- not inherit from itself.
  abbrev pub Done : InheritanceWalker → Str → Type 0
  Done w role =
      ((actions : List Str) (action : Str)
        → lookup role rbac_map ≡ some actions
        → contains actions action ≡ true
        → contains w.collected action ≡ true)
      × ((parent : Str)
          → contains (parents_of inherits_map role) parent ≡ true
          → contains w.visited parent ≡ true)
      × (contains_key rbac_map role ≡ true)
      × (Inherits inherits_map role role → ⊥)

  abbrev pub Closed : InheritanceWalker → Type 0
  Closed w = (role : Str) → contains w.visited role ≡ true → Done w role

  -- All that a role inherits from is visited, once its parents are.
  pub visited-of_Inherits :
      (w : InheritanceWalker) (role other : Str)
      → Closed w
      → ((p : Str) → contains (parents_of inherits_map role) p ≡ true → contains w.visited p ≡ true)
      → Inherits inherits_map role other
      → contains w.visited other ≡ true
  visited-of_Inherits w role other closed parents (once m) = parents other m
  visited-of_Inherits w role other closed parents (more {middle = middle} way m) =
      (closed middle (visited-of_Inherits w role middle closed parents way)).1 other m

  pub visited-of_Reaches :
      (w : InheritanceWalker) (role other : Str)
      → Closed w
      → contains w.visited role ≡ true
      → Reaches inherits_map role other
      → contains w.visited other ≡ true
  visited-of_Reaches w role other closed v (inl same) =
      subst (λ x. contains w.visited x ≡ true) (sym same) v
  visited-of_Reaches w role other closed v (inr way) =
      visited-of_Inherits w role other closed (closed role v).1 way

  pub record Grows (w w' : InheritanceWalker) : Type 0 where
    pub stays : w'.visiting ≡ w.visiting
    pub keeps : (a : Str) → contains w.collected a ≡ true → contains w'.collected a ≡ true
    pub keeps_roles : (n : Str) → contains w.visited n ≡ true → contains w'.visited n ≡ true
    pub tidy : IsTidy w'
    pub closed : Closed w'

  pub Grows-trans : (u v w : InheritanceWalker) → Grows u v → Grows v w → Grows u w
  Grows-trans u v w f g = record {
    stays = g.stays ∙ f.stays;
    keeps = λ a c. g.keeps a (f.keeps a c);
    keeps_roles = λ n c. g.keeps_roles n (f.keeps_roles n c);
    tidy = g.tidy;
    closed = g.closed;
  }

  -- What is collected was there before or is allowed to one of the roles.
  abbrev pub FromOne : List Str → InheritanceWalker → InheritanceWalker → Type 0
  FromOne roles w w' =
      (a : Str)
      → contains w'.collected a ≡ true
      → (contains w.collected a ≡ true) ⊎ ((p : Str) × (contains roles p ≡ true) × Allowed a p)

  abbrev pub AllVisited : List Str → InheritanceWalker → Type 0
  AllVisited roles w = (p : Str) → contains roles p ≡ true → contains w.visited p ≡ true

  -- Why a walk fails: one of the roles reaches a role that inherits from itself, or one that is not
  -- defined.
  abbrev pub Failed : List Str → Str → Type 0
  Failed roles message =
      (start : Str) × (contains roles start ≡ true)
      × (((role : Str) × (message ≡ cycle_message role)
            × Reaches inherits_map start role
            × Inherits inherits_map role role)
          ⊎ ((role : Str) × (message ≡ unknown_message role)
              × Reaches inherits_map start role
              × (lookup role rbac_map ≡ none)))

  -- The outcome of walking through the roles one after the other.
  abbrev pub Outcome : List Str → InheritanceWalker → Result Fault InheritanceWalker → Type 0
  Outcome roles w (ok w') = Grows w w' × AllVisited roles w' × FromOne roles w w'
  Outcome roles w (err (failed message)) = Failed roles message
  Outcome roles w (err out_of_fuel) = ⊥

  -- The roles on the way, each once and each defined, and each of them inherits from `role`.
  pub record OnTheWay (visiting : List Str) (role : Str) : Type 0 where
    pub distinct_roles : distinct visiting ≡ true
    pub defined : all (contains (keys rbac_map)) visiting ≡ true
    pub above : (v : Str) → contains visiting v ≡ true → Inherits inherits_map v role
