-- ===== src/Authz/Rbac.antt =====
-- crates/authz-core/src/rbac/mod.rs: roles and their inheritance. The maps from a role's name are
-- association lists; the sets of the walker are lists without repetition.
pub mod Add
pub mod Walk
pub mod Resolve
pub mod Compile
pub mod Validation
pub mod Permits
mod Tests
use forgeguard.Base.{
  ℕ, zero, suc, Str, Bool, true, false, not, List, [], ◌∷◌, ◌++◌, Option, none, some, codes,
  contains, ◌==◌, nat_eq, list_eq, length, if◌then◌else◌,
}
use forgeguard.Base.Assoc.{lookup, insert, contains_key}
use forgeguard.Base.Sets.{insert_set, remove_set}
use forgeguard.Base.Result.{Result, ok, err, ◌>>=◌, ◌>>◌, ensure}

pub record RbacEntry : Type 0 where
  pub name : Str
  pub description : Option Str
  pub inherits : List Str
  pub allow : List Str
  pub tenant_scoped : Bool

abbrev pub Names : Type 0
Names = List (Str × List Str)

-- What a role that is walked through ends in: a message, or the fuel of this model.
pub data Fault : Type 0 where
  failed : Str → Fault
  out_of_fuel : Fault

-- "{CYCLE_PREFIX} in role inheritance: '{role}'"
abbrev pub cycle_message : Str → Str
cycle_message role =
    codes "cycle detected" ++ (codes " in role inheritance: '" ++ (role ++ codes "'"))

abbrev pub unknown_message : Str → Str
unknown_message role =
    codes "RBAC role '" ++ (role ++ codes "' not found (referenced via inherits)")

abbrev pub not_found_message : Str → Str
not_found_message role = codes "RBAC role '" ++ (role ++ codes "' not found")

pub record InheritanceWalker : Type 0 where
  pub collected : List Str
  pub seen_actions : List Str
  pub visiting : List Str
  pub visited : List Str

-- The loop over the role's own actions.
unfoldable pub add_actions : List Str → InheritanceWalker → InheritanceWalker
add_actions [] w = w
add_actions (action ∷ actions) w =
    if contains w.seen_actions action
    then add_actions actions w
    else add_actions actions (record w {
      collected = w.collected ++ action ∷ [];
      seen_actions = insert_set action w.seen_actions;
    })

-- The loop over the parents.
unfoldable pub collect_all :
    (Str → InheritanceWalker → Result Fault InheritanceWalker)
    → List Str
    → InheritanceWalker
    → Result Fault InheritanceWalker
collect_all step [] w = ok w
collect_all step (parent ∷ parents) w = do next ← step parent w; collect_all step parents next

abbrev pub parents_of : Names → Str → List Str
parents_of inherits_map role = elim (lookup role inherits_map) [
  | none ↦ []
  | some parents ↦ parents
]

-- The walker on its way into a role, and out of it.
abbrev pub enter : Str → List Str → InheritanceWalker → InheritanceWalker
enter role actions w = add_actions actions (record w { visiting = role ∷ w.visiting })

abbrev pub leave : Str → InheritanceWalker → InheritanceWalker
leave role w = record w {
  visiting = remove_set role w.visiting;
  visited = insert_set role w.visited;
}

-- `InheritanceWalker::collect`
unfoldable pub collect :
    Names → Names → ℕ → Str → InheritanceWalker → Result Fault InheritanceWalker
collect rbac_map inherits_map zero role w = err out_of_fuel
collect rbac_map inherits_map (suc fuel) role w = elim (contains w.visiting role) [
  | true ↦ err (failed (cycle_message role))
  | false ↦ elim (contains w.visited role) [
    | true ↦ ok w
    | false ↦ elim (lookup role rbac_map) [
      | none ↦ err (failed (unknown_message role))
      | some actions ↦ (do
        inner ←
            collect_all (λ p v. collect rbac_map inherits_map fuel p v)
              (parents_of inherits_map role) (enter role actions w)
        ok (leave role inner))
    ]
  ]
]

-- The maps by name; a later entry of a name replaces an earlier one.
abbrev pub maps : List RbacEntry → Names × Names → Names × Names
maps [] m = m
maps (entry ∷ entries) (rbac_map, inherits_map) =
    maps entries
      (insert entry.name entry.allow rbac_map, insert entry.name entry.inherits inherits_map)

abbrev walker : InheritanceWalker
walker = record { collected = []; seen_actions = []; visiting = []; visited = [] }

-- `resolve_inherits`, with fuel for one level more than there are roles.
unfoldable pub resolve_inherits : List RbacEntry → Str → Result Fault (List Str)
resolve_inherits entries target_name =
    let (rbac_map, inherits_map) = maps entries ([], []) in
    elim (contains_key rbac_map target_name) [
      | false ↦ err (failed (not_found_message target_name))
      | true ↦ (do
        w ← collect rbac_map inherits_map (suc (length rbac_map)) target_name walker
        ok w.collected)
    ]
