-- ===== src/Authz/Rbac/Validation.antt =====
-- crates/authz-core/src/rbac/validation.rs: what is checked before a group is written. The regex crate
-- is a parameter, `Regex`, with what its documentation says of the two patterns.
pub mod Fields
pub mod Accepted
use forgeguard.Base.{
  ℕ, Str, Bool, true, false, not, ◌&&◌, ◌||◌, List, [], ◌∷◌, ◌++◌, ◌≡◌, Option, none, some, codes,
  ltb, leb, ◌=ℕ◌, all, length, if◌then◌else◌,
}
use forgeguard.Base.Text.{is_ascii_lowercase, is_ascii_digit, split_once, starts_with}
use forgeguard.Base.Result.{Result, ok, err, ◌>>=◌, ◌>>◌, ensure, map_err}
use forgeguard.Authz.Rbac.{RbacEntry, Fault, failed, out_of_fuel, resolve_inherits}
use forgeguard.Authz.Rbac.Compile.{is_empty}

pub data GroupValidationError : Type 0 where
  bad_name_regex : Str → GroupValidationError
  bad_action_id : Str → GroupValidationError
  bad_action_format : Str → GroupValidationError
  empty_allow : GroupValidationError
  inherit_cycle : Str → GroupValidationError
  unknown_inherit : Str → GroupValidationError
  description_too_long : GroupValidationError
  name_mismatch : Str → Str → GroupValidationError

-- The error of a group, or the fuel of this model.
pub data Rejection : Type 0 where
  rejected : GroupValidationError → Rejection
  unfinished : Rejection

abbrev pub group_name_re : Str
group_name_re = codes "^[a-z][a-z0-9_-]*$"

abbrev pub action_format_re : Str
action_format_re = codes "^[a-z][a-z0-9_-]*:[a-z][a-z0-9_-]*:[a-z][a-z0-9_-]*$"

-- [a-z0-9_-]
abbrev pub name_byte : ℕ → Bool
name_byte b = is_ascii_lowercase b || (is_ascii_digit b || (b =ℕ b'_' || b =ℕ b'-'))

-- The texts of the pattern for names.
abbrev pub name_matches : Str → Bool
name_matches [] = false
name_matches (b ∷ s) = is_ascii_lowercase b && all name_byte s

-- The texts of the pattern for actions.
abbrev pub action_matches : Str → Bool
action_matches s = elim (split_once b':' s) [
  | none ↦ false
  | some (a, r) ↦
      name_matches a
      && elim (split_once b':' r) [ none ↦ false | some (b, c) ↦ name_matches b && name_matches c ]
]

pub record Regex : Type 0 where
  pub is_match : Str → Str → Bool
  pub is_match-group_name_re : (s : Str) → is_match group_name_re s ≡ name_matches s
  pub is_match-action_format_re : (s : Str) → is_match action_format_re s ≡ action_matches s

-- `map_resolve_err`
unfoldable pub map_resolve_err : Str → GroupValidationError
map_resolve_err s =
    if starts_with (codes "cycle detected") s then inherit_cycle s else unknown_inherit s

-- The description is too long if it has more than 1024 bytes.
abbrev pub is_too_long : Option Str → Bool
is_too_long none = false
is_too_long (some d) = ltb 1024 (length d)

abbrev resolved : Result Fault (List Str) → Result Rejection (Unit {0})
resolved (ok actions) = ok tt
resolved (err (failed s)) = err (rejected (map_resolve_err s))
resolved (err out_of_fuel) = err unfinished

module _ (regex : Regex) where
  unfoldable pub validate_group_name : Str → Result GroupValidationError (Unit {0})
  validate_group_name name = ensure (regex.is_match group_name_re name) (bad_name_regex name)

  pub validate_action_id : Str → Result GroupValidationError (Unit {0})
  validate_action_id action = ensure (regex.is_match group_name_re action) (bad_action_id action)

  unfoldable pub validate_action_format : Str → Result GroupValidationError (Unit {0})
  validate_action_format action =
      ensure (regex.is_match action_format_re action) (bad_action_format action)

  -- The loop over the actions.
  unfoldable pub validate_formats : List Str → Result GroupValidationError (Unit {0})
  validate_formats [] = ok tt
  validate_formats (action ∷ actions) = validate_action_format action >> validate_formats actions

  -- The checks of the fields, before the roles are resolved.
  unfoldable pub validate_fields : RbacEntry → Result GroupValidationError (Unit {0})
  validate_fields proposed = do
    validate_group_name proposed.name
    ensure (not (is_empty proposed.allow)) empty_allow
    ensure (not (is_too_long proposed.description)) description_too_long
    validate_formats proposed.allow

  -- A `ValidatedRbacEntry` is the entry that it wraps.
  unfoldable pub validate_rbac_entry : RbacEntry → List RbacEntry → Result Rejection RbacEntry
  validate_rbac_entry proposed all_after = do
    map_err rejected (validate_fields proposed)
    resolved (resolve_inherits all_after proposed.name)
    ok proposed
