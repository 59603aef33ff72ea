-- ===== src/Authz/Json.antt =====
-- What the code relies on of `serde_json::Value`, which is not in the repository: the operations
-- that it calls and their documented behaviour.
pub mod Texts
use forgeguard.Base.{Str, ◌≡◌, ◌↔◌, Bool, true, List, Option, none, some, nat_eq, list_eq, distinct}
use forgeguard.Base.Assoc.{lookup, keys}

pub record Json : Type 1 where
  pub Value : Type 0
  pub null : Value
  pub string : Str → Value
  -- The `json!` literal of an object.
  pub object : List (Str × Value) → Value
  pub as_str : Value → Option Str
  pub is_object : Value → Bool
  -- `Value::get` at a text: `None` where the value is no object or has no such field.
  pub get : Value → Str → Option Value
  pub beq : Value → Value → Bool
  pub as_str-string : (s : Str) → as_str (string s) ≡ some s
  pub as_str-null : as_str null ≡ none
  pub is_object-object : (fields : List (Str × Value)) → is_object (object fields) ≡ true
  pub get-object :
      (fields : List (Str × Value)) (k : Str)
      → distinct (keys fields) ≡ true
      → get (object fields) k ≡ lookup k fields
  pub beq_iff : (a b : Value) → (beq a b ≡ true) ↔ (a ≡ b)

-- `value[field]`, which gives `Null` where `get` gives `None`.
abbrev pub index : (json : Json) → json.Value → Str → json.Value
index json v field = elim (json.get v field) [ none ↦ json.null | some x ↦ x ]
