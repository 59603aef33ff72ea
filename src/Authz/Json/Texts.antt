-- ===== src/Authz/Json/Texts.antt =====
-- JSON values that are texts, objects and `null`: the interface of the values has such an
-- implementation.
use forgeguard.Base.{
  ◌≡◌, ◌↔◌, refl, Str, Bool, true, false, ◌&&◌, List, [], ◌∷◌, Option, none, some, ◌==◌,
  if◌then◌else◌, nat_eq, list_eq, list_beq, list_beq_iff, arith,
}
use forgeguard.Base.Assoc.{lookup}
use forgeguard.Authz.Json.{Json}

mutual
  pub data Value : Type 0 where
    null : Value
    text : Str → Value
    object : Fields → Value

  pub data Fields : Type 0 where
    nothing : Fields
    field : Str → Value → Fields → Fields

abbrev fields_of : List (Str × Value) → Fields
fields_of [] = nothing
fields_of ((k, v) ∷ fields) = field k v (fields_of fields)

abbrev get_field : Str → Fields → Option Value
get_field k nothing = none
get_field k (field j v fields) = if j == k then some v else get_field k fields

pub get_field-fields_of :
    (k : Str) (fields : List (Str × Value)) → get_field k (fields_of fields) ≡ lookup k fields
unfolding lookup
get_field-fields_of k [] = refl
get_field-fields_of k ((j, v) ∷ fields) = ground (arith, get_field-fields_of k fields)

abbrev string_of : Value → Option Str
string_of (text s) = some s
string_of null = none
string_of (object fields) = none

abbrev get : Value → Str → Option Value
get (object fields) k = get_field k fields
get null k = none
get (text s) k = none

abbrev is_an_object : Value → Bool
is_an_object (object fields) = true
is_an_object null = false
is_an_object (text s) = false

abbrev mutual
  value_beq : Value → Value → Bool
  value_beq null null = true
  value_beq (text s) (text t) = list_beq s t
  value_beq (object f) (object g) = fields_beq f g
  value_beq _ _ = false

  fields_beq : Fields → Fields → Bool
  fields_beq nothing nothing = true
  fields_beq (field j v f) (field k w g) = list_beq j k && value_beq v w && fields_beq f g
  fields_beq _ _ = false

same_field :
    (j k : Str) (v w : Value) (f g : Fields) (a b c : Bool)
    → ((a ≡ true) ↔ (j ≡ k))
    → ((b ≡ true) ↔ (v ≡ w))
    → ((c ≡ true) ↔ (f ≡ g))
    → ((a && b && c) ≡ true) ↔ (field j v f ≡ field k w g)
same_field j k v w f g true true true p q r = ((λ h. cc (p.0 refl, q.0 refl, r.0 refl)), λ e. refl)
same_field j k v w f g false b c p q r = ((λ h. cc), λ e. p.1 (cc e))
same_field j k v w f g true false c p q r = ((λ h. cc), λ e. q.1 (cc e))
same_field j k v w f g true true false p q r = ((λ h. cc), λ e. r.1 (cc e))

mutual
  pub value_beq_iff : (v w : Value) → (value_beq v w ≡ true) ↔ (v ≡ w)
  value_beq_iff null null = ground arith
  value_beq_iff (text s) (text t) = ground (arith, list_beq_iff s t)
  value_beq_iff (object f) (object g) = ground (arith, fields_beq_iff f g)
  value_beq_iff null (text t) = ground arith
  value_beq_iff null (object g) = ground arith
  value_beq_iff (text s) null = ground arith
  value_beq_iff (text s) (object g) = ground arith
  value_beq_iff (object f) null = ground arith
  value_beq_iff (object f) (text t) = ground arith

  fields_beq_iff : (f g : Fields) → (fields_beq f g ≡ true) ↔ (f ≡ g)
  fields_beq_iff nothing nothing = ground arith
  fields_beq_iff (field j v f) (field k w g) =
      same_field j k v w f g (list_beq j k) (value_beq v w) (fields_beq f g) (list_beq_iff j k)
        (value_beq_iff v w) (fields_beq_iff f g)
  fields_beq_iff nothing (field k w g) = ground arith
  fields_beq_iff (field j v f) nothing = ground arith

abbrev pub json : Json
json = record {
  Value = Value;
  null = null;
  string = text;
  object = λ fields. object (fields_of fields);
  as_str = string_of;
  is_object = is_an_object;
  get = get;
  beq = value_beq;
  as_str-string = λ s. refl;
  as_str-null = refl;
  is_object-object = λ fields. refl;
  get-object = λ fields k d. get_field-fields_of k fields;
  beq_iff = value_beq_iff;
}
