-- ===== src/Authz/Kind.antt =====
-- crates/authz-core/src/event/kind.rs: the kinds of events.
use forgeguard.Base.{
  Str, ◌≡◌, ◌↔◌, refl, Bool, true, false, List, [], ◌∷◌, codes, nat_eq, list_beq, list_beq_iff,
  arith, if◌then◌else◌, Bool-cases, inl, inr,
}
use forgeguard.Base.Result.{ok, err}
use forgeguard.Authz.Error.{Error, AuthzResult}

pub data EventKind : Type 0 where
  org_created org_updated org_unit_put principal_upserted principal_set_put grant_added : EventKind
  grant_removed resource_promoted resource_tombstoned deny_created deny_removed : EventKind
  org_activated org_suspended org_restored org_key_generated org_key_revoked : EventKind
  org_key_rotated group_put group_deleted : EventKind

abbrev pub as_str : EventKind → Str
as_str org_created = codes "org.created"
as_str org_updated = codes "org.updated"
as_str org_unit_put = codes "org_unit.put"
as_str principal_upserted = codes "principal.upserted"
as_str principal_set_put = codes "principal_set.put"
as_str grant_added = codes "grant.added"
as_str grant_removed = codes "grant.removed"
as_str resource_promoted = codes "resource.promoted"
as_str resource_tombstoned = codes "resource.tombstoned"
as_str deny_created = codes "deny.created"
as_str deny_removed = codes "deny.removed"
as_str org_activated = codes "org.activated"
as_str org_suspended = codes "org.suspended"
as_str org_restored = codes "org.restored"
as_str org_key_generated = codes "org.key_generated"
as_str org_key_revoked = codes "org.key_revoked"
as_str org_key_rotated = codes "org.key_rotated"
as_str group_put = codes "group.put"
as_str group_deleted = codes "group.deleted"

unfoldable pub narrowing : EventKind → Bool
narrowing grant_removed = true
narrowing resource_tombstoned = true
narrowing deny_created = true
narrowing org_suspended = true
narrowing org_key_revoked = true
narrowing group_put = true
narrowing group_deleted = true
narrowing _ = false

-- The arms of `from_str`, in their order.
abbrev arms : List (Str × EventKind)
arms =
    (codes "org.created", org_created)
    ∷ (codes "org.updated", org_updated)
    ∷ (codes "org_unit.put", org_unit_put)
    ∷ (codes "principal.upserted", principal_upserted)
    ∷ (codes "principal_set.put", principal_set_put)
    ∷ (codes "grant.added", grant_added)
    ∷ (codes "grant.removed", grant_removed)
    ∷ (codes "resource.promoted", resource_promoted)
    ∷ (codes "resource.tombstoned", resource_tombstoned)
    ∷ (codes "deny.created", deny_created)
    ∷ (codes "deny.removed", deny_removed)
    ∷ (codes "org.activated", org_activated)
    ∷ (codes "org.suspended", org_suspended)
    ∷ (codes "org.restored", org_restored)
    ∷ (codes "org.key_generated", org_key_generated)
    ∷ (codes "org.key_revoked", org_key_revoked)
    ∷ (codes "org.key_rotated", org_key_rotated)
    ∷ (codes "group.put", group_put)
    ∷ (codes "group.deleted", group_deleted)
    ∷ []

first_arm : Str → List (Str × EventKind) → AuthzResult EventKind
first_arm s [] = err (Error.unknown_event_kind s)
first_arm s ((text, kind) ∷ rest) = if list_beq s text then ok kind else first_arm s rest

unfoldable pub from_str : Str → AuthzResult EventKind
unfolding first_arm
from_str s = first_arm s arms

-- The wire name of every kind is read back as that kind.
pub from_str-as_str : (k : EventKind) → from_str (as_str k) ≡ ok k
unfolding from_str
from_str-as_str org_created = refl
from_str-as_str k = refl

-- An arm list in which every text is the name of its kind.
abbrev AreNames : List (Str × EventKind) → Type 0
AreNames [] = Unit
AreNames ((text, kind) ∷ rest) = (text ≡ as_str kind) × AreNames rest

first_arm_sound :
    (s : Str) (rest : List (Str × EventKind)) (k : EventKind)
    → AreNames rest
    → first_arm s rest ≡ ok k
    → s ≡ as_str k
unfolding first_arm
first_arm_sound s [] k names h = cc
first_arm_sound s ((text, kind) ∷ rest) k (name, names) h = elim (Bool-cases (list_beq s text)) [
  | inl same ↦ let found : kind ≡ k = ground arith in cc (found, name, (list_beq_iff s text).0 same)
  | inr other ↦ first_arm_sound s rest k names (rw other at h)
]

-- `from_str` and the wire names are inverse to one another: a text is read as a kind exactly when it
-- is the wire name of that kind.
pub from_str-iff-as_str : (s : Str) (k : EventKind) → (from_str s ≡ ok k) ↔ (s ≡ as_str k)
unfolding from_str
from_str-iff-as_str s k = (
  first_arm_sound s arms k (
    refl,
    (
      refl,
      (
        refl,
        (
          refl,
          (
            refl,
            (
              refl,
              (
                refl,
                (
                  refl,
                  (
                    refl,
                    (
                      refl,
                      (refl, (refl, (refl, (refl, (refl, (refl, (refl, (refl, (refl, tt))))))))),
                    ),
                  ),
                ),
              ),
            ),
          ),
        ),
      ),
    ),
  ),
  λ e. rw e (from_str-as_str k),
)
