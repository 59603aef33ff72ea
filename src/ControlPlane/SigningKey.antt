-- ===== src/ControlPlane/SigningKey.antt =====
-- crates/control-plane/src/signing_key.rs: the keys that an organization's requests are signed with.
-- Times are those of a clock that is a parameter, chrono's `DateTime<Utc>`.
pub mod Rotation
mod Tests
use forgeguard.Base.{
  Str, Bool, true, false, List, [], ◌∷◌, ◌++◌, Option, none, some, codes, ◌==◌, nat_eq, list_eq,
}
use forgeguard.Base.Result.{Result, ok, err, ◌>>=◌, ◌>>◌}
use forgeguard.ControlPlane.Error.{Error, conflict, not_found, store}

-- `<` of two times, and a time that a grace period is added to.
pub record Clock : Type 1 where
  pub Time : Type 0
  pub Duration : Type 0
  pub before : Time → Time → Bool
  pub plus : Time → Duration → Time

module _ (clock : Clock) where
  pub data SigningKeyStatus : Type 0 where
    active : SigningKeyStatus
    rotating : (expires_at : clock.Time) → SigningKeyStatus
    revoked : SigningKeyStatus

  pub record SigningKeyEntry : Type 0 where
    pub key_id : Str
    pub public_key_pem : Str
    pub status : SigningKeyStatus
    pub created_at : clock.Time
    pub expires_at : Option clock.Time

  pub record GenerateKeyResult : Type 0 where
    pub key_id : Str
    pub private_key_pem : Str
    pub public_key_pem : Str
    pub created_at : clock.Time

key_text : Str → Str → Str
key_text target what = codes "signing key '" ++ (target ++ (codes "'" ++ what))

module _ {clock : Clock} where
  unfoldable pub entry_new : SigningKeyEntry clock → Result Error (SigningKeyEntry clock)
  entry_new e = elim e.key_id [ [] ↦ err (store (codes "key_id must not be empty")) | b ∷ s ↦ ok e ]

  abbrev pub is_active : SigningKeyEntry clock → clock.Time → Bool
  is_active e now = elim e.status [
    | active ↦ true
    | rotating expires_at ↦ clock.before now expires_at
    | revoked ↦ false
  ]

  abbrev pub revoke : SigningKeyEntry clock → SigningKeyEntry clock
  revoke e = record e { status = revoked; expires_at = none }

  abbrev pub begin_rotating : SigningKeyEntry clock → clock.Time → SigningKeyEntry clock
  begin_rotating e expires_at = record e {
    status = rotating expires_at;
    expires_at = some expires_at;
  }

  -- `GenerateKeyResult::to_entry`
  unfoldable pub to_entry : GenerateKeyResult clock → Result Error (SigningKeyEntry clock)
  to_entry r = entry_new (record {
    key_id = r.key_id;
    public_key_pem = r.public_key_pem;
    status = active;
    created_at = r.created_at;
    expires_at = none;
  })

  -- The keys before the first one of that id, that key, and the keys after it: `position`, and the
  -- index of the element that is changed.
  pub split_at_key :
      Str
      → List (SigningKeyEntry clock)
      → Option (List (SigningKeyEntry clock) × SigningKeyEntry clock × List (SigningKeyEntry clock))
  split_at_key target [] = none
  split_at_key target (e ∷ keys) = elim (e.key_id == target) [
    | true ↦ some ([], e, keys)
    | false ↦ elim (split_at_key target keys) [
      | none ↦ none
      | some (before, found, after) ↦ some (e ∷ before, found, after)
    ]
  ]

  check_rotates : Str → SigningKeyStatus clock → Result Error (Unit {0})
  unfolding key_text
  check_rotates target active = ok tt
  check_rotates target (rotating t) =
      err (conflict (key_text target (codes " is already rotating")))
  check_rotates target revoked = err (conflict (key_text target (codes " is revoked")))

  unfoldable pub rotate_entries :
      List (SigningKeyEntry clock)
      → Str
      → SigningKeyEntry clock
      → clock.Time
      → clock.Duration
      → Result Error (List (SigningKeyEntry clock))
  unfolding split_at_key check_rotates key_text
  rotate_entries existing target_key_id new_entry now grace =
      elim (split_at_key target_key_id existing) [
        | none ↦ err (not_found (key_text target_key_id (codes " not found")))
        | some (before, found, after) ↦ (do
          check_rotates target_key_id found.status
          ok (before ++ begin_rotating found (clock.plus now grace) ∷ (after ++ new_entry ∷ [])))
      ]

  is_revoked : SigningKeyStatus clock → Bool
  is_revoked revoked = true
  is_revoked status = false

  unfoldable pub revoke_entries :
      List (SigningKeyEntry clock) → Str → Option (List (SigningKeyEntry clock))
  unfolding split_at_key is_revoked
  revoke_entries existing target_key_id = elim (split_at_key target_key_id existing) [
    | none ↦ none
    | some (before, found, after) ↦ elim (is_revoked found.status) [
      | true ↦ none
      | false ↦ some (before ++ revoke found ∷ after)
    ]
  ]
