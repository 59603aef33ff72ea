-- ===== src/ControlPlane/SigningKey/Tests.antt =====
-- An organization with a key that is active and one that is revoked, on a clock of hours.
use forgeguard.Base.{
  ◌≡◌, ◌⊎◌, ◌+◌, refl, ℕ, Str, true, false, not, ◌&&◌, List, [], ◌∷◌, none, codes, ltb, ◌==◌,
  nat_eq, list_eq, if◌then◌else◌,
}
use forgeguard.Base.Result.{ok, err}
use forgeguard.ControlPlane.Error.{Error}
use forgeguard.ControlPlane.SigningKey.{
  Clock, SigningKeyStatus, active, revoked, SigningKeyEntry, rotate_entries, revoke_entries,
}
use forgeguard.ControlPlane.SigningKey.Rotation.{
  usable, has_active, kept_or, rotate_entries-usable, revoke_entries-usable,
}

abbrev hours : Clock
hours = record { Time = ℕ; Duration = ℕ; before = ltb; plus = λ t d. t + d }

abbrev key : Str → SigningKeyStatus hours → SigningKeyEntry hours
key id status = record {
  key_id = id;
  public_key_pem = codes "pem";
  status = status;
  created_at = 1;
  expires_at = none;
}

abbrev existing : List (SigningKeyEntry hours)
existing = key (codes "k1") active ∷ key (codes "k0") revoked ∷ []

abbrev new_key : SigningKeyEntry hours
new_key = key (codes "k2") active

rotate_entries-usable_example :
    ((keys : List (SigningKeyEntry hours)) × (rotate_entries existing (codes "k1") new_key 5 24
        ≡ ok keys)
      × (has_active existing (codes "k1") ≡ true)
      × ((id : Str) (t : ℕ)
          → usable keys id t ≡ (
              if id == codes "k1"
              then ltb t 29
              else if id == codes "k2"
              then true
              else usable existing id t)))
    ⊎ ((e : Error) × (rotate_entries existing (codes "k1") new_key 5 24 ≡ err e)
        × (has_active existing (codes "k1") ≡ false))
rotate_entries-usable_example = rotate_entries-usable existing (codes "k1") new_key 5 24 refl refl

revoke_entries-usable_example :
    usable (kept_or existing (revoke_entries existing (codes "k1"))) (codes "k1") 7
    ≡ (not (codes "k1" == codes "k1") && usable existing (codes "k1") 7)
revoke_entries-usable_example = revoke_entries-usable existing (codes "k1") refl (codes "k1") 7
