-- ===== src/ControlPlane/SigningKey/Rotation.antt =====
-- Which keys may sign a request at a time, before and after a rotation or a revocation.
use forgeguard.Base.{
  ◌≡◌, ◌⊎◌, ◌∙◌, refl, sym, ap, subst, inl, inr, Str, Bool, true, false, not, codes, append_assoc,
  ◌&&◌, ◌||◌, List, [], ◌∷◌, ◌++◌, Option, none, some, ◌==◌, nat_eq, list_eq, list_beq_iff, ==-eq,
  ==_refl, contains, contains-append, distinct, any, arith, if◌then◌else◌, Option-cases, Bool-cases,
}
use forgeguard.Base.Result.{Result-cases, ok, err}
use forgeguard.ControlPlane.Error.{Error, not_found}
use forgeguard.ControlPlane.SigningKey.{
  Clock, SigningKeyStatus, active, SigningKeyEntry, is_active, revoke, begin_rotating, key_text,
  split_at_key, check_rotates, is_revoked, rotate_entries, revoke_entries,
}

module _ {clock : Clock} where
  abbrev pub key_ids : List (SigningKeyEntry clock) → List Str
  key_ids [] = []
  key_ids (e ∷ keys) = e.key_id ∷ key_ids keys

  -- A key of that id may sign at that time.
  abbrev pub usable : List (SigningKeyEntry clock) → Str → clock.Time → Bool
  usable keys id now = any (λ e. e.key_id == id && is_active e now) keys

  abbrev pub is_active_status : SigningKeyStatus clock → Bool
  is_active_status active = true
  is_active_status status = false

  -- A key of that id is neither being replaced nor revoked.
  abbrev pub has_active : List (SigningKeyEntry clock) → Str → Bool
  has_active keys id = any (λ e. e.key_id == id && is_active_status e.status) keys

  usable-append :
      (keys more : List (SigningKeyEntry clock)) (id : Str) (now : clock.Time)
      → usable (keys ++ more) id now ≡ (usable keys id now || usable more id now)
  usable-append [] more id now = refl
  usable-append (e ∷ keys) more id now = ground (arith, usable-append keys more id now)

  key_ids-append :
      (keys more : List (SigningKeyEntry clock))
      → key_ids (keys ++ more) ≡ key_ids keys ++ key_ids more
  key_ids-append [] more = refl
  key_ids-append (e ∷ keys) more = ap (λ ids. e.key_id ∷ ids) (key_ids-append keys more)

  usable_of_absent :
      (keys : List (SigningKeyEntry clock)) (id : Str) (now : clock.Time)
      → contains (key_ids keys) id ≡ false
      → usable keys id now ≡ false
  usable_of_absent [] id now h = refl
  usable_of_absent (e ∷ keys) id now h =
      ground
        (arith, usable_of_absent keys id now, list_beq_iff id e.key_id, list_beq_iff e.key_id id)

  has_active_of_absent :
      (keys : List (SigningKeyEntry clock)) (id : Str)
      → contains (key_ids keys) id ≡ false
      → has_active keys id ≡ false
  has_active_of_absent [] id h = refl
  has_active_of_absent (e ∷ keys) id h =
      ground
        (arith, has_active_of_absent keys id, list_beq_iff id e.key_id, list_beq_iff e.key_id id)

  split_at_key-none :
      (target : Str) (keys : List (SigningKeyEntry clock))
      → split_at_key target keys ≡ none
      → contains (key_ids keys) target ≡ false
  unfolding split_at_key
  split_at_key-none target [] h = refl
  split_at_key-none target (e ∷ keys) h = ground (
    arith,
    split_at_key-none target keys,
    list_beq_iff target e.key_id,
    list_beq_iff e.key_id target,
  )

  split_at_key-some :
      (target : Str) (keys : List (SigningKeyEntry clock))
      {before after : List (SigningKeyEntry clock)} {e : SigningKeyEntry clock}
      → split_at_key target keys ≡ some (before, e, after)
      → (keys ≡ before ++ e ∷ after) × (e.key_id ≡ target)
  unfolding split_at_key
  split_at_key-some target [] h = cc
  split_at_key-some target (k ∷ keys) h = elim (Bool-cases (k.key_id == target)) [
    | inl y ↦ grind (arith, list_beq_iff k.key_id target)
    | inr n ↦ elim (Option-cases (split_at_key target keys)) [
      | inl m ↦ ground arith
      | inr ((b, e', a), m) ↦ let (same, id) = split_at_key-some target keys m in grind arith
    ]
  ]

  distinct-middle :
      (before after : List (SigningKeyEntry clock)) (e : SigningKeyEntry clock)
      → distinct (key_ids (before ++ e ∷ after)) ≡ true
      → (contains (key_ids before) e.key_id ≡ false) × (contains (key_ids after) e.key_id ≡ false)
  distinct-middle [] after e h = ground arith
  distinct-middle (k ∷ before) after e h = ground (
    arith,
    distinct-middle before after e,
    ap (λ ids. contains ids k.key_id) (key_ids-append before (e ∷ after)),
    contains-append (key_ids before) (key_ids (e ∷ after)) k.key_id,
    list_beq_iff k.key_id e.key_id,
    list_beq_iff e.key_id k.key_id,
  )

  -- In a list without two keys of one id, what the key in the middle does, and the others.
  usable-middle :
      (before after : List (SigningKeyEntry clock)) (e f : SigningKeyEntry clock)
      → distinct (key_ids (before ++ e ∷ after)) ≡ true
      → f.key_id ≡ e.key_id
      → (id : Str) (now : clock.Time)
      → usable (before ++ f ∷ after) id now
        ≡ (if id == e.key_id then is_active f now else usable (before ++ e ∷ after) id now)
  usable-middle before after e f d same id now =
      let (b, a) = distinct-middle before after e d in
      elim (Bool-cases (id == e.key_id)) [
        | inl y ↦
            let p : id ≡ e.key_id = ==-eq id e.key_id y in
            ground (
              arith,
              usable-append before (f ∷ after) id now,
              usable_of_absent before id now
                  (subst (λ x. contains (key_ids before) x ≡ false) (sym p) b),
              usable_of_absent after id now
                  (subst (λ x. contains (key_ids after) x ≡ false) (sym p) a),
              list_beq_iff f.key_id id,
            )
        | inr n ↦ ground (
          arith,
          usable-append before (f ∷ after) id now,
          usable-append before (e ∷ after) id now,
          list_beq_iff id e.key_id,
          list_beq_iff e.key_id id,
          list_beq_iff f.key_id id,
        )
      ]

  has_active-middle :
      (before after : List (SigningKeyEntry clock)) (e : SigningKeyEntry clock)
      → contains (key_ids before) e.key_id ≡ false
      → contains (key_ids after) e.key_id ≡ false
      → has_active (before ++ e ∷ after) e.key_id ≡ is_active_status e.status
  has_active-middle [] after e b a =
      ground (arith, has_active_of_absent after e.key_id a, ==_refl e.key_id)
  has_active-middle (k ∷ before) after e b a = ground (
    arith,
    has_active-middle before after e,
    list_beq_iff k.key_id e.key_id,
    list_beq_iff e.key_id k.key_id,
  )

  -- A rotation succeeds exactly for a key that is active. Then that key may sign until the grace period
  -- is over and no longer, the new key may sign at any time, and what the others may do stays the same,
  -- if no two keys have one id.
  pub rotate_entries-usable :
      (existing : List (SigningKeyEntry clock)) (target : Str) (new_entry : SigningKeyEntry clock)
      (now : clock.Time) (grace : clock.Duration)
      → distinct (key_ids (existing ++ new_entry ∷ [])) ≡ true
      → new_entry.status ≡ active
      → ((keys : List (SigningKeyEntry clock)) × (rotate_entries existing target new_entry now grace
            ≡ ok keys)
          × (has_active existing target ≡ true)
          × ((id : Str) (t : clock.Time)
              → usable keys id t ≡ (
                  if id == target
                  then clock.before t (clock.plus now grace)
                  else if id == new_entry.key_id
                  then true
                  else usable existing id t)))
        ⊎ ((e : Error) × (rotate_entries existing target new_entry now grace ≡ err e)
            × (has_active existing target ≡ false))
  unfolding rotate_entries check_rotates
  rotate_entries-usable existing target new_entry now grace d h =
      elim (Option-cases (split_at_key target existing)) [
        | inl m ↦ inr (
          not_found (key_text target (codes " not found")),
          rw (m, rotate_entries) refl,
          has_active_of_absent existing target (split_at_key-none target existing m),
        )
        | inr ((b, e, a), m) ↦
            let (same, key) = split_at_key-some target existing m in
            let joined : existing ++ new_entry ∷ [] ≡ b ++ e ∷ (a ++ new_entry ∷ []) =
              ap (λ l. l ++ new_entry ∷ []) same ∙ append_assoc b (e ∷ a) (new_entry ∷ []) in
            let d' : distinct (key_ids (b ++ e ∷ (a ++ new_entry ∷ []))) ≡ true =
              subst (λ l. distinct (key_ids l) ≡ true) joined d in
            let held : has_active existing target ≡ is_active_status e.status =
              let (nb, na) = distinct-middle b (a ++ new_entry ∷ []) e d' in
              let na' : contains (key_ids a) e.key_id ≡ false = grind (
                arith,
                ap (λ ids. contains ids e.key_id) (key_ids-append a (new_entry ∷ [])),
                contains-append (key_ids a) (new_entry.key_id ∷ []) e.key_id,
              ) in
              ap (λ l. has_active l target) same
              ∙ subst (λ k. has_active (b ++ e ∷ a) k ≡ is_active_status e.status) key
                  (has_active-middle b a e nb na') in
            elim (Result-cases (check_rotates target e.status)) [
              | inr (x, refused) ↦ inr (x, rw (m, rotate_entries, refused) refl, ground arith)
              | inl (u, allowed) ↦ inl (
                b ++ begin_rotating e (clock.plus now grace) ∷ (a ++ new_entry ∷ []),
                rw (m, rotate_entries, allowed) refl,
                ground arith,
                λ id t. grind (
                  arith,
                  key,
                  ap (λ l. usable l id t) joined,
                  usable-append existing (new_entry ∷ []) id t,
                  usable-middle b (a ++ new_entry ∷ []) e (begin_rotating e (clock.plus now grace))
                      d' refl id t,
                  list_beq_iff id new_entry.key_id,
                  list_beq_iff new_entry.key_id id,
                ),
              )
            ]
      ]

  -- The keys after a revocation, which may be none.
  abbrev pub kept_or :
      List (SigningKeyEntry clock)
      → Option (List (SigningKeyEntry clock))
      → List (SigningKeyEntry clock)
  kept_or existing none = existing
  kept_or existing (some keys) = keys

  -- A revoked key never signs again, and the others stay as they are; when there is nothing to revoke,
  -- the key could not sign before, if no two keys have one id.
  pub revoke_entries-usable :
      (existing : List (SigningKeyEntry clock)) (target : Str)
      → distinct (key_ids existing) ≡ true
      → (id : Str) (t : clock.Time)
      → usable (kept_or existing (revoke_entries existing target)) id t
        ≡ (not (id == target) && usable existing id t)
  unfolding revoke_entries is_revoked
  revoke_entries-usable existing target d id t =
      elim (Option-cases (split_at_key target existing)) [
        | inl m ↦
            let absent = usable_of_absent existing target t (split_at_key-none target existing m) in
            grind (arith, m, absent, list_beq_iff id target)
        | inr ((b, e, a), m) ↦
            let (same, key) = split_at_key-some target existing m in
            let d' : distinct (key_ids (b ++ e ∷ a)) ≡ true =
              subst (λ l. distinct (key_ids l) ≡ true) same d in
            grind (
              arith,
              m,
              key,
              ap (λ l. usable l id t) same,
              usable-middle b a e (revoke e) d' refl id t,
              usable-middle b a e e d' refl id t,
            )
      ]
