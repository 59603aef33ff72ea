-- ===== src/Core/Org/Lifetime.antt =====
-- The life of an organization, a run of `transition_to` and `update_name`.
use forgeguard.Base.{Str, ◌≡◌, ◌↔◌, refl, sym, ap, ◌∙◌, subst, Bool, true, false, nat_eq}
use forgeguard.Base.Result.{ok, ensure, >>=-eq-ok, ensure-eq-ok}
use forgeguard.Core.Org.{
  OrgStatus, draft, active, suspended, deleting, deleted, can_transition_to, Organization,
  transition_to, update_name,
}

pub data Lifetime (Time : Type 0) : Organization Time → Organization Time → Type 0 where
  ended : {o : Organization Time} → Lifetime Time o o
  moved :
      {o p q : Organization Time} (target : OrgStatus) (now : Time)
      → transition_to o target now ≡ ok p
      → Lifetime Time p q
      → Lifetime Time o q
  renamed :
      {o q : Organization Time} (name : Str) (now : Time)
      → Lifetime Time (update_name o name now) q
      → Lifetime Time o q

-- A draft can become anything; a live organization can be suspended and restored, and be deleted, but
-- is never again a draft; a deletion ends and is final.
abbrev pub can_become : OrgStatus → OrgStatus → Bool
can_become draft s = true
can_become s draft = false
can_become active s = true
can_become suspended s = true
can_become deleting active = false
can_become deleting suspended = false
can_become deleting s = true
can_become deleted deleted = true
can_become deleted s = false

can_become_refl : (s : OrgStatus) → can_become s s ≡ true
can_become_refl draft = refl
can_become_refl active = refl
can_become_refl suspended = refl
can_become_refl deleting = refl
can_become_refl deleted = refl

can_become_step :
    (a b c : OrgStatus)
    → can_transition_to a b ≡ true
    → can_become b c ≡ true
    → can_become a c ≡ true
unfolding can_transition_to
can_become_step draft b c t r = refl
can_become_step active suspended draft t r = cc
can_become_step active suspended c t r = refl
can_become_step active deleting draft t r = cc
can_become_step active deleting c t r = refl
can_become_step suspended active draft t r = cc
can_become_step suspended active c t r = refl
can_become_step suspended deleting draft t r = cc
can_become_step suspended deleting c t r = refl
can_become_step deleting deleted deleted t r = refl
can_become_step deleting deleted c t r = cc
can_become_step a b c t r = cc

module _ {Time : Type 0} where
  -- What no method changes.
  abbrev pub SameOrigin : Organization Time → Organization Time → Type 0
  SameOrigin o p =
      (o.org_id ≡ p.org_id)
      × (o.created_at ≡ p.created_at)
      × (o.policy_store_id ≡ p.policy_store_id)
      × (o.cognito_pool_id ≡ p.cognito_pool_id)
      × (o.cognito_jwks_url ≡ p.cognito_jwks_url)

  transition_to-eq-ok :
      (o p : Organization Time) (target : OrgStatus) (now : Time)
      → transition_to o target now ≡ ok p
      → (can_transition_to o.status target ≡ true)
        × (record o { status = target; updated_at = now } ≡ p)
  unfolding transition_to
  transition_to-eq-ok o p target now run =
      let (_, e, rest) = >>=-eq-ok (ensure (can_transition_to o.status target) _) _ run in
      (ensure-eq-ok (can_transition_to o.status target) _ e, cc rest)

  can_become-of_Lifetime :
      (o p : Organization Time)
      → Lifetime Time o p
      → (can_become o.status p.status ≡ true) × SameOrigin o p
  unfolding update_name
  can_become-of_Lifetime o p ended = (can_become_refl o.status, (refl, refl, refl, refl, refl))
  can_become-of_Lifetime o q (moved {p = p} target now run life) =
      let (may, same) = transition_to-eq-ok o p target now run in
      let (becomes, origin) = can_become-of_Lifetime p q life in
      (
        can_become_step o.status target q.status may
            (ap (λ x. can_become x.status q.status) same ∙ becomes),
        subst (λ x. SameOrigin x q) (sym same) origin,
      )
  can_become-of_Lifetime o q (renamed name now life) =
      can_become-of_Lifetime (update_name o name now) q life

  -- A life that ends in the status.
  abbrev pub Becomes : Organization Time → OrgStatus → Type 0
  Becomes o s = (p : Organization Time) × Lifetime Time o p × (p.status ≡ s)

  first_move :
      (o : Organization Time) (target s : OrgStatus) (now : Time)
      → can_transition_to o.status target ≡ true
      → Becomes (record o { status = target; updated_at = now }) s
      → Becomes o s
  unfolding transition_to
  first_move o target s now may (p, life, e) =
      (p, moved target now (rw (may, transition_to) refl) life, e)

  -- Moves on from a status, to where the rest of the life is known.
  via :
      (o : Organization Time) (target s : OrgStatus) (now : Time) {from : OrgStatus}
      → o.status ≡ from
      → can_transition_to from target ≡ true
      → ((p : Organization Time) → p.status ≡ target → Becomes p s)
      → Becomes o s
  via o target s now e may rest =
      first_move o target s now (ap (λ x. can_transition_to x target) e ∙ may)
        (rest (record o { status = target; updated_at = now }) refl)

  from_deleting :
      (o : Organization Time) (s : OrgStatus) (now : Time)
      → o.status ≡ deleting
      → can_become deleting s ≡ true
      → Becomes o s
  unfolding can_transition_to
  from_deleting o deleting now e c = (o, ended, e)
  from_deleting o deleted now e c = via o deleted deleted now e refl (λ p e'. (p, ended, e'))
  from_deleting o s now e c = cc

  from_suspended :
      (o : Organization Time) (s : OrgStatus) (now : Time)
      → o.status ≡ suspended
      → can_become suspended s ≡ true
      → Becomes o s
  unfolding can_transition_to
  from_suspended o draft now e c = cc
  from_suspended o active now e c = via o active active now e refl (λ p e'. (p, ended, e'))
  from_suspended o suspended now e c = (o, ended, e)
  from_suspended o s now e c = via o deleting s now e refl (λ p e'. from_deleting p s now e' refl)

  from_active :
      (o : Organization Time) (s : OrgStatus) (now : Time)
      → o.status ≡ active
      → can_become active s ≡ true
      → Becomes o s
  unfolding can_transition_to
  from_active o draft now e c = cc
  from_active o active now e c = (o, ended, e)
  from_active o s now e c = via o suspended s now e refl (λ p e'. from_suspended p s now e' refl)

  by_status :
      (o : Organization Time) (s : OrgStatus) (now : Time) (from : OrgStatus)
      → o.status ≡ from
      → can_become from s ≡ true
      → Becomes o s
  unfolding can_transition_to
  by_status o draft now draft e c = (o, ended, e)
  by_status o s now draft e c = via o active s now e refl (λ p e'. from_active p s now e' refl)
  by_status o s now active e c = from_active o s now e c
  by_status o s now suspended e c = from_suspended o s now e c
  by_status o s now deleting e c = from_deleting o s now e c
  by_status o deleted now deleted e c = (o, ended, e)
  by_status o s now deleted e c = cc

-- An organization can come to a status, by calls of `transition_to` and `update_name`, exactly when
-- the life cycle says so: any status for a draft; any but draft for a live one, which can be suspended
-- and restored; the end of its deletion for one that is being deleted; nothing else for a deleted one.
-- A time at which the calls are made is given.
pub transition_to-iff-can_become :
    {Time : Type 0} (o : Organization Time) (s : OrgStatus) (now : Time)
    → Becomes o s ↔ (can_become o.status s ≡ true)
transition_to-iff-can_become o s now = (
  (λ (p, life, e). sym (ap (λ x. can_become o.status x) e) ∙ (can_become-of_Lifetime o p life).0),
  λ c. by_status o s now o.status refl c,
)
