-- ===== src/Core/Org/Tests.antt =====
-- An organization that is suspended and one that is new.
use forgeguard.Base.{◌≡◌, ◌↔◌, refl, ℕ, true, none, some, codes}
use forgeguard.Base.Result.{ok}
use forgeguard.Core.Segment.{Segment}
use forgeguard.Core.Verb.{verb_eq}
use forgeguard.Core.Fgrn.{fgrn_eq}
use forgeguard.Core.Org.{
  Organization, draft, active, suspended, deleted, org_new, transition_to, can_transition_to,
}
use forgeguard.Core.Org.Lifetime.{transition_to-iff-can_become, can_become, Becomes}

abbrev acme : Segment
acme = record { raw = codes "acme" }

-- An organization that is suspended, at the time 7.
abbrev resting : Organization ℕ
resting = record {
  org_id = acme;
  name = codes "Acme";
  status = suspended;
  cognito_pool_id = none;
  cognito_jwks_url = none;
  policy_store_id = some (codes "ps-1");
  created_at = 1;
  updated_at = 7;
}

transition_to-iff-can_become_example :
    Becomes resting deleted ↔ (can_become resting.status deleted ≡ true)
transition_to-iff-can_become_example = transition_to-iff-can_become resting deleted 8

restored : transition_to resting active 9 ≡ ok (record resting { status = active; updated_at = 9 })
unfolding transition_to can_transition_to
restored = refl

activated :
    transition_to {Time = ℕ} (org_new acme (codes "Acme") draft 1) active 2
    ≡ ok (record {
      org_id = acme;
      name = codes "Acme";
      status = active;
      cognito_pool_id = none;
      cognito_jwks_url = none;
      policy_store_id = none;
      created_at = 1;
      updated_at = 2;
    })
unfolding transition_to can_transition_to org_new
activated = refl
