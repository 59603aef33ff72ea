-- ===== src/Core/Org.antt =====
-- crates/core/src/org.rs: organizations and their life cycle. The times are of a type that is a
-- parameter, chrono's `DateTime<Utc>`.
pub mod Lifetime
mod Tests
use forgeguard.Base.{Str, Bool, true, false, List, [], ◌∷◌, ◌++◌, Option, none, some, codes}
use forgeguard.Base.Result.{ok, err, ◌>>=◌, ◌>>◌, ensure}
use forgeguard.Core.Error.{Error, CoreResult}
use forgeguard.Core.Segment.{Segment}

pub data OrgStatus : Type 0 where
  draft active suspended deleting deleted : OrgStatus

unfoldable pub can_transition_to : OrgStatus → OrgStatus → Bool
can_transition_to draft active = true
can_transition_to active suspended = true
can_transition_to suspended active = true
can_transition_to active deleting = true
can_transition_to suspended deleting = true
can_transition_to deleting deleted = true
can_transition_to status target = false

abbrev pub status_text : OrgStatus → Str
status_text draft = codes "draft"
status_text active = codes "active"
status_text suspended = codes "suspended"
status_text deleting = codes "deleting"
status_text deleted = codes "deleted"

-- The arrow of the error's text, between spaces, in UTF-8.
abbrev arrow : Str
arrow = 32 ∷ 226 ∷ 134 ∷ 146 ∷ 32 ∷ []

pub record Organization (Time : Type 0) : Type 0 where
  pub org_id : Segment
  pub name : Str
  pub status : OrgStatus
  pub cognito_pool_id : Option Str
  pub cognito_jwks_url : Option Str
  pub policy_store_id : Option Str
  pub created_at : Time
  pub updated_at : Time

unfoldable pub org_new : {Time : Type 0} → Segment → Str → OrgStatus → Time → Organization Time
org_new org_id name status now = record {
  org_id = org_id;
  name = name;
  status = status;
  cognito_pool_id = none;
  cognito_jwks_url = none;
  policy_store_id = none;
  created_at = now;
  updated_at = now;
}

unfoldable pub transition_to :
    {Time : Type 0} → Organization Time → OrgStatus → Time → CoreResult (Organization Time)
transition_to o target now = do
  ensure (can_transition_to o.status target) (
      Error.parse "org_status" (status_text o.status ++ arrow ++ status_text target)
        "invalid status transition")
  ok (record o { status = target; updated_at = now })

unfoldable pub update_name : {Time : Type 0} → Organization Time → Str → Time → Organization Time
update_name o name now = record o { name = name; updated_at = now }
