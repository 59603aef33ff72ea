-- ===== src/ControlPlane/EventStore/View.antt =====
-- What the maps of the store say of one organization, against the state that its log folds to.
use forgeguard.Base.{
  ℕ, ◌+◌, ◌≡◌, refl, sym, ap, subst, inl, inr, Str, false, List, [], ◌∷◌, ◌++◌, Option, none, some,
  ◌==◌, nat_eq, list_eq, pair_eq, arith, if◌then◌else◌, Bool-cases, ==-eq, ==_refl,
}
use forgeguard.Base.Assoc.{lookup, insert, lookup-insert}
use forgeguard.Authz.Event.{EventEnvelope, IsNumbered, push, latest_revision}
use forgeguard.Authz.Event.Pages.{push-IsNumbered}
use forgeguard.Authz.Event.Fold.{FoldedState, empty_at}
use forgeguard.Authz.Event.Effects.{Change, effect, effects, Records, RecordsOne}
use forgeguard.Authz.Rbac.{RbacEntry}
use forgeguard.ControlPlane.EventStore.{
  Outside, OrgRecord, Keys, WriteThrough, EventStore, new, org_payload, log_of,
}

module _ (o : Outside) where
  abbrev pub org_view : Option (OrgRecord o) → Option o.json.Value
  org_view none = none
  org_view (some r) = some (org_payload o r)

  abbrev pub keys_view : Option (Keys o) → Option o.json.Value
  keys_view none = none
  keys_view (some keys) = some (o.keys_value keys)

  abbrev pub group_view : Option RbacEntry → Option o.json.Value
  group_view none = none
  group_view (some entry) = some (o.group_value entry)

  -- The maps hold, of that organization, what the folded state holds.
  pub record Agrees (s : EventStore o) (org_id : Str) (f : FoldedState o.json) : Type 0 where
    pub principals : (id : Str) → lookup (org_id, id) s.principals ≡ lookup id f.principals
    pub promotions : (k : Str × Str) → lookup (org_id, k) s.promotions ≡ lookup k f.promotions
    pub org : org_view (lookup org_id s.orgs) ≡ f.org
    pub org_keys : keys_view (lookup org_id s.signing_keys) ≡ f.org_keys
    pub groups : (name : Str) → group_view (lookup (org_id, name) s.groups) ≡ lookup name f.groups

  -- The log of the organization records some changes, without a gap, and the maps hold what they make
  -- of the empty state.
  pub record IsFaithful (s : EventStore o) (org_id : Str) : Type 0 where
    pub changes : List (Change o.json)
    pub records : Records (log_of o s org_id) changes
    pub numbered : IsNumbered 1 (log_of o s org_id)
    pub agrees : (n : ℕ) → Agrees s org_id (effects changes (empty_at o.json n))

  pub new-IsFaithful :
      (calls : Option (List (WriteThrough o))) (org_id : Str)
      → IsFaithful (record (new o) { org_store = calls }) org_id
  unfolding lookup
  new-IsFaithful calls org_id = record {
    changes = [];
    records = tt;
    numbered = tt;
    agrees = λ n. record {
      principals = λ id. refl;
      promotions = λ k. refl;
      org = refl;
      org_keys = refl;
      groups = λ name. refl;
    };
  }

  Records-append :
      (log : List (EventEnvelope o.json)) (changes : List (Change o.json))
      (e : EventEnvelope o.json) (c : Change o.json)
      → Records log changes
      → RecordsOne e c
      → Records (log ++ e ∷ []) (changes ++ c ∷ [])
  Records-append [] [] e c r one = (one, tt)
  Records-append [] (d ∷ changes) e c r one = absurd r
  Records-append (f ∷ log) [] e c r one = absurd r
  Records-append (f ∷ log) (d ∷ changes) e c (here, later) one =
      (here, Records-append log changes e c later one)

  effects-append :
      (changes : List (Change o.json)) (c : Change o.json) (f : FoldedState o.json)
      → effects (changes ++ c ∷ []) f ≡ effect c (effects changes f)
  effects-append [] c f = refl
  effects-append (d ∷ changes) c f = effects-append changes c (effect d f)

  log_of-insert :
      (s t : EventStore o) (org_id sought : Str) (log : List (EventEnvelope o.json))
      → t.logs ≡ insert org_id log s.logs
      → log_of o t sought ≡ (if org_id == sought then log else log_of o s sought)
  log_of-insert s t org_id sought log e =
      ground (arith, ap (lookup sought) e, lookup-insert org_id sought log s.logs)

  -- An operation that pushes one event, and changes the maps of that organization as the event's change
  -- does and those of no other one, keeps every organization's log faithful.
  pub push-IsFaithful :
      (s t : EventStore o) (org_id : Str) (e : EventEnvelope o.json) (c : Change o.json)
      → t.logs ≡ insert org_id (push (log_of o s org_id) e) s.logs
      → e.seq ≡ latest_revision (log_of o s org_id) + 1
      → RecordsOne e c
      → ((f : FoldedState o.json) → Agrees s org_id f → Agrees t org_id (effect c f))
      → ((other : Str) (f : FoldedState o.json)
          → (org_id == other) ≡ false
          → Agrees s other f
          → Agrees t other f)
      → ((any_org : Str) → IsFaithful s any_org)
      → (any_org : Str) → IsFaithful t any_org
  unfolding push
  push-IsFaithful s t org_id e c logs seq one same others h any_org =
      elim (Bool-cases (org_id == any_org)) [
        | inl y ↦
            let before = h org_id in
            let pushed : log_of o t org_id ≡ push (log_of o s org_id) e = ground (
              arith,
              log_of-insert s t org_id org_id (push (log_of o s org_id) e) logs,
              ==_refl org_id,
            ) in
            subst (IsFaithful t) (==-eq org_id any_org y) (record {
              changes = before.changes ++ c ∷ [];
              records =
                  subst (λ log. Records log (before.changes ++ c ∷ [])) (sym pushed)
                    (Records-append _ before.changes e c before.records one);
              numbered =
                  subst (IsNumbered 1) (sym pushed) (push-IsNumbered _ e before.numbered seq).0;
              agrees = λ n.
                  subst (Agrees t org_id)
                    (sym (effects-append before.changes c (empty_at o.json n)))
                    (same _ (before.agrees n));
            })
        | inr n ↦
            let before = h any_org in
            let kept : log_of o t any_org ≡ log_of o s any_org =
              ground (arith, log_of-insert s t org_id any_org (push (log_of o s org_id) e) logs) in
            record {
              changes = before.changes;
              records = subst (λ log. Records log before.changes) (sym kept) before.records;
              numbered = subst (IsNumbered 1) (sym kept) before.numbered;
              agrees = λ n'. others any_org _ n (before.agrees n');
            }
      ]
