-- ===== src/ControlPlane/EventStore/Refinement.antt =====
-- The maps of the store against its logs, after any history.
use forgeguard.Base.{
  ℕ, ◌<◌, ◌≤◌, ◌≡◌, refl, subst, inl, inr, Str, List, [], ◌∷◌, none, some, arith, length, take, ap,
  ◌∙◌, Bool-cases, ◌=ℕ◌, nat_eq, list_eq,
}
use forgeguard.Base.Result.{ok, map_err}
use forgeguard.Authz.Event.{EventEnvelope, latest_revision}
use forgeguard.Authz.Event.Pages.{latest_revision-eq-length}
use forgeguard.Authz.Event.Fold.{FoldedState, empty_at}
use forgeguard.Authz.Event.Effects.{Change, effects, Records}
use forgeguard.Authz.Event.Effects.History.{fold_events-effects}
use forgeguard.ControlPlane.EventStore.{Outside, EventStore, log_of}
use forgeguard.ControlPlane.EventStore.Folding.{
  failed, collect_all, collect_all-eq-fold_events, fold_at,
}
use forgeguard.ControlPlane.EventStore.View.{Agrees}
use forgeguard.ControlPlane.EventStore.History.{IsReached, IsReached-AllFaithful}

module _ (o : Outside) where
  take-Records :
      (log : List (EventEnvelope o.json)) (changes : List (Change o.json))
      → Records log changes
      → take (length log) changes ≡ changes
  take-Records [] [] r = refl
  take-Records [] (c ∷ changes) r = absurd r
  take-Records (e ∷ log) [] r = absurd r
  take-Records (e ∷ log) (c ∷ changes) (_, r) = ground (arith, take-Records log changes r)

  nothing-Records :
      (log : List (EventEnvelope o.json)) (changes : List (Change o.json))
      → Records log changes
      → length log ≡ 0
      → changes ≡ []
  nothing-Records [] [] r e = refl
  nothing-Records [] (c ∷ changes) r e = absurd r
  nothing-Records (e ∷ log) changes r h = ground arith

  -- What the store answers for an organization is what its log says. After any history of operations
  -- its log records some changes; at a revision of the log `fold_at` gives what the first changes, as
  -- many as the revision says, make of the empty state; and at the latest one it gives a state of which
  -- the store's maps hold exactly the principals, promotions, groups, keys and the organization.
  pub IsReached-fold_at :
      (s : EventStore o) (org_id : Str)
      → IsReached o s
      → (changes : List (Change o.json)) × Records (log_of o s org_id) changes
        × ((n : ℕ)
            → 0 < n
            → n ≤ latest_revision (log_of o s org_id)
            → fold_at o s org_id (some n) ≡ ok (effects (take n changes) (empty_at o.json n)))
        × ((f : FoldedState o.json) × (fold_at o s org_id none ≡ ok f) × Agrees o s org_id f)
  unfolding fold_at
  IsReached-fold_at s org_id r =
      let faithful = IsReached-AllFaithful o r org_id in
      let log = log_of o s org_id in
      let latest = latest_revision-eq-length log faithful.numbered in
      let folds : (n : ℕ)
          → 0 < n
          → n ≤ latest_revision log
          → fold_at o s org_id (some n)
            ≡ ok (effects (take n faithful.changes) (empty_at o.json n)) =
        λ n lo hi.
          collect_all-eq-fold_events o log n faithful.numbered lo (omega (arith, hi, latest))
          ∙ ap (map_err failed) (
              fold_events-effects log faithful.changes n faithful.numbered faithful.records lo
                (omega (arith, hi, latest))) in
      (
        faithful.changes,
        faithful.records,
        folds,
        elim (Bool-cases (latest_revision log =ℕ 0)) [
          | inl y ↦ (
            empty_at o.json 0,
            ground (arith, y),
            subst (λ cs. Agrees o s org_id (effects cs (empty_at o.json 0)))
                (nothing-Records log faithful.changes faithful.records (ground (arith, y, latest)))
                (faithful.agrees 0),
          )
          | inr n ↦
              let at_latest : collect_all o log (latest_revision log)
                  ≡ ok (effects faithful.changes (empty_at o.json (latest_revision log))) =
                folds (latest_revision log) (ground (arith, n)) (omega arith)
                ∙ ap (λ cs. ok (effects cs (empty_at o.json (latest_revision log))))
                    (ap (λ k. take k faithful.changes) latest
                      ∙ take-Records log faithful.changes faithful.records) in
              (
                effects faithful.changes (empty_at o.json (latest_revision log)),
                ground (arith, n, at_latest),
                faithful.agrees (latest_revision log),
              )
        ],
      )
