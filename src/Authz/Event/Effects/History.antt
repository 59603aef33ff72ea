-- ===== src/Authz/Event/Effects/History.antt =====
-- The state at a revision, from the changes that the log records.
use forgeguard.Base.{
  ℕ, zero, suc, ◌<◌, ◌≤◌, take, length, ◌≡◌, refl, List, [], ◌∷◌, arith, nat_eq, list_eq, pair_eq,
}
use forgeguard.Base.Result.{ok}
use forgeguard.Authz.Json.{Json}
use forgeguard.Authz.Event.{EventEnvelope, IsNumbered}
use forgeguard.Authz.Event.Fold.{FoldedState, empty_at, fold_events}
use forgeguard.Authz.Event.Fold.Replay.{replay, fold_events-eq-replay}
use forgeguard.Authz.Event.Effects.{Change, effect, Records, effects}
use forgeguard.Authz.Event.Effects.Step.{apply_event-effect}

module _ {json : Json} where
  replay-effects :
      (n : ℕ) (log : List (EventEnvelope json)) (changes : List (Change json))
      (s : FoldedState json)
      → Records log changes
      → replay (take n log) s ≡ ok (effects (take n changes) s)
  unfolding replay
  replay-effects zero log changes s r = refl
  replay-effects (suc n) [] [] s r = refl
  replay-effects (suc n) [] (c ∷ changes) s r = absurd r
  replay-effects (suc n) (e ∷ log) [] s r = absurd r
  replay-effects (suc n) (e ∷ log) (c ∷ changes) s (here, later) =
      rw (apply_event-effect e c s here) (replay-effects n log changes (effect c s) later)

  -- Time travel is exact: on a gap-free log that records some changes, the fold at any revision `n`
  -- of the log succeeds, and its state is what the first `n` changes make of the empty model.
  pub fold_events-effects :
      (log : List (EventEnvelope json)) (changes : List (Change json)) (n : ℕ)
      → IsNumbered 1 log
      → Records log changes
      → 0 < n
      → n ≤ length log
      → fold_events log n ≡ ok (effects (take n changes) (empty_at json n))
  fold_events-effects log changes n h r lo hi =
      ground
        (arith, fold_events-eq-replay log n h, replay-effects n log changes (empty_at json n) r)
