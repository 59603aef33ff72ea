-- ===== src/Authz/Event/Fold/Replay.antt =====
-- `fold_events` against a plain replay of the first events.
use forgeguard.Base.{
  ℕ, zero, suc, ◌+◌, ◌≤◌, ◌<◌, ◌≡◌, refl, ap, ◌||◌, List, [], ◌∷◌, ◌++◌, ltb, ◌=ℕ◌, if◌then◌else◌,
  take, length, length-append, arith, inl, inr, ◌∙◌,
}
use forgeguard.Base.Result.{ok, err, ◌>>=◌, >>=-cong, Result-cases}
use forgeguard.Authz.Error.{Error, AuthzResult}
use forgeguard.Authz.Json.{Json}
use forgeguard.Authz.Event.{EventEnvelope, IsNumbered}
use forgeguard.Authz.Event.Pages.{latest_revision-eq-length}
use forgeguard.Authz.Event.Fold.{FoldedState, empty_at, apply_event, fold_from, fold_events}

module _ {json : Json} where
  -- Every event is applied in turn, and the first error ends the replay.
  unfoldable pub replay :
      List (EventEnvelope json) → FoldedState json → AuthzResult (FoldedState json)
  replay [] state = ok state
  replay (event ∷ events) state = do next ← apply_event event state; replay events next

  fold_from_done :
      (requested n : ℕ) (events : List (EventEnvelope json)) (state : FoldedState json)
      → IsNumbered n events
      → requested < n
      → fold_from requested n events state ≡ ok state
  unfolding fold_from
  fold_from_done requested n [] state h lt = refl
  fold_from_done requested n (e ∷ events) state (s, h) lt = ground arith

  fold_from_step :
      (requested n : ℕ) (e : EventEnvelope json) (events : List (EventEnvelope json))
      (state : FoldedState json)
      → e.seq ≡ n
      → n ≤ requested
      → fold_from requested n (e ∷ events) state
        ≡ (apply_event e state >>= fold_from requested (suc n) events)
  unfolding fold_from
  fold_from_step requested n e events state s le = ground arith

  fold_from-eq-replay :
      (j requested n : ℕ) (events : List (EventEnvelope json)) (state : FoldedState json)
      → IsNumbered n events
      → requested ≡ n + j
      → fold_from requested n events state ≡ replay (take (suc j) events) state
  unfolding replay
  fold_from-eq-replay j requested n [] state h eq = unfold fold_from in refl
  fold_from-eq-replay zero requested n (e ∷ events) state (s, h) eq =
      fold_from_step requested n e events state s (omega arith)
      ∙ >>=-cong (apply_event e state) _ _
          (λ next. fold_from_done requested (suc n) events next h (omega arith))
  fold_from-eq-replay (suc j) requested n (e ∷ events) state (s, h) eq =
      fold_from_step requested n e events state s (omega arith)
      ∙ >>=-cong (apply_event e state) _ _
          (λ next. fold_from-eq-replay j requested (suc n) events next h (omega arith))

  -- On a gap-free log `fold_events` refuses revision 0 and the revisions past the last event, and at
  -- any other revision `n` it is the replay of the first `n` events.
  pub fold_events-eq-replay :
      (log : List (EventEnvelope json)) (n : ℕ)
      → IsNumbered 1 log
      → fold_events log n ≡ (
          if n =ℕ 0 || ltb (length log) n
          then err (Error.unknown_revision n (length log))
          else replay (take n log) (empty_at json n))
  unfolding fold_events
  fold_events-eq-replay log zero h = ground (arith, latest_revision-eq-length log h)
  fold_events-eq-replay log (suc n) h = ground (
    arith,
    latest_revision-eq-length log h,
    fold_from-eq-replay n (suc n) 1 log (empty_at json (suc n)) h (omega arith),
  )

  take-append :
      (n : ℕ) (xs ys : List (EventEnvelope json)) → n ≤ length xs → take n (xs ++ ys) ≡ take n xs
  take-append zero xs ys h = refl
  take-append (suc n) [] ys h = absurd (omega arith)
  take-append (suc n) (x ∷ xs) ys h = ap (λ zs. x ∷ zs) (take-append n xs ys (omega arith))

  IsNumbered-prefix :
      (n : ℕ) (xs ys : List (EventEnvelope json)) → IsNumbered n (xs ++ ys) → IsNumbered n xs
  IsNumbered-prefix n [] ys h = tt
  IsNumbered-prefix n (x ∷ xs) ys (s, h) = (s, IsNumbered-prefix (suc n) xs ys h)

  -- What is appended later never changes the state at an earlier revision: on a gap-free log, the
  -- fold at a revision that an initial part of the log has is the fold of that part.
  pub fold_events_prefix :
      (log later : List (EventEnvelope json)) (n : ℕ)
      → IsNumbered 1 (log ++ later)
      → 0 < n
      → n ≤ length log
      → fold_events (log ++ later) n ≡ fold_events log n
  fold_events_prefix log later n h lo hi = ground (
    arith,
    fold_events-eq-replay (log ++ later) n h,
    fold_events-eq-replay log n (IsNumbered-prefix 1 log later h),
    take-append n log later hi,
    length-append log later,
  )

  fold_from-IsNumbered :
      (j requested n : ℕ) (events : List (EventEnvelope json)) (state final : FoldedState json)
      → fold_from requested n events state ≡ ok final
      → requested + 1 ≡ n + j
      → IsNumbered n (take j events)
  fold_from-IsNumbered zero requested n events state final h eq = tt
  fold_from-IsNumbered (suc j) requested n [] state final h eq = tt
  fold_from-IsNumbered (suc j) requested n (e ∷ events) state final h eq =
      let s : e.seq ≡ n = unfold fold_from in ground arith in
      elim (Result-cases (apply_event e state)) [
        | inr (x, hx) ↦ absurd (ground (arith, fold_from_step requested n e events state s))
        | inl (next, hx) ↦ (
          s,
          fold_from-IsNumbered j requested (suc n) events next final
              (ground (arith, fold_from_step requested n e events state s)) (omega arith),
        )
      ]

  -- A fold that succeeds met no gap: the events up to its revision are numbered 1, 2 and so on.
  pub fold_events-IsNumbered :
      (log : List (EventEnvelope json)) (n : ℕ) (final : FoldedState json)
      → fold_events log n ≡ ok final
      → IsNumbered 1 (take n log)
  unfolding fold_events
  fold_events-IsNumbered log n final h =
      fold_from-IsNumbered n n 1 log (empty_at json n) final (ground arith) (omega arith)
