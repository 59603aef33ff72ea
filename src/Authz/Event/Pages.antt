-- ===== src/Authz/Event/Pages.antt =====
-- Reading a log page by page.
use forgeguard.Base.{
  ℕ, zero, suc, ◌+◌, ◌<◌, ◌≡◌, refl, List, [], ◌∷◌, ◌++◌, some, ltb, take, filter, last?, length,
  arith, ap, subst, length-append,
}
use native.Mathlib.Nat.{zero-add, suc-add}
use forgeguard.Authz.Json.{Json}
use forgeguard.Authz.Event.{EventEnvelope, IsNumbered, events_after, latest_revision, push}

-- What is left of a list after its first `n` elements.
abbrev pub drop {ℓ} : {A : Type ℓ} → ℕ → List A → List A
drop zero xs = xs
drop (suc n) [] = []
drop (suc n) (x ∷ xs) = drop n xs

module _ {json : Json} where
  filter_above :
      (n after : ℕ) (log : List (EventEnvelope json))
      → IsNumbered n log
      → after < n
      → filter (λ e. ltb after e.seq) log ≡ log
  filter_above n after [] h lt = refl
  filter_above n after (e ∷ log) (s, h) lt = ground (arith, filter_above (suc n) after log h)

  filter-eq-drop :
      (n k : ℕ) (log : List (EventEnvelope json))
      → IsNumbered (suc n) log
      → filter (λ e. ltb (n + k) e.seq) log ≡ drop k log
  filter-eq-drop n zero [] h = refl
  filter-eq-drop n (suc k) [] h = refl
  filter-eq-drop n zero (e ∷ log) h = filter_above (suc n) (n + 0) (e ∷ log) h (omega arith)
  filter-eq-drop n (suc k) (e ∷ log) (s, h) =
      let same : suc n + k ≡ n + suc k = omega arith in
      let ih : filter (λ e. ltb (n + suc k) e.seq) log ≡ drop k log =
        subst (λ (x : ℕ). filter (λ e. ltb x e.seq) log ≡ drop k log) same
          (filter-eq-drop (suc n) k log h) in
      ground (arith, ih)

  pub filter_after :
      (k : ℕ) (log : List (EventEnvelope json))
      → IsNumbered 1 log
      → filter (λ e. ltb k e.seq) log ≡ drop k log
  filter_after k log h =
      subst (λ (x : ℕ). filter (λ e. ltb x e.seq) log ≡ drop k log) (zero-add k)
        (filter-eq-drop 0 k log h)

  pub last?-IsNumbered :
      (n : ℕ) (e : EventEnvelope json) (log : List (EventEnvelope json))
      → IsNumbered n (e ∷ log)
      → (l : EventEnvelope json) × (last? (e ∷ log) ≡ some l) × (l.seq ≡ n + length log)
  last?-IsNumbered n e [] (s, _) = (e, refl, omega arith)
  last?-IsNumbered n e (f ∷ log) (s, h) =
      let (l, found, same) = last?-IsNumbered (suc n) f log h in (l, found, omega arith)

  -- The latest revision of a gap-free log is the number of its events.
  pub latest_revision-eq-length :
      (log : List (EventEnvelope json)) → IsNumbered 1 log → latest_revision log ≡ length log
  unfolding latest_revision
  latest_revision-eq-length [] h = refl
  latest_revision-eq-length (e ∷ log) h =
      let (l, found, same) = last?-IsNumbered 1 e log h in rw (found, latest_revision) (omega arith)

  pub IsNumbered-append :
      (n : ℕ) (log : List (EventEnvelope json)) (e : EventEnvelope json)
      → IsNumbered n log
      → e.seq ≡ n + length log
      → IsNumbered n (log ++ e ∷ [])
  IsNumbered-append n [] e h s = (omega arith, tt)
  IsNumbered-append n (f ∷ log) e (s', h) s = (s', IsNumbered-append (suc n) log e h (omega arith))

module _ {ℓ} {A : Type ℓ} where
  take-nil : (k : ℕ) → take {A = A} k [] ≡ []
  take-nil zero = refl
  take-nil (suc k) = refl

  drop-nil : (k : ℕ) → drop {A = A} k [] ≡ []
  drop-nil zero = refl
  drop-nil (suc k) = refl

  take-take-drop : (n k : ℕ) (xs : List A) → take n xs ++ take k (drop n xs) ≡ take (n + k) xs
  take-take-drop zero k xs = rw zero-add refl
  take-take-drop (suc n) k [] = rw (take-nil k, take-nil (suc n + k)) refl
  take-take-drop (suc n) k (x ∷ xs) = rw suc-add (ap (λ ys. x ∷ ys) (take-take-drop n k xs))

  drop-drop : (a n : ℕ) (xs : List A) → drop n (drop a xs) ≡ drop (a + n) xs
  drop-drop zero n xs = rw zero-add refl
  drop-drop (suc a) n [] = rw (drop-nil n, drop-nil (suc a + n)) refl
  drop-drop (suc a) n (x ∷ xs) = rw suc-add (drop-drop a n xs)

module _ {json : Json} where
  -- Two pages in a row are one page of both sizes: on a gap-free log, reading `n` events after
  -- revision `a` and then `k` events after revision `a + n` misses none and repeats none.
  pub events_after-append :
      (log : List (EventEnvelope json)) (a n k : ℕ)
      → IsNumbered 1 log
      → events_after log a n ++ events_after log (a + n) k ≡ events_after log a (n + k)
  unfolding events_after
  events_after-append log a n k h =
      rw (filter_after a log h, filter_after (a + n) log h, ← drop-drop a n log)
        (take-take-drop n k (drop a log))

  -- Pushing an event whose number is the next revision keeps a log gap-free, and the latest revision
  -- is then that number.
  pub push-IsNumbered :
      (log : List (EventEnvelope json)) (e : EventEnvelope json)
      → IsNumbered 1 log
      → e.seq ≡ latest_revision log + 1
      → IsNumbered 1 (push log e) × (latest_revision (push log e) ≡ e.seq)
  unfolding push
  push-IsNumbered log e h s =
      let numbered = IsNumbered-append 1 log e h (omega (arith, latest_revision-eq-length log h)) in
      (
        numbered,
        omega (
          arith,
          latest_revision-eq-length log h,
          latest_revision-eq-length (log ++ e ∷ []) numbered,
          length-append log (e ∷ []),
        ),
      )
