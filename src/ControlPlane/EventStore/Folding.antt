-- ===== src/ControlPlane/EventStore/Folding.antt =====
-- `ModelEventStore::fold_at` of crates/control-plane/src/model_event_store/mod.rs: the state at a
-- revision, from the log read page by page. The loop has fuel for one page more than there are events.
use forgeguard.Base.{
  ℕ, zero, suc, ◌+◌, ◌<◌, ◌≤◌, ◌≡◌, ◌⊎◌, ◌∙◌, refl, sym, ap, subst, inl, inr, Str, Bool, true,
  false, [], ◌∷◌, ◌++◌, Option, none, some, ltb, leb, ◌=ℕ◌, ◌||◌, last?, length, take, arith,
  append_assoc, append-nil, length-append, Bool-cases, nat_eq, list_eq, if◌then◌else◌,
}
use forgeguard.Base.Result.{Result, ok, err, ◌>>=◌, map_err}
use forgeguard.Authz.Error.{Error}
use forgeguard.Authz.Event.{EventEnvelope, IsNumbered, events_after, latest_revision}
use forgeguard.Authz.Event.Pages.{drop, filter_after, last?-IsNumbered}
use forgeguard.Authz.Event.Fold.{FoldedState, empty_at, fold_events}
use forgeguard.Authz.Event.Fold.Replay.{fold_events_prefix}
use forgeguard.ControlPlane.EventStore.{Outside, EventStore, Log, log_of}

-- An error of the fold, whose text is `Error::Store`'s, or a loop that ran out of fuel.
pub data FoldFault : Type 0 where
  failed : Error → FoldFault
  out_of_fuel : FoldFault

pub fold_page_size : ℕ
fold_page_size = 100

page_size-eq-suc : fold_page_size ≡ suc 99
unfolding fold_page_size
page_size-eq-suc = refl

-- What the loop's second test says, once the first one does not hold.
reached :
    (short : Bool) (target last n : ℕ)
    → (short || leb target last) ≡ true
    → short ≡ false
    → n ≡ last
    → target ≤ n
reached short target last n y long same = ground arith

shorter : (n size : ℕ) → ltb (suc n) size ≡ true → size ≡ suc 99 → n < 99
shorter n size short e = ground arith

module _ (o : Outside) where
  -- The loop: the events so far, and the revision after which the next page begins.
  collect : ℕ → Log o → ℕ → ℕ → Log o → Result FoldFault (Log o)
  collect zero log target after events = err out_of_fuel
  collect (suc fuel) log target after events =
      let page = events_after log after fold_page_size in
      elim (last? page) [
        | none ↦ ok events
        | some last ↦ elim (ltb (length page) fold_page_size || leb target last.seq) [
          | true ↦ ok (events ++ page)
          | false ↦ collect fuel log target last.seq (events ++ page)
        ]
      ]

  pub collect_all : Log o → ℕ → Result FoldFault (FoldedState o.json)
  unfolding collect
  collect_all log target = do
    events ← collect (length log + 1) log target 0 []
    map_err failed (fold_events events target)

  unfoldable pub fold_at : EventStore o → Str → Option ℕ → Result FoldFault (FoldedState o.json)
  unfolding collect_all
  fold_at s org_id (some revision) = collect_all (log_of o s org_id) revision
  fold_at s org_id none =
      let latest = latest_revision (log_of o s org_id) in
      let folded = collect_all (log_of o s org_id) latest in
      if latest =ℕ 0 then ok (empty_at o.json 0) else folded

  IsNumbered-suffix :
      (n : ℕ) (xs ys : Log o) → IsNumbered n (xs ++ ys) → IsNumbered (n + length xs) ys
  IsNumbered-suffix n [] ys h = subst (λ (k : ℕ). IsNumbered k ys) (omega arith) h
  IsNumbered-suffix n (x ∷ xs) ys (_, h) =
      subst (λ (k : ℕ). IsNumbered k ys) (omega arith) (IsNumbered-suffix (suc n) xs ys h)

  drop-length : (xs ys : Log o) → drop (length xs) (xs ++ ys) ≡ ys
  drop-length [] ys = refl
  drop-length (x ∷ xs) ys = drop-length xs ys

  take-append-drop : (n : ℕ) (xs : Log o) → xs ≡ take n xs ++ drop n xs
  take-append-drop zero xs = refl
  take-append-drop (suc n) [] = refl
  take-append-drop (suc n) (x ∷ xs) = ap (λ l. x ∷ l) (take-append-drop n xs)

  IsNumbered-take : (n k : ℕ) (xs : Log o) → IsNumbered n xs → IsNumbered n (take k xs)
  IsNumbered-take n zero xs h = tt
  IsNumbered-take n (suc k) [] h = tt
  IsNumbered-take n (suc k) (x ∷ xs) (s, h) = (s, IsNumbered-take (suc n) k xs h)

  drop-eq-nil : (k : ℕ) (xs : Log o) → length (take k xs) < k → drop k xs ≡ []
  drop-eq-nil zero xs h = ground arith
  drop-eq-nil (suc k) [] h = refl
  drop-eq-nil (suc k) (x ∷ xs) h = drop-eq-nil k xs (omega arith)

  length-drop : (k : ℕ) (xs : Log o) → length (take k xs) + length (drop k xs) ≡ length xs
  length-drop k xs =
      sym (length-append (take k xs) (drop k xs)) ∙ ap length (sym (take-append-drop k xs))

  -- The next page, after the events so far.
  events_after-rest :
      (events rest : Log o) (n : ℕ)
      → IsNumbered 1 (events ++ rest)
      → events_after (events ++ rest) (length events) n ≡ take n rest
  unfolding events_after
  events_after-rest events rest n h =
      ap (take n) (filter_after (length events) (events ++ rest) h ∙ drop-length events rest)

  -- The events collected so far and the rest of the log.
  record Collected (log : Log o) (target : ℕ) (r : Result FoldFault (Log o)) : Type 0 where
    got : Log o
    later : Log o
    is_ok : r ≡ ok got
    parts : log ≡ got ++ later
    enough : (target ≤ length got) ⊎ (later ≡ [])

  collect-suc :
      (fuel : ℕ) (log events page : Log o) (target after : ℕ) (last : EventEnvelope o.json)
      → events_after log after fold_page_size ≡ page
      → last? page ≡ some last
      → (ltb (length page) fold_page_size || leb target last.seq) ≡ false
      → collect (suc fuel) log target after events
        ≡ collect fuel log target last.seq (events ++ page)
  unfolding collect
  collect-suc fuel log events page target after last same found n = ground (arith, same, found, n)

  collect_lem :
      (fuel : ℕ) (events rest : Log o) (target : ℕ)
      → IsNumbered 1 (events ++ rest)
      → length rest < fuel
      → Collected
          (events ++ rest)
          target
          (collect fuel (events ++ rest) target (length events) events)
  unfolding collect
  collect_lem zero events rest target h lt = absurd (omega arith)
  collect_lem (suc fuel) events [] target h lt = record {
    got = events;
    later = [];
    is_ok = ground (
      arith,
      events_after-rest events [] fold_page_size h,
      ap (λ n. take {A = EventEnvelope o.json} n []) page_size-eq-suc,
    );
    parts = refl;
    enough = inr refl;
  }
  collect_lem (suc fuel) events (x ∷ rest) target h lt =
      let page = x ∷ take 99 rest in
      let after = drop 99 rest in
      let is_page : events_after (events ++ x ∷ rest) (length events) fold_page_size ≡ page =
        events_after-rest events (x ∷ rest) fold_page_size h
        ∙ ap (λ n. take n (x ∷ rest)) page_size-eq-suc in
      let split : events ++ x ∷ rest ≡ (events ++ page) ++ after =
        ap (λ l. events ++ x ∷ l) (take-append-drop 99 rest)
        ∙ sym (append_assoc events page after) in
      let numbered : IsNumbered (1 + length events) (x ∷ take 99 rest) =
        IsNumbered-take (1 + length events) 100 (x ∷ rest)
          (IsNumbered-suffix 1 events (x ∷ rest) h) in
      let (last, found, seq) = last?-IsNumbered (1 + length events) x (take 99 rest) numbered in
      let total : length (events ++ page) ≡ last.seq =
        omega (arith, length-append events page, seq) in
      elim (Bool-cases (ltb (length page) fold_page_size || leb target last.seq)) [
        | inl y ↦ record {
          got = events ++ page;
          later = after;
          is_ok = ground (arith, is_page, found, y);
          parts = split;
          enough = elim (Bool-cases (ltb (length page) fold_page_size)) [
            | inl short ↦
                inr (drop-eq-nil 99 rest (shorter _ fold_page_size short page_size-eq-suc))
            | inr long ↦ inl (reached _ target last.seq _ y long total)
          ];
        }
        | inr n ↦
            let next =
              collect_lem fuel (events ++ page) after target (subst (IsNumbered 1) split h)
                (omega (arith, length-drop 99 rest)) in
            let goes_on : collect fuel (events ++ x ∷ rest) target last.seq (events ++ page)
                ≡ ok next.got =
              subst (λ l. collect fuel l target last.seq (events ++ page) ≡ ok next.got) (sym split)
                (subst
                  (λ k.
                    collect fuel ((events ++ page) ++ after) target k (events ++ page)
                    ≡ ok next.got)
                  total next.is_ok) in
            record {
              got = next.got;
              later = next.later;
              is_ok =
                  collect-suc fuel (events ++ x ∷ rest) events page target (length events) last
                    is_page found n
                  ∙ goes_on;
              parts = split ∙ next.parts;
              enough = next.enough;
            }
      ]

  -- The pages hold enough of the log.
  pub collect_all-eq-fold_events :
      (log : Log o) (n : ℕ)
      → IsNumbered 1 log
      → 0 < n
      → n ≤ length log
      → collect_all log n ≡ map_err failed (fold_events log n)
  unfolding collect_all
  collect_all-eq-fold_events log n h lo hi =
      let c = collect_lem (length log + 1) [] log n h (omega arith) in
      let same : fold_events c.got n ≡ fold_events log n = elim c.enough [
        | inl reaches ↦
            sym (fold_events_prefix c.got c.later n (subst (IsNumbered 1) c.parts h) lo reaches)
            ∙ ap (λ l. fold_events l n) (sym c.parts)
        | inr all ↦
            ap (λ l. fold_events l n)
              (sym (append-nil c.got) ∙ ap (λ l. c.got ++ l) (sym all) ∙ sym c.parts)
      ] in
      ap (λ r. r >>= λ events. map_err failed (fold_events events n)) c.is_ok
      ∙ ap (map_err failed) same
