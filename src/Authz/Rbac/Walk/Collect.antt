-- ===== src/Authz/Rbac/Walk/Collect.antt =====
-- The walk through a role keeps its promises.
use forgeguard.Base.{
  Str, ◌≡◌, refl, true, false, ◌||◌, List, [], ◌∷◌, some, contains, ◌==◌, nat_eq, list_eq, arith,
  inl, inr, ==_refl, ==-eq, Bool-cases, sym, ap, subst, ◌∙◌,
}
use forgeguard.Base.Assoc.{lookup, contains_key_of_lookup}
use forgeguard.Base.Sets.{remove_set, contains-insert_set}
use forgeguard.Base.Result.{Result, ok, err, ◌>>=◌}
use forgeguard.Authz.Rbac.{
  InheritanceWalker, Names, Fault, failed, out_of_fuel, parents_of, collect_all, enter, leave,
}
use forgeguard.Authz.Rbac.Add.{IsTidy, add_actions_lem, remove_set-here}
use forgeguard.Authz.Rbac.Walk.{
  own, inherited, Done, Closed, Grows, Grows-trans, FromOne, AllVisited, Outcome,
  visited-of_Inherits,
}

module _ (rbac_map inherits_map : Names) where
  pub Grows-refl :
      (w : InheritanceWalker)
      → IsTidy w
      → Closed rbac_map inherits_map w
      → Grows rbac_map inherits_map w w
  Grows-refl w t c = record {
    stays = refl;
    keeps = λ a h. h;
    keeps_roles = λ n h. h;
    tidy = t;
    closed = c;
  }

  -- One role after the other, each walked through from the same way.
  pub collect_all-Outcome :
      (step : Str → InheritanceWalker → Result Fault InheritanceWalker) (way : List Str)
      (roles : List Str)
      (good : (p : Str) (v : InheritanceWalker)
        → contains roles p ≡ true
        → v.visiting ≡ way
        → IsTidy v
        → Closed rbac_map inherits_map v
        → Outcome rbac_map inherits_map (p ∷ []) v (step p v))
      (w : InheritanceWalker)
      → w.visiting ≡ way
      → IsTidy w
      → Closed rbac_map inherits_map w
      → Outcome rbac_map inherits_map roles w (collect_all step roles w)
  unfolding collect_all
  collect_all-Outcome step way [] good w e t c = (Grows-refl w t c, (λ p h. cc), λ a h. inl h)
  collect_all-Outcome step way (p ∷ roles) good w e t c =
      next (step p w) (good p w (ground (arith, ==_refl p)) e t c) (λ v e' t' c'.
        collect_all-Outcome step way roles (λ q u h. good q u (ground arith)) v e' t' c')
    where
      join :
          (v : InheritanceWalker)
          → Grows rbac_map inherits_map w v
          → AllVisited rbac_map inherits_map (p ∷ []) v
          → FromOne rbac_map inherits_map (p ∷ []) w v
          → (r : Result Fault InheritanceWalker) → Outcome rbac_map inherits_map roles v r
          → Outcome rbac_map inherits_map (p ∷ roles) w r
      join v g here from (err (failed message)) (start, m, why) = (start, ground arith, why)
      join v g here from (err out_of_fuel) bad = bad
      join v g here from (ok u) (g', there, from') = (
        Grows-trans rbac_map inherits_map w v u g g',
        (λ q h. elim (Bool-cases (q == p)) [
          | inl same ↦ g'.keeps_roles q (here q (ground arith))
          | inr other ↦ there q (ground arith)
        ]),
        λ a h. elim (from' a h) [
          | inr (q, c, al) ↦ inr (q, ground arith, al)
          | inl before ↦ elim (from a before) [
            | inl old ↦ inl old
            | inr (q, c, al) ↦ inr (q, ground arith, al)
          ]
        ],
      )

      next :
          (r : Result Fault InheritanceWalker)
          → Outcome rbac_map inherits_map (p ∷ []) w r
          → ((v : InheritanceWalker)
              → v.visiting ≡ way
              → IsTidy v
              → Closed rbac_map inherits_map v
              → Outcome rbac_map inherits_map roles v (collect_all step roles v))
          → Outcome rbac_map inherits_map (p ∷ roles) w (r >>= λ v. collect_all step roles v)
      next (err (failed message)) (start, m, why) rest = (start, ground arith, why)
      next (err out_of_fuel) bad rest = absurd bad
      next (ok v) (g, here, from) rest =
          join v g here from (collect_all step roles v) (rest v (g.stays ∙ e) g.tidy g.closed)

  -- Entering a role that is not on the way collects its actions, and nothing else changes.
  pub entered :
      (role : Str) (actions : List Str) (w : InheritanceWalker)
      → IsTidy w
      → Closed rbac_map inherits_map w
      → (Closed rbac_map inherits_map (enter role actions w))
        × IsTidy (enter role actions w)
        × ((a : Str)
            → contains (enter role actions w).collected a
              ≡ (contains w.collected a || contains actions a))
        × ((enter role actions w).visiting ≡ role ∷ w.visiting)
        × ((enter role actions w).visited ≡ w.visited)
  entered role actions w tidy closed =
      let inside : InheritanceWalker = record w { visiting = role ∷ w.visiting } in
      let (t, c, v, d) =
        add_actions_lem actions inside (record { once = tidy.once; seen = tidy.seen }) in
      (
        (λ n h.
            let done = closed n (subst (λ (x : List Str). contains x n ≡ true) d h) in
            (
              (λ others a l m. ground (arith, c a, done.0 others a l m)),
              (λ p m. subst (λ (x : List Str). contains x p ≡ true) (sym d) (done.1 p m)),
              done.2,
              done.3,
            )),
        t,
        c,
        v,
        d,
      )

  -- Leaving a role whose actions are collected and whose parents are visited.
  pub left :
      (role : Str) (actions : List Str) (w inner : InheritanceWalker)
      → lookup role rbac_map ≡ some actions
      → contains w.visiting role ≡ false
      → IsTidy w
      → Closed rbac_map inherits_map w
      → Outcome rbac_map inherits_map
          (parents_of inherits_map role)
          (enter role actions w)
          (ok inner)
      → Outcome rbac_map inherits_map (role ∷ []) w (ok (leave role inner))
  left role actions w inner l new tidy closed (g, all_parents, from) =
      let (c, t, has, v, d) = entered role actions w tidy closed in
      (
        record {
          stays = ap (remove_set role) (g.stays ∙ v) ∙ remove_set-here role w.visiting new;
          keeps = λ a h. g.keeps a (ground (arith, has a));
          keeps_roles = λ n h. ground (
            arith,
            contains-insert_set role n inner.visited,
            g.keeps_roles n (subst (λ (x : List Str). contains x n ≡ true) (sym d) h),
          );
          tidy = record { once = g.tidy.once; seen = g.tidy.seen };
          closed = λ n h. elim (Bool-cases (n == role)) [
            | inl same ↦
                subst (Done rbac_map inherits_map (leave role inner)) (sym (==-eq n role same)) (
                  (λ others a l' m.
                      let one : actions ≡ others = ground arith in
                      g.keeps a (
                        ground (
                          arith,
                          has a,
                          subst (λ (x : List Str). contains x a ≡ true) (sym one) m,
                        ))),
                  (λ p m.
                      ground (arith, contains-insert_set role p inner.visited, all_parents p m)),
                  contains_key_of_lookup rbac_map role {v = actions} l,
                  λ around.
                      (g.closed role (
                          visited-of_Inherits rbac_map inherits_map inner role role g.closed
                            all_parents around)).3
                        around,
                )
            | inr other ↦
                let done = g.closed n (ground (arith, contains-insert_set role n inner.visited)) in
                (
                  done.0,
                  (λ p m. ground (arith, contains-insert_set role p inner.visited, done.1 p m)),
                  done.2,
                  done.3,
                )
          ];
        },
        (λ p h. ground (arith, contains-insert_set role p inner.visited)),
        λ a h. elim (from a h) [
          | inr (p, m, al) ↦ inr (role, ground (arith, ==_refl role), inherited p m al)
          | inl before ↦ elim (Bool-cases (contains actions a)) [
            | inl mine ↦ inr (role, ground (arith, ==_refl role), own actions l mine)
            | inr not_mine ↦ inl (ground (arith, has a))
          ]
        ],
      )
