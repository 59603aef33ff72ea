-- ===== src/Authz/Rbac/Add.antt =====
-- What the walker's own steps do to what it has collected.
use forgeguard.Base.{
  Str, ◌≡◌, refl, true, false, ◌||◌, List, [], ◌∷◌, ◌++◌, contains, distinct, nat_eq, list_eq,
  list_beq_iff, arith, contains-append, Bool-cases, inl, inr, ==_refl, Eq, sym, ◌∙◌,
}
use forgeguard.Base.Pigeonhole.{distinct-append}
use forgeguard.Base.Sets.{insert_set, remove_set, contains-insert_set}
use forgeguard.Authz.Rbac.{InheritanceWalker, add_actions}

module _ {ℓ} {A : Type ℓ} ⦃e : Eq A⦄ where
  remove_set-absent : (a : A) (xs : List A) → contains xs a ≡ false → remove_set a xs ≡ xs
  unfolding remove_set
  remove_set-absent a [] c = refl
  remove_set-absent a (x ∷ xs) c =
      ground (arith, remove_set-absent a xs, e.beq_iff a x, e.beq_iff x a)

  -- Taking out again what was put in front.
  pub remove_set-here : (a : A) (xs : List A) → contains xs a ≡ false → remove_set a (a ∷ xs) ≡ xs
  unfolding remove_set
  remove_set-here a xs c = ground (arith, remove_set-absent a xs c, ==_refl a)

-- No action is collected twice, and those that were seen are those that are collected.
pub record IsTidy (w : InheritanceWalker) : Type 0 where
  pub once : distinct w.collected ≡ true
  pub seen : (a : Str) → contains w.seen_actions a ≡ contains w.collected a

abbrev pushed : Str → InheritanceWalker → InheritanceWalker
pushed action w = record w {
  collected = w.collected ++ action ∷ [];
  seen_actions = insert_set action w.seen_actions;
}

pushed-IsTidy :
    (action : Str) (w : InheritanceWalker)
    → IsTidy w
    → contains w.seen_actions action ≡ false
    → IsTidy (pushed action w)
pushed-IsTidy action w tidy new = record {
  once = distinct-append w.collected action tidy.once (sym (tidy.seen action) ∙ new);
  seen = λ a. ground (
    arith,
    contains-insert_set action a w.seen_actions,
    contains-append w.collected (action ∷ []) a,
    tidy.seen a,
  );
}

-- Adding actions collects just these, and leaves the roles alone.
pub add_actions_lem :
    (actions : List Str) (w : InheritanceWalker)
    → IsTidy w
    → IsTidy (add_actions actions w)
      × ((a : Str)
          → contains (add_actions actions w).collected a
            ≡ (contains w.collected a || contains actions a))
      × ((add_actions actions w).visiting ≡ w.visiting)
      × ((add_actions actions w).visited ≡ w.visited)
unfolding add_actions
add_actions_lem [] w tidy = (tidy, (λ a. ground arith), refl, refl)
add_actions_lem (action ∷ actions) w tidy = elim (Bool-cases (contains w.seen_actions action)) [
  | inl old ↦
      let (t, c, v, d) = add_actions_lem actions w tidy in
      rw (old, add_actions)
        (t, (λ a. ground (arith, c a, tidy.seen action, list_beq_iff a action)), v, d)
  | inr new ↦
      let (t, c, v, d) =
        add_actions_lem actions (pushed action w) (pushed-IsTidy action w tidy new) in
      rw (new, add_actions)
        (t, (λ a. ground (arith, c a, contains-append w.collected (action ∷ []) a)), v, d)
]
