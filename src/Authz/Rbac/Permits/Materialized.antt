-- ===== src/Authz/Rbac/Permits/Materialized.antt =====
-- What `groups_to_permits` answers.
use forgeguard.Base.{
  Str, ◌≡◌, refl, Bool, true, ◌&&◌, List, [], ◌∷◌, ◌++◌, ap, ◌⊎◌, inl, inr, Bool-cases, arith,
}
use mathlib.Core.List.{Perm}
use mathlib.Core.List.Perm
use forgeguard.Base.Text.Order.{text_le, text_le_total}
use forgeguard.Base.Result.{ok, err, Result-cases}
use forgeguard.Authz.Rbac.{RbacEntry}
use forgeguard.Authz.Rbac.Compile.{TenantConfig, compile_rbac_to_cedar}
use forgeguard.Authz.Rbac.Permits.{
  NamedPermit, policy_name_for_group, MaterializeCompileError, put_entry, sort_entries, permits_of,
  groups_to_permits,
}

-- No name comes after the next one.
abbrev pub is_sorted : List RbacEntry → Bool
is_sorted [] = true
is_sorted (e ∷ []) = true
is_sorted (e ∷ g ∷ entries) = text_le e.name g.name && is_sorted (g ∷ entries)

put_entry-perm :
    (e : RbacEntry) (entries : List RbacEntry) → Perm (put_entry e entries) (e ∷ entries)
unfolding put_entry
put_entry-perm e [] = Perm.rfl
put_entry-perm e (g ∷ entries) = elim (Bool-cases (text_le e.name g.name)) [
  | inl y ↦ rw (y, put_entry) Perm.rfl
  | inr n ↦
      rw (n, put_entry)
        (Perm.trans (Perm.cons g (put_entry-perm e entries)) (Perm.swap e g entries))
]

sort_entries-perm : (entries : List RbacEntry) → Perm (sort_entries entries) entries
unfolding sort_entries
sort_entries-perm [] = Perm.rfl
sort_entries-perm (e ∷ entries) =
    Perm.trans (put_entry-perm e (sort_entries entries)) (Perm.cons e (sort_entries-perm entries))

is_sorted-put_entry :
    (e : RbacEntry) (entries : List RbacEntry)
    → is_sorted entries ≡ true
    → is_sorted (put_entry e entries) ≡ true
unfolding put_entry
is_sorted-put_entry e [] h = refl
is_sorted-put_entry e (g ∷ []) h = ground (arith, text_le_total e.name g.name)
is_sorted-put_entry e (g ∷ k ∷ entries) h =
    let rest = is_sorted-put_entry e (k ∷ entries) (ground arith) in
    ground (arith, text_le_total e.name g.name, text_le_total e.name k.name)

is_sorted-sort_entries : (entries : List RbacEntry) → is_sorted (sort_entries entries) ≡ true
unfolding sort_entries
is_sorted-sort_entries [] = refl
is_sorted-sort_entries (e ∷ entries) =
    is_sorted-put_entry e (sort_entries entries) (is_sorted-sort_entries entries)

module _ (namespace : Str) (tenant : TenantConfig) where
  -- The permits are those of the roles, one after the other.
  abbrev pub ArePermits : List RbacEntry → List NamedPermit → Type 0
  ArePermits [] [] = Unit
  ArePermits [] (p ∷ permits) = ⊥
  ArePermits (e ∷ entries) [] = ⊥
  ArePermits (e ∷ entries) (p ∷ permits) =
      (p.name ≡ policy_name_for_group e.name)
      × (compile_rbac_to_cedar e tenant namespace ≡ ok p.statement)
      × ArePermits entries permits

  -- The first of the roles that does not compile, and why.
  abbrev pub FirstFailure : List RbacEntry → MaterializeCompileError → Type 0
  FirstFailure entries error =
      (before : List RbacEntry) × (entry : RbacEntry) × (after : List RbacEntry) × (permits : List
        NamedPermit)
      × (entries ≡ before ++ entry ∷ after)
      × ArePermits before permits
      × (error.name ≡ entry.name)
      × (compile_rbac_to_cedar entry tenant namespace ≡ err error.reason)

  permits_of_lem :
      (entries : List RbacEntry)
      → ((permits : List NamedPermit) × (permits_of namespace tenant entries ≡ ok permits)
          × ArePermits entries permits)
        ⊎ ((error : MaterializeCompileError) × (permits_of namespace tenant entries ≡ err error)
            × FirstFailure entries error)
  unfolding permits_of
  permits_of_lem [] = inl ([], refl, tt)
  permits_of_lem (e ∷ entries) = elim (Result-cases (compile_rbac_to_cedar e tenant namespace)) [
    | inr (reason, bad) ↦ inr (
      record { name = e.name; reason = reason },
      rw bad refl,
      ([], e, entries, [], refl, tt, refl, bad),
    )
    | inl (statement, good) ↦ elim (permits_of_lem entries) [
      | inl (permits, run, are) ↦ inl (
        record { name = policy_name_for_group e.name; statement = statement } ∷ permits,
        rw (good, run) refl,
        (refl, good, are),
      )
      | inr (error, run, (before, entry, after, permits, split, are, name, bad)) ↦ inr (
        error,
        rw (good, run) refl,
        (
          e ∷ before,
          entry,
          after,
          record { name = policy_name_for_group e.name; statement = statement } ∷ permits,
          ap (λ l. e ∷ l) split,
          (refl, good, are),
          name,
          bad,
        ),
      )
    ]
  ]

-- The permits of roles come in the order of the roles' names, one for each role, named for it and
-- compiled from it; or the error is that of the first role in this order that does not compile, and
-- there are no permits.
pub groups_to_permits_lem :
    (entries : List RbacEntry) (namespace : Str) (tenant : TenantConfig)
    → (sorted : List RbacEntry) × (is_sorted sorted ≡ true)
      × Perm sorted entries
      × (((permits : List NamedPermit) × (groups_to_permits entries namespace tenant ≡ ok permits)
            × ArePermits namespace tenant sorted permits)
          ⊎ ((error : MaterializeCompileError) × (groups_to_permits entries namespace tenant
                ≡ err error)
              × FirstFailure namespace tenant sorted error))
unfolding groups_to_permits
groups_to_permits_lem entries namespace tenant = (
  sort_entries entries,
  is_sorted-sort_entries entries,
  sort_entries-perm entries,
  permits_of_lem namespace tenant (sort_entries entries),
)
