-- ===== src/Core/PrincipalSet/Laws.antt =====
-- What the operations of a principal set keep.
use forgeguard.Base.{
  ◌≡◌, ◌⊎◌, ◌≢◌, Bool, true, false, not, ◌||◌, [], contains, ◌==◌, arith, subst, sym, inl, inr,
  Bool-cases, ==-eq,
}
use forgeguard.Base.Sets.{insert_set, contains-insert_set}
use forgeguard.Base.Result.{ok}
use forgeguard.Core.Segment.{segment_eq, segment_beq_iff}
use forgeguard.Core.Fgrn.{Fgrn, org_unit, principal, principal_set, kind_eq, fgrn_eq, fgrn_beq_iff}
use forgeguard.Core.PrincipalSet.{PrincipalSet, set_new, add_member, has_member}

-- Who may be a member of a set.
abbrev pub MayJoin : PrincipalSet → Fgrn → Type 0
MayJoin set member =
    ((member.kind ≡ principal) ⊎ (member.kind ≡ principal_set))
    × (member ≢ set.fgrn)
    × (member.organization ≡ set.fgrn.organization)

-- A set, its anchor and its members agree.
pub record IsProper (set : PrincipalSet) : Type 0 where
  pub named : set.fgrn.kind ≡ principal_set
  pub anchored : set.anchor.kind ≡ org_unit
  pub home : set.anchor.organization ≡ set.fgrn.organization
  pub joined : (m : Fgrn) → has_member set m ≡ true → MayJoin set m

-- A set that is made is proper: it and its anchor are of the right kinds and of one organization.
pub set_new-IsProper :
    (fgrn anchor : Fgrn) (set : PrincipalSet) → set_new fgrn anchor ≡ ok set → IsProper set
unfolding set_new has_member
set_new-IsProper fgrn anchor set h =
    let home = segment_beq_iff anchor.organization fgrn.organization in
    let result : record { fgrn = fgrn; anchor = anchor; members = [] } ≡ set =
      ground (arith, home) in
    subst IsProper result (record {
      named = ground (arith, home);
      anchored = ground (arith, home);
      home = ground (arith, home);
      joined = λ m c. cc;
    })

-- Adding to a proper set keeps it proper. The set then has the old members and the new one, and the
-- call says whether that one is new.
pub add_member-IsProper :
    (set after : PrincipalSet) (member : Fgrn) (added : Bool)
    → IsProper set
    → add_member set member ≡ ok (after, added)
    → IsProper after
      × ((m : Fgrn) → has_member after m ≡ (m == member || has_member set m))
      × (added ≡ not (has_member set member))
unfolding add_member has_member
add_member-IsProper set after member added w h =
    let home = segment_beq_iff member.organization set.fgrn.organization in
    let result : record set { members = insert_set member set.members } ≡ after = ground arith in
    let fresh : added ≡ not (contains set.members member) = ground arith in
    let may : MayJoin set member = (
      ground (arith, home),
      (λ e. ground (arith, fgrn_beq_iff member set.fgrn)),
      ground (arith, home),
    ) in
    let joins : (m : Fgrn)
        → contains (insert_set member set.members) m ≡ true
        → ((m == member) ≡ true) ⊎ ((m == member) ≡ false)
        → MayJoin set m =
      (λ m c s. elim s [
        | inl e ↦ subst (MayJoin set) (sym (==-eq m member e)) may
        | inr n ↦ w.joined m (ground (arith, contains-insert_set member m set.members))
      ]) in
    subst
      (λ (x : PrincipalSet).
        IsProper x
        × ((m : Fgrn) → contains x.members m ≡ (m == member || contains set.members m))
        × (added ≡ not (contains set.members member)))
      result
      (
        record {
          named = w.named;
          anchored = w.anchored;
          home = w.home;
          joined = λ m c. joins m c (Bool-cases (m == member));
        },
        (λ m. contains-insert_set member m set.members),
        fresh,
      )
