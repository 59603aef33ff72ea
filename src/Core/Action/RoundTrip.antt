-- ===== src/Core/Action/RoundTrip.antt =====
-- The texts that `QualifiedAction::parse` accepts.
use forgeguard.Base.{
  Str, ◌≡◌, ◌↔◌, ◌∙◌, refl, sym, ap, subst, false, List, [], ◌∷◌, ◌++◌, contains, nat_eq, list_eq,
  Bool-cases, inl, inr,
}
use forgeguard.Base.Text.{splitn, splitn-three, splitn-three_sound}
use forgeguard.Base.Result.{ok, >>=-eq-ok}
use forgeguard.Core.Segment
use forgeguard.Core.Segment.{Segment, segment_byte}
use forgeguard.Core.Segment.Grammar.{raw-try_new}
use forgeguard.Core.Fgrn.WellFormed.{ValidSegment, no_byte}
use forgeguard.Core.Action.{
  Namespace, user, reserved, reserved_namespaces, as_segment, parse_namespace, QualifiedAction,
  parse_action_parts, parse_action, action_text,
}

-- What a customer may use as a namespace.
abbrev pub IsCustomers : Namespace → Type 0
IsCustomers (reserved s) = ⊥
IsCustomers (user s) = ValidSegment s × (contains reserved_namespaces s.raw ≡ false)

pub record IsParsed (q : QualifiedAction) : Type 0 where
  pub namespace : IsCustomers q.namespace
  pub entity : ValidSegment q.entity
  pub action : ValidSegment q.action

parse_namespace_sound :
    (s : Str) (n : Namespace) → parse_namespace s ≡ ok n → IsCustomers n × (s ≡ (as_segment n).raw)
unfolding parse_namespace
parse_namespace_sound s n h = elim (Bool-cases (contains reserved_namespaces s)) [
  | inl y ↦ cc (rw (y, parse_namespace) at h)
  | inr f ↦
      let (seg, e, same) = >>=-eq-ok (Segment.try_new s) _ (rw (f, parse_namespace) at h) in
      let raw = raw-try_new s seg e in
      let back : user seg ≡ n = cc same in
      subst (λ x. IsCustomers x × (s ≡ (as_segment x).raw)) back
        (
          (
            subst (λ x. Segment.try_new x ≡ ok seg) (sym raw) e,
            subst (λ x. contains reserved_namespaces x ≡ false) (sym raw) f,
          ),
          sym raw,
        )
]

parse_namespace_complete :
    (s : Segment) → IsCustomers (user s) → parse_namespace s.raw ≡ ok (user s)
unfolding parse_namespace
parse_namespace_complete s (v, r) = rw (r, v, parse_namespace) refl

parse_action_parts-cases :
    (s : Str) (parts : List Str) (q : QualifiedAction)
    → parse_action_parts s parts ≡ ok q
    → (ns : Str) × (entity : Str) × (action : Str) × (parts ≡ ns ∷ entity ∷ action ∷ [])
      × (parse_namespace ns ≡ ok q.namespace)
      × (Segment.try_new entity ≡ ok q.entity)
      × (Segment.try_new action ≡ ok q.action)
unfolding parse_action_parts
parse_action_parts-cases s [] q h = cc
parse_action_parts-cases s (a ∷ []) q h = cc
parse_action_parts-cases s (a ∷ b ∷ []) q h = cc
parse_action_parts-cases s (ns ∷ e ∷ a ∷ []) q h =
    let (n, hn, rest) = >>=-eq-ok (parse_namespace ns) _ h in
    let (a', ha, rest') = >>=-eq-ok (Segment.try_new a) _ rest in
    let (e', he, done) = >>=-eq-ok (Segment.try_new e) _ rest' in (ns, e, a, refl, cc, cc, cc)
parse_action_parts-cases s (a ∷ b ∷ c ∷ d ∷ parts) q h = cc

valid_text : (s : Str) (a : Segment) → Segment.try_new s ≡ ok a → (s ≡ a.raw) × ValidSegment a
valid_text s a h =
    let raw = raw-try_new s a h in (sym raw, subst (λ x. Segment.try_new x ≡ ok a) (sym raw) h)

namespace_no_colon : (n : Namespace) → IsCustomers n → contains (as_segment n).raw b':' ≡ false
namespace_no_colon (user s) (v, r) = no_byte b':' s refl v
namespace_no_colon (reserved s) h = absurd h

-- A text is read as a qualified action exactly when it is the action's own text and the action is
-- what a customer may write: its namespace, entity and verb are valid segments, and the namespace is
-- neither `iam` nor `forgeguard`.
pub parse_action-iff-action_text :
    (s : Str) (q : QualifiedAction) → (parse_action s ≡ ok q) ↔ ((s ≡ action_text q) × IsParsed q)
unfolding parse_action parse_action_parts action_text
parse_action-iff-action_text s q = (
  (λ h.
      let (ns, e, a, parts, hn, he, ha) = parse_action_parts-cases s (splitn 4 b':' s) q h in
      let (customers, same) = parse_namespace_sound ns q.namespace hn in
      let (same_e, valid_e) = valid_text e q.entity he in
      let (same_a, valid_a) = valid_text a q.action ha in
      (
        cc (splitn-three_sound b':' s ns e a parts),
        record { namespace = customers; entity = valid_e; action = valid_a },
      )),
  λ (e, valid). rw e (read q.namespace valid.namespace valid.entity valid.action),
)
  where
    parts :
        (text : Str) (a : Segment)
        → ValidSegment a
        → contains reserved_namespaces a.raw ≡ false
        → ValidSegment q.entity
        → ValidSegment q.action
        → parse_action_parts text (a.raw ∷ q.entity.raw ∷ q.action.raw ∷ [])
          ≡ ok (record { namespace = user a; action = q.action; entity = q.entity })
    parts text a valid free ve va =
        rw (parse_namespace_complete a (valid, free), va, ve, parse_action_parts) refl

    read :
        (n : Namespace)
        → IsCustomers n
        → ValidSegment q.entity
        → ValidSegment q.action
        → parse_action_parts
            ((as_segment n).raw ++ b':' ∷ (q.entity.raw ++ b':' ∷ q.action.raw))
            (splitn 4 b':' ((as_segment n).raw ++ b':' ∷ (q.entity.raw ++ b':' ∷ q.action.raw)))
          ≡ ok (record { namespace = n; action = q.action; entity = q.entity })
    read (reserved a) c ve va = absurd c
    read (user a) (valid, free) ve va =
        ap (parse_action_parts (a.raw ++ b':' ∷ (q.entity.raw ++ b':' ∷ q.action.raw))) (
          splitn-three b':' a.raw q.entity.raw q.action.raw (no_byte b':' a refl valid)
            (no_byte b':' q.entity refl ve) (no_byte b':' q.action refl va))
        ∙ parts (a.raw ++ b':' ∷ (q.entity.raw ++ b':' ∷ q.action.raw)) a valid free ve va
