-- ===== src/Proxy/Pipeline/Forwarding.antt =====
-- What a request that is forwarded has passed: the phases, one after the other.
use forgeguard.Base.{
  ◌≡◌, refl, ap, subst, sym, ◌∙◌, inl, inr, Str, Bool, true, false, List, Option, none, some,
  Bool-cases, arith, list_eq, nat_eq,
}
use forgeguard.Base.Result.{Result, ok, err, ◌>>=◌, >>=-eq-ok}
use forgeguard.Core.Segment
use forgeguard.Core.Segment.{Segment}
use forgeguard.Core.Flag.{FlagName, FlagValue, flag_text}
use forgeguard.Core.Features.{flag_enabled}
use forgeguard.Authn.Identity.{IdentityResolver}
use forgeguard.Http.Method.{method_text}
use forgeguard.Http.Route.{MatchedRoute, match_request}
use forgeguard.Http.Public.{PublicMatch, check}
use forgeguard.Http.Credential.{find_header, x_fg_org_id}
use forgeguard.Proxy.Input.{RequestInput}
use forgeguard.Proxy.Outside.{Outside}
use forgeguard.Proxy.Outcome.{
  EnforcementMode, PolicyEffect, Membership, MembershipResolver, PipelineConfig, Caller, Engine,
  PipelineOutcome, forward, reject_json,
}
use forgeguard.Proxy.WellKnown.{well_known, health_response, debug_response}
use forgeguard.Proxy.Pipeline.{
  require_credential, enriched, authenticate, enrich, flags_of, check_gate, verdict, decide, routed,
  outcome_of, evaluate_pipeline, phases, unauthorized, unmatched, as_member, named_org,
  enrich_caller, effect_of, forbidden,
}
use forgeguard.Proxy.Pipeline.Passed.{
  IsCaller, resolved, nobody, IsMember, no_resolver, no_caller, has_tenant, names_none, member,
  IsOpen, no_gate, enabled, Answers, answers, fails, IsDecided, no_subject, allows, would_pass,
  would_fail, on_public, by_default,
}

none-≢-some {ℓ κ} : {A : Type ℓ} {B : Type κ} {a : A} → none ≡ some a → B
none-≢-some e = cc

module _ (o : Outside) where
  is_forward : PipelineOutcome o → Bool
  is_forward (forward identity flags route decision_record effect) = true
  is_forward outcome = false

  -- When the phases end a request, it is not forwarded.
  Ends {ℓ} : {A : Type ℓ} → Result (PipelineOutcome o) A → Type ℓ
  Ends m = (e : PipelineOutcome o) → m ≡ err e → is_forward e ≡ false

  >>=-Ends {ℓ κ} :
      {A : Type ℓ} {B : Type κ} (m : Result (PipelineOutcome o) A)
      (k : A → Result (PipelineOutcome o) B)
      → Ends m
      → ((a : A) → Ends (k a))
      → Ends (m >>= k)
  unfolding Ends
  >>=-Ends (ok a) k h h' = h' a
  >>=-Ends (err e) k h h' = λ e' eq. h e' (grind arith)

  authenticate-Ends :
      (chain : List (IdentityResolver o.Time o.json.Value)) (input : RequestInput o.Ip)
      (public_match : PublicMatch)
      → Ends (authenticate {o = o} chain input public_match)
  unfolding Ends is_forward authenticate unauthorized reject_json
  authenticate-Ends chain input public_match = λ e h. ground arith

  enrich-Ends :
      (membership : Option MembershipResolver) (require : Bool) (input : RequestInput o.Ip)
      (identity : Option (Caller o))
      → Ends (enrich {o = o} membership require input identity)
  unfolding Ends is_forward enrich enrich_caller named_org as_member reject_json
  enrich-Ends membership require input identity = λ e h. ground arith

  well_known-Ends :
      (config : PipelineConfig o) (input : RequestInput o.Ip) (engine : Engine o)
      → Ends (well_known config input engine)
  unfolding Ends is_forward well_known health_response debug_response reject_json
  well_known-Ends config input engine = λ e h. ground arith

  authenticate-IsCaller :
      (chain : List (IdentityResolver o.Time o.json.Value)) (input : RequestInput o.Ip)
      (public_match : PublicMatch) {identity : Option (Caller o)}
      → authenticate {o = o} chain input public_match ≡ ok identity
      → IsCaller o chain input.headers public_match identity
  unfolding authenticate unauthorized reject_json
  authenticate-IsCaller chain input public_match h = grind (arith, resolved, nobody)

  joins :
      {headers : List (Str × Str)} {public_match : PublicMatch} {resolver : MembershipResolver}
      {id : Caller o} (text : Str) (org_id : Segment) (membership : Membership)
      → find_header headers x_fg_org_id ≡ some text
      → Segment.try_new text ≡ ok org_id
      → resolver id.user_id org_id ≡ ok (some membership)
      → IsMember o headers public_match
          (some resolver)
          (some id)
          (some (enriched o id org_id membership))
  joins = member

  enrich-IsMember :
      (membership : Option MembershipResolver) (public_match : PublicMatch)
      (input : RequestInput o.Ip) (identity : Option (Caller o)) {after : Option (Caller o)}
      → enrich {o = o} membership (require_credential public_match) input identity ≡ ok after
      → IsMember o input.headers public_match membership identity after
  unfolding enrich enrich_caller named_org as_member reject_json
  enrich-IsMember membership public_match input identity h =
      grind (arith, no_resolver, no_caller, has_tenant, names_none, joins)

  check_gate-IsOpen :
      (flags : Option (List (Str × FlagValue o.Float))) (route : MatchedRoute)
      (gate : Option FlagName) {u : Unit {0}}
      → route.feature_gate ≡ gate
      → check_gate {o = o} flags gate ≡ ok u
      → IsOpen o flags route
  unfolding check_gate reject_json
  check_gate-IsOpen flags route none e h = no_gate e
  check_gate-IsOpen none route (some gate) e h = ground arith
  check_gate-IsOpen (some values) route (some gate) e h =
      elim (Bool-cases (flag_enabled values (flag_text gate))) [
        | inl y ↦ enabled values gate e refl y
        | inr n ↦ ground arith
      ]

  module _ (config : PipelineConfig o) (input : RequestInput o.Ip) (engine : Engine o)
      (mode : EnforcementMode) where
    verdict-Answers :
        (id : Caller o) (route : MatchedRoute)
        → Answers o config input engine mode id route
            (verdict o engine config.project_id input route id).0
            (verdict o engine config.project_id input route id).1
    unfolding verdict
    verdict-Answers id route = grind (arith, answers, fails)

    decide-IsDecided :
        (public_match : PublicMatch) (identity : Option (Caller o)) (route : MatchedRoute)
        {effect : PolicyEffect} {decision_record : Option o.DecisionRecord}
        → decide config input engine mode route identity ≡ ok (effect, decision_record)
        → IsDecided o config input engine mode public_match identity
            (some route)
            decision_record
            effect
    unfolding decide effect_of
    decide-IsDecided public_match identity route h =
        grind (arith, verdict-Answers, no_subject, allows, would_pass, would_fail)

    unmatched-IsDecided :
        (public_match : PublicMatch) (identity : Option (Caller o))
        (flags : Option (List (Str × FlagValue o.Float))) {after : Option (Caller o)}
        {flags' : Option (List (Str × FlagValue o.Float))} {route : Option MatchedRoute}
        {decision_record : Option o.DecisionRecord} {effect : PolicyEffect}
        → unmatched config public_match identity flags config.default_policy
          ≡ forward after flags' route decision_record effect
        → (after ≡ identity)
          × (flags' ≡ flags)
          × (route ≡ none)
          × IsDecided o config input engine mode public_match identity none decision_record effect
    unfolding unmatched
    unmatched-IsDecided public_match identity flags h = grind (arith, on_public, by_default)

    abbrev pub match_of_public : PublicMatch
    match_of_public =
        check o.matchit config.public_route_matcher (method_text input.method) input.path

    abbrev pub route_of : Option MatchedRoute
    route_of = match_request o.matchit config.route_matcher (method_text input.method) input.path

    routed-forward :
        (identity : Option (Caller o)) (found : Option MatchedRoute) {after : Option (Caller o)}
        {flags : Option (List (Str × FlagValue o.Float))} {route : Option MatchedRoute}
        {decision_record : Option o.DecisionRecord} {effect : PolicyEffect}
        → routed config input engine mode match_of_public identity (flags_of config identity) found
          ≡ ok (forward after flags route decision_record effect)
        → (after ≡ identity)
          × (flags ≡ flags_of config identity)
          × (route ≡ found)
          × ((r : MatchedRoute) → found ≡ some r → IsOpen o (flags_of config identity) r)
          × IsDecided o config input engine mode match_of_public identity found decision_record
              effect
    unfolding routed
    routed-forward identity none h =
        let (a, f, r, d) =
          unmatched-IsDecided match_of_public identity (flags_of config identity) (grind arith) in
        (a, f, r, (λ r' e. none-≢-some e), d)
    routed-forward identity (some found) h =
        let (_, gated, h₁) =
          >>=-eq-ok (check_gate {o = o} (flags_of config identity) found.feature_gate) _ h in
        let (decided, d, h₂) = >>=-eq-ok (decide config input engine mode found identity) _ h₁ in
        (
          grind arith,
          grind arith,
          grind arith,
          λ r e.
              subst (IsOpen o (flags_of config identity)) (grind arith)
                (check_gate-IsOpen (flags_of config identity) found found.feature_gate refl gated),
          decide-IsDecided match_of_public identity found (d ∙ ap ok (grind arith)),
        )

    routed-Ends :
        (public_match : PublicMatch) (identity : Option (Caller o))
        (flags : Option (List (Str × FlagValue o.Float))) (found : Option MatchedRoute)
        → Ends (routed config input engine mode public_match identity flags found)
    unfolding Ends is_forward routed check_gate decide effect_of forbidden reject_json
    routed-Ends public_match identity flags found = λ e h. ground arith

    outcome_of-forward :
        (m : Result (PipelineOutcome o) (PipelineOutcome o)) {outcome : PipelineOutcome o}
        → Ends m
        → is_forward outcome ≡ true
        → outcome_of {o = o} m ≡ outcome
        → m ≡ ok outcome
    unfolding Ends
    outcome_of-forward (ok a) h f e = ap ok e
    outcome_of-forward (err a) h f e = grind (arith, h)

    phases-Ends :
        (chain : List (IdentityResolver o.Time o.json.Value))
        → Ends (phases config input chain engine mode)
    unfolding phases
    phases-Ends chain = >>=-Ends _ _ (well_known-Ends config input engine) λ _.
        >>=-Ends _ _ (authenticate-Ends chain input match_of_public) λ identity.
          >>=-Ends _ _ (enrich-Ends config.membership_resolver _ input identity)
            λ enriched_identity. routed-Ends match_of_public enriched_identity _ route_of

    -- A request is forwarded only after every phase let it go on: the caller is the one its credential
    -- resolves to, and only a public route goes without; with a membership resolver the caller has a
    -- tenant, unless the route is public; the flags are those of that caller, and the gate of the route
    -- is one of them and enabled; in the mode that enforces, the engine allowed an authenticated caller
    -- of a route; and a request without a route is of a public route or goes on by the default policy.
    pub evaluate_pipeline-forward :
        (chain : List (IdentityResolver o.Time o.json.Value)) {identity : Option (Caller o)}
        {flags : Option (List (Str × FlagValue o.Float))} {route : Option MatchedRoute}
        {decision_record : Option o.DecisionRecord} {effect : PolicyEffect}
        → evaluate_pipeline config input chain engine mode
          ≡ forward identity flags route decision_record effect
        → (caller : Option (Caller o)) × IsCaller o chain input.headers match_of_public caller
          × IsMember o input.headers match_of_public config.membership_resolver caller identity
          × (flags ≡ flags_of config identity)
          × (route ≡ route_of)
          × ((r : MatchedRoute) → route_of ≡ some r → IsOpen o flags r)
          × IsDecided o config input engine mode match_of_public identity route_of decision_record
              effect
    unfolding evaluate_pipeline phases is_forward
    evaluate_pipeline-forward chain {decision_record = taken} {effect = seen} h =
        let e =
          outcome_of-forward (phases config input chain engine mode) (phases-Ends chain) refl h in
        let (_, _, e₁) = >>=-eq-ok (well_known config input engine) _ e in
        let (caller, authentic, e₂) = >>=-eq-ok (authenticate chain input match_of_public) _ e₁ in
        let (identity, joined, e₃) =
          >>=-eq-ok (enrich config.membership_resolver _ input caller) _ e₂ in
        let (same, flags, route, gated, decided) = routed-forward identity route_of e₃ in
        (
          caller,
          authenticate-IsCaller chain input match_of_public authentic,
          enrich-IsMember config.membership_resolver match_of_public input caller
              (joined ∙ ap ok (sym same)),
          flags ∙ ap (flags_of config) (sym same),
          route,
          λ r e'. subst (λ f. IsOpen o f r) (sym flags) (gated r e'),
          subst (λ i. IsDecided o config input engine mode match_of_public i route_of taken seen)
              (sym same) decided,
        )
