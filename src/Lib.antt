-- ===== src/Lib.antt =====
-- ForgeGuard's authorization core: who may do what to which resource in an organization.
--
-- An organization is a spine, a tree of org units; principals, principal sets and resources are
-- anchored in it. Every entity has a stable name, an FGRN. Rights are grants of verbs on a resource
-- to a principal or a set, and they flow along delegation chains and down to a set's members. The
-- model of an organization changes by events in an append-only log, from which the state at any
-- revision is folded, and decisions read a slice of the model at one revision.
--
-- The modules follow the crates:
--
-- - Core.Error: crates/core/src/error.rs.
-- - Core.Segment, Core.NativeId, Core.Verb: `try_new` of crates/core/src/segment.rs, native_id.rs and
--   verb.rs. Core.CedarIdent: `CedarIdent::new` (`ident_new`) and `Segment::to_cedar_ident`.
-- - Core.Fgrn: `parse` and the builders of crates/core/src/fgrn.rs (`org_unit_of`, `principal_of`,
--   `principal_set_of`, `resource_of`).
-- - Core.Spine: `OrgUnit` and `Spine` of crates/core/src/spine.rs; Core.Forest has its climbing loops
--   and what parent edges say. A loop that may not end has the type `Walk`, a method that climbs
--   returns a `Fault`: the Rust error, an `unreachable!`, or rounds that ran out.
-- - Core.Selector: the text of `Selector`, crates/core/src/selector.rs; Core.Selector.Resolve its
--   `resolve` in a spine, with the derived `Ord` of `Fgrn` that sorts the answer.
-- - Core.Org: `OrgStatus` and `Organization` of crates/core/src/org.rs, without `from_str`; a time
--   is of a type that is a parameter, chrono's `DateTime<Utc>`.
-- - Core.Action: namespaces and actions of crates/core/src/action.rs, and references to resources and
--   principals. Core.Flag, Core.Features: crates/core/src/features/mod.rs and percentage.rs.
-- - Core.Grant: crates/core/src/grant.rs, principal.rs, anchored_resource.rs and promotion.rs.
-- - Core.PrincipalSet, Core.Delegation, Core.Visibility: principal_set.rs (its `assert_acyclic` and
--   `visit` in Core.PrincipalSet.Acyclic), delegation.rs and
--   visibility.rs of crates/core/src.
-- - Authz.Kind, Authz.Event: crates/authz-core/src/event/kind.rs, envelope.rs and log.rs.
--   Authz.Event.Canonical: canonical.rs, the bytes that the signature of an event is over.
-- - Authz.Event.Payload, Authz.Event.Fold: the payload builders, `decide_upsert` and `fold_events` of
--   crates/authz-core/src/event/fold.rs and upsert.rs, and `promotion_event_payload` of
--   crates/control-plane/src/promotion_store.rs.
-- - Authz.Store: `ModelState` and `StoreWrite` of crates/authz-core/src/store; Authz.Store.Slice the
--   selection of slices, Authz.Store.Memory the store of revisions.
-- - Authz.Rbac: the roles of crates/authz-core/src/rbac/mod.rs and `resolve_inherits`;
--   Authz.Rbac.Compile: `compile_rbac_to_cedar`; Authz.Rbac.Permits: permits.rs;
--   Authz.Rbac.Validation: validation.rs, the checks before a group is written.
-- - Authz.Query: queries, decisions, the trait of an engine and the static engine, of
--   crates/authz-core/src (query.rs, context.rs, decision.rs, engine.rs, static_engine.rs).
-- - Authn: crates/authn-core/src. Authn.Identity: credentials, identities, `IdentityChain::resolve`
--   and the resolver of API keys. Authn.Signing: the bytes that a request signs.
-- - Http: crates/http/src, a module for each of method.rs, route.rs, public.rs, credential.rs, debug.rs
--   and query.rs.
-- - Proxy: crates/proxy-core/src. Proxy.Input: a checked request. Proxy.Tenant: the organization that a
--   request names. Proxy.Outcome: how a request ends. Proxy.WellKnown: the endpoints of the proxy
--   itself. Proxy.Pipeline: `evaluate_pipeline` of pipeline.rs, a function for each phase, on the
--   answers of the resolvers and the engine; a panic is the outcome `panicked` of the model.
-- - ControlPlane: crates/control-plane/src. ControlPlane.SigningKey: signing_key.rs.
--   ControlPlane.EventStore: `InMemoryModelEventStore` of model_event_store/in_memory.rs, with the
--   transitions and builders of support.rs and `fold_at` of mod.rs; its operations are in the children
--   Entities, Keys, Groups and Folding.
--
-- A request comes with headers; Http.Credential finds its credential, Authn's chain resolves that to an
-- identity, Core.Features evaluates the flags for it, Http.Route finds the action of the path, and
-- Http.Query puts the question to the engine; Proxy.Pipeline composes these.
--
-- Base has what the modules share: texts as lists of bytes, `HashMap` and `BTreeMap` as association
-- lists, `BTreeSet` as lists without repetition, `Result` with `?` as its bind, and equality tests as
-- an instance argument, `Eq`. The order in which a Rust map or set is iterated is not modelled.
--
-- Fuel and bounds: `Spine::path` and the acyclicity test climb at most as many moves as the spine has
-- units, which a path without repetition cannot exceed; the walk of `set_contains` goes one level
-- deeper than there are sets, and every level visits a set that no other level has; so do
-- `InheritanceWalker::collect` with roles and `visit` with sets. `fold_at` reads at most one page more
-- than the log has events. Revisions and
-- sequence numbers are natural numbers; the program's are `u64`, which counts the appends of a log.
--
-- `serde_json::Value` is a parameter, the record `Authz.Json.Json`, with the documented behaviour
-- of the operations that the fold calls. The crates matchit (Http.Matchit), regex
-- (Authz.Rbac.Validation), serde_json's `to_vec` and sha2 (Authz.Event.Canonical), xxhash-rust and
-- form_urlencoded are parameters, and so are chrono's times, IP addresses, `f64` and decision
-- records (Proxy.Outside). What a resolver or an engine awaits is part of its answer. Locks, serde
-- derives and the `Display` of types whose text no modelled code uses are not modelled. Neither are
-- the crates that talk to AWS, HTTP clients and the terminal (authn, authz, proxy, cli,
-- fg-lambdas), the Cedar engines, which call the cedar-policy crate, and of the control plane the
-- handlers and the DynamoDB stores.
pub mod Base
pub mod Core
pub mod Authn
pub mod Http
pub mod Proxy
pub mod Authz
pub mod ControlPlane
