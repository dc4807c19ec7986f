-- ===== src/Access/Routing/Provider/Choice.antt =====
-- The provider that ChooseProviderRouted of internal/access/routing.go returns.
use cpa_access_manager.Base.{
  ◌≡◌, refl, sym, ap, ◌∙◌, subst, inl, inr, true, false, not, List, [], ◌∷◌, Option, none, some, In,
  length, ◌%◌, arith,
}
use native.Mathlib.Nat.{mod-lt}
use cpa_access_manager.Base.Sort.{Sorted, sort_by, sort_by-Sorted, In-sort_by}
use cpa_access_manager.Base.Text.{
  Text, is_empty, text_leb, text_ltb_irrefl, text_ltb_trans, text_leb_trans,
}
use cpa_access_manager.Access.Types.{Time, Key, Scope, Error}
use cpa_access_manager.Access.Normalize.{string_set}
use cpa_access_manager.Access.Keys.{get_key}
use cpa_access_manager.Access.Scope.{resolve_scope}
use cpa_access_manager.Access.Scope.Reads.{resolve_scope-ReadsOnly}
use cpa_access_manager.Access.Clean.Reads.{get_key-ReadsOnly}
use cpa_access_manager.Access.Routing.Cursor.{next_routing_value}
use cpa_access_manager.Access.Routing.Fairness.{contains_string-In, get_or-In}
use cpa_access_manager.Access.Routing.Session.{RoutingSession, save_routing_session}
use cpa_access_manager.Access.Routing.Provider.{
  sticky_provider, route_provider, route_allowed, choose_allowed, provider_cursor, choose_in_scope,
  choose_provider_routed,
}
use cpa_access_manager.Access.Db.{ok, State, Store, pure, fail, gets}
use cpa_access_manager.Access.Db.Reads.{read_same}
use cpa_access_manager.Access.Db.Success.{bind_ok, pure_ok, unless_ok, if_ok, transaction_ok}
use cpa_access_manager.Access.Routing.Provider.Allowed.{MayServe, allowed_providers_ok}

text_leb_total : (a b : Text) → text_leb a b ≡ false → text_leb b a ≡ true
text_leb_total a b h = ground (arith, text_ltb_trans a b a, text_ltb_irrefl a)

text_leb_transitive :
    (a b c : Text) → text_leb a b ≡ true → text_leb b c ≡ true → text_leb a c ≡ true
text_leb_transitive a b c h k = ground (arith, text_leb_trans a b c)

next_routing_value-In :
    (cursor v w : Text) (vs : List Text) (s s' : State)
    → next_routing_value cursor (w ∷ vs) s ≡ (ok v, s')
    → In v (w ∷ vs)
unfolding next_routing_value pure
next_routing_value-In cursor v w vs s s' h =
    let n = length (w ∷ vs) in
    subst (λ x. In x (w ∷ vs)) (sym (pure_ok _ _ v s' h).0)
      (get_or-In (w ∷ vs) (s.store.routing_cursor cursor % n) []
        (mod-lt (s.store.routing_cursor cursor) {m = n} (omega arith)))

sticky-In :
    (allowed : List Text) (now : Time) (o : Option RoutingSession) (x : RoutingSession)
    → Sorted text_leb allowed
    → sticky_provider allowed now o ≡ some x
    → In x.provider allowed
unfolding sticky_provider
sticky-In allowed now none x sorted h = absurd (cc)
sticky-In allowed now (some m) x sorted h =
    let found = (contains_string-In allowed x.provider sorted).1 in found (ground arith)

route_provider-In :
    (key_id hash cursor w : Text) (vs : List Text) (now : Time) (o : Option RoutingSession)
    (s s' : State) (v : Text)
    → ((x : RoutingSession) → o ≡ some x → In x.provider (w ∷ vs))
    → route_provider key_id hash cursor (w ∷ vs) now o s ≡ (ok v, s')
    → In v (w ∷ vs)
unfolding route_provider
route_provider-In key_id hash cursor w vs now (some x) s s' v k h =
    let (u, t, saved, h1) =
      bind_ok (save_routing_session key_id hash x.provider x.auth_id now) (λ u. pure x.provider) s v
        s' h in
    subst (λ y. In y (w ∷ vs)) (sym (pure_ok x.provider t v s' h1).0) (k x refl)
route_provider-In key_id hash cursor w vs now none s s' v k h =
    let (x, t, next, h1) = bind_ok (next_routing_value cursor (w ∷ vs)) _ s v s' h in
    let (u, t1, saved, h2) = bind_ok _ _ t v s' h1 in
    let (u', t2, dropped, h3) = bind_ok _ _ t1 v s' h2 in
    subst (λ y. In y (w ∷ vs)) (sym (pure_ok x t2 v s' h3).0)
      (next_routing_value-In cursor x w vs s t next)

route_allowed-In :
    (key_id model hash w : Text) (vs : List Text) (now : Time) (s s' : State) (v : Text)
    → Sorted text_leb (w ∷ vs)
    → route_allowed key_id model hash (w ∷ vs) now s ≡ (ok v, s')
    → In v (w ∷ vs)
unfolding route_allowed
route_allowed-In key_id model hash w vs now s s' v sorted h =
    elim (if_ok (is_empty hash) _ _ s s' v h) [
      | inl k ↦ next_routing_value-In (provider_cursor key_id model) v w vs s s' k
      | inr k ↦
          let (t, t', body, same) = transaction_ok _ s v s' k in
          let (m, t1, loaded, h1) = bind_ok _ _ t v t' body in
          route_provider-In key_id hash (provider_cursor key_id model) w vs now
            (sticky_provider (w ∷ vs) now m) t1 t' v (λ x e. sticky-In (w ∷ vs) now m x sorted e) h1
    ]

choose_allowed-In :
    (key_id model hash : Text) (now : Time) (vs : List Text) (s s' : State) (v : Text)
    → Sorted text_leb vs
    → choose_allowed key_id model hash now vs s ≡ (ok v, s')
    → In v vs
unfolding choose_allowed fail
choose_allowed-In key_id model hash now [] s s' v sorted h = absurd (cc)
choose_allowed-In key_id model hash now (w ∷ vs) s s' v sorted h =
    route_allowed-In key_id _ _ w vs now s s' v sorted h

-- What ChooseProviderRouted returns.
pub record IsChoice (scope : Scope) (key : Key) (model : Text) (available : List Text) (s : Store)
    (v : Text) : Type 0 where
  pub bound : scope.has_bindings ≡ true
  pub reached : In v scope.providers
  pub served : MayServe key model s.allow_unpriced (string_set available) s v

gets_ok :
    {A : Type 0} (f : Store → A) (s t : State) (a : A)
    → gets f s ≡ (ok a, t)
    → (a ≡ f s.store) × (t ≡ s)
unfolding gets
gets_ok f s t a h = ground arith

choose_in_scope_ok :
    (key : Key) (scope : Scope) (key_id model : Text) (available : List Text) (hash : Text)
    (now : Time) (s s' : State) (v : Text)
    → choose_in_scope key scope key_id model available hash now s ≡ (ok v, s')
    → IsChoice scope key model available s.store v
unfolding choose_in_scope
choose_in_scope_ok key scope key_id model available hash now s s' v h =
    let (bound, h1) = unless_ok (not scope.has_bindings) Error.no_bindings _ s s' v h in
    let (b, t, setting, h2) = bind_ok (gets (λ x. x.allow_unpriced)) _ s v s' h1 in
    let (vs, t', tested, h3) = bind_ok _ _ t v s' h2 in
    let (eb, et) = gets_ok (λ x. x.allow_unpriced) s t b setting in
    let m = In-sort_by text_leb v vs (
      choose_allowed-In key_id model hash now (sort_by text_leb vs) t' s' v
        (sort_by-Sorted text_leb text_leb_total text_leb_transitive vs) h3) in
    let (reached, served) =
      allowed_providers_ok key model b (string_set available) scope.providers t t' vs v tested m in
    record {
      bound = ground arith;
      reached = reached;
      served =
          subst (λ x. MayServe key model x (string_set available) s.store v) eb
            (subst (λ x. MayServe key model b (string_set available) x.store v) et served);
    }

-- The scope that ResolveScope finds for a key in the store.
pub record IsScope (key_id : Text) (s : Store) (scope : Scope) : Type 0 where
  pub at : State
  pub same : at.store ≡ s
  pub found : (resolve_scope key_id at).0 ≡ ok scope

-- Whatever statements fail, a provider that ChooseProviderRouted returns is not empty, lies in the
-- scope that ResolveScope finds for the key, which has bindings, is one of the available ones if any are given, and has a price
-- for the model if the key has a limit, unpriced models are not allowed and a model is asked for; this
-- is so for a sticky session too.
pub choose_provider_routed_safe :
    (key_id model : Text) (available : List Text) (hash : Text) (now present : Time) (s s' : State)
    (v : Text)
    → choose_provider_routed key_id model available hash now present s ≡ (ok v, s')
    → (key : Key) × (scope : Scope) × ((get_key key_id present s).0 ≡ ok key)
      × (IsScope key_id s.store scope × IsChoice scope key model available s.store v)
unfolding choose_provider_routed
choose_provider_routed_safe key_id model available hash now present s s' v h =
    let (key, t, read, h1) = bind_ok (get_key key_id present) _ s v s' h in
    let (scope, t', found, h2) = bind_ok (resolve_scope key_id) _ t v s' h1 in
    let same1 = read_same s t (ok key) (get_key-ReadsOnly key_id present) read in
    let same2 = read_same t t' (ok scope) (resolve_scope-ReadsOnly key_id) found in
    (
      key,
      scope,
      ap (λ r. r.0) read,
      (
        record { at = t; same = same1; found = ap (λ r. r.0) found },
        subst (λ x. IsChoice scope key model available x v) (same2 ∙ same1)
            (choose_in_scope_ok key scope key_id model available hash _ t' s' v h2),
      ),
    )
