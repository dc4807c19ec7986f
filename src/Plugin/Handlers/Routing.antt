-- ===== src/Plugin/Handlers/Routing.antt =====
-- What routeModel and pickScheduler of internal/plugin/app.go answer, and the key that they answer for.
use cpa_access_manager.Base.{
  ◌≡◌, refl, ap, true, false, not, List, [], ◌∷◌, Option, none, some, arith,
}
use cpa_access_manager.Base.Text.{Text, text_discrete, is_empty, trim_space}
use cpa_access_manager.Access.Types.{Time, Key, Scope}
use cpa_access_manager.Access.Normalize.{Platform}
use cpa_access_manager.Access.Routing.Provider.{choose_provider_routed}
use cpa_access_manager.Access.Routing.Provider.Choice.{
  IsScope, IsChoice, choose_provider_routed_safe,
}
use cpa_access_manager.Access.Db.{Result, ok, err, State}
use cpa_access_manager.Access.Keys.{get_key}
use cpa_access_manager.Plugin.Types.{
  App, Library, Fields, none_left, field, string, ModelRouteRequest, ModelRouteResponse,
}
use cpa_access_manager.Plugin.Values.{
  lookup, sprint, first_printed, given_or, key_id_from_metadata, routing_session_hash,
}
use cpa_access_manager.Plugin.Handlers.Safety.{unless_answer, with_result}
use cpa_access_manager.Plugin.Handlers.{
  reply, with_state, auth_metadata, request_key, not_routed, route_reply, route_request, route_with,
  handle_route,
}

-- The metadata of a response, as the host hands it on.
abbrev pub as_fields : List (Text × Text) → Fields
as_fields [] = none_left
as_fields ((k, v) ∷ m) = field k (string v) (as_fields m)

-- The key that authenticate writes into the metadata is the key that keyIDFromMetadata reads there,
-- trimmed, if it is not blank.
pub key_id_from_metadata-auth_metadata :
    (l : Library) (key : Key) (model : Text)
    → is_empty (trim_space key.id) ≡ false
    → key_id_from_metadata l (as_fields (auth_metadata key model)) ≡ trim_space key.id
unfolding key_id_from_metadata first_printed given_or lookup sprint text_discrete
key_id_from_metadata-auth_metadata l key model given = ground (arith, given)

-- The key of a route request, and the store after it was looked for.
abbrev pub route_key : Platform → Library → Time → State → ModelRouteRequest → Text × State
route_key p l present s req = request_key p l present req.metadata req.headers s

pub record IsRouted (p : Platform) (l : Library) (present : Time) (a : App) (raw : Text)
    (r : ModelRouteResponse) : Type 0 where
  pub enabled : a.cfg.enabled ≡ true
  pub state : State
  pub opened : a.store ≡ some state
  pub request : ModelRouteRequest
  pub decoded : l.decode_route raw ≡ some request
  pub key_given : is_empty (route_key p l present state request).0 ≡ false
  pub key : Key
  pub read :
      (get_key
        (route_key p l present state request).0
        present
        (route_key p l present state request).1).0
      ≡ ok key
  pub scope : Scope
  pub found :
      IsScope
        (route_key p l present state request).0
        (route_key p l present state request).1.store
        scope
  pub chosen :
      IsChoice scope key request.requested_model request.available_providers
        (route_key p l present state request).1.store
        r.target
  pub same_model : r.target_model ≡ request.requested_model

route_reply_ok :
    (id model : Text) (o : Result Text) (r : ModelRouteResponse)
    → route_reply id model o ≡ reply r
    → r.handled ≡ true
    → (o ≡ ok r.target) × (r.target_model ≡ model)
unfolding route_reply
route_reply_ok id model (ok v) r h given = ground arith
route_reply_ok id model (err e) r h given = absurd (ground arith)

route_request_ok :
    (p : Platform) (l : Library) (now present : Time) (a a' : App) (s : State) (raw : Text)
    (o : Option ModelRouteRequest) (r : ModelRouteResponse)
    → a.cfg.enabled ≡ true
    → a.store ≡ some s
    → l.decode_route raw ≡ o
    → route_request p l now present a s o ≡ (reply r, a')
    → r.handled ≡ true
    → IsRouted p l present a raw r
unfolding route_request
route_request_ok p l now present a a' s raw none r on opened decoded h given = absurd (cc)
route_request_ok p l now present a a' s raw (some req) r on opened decoded h given =
    let (id, s1) = route_key p l present s req in
    let hash = routing_session_hash p l req.metadata req.headers in
    let c =
      choose_provider_routed id req.requested_model req.available_providers hash now present s1 in
    let (key_given, done) =
      unless_answer (λ x. x.handled ≡ true) (is_empty id) (with_state a s1) _ not_routed r a' h
        (λ x. absurd (ground (arith, x))) given in
    let (e, same) = route_reply_ok id req.requested_model c.0 r (ap (λ x. x.0) done) given in
    let (key, scope, read, (found, chosen)) =
      choose_provider_routed_safe id req.requested_model req.available_providers hash now present s1
        c.1 r.target (with_result c r.target e) in
    record {
      enabled = on;
      state = s;
      opened = opened;
      request = req;
      decoded = decoded;
      key_given = key_given;
      key = key;
      read = read;
      scope = scope;
      found = found;
      chosen = chosen;
      same_model = same;
    }

route_with_ok :
    (p : Platform) (l : Library) (now present : Time) (a a' : App) (raw : Text) (o : Option State)
    (r : ModelRouteResponse)
    → a.store ≡ o
    → route_with p l now present a raw o ≡ (reply r, a')
    → r.handled ≡ true
    → IsRouted p l present a raw r
unfolding route_with
route_with_ok p l now present a a' raw none r opened h given = absurd (ground (arith, h, given))
route_with_ok p l now present a a' raw (some s) r opened h given =
    let (on, done) =
      unless_answer (λ x. x.handled ≡ true) (not a.cfg.enabled) a _ not_routed r a' h
        (λ x. absurd (ground (arith, x))) given in
    route_request_ok p l now present a a' s raw (l.decode_route raw) r (ground (arith, on)) opened
      refl done given

-- When the plugin handles a route request, it is enabled and has a store, the request has a key in its
-- metadata or its headers, and the target is a provider that the scope of the key allows, available
-- where the request says so, and priced where the limits of the key ask for it; the model is the one
-- asked for.
pub handle_route_safe :
    (p : Platform) (l : Library) (now present : Time) (a a' : App) (raw : Text)
    (r : ModelRouteResponse)
    → handle_route p l now present a raw ≡ (reply r, a')
    → r.handled ≡ true
    → IsRouted p l present a raw r
unfolding handle_route
handle_route_safe p l now present a a' raw r h given =
    route_with_ok p l now present a a' raw a.store r refl h given
