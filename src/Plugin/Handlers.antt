-- ===== src/Plugin/Handlers.antt =====
-- HandleMethod of internal/plugin/app.go and the handlers that it calls on a request of the host:
-- authenticate, routeModel, pickScheduler and handleUsage. `now` and `present` are what time.Now()
-- returns in the handler and in the store.
pub mod Safety
pub mod Routing
pub mod Picking
use cpa_access_manager.Base.{
  ℕ, Bool, true, false, ◌||◌, not, List, [], ◌∷◌, ◌++◌, Option, none, some, map, if◌then◌else◌,
}
use cpa_access_manager.Base.Int.{ℤ}
use cpa_access_manager.Base.Text.{Text, text_eq, codes, is_empty, trim_space}
use cpa_access_manager.Access.Types.{Time, Key, Candidate, Error, UsageEntry, UsageDetail}
use cpa_access_manager.Access.Time.{zero_time}
use cpa_access_manager.Access.Normalize.{Platform}
use cpa_access_manager.Access.Keys.{is_not_found, key_by_presented_token}
use cpa_access_manager.Access.Auth.{authenticate}
use cpa_access_manager.Access.Usage.{record_usage}
use cpa_access_manager.Access.Routing.Provider.{choose_provider_routed}
use cpa_access_manager.Access.Routing.Candidate.{pick_candidate_routed}
use cpa_access_manager.Access.Db.{Result, ok, err, State, Db}
use cpa_access_manager.Plugin.Types.{
  App, Config, Fields, Headers, Library, plugin_id, FrontendAuthRequest, FrontendAuthResponse,
  ModelRouteRequest, ModelRouteResponse, SchedulerPickRequest, SchedulerAuthCandidate,
  SchedulerPickResponse, UsageHandleRequest,
}
use cpa_access_manager.Plugin.Values.{
  first_non_empty, key_id_from_metadata, metadata_string, bearer_token, requested_model,
  routing_session_hash,
}
use cpa_access_manager.Plugin.Millis.{
  first_positive, duration_millis, metadata_millis, metadata_duration_millis,
}

-- What a handler returns: the envelope of a result, the envelope of an error with its code and HTTP
-- status, or the error itself.
pub data Reply (A : Type 0) : Type 0 where
  reply : A → Reply A
  refusal : Text → Error → ℕ → Reply A
  broken : Reply A

-- The store after a call, in the App.
abbrev pub with_state : App → State → App
with_state a s = record a { store = some s }

abbrev pub not_authenticated : FrontendAuthResponse
not_authenticated = record { authenticated = false; principal = []; metadata = [] }

abbrev pub auth_metadata : Key → Text → List (Text × Text)
auth_metadata key model =
    (codes "provider", plugin_id)
    ∷ (codes "key_id", key.id)
    ∷ (codes "cpa_toolkit_key_id", key.id)
    ∷ (codes "cpa_access_manager_key_id", key.id)
    ∷ (codes "cpa_access_requested_model", model)
    ∷ []

-- What authenticate makes of the result of Store.Authenticate.
unfoldable pub auth_reply : Text → Result Key → Reply FrontendAuthResponse
unfolding is_not_found
auth_reply model (ok key) =
    reply (record { authenticated = true; principal = key.id; metadata = auth_metadata key model })
auth_reply model (err e) =
    if is_not_found e then reply not_authenticated else refusal (codes "access_denied") e 403

unfoldable pub auth_token :
    Platform → Time → Time → App → State → Text → Text → Reply FrontendAuthResponse × App
unfolding auth_reply authenticate
auth_token p now present a s token model =
    if is_empty token
    then (reply not_authenticated, a)
    else (let (r, s') = authenticate p token model now present s in
        (auth_reply model r, with_state a s'))

unfoldable pub auth_request :
    Platform
    → Library
    → Time
    → Time
    → App
    → State
    → Option FrontendAuthRequest
    → Reply FrontendAuthResponse × App
unfolding auth_token bearer_token requested_model
auth_request p l now present a s none = (broken, a)
auth_request p l now present a s (some req) =
    auth_token p now present a s (bearer_token l req.headers) (requested_model l req.body req.query)

unfoldable pub auth_with :
    Platform → Library → Time → Time → App → Text → Option State → Reply FrontendAuthResponse × App
unfolding auth_request
auth_with p l now present a raw none = (reply not_authenticated, a)
auth_with p l now present a raw (some s) =
    if not a.cfg.enabled
    then (reply not_authenticated, a)
    else auth_request p l now present a s (l.decode_auth raw)

-- App.authenticate
unfoldable pub handle_auth :
    Platform → Library → Time → Time → App → Text → Reply FrontendAuthResponse × App
unfolding auth_with
handle_auth p l now present a raw = auth_with p l now present a raw a.store

id_or_empty : Result Key → Text
id_or_empty (ok key) = key.id
id_or_empty (err e) = []

-- keyIDFromHeaders; the request goes on with whatever the store read.
unfoldable pub key_id_from_headers : Platform → Library → Time → Headers → State → Text × State
unfolding key_by_presented_token bearer_token id_or_empty
key_id_from_headers p l present h s =
    let token = bearer_token l h in
    if is_empty token
    then ([], s)
    else (let (r, s') = key_by_presented_token p token present s in (id_or_empty r, s'))

-- The key of a request: from its metadata, else from its headers.
unfoldable pub request_key : Platform → Library → Time → Fields → Headers → State → Text × State
unfolding key_id_from_metadata key_id_from_headers
request_key p l present m h s =
    let id = key_id_from_metadata l m in
    if not (is_empty id) then (id, s) else key_id_from_headers p l present h s

-- errors.Is(err, access.ErrNoBindings)
unfoldable pub is_no_bindings : Error → Bool
is_no_bindings Error.no_bindings = true
is_no_bindings _ = false

abbrev pub not_routed : ModelRouteResponse
not_routed = record {
  handled = false;
  target_kind = [];
  target = [];
  target_model = [];
  reason = [];
}

-- What routeModel makes of the result of Store.ChooseProviderRouted.
unfoldable pub route_reply : Text → Text → Result Text → Reply ModelRouteResponse
unfolding is_no_bindings
route_reply key_id model (ok provider) = reply (record {
  handled = true;
  target_kind = codes "provider";
  target = provider;
  target_model = model;
  reason = plugin_id ++ (b':' ∷ key_id);
})
route_reply key_id model (err e) =
    if is_no_bindings e then reply not_routed else refusal (codes "no_allowed_provider") e 403

unfoldable pub route_request :
    Platform
    → Library
    → Time
    → Time
    → App
    → State
    → Option ModelRouteRequest
    → Reply ModelRouteResponse × App
unfolding route_reply choose_provider_routed request_key routing_session_hash
route_request p l now present a s none = (broken, a)
route_request p l now present a s (some req) =
    let (id, s') = request_key p l present req.metadata req.headers s in
    let hash = routing_session_hash p l req.metadata req.headers in
    let (r, s'') =
      choose_provider_routed id req.requested_model req.available_providers hash now present s' in
    if is_empty id
    then (reply not_routed, with_state a s')
    else (route_reply id req.requested_model r, with_state a s'')

unfoldable pub route_with :
    Platform → Library → Time → Time → App → Text → Option State → Reply ModelRouteResponse × App
unfolding route_request
route_with p l now present a raw none = (reply not_routed, a)
route_with p l now present a raw (some s) =
    if not a.cfg.enabled
    then (reply not_routed, a)
    else route_request p l now present a s (l.decode_route raw)

-- App.routeModel
unfoldable pub handle_route :
    Platform → Library → Time → Time → App → Text → Reply ModelRouteResponse × App
unfolding route_with
handle_route p l now present a raw = route_with p l now present a raw a.store

unfoldable pub access_candidate : SchedulerAuthCandidate → Candidate
access_candidate c = record {
  id = c.id;
  provider = c.provider;
  priority = c.priority;
  status = c.status;
  attributes = c.attributes;
}

abbrev pub not_picked : SchedulerPickResponse
not_picked = record { auth_id = []; delegate_builtin = []; handled = false }

-- What pickScheduler makes of the result of Store.PickCandidateRouted.
unfoldable pub pick_reply : Result Candidate → Reply SchedulerPickResponse
unfolding is_no_bindings
pick_reply (ok c) = reply (record { auth_id = c.id; delegate_builtin = []; handled = true })
pick_reply (err e) =
    if is_no_bindings e then reply not_picked else refusal (codes "no_allowed_auth") e 403

unfoldable pub pick_request :
    Platform
    → Library
    → Time
    → Time
    → App
    → State
    → Option SchedulerPickRequest
    → Reply SchedulerPickResponse × App
unfolding pick_reply pick_candidate_routed request_key routing_session_hash access_candidate
pick_request p l now present a s none = (broken, a)
pick_request p l now present a s (some req) =
    let (id, s') = request_key p l present req.options.metadata req.options.headers s in
    let hash = routing_session_hash p l req.options.metadata req.options.headers in
    let (r, s'') =
      pick_candidate_routed p id req.model req.provider hash (map access_candidate req.candidates)
        now present s' in
    if is_empty id then (reply not_picked, with_state a s') else (pick_reply r, with_state a s'')

unfoldable pub pick_with :
    Platform → Library → Time → Time → App → Text → Option State → Reply SchedulerPickResponse × App
unfolding pick_request
pick_with p l now present a raw none = (reply not_picked, a)
pick_with p l now present a raw (some s) =
    if not a.cfg.enabled
    then (reply not_picked, a)
    else pick_request p l now present a s (l.decode_pick raw)

-- App.pickScheduler
unfoldable pub handle_pick :
    Platform → Library → Time → Time → App → Text → Reply SchedulerPickResponse × App
unfolding pick_with
handle_pick p l now present a raw = pick_with p l now present a raw a.store
