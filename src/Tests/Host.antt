-- ===== src/Tests/Host.antt =====
-- The handlers of internal/plugin/app.go and internal/plugin/management.go on a small store.
use cpa_access_manager.Base.{
  ap, map, subst, Option, ◌≡◌, refl, Bool, true, false, List, [], ◌∷◌, none, some, any,
}
use cpa_access_manager.Base.Int.{pos}
use cpa_access_manager.Base.Text.{
  Text, codes, text_ltb, trim_space, text_discrete, replace_all, to_lower, trim_byte_end,
  has_prefix,
}
use cpa_access_manager.Access.Time.{stamp, parse_time, format_time, sub_seconds}
use cpa_access_manager.Access.Normalize.{
  has, hash_token, provider_instance_id, normalize_provider, normalize_target_type, string_set,
}
use cpa_access_manager.Access.Quota.{usage_sums, sum_all, sum_since}
use cpa_access_manager.Access.Keys.{scan_key}
use cpa_access_manager.Access.Limits.{bool_int, limit_reached, null_float, float_ptr}
use cpa_access_manager.Access.Scope.{allows_candidate}
use cpa_access_manager.Access.Inventory.{upsert_provider_candidates}
use cpa_access_manager.Access.Db.{◌>>=◌, query_row, or_zero, query, attempt, pure, gets, exec}
use cpa_access_manager.Access.Types.{Time}
use cpa_access_manager.Access.Db.Reads.{ReadsOnly}
use cpa_access_manager.Access.Clean.{IsClean}
use cpa_access_manager.Access.Linked.{IsLinked}
use cpa_access_manager.Plugin.Types.{
  App, Fields, none_left, field, string, FrontendAuthRequest, FrontendAuthResponse, Library,
  ManagementRequest, ModelRouteRequest, ModelRouteResponse, SchedulerPickRequest,
  SchedulerPickResponse, SchedulerAuthCandidate,
}
use cpa_access_manager.Plugin.Values.{
  metadata_in, headers_in, key_id_from_metadata, routing_session_hash,
}
use cpa_access_manager.Plugin.Handlers.{auth_metadata, handle_auth, handle_route, handle_pick}
use cpa_access_manager.Plugin.Handlers.Safety.{IsLetIn, handle_auth_safe}
use cpa_access_manager.Plugin.Handlers.Routing.{
  IsRouted, as_fields, handle_route_safe, key_id_from_metadata-auth_metadata,
}
use cpa_access_manager.Plugin.Handlers.Picking.{IsPicked, handle_pick_safe}
use cpa_access_manager.Plugin.Session.{routing_session_hash-conversation}
use cpa_access_manager.Plugin.Update.{Machine}
use cpa_access_manager.Plugin.Management.{dispatch}
use cpa_access_manager.Plugin.Management.Types.{Outside, KeyRequest}
use cpa_access_manager.Plugin.Management.Responses.{Inputs, to_upper}
use cpa_access_manager.Plugin.Management.Reads.{dispatch-ReadsOnly}
use cpa_access_manager.Plugin.Service.{
  Event, on_auth, on_manage, on_pick, on_configure, default_config, new_app, serve,
}
use cpa_access_manager.Plugin.Service.Served.{OnApp, Sound, serve-IsClean}
use cpa_access_manager.Access.Bindings.{key_bindings, replace_bindings}
use cpa_access_manager.Access.Db.{State, fail, lift, transaction}
use cpa_access_manager.Access.Db.Schema.{Tables, KeyRow}
use cpa_access_manager.Access.Clean.Run.{empty_tables}
use cpa_access_manager.Tests.Fixtures.{binding, key, no_limits, noon, plat}
use cpa_access_manager.Tests.Routing.{bound_state}

abbrev pub login_request : FrontendAuthRequest
login_request = record {
  method = codes "POST";
  path = codes "/v1/chat/completions";
  headers = (codes "Authorization", codes "Bearer tok" ∷ []) ∷ [];
  query = [];
  body = [];
}

-- The metadata that the host keeps of the authenticated request.
abbrev pub named : Fields
named = field (codes "key_id") (string (codes "k1")) none_left

abbrev model_request : ModelRouteRequest
model_request = record {
  source_format = [];
  requested_model = codes "m";
  stream = false;
  headers = [];
  query = [];
  body = [];
  metadata = named;
  available_providers = codes "gemini" ∷ codes "openai" ∷ [];
}

abbrev credential : Text → SchedulerAuthCandidate
credential id = record {
  id = id;
  provider = codes "openai";
  priority = pos 2;
  status = [];
  attributes = [];
  metadata = none_left;
}

abbrev offer_request : SchedulerPickRequest
offer_request = record {
  provider = [];
  providers = [];
  model = codes "m";
  stream = false;
  options = record { headers = []; metadata = named };
  candidates = credential (codes "a2") ∷ credential (codes "a1") ∷ [];
}

-- The library for the requests above.
abbrev pub lib : Library
lib = record {
  decode_auth = λ raw. some login_request;
  decode_route = λ raw. some model_request;
  decode_pick = λ raw. some offer_request;
  decode_usage = λ raw. none;
  decode_object = λ raw. none;
  sprint = λ v. [];
  parse_float = λ v. none;
  parse_int = λ v. none;
  int_value = λ v. pos 0;
  float_value = λ v. pos 0;
  parse_duration = λ v. none;
  canonical = λ n. n;
}

abbrev list_request : ManagementRequest
list_request = record {
  method = codes "GET";
  path = codes "/keys";
  headers = [];
  query = [];
  body = [];
  host_callback_id = [];
}

abbrev outside : Outside
outside = record {
  decode_management = λ b. some list_request;
  decode_key = λ b. none;
  decode_group = λ b. none;
  key_id_left = λ b. [];
  group_id_left = λ b. [];
  decode_inventory = λ b. none;
  decode_prices = λ b. none;
  decode_price_list = λ b. none;
  decode_version = λ b. none;
  decode_source_url = λ b. none;
  decode_specs = λ b. none;
  field_names = λ b. none;
  parse_rfc3339 = λ v. none;
  atoi = λ v. pos 0;
  parse_url = λ v. none;
  hostname = λ u. [];
  host_auth_files = none;
  fetch_keys = λ n. none;
  fetch_compat = none;
  download = λ u. none;
}

abbrev inputs : Inputs
inputs = record { present = noon; token_read = none; id_read = none }

abbrev pub machine : Machine
machine = record {
  clean = λ f. f;
  dir = λ f. f;
  join = λ d f. f;
  temp_dir = [];
  lookup_env = λ n. none;
  getwd = none;
  exists = λ f. false;
  unix_time = [];
  run_shell = λ d f c. false;
}

abbrev app : App
app = record { cfg = default_config; store = some bound_state }

-- A POST that creates a key with a binding.
abbrev key_body : KeyRequest
key_body = record {
  id = [];
  name = codes "team";
  enabled = none;
  limits = some no_limits;
  five_hour_limit_usd = none;
  weekly_limit_usd = none;
  total_limit_usd = none;
  bindings = binding ∷ [];
  api_key = codes "tok";
}

abbrev creating : Outside
creating = record outside {
  decode_management = λ b. some (record list_request {
    method = codes "POST";
    path = codes "/v0/management/plugins/cpa-toolkit/keys";
    body = codes "{}";
  });
  decode_key = λ b. some key_body;
}

abbrev events : List (Event × (List Bool × (Time × Time)))
events =
    (on_configure (some default_config) (λ name. some empty_tables), ([], (noon, noon)))
    ∷ (on_manage [] (record inputs { id_read = some (1 ∷ 2 ∷ []) }), ([], (noon, noon)))
    ∷ (on_auth [], ([], (noon, noon)))
    ∷ (on_manage [] inputs, (false ∷ true ∷ [], (noon, noon)))
    ∷ (on_pick [], ([], (noon, noon)))
    ∷ []

empty-Sound : (name : Text) (t : Tables) → some empty_tables ≡ some t → Sound t
empty-Sound name t h = subst Sound (some_inj h) (
  record { flat = tt; limits = tt; targets = tt; prices = tt },
  record { bindings = tt; usage = tt; sessions = tt; members = tt; ids = tt; hashes = tt },
)
  where
    some_inj : some empty_tables ≡ some t → empty_tables ≡ t
    some_inj e = ap (λ o. elim o [ none ↦ empty_tables | some x ↦ x ]) e

serve-IsClean_example :
    OnApp IsClean (serve plat lib creating machine new_app events)
    × OnApp IsLinked (serve plat lib creating machine new_app events)
serve-IsClean_example =
    serve-IsClean plat lib creating machine events (empty-Sound, (tt, (tt, (tt, (tt, tt)))))

abbrev held_states : Option State → List State
held_states none = []
held_states (some st) = st ∷ []

-- The run ends with a store that has the key.
served_key :
    map
      (λ st. map (λ (k : KeyRow). k.name) st.store.db.keys)
      (held_states (serve plat lib creating machine new_app events).store)
    ≡ (codes "team" ∷ []) ∷ []
unfolding serve has_prefix trim_space text_discrete ◌>>=◌ attempt pure to_lower query query_row lift
    transaction replace_bindings normalize_target_type replace_all or_zero hash_token scan_key
    limit_reached float_ptr sum_all gets exec sum_since parse_time text_ltb stamp format_time
    trim_byte_end sub_seconds normalize_provider has usage_sums string_set
    upsert_provider_candidates provider_instance_id allows_candidate key_bindings bool_int
    null_float fail
served_key = refl

abbrev let_in : FrontendAuthResponse
let_in = record { authenticated = true; principal = codes "k1"; metadata = auth_metadata key [] }

handle_auth_safe_example : IsLetIn plat lib noon noon app [] let_in
unfolding handle_auth ◌>>=◌ trim_space query_row text_discrete hash_token or_zero query attempt pure
    scan_key limit_reached float_ptr sum_all normalize_target_type replace_all to_lower gets exec
    sum_since parse_time text_ltb stamp format_time trim_byte_end sub_seconds has_prefix
handle_auth_safe_example =
    handle_auth_safe plat lib noon noon app (handle_auth plat lib noon noon app []).1 [] let_in refl
      refl

abbrev routed : ModelRouteResponse
routed = record {
  handled = true;
  target_kind = codes "provider";
  target = codes "openai";
  target_model = codes "m";
  reason = codes "cpa-toolkit:k1";
}

handle_route_safe_example : IsRouted plat lib noon app [] routed
unfolding handle_route ◌>>=◌ trim_space query_row text_discrete hash_token or_zero query attempt
    pure scan_key limit_reached float_ptr sum_all normalize_target_type replace_all to_lower gets
    exec sum_since parse_time text_ltb stamp format_time trim_byte_end sub_seconds has_prefix
    normalize_provider has usage_sums string_set upsert_provider_candidates provider_instance_id
    allows_candidate
handle_route_safe_example =
    handle_route_safe plat lib noon noon app (handle_route plat lib noon noon app []).1 [] routed
      refl refl

abbrev picked : SchedulerPickResponse
picked = record { auth_id = codes "a1"; delegate_builtin = []; handled = true }

handle_pick_safe_example : IsPicked plat lib noon app [] picked
unfolding handle_pick ◌>>=◌ trim_space query_row text_discrete hash_token or_zero query attempt pure
    scan_key limit_reached float_ptr sum_all normalize_target_type replace_all to_lower gets exec
    sum_since parse_time text_ltb stamp format_time trim_byte_end sub_seconds has_prefix
    normalize_provider has usage_sums string_set upsert_provider_candidates provider_instance_id
    allows_candidate
handle_pick_safe_example =
    handle_pick_safe plat lib noon noon app (handle_pick plat lib noon noon app []).1 [] picked refl
      refl

dispatch-ReadsOnly_example :
    ReadsOnly (dispatch plat lib outside inputs default_config machine list_request (codes "/keys"))
unfolding text_discrete to_upper
dispatch-ReadsOnly_example =
    dispatch-ReadsOnly list_request refl plat lib outside inputs default_config machine
      (codes "/keys")

key_id_from_metadata-auth_metadata_example :
    key_id_from_metadata lib (as_fields (auth_metadata key (codes "m"))) ≡ codes "k1"
unfolding trim_space
key_id_from_metadata-auth_metadata_example =
    key_id_from_metadata-auth_metadata lib key (codes "m") refl

abbrev conversation : Fields → Fields
conversation rest = field (codes "session_id") (string (codes "s1")) rest

routing_session_hash-conversation_example :
    routing_session_hash plat lib (conversation none_left) []
    ≡ routing_session_hash plat lib (conversation named) []
unfolding metadata_in text_discrete to_lower trim_space any headers_in
routing_session_hash-conversation_example =
    routing_session_hash-conversation plat lib (conversation none_left) (conversation named) [] refl
      refl
