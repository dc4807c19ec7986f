-- ===== src/Plugin/Types.antt =====
-- The requests and responses of internal/plugin/types.go, and the App of internal/plugin/app.go. A Go
-- map is the list of its entries in the order in which `range` visits them.
use cpa_access_manager.Base.{Bool, List, Option}
use cpa_access_manager.Base.Int.{ℤ}
use cpa_access_manager.Base.Text.{Text, codes}
use cpa_access_manager.Access.Db.{State}

-- A value of type `any`. A float64 counts units of 10^-12, a json.Number is its literal.
mutual
  pub data Value : Type 0 where
    nil : Value
    bool : Bool → Value
    int64 : ℤ → Value
    int : ℤ → Value
    float64 : ℤ → Value
    json_number : Text → Value
    string : Text → Value
    object : Fields → Value
    other : Text → Value

  -- The fields of an object.
  pub data Fields : Type 0 where
    none_left : Fields
    field : Text → Value → Fields → Fields

abbrev pub Headers : Type 0
Headers = List (Text × List Text)

abbrev pub plugin_id : Text
plugin_id = codes "cpa-toolkit"

pub record Config : Type 0 where
  pub enabled : Bool
  pub db_path : Text
  pub allow_unpriced : Bool

pub record FrontendAuthRequest : Type 0 where
  pub method : Text
  pub path : Text
  pub headers : Headers
  pub query : Headers
  pub body : Text

pub record FrontendAuthResponse : Type 0 where
  pub authenticated : Bool
  pub principal : Text
  pub metadata : List (Text × Text)

pub record ModelRouteRequest : Type 0 where
  pub source_format : Text
  pub requested_model : Text
  pub stream : Bool
  pub headers : Headers
  pub query : Headers
  pub body : Text
  pub metadata : Fields
  pub available_providers : List Text

pub record ModelRouteResponse : Type 0 where
  pub handled : Bool
  pub target_kind : Text
  pub target : Text
  pub target_model : Text
  pub reason : Text

pub record SchedulerPickOptions : Type 0 where
  pub headers : Headers
  pub metadata : Fields

pub record SchedulerAuthCandidate : Type 0 where
  pub id : Text
  pub provider : Text
  pub priority : ℤ
  pub status : Text
  pub attributes : List (Text × Text)
  pub metadata : Fields

pub record SchedulerPickRequest : Type 0 where
  pub provider : Text
  pub providers : List Text
  pub model : Text
  pub stream : Bool
  pub options : SchedulerPickOptions
  pub candidates : List SchedulerAuthCandidate

pub record SchedulerPickResponse : Type 0 where
  pub auth_id : Text
  pub delegate_builtin : Text
  pub handled : Bool

pub record UsageDetailIn : Type 0 where
  pub input_tokens : ℤ
  pub output_tokens : ℤ
  pub reasoning_tokens : ℤ
  pub reasoning_effort : Text
  pub cached_tokens : ℤ
  pub cache_read_tokens : ℤ
  pub cache_creation_tokens : ℤ
  pub total_tokens : ℤ

-- The fields with the ending `_alt` have the other JSON name.
pub record UsageHandleRequest : Type 0 where
  pub provider : Text
  pub executor_type : Text
  pub model : Text
  pub alias : Text
  pub key_id : Text
  pub key_id_snake : Text
  pub principal : Text
  pub api_key : Text
  pub api_key_alt : Text
  pub auth_id : Text
  pub auth_id_alt : Text
  pub auth_index : Text
  pub auth_index_alt : Text
  pub auth_type : Text
  pub source : Text
  pub request_id : Text
  pub request_id_alt : Text
  pub request_resource : Text
  pub request_resource_alt : Text
  pub ttft : Value
  pub ttft_alt : Value
  pub latency : Value
  pub latency_alt : Value
  pub duration : Value
  pub duration_alt : Value
  pub first_token_latency_ms : ℤ
  pub first_token_latency_ms_alt : ℤ
  pub ttft_ms : ℤ
  pub ttft_ms_alt : ℤ
  pub total_latency_ms : ℤ
  pub total_latency_ms_alt : ℤ
  pub latency_ms : ℤ
  pub latency_ms_alt : ℤ
  pub duration_ms : ℤ
  pub duration_ms_alt : ℤ
  pub reasoning_effort : Text
  pub reasoning_effort_alt : Text
  pub failed : Bool
  pub metadata : Fields
  pub detail : UsageDetailIn

pub record ManagementRequest : Type 0 where
  pub method : Text
  pub path : Text
  pub headers : Headers
  pub query : Headers
  pub body : Text
  pub host_callback_id : Text

-- The App: its configuration and its store, once one is open.
pub record App : Type 0 where
  pub cfg : Config
  pub store : Option State

-- What the plugin takes from packages that are not of this repository: encoding/json, fmt, strconv,
-- time and net/textproto. `none` is an error.
pub record Library : Type 0 where
  -- json.Unmarshal into each of the requests
  pub decode_auth : Text → Option FrontendAuthRequest
  pub decode_route : Text → Option ModelRouteRequest
  pub decode_pick : Text → Option SchedulerPickRequest
  pub decode_usage : Text → Option UsageHandleRequest
  -- json.Unmarshal into a map[string]any
  pub decode_object : Text → Option Fields
  -- fmt.Sprint of a value that is neither nil nor a string
  pub sprint : Value → Text
  -- strconv.ParseFloat, in units of 10^-12
  pub parse_float : Text → Option ℤ
  -- strconv.ParseInt(v, 10, 64)
  pub parse_int : Text → Option ℤ
  -- the values that strconv.ParseInt and ParseFloat return, with or without an error
  pub int_value : Text → ℤ
  pub float_value : Text → ℤ
  -- time.ParseDuration, in nanoseconds
  pub parse_duration : Text → Option ℤ
  -- textproto.CanonicalMIMEHeaderKey
  pub canonical : Text → Text
