-- ===== src/Plugin/Management/Types.antt =====
-- The bodies and responses of the management API (internal/plugin/management.go), and what it takes
-- from encoding/json, time, strconv, net/url, net/http and the host.
use cpa_access_manager.Base.{ℕ, Bool, List, [], ◌∷◌, Option}
use cpa_access_manager.Base.Int.{ℤ}
use cpa_access_manager.Base.Text.{Text, codes}
use cpa_access_manager.Access.Types.{
  Time, Key, Limits, Binding, Group, GroupMember, InventoryItem, HostAuthFileEntry, PriceRule,
  UsageEntry, UsageAggregate, UsageSummary, Error,
}
use cpa_access_manager.Access.Normalize.{Url}
use cpa_access_manager.Plugin.Types.{ManagementRequest}
use cpa_access_manager.Plugin.Inventory.{ApiKeyConfigEntry, OpenAiCompatEntry}
use cpa_access_manager.Plugin.PriceSync.{PriceSpec}

pub record KeyRequest : Type 0 where
  pub id : Text
  pub name : Text
  pub api_key : Text
  pub enabled : Option Bool
  pub bindings : List Binding
  pub limits : Option Limits
  pub five_hour_limit_usd : Option ℤ
  pub weekly_limit_usd : Option ℤ
  pub total_limit_usd : Option ℤ

pub record GroupRequest : Type 0 where
  pub id : Text
  pub name : Text
  pub description : Text
  pub members : List GroupMember

pub record InventoryRequest : Type 0 where
  pub refresh : Bool
  pub items : List InventoryItem
  pub auth_files : List HostAuthFileEntry

-- What is encoded in the body of a response. `problem` is an error whose text is left out.
pub data Payload : Type 0 where
  page : Text → Payload
  keys : List Key → Payload
  key : Key → Payload
  key_and_plain : Key → Text → Payload
  deleted : Text → Payload
  groups : List Group → Payload
  group : Group → Payload
  items : List InventoryItem → Payload
  prices : List PriceRule → Payload
  synced : Text → ℕ → Payload
  totals : List UsageAggregate → Payload
  summary : UsageSummary → Payload
  entries : List UsageEntry → Payload
  status : Bool → Text → Payload
  updated : Text → Text → Text → Text → Payload
  message : Text → Payload
  failure : Error → Payload
  problem : Payload

pub record ManagementResponse : Type 0 where
  pub status_code : ℕ
  pub headers : List (Text × Text)
  pub body : Payload

-- The functions of other packages, and the answers that the host and the price source give.
pub record Outside : Type 0 where
  -- json.Unmarshal into each of the bodies; `none` is an error
  pub decode_management : Text → Option ManagementRequest
  pub decode_key : Text → Option KeyRequest
  pub decode_group : Text → Option GroupRequest
  -- the id that json.Unmarshal leaves in a keyRequest and in a groupRequest, with or without an error
  pub key_id_left : Text → Text
  pub group_id_left : Text → Text
  pub decode_inventory : Text → Option InventoryRequest
  pub decode_prices : Text → Option (List PriceRule)
  pub decode_price_list : Text → Option (List PriceRule)
  pub decode_version : Text → Option Text
  pub decode_source_url : Text → Option Text
  pub decode_specs : Text → Option (List (Text × PriceSpec))
  -- the names of the fields of a JSON object
  pub field_names : Text → Option (List Text)
  -- time.Parse(time.RFC3339Nano, v)
  pub parse_rfc3339 : Text → Option Time
  -- the value that strconv.Atoi returns, with or without an error
  pub atoi : Text → ℤ
  -- url.Parse, and Hostname
  pub parse_url : Text → Option Url
  pub hostname : Url → Text
  -- the host callback host.auth.list, `none` if it is missing or fails
  pub host_auth_files : Option (List HostAuthFileEntry)
  -- the management API of the host: a list of keys by its name, and openai-compatibility
  pub fetch_keys : Text → Option (List ApiKeyConfigEntry)
  pub fetch_compat : Option (List OpenAiCompatEntry)
  -- GET: the status code and the body
  pub download : Text → Option (ℕ × Text)

abbrev pub json_type : Text
json_type = codes "application/json; charset=utf-8"

-- jsonManagement and errorJSON
abbrev pub json_management : ℕ → Payload → ManagementResponse
json_management code body = record {
  status_code = code;
  headers = (codes "content-type", json_type) ∷ [];
  body = body;
}

abbrev pub bad_request : ManagementResponse
bad_request = json_management 400 problem

abbrev pub refused : ℕ → Text → ManagementResponse
refused code reason = json_management code (message reason)

abbrev pub not_allowed : ManagementResponse
not_allowed = refused 405 (codes "method not allowed")

abbrev pub no_id : ManagementResponse
no_id = refused 400 (codes "id is required")

-- A page of the package web.
abbrev pub web_page : Text → Text → ManagementResponse
web_page type name = record {
  status_code = 200;
  headers = (codes "content-type", type) ∷ (codes "cache-control", codes "no-store") ∷ [];
  body = page name;
}
