-- ===== src/Access/Types.antt =====
-- internal/access/types.go: the values that the store takes and returns. A pointer is an `Option`, a
-- map from texts an association list. An amount of money is a whole number of 10^-12 USD, and a rate
-- a whole number of 10^-6 USD per million tokens, which is the same unit per token.
use cpa_access_manager.Base.{ℕ, Bool, List, Option}
use cpa_access_manager.Base.Int.{ℤ}
use cpa_access_manager.Base.Text.{Text, codes}

abbrev pub binding_group : Text
binding_group = codes "group"

abbrev pub binding_auth_id : Text
binding_auth_id = codes "auth_id"

abbrev pub binding_provider_instance : Text
binding_provider_instance = codes "provider_instance"

abbrev pub inventory_auth_file : Text
inventory_auth_file = codes "auth_file"

abbrev pub inventory_provider_instance : Text
inventory_provider_instance = codes "provider_instance"

-- The limit that `ErrQuotaExceeded` is wrapped with.
pub data Window : Type 0 where
  five_hour weekly total : Window

-- The package's error values, `sql.ErrNoRows`, and a failure that the database or the random
-- source reports; `stack_overflow` is a recursion that does not end.
pub data Error : Type 0 where
  key_not_found key_disabled no_bindings no_allowed_target missing_price_rule duplicate_key : Error
  quota_exceeded : Window → Error
  no_rows constraint_failed fault stack_overflow : Error

-- A `time.Time` in UTC: seconds since the zero time (1 January of year 1) and nanoseconds.
pub record Time : Type 0 where
  pub seconds : ℕ
  pub nanos : ℕ

pub record Limits : Type 0 where
  pub five_hour_usd : Option ℤ
  pub weekly_usd : Option ℤ
  pub total_usd : Option ℤ

pub record Binding : Type 0 where
  pub key_id : Text
  pub target_type : Text
  pub target_id : Text

pub record UsageSums : Type 0 where
  pub five_hour_usd : ℤ
  pub weekly_usd : ℤ
  pub total_usd : ℤ

pub record Key : Type 0 where
  pub id : Text
  pub name : Text
  pub key_prefix : Text
  pub plain_key : Text
  pub enabled : Bool
  pub limits : Limits
  pub bindings : List Binding
  pub usage : UsageSums
  pub created_at : Time
  pub updated_at : Time
  pub last_used_at : Option Time

-- The fields that UpdateKey reads; `Rotate` and the four fields below it are read nowhere.
pub record KeyPatch : Type 0 where
  pub name : Option Text
  pub enabled : Option Bool
  pub limits : Option Limits
  pub bindings : Option (List Binding)

pub record GroupMember : Type 0 where
  pub group_id : Text
  pub member_type : Text
  pub member_id : Text

pub record Group : Type 0 where
  pub id : Text
  pub name : Text
  pub description : Text
  pub members : List GroupMember
  pub created_at : Time
  pub updated_at : Time

pub record GroupPatch : Type 0 where
  pub name : Option Text
  pub description : Option Text
  pub members : Option (List GroupMember)

-- A value of a snapshot (`any`): the ones that the package writes, and whatever else JSON holds.
pub data Value : Type 0 where
  text : Text → Value
  number : ℤ → Value
  attributes : List (Text × Text) → Value
  other : Text → Value

pub record InventoryItem : Type 0 where
  pub id : Text
  pub type : Text
  pub provider : Text
  pub auth_id : Text
  pub auth_index : Text
  pub name : Text
  pub label : Text
  pub email : Text
  pub base_url : Text
  pub snapshot : List (Text × Value)
  pub updated_at : Time

pub record PriceRule : Type 0 where
  pub provider : Text
  pub model : Text
  pub input_usd_per_million : ℤ
  pub output_usd_per_million : ℤ
  pub cache_read_usd_per_million : ℤ
  pub updated_at : Time

pub record UsageDetail : Type 0 where
  pub input_tokens : ℤ
  pub output_tokens : ℤ
  pub reasoning_tokens : ℤ
  pub reasoning_effort : Text
  pub cached_tokens : ℤ
  pub cache_read_tokens : ℤ
  pub cache_creation_tokens : ℤ
  pub total_tokens : ℤ

pub record UsageEntry : Type 0 where
  pub id : ℕ
  pub key_id : Text
  pub request_id : Text
  pub request_resource : Text
  pub auth_id : Text
  pub auth_index : Text
  pub provider : Text
  pub provider_instance_id : Text
  pub model : Text
  pub alias : Text
  pub detail : UsageDetail
  pub first_token_latency_ms : ℤ
  pub total_latency_ms : ℤ
  pub usd : ℤ
  pub failed : Bool
  pub created_at : Time

pub record UsageFilter : Type 0 where
  pub key_id : Text
  pub request_resource : Text
  pub resource_id : Text
  pub since : Time
  pub before : Time

pub record UsageAggregate : Type 0 where
  pub key_id : Text
  pub requests : ℕ
  pub tokens : ℤ
  pub cost_usd : ℤ

pub record Candidate : Type 0 where
  pub id : Text
  pub provider : Text
  pub priority : ℤ
  pub status : Text
  pub attributes : List (Text × Text)

-- The three maps are sets: lists of their keys.
pub record Scope : Type 0 where
  pub has_bindings : Bool
  pub auth_ids : List Text
  pub provider_instance_ids : List Text
  pub providers : List Text

pub record HostAuthFileEntry : Type 0 where
  pub id : Text
  pub auth_index : Text
  pub name : Text
  pub type : Text
  pub provider : Text
  pub label : Text
  pub status : Text
  pub status_message : Text
  pub disabled : Bool
  pub unavailable : Bool
  pub runtime_only : Bool
  pub source : Text
  pub path : Text
  pub size : ℤ
  pub mod_time : Time
  pub updated_at : Time
  pub created_at : Time
  pub last_refresh : Time
  pub next_retry_after : Time
  pub email : Text
  pub project_id : Text
  pub account_type : Text
  pub account : Text
  pub priority : ℤ
  pub note : Text
  pub websockets : Bool

-- An average: the sum and the number of the values that it is taken over, 0 where there are none.
pub record Average : Type 0 where
  pub sum : ℤ
  pub count : ℕ

pub record UsageSummary : Type 0 where
  pub requests : ℕ
  pub input_tokens : ℤ
  pub cache_read_tokens : ℤ
  pub output_tokens : ℤ
  pub total_tokens : ℤ
  pub cost_usd : ℤ
  pub first_token_latency_ms : Average
  pub total_latency_ms : Average
