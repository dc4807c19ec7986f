-- ===== src/Access/Db/Schema.antt =====
-- The tables of internal/access/store.go, a record for each CREATE TABLE, and the constraints that
-- SQLite enforces on them: primary keys, the UNIQUE hash, and the foreign keys with ON DELETE CASCADE.
use cpa_access_manager.Base.{ℕ, List, Option}
use cpa_access_manager.Base.Int.{ℤ}
use cpa_access_manager.Base.Text.{Text}
use cpa_access_manager.Access.Types.{Binding, GroupMember, Value, UsageDetail}

pub record KeyRow : Type 0 where
  pub id : Text
  pub name : Text
  pub key_hash : Text
  pub key_prefix : Text
  pub key_plain : Text
  pub enabled : ℕ
  pub five_hour_limit_usd : Option ℤ
  pub weekly_limit_usd : Option ℤ
  pub total_limit_usd : Option ℤ
  pub created_at : Text
  pub updated_at : Text
  pub last_used_at : Option Text

pub record GroupRow : Type 0 where
  pub id : Text
  pub name : Text
  pub description : Text
  pub created_at : Text
  pub updated_at : Text

-- `snapshot_json` holds the JSON of the entries.
pub record InventoryRow : Type 0 where
  pub id : Text
  pub type : Text
  pub provider : Text
  pub auth_id : Text
  pub auth_index : Text
  pub name : Text
  pub label : Text
  pub email : Text
  pub base_url : Text
  pub snapshot_json : List (Text × Value)
  pub updated_at : Text

pub record PriceRow : Type 0 where
  pub provider : Text
  pub model : Text
  pub input_usd_per_million : ℤ
  pub output_usd_per_million : ℤ
  pub cache_read_usd_per_million : ℤ
  pub updated_at : Text

pub record UsageRow : Type 0 where
  pub id : ℕ
  pub key_id : Text
  pub request_id : Text
  pub request_resource : Text
  pub auth_id : Text
  pub auth_index : Text
  pub provider : Text
  pub provider_instance_id : Text
  pub model : Text
  pub alias : Text
  pub detail : UsageDetail
  pub first_token_latency_ms : ℤ
  pub total_latency_ms : ℤ
  pub usd : ℤ
  pub failed : ℕ
  pub created_at : Text

pub record SessionRow : Type 0 where
  pub key_id : Text
  pub model : Text
  pub session_hash : Text
  pub provider : Text
  pub auth_id : Text
  pub expires_at : Text
  pub updated_at : Text

-- The usage ledger lists the newest row first; `usage_sequence` is its AUTOINCREMENT counter.
pub record Tables : Type 0 where
  pub keys : List KeyRow
  pub groups : List GroupRow
  pub group_members : List GroupMember
  pub key_bindings : List Binding
  pub inventory_items : List InventoryRow
  pub price_rules : List PriceRow
  pub usage_ledger : List UsageRow
  pub usage_sequence : ℕ
  pub routing_sessions : List SessionRow
