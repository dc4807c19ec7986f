-- ===== src/Access/Clean.antt =====
-- What the operations of internal/access/store.go and routing.go keep true of the tables.
pub mod Invariant
pub mod Rows
pub mod Reads
pub mod Operations
pub mod Catalog
pub mod Routed
pub mod Traffic
pub mod Files
pub mod Run
use cpa_access_manager.Base.{◌≡◌, ◌≢◌, Bool, true, false, List, [], Option, none, some, All}
use cpa_access_manager.Base.Int.{ℤ, pos, ◌<ℤ◌, pos_part, neg_part}
use cpa_access_manager.Base.Text.{Text, is_empty, trim_space}
use cpa_access_manager.Access.Types.{Binding, GroupMember}
use cpa_access_manager.Access.Normalize.{normalize_target_type, normalize_provider}
use cpa_access_manager.Access.Scope.Depth.{IsLeaf, IsFlat}
use cpa_access_manager.Access.Db.Schema.{Tables, KeyRow, PriceRow}

-- No limit, or a positive one.
abbrev pub StoredLimit : Option ℤ → Type 0
StoredLimit none = Unit {0}
StoredLimit (some v) = pos 0 <ℤ v

pub record HasStoredLimits (k : KeyRow) : Type 0 where
  pub five_hour : StoredLimit k.five_hour_limit_usd
  pub weekly : StoredLimit k.weekly_limit_usd
  pub total : StoredLimit k.total_limit_usd

-- Type and identifier are there, the type is normalized and the identifier trimmed: applyTarget reads
-- them as they stand.
pub record IsTarget (b : Binding) : Type 0 where
  pub type_given : is_empty b.target_type ≡ false
  pub type_normal : normalize_target_type b.target_type ≡ b.target_type
  pub id_given : is_empty b.target_id ≡ false
  pub id_trimmed : trim_space b.target_id ≡ b.target_id

-- The row is found by the provider and model that PriceRule asks for.
pub record IsPrice (r : PriceRow) : Type 0 where
  pub provider_given : is_empty r.provider ≡ false
  pub provider_normal : normalize_provider r.provider ≡ r.provider
  pub model_given : is_empty r.model ≡ false
  pub model_trimmed : trim_space r.model ≡ r.model

pub record IsClean (t : Tables) : Type 0 where
  pub flat : All IsLeaf t.group_members
  pub limits : All HasStoredLimits t.keys
  pub targets : All IsTarget t.key_bindings
  pub prices : All IsPrice t.price_rules
