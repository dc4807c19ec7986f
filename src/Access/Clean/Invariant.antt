-- ===== src/Access/Clean/Invariant.antt =====
-- What a property of the tables has to satisfy so that every operation of internal/access/store.go
-- and routing.go keeps it: each statement does.
use cpa_access_manager.Base.{◌≡◌, List}
use cpa_access_manager.Base.Text.{Text}
use cpa_access_manager.Access.Types.{Binding, GroupMember, UsageEntry}
use cpa_access_manager.Access.Bindings.{insert_binding, delete_bindings}
use cpa_access_manager.Access.Keys.{insert_key, update_key_row, rotate_row, delete_key_statement}
use cpa_access_manager.Access.Keys.Token.{NewToken}
use cpa_access_manager.Access.Groups.{
  insert_member, delete_members, insert_group, update_group_row, delete_group_statement,
}
use cpa_access_manager.Access.Prices.{upsert_price, clear_prices}
use cpa_access_manager.Access.Usage.{insert_usage}
use cpa_access_manager.Access.Inventory.{upsert_inventory_row}
use cpa_access_manager.Access.AuthFiles.{
  drop_inferred, drop_instance_bindings, drop_instance_members, keep_auth_files,
}
use cpa_access_manager.Access.Routing.Session.{upsert_session, drop_expired}
use cpa_access_manager.Access.Scope.Depth.{IsLeaf}
use cpa_access_manager.Access.Clean.{HasStoredLimits, IsTarget, IsPrice}
use cpa_access_manager.Access.Db.Schema.{
  Tables, KeyRow, GroupRow, InventoryRow, PriceRow, SessionRow,
}

-- An UPDATE of a key that leaves its identifier and its hash alone and its limits positive.
pub record KeyUpdate (f : KeyRow → KeyRow) : Type 0 where
  pub same_id : (k : KeyRow) → (f k).id ≡ k.id
  pub same_hash : (k : KeyRow) → (f k).key_hash ≡ k.key_hash
  pub stored : (k : KeyRow) → HasStoredLimits k → HasStoredLimits (f k)

-- An UPDATE of a group that leaves its identifier alone.
pub record GroupUpdate (f : GroupRow → GroupRow) : Type 0 where
  pub same_id : (g : GroupRow) → (f g).id ≡ g.id

pub record Invariant (Q : Tables → Type 0) : Type 0 where
  pub insert_binding : (t : Tables) → Q t → (b : Binding) → IsTarget b → Q (insert_binding b t).1
  pub delete_bindings : (t : Tables) → Q t → (id : Text) → Q (delete_bindings id t)
  pub insert_key : (t : Tables) → Q t → (k : KeyRow) → HasStoredLimits k → Q (insert_key k t).1
  pub update_key_row :
      (t : Tables)
      → Q t
      → (id : Text) (f : KeyRow → KeyRow) → KeyUpdate f
      → Q (update_key_row id f t)
  pub rotate_row :
      (t : Tables) → Q t → (id : Text) (n : NewToken) (now : Text) → Q (rotate_row id n now t).1
  pub delete_key : (t : Tables) → Q t → (id : Text) → Q (delete_key_statement id t).1
  pub insert_member : (t : Tables) → Q t → (m : GroupMember) → IsLeaf m → Q (insert_member m t).1
  pub delete_members : (t : Tables) → Q t → (id : Text) → Q (delete_members id t)
  pub insert_group : (t : Tables) → Q t → (g : GroupRow) → Q (insert_group g t).1
  pub update_group_row :
      (t : Tables)
      → Q t
      → (id : Text) (f : GroupRow → GroupRow) → GroupUpdate f
      → Q (update_group_row id f t)
  pub delete_group : (t : Tables) → Q t → (id : Text) → Q (delete_group_statement id t).1
  pub upsert_price : (t : Tables) → Q t → (r : PriceRow) → IsPrice r → Q (upsert_price r t)
  pub clear_prices : (t : Tables) → Q t → Q (clear_prices t)
  pub insert_usage :
      (t : Tables) → Q t → (e : UsageEntry) (created : Text) → Q (insert_usage e created t).1
  pub upsert_session : (t : Tables) → Q t → (r : SessionRow) → Q (upsert_session r t).1
  pub drop_expired : (t : Tables) → Q t → (now : Text) → Q (drop_expired now t)
  pub upsert_inventory_row : (t : Tables) → Q t → (r : InventoryRow) → Q (upsert_inventory_row r t)
  pub drop_inferred : (t : Tables) → Q t → (ids : List Text) → Q (drop_inferred ids t)
  pub drop_instance_bindings : (t : Tables) → Q t → (id : Text) → Q (drop_instance_bindings id t)
  pub drop_instance_members : (t : Tables) → Q t → (id : Text) → Q (drop_instance_members id t)

-- The same, also of the deletion that ends SyncAuthFiles.
pub record RunInvariant (Q : Tables → Type 0) : Type 0 where
  pub each : Invariant Q
  pub keep_auth_files : (t : Tables) → Q t → (ids : List Text) → Q (keep_auth_files ids t)
