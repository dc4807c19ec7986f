-- ===== src/Plugin/Management/Writes.antt =====
-- Every request of the management API (internal/plugin/management.go) keeps what the statements keep.
use cpa_access_manager.Base.{List, [], ◌∷◌, Option, none, some}
use cpa_access_manager.Base.Text.{Text}
use cpa_access_manager.Access.Types.{Time, InventoryItem, HostAuthFileEntry, PriceRule}
use cpa_access_manager.Access.Normalize.{Platform}
use cpa_access_manager.Access.Clean.Invariant.{RunInvariant}
use cpa_access_manager.Access.Clean.Operations.{
  create_key_with_plain-Keeps, rotate_key-Keeps, update_key-Keeps, delete_key-Keeps,
}
use cpa_access_manager.Access.Clean.Catalog.{
  create_group-Keeps, update_group-Keeps, delete_group-Keeps, upsert_price_rules-Keeps,
  replace_price_rules-Keeps,
}
use cpa_access_manager.Access.Clean.Routed.{upsert_inventory_item-Keeps}
use cpa_access_manager.Access.Clean.Files.{upsert_auth_files-Keeps, sync_auth_files-Keeps}
use cpa_access_manager.Access.Keys.{list_keys}
use cpa_access_manager.Access.Groups.{list_groups}
use cpa_access_manager.Access.Inventory.{list_inventory}
use cpa_access_manager.Access.Prices.{list_price_rules}
use cpa_access_manager.Access.Db.{Result, ok, err, Db}
use cpa_access_manager.Access.Db.Keeps.{
  Keeps, OnTables, keeps_rules, Keeps-pure, Keeps-bind, Keeps-attempt,
}
use cpa_access_manager.Access.Db.Reads.{Keeps-of_ReadsOnly}
use cpa_access_manager.Access.Db.Schema.{Tables}
use cpa_access_manager.Plugin.Types.{Config, Headers, Library, ManagementRequest}
use cpa_access_manager.Plugin.Update.{Machine}
use cpa_access_manager.Plugin.Management.Types.{
  Payload, ManagementResponse, KeyRequest, GroupRequest, InventoryRequest, Outside,
}
use cpa_access_manager.Plugin.Management.Responses.{Inputs, answer, answer_coded, with_body}
use cpa_access_manager.Plugin.Management.Keys.{
  post_key, patch_key, delete_key_request, handle_keys, handle_rotate_key,
}
use cpa_access_manager.Plugin.Management.Groups.{
  post_group, patch_group, delete_group_request, handle_groups,
}
use cpa_access_manager.Plugin.Management.Catalog.{
  upsert_items, or_refuse, then_answer, refresh_files, refresh_inventory, post_inventory,
  handle_inventory, put_prices, handle_prices, replace_synced, sync_from, handle_price_sync,
}
use cpa_access_manager.Plugin.Management.Usage.{handle_usage_api}
use cpa_access_manager.Plugin.Management.Reads.{
  list_keys-ReadsOnly, list_groups-ReadsOnly, list_inventory-ReadsOnly, list_price_rules-ReadsOnly,
  handle_usage_api-ReadsOnly,
}
use cpa_access_manager.Plugin.Management.{dispatch}

module _ {Q : Tables → Type 0} where
  answer-Keeps :
      {A : Type 0} (f : A → Payload) (m : Db A)
      → Keeps (OnTables Q) m
      → Keeps (OnTables Q) (answer f m)
  unfolding answer
  answer-Keeps f m k = Keeps-bind _ _ (Keeps-attempt m k) (λ r. Keeps-pure _)

  answer_coded-Keeps :
      {A : Type 0} (code : _) (f : A → Payload) (m : Db A)
      → Keeps (OnTables Q) m
      → Keeps (OnTables Q) (answer_coded code f m)
  unfolding answer_coded
  answer_coded-Keeps code f m k = Keeps-bind _ _ (Keeps-attempt m k) (λ r. Keeps-pure _)

  with_body-Keeps :
      {A : Type 0} (o : Option A) (f : A → Db ManagementResponse)
      → ((a : A) → Keeps (OnTables Q) (f a))
      → Keeps (OnTables Q) (with_body o f)
  unfolding with_body
  with_body-Keeps none f k = Keeps-pure _
  with_body-Keeps (some a) f k = k a

  list_keys-Keeps : (present : Time) → Keeps (OnTables Q) (list_keys present)
  list_keys-Keeps present = Keeps-of_ReadsOnly _ (list_keys-ReadsOnly present)

  list_groups-Keeps : Keeps (OnTables Q) list_groups
  list_groups-Keeps = Keeps-of_ReadsOnly _ list_groups-ReadsOnly

  list_inventory-Keeps : Keeps (OnTables Q) list_inventory
  list_inventory-Keeps = Keeps-of_ReadsOnly _ list_inventory-ReadsOnly

  list_price_rules-Keeps : Keeps (OnTables Q) list_price_rules
  list_price_rules-Keeps = Keeps-of_ReadsOnly _ list_price_rules-ReadsOnly

  handle_usage_api-Keeps :
      (p : Platform) (o : Outside) (i : Inputs) (req : ManagementRequest)
      → Keeps (OnTables Q) (handle_usage_api p o i req)
  handle_usage_api-Keeps p o i req = Keeps-of_ReadsOnly _ (handle_usage_api-ReadsOnly p o i req)

  or_refuse-Keeps :
      (r : Result (Unit {0})) (k : Db ManagementResponse)
      → Keeps (OnTables Q) k
      → Keeps (OnTables Q) (or_refuse r k)
  unfolding or_refuse
  or_refuse-Keeps (ok u) k kk = kk
  or_refuse-Keeps (err e) k kk = Keeps-pure _

  then_answer-Keeps :
      (m : Db (Unit {0})) (k : Db ManagementResponse)
      → Keeps (OnTables Q) m
      → Keeps (OnTables Q) k
      → Keeps (OnTables Q) (then_answer m k)
  unfolding then_answer
  then_answer-Keeps m k km kk = Keeps-bind _ _ (Keeps-attempt m km) (λ r. or_refuse-Keeps r k kk)

module _ {Q : Tables → Type 0} (inv : RunInvariant Q) (p : Platform) (o : Outside)
    (i : Inputs) where
  post_key-Keeps : (body : KeyRequest) → Keeps (OnTables Q) (post_key p i body)
  unfolding post_key
  post_key-Keeps body =
      answer_coded-Keeps 201 _ _ (create_key_with_plain-Keeps inv.each p _ _ _ _ _ _ _ _)

  patch_key-Keeps :
      (req : ManagementRequest) (body : KeyRequest) → Keeps (OnTables Q) (patch_key o i req body)
  unfolding patch_key
  patch_key-Keeps req body = search (keeps_rules, answer-Keeps, update_key-Keeps inv.each)

  delete_key_request-Keeps :
      (req : ManagementRequest) → Keeps (OnTables Q) (delete_key_request o req)
  unfolding delete_key_request
  delete_key_request-Keeps req = search (keeps_rules, answer-Keeps, delete_key-Keeps inv.each)

  handle_keys-Keeps : (req : ManagementRequest) → Keeps (OnTables Q) (handle_keys p o i req)
  unfolding handle_keys
  handle_keys-Keeps req =
      search
        (
          keeps_rules, answer-Keeps, with_body-Keeps, list_keys-Keeps, post_key-Keeps,
          patch_key-Keeps, delete_key_request-Keeps,
        )
        depth 9

  handle_rotate_key-Keeps :
      (req : ManagementRequest) → Keeps (OnTables Q) (handle_rotate_key p o i req)
  unfolding handle_rotate_key
  handle_rotate_key-Keeps req = search (keeps_rules, answer_coded-Keeps, rotate_key-Keeps inv.each)

  post_group-Keeps : (body : GroupRequest) → Keeps (OnTables Q) (post_group i body)
  unfolding post_group
  post_group-Keeps body = answer-Keeps _ _ (create_group-Keeps inv.each _ _ _ _ _ _)

  patch_group-Keeps :
      (req : ManagementRequest) (body : GroupRequest)
      → Keeps (OnTables Q) (patch_group o i req body)
  unfolding patch_group
  patch_group-Keeps req body = search (keeps_rules, answer-Keeps, update_group-Keeps inv.each)

  delete_group_request-Keeps :
      (req : ManagementRequest) → Keeps (OnTables Q) (delete_group_request o req)
  unfolding delete_group_request
  delete_group_request-Keeps req = search (keeps_rules, answer-Keeps, delete_group-Keeps inv.each)

  handle_groups-Keeps : (req : ManagementRequest) → Keeps (OnTables Q) (handle_groups o i req)
  unfolding handle_groups
  handle_groups-Keeps req =
      search
        (
          keeps_rules, answer-Keeps, with_body-Keeps, list_groups-Keeps, post_group-Keeps,
          patch_group-Keeps, delete_group_request-Keeps,
        )
        depth 9

  upsert_items-Keeps :
      (present : Time) (items : List InventoryItem)
      → Keeps (OnTables Q) (upsert_items present items)
  unfolding upsert_items
  upsert_items-Keeps present [] = Keeps-pure tt
  upsert_items-Keeps present (item ∷ items) =
      Keeps-bind _ _ (upsert_inventory_item-Keeps inv.each present item)
        (λ u. upsert_items-Keeps present items)

  refresh_inventory-Keeps :
      (l : Library) (h : Headers) (files : Option (List HostAuthFileEntry))
      → Keeps (OnTables Q) (refresh_inventory p l o i h files)
  unfolding refresh_inventory refresh_files
  refresh_inventory-Keeps l h none = Keeps-pure _
  refresh_inventory-Keeps l h (some files) =
      search
        (
          keeps_rules,
          then_answer-Keeps,
          answer-Keeps,
          sync_auth_files-Keeps inv,
          upsert_items-Keeps,
        )
        depth 9

  post_inventory-Keeps :
      (l : Library) (req : ManagementRequest) (body : InventoryRequest)
      → Keeps (OnTables Q) (post_inventory p l o i req body)
  unfolding post_inventory
  post_inventory-Keeps l req body =
      search
        (
          keeps_rules,
          then_answer-Keeps,
          answer-Keeps,
          upsert_auth_files-Keeps inv.each,
          upsert_items-Keeps,
          refresh_inventory-Keeps,
        )
        depth 9

  handle_inventory-Keeps :
      (l : Library) (req : ManagementRequest) → Keeps (OnTables Q) (handle_inventory p l o i req)
  unfolding handle_inventory
  handle_inventory-Keeps l req =
      search (keeps_rules, answer-Keeps, with_body-Keeps, post_inventory-Keeps) depth 9

  put_prices-Keeps : (rules : List PriceRule) → Keeps (OnTables Q) (put_prices i rules)
  unfolding put_prices
  put_prices-Keeps rules =
      search
        (then_answer-Keeps, answer-Keeps, upsert_price_rules-Keeps inv.each, list_price_rules-Keeps)

  handle_prices-Keeps : (req : ManagementRequest) → Keeps (OnTables Q) (handle_prices o i req)
  unfolding handle_prices
  handle_prices-Keeps req =
      search (keeps_rules, answer-Keeps, with_body-Keeps, put_prices-Keeps) depth 9

  replace_synced-Keeps :
      (source : Text) (rules : Option (List PriceRule))
      → Keeps (OnTables Q) (replace_synced i source rules)
  unfolding replace_synced
  replace_synced-Keeps source none = Keeps-pure _
  replace_synced-Keeps source (some []) = Keeps-pure _
  replace_synced-Keeps source (some (r ∷ rules)) =
      then_answer-Keeps _ _ (replace_price_rules-Keeps inv.each (r ∷ rules) i.present)
        (Keeps-pure _)

  sync_from-Keeps : (asked : Text) → Keeps (OnTables Q) (sync_from o i asked)
  unfolding sync_from
  sync_from-Keeps asked = replace_synced-Keeps _ _

  handle_price_sync-Keeps :
      (req : ManagementRequest) → Keeps (OnTables Q) (handle_price_sync o i req)
  unfolding handle_price_sync
  handle_price_sync-Keeps req = search (keeps_rules, with_body-Keeps, sync_from-Keeps)

  pub dispatch-Keeps :
      (l : Library) (cfg : Config) (w : Machine) (req : ManagementRequest) (path : Text)
      → Keeps (OnTables Q) (dispatch p l o i cfg w req path)
  unfolding dispatch
  dispatch-Keeps l cfg w req path =
      search
        (
          keeps_rules, handle_keys-Keeps, handle_rotate_key-Keeps, handle_groups-Keeps,
          handle_inventory-Keeps, handle_prices-Keeps, handle_price_sync-Keeps,
          handle_usage_api-Keeps,
        )
        depth 14
