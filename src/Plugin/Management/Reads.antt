-- ===== src/Plugin/Management/Reads.antt =====
-- A GET of the management API (internal/plugin/management.go) writes nothing.
use cpa_access_manager.Base.{
  ◌≡◌, refl, Bool, true, false, not, List, [], ◌∷◌, Option, none, some, arith, if◌then◌else◌,
}
use cpa_access_manager.Base.Text.{Text, codes, text_eq, text_discrete}
use cpa_access_manager.Access.Types.{Time}
use cpa_access_manager.Access.Time.{after}
use cpa_access_manager.Access.Normalize.{Platform}
use cpa_access_manager.Access.Keys.{list_keys, complete_keys}
use cpa_access_manager.Access.Groups.{list_groups, scan_groups}
use cpa_access_manager.Access.Inventory.{list_inventory}
use cpa_access_manager.Access.Prices.{list_price_rules}
use cpa_access_manager.Access.Usage.{list_usage_filtered, usage_totals_by_key}
use cpa_access_manager.Access.Usage.Summary.{usage_summary}
use cpa_access_manager.Access.Clean.Reads.{complete_key-ReadsOnly}
use cpa_access_manager.Access.Scope.Depth.{group_members-ReadsOnly}
use cpa_access_manager.Access.Db.{Db}
use cpa_access_manager.Access.Db.Schema.{KeyRow, GroupRow}
use cpa_access_manager.Access.Db.Reads.{
  ReadsOnly, ReadsOnly-pure, ReadsOnly-query, ReadsOnly-if, ReadsOnly-attempt, ReadsOnly-or_zero,
  ReadsOnly-bind, reads_rules,
}
use cpa_access_manager.Plugin.Types.{Config, Library, ManagementRequest}
use cpa_access_manager.Plugin.Management.Types.{Payload, ManagementResponse, Outside}
use cpa_access_manager.Plugin.Management.Responses.{Inputs, is_method, answer, to_upper}
use cpa_access_manager.Plugin.Management.Keys.{handle_keys, handle_rotate_key}
use cpa_access_manager.Plugin.Management.Groups.{handle_groups}
use cpa_access_manager.Plugin.Management.Catalog.{
  handle_inventory, handle_prices, handle_price_sync,
}
use cpa_access_manager.Plugin.Management.Usage.{handle_usage_api, totals_between, list_entries}
use cpa_access_manager.Plugin.Management.{dispatch}
use cpa_access_manager.Plugin.Update.{Machine}

answer-ReadsOnly : {A : Type 0} (f : A → Payload) (m : Db A) → ReadsOnly m → ReadsOnly (answer f m)
unfolding answer
answer-ReadsOnly f m k = ReadsOnly-bind _ _ (ReadsOnly-attempt m k) (λ r. ReadsOnly-pure _)

complete_keys-ReadsOnly :
    (rows : List KeyRow) (present : Time) → ReadsOnly (complete_keys rows present)
unfolding complete_keys
complete_keys-ReadsOnly [] present = ReadsOnly-pure []
complete_keys-ReadsOnly (row ∷ rows) present =
    ReadsOnly-bind _ _ (complete_key-ReadsOnly row present)
      (λ key. ReadsOnly-bind _ _ (complete_keys-ReadsOnly rows present) (λ keys. ReadsOnly-pure _))

pub list_keys-ReadsOnly : (present : Time) → ReadsOnly (list_keys present)
unfolding list_keys
list_keys-ReadsOnly present = search (reads_rules, complete_keys-ReadsOnly)

scan_groups-ReadsOnly : (rows : List GroupRow) → ReadsOnly (scan_groups rows)
unfolding scan_groups
scan_groups-ReadsOnly [] = ReadsOnly-pure []
scan_groups-ReadsOnly (row ∷ rows) =
    ReadsOnly-bind _ _ (ReadsOnly-or_zero [] _ (group_members-ReadsOnly row.id))
      (λ ms. ReadsOnly-bind _ _ (scan_groups-ReadsOnly rows) (λ gs. ReadsOnly-pure _))

pub list_groups-ReadsOnly : ReadsOnly list_groups
unfolding list_groups
list_groups-ReadsOnly = search (reads_rules, scan_groups-ReadsOnly)

pub list_inventory-ReadsOnly : ReadsOnly list_inventory
unfolding list_inventory
list_inventory-ReadsOnly = search reads_rules

pub list_price_rules-ReadsOnly : ReadsOnly list_price_rules
unfolding list_price_rules
list_price_rules-ReadsOnly = search reads_rules

totals_between-ReadsOnly :
    (p : Platform) (o : Outside) (i : Inputs) (req : ManagementRequest) (b : Bool)
    (since before : Option Time)
    → ReadsOnly (totals_between p o i req b since before)
unfolding totals_between usage_totals_by_key usage_summary
totals_between-ReadsOnly p o i req b none before = ReadsOnly-pure _
totals_between-ReadsOnly p o i req b (some since) none = ReadsOnly-pure _
totals_between-ReadsOnly p o i req b (some since) (some before) =
    ReadsOnly-if (not (after before since)) _ _ (ReadsOnly-pure _) (
      ReadsOnly-if b _ _ (answer-ReadsOnly _ _ (ReadsOnly-query _))
        (answer-ReadsOnly _ _ (ReadsOnly-query _)))

pub handle_usage_api-ReadsOnly :
    (p : Platform) (o : Outside) (i : Inputs) (req : ManagementRequest)
    → ReadsOnly (handle_usage_api p o i req)
unfolding handle_usage_api list_entries list_usage_filtered
handle_usage_api-ReadsOnly p o i req =
    search (reads_rules, totals_between-ReadsOnly, answer-ReadsOnly)

other_method : (m a b : Text) → text_eq a b ≡ false → text_eq m a ≡ true → text_eq m b ≡ false
other_method m a b n h = ground arith

-- A guard on another method.
module _ (req : ManagementRequest) (get : is_method (codes "GET") req.method ≡ true) where
  on_get :
      (m n : Db ManagementResponse)
      → ReadsOnly m
      → ReadsOnly (if is_method (codes "GET") req.method then m else n)
  on_get m n k = rw get k

  off_get :
      (name : Text) (m n : Db ManagementResponse)
      → text_eq (codes "GET") name ≡ false
      → ReadsOnly n
      → ReadsOnly (if is_method name req.method then m else n)
  off_get name m n d k = rw (other_method (to_upper req.method) (codes "GET") name d get) k

  handle_keys-get : (p : Platform) (o : Outside) (i : Inputs) → ReadsOnly (handle_keys p o i req)
  unfolding handle_keys
  handle_keys-get p o i = search (on_get, answer-ReadsOnly, list_keys-ReadsOnly)

  handle_rotate_key-get :
      (p : Platform) (o : Outside) (i : Inputs) → ReadsOnly (handle_rotate_key p o i req)
  unfolding handle_rotate_key text_discrete
  handle_rotate_key-get p o i = off_get (codes "POST") _ _ refl (ReadsOnly-pure _)

  handle_groups-get : (o : Outside) (i : Inputs) → ReadsOnly (handle_groups o i req)
  unfolding handle_groups
  handle_groups-get o i = search (on_get, answer-ReadsOnly, list_groups-ReadsOnly)

  handle_inventory-get :
      (p : Platform) (l : Library) (o : Outside) (i : Inputs)
      → ReadsOnly (handle_inventory p l o i req)
  unfolding handle_inventory
  handle_inventory-get p l o i = search (on_get, answer-ReadsOnly, list_inventory-ReadsOnly)

  handle_prices-get : (o : Outside) (i : Inputs) → ReadsOnly (handle_prices o i req)
  unfolding handle_prices
  handle_prices-get o i = search (on_get, answer-ReadsOnly, list_price_rules-ReadsOnly)

  handle_price_sync-get : (o : Outside) (i : Inputs) → ReadsOnly (handle_price_sync o i req)
  unfolding handle_price_sync text_discrete
  handle_price_sync-get o i = off_get (codes "POST") _ _ refl (ReadsOnly-pure _)

  -- A GET changes neither the tables nor the settings and cursors of the store, whatever its path and
  -- whichever statements fail.
  pub dispatch-ReadsOnly :
      (p : Platform) (l : Library) (o : Outside) (i : Inputs) (cfg : Config) (w : Machine)
      (path : Text)
      → ReadsOnly (dispatch p l o i cfg w req path)
  unfolding dispatch
  dispatch-ReadsOnly p l o i cfg w path =
      search
        (
          reads_rules, handle_keys-get, handle_rotate_key-get, handle_groups-get,
          handle_inventory-get, handle_prices-get, handle_price_sync-get,
          handle_usage_api-ReadsOnly,
        )
        depth 14
