-- ===== src/Access/Inventory.antt =====
-- The rows of inventory_items that routing writes: UpsertInventoryItem, authFileByCandidate and
-- UpsertProviderCandidates of internal/access/store.go. `present` is what time.Now() returns. A
-- snapshot goes through JSON, which keeps its entries.
use cpa_access_manager.Base.{
  Bool, true, false, ◌&&◌, ◌||◌, not, List, [], ◌∷◌, Option, none, some, find, any, update_where,
  if◌then◌else◌,
}
use cpa_access_manager.Base.Text.{Text, text_eq, text_ltb, codes, is_empty, trim_space}
use cpa_access_manager.Base.Sort.{sort_by}
use cpa_access_manager.Access.Types.{
  Time, InventoryItem, Candidate, Value, text, number, attributes, inventory_auth_file,
  inventory_provider_instance,
}
use cpa_access_manager.Access.Time.{format_time, parse_time}
use cpa_access_manager.Access.Normalize.{
  Platform, normalize_target_type, normalize_provider, provider_instance_id, first_attr,
}
use cpa_access_manager.Access.Scope.{inventory_by_type}
use cpa_access_manager.Access.Db.{Db, ◌>>=◌, ◌>>◌, pure, query, exec}
use cpa_access_manager.Access.Db.Schema.{Tables, InventoryRow}

-- scanInventory
unfoldable pub scan_inventory : InventoryRow → InventoryItem
scan_inventory row = record {
  id = row.id;
  type = row.type;
  provider = row.provider;
  auth_id = row.auth_id;
  auth_index = row.auth_index;
  name = row.name;
  label = row.label;
  email = row.email;
  base_url = row.base_url;
  snapshot = row.snapshot_json;
  updated_at = parse_time row.updated_at;
}

abbrev pub same_item : Text → Text → InventoryRow → Bool
same_item id type row = text_eq row.id id && text_eq row.type type

-- The INSERT … ON CONFLICT(id, type) DO UPDATE of UpsertInventoryItem.
unfoldable pub upsert_inventory_row : InventoryRow → Tables → Tables
unfolding any update_where
upsert_inventory_row row t =
    if any (same_item row.id row.type) t.inventory_items
    then record t {
      inventory_items = update_where (same_item row.id row.type) (λ old. row) t.inventory_items;
    }
    else record t { inventory_items = row ∷ t.inventory_items }

unfoldable pub inventory_row : Time → InventoryItem → InventoryRow
inventory_row present item = record {
  id = trim_space item.id;
  type = normalize_target_type item.type;
  provider = normalize_provider item.provider;
  auth_id = trim_space item.auth_id;
  auth_index = trim_space item.auth_index;
  name = trim_space item.name;
  label = trim_space item.label;
  email = trim_space item.email;
  base_url = trim_space item.base_url;
  snapshot_json = item.snapshot;
  updated_at = format_time present item.updated_at;
}

-- UpsertInventoryItem
unfoldable pub upsert_inventory_item : Time → InventoryItem → Db (Unit {0})
unfolding upsert_inventory_row inventory_row
upsert_inventory_item present item =
    let row = inventory_row present item in
    if is_empty row.type || is_empty row.id then pure tt else exec (upsert_inventory_row row)

-- ORDER BY type, provider, name, id
unfoldable pub inventory_le : InventoryRow → InventoryRow → Bool
inventory_le a b =
    if text_ltb a.type b.type
    then true
    else if text_ltb b.type a.type
    then false
    else if text_ltb a.provider b.provider
    then true
    else if text_ltb b.provider a.provider
    then false
    else if text_ltb a.name b.name
    then true
    else if text_ltb b.name a.name
    then false
    else not (text_ltb b.id a.id)

scan_items : List InventoryRow → List InventoryItem
unfolding scan_inventory
scan_items [] = []
scan_items (row ∷ rows) = scan_inventory row ∷ scan_items rows

-- ListInventory
unfoldable pub list_inventory : Db (List InventoryItem)
unfolding scan_items inventory_le sort_by
list_inventory = query (λ t. scan_items (sort_by inventory_le t.inventory_items))

or_else : {A : Type 0} → Option A → Option A → Option A
or_else none b = b
or_else (some a) b = some a

abbrev auth_file_with : (InventoryRow → Text) → Text → InventoryRow → Bool
auth_file_with field v row = text_eq row.type inventory_auth_file && text_eq (field row) v

-- The SELECT of authFileByCandidate: by id, else by auth_id, else by auth_index, else by name. The
-- candidate's identifier is not empty.
unfoldable pub auth_file_row : Text → Tables → Option InventoryRow
unfolding or_else find
auth_file_row auth_id t =
    let rows = t.inventory_items in
    or_else (find (auth_file_with (λ r. r.id) auth_id) rows) (
      or_else (find (auth_file_with (λ r. r.auth_id) auth_id) rows) (
        or_else (find (auth_file_with (λ r. r.auth_index) auth_id) rows)
          (find (auth_file_with (λ r. r.name) auth_id) rows)))

-- m[k] = v
put : Text → Value → List (Text × Value) → List (Text × Value)
put k v [] = (k, v) ∷ []
put k v ((j, w) ∷ m) = if text_eq j k then (k, v) ∷ m else (j, w) ∷ put k v m

-- The five entries that a candidate leaves in a snapshot.
candidate_snapshot : Candidate → List (Text × Value) → List (Text × Value)
unfolding put
candidate_snapshot c m = put (codes "attributes") (attributes c.attributes) (
    put (codes "status") (text c.status) (
      put (codes "priority") (number c.priority)
        (put (codes "provider") (text c.provider) (put (codes "id") (text c.id) m))))

or_existing : Text → Text → Text
or_existing v old = if is_empty v then old else v

-- The item of a candidate, over the row that is there.
instance_item :
    Time → Text → Candidate → Text → Text → Text → Text → Option InventoryRow → InventoryItem
unfolding candidate_snapshot or_existing
instance_item present id c provider auth_id auth_index base_url none = record {
  id = id;
  type = inventory_provider_instance;
  provider = provider;
  auth_id = auth_id;
  auth_index = auth_index;
  name = [];
  label = [];
  email = [];
  base_url = base_url;
  snapshot = candidate_snapshot c [];
  updated_at = present;
}
instance_item present id c provider auth_id auth_index base_url (some old) = record {
  id = id;
  type = inventory_provider_instance;
  provider = provider;
  auth_id = auth_id;
  auth_index = or_existing auth_index old.auth_index;
  name = old.name;
  label = old.label;
  email = old.email;
  base_url = or_existing base_url old.base_url;
  snapshot = candidate_snapshot c old.snapshot_json;
  updated_at = present;
}

-- One round of UpsertProviderCandidates, after the auth file was looked for.
unfoldable pub upsert_found :
    Platform → Time → Candidate → Text → Text → Option InventoryRow → Db (Unit {0})
unfolding upsert_inventory_item instance_item candidate_snapshot scan_inventory
upsert_found p present c provider auth_id (some row) =
    let item = scan_inventory row in
    upsert_inventory_item present (record item {
      provider = provider;
      snapshot = candidate_snapshot c item.snapshot;
      updated_at = present;
    })
upsert_found p present c provider auth_id none = do
  let auth_index = first_attr c.attributes (codes "auth_index" ∷ codes "index" ∷ [])
  let base_url = first_attr c.attributes (codes "base_url" ∷ codes "url" ∷ codes "endpoint" ∷ [])
  let id = provider_instance_id p provider auth_id auth_index base_url
  existing ← inventory_by_type inventory_provider_instance id
  upsert_inventory_item present
      (instance_item present id c provider auth_id auth_index base_url existing)

-- UpsertProviderCandidates
unfoldable pub upsert_provider_candidates : Platform → Time → List Candidate → Db (Unit {0})
unfolding upsert_found auth_file_row
upsert_provider_candidates p present [] = pure tt
upsert_provider_candidates p present (c ∷ candidates) =
    let provider = normalize_provider c.provider in
    let auth_id = trim_space c.id in
    let rest = upsert_provider_candidates p present candidates in
    if is_empty provider || is_empty auth_id then rest else (do
      row ← query (auth_file_row auth_id)
      upsert_found p present c provider auth_id row
      rest)
