-- ===== src/Access/AuthFiles.antt =====
-- The auth files of the host in inventory_items: UpsertAuthFiles, SyncAuthFiles,
-- migrateAuthFileReferences and deleteAuthFileProviderInstances of internal/access/store.go. `present`
-- is what time.Now() returns.
pub mod Sync
use cpa_access_manager.Base.{
  ℕ, Bool, true, false, ◌&&◌, ◌||◌, not, List, [], ◌∷◌, ◌++◌, Option, none, some, map, filter,
  if◌then◌else◌, ◌==◌,
}
use cpa_access_manager.Base.Int.{ℤ, pos, ltb_ℤ}
use cpa_access_manager.Base.Text.{Text, text_eq, codes, is_empty, trim_space, trim_right_byte}
use cpa_access_manager.Access.Types.{
  Time, Binding, GroupMember, HostAuthFileEntry, InventoryItem, Value, text, number, other, Error,
  binding_auth_id, binding_provider_instance, inventory_auth_file, inventory_provider_instance,
}
use cpa_access_manager.Access.Time.{stamp}
use cpa_access_manager.Access.Normalize.{
  Platform, normalize_provider, provider_instance_id, first_non_empty, has, unique_non_empty,
}
use cpa_access_manager.Access.Bindings.{insert_binding}
use cpa_access_manager.Access.Groups.{insert_member}
use cpa_access_manager.Access.Inventory.{upsert_inventory_item}
use cpa_access_manager.Access.Db.{
  Result, ok, err, Db, ◌>>=◌, ◌>>◌, pure, query, exec, statement, transaction,
}
use cpa_access_manager.Access.Db.Schema.{Tables, InventoryRow}
use cpa_access_manager.Access.HostFiles.{
  base_name, entry_snapshot, entry_id, entry_provider, auth_file_item, path_alias, item_aliases,
}

-- DELETE FROM inventory_items of deleteAuthFileProviderInstances.
unfoldable pub is_inferred : List Text → InventoryRow → Bool
unfolding has
is_inferred auth_ids r =
    text_eq r.type inventory_provider_instance
    && (is_empty r.base_url
        && (has auth_ids r.auth_id && text_eq r.id (r.provider ++ (b':' ∷ r.auth_id))))

unfoldable pub drop_inferred : List Text → Tables → Tables
unfolding filter is_inferred
drop_inferred auth_ids t = record t {
  inventory_items = filter (λ r. not (is_inferred auth_ids r)) t.inventory_items;
}

abbrev pub no_texts : List Text → Bool
no_texts [] = true
no_texts (v ∷ values) = false

-- deleteAuthFileProviderInstances
unfoldable pub delete_auth_file_provider_instances : List Text → Db (Unit {0})
unfolding drop_inferred unique_non_empty
delete_auth_file_provider_instances aliases =
    let auth_ids = unique_non_empty aliases in
    if no_texts auth_ids then pure tt else exec (drop_inferred auth_ids)

-- The loop of UpsertAuthFiles, with the aliases gathered so far.
unfoldable pub upsert_entries : Time → List Text → List HostAuthFileEntry → Db (List Text)
unfolding auth_file_item item_aliases upsert_inventory_item
upsert_entries present aliases [] = pure aliases
upsert_entries present aliases (e ∷ entries) =
    let skip = upsert_entries present aliases entries in
    let rest = upsert_entries present (aliases ++ item_aliases e) entries in
    if is_empty (entry_id e)
    then skip
    else (upsert_inventory_item present (auth_file_item present e) >> rest)

-- UpsertAuthFiles
unfoldable pub upsert_auth_files : Time → List HostAuthFileEntry → Db (Unit {0})
unfolding upsert_entries delete_auth_file_provider_instances
upsert_auth_files present entries = do
  aliases ← upsert_entries present [] entries
  delete_auth_file_provider_instances aliases

unfoldable pub then_insert :
    Result (Unit {0}) × Tables → (Tables → Result (Unit {0}) × Tables) → Result (Unit {0}) × Tables
then_insert (ok u, t) rest = rest t
then_insert (err e, t) rest = (err e, t)

-- The rows that INSERT OR IGNORE … SELECT inserts, one after the other.
unfoldable pub insert_all :
    {A : Type 0}
    → (A → Tables → Result (Unit {0}) × Tables)
    → List A
    → Tables
    → Result (Unit {0}) × Tables
unfolding then_insert
insert_all insert [] t = (ok tt, t)
insert_all insert (a ∷ rows) t = then_insert (insert a t) (insert_all insert rows)

-- A statement that a constraint refuses changes nothing.
unfoldable pub all_or_none : Tables → Result (Unit {0}) × Tables → Result (Unit {0}) × Tables
all_or_none t (ok u, t') = (ok u, t')
all_or_none t (err e, t') = (err e, t)

unfoldable pub is_instance_binding : Text → Binding → Bool
is_instance_binding id b = text_eq b.target_type binding_provider_instance && text_eq b.target_id id

unfoldable pub is_instance_member : Text → GroupMember → Bool
is_instance_member id m = text_eq m.member_type binding_provider_instance && text_eq m.member_id id

-- The two INSERT statements of migrateAuthFileReferences.
unfoldable pub copy_bindings : Text → Text → Tables → Result (Unit {0}) × Tables
unfolding insert_all all_or_none insert_binding is_instance_binding filter
copy_bindings auth_id provider_id t = all_or_none t (
    insert_all insert_binding
      (map (λ b. record { key_id = b.key_id; target_type = binding_auth_id; target_id = auth_id })
        (filter (is_instance_binding provider_id) t.key_bindings))
      t)

unfoldable pub copy_members : Text → Text → Tables → Result (Unit {0}) × Tables
unfolding insert_all all_or_none insert_member is_instance_member filter
copy_members auth_id provider_id t = all_or_none t (
    insert_all insert_member
      (map
        (λ m. record { group_id = m.group_id; member_type = binding_auth_id; member_id = auth_id })
        (filter (is_instance_member provider_id) t.group_members))
      t)

-- Its two DELETE statements.
unfoldable pub drop_instance_bindings : Text → Tables → Tables
unfolding filter is_instance_binding
drop_instance_bindings provider_id t = record t {
  key_bindings = filter (λ b. not (is_instance_binding provider_id b)) t.key_bindings;
}

unfoldable pub drop_instance_members : Text → Tables → Tables
unfolding filter is_instance_member
drop_instance_members provider_id t = record t {
  group_members = filter (λ m. not (is_instance_member provider_id m)) t.group_members;
}

-- The inner loop: the four statements for each alias.
unfoldable pub migrate_aliases : Platform → Text → Text → List Text → Db (Unit {0})
unfolding copy_bindings copy_members drop_instance_bindings drop_instance_members
    provider_instance_id
migrate_aliases p auth_id provider [] = pure tt
migrate_aliases p auth_id provider (alias ∷ aliases) = do
  let provider_id = provider_instance_id p provider alias [] []
  statement (copy_bindings auth_id provider_id)
  exec (drop_instance_bindings provider_id)
  statement (copy_members auth_id provider_id)
  exec (drop_instance_members provider_id)
  migrate_aliases p auth_id provider aliases

abbrev pub entry_auth_id : HostAuthFileEntry → Text
entry_auth_id e = trim_space (first_non_empty (e.id ∷ e.auth_index ∷ e.name ∷ []))

unfoldable pub entry_aliases : HostAuthFileEntry → List Text
unfolding path_alias
entry_aliases e = e.id ∷ e.auth_index ∷ e.name ∷ path_alias e

-- The outer loop.
unfoldable pub migrate_entries : Platform → List HostAuthFileEntry → Db (Unit {0})
unfolding migrate_aliases entry_aliases entry_provider unique_non_empty first_non_empty
migrate_entries p [] = pure tt
migrate_entries p (e ∷ entries) =
    let rest = migrate_entries p entries in
    if is_empty (entry_auth_id e) || is_empty (entry_provider e)
    then rest
    else (migrate_aliases p (entry_auth_id e) (entry_provider e)
          (unique_non_empty (entry_aliases e))
        >> rest)

-- migrateAuthFileReferences
unfoldable pub migrate_auth_file_references : Platform → List HostAuthFileEntry → Db (Unit {0})
unfolding migrate_entries
migrate_auth_file_references p entries = transaction (migrate_entries p entries)

-- The names of the auth files in the table.
unfoldable pub known_aliases : List InventoryRow → List Text
known_aliases [] = []
known_aliases (r ∷ rows) =
    let rest = known_aliases rows in
    if text_eq r.type inventory_auth_file
    then r.id ∷ r.auth_id ∷ r.auth_index ∷ r.name ∷ rest
    else rest

-- currentIDs, before uniqueNonEmpty.
unfoldable pub current_ids : List HostAuthFileEntry → List Text
unfolding first_non_empty
current_ids [] = []
current_ids (e ∷ entries) =
    let id = first_non_empty (e.id ∷ e.auth_index ∷ e.name ∷ []) in
    let rest = current_ids entries in if is_empty id then rest else id ∷ rest

unfoldable pub all_aliases : List HostAuthFileEntry → List Text
unfolding entry_aliases
all_aliases [] = []
all_aliases (e ∷ entries) = entry_aliases e ++ all_aliases entries

-- The DELETE at the end of SyncAuthFiles; `NOT IN` no identifier is every row.
unfoldable pub keep_auth_files : List Text → Tables → Tables
unfolding filter has
keep_auth_files ids t = record t {
  inventory_items =
      filter (λ r. not (text_eq r.type inventory_auth_file) || has ids r.id) t.inventory_items;
}

-- SyncAuthFiles
unfoldable pub sync_auth_files : Platform → Time → List HostAuthFileEntry → Db (Unit {0})
unfolding upsert_auth_files migrate_auth_file_references delete_auth_file_provider_instances
    known_aliases current_ids all_aliases keep_auth_files unique_non_empty
sync_auth_files p present entries = do
  known ← query (λ t. known_aliases t.inventory_items)
  upsert_auth_files present entries
  migrate_auth_file_references p entries
  delete_auth_file_provider_instances (known ++ all_aliases entries)
  exec (keep_auth_files (unique_non_empty (current_ids entries)))
