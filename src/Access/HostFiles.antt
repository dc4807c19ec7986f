-- ===== src/Access/HostFiles.antt =====
-- One auth file of the host as an item of the inventory, and its aliases: entrySnapshot,
-- authFileInventoryItem and their helpers of internal/access/store.go. `present` is what time.Now()
-- returns.
use cpa_access_manager.Base.{Bool, ◌&&◌, not, List, [], ◌∷◌, ◌++◌, if◌then◌else◌, ◌==◌}
use cpa_access_manager.Base.Int.{ℤ, pos, ltb_ℤ}
use cpa_access_manager.Base.Text.{Text, codes, is_empty, trim_space, trim_right_byte}
use cpa_access_manager.Access.Types.{
  Time, HostAuthFileEntry, InventoryItem, Value, text, number, other, inventory_auth_file,
}
use cpa_access_manager.Access.Time.{stamp}
use cpa_access_manager.Access.Normalize.{normalize_provider, first_non_empty}

-- The part of a path after its last slash.
after_slash : Text → Text → Text
after_slash acc [] = acc
after_slash acc (c ∷ s) = if c == b'/' then after_slash s s else after_slash acc s

-- filepath.Base
unfoldable pub base_name : Text → Text
unfolding after_slash
base_name path =
    let p = trim_right_byte b'/' path in
    if is_empty path then b'.' ∷ [] else if is_empty p then b'/' ∷ [] else after_slash p p

-- The entries of the JSON object that a field tagged `omitempty` leaves.
unless_empty : Text → Text → List (Text × Value)
unless_empty k v = if is_empty v then [] else (k, text v) ∷ []

unless_zero : Text → ℤ → List (Text × Value)
unless_zero k v = if not (ltb_ℤ v (pos 0)) && not (ltb_ℤ (pos 0) v) then [] else (k, number v) ∷ []

unless_false : Text → Bool → List (Text × Value)
unless_false k v = if v then (k, other (codes "true")) ∷ [] else []

-- `omitempty` does not leave out a time.Time.
time_entry : Text → Time → List (Text × Value)
time_entry k t = (k, text (stamp t)) ∷ []

-- The snapshot of an entry: json.Marshal and json.Unmarshal of its fields.
unfoldable pub entry_snapshot : HostAuthFileEntry → List (Text × Value)
unfolding unless_empty unless_zero unless_false time_entry
entry_snapshot e =
    unless_empty (codes "id") e.id
    ++ (unless_empty (codes "auth_index") e.auth_index
        ++ (((codes "name", text e.name) ∷ [])
            ++ (unless_empty (codes "type") e.type
                ++ (unless_empty (codes "provider") e.provider
                    ++ (unless_empty (codes "label") e.label
                        ++ (unless_empty (codes "status") e.status
                            ++ (unless_empty (codes "status_message") e.status_message
                                ++ (unless_false (codes "disabled") e.disabled
                                    ++ (unless_false (codes "unavailable") e.unavailable
                                        ++ (unless_false (codes "runtime_only") e.runtime_only
                                            ++ (unless_empty (codes "source") e.source
                                                ++ (unless_empty (codes "path") e.path
                                                    ++ (unless_zero (codes "size") e.size
                                                        ++ (time_entry (codes "modtime") e.mod_time
                                                            ++ (time_entry (codes "updated_at")
                                                            e.updated_at
                                                            ++ (time_entry (codes "created_at")
                                                            e.created_at
                                                            ++ (time_entry (codes "last_refresh")
                                                            e.last_refresh
                                                            ++ (time_entry
                                                            (codes "next_retry_after")
                                                            e.next_retry_after
                                                            ++ (unless_empty (codes "email") e.email
                                                            ++ (unless_empty (codes "project_id")
                                                            e.project_id
                                                            ++ (unless_empty (codes "account_type")
                                                            e.account_type
                                                            ++ (unless_empty (codes "account")
                                                            e.account
                                                            ++ (unless_zero (codes "priority")
                                                            e.priority
                                                            ++ (unless_empty (codes "note") e.note
                                                            ++ unless_false (codes "websockets")
                                                            e.websockets))))))))))))))))))))))))

-- The identifier of an entry in UpsertAuthFiles: the first that is not blank, trimmed.
unfoldable pub entry_id : HostAuthFileEntry → Text
entry_id e =
    if not (is_empty (trim_space e.id))
    then trim_space e.id
    else if not (is_empty (trim_space e.auth_index))
    then trim_space e.auth_index
    else trim_space e.name

unfoldable pub entry_provider : HostAuthFileEntry → Text
entry_provider e = normalize_provider (first_non_empty (e.provider ∷ e.type ∷ []))

unfoldable pub auth_file_item : Time → HostAuthFileEntry → InventoryItem
unfolding entry_id entry_provider entry_snapshot
auth_file_item present e = record {
  id = entry_id e;
  type = inventory_auth_file;
  provider = entry_provider e;
  auth_id = entry_id e;
  auth_index = trim_space e.auth_index;
  name = trim_space e.name;
  label = trim_space e.label;
  email = trim_space e.email;
  base_url = [];
  snapshot = entry_snapshot e;
  updated_at = present;
}

-- The file name of the path of an entry, if it has one.
unfoldable pub path_alias : HostAuthFileEntry → List Text
unfolding base_name
path_alias e = if is_empty e.path then [] else base_name e.path ∷ []

-- The names that an entry adds to authAliases in UpsertAuthFiles.
unfoldable pub item_aliases : HostAuthFileEntry → List Text
unfolding entry_id path_alias
item_aliases e =
    entry_id e ∷ entry_id e ∷ trim_space e.auth_index ∷ trim_space e.name ∷ path_alias e
