-- ===== src/Access/AuthFiles/Sync.antt =====
-- SyncAuthFiles of internal/access/store.go makes the auth files of inventory_items those of the
-- host.
use cpa_access_manager.Base.{
  ◌≡◌, refl, sym, subst, inl, inr, Bool, true, false, not, ◌&&◌, ◌||◌, List, [], ◌∷◌, ◌++◌, All, In,
  any, update_where, filter-passes, arith, if◌then◌else◌,
}
use cpa_access_manager.Base.Distinct.{any-kept}
use cpa_access_manager.Base.Text.{
  Text, text_discrete, trim_left, trim_right, text_eq, is_empty, trim_space, trim_space_idem,
  replace_all, to_lower,
}
use cpa_access_manager.Access.Types.{
  Time, HostAuthFileEntry, inventory_auth_file, inventory_provider_instance,
}
use cpa_access_manager.Access.Normalize.{
  Platform, first_non_empty, has, unique_from, unique_non_empty, normalize_target_type,
}
use cpa_access_manager.Access.Inventory.{
  same_item, upsert_inventory_item, upsert_inventory_row, inventory_row,
}
use cpa_access_manager.Access.Bindings.{insert_binding, delete_bindings}
use cpa_access_manager.Access.Keys.{
  insert_key, update_key_row, rotate_row, delete_key_statement, delete_key_rows,
}
use cpa_access_manager.Access.Groups.{
  insert_member, delete_members, insert_group, update_group_row, delete_group_statement,
}
use cpa_access_manager.Access.Prices.{upsert_price, clear_prices}
use cpa_access_manager.Access.Usage.{insert_usage}
use cpa_access_manager.Access.Routing.Session.{upsert_session, drop_expired}
use cpa_access_manager.Access.AuthFiles.{
  current_ids, upsert_entries, drop_inferred, is_inferred, upsert_auth_files, keep_auth_files,
  sync_auth_files, drop_instance_bindings, drop_instance_members,
}
use cpa_access_manager.Access.HostFiles.{entry_id, item_aliases, auth_file_item}
use cpa_access_manager.Access.Clean.Invariant.{Invariant}
use cpa_access_manager.Access.Clean.Files.{
  upsert_entries-Keeps, delete_instances-Keeps, migrate-Keeps,
}
use cpa_access_manager.Access.Db.{ok, State, pure, exec}
use cpa_access_manager.Access.Db.Keeps.{kept_after}
use cpa_access_manager.Access.Db.Success.{bind_ok, test_ok, statement_ok}
use cpa_access_manager.Access.Db.Schema.{Tables, InventoryRow}

-- The table has the auth file.
abbrev pub HasFile : Text → Tables → Type 0
HasFile id t = any (same_item id inventory_auth_file) t.inventory_items ≡ true

replaced :
    (id type : Text) (r : InventoryRow) (rows : List InventoryRow)
    → any (same_item id type) rows ≡ true
    → any (same_item id type) (update_where (same_item r.id r.type) (λ old. r) rows) ≡ true
unfolding any update_where
replaced id type r [] h = h
replaced id type r (x ∷ rows) h = ground (arith, replaced id type r rows)

other_type : (v a b : Text) → text_eq a b ≡ false → text_eq v a ≡ true → text_eq v b ≡ false
other_type v a b n h = ground arith

both : (a b : Bool) → a && b ≡ true → b ≡ true
both a b h = ground arith

module _ (id : Text) where
  upsert-HasFile :
      (t : Tables) → HasFile id t → (r : InventoryRow) → HasFile id (upsert_inventory_row r t)
  unfolding upsert_inventory_row any
  upsert-HasFile t h r = ground (arith, h, replaced id inventory_auth_file r t.inventory_items h)

  drop_inferred-HasFile :
      (t : Tables) → HasFile id t → (ids : List Text) → HasFile id (drop_inferred ids t)
  unfolding drop_inferred is_inferred text_discrete
  drop_inferred-HasFile t h ids =
      any-kept (same_item id inventory_auth_file) (λ r. not (is_inferred ids r)) t.inventory_items
        (λ r e.
          rw
            (other_type r.type inventory_auth_file inventory_provider_instance refl
              (both (text_eq r.id id) (text_eq r.type inventory_auth_file) e))
            refl)
        h

  file_invariant : Invariant (HasFile id)
  unfolding insert_binding delete_bindings insert_key update_key_row rotate_row delete_key_statement
      delete_key_rows insert_member delete_members insert_group update_group_row
      delete_group_statement upsert_price clear_prices insert_usage upsert_session drop_expired
      drop_instance_bindings drop_instance_members
  file_invariant = record {
    insert_binding = λ t h b k. ground (arith, h);
    delete_bindings = λ t h id. h;
    insert_key = λ t h k l. ground (arith, h);
    update_key_row = λ t h id f k. h;
    rotate_row = λ t h id n now. ground (arith, h);
    delete_key = λ t h id. ground (arith, h);
    insert_member = λ t h m k. ground (arith, h);
    delete_members = λ t h id. h;
    insert_group = λ t h g. ground (arith, h);
    update_group_row = λ t h id f k. h;
    delete_group = λ t h id. ground (arith, h);
    upsert_price = λ t h r k. ground (arith, h);
    clear_prices = λ t h. h;
    insert_usage = λ t h e created. ground (arith, h);
    upsert_session = λ t h r. ground (arith, h);
    drop_expired = λ t h now. h;
    upsert_inventory_row = upsert-HasFile;
    drop_inferred = drop_inferred-HasFile;
    drop_instance_bindings = λ t h id. h;
    drop_instance_members = λ t h id. h;
  }

-- A name of the list that is not blank is in uniqueNonEmpty of it, trimmed.
unique_from-has :
    (seen values : List Text) (t : Text)
    → is_empty t ≡ false
    → any (λ v. text_eq (trim_space v) t) values ≡ true
    → has seen t ≡ false
    → has (unique_from seen values) t ≡ true
unfolding unique_from has any
unique_from-has seen [] t n h fresh = absurd (cc)
unique_from-has seen (v ∷ values) t n h fresh =
    ground
      (arith, unique_from-has seen values t n, unique_from-has (trim_space v ∷ seen) values t n)

given_of_trimmed : (v : Text) → is_empty (trim_space v) ≡ false → is_empty v ≡ false
unfolding trim_space trim_left trim_right
given_of_trimmed [] h = h
given_of_trimmed (c ∷ v) h = refl

entry_id_first :
    (e : HostAuthFileEntry)
    → is_empty (entry_id e) ≡ false
    → (trim_space (first_non_empty (e.id ∷ e.auth_index ∷ e.name ∷ [])) ≡ entry_id e)
      × (is_empty (first_non_empty (e.id ∷ e.auth_index ∷ e.name ∷ [])) ≡ false)
unfolding entry_id first_non_empty
entry_id_first e n =
    ground (arith, given_of_trimmed e.id, given_of_trimmed e.auth_index, given_of_trimmed e.name)

current_ids-has :
    (entries : List HostAuthFileEntry) (e : HostAuthFileEntry)
    → In e entries
    → is_empty (entry_id e) ≡ false
    → any (λ v. text_eq (trim_space v) (entry_id e)) (current_ids entries) ≡ true
unfolding current_ids any
current_ids-has [] e m n = absurd m
current_ids-has (x ∷ entries) e (inl same) n = ground (arith, entry_id_first e n, same)
current_ids-has (x ∷ entries) e (inr m) n = ground (arith, current_ids-has entries e m n)

entry_id_trimmed : (e : HostAuthFileEntry) → trim_space (entry_id e) ≡ entry_id e
unfolding entry_id
entry_id_trimmed e =
    ground (arith, trim_space_idem e.id, trim_space_idem e.auth_index, trim_space_idem e.name)

auth_file_normal : normalize_target_type inventory_auth_file ≡ inventory_auth_file
unfolding normalize_target_type replace_all to_lower trim_space
auth_file_normal = refl

row_has :
    (r : InventoryRow) (t : Tables)
    → any (same_item r.id r.type) (upsert_inventory_row r t).inventory_items ≡ true
unfolding upsert_inventory_row any
row_has r t = ground (arith, replaced r.id r.type r t.inventory_items)

unless_row :
    (b : Bool) (r : InventoryRow) (s s' : State)
    → b ≡ false
    → (if b then pure tt else exec (upsert_inventory_row r)) s ≡ (ok tt, s')
    → (b ≡ false) × (exec (upsert_inventory_row r) s ≡ (ok tt, s'))
unless_row true r s s' n h = absurd (cc)
unless_row false r s s' n h = (refl, h)

written_row :
    (r : InventoryRow) (s s' : State)
    → is_empty r.type || is_empty r.id ≡ false
    → (if is_empty r.type || is_empty r.id then pure tt else exec (upsert_inventory_row r)) s
      ≡ (ok tt, s')
    → any (same_item r.id r.type) s'.store.db.inventory_items ≡ true
unfolding exec
written_row r s s' n h =
    let (e, done) = unless_row (is_empty r.type || is_empty r.id) r s s' n h in
    subst (λ x. any (same_item r.id r.type) x.db.inventory_items ≡ true)
      (sym ((statement_ok (λ t. (ok tt, upsert_inventory_row r t)) s tt s' done).1))
      (row_has r s.store.db)

item_has :
    (present : Time) (e : HostAuthFileEntry) (s s' : State)
    → is_empty (entry_id e) ≡ false
    → upsert_inventory_item present (auth_file_item present e) s ≡ (ok tt, s')
    → HasFile (entry_id e) s'.store.db
unfolding upsert_inventory_item inventory_row auth_file_item
item_has present e s s' n h =
    let row = inventory_row present (auth_file_item present e) in
    let found = written_row row s s' (ground (arith, auth_file_normal, entry_id_trimmed e, n)) h in
    subst (λ x. any (same_item x inventory_auth_file) s'.store.db.inventory_items ≡ true)
      (entry_id_trimmed e)
      (subst (λ x. any (same_item row.id x) s'.store.db.inventory_items ≡ true) auth_file_normal
        found)

entries_have :
    (present : Time) (aliases all : List Text) (entries : List HostAuthFileEntry) (s s' : State)
    → upsert_entries present aliases entries s ≡ (ok all, s')
    → (e : HostAuthFileEntry) → In e entries
    → is_empty (entry_id e) ≡ false
    → HasFile (entry_id e) s'.store.db
unfolding upsert_entries
entries_have present aliases all [] s s' h e m n = absurd m
entries_have present aliases all (x ∷ entries) s s' h e (inl same) n =
    elim (test_ok (is_empty (entry_id x)) _ _ s s' all h) [
      | inl empty ↦ absurd (cc)
      | inr more ↦
          let (u, t, written, rest) = bind_ok _ _ s all s' more.1 in
          kept_after (upsert_entries present (aliases ++ item_aliases x) entries) t (ok all) s'
            (upsert_entries-Keeps (file_invariant (entry_id e)) present (aliases ++ item_aliases x)
              entries)
            rest
            (subst (λ y. HasFile (entry_id y) t.store.db) (sym same)
              (item_has present x s t more.0 written))
    ]
entries_have present aliases all (x ∷ entries) s s' h e (inr later) n =
    elim (test_ok (is_empty (entry_id x)) _ _ s s' all h) [
      | inl empty ↦ entries_have present aliases all entries s s' empty.1 e later n
      | inr more ↦
          let (u, t, written, rest) = bind_ok _ _ s all s' more.1 in
          entries_have present (aliases ++ item_aliases x) all entries t s' rest e later n
    ]

-- The auth files of the table: those of the identifiers, and no other.
pub record IsSynced (entries : List HostAuthFileEntry) (t : Tables) : Type 0 where
  pub present :
      (e : HostAuthFileEntry)
      → In e entries
      → is_empty (entry_id e) ≡ false
      → HasFile (entry_id e) t
  pub only :
      All
        (λ r.
          not (text_eq r.type inventory_auth_file)
            || has (unique_non_empty (current_ids entries)) r.id
          ≡ true)
        t.inventory_items

has_row :
    (ids : List Text) (id v : Text) (b : Bool)
    → text_eq id v && b ≡ true
    → has ids v ≡ true
    → not b || has ids id ≡ true
has_row ids id v b same h = ground (arith, same, h)

keep-IsSynced :
    (entries : List HostAuthFileEntry) (t : Tables)
    → ((e : HostAuthFileEntry)
        → In e entries
        → is_empty (entry_id e) ≡ false
        → HasFile (entry_id e) t)
    → IsSynced entries (keep_auth_files (unique_non_empty (current_ids entries)) t)
unfolding keep_auth_files unique_non_empty has any
keep-IsSynced entries t k =
    let ids = unique_non_empty (current_ids entries) in
    record {
      present = λ e m n.
          any-kept (same_item (entry_id e) inventory_auth_file)
            (λ r. not (text_eq r.type inventory_auth_file) || has ids r.id) t.inventory_items
            (λ r same. has_row ids r.id (entry_id e) (text_eq r.type inventory_auth_file) same (
              unique_from-has [] (current_ids entries) (entry_id e) n
                (current_ids-has entries e m n) refl))
            (k e m n);
      only =
          filter-passes (λ r. not (text_eq r.type inventory_auth_file) || has ids r.id)
            t.inventory_items;
    }

-- SyncAuthFiles without an error leaves a row for every auth file of the host that has an identifier,
-- and no row of type auth_file but those of the host.
pub sync_auth_files-IsSynced :
    (p : Platform) (present : Time) (entries : List HostAuthFileEntry) (s s' : State)
    → sync_auth_files p present entries s ≡ (ok tt, s')
    → IsSynced entries s'.store.db
unfolding sync_auth_files upsert_auth_files exec
sync_auth_files-IsSynced p present entries s s' h =
    let (known, s1, read, h1) = bind_ok _ _ s tt s' h in
    let (u, s2, added, h2) = bind_ok _ _ s1 tt s' h1 in
    let (v, s3, moved, h3) = bind_ok _ _ s2 tt s' h2 in
    let (w, s4, dropped, h4) = bind_ok _ _ s3 tt s' h3 in
    let (aliases, s5, entered, h5) = bind_ok _ _ s1 tt s2 added in
    let ids = unique_non_empty (current_ids entries) in
    subst (λ x. IsSynced entries x.db)
      (sym ((statement_ok (λ t. (ok tt, keep_auth_files ids t)) s4 tt s' h4).1))
      (keep-IsSynced entries s4.store.db (λ e m n.
        let inv = file_invariant (entry_id e) in
        kept_after _ s3 (ok tt) s4 (delete_instances-Keeps inv _) dropped (
          kept_after _ s2 (ok tt) s3 (migrate-Keeps inv p entries) moved (
            kept_after _ s5 (ok tt) s2 (delete_instances-Keeps inv aliases) h5
              (entries_have present [] aliases entries s1 s5 entered e m n)))))
