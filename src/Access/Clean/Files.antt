-- ===== src/Access/Clean/Files.antt =====
-- The operations on the auth files of the host keep what their statements keep
-- (internal/access/store.go).
use cpa_access_manager.Base.{
  ◌≡◌, ◌≢◌, refl, sym, ◌∙◌, false, ◌||◌, List, [], ◌∷◌, ◌++◌, map, filter, arith,
}
use cpa_access_manager.Base.Text.{
  Text, is_empty, trim_space, replace_all, to_lower, trim_space_idem,
}
use cpa_access_manager.Access.Types.{Time, HostAuthFileEntry, binding_auth_id, binding_group}
use cpa_access_manager.Access.Normalize.{
  Platform, normalize_target_type, unique_non_empty, first_non_empty, provider_instance_id,
}
use cpa_access_manager.Access.Bindings.{insert_binding}
use cpa_access_manager.Access.Groups.{insert_member}
use cpa_access_manager.Access.AuthFiles.{
  upsert_entries, upsert_auth_files, delete_auth_file_provider_instances, drop_inferred, no_texts,
  then_insert, insert_all, all_or_none, copy_bindings, copy_members, drop_instance_bindings,
  drop_instance_members, is_instance_binding, is_instance_member, migrate_aliases, migrate_entries,
  migrate_auth_file_references, entry_auth_id, entry_aliases, keep_auth_files, sync_auth_files,
}
use cpa_access_manager.Access.HostFiles.{entry_id, entry_provider, auth_file_item, item_aliases}
use cpa_access_manager.Access.Scope.Depth.{IsLeaf}
use cpa_access_manager.Access.Clean.{IsTarget}
use cpa_access_manager.Access.Clean.Invariant.{Invariant, RunInvariant}
use cpa_access_manager.Access.Clean.Operations.{Keeps-tested}
use cpa_access_manager.Access.Clean.Routed.{upsert_inventory_item-Keeps}
use cpa_access_manager.Access.Db.{Result, ok, err, statement}
use cpa_access_manager.Access.Db.Keeps.{
  Keeps, OnTables, Keeps-pure, Keeps-if, Keeps-bind, Keeps-exec, Keeps-statement, Keeps-query,
  Keeps-transaction,
}
use cpa_access_manager.Access.Db.Schema.{Tables}

-- What an INSERT … SELECT keeps: each of its rows keeps it, and a refusal undoes them.
module _ {A : Type 0} {Q : Tables → Type 0} (insert : A → Tables → Result (Unit {0}) × Tables)
    (P : A → Type 0) (k : (t : Tables) → Q t → (a : A) → P a → Q (insert a t).1) where
  keeps_then :
      (r : Result (Unit {0}) × Tables) (f : Tables → Result (Unit {0}) × Tables)
      → Q r.1
      → ((t : Tables) → Q t → Q (f t).1)
      → Q (then_insert r f).1
  unfolding then_insert
  keeps_then (ok u, t) f h kf = kf t h
  keeps_then (err e, t) f h kf = h

  keeps_whole : (t : Tables) (r : Result (Unit {0}) × Tables) → Q t → Q r.1 → Q (all_or_none t r).1
  unfolding all_or_none
  keeps_whole t (ok u, t') h h' = h'
  keeps_whole t (err e, t') h h' = h

  keeps_copies :
      {B : Type 0} (g : B → A) (p : (b : B) → P (g b)) (bs : List B) (t : Tables)
      → Q t
      → Q (insert_all insert (map g bs) t).1
  unfolding insert_all
  keeps_copies g p [] t h = h
  keeps_copies g p (b ∷ bs) t h =
      keeps_then (insert (g b) t) _ (k t h (g b) (p b)) (λ t' h'. keeps_copies g p bs t' h')

  keeps_copy :
      {B : Type 0} (g : B → A) (p : (b : B) → P (g b)) (bs : List B) (t : Tables)
      → Q t
      → Q (all_or_none t (insert_all insert (map g bs) t)).1
  keeps_copy g p bs t h = keeps_whole t _ h (keeps_copies g p bs t h)

record IsId (id : Text) : Type 0 where
  given : is_empty id ≡ false
  trimmed : trim_space id ≡ id

auth_id_normal : normalize_target_type binding_auth_id ≡ binding_auth_id
unfolding normalize_target_type replace_all to_lower trim_space
auth_id_normal = refl

group_is_not : binding_auth_id ≢ binding_group
group_is_not = λ e. absurd (cc)

auth_id-IsLeaf :
    (group_id id : Text)
    → IsLeaf (record { group_id = group_id; member_type = binding_auth_id; member_id = id })
auth_id-IsLeaf group_id id = λ e. group_is_not (sym auth_id_normal ∙ e)

module _ {Q : Tables → Type 0} (inv : Invariant Q) where
  copy_bindings-Keeps :
      (auth_id provider_id : Text)
      → IsId auth_id
      → Keeps (OnTables Q) (statement (copy_bindings auth_id provider_id))
  unfolding copy_bindings
  copy_bindings-Keeps auth_id provider_id i = Keeps-statement _ (λ t h.
      keeps_copy insert_binding IsTarget inv.insert_binding _
        (λ b. record {
          type_given = refl;
          type_normal = auth_id_normal;
          id_given = i.given;
          id_trimmed = i.trimmed;
        })
        (filter (is_instance_binding provider_id) t.key_bindings) t h)

  copy_members-Keeps :
      (auth_id provider_id : Text)
      → Keeps (OnTables Q) (statement (copy_members auth_id provider_id))
  unfolding copy_members
  copy_members-Keeps auth_id provider_id = Keeps-statement _ (λ t h.
      keeps_copy insert_member IsLeaf inv.insert_member _ (λ m. auth_id-IsLeaf m.group_id auth_id)
        (filter (is_instance_member provider_id) t.group_members) t h)

  migrate_aliases-Keeps :
      (p : Platform) (auth_id provider : Text) (aliases : List Text)
      → IsId auth_id
      → Keeps (OnTables Q) (migrate_aliases p auth_id provider aliases)
  unfolding migrate_aliases
  migrate_aliases-Keeps p auth_id provider [] i = Keeps-pure tt
  migrate_aliases-Keeps p auth_id provider (a ∷ aliases) i =
      let id = provider_instance_id p provider a [] [] in
      Keeps-bind _ _ (copy_bindings-Keeps auth_id id i) (λ u.
        Keeps-bind _ _
          (Keeps-exec (drop_instance_bindings id) (λ t h. inv.drop_instance_bindings t h id))
          (λ u. Keeps-bind _ _ (copy_members-Keeps auth_id id) (λ u.
            Keeps-bind _ _
              (Keeps-exec (drop_instance_members id) (λ t h. inv.drop_instance_members t h id))
              (λ u. migrate_aliases-Keeps p auth_id provider aliases i))))

  migrate_entries-Keeps :
      (p : Platform) (entries : List HostAuthFileEntry)
      → Keeps (OnTables Q) (migrate_entries p entries)
  unfolding migrate_entries
  migrate_entries-Keeps p [] = Keeps-pure tt
  migrate_entries-Keeps p (e ∷ entries) =
      Keeps-tested inv (is_empty (entry_auth_id e) || is_empty (entry_provider e)) _ _
        (migrate_entries-Keeps p entries)
        (λ given.
          migrate_aliases-Keeps p (entry_auth_id e) (entry_provider e)
            (unique_non_empty (entry_aliases e))
            (record {
              given = ground (arith, given);
              trimmed = trim_space_idem (first_non_empty (e.id ∷ e.auth_index ∷ e.name ∷ []));
            }))

  pub delete_instances-Keeps :
      (aliases : List Text) → Keeps (OnTables Q) (delete_auth_file_provider_instances aliases)
  unfolding delete_auth_file_provider_instances
  delete_instances-Keeps aliases =
      Keeps-if (no_texts (unique_non_empty aliases)) _ _ (Keeps-pure tt)
        (Keeps-exec (drop_inferred (unique_non_empty aliases)) (λ t h. inv.drop_inferred t h _))

  pub upsert_entries-Keeps :
      (present : Time) (aliases : List Text) (entries : List HostAuthFileEntry)
      → Keeps (OnTables Q) (upsert_entries present aliases entries)
  unfolding upsert_entries
  upsert_entries-Keeps present aliases [] = Keeps-pure aliases
  upsert_entries-Keeps present aliases (e ∷ entries) =
      Keeps-if (is_empty (entry_id e)) _ _ (upsert_entries-Keeps present aliases entries) (
        Keeps-bind _ _ (upsert_inventory_item-Keeps inv present (auth_file_item present e))
          (λ u. upsert_entries-Keeps present (aliases ++ item_aliases e) entries))

  pub upsert_auth_files-Keeps :
      (present : Time) (entries : List HostAuthFileEntry)
      → Keeps (OnTables Q) (upsert_auth_files present entries)
  unfolding upsert_auth_files
  upsert_auth_files-Keeps present entries =
      Keeps-bind _ _ (upsert_entries-Keeps present [] entries) delete_instances-Keeps

  pub migrate-Keeps :
      (p : Platform) (entries : List HostAuthFileEntry)
      → Keeps (OnTables Q) (migrate_auth_file_references p entries)
  unfolding migrate_auth_file_references
  migrate-Keeps p entries = Keeps-transaction _ (migrate_entries-Keeps p entries)

module _ {Q : Tables → Type 0} (inv : RunInvariant Q) where
  pub sync_auth_files-Keeps :
      (p : Platform) (present : Time) (entries : List HostAuthFileEntry)
      → Keeps (OnTables Q) (sync_auth_files p present entries)
  unfolding sync_auth_files
  sync_auth_files-Keeps p present entries = Keeps-bind _ _ (Keeps-query _) (λ known.
      Keeps-bind _ _ (upsert_auth_files-Keeps inv.each present entries) (λ u.
        Keeps-bind _ _ (migrate-Keeps inv.each p entries) (λ u.
          Keeps-bind _ _ (delete_instances-Keeps inv.each _)
            (λ u. Keeps-exec (keep_auth_files _) (λ t h. inv.keep_auth_files t h _)))))
