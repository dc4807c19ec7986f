-- ===== src/Access/Clean/Operations.antt =====
-- Each operation on keys keeps what its statements keep, on every branch, also when a statement fails
-- (internal/access/store.go, routing.go).
use cpa_access_manager.Base.{
  ◌≡◌, refl, Bool, true, false, ◌||◌, List, [], ◌∷◌, Option, none, some, arith, if◌then◌else◌,
}
use cpa_access_manager.Base.Text.{Text, text_eq, is_empty, trim_space, trim_space_idem}
use cpa_access_manager.Access.Types.{Time, Binding, Limits, GroupMember, KeyPatch, binding_group}
use cpa_access_manager.Access.Normalize.{Platform, normalize_target_type}
use cpa_access_manager.Access.Normalize.Laws.{normalize_target_type_idem}
use cpa_access_manager.Access.Bindings.{
  insert_bindings, replace_bindings, insert_binding, delete_bindings,
}
use cpa_access_manager.Access.Keys.{
  get_key, choose_token, new_key_row, insert_key, create_key_with_plain, update_key_row, rotate_row,
  rotate_key, if_given, apply_key_patch, update_key, delete_key_statement, delete_key,
}
use cpa_access_manager.Access.Keys.Token.{NewToken}
use cpa_access_manager.Access.Groups.{
  insert_members, replace_group_members, get_group, delete_members, insert_member,
}
use cpa_access_manager.Access.Scope.Depth.{IsLeaf}
use cpa_access_manager.Access.Clean.Reads.{
  get_key-ReadsOnly, get_group-ReadsOnly, choose_token-ReadsOnly,
}
use cpa_access_manager.Access.Clean.{IsTarget}
use cpa_access_manager.Access.Db.{Db, ◌>>◌, statement, exec}
use cpa_access_manager.Access.Db.Keeps.{
  Keeps, OnTables, Keeps, OnTables, keeps_rules, Keeps-pure, Keeps-if, Keeps-query_row, Keeps-bind,
  Keeps-statement, Keeps-exec,
}
use cpa_access_manager.Access.Db.Reads.{Keeps-of_ReadsOnly}
use cpa_access_manager.Access.Db.Schema.{KeyRow}
use cpa_access_manager.Access.Clean.Invariant.{Invariant, KeyUpdate}
use cpa_access_manager.Access.Db.Schema.{Tables}
use cpa_access_manager.Access.Clean.Rows.{null_float-StoredLimit}

module _ {Q : Tables → Type 0} (inv : Invariant Q) where
  -- A statement that runs only under a test may use the test.
  pub Keeps-tested :
      (b : Bool) (m rest : Db (Unit {0}))
      → Keeps (OnTables Q) rest
      → (b ≡ false → Keeps (OnTables Q) m)
      → Keeps (OnTables Q) (if b then rest else (m >> rest))
  Keeps-tested true m rest kr km = kr
  Keeps-tested false m rest kr km = Keeps-bind m (λ _. rest) (km refl) (λ _. kr)

  insert_binding-Keeps :
      (b : Binding) → IsTarget b → Keeps (OnTables Q) (statement (insert_binding b))
  insert_binding-Keeps b k = Keeps-statement (insert_binding b) (λ t h. inv.insert_binding t h b k)

  insert_bindings-Keeps :
      (key_id : Text) (bs : List Binding) → Keeps (OnTables Q) (insert_bindings key_id bs)
  unfolding insert_bindings
  insert_bindings-Keeps key_id [] = Keeps-pure tt
  insert_bindings-Keeps key_id (b ∷ bs) =
      Keeps-tested
        (is_empty (normalize_target_type b.target_type) || is_empty (trim_space b.target_id)) _ _
        (insert_bindings-Keeps key_id bs)
        (λ e. insert_binding-Keeps _ (record {
          type_given = ground arith;
          type_normal = normalize_target_type_idem b.target_type;
          id_given = ground arith;
          id_trimmed = trim_space_idem b.target_id;
        }))

  pub replace_bindings-Keeps :
      (key_id : Text) (bs : List Binding) → Keeps (OnTables Q) (replace_bindings key_id bs)
  unfolding replace_bindings
  replace_bindings-Keeps key_id bs =
      Keeps-bind _ _ (Keeps-exec (delete_bindings key_id) (λ t h. inv.delete_bindings t h key_id))
        (λ _. insert_bindings-Keeps key_id bs)

  insert_member-Keeps :
      (m : GroupMember) → IsLeaf m → Keeps (OnTables Q) (statement (insert_member m))
  insert_member-Keeps m k = Keeps-statement (insert_member m) (λ t h. inv.insert_member t h m k)

  normal-IsLeaf :
      (id type : Text) (member_id : Text)
      → text_eq (normalize_target_type type) binding_group ≡ false
      → IsLeaf (record {
        group_id = id;
        member_type = normalize_target_type type;
        member_id = member_id;
      })
  normal-IsLeaf id type member_id e = rw (normalize_target_type_idem type) (ground arith)

  insert_members-Keeps :
      (id : Text) (ms : List GroupMember) → Keeps (OnTables Q) (insert_members id ms)
  unfolding insert_members
  insert_members-Keeps id [] = Keeps-pure tt
  insert_members-Keeps id (m ∷ ms) =
      Keeps-if (is_empty (normalize_target_type m.member_type) || is_empty (trim_space m.member_id))
        _ _ (insert_members-Keeps id ms)
        (Keeps-tested (text_eq (normalize_target_type m.member_type) binding_group) _ _
          (insert_members-Keeps id ms)
          (λ e. insert_member-Keeps _ (normal-IsLeaf id m.member_type (trim_space m.member_id) e)))

  pub replace_group_members-Keeps :
      (id : Text) (ms : List GroupMember) → Keeps (OnTables Q) (replace_group_members id ms)
  unfolding replace_group_members
  replace_group_members-Keeps id ms =
      Keeps-bind _ _ (Keeps-exec (delete_members id) (λ t h. inv.delete_members t h id))
        (λ _. insert_members-Keeps id ms)

  insert_key-Keeps :
      (id name : Text) (n : NewToken) (b : Bool) (l : Limits) (now : Text)
      → Keeps (OnTables Q) (statement (insert_key (new_key_row id name n b l now)))
  unfolding new_key_row
  insert_key-Keeps id name n b l now =
      Keeps-statement (insert_key (new_key_row id name n b l now)) (λ t h.
        inv.insert_key t h _ (record {
          five_hour = null_float-StoredLimit l.five_hour_usd;
          weekly = null_float-StoredLimit l.weekly_usd;
          total = null_float-StoredLimit l.total_usd;
        }))

  pub get_key-Keeps : (id : Text) (present : Time) → Keeps (OnTables Q) (get_key id present)
  get_key-Keeps id present = Keeps-of_ReadsOnly _ (get_key-ReadsOnly id present)

  pub get_group-Keeps : (id : Text) → Keeps (OnTables Q) (get_group id)
  get_group-Keeps id = Keeps-of_ReadsOnly _ (get_group-ReadsOnly id)

  choose_token-Keeps :
      (p : Platform) (requested : Text) (read : Option Text)
      → Keeps (OnTables Q) (choose_token p requested read)
  choose_token-Keeps p requested read =
      Keeps-of_ReadsOnly _ (choose_token-ReadsOnly p requested read)

  pub create_key_with_plain-Keeps :
      (p : Platform) (name : Text) (b : Bool) (l : Limits) (bs : List Binding) (requested : Text)
      (token_read id_read : Option Text) (present : Time)
      → Keeps
          (OnTables Q)
          (create_key_with_plain p name b l bs requested token_read id_read present)
  unfolding create_key_with_plain
  create_key_with_plain-Keeps p name b l bs requested token_read id_read present =
      search
        (keeps_rules, choose_token-Keeps, insert_key-Keeps, replace_bindings-Keeps, get_key-Keeps)
        depth 9

  rotate_row-Keeps :
      (id : Text) (n : NewToken) (now : Text) → Keeps (OnTables Q) (statement (rotate_row id n now))
  rotate_row-Keeps id n now =
      Keeps-statement (rotate_row id n now) (λ t h. inv.rotate_row t h id n now)

  pub rotate_key-Keeps :
      (p : Platform) (id : Text) (read : Option Text) (present : Time)
      → Keeps (OnTables Q) (rotate_key p id read present)
  unfolding rotate_key
  rotate_key-Keeps p id read present = search (keeps_rules, rotate_row-Keeps, get_key-Keeps)

  pub if_given-Keeps :
      {A : Type 0} (o : Option A) (f : A → Db (Unit {0}))
      → ((a : A) → Keeps (OnTables Q) (f a))
      → Keeps (OnTables Q) (if_given o f)
  unfolding if_given
  if_given-Keeps none f k = Keeps-pure tt
  if_given-Keeps (some a) f k = k a

  pub update_key_row-Keeps :
      (id : Text) (f : KeyRow → KeyRow)
      → KeyUpdate f
      → Keeps (OnTables Q) (exec (update_key_row id f))
  update_key_row-Keeps id f k =
      Keeps-exec (update_key_row id f) (λ t h. inv.update_key_row t h id f k)

  apply_key_patch-Keeps :
      (id : Text) (patch : KeyPatch) (now : Text)
      → Keeps (OnTables Q) (apply_key_patch id patch now)
  unfolding apply_key_patch
  apply_key_patch-Keeps id patch now = Keeps-bind _ _ (Keeps-query_row _ _) (λ row.
      Keeps-bind _ _
        (if_given-Keeps patch.name _ (λ name. update_key_row-Keeps id _ (record {
          same_id = λ k. refl;
          same_hash = λ k. refl;
          stored = λ k h. record { five_hour = h.five_hour; weekly = h.weekly; total = h.total };
        })))
        (λ u.
          Keeps-bind _ _
            (if_given-Keeps patch.enabled _ (λ enabled. update_key_row-Keeps id _ (record {
              same_id = λ k. refl;
              same_hash = λ k. refl;
              stored =
                  λ k h. record { five_hour = h.five_hour; weekly = h.weekly; total = h.total };
            })))
            (λ u'.
              Keeps-bind _ _
                (if_given-Keeps patch.limits _ (λ l. update_key_row-Keeps id _ (record {
                  same_id = λ k. refl;
                  same_hash = λ k. refl;
                  stored = λ k h. record {
                    five_hour = null_float-StoredLimit l.five_hour_usd;
                    weekly = null_float-StoredLimit l.weekly_usd;
                    total = null_float-StoredLimit l.total_usd;
                  };
                })))
                (λ u''. if_given-Keeps patch.bindings _ (replace_bindings-Keeps id)))))

  pub update_key-Keeps :
      (id : Text) (patch : KeyPatch) (present : Time)
      → Keeps (OnTables Q) (update_key id patch present)
  unfolding update_key
  update_key-Keeps id patch present = search (keeps_rules, apply_key_patch-Keeps, get_key-Keeps)

  pub delete_key-Keeps : (id : Text) → Keeps (OnTables Q) (delete_key id)
  unfolding delete_key
  delete_key-Keeps id =
      Keeps-statement (delete_key_statement (trim_space id))
        (λ t h. inv.delete_key t h (trim_space id))
