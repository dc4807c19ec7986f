-- ===== src/Access/Linked/Rows.antt =====
-- Each statement on the tables of internal/access/store.go keeps their foreign keys and unique columns.
use cpa_access_manager.Base.{
  ◌≡◌, refl, ap, ◌∙◌, ◌∷◌, update_where, true, not, ◌&&◌, any, filter-All, arith,
}
use cpa_access_manager.Base.Text.{Text, text_eq}
use cpa_access_manager.Base.Distinct.{
  All-kept, All-set, any-kept, any-update_where, Distinct, Distinct-filter, Distinct-update_where,
  Distinct-set,
}
use cpa_access_manager.Access.Types.{Binding, GroupMember, UsageEntry}
use cpa_access_manager.Access.Bindings.{same_binding, key_exists, insert_binding, delete_bindings}
use cpa_access_manager.Access.Keys.{
  insert_key, update_key_row, rotate_row, delete_key_statement, delete_key_rows,
}
use cpa_access_manager.Access.Keys.Token.{NewToken}
use cpa_access_manager.Access.Groups.{
  same_member, insert_member, delete_members, insert_group, update_group_row,
  delete_group_statement,
}
use cpa_access_manager.Access.Prices.{same_price, upsert_price, clear_prices}
use cpa_access_manager.Access.Usage.{insert_usage, usage_row}
use cpa_access_manager.Access.Inventory.{same_item, upsert_inventory_row}
use cpa_access_manager.Access.AuthFiles.{
  drop_inferred, keep_auth_files, drop_instance_bindings, drop_instance_members,
}
use cpa_access_manager.Access.Routing.Session.{upsert_session, drop_expired, same_session}
use cpa_access_manager.Access.Clean.Invariant.{RunInvariant, Invariant, KeyUpdate}
use cpa_access_manager.Access.Db.Schema.{
  Tables, KeyRow, GroupRow, InventoryRow, PriceRow, SessionRow,
}
use cpa_access_manager.Access.Linked.{
  HasKey, IsLinked, Leaves, with_keys, with_bindings, with_members, with_sessions, with_groups,
  with_inventory, with_prices, Leaves-if, Leaves-or_same, either,
}

insert_binding-IsLinked : (t : Tables) → IsLinked t → (b : Binding) → Leaves (insert_binding b t)
unfolding insert_binding key_exists
insert_binding-IsLinked t h b =
    Leaves-if (any (same_binding b) t.key_bindings) _ _ (λ e. h)
      (λ e.
        Leaves-or_same (key_exists b.key_id t) _ _ _
          (λ known. with_bindings t h (b ∷ t.key_bindings) (known, h.bindings)) h)

insert_member-IsLinked : (t : Tables) → IsLinked t → (m : GroupMember) → Leaves (insert_member m t)
unfolding insert_member
insert_member-IsLinked t h m =
    Leaves-if (any (same_member m) t.group_members) _ _ (λ e. h)
      (λ e.
        Leaves-or_same (any (λ g. text_eq g.id m.group_id) t.groups) _ _ _
          (λ known. with_members t h (m ∷ t.group_members) (known, h.members)) h)

insert_key-IsLinked : (t : Tables) → IsLinked t → (k : KeyRow) → Leaves (insert_key k t)
unfolding insert_key any
insert_key-IsLinked t h k =
    Leaves-if (any (λ x. text_eq x.id k.id) t.keys) _ _ (λ e. h)
      (λ fresh.
        Leaves-if (any (λ x. text_eq x.key_hash k.key_hash) t.keys) _ _ (λ e. h)
          (λ unique. record {
            linked = with_keys t h (k ∷ t.keys) (record {
              kept = λ id known. ground (arith, known);
              ids = (fresh, h.ids);
              hashes = (unique, h.hashes);
            });
          }))

set_keys :
    (t : Tables) (id : Text) (f : KeyRow → KeyRow)
    → IsLinked t
    → ((k : KeyRow) → (f k).id ≡ k.id)
    → Distinct (λ k. k.key_hash) (update_where (λ k. text_eq k.id id) f t.keys)
    → IsLinked (update_key_row id f t)
unfolding update_key_row
set_keys t id f h same hashes = with_keys t h _ (record {
  kept = λ i known.
      any-update_where (λ k. text_eq k.id i) _ f t.keys (λ k. ap (λ s. text_eq s i) (same k))
      ∙ known;
  ids = Distinct-update_where (λ k. k.id) _ f t.keys same h.ids;
  hashes = hashes;
})

update_key_row-IsLinked :
    (t : Tables)
    → IsLinked t
    → (id : Text) (f : KeyRow → KeyRow) → KeyUpdate f
    → IsLinked (update_key_row id f t)
update_key_row-IsLinked t h id f k =
    set_keys t id f h k.same_id
      (Distinct-update_where (λ x. x.key_hash) _ f t.keys k.same_hash h.hashes)

rotate_row-IsLinked :
    (t : Tables)
    → IsLinked t
    → (id : Text) (n : NewToken) (now : Text) → Leaves (rotate_row id n now t)
unfolding rotate_row
rotate_row-IsLinked t h id n now =
    Leaves-if (not (any (λ k. text_eq k.id id) t.keys)) _ _ (λ e. h)
      (λ e.
        Leaves-if (any (λ k. text_eq k.key_hash n.hash && not (text_eq k.id id)) t.keys) _ _
          (λ taken. h)
          (λ free. record {
            linked =
                set_keys t id _ h (λ k. refl)
                  (Distinct-set (λ k. k.id) (λ k. k.key_hash) _ id n.hash (λ k. refl) (λ k. refl)
                    t.keys h.ids h.hashes free);
          }))

-- Another key is still there when the keys with one identifier are gone.
other_kept :
    (t : Tables) (id : Text) (other : Text)
    → not (text_eq other id) ≡ true
    → HasKey t other
    → HasKey (delete_key_rows id t) other
unfolding delete_key_rows
other_kept t id other n known =
    any-kept (λ k. text_eq k.id other) (λ k. not (text_eq k.id id)) t.keys
      (λ k e. ground (arith, e, n)) known

delete_key-IsLinked : (t : Tables) → IsLinked t → (id : Text) → Leaves (delete_key_statement id t)
unfolding delete_key_statement delete_key_rows
delete_key-IsLinked t h id =
    Leaves-or_same (any (λ k. text_eq k.id id) t.keys) _ _ _
      (λ found. record {
        bindings = All-kept _ _ _ t.key_bindings (λ b. other_kept t id b.key_id) h.bindings;
        usage = All-kept _ _ _ t.usage_ledger (λ r. other_kept t id r.key_id) h.usage;
        sessions = All-kept _ _ _ t.routing_sessions (λ r. other_kept t id r.key_id) h.sessions;
        members = h.members;
        ids = Distinct-filter _ _ t.keys h.ids;
        hashes = Distinct-filter _ _ t.keys h.hashes;
      })
      h

insert_group-IsLinked : (t : Tables) → IsLinked t → (g : GroupRow) → Leaves (insert_group g t)
unfolding insert_group any
insert_group-IsLinked t h g =
    Leaves-if (any (λ x. text_eq x.id g.id) t.groups) _ _ (λ e. h)
      (λ fresh. record {
        linked = with_groups t h (g ∷ t.groups) (λ id known. ground (arith, known));
      })

delete_group-IsLinked :
    (t : Tables) → IsLinked t → (id : Text) → Leaves (delete_group_statement id t)
unfolding delete_group_statement
delete_group-IsLinked t h id =
    Leaves-or_same (any (λ g. text_eq g.id id) t.groups) _ _ _
      (λ found. record {
        bindings = h.bindings;
        usage = h.usage;
        sessions = h.sessions;
        ids = h.ids;
        hashes = h.hashes;
        members =
            All-kept _ _ _ t.group_members
              (λ m n known.
                any-kept (λ g. text_eq g.id m.group_id) _ t.groups (λ g e. ground (arith, e, n))
                  known)
              h.members;
      })
      h

insert_usage-IsLinked :
    (t : Tables)
    → IsLinked t
    → (e : UsageEntry) (created : Text) → Leaves (insert_usage e created t)
unfolding insert_usage usage_row key_exists
insert_usage-IsLinked t h e created =
    Leaves-or_same (key_exists e.key_id t) _ _ _
      (λ known. record {
        bindings = h.bindings;
        usage = (known, h.usage);
        sessions = h.sessions;
        members = h.members;
        ids = h.ids;
        hashes = h.hashes;
      })
      h

upsert_session-IsLinked : (t : Tables) → IsLinked t → (r : SessionRow) → Leaves (upsert_session r t)
unfolding upsert_session key_exists
upsert_session-IsLinked t h r =
    Leaves-if (any (same_session r.key_id r.session_hash) t.routing_sessions) _ _
      (λ found. with_sessions t h _ (
        All-set _ (same_session r.key_id r.session_hash) (λ x. r) t.routing_sessions
          (λ x e known. ground (arith, e, known)) h.sessions))
      (λ e.
        Leaves-or_same (key_exists r.key_id t) _ _ _
          (λ known. with_sessions t h (r ∷ t.routing_sessions) (known, h.sessions)) h)

upsert_price-IsLinked : (t : Tables) → IsLinked t → (r : PriceRow) → IsLinked (upsert_price r t)
unfolding upsert_price
upsert_price-IsLinked t h r =
    either (any (same_price r.provider r.model) t.price_rules) _ _ (with_prices t h _)
      (with_prices t h _)

upsert_inventory_row-IsLinked :
    (t : Tables) → IsLinked t → (r : InventoryRow) → IsLinked (upsert_inventory_row r t)
unfolding upsert_inventory_row
upsert_inventory_row-IsLinked t h r =
    either (any (same_item r.id r.type) t.inventory_items) _ _ (with_inventory t h _)
      (with_inventory t h _)

IsLinked-invariant : Invariant IsLinked
unfolding delete_bindings delete_members update_group_row clear_prices drop_expired drop_inferred
    drop_instance_bindings drop_instance_members
IsLinked-invariant = record {
  insert_binding = λ t h b k. (insert_binding-IsLinked t h b).linked;
  delete_bindings = λ t h id. with_bindings t h _ (filter-All _ _ t.key_bindings h.bindings);
  insert_key = λ t h k l. (insert_key-IsLinked t h k).linked;
  update_key_row = update_key_row-IsLinked;
  rotate_row = λ t h id n now. (rotate_row-IsLinked t h id n now).linked;
  delete_key = λ t h id. (delete_key-IsLinked t h id).linked;
  insert_member = λ t h m k. (insert_member-IsLinked t h m).linked;
  delete_members = λ t h id. with_members t h _ (filter-All _ _ t.group_members h.members);
  insert_group = λ t h g. (insert_group-IsLinked t h g).linked;
  update_group_row = λ t h id f k. with_groups t h _ (λ i known.
      any-update_where (λ g. text_eq g.id i) _ f t.groups (λ g. ap (λ s. text_eq s i) (k.same_id g))
      ∙ known);
  delete_group = λ t h id. (delete_group-IsLinked t h id).linked;
  upsert_price = λ t h r k. upsert_price-IsLinked t h r;
  clear_prices = λ t h. with_prices t h _;
  insert_usage = λ t h e created. (insert_usage-IsLinked t h e created).linked;
  upsert_session = λ t h r. (upsert_session-IsLinked t h r).linked;
  drop_expired = λ t h now. with_sessions t h _ (filter-All _ _ t.routing_sessions h.sessions);
  upsert_inventory_row = upsert_inventory_row-IsLinked;
  drop_inferred = λ t h ids. with_inventory t h _;
  drop_instance_bindings = λ t h id. with_bindings t h _ (filter-All _ _ t.key_bindings h.bindings);
  drop_instance_members = λ t h id. with_members t h _ (filter-All _ _ t.group_members h.members);
}

pub IsLinked-run : RunInvariant IsLinked
unfolding keep_auth_files
IsLinked-run = record {
  each = IsLinked-invariant;
  keep_auth_files = λ t h ids. with_inventory t h _;
}
