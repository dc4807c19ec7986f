-- ===== src/Access/Clean/Rows.antt =====
-- Each statement on the tables keeps them clean (internal/access/store.go, routing.go).
use cpa_access_manager.Base.{
  not, ◌&&◌, List, Option, none, some, filter-All, update_where-All, arith,
}
use cpa_access_manager.Base.Int.{ℤ}
use cpa_access_manager.Base.Text.{Text, text_eq}
use cpa_access_manager.Access.Types.{Binding, GroupMember, UsageEntry}
use cpa_access_manager.Access.Limits.{null_float}
use cpa_access_manager.Access.Bindings.{insert_binding, delete_bindings}
use cpa_access_manager.Access.Keys.{insert_key, update_key_row, rotate_row, delete_key_statement}
use cpa_access_manager.Access.Keys.Token.{NewToken}
use cpa_access_manager.Access.Groups.{
  insert_member, delete_members, insert_group, update_group_row, delete_group_statement,
}
use cpa_access_manager.Access.Prices.{upsert_price, clear_prices}
use cpa_access_manager.Access.Usage.{insert_usage}
use cpa_access_manager.Access.Inventory.{upsert_inventory_row}
use cpa_access_manager.Access.Routing.Session.{upsert_session, drop_expired}
use cpa_access_manager.Access.Scope.Depth.{IsLeaf}
use cpa_access_manager.Access.AuthFiles.{
  drop_inferred, keep_auth_files, drop_instance_bindings, drop_instance_members,
  is_instance_binding, is_instance_member,
}
use cpa_access_manager.Access.Clean.Invariant.{RunInvariant, Invariant, KeyUpdate}
use cpa_access_manager.Access.Clean.{StoredLimit, HasStoredLimits, IsTarget, IsPrice, IsClean}
use cpa_access_manager.Access.Db.Schema.{
  Tables, KeyRow, GroupRow, InventoryRow, PriceRow, SessionRow,
}

pub null_float-StoredLimit : (l : Option ℤ) → StoredLimit (null_float l)
unfolding null_float
null_float-StoredLimit none = tt
null_float-StoredLimit (some v) = ground arith

module _ (t : Tables) (h : IsClean t) where
  insert_binding-IsClean : (b : Binding) → IsTarget b → IsClean (insert_binding b t).1
  unfolding insert_binding
  insert_binding-IsClean b k = ground (arith, k, h)

  delete_bindings-IsClean : (id : Text) → IsClean (delete_bindings id t)
  unfolding delete_bindings
  delete_bindings-IsClean id = record {
    flat = h.flat;
    limits = h.limits;
    prices = h.prices;
    targets = filter-All IsTarget (λ b. not (text_eq b.key_id id)) t.key_bindings h.targets;
  }

  insert_key-IsClean : (k : KeyRow) → HasStoredLimits k → IsClean (insert_key k t).1
  unfolding insert_key
  insert_key-IsClean k l = ground (arith, l, h)

  set_key-IsClean :
      (id : Text) (f : KeyRow → KeyRow)
      → ((k : KeyRow) → HasStoredLimits k → HasStoredLimits (f k))
      → IsClean (update_key_row id f t)
  unfolding update_key_row
  set_key-IsClean id f k = record {
    flat = h.flat;
    targets = h.targets;
    prices = h.prices;
    limits = update_where-All HasStoredLimits (λ x. text_eq x.id id) f t.keys k h.limits;
  }

  update_key_row-IsClean :
      (id : Text) (f : KeyRow → KeyRow) → KeyUpdate f → IsClean (update_key_row id f t)
  update_key_row-IsClean id f k = set_key-IsClean id f k.stored

  rotate_row-IsClean : (id : Text) (n : NewToken) (now : Text) → IsClean (rotate_row id n now t).1
  unfolding rotate_row
  rotate_row-IsClean id n now = ground (
    arith,
    h,
    set_key-IsClean id
        (λ k. record k {
          key_hash = n.hash;
          key_prefix = n.prefix;
          key_plain = n.plain;
          updated_at = now;
        })
        (λ k l. record { five_hour = l.five_hour; weekly = l.weekly; total = l.total }),
  )

  delete_key-IsClean : (id : Text) → IsClean (delete_key_statement id t).1
  unfolding delete_key_statement
  delete_key-IsClean id = ground (
    arith,
    h,
    filter-All HasStoredLimits (λ k. not (text_eq k.id id)) t.keys h.limits,
    filter-All IsTarget (λ b. not (text_eq b.key_id id)) t.key_bindings h.targets,
  )

  insert_member-IsClean : (m : GroupMember) → IsLeaf m → IsClean (insert_member m t).1
  unfolding insert_member
  insert_member-IsClean m k = ground (arith, k, h)

  delete_members-IsClean : (id : Text) → IsClean (delete_members id t)
  unfolding delete_members
  delete_members-IsClean id = record {
    limits = h.limits;
    targets = h.targets;
    prices = h.prices;
    flat = filter-All IsLeaf (λ m. not (text_eq m.group_id id)) t.group_members h.flat;
  }

  insert_group-IsClean : (g : GroupRow) → IsClean (insert_group g t).1
  unfolding insert_group
  insert_group-IsClean g = ground (arith, h)

  update_group_row-IsClean :
      (id : Text) (f : GroupRow → GroupRow) → IsClean (update_group_row id f t)
  unfolding update_group_row
  update_group_row-IsClean id f = record {
    flat = h.flat;
    limits = h.limits;
    targets = h.targets;
    prices = h.prices;
  }

  delete_group-IsClean : (id : Text) → IsClean (delete_group_statement id t).1
  unfolding delete_group_statement
  delete_group-IsClean id =
      ground (arith, h, filter-All IsLeaf (λ m. not (text_eq m.group_id id)) t.group_members h.flat)

  upsert_price-IsClean : (r : PriceRow) → IsPrice r → IsClean (upsert_price r t)
  unfolding upsert_price
  upsert_price-IsClean r k = ground (
    arith,
    h,
    k,
    update_where-All IsPrice (λ x. text_eq x.provider r.provider && text_eq x.model r.model)
        (λ old. r) t.price_rules (λ x l. k) h.prices,
  )

  clear_prices-IsClean : IsClean (clear_prices t)
  unfolding clear_prices
  clear_prices-IsClean = record {
    flat = h.flat;
    limits = h.limits;
    targets = h.targets;
    prices = tt;
  }

  insert_usage-IsClean : (e : UsageEntry) (created : Text) → IsClean (insert_usage e created t).1
  unfolding insert_usage
  insert_usage-IsClean e created = ground (arith, h)

  upsert_session-IsClean : (r : SessionRow) → IsClean (upsert_session r t).1
  unfolding upsert_session
  upsert_session-IsClean r = ground (arith, h)

  drop_expired-IsClean : (now : Text) → IsClean (drop_expired now t)
  unfolding drop_expired
  drop_expired-IsClean now = record {
    flat = h.flat;
    limits = h.limits;
    targets = h.targets;
    prices = h.prices;
  }

  upsert_inventory_row-IsClean : (r : InventoryRow) → IsClean (upsert_inventory_row r t)
  unfolding upsert_inventory_row
  upsert_inventory_row-IsClean r = ground (arith, h)

  inventory-IsClean : (rows : List InventoryRow) → IsClean (record t { inventory_items = rows })
  inventory-IsClean rows = record {
    flat = h.flat;
    limits = h.limits;
    targets = h.targets;
    prices = h.prices;
  }

  drop_instance_bindings-IsClean : (id : Text) → IsClean (drop_instance_bindings id t)
  unfolding drop_instance_bindings
  drop_instance_bindings-IsClean id = record {
    flat = h.flat;
    limits = h.limits;
    prices = h.prices;
    targets = filter-All IsTarget (λ b. not (is_instance_binding id b)) t.key_bindings h.targets;
  }

  drop_instance_members-IsClean : (id : Text) → IsClean (drop_instance_members id t)
  unfolding drop_instance_members
  drop_instance_members-IsClean id = record {
    limits = h.limits;
    targets = h.targets;
    prices = h.prices;
    flat = filter-All IsLeaf (λ m. not (is_instance_member id m)) t.group_members h.flat;
  }

IsClean-invariant : Invariant IsClean
unfolding drop_inferred
IsClean-invariant = record {
  insert_binding = insert_binding-IsClean;
  delete_bindings = delete_bindings-IsClean;
  insert_key = insert_key-IsClean;
  update_key_row = update_key_row-IsClean;
  rotate_row = rotate_row-IsClean;
  delete_key = delete_key-IsClean;
  insert_member = insert_member-IsClean;
  delete_members = delete_members-IsClean;
  insert_group = insert_group-IsClean;
  update_group_row = λ t h id f k. update_group_row-IsClean t h id f;
  delete_group = delete_group-IsClean;
  upsert_price = upsert_price-IsClean;
  clear_prices = clear_prices-IsClean;
  insert_usage = insert_usage-IsClean;
  upsert_session = upsert_session-IsClean;
  drop_expired = drop_expired-IsClean;
  upsert_inventory_row = upsert_inventory_row-IsClean;
  drop_instance_bindings = drop_instance_bindings-IsClean;
  drop_instance_members = drop_instance_members-IsClean;
  drop_inferred = λ t h ids. inventory-IsClean t h _;
}

pub IsClean-run : RunInvariant IsClean
unfolding keep_auth_files
IsClean-run = record {
  each = IsClean-invariant;
  keep_auth_files = λ t h ids. inventory-IsClean t h _;
}
