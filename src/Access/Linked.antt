-- ===== src/Access/Linked.antt =====
-- The foreign keys and the unique columns of the tables of internal/access/store.go.
pub mod Rows
use cpa_access_manager.Base.{
  ◌≡◌, refl, ap, ◌∙◌, ◌∷◌, update_where, Bool, true, false, not, ◌&&◌, List, All, any, filter-All,
  arith, if◌then◌else◌,
}
use cpa_access_manager.Base.Text.{Text, text_eq}
use cpa_access_manager.Base.Distinct.{
  All-map, All-kept, All-set, any-kept, any-update_where, Distinct, Distinct-filter,
  Distinct-update_where, Distinct-set,
}
use cpa_access_manager.Access.Types.{Binding, GroupMember, UsageEntry}
use cpa_access_manager.Access.Bindings.{same_binding, key_exists, insert_binding, delete_bindings}
use cpa_access_manager.Access.Keys.{
  insert_key, update_key_row, rotate_row, delete_key_statement, delete_key_rows,
}
use cpa_access_manager.Access.Keys.Token.{NewToken}
use cpa_access_manager.Access.Groups.{
  same_member, insert_member, delete_members, insert_group, update_group_row,
  delete_group_statement,
}
use cpa_access_manager.Access.Prices.{same_price, upsert_price, clear_prices}
use cpa_access_manager.Access.Usage.{insert_usage, usage_row}
use cpa_access_manager.Access.Inventory.{same_item, upsert_inventory_row}
use cpa_access_manager.Access.AuthFiles.{
  drop_inferred, keep_auth_files, drop_instance_bindings, drop_instance_members,
}
use cpa_access_manager.Access.Routing.Session.{upsert_session, drop_expired, same_session}
use cpa_access_manager.Access.Clean.Invariant.{RunInvariant, Invariant, KeyUpdate}
use cpa_access_manager.Access.Db.{Result}
use cpa_access_manager.Access.Db.Schema.{
  Tables, KeyRow, GroupRow, InventoryRow, PriceRow, SessionRow,
}

abbrev pub HasKey : Tables → Text → Type 0
HasKey t id = any (λ k. text_eq k.id id) t.keys ≡ true

abbrev pub HasGroup : Tables → Text → Type 0
HasGroup t id = any (λ g. text_eq g.id id) t.groups ≡ true

-- Every reference has its row, and no two keys have the same identifier or the same hash.
pub record IsLinked (t : Tables) : Type 0 where
  pub bindings : All (λ b. HasKey t b.key_id) t.key_bindings
  pub usage : All (λ r. HasKey t r.key_id) t.usage_ledger
  pub sessions : All (λ r. HasKey t r.key_id) t.routing_sessions
  pub members : All (λ m. HasGroup t m.group_id) t.group_members
  pub ids : Distinct (λ k. k.id) t.keys
  pub hashes : Distinct (λ k. k.key_hash) t.keys

-- A change of the keys that loses none of their identifiers.
pub record SameKeys (t : Tables) (ks : List KeyRow) : Type 0 where
  pub kept : (id : Text) → HasKey t id → any (λ k. text_eq k.id id) ks ≡ true
  pub ids : Distinct (λ k. k.id) ks
  pub hashes : Distinct (λ k. k.key_hash) ks

module _ (t : Tables) (h : IsLinked t) where
  pub with_keys : (ks : List KeyRow) → SameKeys t ks → IsLinked (record t { keys = ks })
  with_keys ks k = record {
    bindings = All-map _ _ t.key_bindings (λ b. k.kept b.key_id) h.bindings;
    usage = All-map _ _ t.usage_ledger (λ r. k.kept r.key_id) h.usage;
    sessions = All-map _ _ t.routing_sessions (λ r. k.kept r.key_id) h.sessions;
    members = h.members;
    ids = k.ids;
    hashes = k.hashes;
  }

  pub with_bindings :
      (bs : List Binding)
      → All (λ b. HasKey t b.key_id) bs
      → IsLinked (record t { key_bindings = bs })
  with_bindings bs k = record {
    bindings = k;
    usage = h.usage;
    sessions = h.sessions;
    members = h.members;
    ids = h.ids;
    hashes = h.hashes;
  }

  pub with_members :
      (ms : List GroupMember)
      → All (λ m. HasGroup t m.group_id) ms
      → IsLinked (record t { group_members = ms })
  with_members ms k = record {
    bindings = h.bindings;
    usage = h.usage;
    sessions = h.sessions;
    members = k;
    ids = h.ids;
    hashes = h.hashes;
  }

  pub with_sessions :
      (rs : List SessionRow)
      → All (λ r. HasKey t r.key_id) rs
      → IsLinked (record t { routing_sessions = rs })
  with_sessions rs k = record {
    bindings = h.bindings;
    usage = h.usage;
    sessions = k;
    members = h.members;
    ids = h.ids;
    hashes = h.hashes;
  }

  pub with_groups :
      (gs : List GroupRow)
      → ((id : Text) → HasGroup t id → any (λ g. text_eq g.id id) gs ≡ true)
      → IsLinked (record t { groups = gs })
  with_groups gs k = record {
    bindings = h.bindings;
    usage = h.usage;
    sessions = h.sessions;
    members = All-map _ _ t.group_members (λ m. k m.group_id) h.members;
    ids = h.ids;
    hashes = h.hashes;
  }

  pub with_inventory : (rows : List InventoryRow) → IsLinked (record t { inventory_items = rows })
  with_inventory rows = record {
    bindings = h.bindings;
    usage = h.usage;
    sessions = h.sessions;
    members = h.members;
    ids = h.ids;
    hashes = h.hashes;
  }

  pub with_prices : (rows : List PriceRow) → IsLinked (record t { price_rules = rows })
  with_prices rows = record {
    bindings = h.bindings;
    usage = h.usage;
    sessions = h.sessions;
    members = h.members;
    ids = h.ids;
    hashes = h.hashes;
  }

-- The tables after a statement.
pub record Leaves {A : Type 0} (r : Result A × Tables) : Type 0 where
  pub linked : IsLinked r.1

module _ {A : Type 0} where
  pub Leaves-if :
      (b : Bool) (x y : Result A × Tables)
      → (b ≡ true → IsLinked x.1)
      → (b ≡ false → Leaves y)
      → Leaves (if b then x else y)
  Leaves-if true x y kx ky = record { linked = kx refl }
  Leaves-if false x y kx ky = ky refl

  pub Leaves-or_same :
      (b : Bool) (x : Result A × Tables) (r : Result A) (t : Tables)
      → (b ≡ true → IsLinked x.1)
      → IsLinked t
      → Leaves (if b then x else (r, t))
  Leaves-or_same true x r t k h = record { linked = k refl }
  Leaves-or_same false x r t k h = record { linked = h }

pub either : (b : Bool) (t t' : Tables) → IsLinked t → IsLinked t' → IsLinked (if b then t else t')
either true t t' h h' = h
either false t t' h h' = h'
