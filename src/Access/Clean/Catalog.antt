-- ===== src/Access/Clean/Catalog.antt =====
-- The operations on groups and price rules keep what their
-- statements keep (internal/access/store.go).
use cpa_access_manager.Base.{refl, ◌≡◌, false, ◌||◌, List, [], ◌∷◌, Option, arith}
use cpa_access_manager.Base.Text.{Text, is_empty, trim_space, trim_space_idem}
use cpa_access_manager.Access.Types.{Time, GroupMember, GroupPatch, PriceRule}
use cpa_access_manager.Access.Time.{stamp}
use cpa_access_manager.Access.Normalize.{normalize_provider}
use cpa_access_manager.Access.Normalize.Laws.{normalize_provider_idem}
use cpa_access_manager.Access.Groups.{
  create_group, apply_group_patch, update_group, delete_group, insert_group, update_group_row,
  delete_group_statement,
}
use cpa_access_manager.Access.Prices.{
  upsert_price_rules_tx, upsert_price_rules, replace_price_rules, price_row, upsert_price,
  clear_prices,
}
use cpa_access_manager.Access.Clean.{IsPrice}
use cpa_access_manager.Access.Clean.Operations.{
  Keeps-tested, if_given-Keeps, replace_group_members-Keeps, get_group-Keeps,
}
use cpa_access_manager.Access.Db.{statement, exec}
use cpa_access_manager.Access.Db.Keeps.{
  Keeps, OnTables, keeps_rules, Keeps-pure, Keeps-query_row, Keeps-bind, Keeps-statement,
  Keeps-exec, Keeps-transaction,
}
use cpa_access_manager.Access.Db.Schema.{GroupRow}
use cpa_access_manager.Access.Clean.Invariant.{Invariant, GroupUpdate}
use cpa_access_manager.Access.Db.Schema.{Tables}

module _ {Q : Tables → Type 0} (inv : Invariant Q) where
  insert_group-Keeps : (g : GroupRow) → Keeps (OnTables Q) (statement (insert_group g))
  insert_group-Keeps g = Keeps-statement (insert_group g) (λ t h. inv.insert_group t h g)

  pub create_group-Keeps :
      (id name description : Text) (ms : List GroupMember) (read : Option Text) (present : Time)
      → Keeps (OnTables Q) (create_group id name description ms read present)
  unfolding create_group
  create_group-Keeps id name description ms read present =
      search
        (keeps_rules, insert_group-Keeps, (replace_group_members-Keeps inv), (get_group-Keeps inv))
        depth 9

  update_group_row-Keeps :
      (id : Text) (f : GroupRow → GroupRow)
      → GroupUpdate f
      → Keeps (OnTables Q) (exec (update_group_row id f))
  update_group_row-Keeps id f k =
      Keeps-exec (update_group_row id f) (λ t h. inv.update_group_row t h id f k)

  apply_group_patch-Keeps :
      (id : Text) (patch : GroupPatch) (now : Text)
      → Keeps (OnTables Q) (apply_group_patch id patch now)
  unfolding apply_group_patch
  apply_group_patch-Keeps id patch now = Keeps-bind _ _ (Keeps-query_row _ _) (λ row.
      Keeps-bind _ _
        ((if_given-Keeps inv) patch.name _
          (λ name. update_group_row-Keeps id _ (record { same_id = λ g. refl })))
        (λ u.
          Keeps-bind _ _
            ((if_given-Keeps inv) patch.description _
              (λ description. update_group_row-Keeps id _ (record { same_id = λ g. refl })))
            (λ v. (if_given-Keeps inv) patch.members _ (λ members.
              Keeps-bind _ _ ((replace_group_members-Keeps inv) id members)
                (λ w. update_group_row-Keeps id _ (record { same_id = λ g. refl }))))))

  pub update_group-Keeps :
      (id : Text) (patch : GroupPatch) (present : Time)
      → Keeps (OnTables Q) (update_group id patch present)
  unfolding update_group
  update_group-Keeps id patch present =
      search (keeps_rules, apply_group_patch-Keeps, (get_group-Keeps inv))

  pub delete_group-Keeps : (id : Text) → Keeps (OnTables Q) (delete_group id)
  unfolding delete_group
  delete_group-Keeps id =
      Keeps-statement (delete_group_statement (trim_space id))
        (λ t h. inv.delete_group t h (trim_space id))

  price_row-IsPrice :
      (now : Text) (rule : PriceRule)
      → is_empty (normalize_provider rule.provider) || is_empty (trim_space rule.model) ≡ false
      → IsPrice (price_row now rule)
  unfolding price_row
  price_row-IsPrice now rule e = record {
    provider_given = ground arith;
    provider_normal = normalize_provider_idem rule.provider;
    model_given = ground arith;
    model_trimmed = trim_space_idem rule.model;
  }

  upsert_price_rules_tx-Keeps :
      (rules : List PriceRule) (now : Text) → Keeps (OnTables Q) (upsert_price_rules_tx rules now)
  unfolding upsert_price_rules_tx price_row
  upsert_price_rules_tx-Keeps [] now = Keeps-pure tt
  upsert_price_rules_tx-Keeps (rule ∷ rules) now =
      (Keeps-tested inv)
        (is_empty (normalize_provider rule.provider) || is_empty (trim_space rule.model)) _ _
        (upsert_price_rules_tx-Keeps rules now)
        (λ e.
          Keeps-exec (upsert_price (price_row now rule))
            (λ t h. inv.upsert_price t h (price_row now rule) (price_row-IsPrice now rule e)))

  pub upsert_price_rules-Keeps :
      (rules : List PriceRule) (present : Time)
      → Keeps (OnTables Q) (upsert_price_rules rules present)
  unfolding upsert_price_rules
  upsert_price_rules-Keeps rules present =
      Keeps-transaction _ (upsert_price_rules_tx-Keeps rules (stamp present))

  pub replace_price_rules-Keeps :
      (rules : List PriceRule) (present : Time)
      → Keeps (OnTables Q) (replace_price_rules rules present)
  unfolding replace_price_rules
  replace_price_rules-Keeps rules present = Keeps-transaction _ (
      Keeps-bind _ _ (Keeps-exec clear_prices inv.clear_prices)
        (λ u. upsert_price_rules_tx-Keeps rules (stamp present)))
