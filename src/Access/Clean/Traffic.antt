-- ===== src/Access/Clean/Traffic.antt =====
-- RecordUsage keeps what its statement keeps (internal/access/store.go).
use cpa_access_manager.Base.Text.{Text}
use cpa_access_manager.Access.Types.{Time, UsageEntry, PriceRule}
use cpa_access_manager.Access.Normalize.{Platform}
use cpa_access_manager.Access.Prices.{find_price_rule}
use cpa_access_manager.Access.Usage.{record_usage, insert_usage, infer_provider, priced}
use cpa_access_manager.Access.Clean.Reads.{find_price_rule-ReadsOnly}
use cpa_access_manager.Access.Db.{Result, ok, err, statement}
use cpa_access_manager.Access.Db.Keeps.{Keeps, OnTables, keeps_rules, Keeps-statement}
use cpa_access_manager.Access.Db.Reads.{Keeps-of_ReadsOnly}
use cpa_access_manager.Access.Clean.Routed.{inventory_by_type-Keeps}
use cpa_access_manager.Access.Clean.Invariant.{Invariant}
use cpa_access_manager.Access.Db.Schema.{Tables}

module _ {Q : Tables → Type 0} (inv : Invariant Q) where
  infer_provider-Keeps : (e : UsageEntry) → Keeps (OnTables Q) (infer_provider e)
  unfolding infer_provider
  infer_provider-Keeps e = search (keeps_rules, (inventory_by_type-Keeps inv))

  priced-Keeps : (e : UsageEntry) (r : Result PriceRule) → Keeps (OnTables Q) (priced e r)
  unfolding priced
  priced-Keeps e (ok rule) = search keeps_rules
  priced-Keeps e (err x) = search keeps_rules

  insert_usage-Keeps :
      (e : UsageEntry) (created : Text) → Keeps (OnTables Q) (statement (insert_usage e created))
  insert_usage-Keeps e created =
      Keeps-statement (insert_usage e created) (λ t h. inv.insert_usage t h e created)

  find_price_rule-Keeps :
      (provider model : Text) → Keeps (OnTables Q) (find_price_rule provider model)
  find_price_rule-Keeps provider model =
      Keeps-of_ReadsOnly _ (find_price_rule-ReadsOnly provider model)

  pub record_usage-Keeps :
      (p : Platform) (e : UsageEntry) (present : Time)
      → Keeps (OnTables Q) (record_usage p e present)
  unfolding record_usage
  record_usage-Keeps p e present =
      search
        (keeps_rules, infer_provider-Keeps, priced-Keeps, insert_usage-Keeps, find_price_rule-Keeps)
        depth 9
