-- ===== src/Access/Prices/Atomic.antt =====
-- ReplacePriceRules and UpsertPriceRules of internal/access/store.go write all rules or none.
use cpa_access_manager.Base.{
  ◌≡◌, refl, sym, subst, ap, ◌∙◌, ◌||◌, Bool, true, false, List, [], ◌∷◌, if◌then◌else◌,
}
use cpa_access_manager.Base.Text.{Text, is_empty}
use cpa_access_manager.Access.Types.{Time, PriceRule, Error}
use cpa_access_manager.Access.Time.{stamp}
use cpa_access_manager.Access.Prices.{
  upsert_price_rules_tx, upsert_price_rules, replace_price_rules, price_row, upsert_price,
  clear_prices,
}
use cpa_access_manager.Access.Prices.Written.{IsPriced, with_rule, with_rules, with_rules-IsPriced}
use cpa_access_manager.Access.Db.{Result, ok, err, State, Db, ◌>>◌, exec}
use cpa_access_manager.Access.Db.Success.{
  bind_ok, pure_ok, statement_ok, transaction_ok, transaction_err,
}
use cpa_access_manager.Access.Db.Schema.{Tables}

exec_ok : (f : Tables → Tables) (s s' : State) → exec f s ≡ (ok tt, s') → s'.store.db ≡ f s.store.db
unfolding exec
exec_ok f s s' h = ap (λ x. x.db) (statement_ok (λ t. (ok tt, f t)) s tt s' h).1

unless_written :
    (b : Bool) (f : Tables → Tables) (rest : Db (Unit {0})) (s s' : State)
    → (if b then rest else (exec f >> rest)) s ≡ (ok tt, s')
    → (t : State) × (t.store.db ≡ (if b then s.store.db else f s.store.db)) × (rest t ≡ (ok tt, s'))
unless_written true f rest s s' h = (s, refl, h)
unless_written false f rest s s' h =
    let (u, t, done, h1) = bind_ok (exec f) (λ u. rest) s tt s' h in (t, exec_ok f s t done, h1)

upsert_price_rules_tx_ok :
    (rules : List PriceRule) (now : Text) (s s' : State)
    → upsert_price_rules_tx rules now s ≡ (ok tt, s')
    → s'.store.db ≡ with_rules rules now s.store.db
unfolding upsert_price_rules_tx with_rules with_rule
upsert_price_rules_tx_ok [] now s s' h = ap (λ x. x.store.db) (pure_ok tt s tt s' h).1
upsert_price_rules_tx_ok (rule ∷ rules) now s s' h =
    let row = price_row now rule in
    let (t, e, h1) =
      unless_written (is_empty row.provider || is_empty row.model) (upsert_price row)
        (upsert_price_rules_tx rules now) s s' h in
    upsert_price_rules_tx_ok rules now t s' h1 ∙ ap (with_rules rules now) e

-- The outcome of an operation that either leaves the tables alone, with an error, or makes them satisfy
-- `After`, without one.
abbrev pub AllOrNothing : Result (Unit {0}) × State → Tables → (Tables → Type 0) → Type 0
AllOrNothing (ok u, s') before After = After s'.store.db
AllOrNothing (err e, s') before After = s'.store.db ≡ before

all_or_nothing :
    (r : Result (Unit {0}) × State) (before : Tables) (After : Tables → Type 0)
    → ((s' : State) → r ≡ (ok tt, s') → After s'.store.db)
    → ((e : Error) (s' : State) → r ≡ (err e, s') → s'.store.db ≡ before)
    → AllOrNothing r before After
all_or_nothing (ok u, s') before After k l = k s' refl
all_or_nothing (err e, s') before After k l = l e s' refl

IsPriced-by :
    (rules : List PriceRule) (now : Text) (t t' : Tables)
    → t' ≡ with_rules rules now t
    → IsPriced rules now t t'
IsPriced-by rules now t t' h =
    subst (IsPriced rules now t) (sym h) (with_rules-IsPriced rules now t)

-- Whichever statement fails, ReplacePriceRules leaves either the tables as they were, and returns an
-- error, or a price table in which each provider and model that is not blank has the price of the last
-- given rule that names them, the provider normalized and the model trimmed, and every other none, and
-- returns no error. No other table changes.
pub replace_price_rules_atomic :
    (rules : List PriceRule) (present : Time) (s : State)
    → AllOrNothing
        (replace_price_rules rules present s)
        s.store.db
        (IsPriced rules (stamp present) (record s.store.db { price_rules = [] }))
unfolding replace_price_rules clear_prices
replace_price_rules_atomic rules present s =
    all_or_nothing _ s.store.db
      (IsPriced rules (stamp present) (record s.store.db { price_rules = [] }))
      (λ s' h.
        let (t, t', body, same) =
          transaction_ok (exec clear_prices >> upsert_price_rules_tx rules (stamp present)) s tt s'
            h in
        let (u, t1, cleared, h1) =
          bind_ok (exec clear_prices) (λ u. upsert_price_rules_tx rules (stamp present)) t tt t'
            body in
        IsPriced-by rules (stamp present) _ s'.store.db (
          ap (λ x. x.db) same.1
          ∙ upsert_price_rules_tx_ok rules (stamp present) t1 t' h1
          ∙ ap (with_rules rules (stamp present))
              (exec_ok clear_prices t t1 cleared ∙ ap (λ x. clear_prices x.db) same.0)))
      (λ e s' h.
        transaction_err (exec clear_prices >> upsert_price_rules_tx rules (stamp present)) s e s' h)

-- Whichever statement fails, UpsertPriceRules leaves either the tables as they were, and returns an
-- error, or a price table in which each provider and model that is not blank has the price of the last
-- given rule that names them, the provider normalized and the model trimmed, and every other the price
-- that it had, and returns no error. No other table changes.
pub upsert_price_rules_atomic :
    (rules : List PriceRule) (present : Time) (s : State)
    → AllOrNothing
        (upsert_price_rules rules present s)
        s.store.db
        (IsPriced rules (stamp present) s.store.db)
unfolding upsert_price_rules
upsert_price_rules_atomic rules present s =
    all_or_nothing _ s.store.db (IsPriced rules (stamp present) s.store.db)
      (λ s' h.
        let (t, t', body, same) =
          transaction_ok (upsert_price_rules_tx rules (stamp present)) s tt s' h in
        IsPriced-by rules (stamp present) _ s'.store.db (
          ap (λ x. x.db) same.1
          ∙ upsert_price_rules_tx_ok rules (stamp present) t t' body
          ∙ ap (λ x. with_rules rules (stamp present) x.db) same.0))
      (λ e s' h. transaction_err (upsert_price_rules_tx rules (stamp present)) s e s' h)
