-- ===== src/Access/Usage/Ledger.antt =====
-- What RecordUsage of internal/access/store.go adds to the ledger and to the amounts spent.
use cpa_access_manager.Base.{
  ℕ, ◌+◌, ◌≡◌, ◌≢◌, sym, ap, ◌∙◌, subst, refl, Bool, true, false, ◌∷◌, inl, inr, Bool-cases, arith,
  filter, if◌then◌else◌,
}
use cpa_access_manager.Base.Int.{◌+ℤ◌}
use cpa_access_manager.Base.Text.{Text, trim_space}
use cpa_access_manager.Access.Types.{Time, UsageEntry, PriceRule}
use cpa_access_manager.Access.Time.{is_zero, format_time, stamp}
use cpa_access_manager.Access.Normalize.{Platform, normalize_provider}
use cpa_access_manager.Access.Prices.{normalized_cache_read_tokens, find_price_rule}
use cpa_access_manager.Access.Quota.{sum_all, sum_usd}
use cpa_access_manager.Access.Bindings.{key_exists}
use cpa_access_manager.Access.Limits.{bool_int}
use cpa_access_manager.Access.Usage.{
  normalize_reasoning_effort, record_usage, insert_usage, infer_provider, infer_instance, priced,
  usage_row,
}
use cpa_access_manager.Access.Usage.Kept.{
  IsSameUse, IsSameUse-changed, IsSameUse-of_eq, IsSameUse-trans, infer_provider-IsSameUse,
  infer_instance-IsSameUse, priced-IsSameUse,
}
use cpa_access_manager.Access.Scope.Depth.{inventory_by_type-ReadsOnly}
use cpa_access_manager.Access.Clean.Reads.{find_price_rule-ReadsOnly}
use cpa_access_manager.Access.Db.{Result, ok, err, State, attempt, statement}
use cpa_access_manager.Access.Db.Reads.{ReadsOnly, ReadsOnly-attempt, reads_rules, read_same}
use cpa_access_manager.Access.Db.Success.{bind_ok, statement_ok, pure_ok}
use cpa_access_manager.Access.Db.Schema.{Tables, UsageRow}

infer_provider-ReadsOnly : (e : UsageEntry) → ReadsOnly (infer_provider e)
unfolding infer_provider
infer_provider-ReadsOnly e = search (reads_rules, inventory_by_type-ReadsOnly)

priced-ReadsOnly : (e : UsageEntry) (r : Result PriceRule) → ReadsOnly (priced e r)
unfolding priced
priced-ReadsOnly e (ok rule) = search reads_rules
priced-ReadsOnly e (err x) = search reads_rules

-- The row of an entry, column by column.
abbrev pub row_of : UsageEntry → UsageRow
row_of e = record {
  id = e.id;
  key_id = e.key_id;
  request_id = trim_space e.request_id;
  request_resource = trim_space e.request_resource;
  auth_id = e.auth_id;
  auth_index = e.auth_index;
  provider = e.provider;
  provider_instance_id = e.provider_instance_id;
  model = e.model;
  alias = e.alias;
  detail = record {
    input_tokens = e.detail.input_tokens;
    output_tokens = e.detail.output_tokens;
    reasoning_tokens = e.detail.reasoning_tokens;
    reasoning_effort = normalize_reasoning_effort e.detail.reasoning_effort;
    cached_tokens = e.detail.cached_tokens;
    cache_read_tokens = e.detail.cache_read_tokens;
    cache_creation_tokens = e.detail.cache_creation_tokens;
    total_tokens = e.detail.total_tokens;
  };
  first_token_latency_ms = e.first_token_latency_ms;
  total_latency_ms = e.total_latency_ms;
  usd = e.usd;
  failed = if e.failed then 1 else 0;
  created_at = stamp e.created_at;
}

-- The key exists, and the ledger has the row of the entry as its newest.
pub record IsRecorded (e : UsageEntry) (t t' : Tables) : Type 0 where
  pub known : key_exists e.key_id t ≡ true
  pub id_next : e.id ≡ t.usage_sequence + 1
  pub appended : t' ≡ record t { usage_ledger = row_of e ∷ t.usage_ledger; usage_sequence = e.id }

-- The entry with the time that it is recorded under: its own, or the present if it has none.
abbrev pub timed : UsageEntry → Time → UsageEntry
timed e present = record e { created_at = if is_zero e.created_at then present else e.created_at }

insert_usage_ok :
    (e : UsageEntry) (created : Text) (t : Tables) (id : ℕ)
    → created ≡ stamp e.created_at
    → (insert_usage e created t).0 ≡ ok id
    → IsRecorded (record e { id = id }) t (insert_usage e created t).1
unfolding insert_usage usage_row bool_int
insert_usage_ok e created t id c h = record {
  known = ground arith;
  id_next = ground arith;
  appended = ground (arith, c);
}

-- formatTime of a time that the present stands in for already.
format_timed :
    (present at x : Time)
    → x ≡ (if is_zero at then present else at)
    → format_time present x ≡ stamp x
unfolding format_time
format_timed present at x h = elim (Bool-cases (is_zero at)) [
  | inl e ↦ rw (h, e) (either_stamp (is_zero present) present)
  | inr e ↦ ground (arith, h, e)
]
  where
    either_stamp : (b : Bool) (t : Time) → stamp (if b then t else t) ≡ stamp t
    either_stamp true t = refl
    either_stamp false t = refl

-- The entry as RecordUsage looks up its provider and its price.
entry_of : UsageEntry → Time → UsageEntry
entry_of e present = record e {
  created_at = if is_zero e.created_at then present else e.created_at;
  provider = normalize_provider e.provider;
}

placed_of : Platform → UsageEntry → UsageEntry
placed_of p known =
    let placed = infer_instance p known in
    record placed {
      detail = record placed.detail {
        cache_read_tokens = normalized_cache_read_tokens placed.detail;
      };
    }

-- The entry that RecordUsage returns says the same as the one that it was given.
record_usage-IsSameUse :
    (p : Platform) (e e' known final : UsageEntry) (rule : Result PriceRule) (id : ℕ)
    (present : Time) (s s1 s2 s3 : State)
    → infer_provider (entry_of e present) s ≡ (ok known, s1)
    → priced (placed_of p known) rule s2 ≡ (ok final, s3)
    → e' ≡ record final { id = id }
    → IsSameUse (timed e present) e' × (final.created_at ≡ (timed e present).created_at)
unfolding entry_of placed_of
record_usage-IsSameUse p e e' known final rule id present s s1 s2 s3 e1 e3 r =
    let base = timed e present in
    let begun =
      IsSameUse-changed base base.id (normalize_provider e.provider) base.provider_instance_id
        base.usd base.detail.cache_read_tokens in
    let first = IsSameUse-trans base _ known begun (infer_provider-IsSameUse _ known s s1 e1) in
    let second = IsSameUse-trans base known _ first (infer_instance-IsSameUse p known) in
    let i = infer_instance p known in
    let third = IsSameUse-trans base i (placed_of p known) second (
      IsSameUse-changed i i.id i.provider i.provider_instance_id i.usd
        (normalized_cache_read_tokens i.detail)) in
    let fourth =
      IsSameUse-trans base (placed_of p known) final third
        (priced-IsSameUse _ final rule s2 s3 e3) in
    (
      IsSameUse-of_eq base e' (record final { id = id }) r
          (IsSameUse-trans base final _ fourth (
            IsSameUse-changed final id final.provider final.provider_instance_id final.usd
              final.detail.cache_read_tokens)),
      fourth.created_at,
    )

pub record_usage_appends :
    (p : Platform) (e e' : UsageEntry) (present : Time) (s s' : State)
    → record_usage p e present s ≡ (ok e', s')
    → IsRecorded e' s.store.db s'.store.db × IsSameUse (timed e present) e'
unfolding record_usage entry_of placed_of
record_usage_appends p e e' present s s' h =
    let (known, s1, e1, h1) = bind_ok _ _ s e' s' h in
    let (rule, s2, e2, h2) = bind_ok _ _ s1 e' s' h1 in
    let (final, s3, e3, h3) = bind_ok _ _ s2 e' s' h2 in
    let (id, s4, e4, h4) = bind_ok _ _ s3 e' s' h3 in
    recorded known rule final id s1 s2 s3 s4 e1 e2 e3 e4
      (pure_ok (record final { id = id }) s4 e' s' h4)
  where
    recorded :
        (known : UsageEntry) (rule : Result PriceRule) (final : UsageEntry) (id : ℕ)
        (s1 s2 s3 s4 : State)
        → infer_provider (entry_of e present) s ≡ (ok known, s1)
        → attempt (find_price_rule (placed_of p known).provider (placed_of p known).model) s1
          ≡ (ok rule, s2)
        → priced (placed_of p known) rule s2 ≡ (ok final, s3)
        → statement (insert_usage final (format_time present final.created_at)) s3 ≡ (ok id, s4)
        → (e' ≡ record final { id = id }) × (s' ≡ s4)
        → IsRecorded e' s.store.db s'.store.db × IsSameUse (timed e present) e'
    recorded known rule final id s1 s2 s3 s4 e1 e2 e3 e4 (r, q) =
        let same1 = read_same s s1 (ok known) (infer_provider-ReadsOnly _) e1 in
        let same2 =
          read_same s1 s2 (ok rule) (ReadsOnly-attempt _ (find_price_rule-ReadsOnly _ _)) e2 in
        let same3 = read_same s2 s3 (ok final) (priced-ReadsOnly _ rule) e3 in
        let (i, t) =
          statement_ok (insert_usage final (format_time present final.created_at)) s3 id s4 e4 in
        let (same_use, at) =
          record_usage-IsSameUse p e e' known final rule id present s s1 s2 s3 e1 e3 r in
        let done =
          insert_usage_ok final (format_time present final.created_at) s3.store.db id
            (format_timed present e.created_at final.created_at at) i in
        (
          subst (λ x. IsRecorded x s.store.db s'.store.db) (sym r)
              (subst (λ x. IsRecorded (record final { id = id }) s.store.db x.store.db) (sym q)
                (subst (λ x. IsRecorded (record final { id = id }) s.store.db x.db) (sym t)
                  (subst
                    (λ x.
                      IsRecorded (record final { id = id }) x.db
                        (insert_usage final (format_time present final.created_at) s3.store.db).1)
                    (same3 ∙ same2 ∙ same1) done))),
          same_use,
        )

-- Whatever statements fail, an entry that RecordUsage returns adds its cost to all that its key has
-- spent, and leaves the amount of every other key as it was.
pub record_usage_spends :
    (p : Platform) (e e' : UsageEntry) (present : Time) (s s' : State) (other : Text)
    → record_usage p e present s ≡ (ok e', s')
    → (sum_all e'.key_id s'.store.db ≡ e'.usd +ℤ sum_all e'.key_id s.store.db)
      × (other ≢ e'.key_id → sum_all other s'.store.db ≡ sum_all other s.store.db)
unfolding sum_all sum_usd filter
record_usage_spends p e e' present s s' other h =
    let (r, same_use) = record_usage_appends p e e' present s s' h in
    (
      ap (sum_all e'.key_id) r.appended ∙ ground arith,
      λ n. ap (sum_all other) r.appended ∙ ground (arith, n),
    )
