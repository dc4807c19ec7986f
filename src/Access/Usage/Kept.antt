-- ===== src/Access/Usage/Kept.antt =====
-- What RecordUsage of internal/access/store.go leaves of an entry as it was given.
use cpa_access_manager.Base.{
  ℕ, ◌≡◌, refl, ◌∙◌, Bool, true, false, not, ◌&&◌, Option, none, some, inl, inr, if◌then◌else◌,
}
use cpa_access_manager.Base.Int.{ℤ}
use cpa_access_manager.Base.Text.{Text, is_empty}
use cpa_access_manager.Access.Types.{UsageEntry, PriceRule}
use cpa_access_manager.Access.Normalize.{Platform}
use cpa_access_manager.Access.Usage.{infer_provider, infer_instance, priced, with_provider}
use cpa_access_manager.Access.Db.{Result, ok, err, State, fail, pure}
use cpa_access_manager.Access.Db.Schema.{InventoryRow}
use cpa_access_manager.Access.Db.Success.{bind_ok, pure_ok, if_ok}

-- The entry says the same of who made the request, of the request, and of its time and its latencies.
pub record IsSameUse (e e' : UsageEntry) : Type 0 where
  pub key_id : e'.key_id ≡ e.key_id
  pub request_id : e'.request_id ≡ e.request_id
  pub request_resource : e'.request_resource ≡ e.request_resource
  pub auth_id : e'.auth_id ≡ e.auth_id
  pub auth_index : e'.auth_index ≡ e.auth_index
  pub model : e'.model ≡ e.model
  pub alias : e'.alias ≡ e.alias
  pub input_tokens : e'.detail.input_tokens ≡ e.detail.input_tokens
  pub output_tokens : e'.detail.output_tokens ≡ e.detail.output_tokens
  pub first_token_latency_ms : e'.first_token_latency_ms ≡ e.first_token_latency_ms
  pub total_latency_ms : e'.total_latency_ms ≡ e.total_latency_ms
  pub failed : e'.failed ≡ e.failed
  pub created_at : e'.created_at ≡ e.created_at

pub IsSameUse-refl : (e : UsageEntry) → IsSameUse e e
IsSameUse-refl e = record {
  key_id = refl;
  request_id = refl;
  request_resource = refl;
  auth_id = refl;
  auth_index = refl;
  model = refl;
  alias = refl;
  input_tokens = refl;
  output_tokens = refl;
  first_token_latency_ms = refl;
  total_latency_ms = refl;
  failed = refl;
  created_at = refl;
}

pub IsSameUse-trans : (a b c : UsageEntry) → IsSameUse a b → IsSameUse b c → IsSameUse a c
IsSameUse-trans a b c h k = record {
  key_id = k.key_id ∙ h.key_id;
  request_id = k.request_id ∙ h.request_id;
  request_resource = k.request_resource ∙ h.request_resource;
  auth_id = k.auth_id ∙ h.auth_id;
  auth_index = k.auth_index ∙ h.auth_index;
  model = k.model ∙ h.model;
  alias = k.alias ∙ h.alias;
  input_tokens = k.input_tokens ∙ h.input_tokens;
  output_tokens = k.output_tokens ∙ h.output_tokens;
  first_token_latency_ms = k.first_token_latency_ms ∙ h.first_token_latency_ms;
  total_latency_ms = k.total_latency_ms ∙ h.total_latency_ms;
  failed = k.failed ∙ h.failed;
  created_at = k.created_at ∙ h.created_at;
}

-- An entry that differs in its provider, its instance, its cost, its number and its cache reads only.
pub IsSameUse-changed :
    (e : UsageEntry) (id : ℕ) (provider instance_id : Text) (usd cached : ℤ)
    → IsSameUse e (record e {
      id = id;
      provider = provider;
      provider_instance_id = instance_id;
      usd = usd;
      detail = record e.detail { cache_read_tokens = cached };
    })
IsSameUse-changed e id provider instance_id usd cached = record {
  key_id = refl;
  request_id = refl;
  request_resource = refl;
  auth_id = refl;
  auth_index = refl;
  model = refl;
  alias = refl;
  input_tokens = refl;
  output_tokens = refl;
  first_token_latency_ms = refl;
  total_latency_ms = refl;
  failed = refl;
  created_at = refl;
}

-- One equal entry in place of another.
pub IsSameUse-of_eq : (e e' : UsageEntry) (k : UsageEntry) → e' ≡ k → IsSameUse e k → IsSameUse e e'
IsSameUse-of_eq e e' k q h = rw q h

with_provider-IsSameUse :
    (e : UsageEntry) (item : Option InventoryRow) → IsSameUse e (with_provider e item)
unfolding with_provider
with_provider-IsSameUse e none = IsSameUse-refl e
with_provider-IsSameUse e (some item) =
    IsSameUse-changed e e.id item.provider e.provider_instance_id e.usd e.detail.cache_read_tokens

pub infer_provider-IsSameUse :
    (e e' : UsageEntry) (s s' : State) → infer_provider e s ≡ (ok e', s') → IsSameUse e e'
unfolding infer_provider
infer_provider-IsSameUse e e' s s' h =
    elim (if_ok (is_empty e.provider && not (is_empty e.auth_id)) _ _ s s' e' h) [
      | inl found ↦
          let (item, t, read, done) = bind_ok _ _ s e' s' found in
          IsSameUse-of_eq e e' (with_provider e item)
            (pure_ok (with_provider e item) t e' s' done).0 (with_provider-IsSameUse e item)
      | inr same ↦ IsSameUse-of_eq e e' e (pure_ok e s e' s' same).0 (IsSameUse-refl e)
    ]

either_use :
    (b : Bool) (e x y : UsageEntry)
    → IsSameUse e x
    → IsSameUse e y
    → IsSameUse e (if b then x else y)
either_use true e x y h k = h
either_use false e x y h k = k

pub infer_instance-IsSameUse : (p : Platform) (e : UsageEntry) → IsSameUse e (infer_instance p e)
unfolding infer_instance
infer_instance-IsSameUse p e =
    either_use _ e _ e (IsSameUse-changed e e.id e.provider _ e.usd e.detail.cache_read_tokens)
      (IsSameUse-refl e)

pub priced-IsSameUse :
    (e e' : UsageEntry) (rule : Result PriceRule) (s s' : State)
    → priced e rule s ≡ (ok e', s')
    → IsSameUse e e'
unfolding priced fail
priced-IsSameUse e e' (ok rule) s s' h =
    IsSameUse-of_eq e e' _ (pure_ok _ s e' s' h).0
      (IsSameUse-changed e e.id e.provider e.provider_instance_id _ e.detail.cache_read_tokens)
priced-IsSameUse e e' (err x) s s' h = elim (if_ok _ (pure e) (fail x) s s' e' h) [
  | inl same ↦ IsSameUse-of_eq e e' e (pure_ok e s e' s' same).0 (IsSameUse-refl e)
  | inr failed ↦ absurd (cc)
]
