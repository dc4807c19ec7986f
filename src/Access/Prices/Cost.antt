-- ===== src/Access/Prices/Cost.antt =====
-- What CalculateUSD and normalizedCacheReadTokens of internal/access/store.go compute.
use native.Mathlib.Nat.{mod-eq_of_lt}
use cpa_access_manager.Base.{◌^◌, ◌<◌, ◌≤◌, ◌≡◌, refl, Bool, true, false, not, arith, if◌then◌else◌}
use cpa_access_manager.Base.Int.{ℤ, pos, negsuc, pos_part, neg_part, ltb_ℤ, ◌+ℤ◌, ◌-ℤ◌, ◌*ℤ◌, ◌≤ℤ◌}
use cpa_access_manager.Access.Types.{PriceRule, UsageDetail}
use cpa_access_manager.Access.Prices.{
  of_bits, to_bits, sub64, max64, normalized_cache_read_tokens, calculate_usd,
}

-- An int64.
pub record IsInt64 (v : ℤ) : Type 0 where
  pub low : neg_part v ≤ 9_223_372_036_854_775_808
  pub high : pos_part v < 9_223_372_036_854_775_808

abbrev IsCount : ℤ → Type 0
IsCount v = IsInt64 v × (pos 0 ≤ℤ v)

pub of_to_bits : (v : ℤ) → IsInt64 v → of_bits (to_bits v) ≡ v
unfolding of_bits to_bits
of_to_bits (pos n) h =
    rw (mod-eq_of_lt {n = n} {m = 2 ^ 64} (omega (arith, h.high))) (ground (arith, h.high))
of_to_bits (negsuc n) h =
    rw (mod-eq_of_lt {n = n} {m = 2 ^ 64} (omega (arith, h.low))) (ground (arith, h.low))

-- The difference of two counts that are not negative does not wrap around.
sub64_lem : (a b : ℤ) → IsInt64 a → IsInt64 b → pos 0 ≤ℤ a → pos 0 ≤ℤ b → sub64 a b ≡ a -ℤ b
unfolding sub64 ◌-ℤ◌
sub64_lem a b ha hb pa pb =
    of_to_bits (a -ℤ b) (record { low = ground (arith, hb.high); high = ground (arith, ha.high) })

max64-IsInt64 : (v : ℤ) → IsInt64 v → IsCount (max64 v (pos 0))
unfolding max64
max64-IsInt64 v h = (record { low = ground arith; high = ground (arith, h.high) }, ground arith)

-- The tokens of an entry that CalculateUSD reads are int64.
pub record HasInt64 (d : UsageDetail) : Type 0 where
  pub input : IsInt64 d.input_tokens
  pub cached : IsInt64 d.cached_tokens
  pub cache_read : IsInt64 d.cache_read_tokens
  pub cache_creation : IsInt64 d.cache_creation_tokens

cached_part :
    (a b : ℤ)
    → IsInt64 a
    → IsInt64 b
    → pos 0 ≤ℤ a
    → pos 0 ≤ℤ b
    → ltb_ℤ b a ≡ true
    → IsCount (sub64 a b)
unfolding ◌-ℤ◌
cached_part a b ha hb pa pb h =
    rw (sub64_lem a b ha hb pa pb)
      (record { low = ground arith; high = ground (arith, ha.high) }, ground arith)

IsCount-if :
    (b : Bool) (x y : ℤ)
    → (b ≡ true → IsCount x)
    → (b ≡ false → IsCount y)
    → IsCount (if b then x else y)
IsCount-if true x y hx hy = hx refl
IsCount-if false x y hx hy = hy refl

cache_reads-IsCount : (d : UsageDetail) → HasInt64 d → IsCount (normalized_cache_read_tokens d)
unfolding normalized_cache_read_tokens
cache_reads-IsCount d h =
    let (c, pc) = max64-IsInt64 d.cached_tokens h.cached in
    let (n, pn) = max64-IsInt64 d.cache_creation_tokens h.cache_creation in
    let part =
      cached_part (max64 d.cached_tokens (pos 0)) (max64 d.cache_creation_tokens (pos 0)) c n pc
        pn in
    let zero : IsCount (pos 0) = (record { low = omega arith; high = omega arith }, omega arith) in
    IsCount-if (ltb_ℤ (pos 0) d.cache_read_tokens) _ _ (λ e. (h.cache_read, ground arith))
      (λ e.
        IsCount-if (not (ltb_ℤ (pos 0) (max64 d.cached_tokens (pos 0)))) _ _ (λ e. zero)
          (λ e.
            IsCount-if (ltb_ℤ (pos 0) (max64 d.cache_creation_tokens (pos 0))) _ _
              (λ e.
                IsCount-if
                  (ltb_ℤ (max64 d.cache_creation_tokens (pos 0)) (max64 d.cached_tokens (pos 0))) _
                  _ part (λ e. zero))
              (λ e. (c, pc))))

-- The input tokens that are charged at the full rate.
abbrev fresh_tokens : UsageDetail → ℤ
fresh_tokens d = max64 (sub64 d.input_tokens (normalized_cache_read_tokens d)) (pos 0)

fresh_sum :
    (input cache : ℤ)
    → IsCount input
    → IsCount cache
    → (pos 0 ≤ℤ max64 (sub64 input cache) (pos 0))
      × (max64 (sub64 input cache) (pos 0) +ℤ cache ≡ max64 input cache)
unfolding max64 ◌+ℤ◌ ◌-ℤ◌
fresh_sum input cache (hi, pi) (hc, pc) =
    rw (sub64_lem input cache hi hc pi pc) (ground arith, ground arith)

-- For int64 token counts and input tokens that are not negative, CalculateUSD charges each input token
-- once: the tokens at the input rate and those at the cache rate are not negative and sum to the input
-- tokens, or to the cache reads if these are more.
pub calculate_usd_once :
    (rule : PriceRule) (d : UsageDetail)
    → HasInt64 d
    → pos 0 ≤ℤ d.input_tokens
    → (fresh : ℤ) × (pos 0 ≤ℤ fresh)
      × (pos 0 ≤ℤ normalized_cache_read_tokens d)
      × (fresh +ℤ normalized_cache_read_tokens d
          ≡ max64 d.input_tokens (normalized_cache_read_tokens d))
      × (calculate_usd rule d
          ≡ fresh *ℤ rule.input_usd_per_million
            +ℤ max64 d.output_tokens (pos 0) *ℤ rule.output_usd_per_million
            +ℤ normalized_cache_read_tokens d *ℤ rule.cache_read_usd_per_million)
unfolding calculate_usd
calculate_usd_once rule d h p =
    let cache = cache_reads-IsCount d h in
    let (positive, sum) =
      fresh_sum d.input_tokens (normalized_cache_read_tokens d) (h.input, p) cache in
    (fresh_tokens d, positive, cache.1, sum, refl)
