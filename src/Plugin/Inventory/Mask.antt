-- ===== src/Plugin/Inventory/Mask.antt =====
-- How much of a secret maskSecret of internal/plugin/provider_inventory.go shows.
use cpa_access_manager.Base.{
  ℕ, zero, suc, ◌+◌, ◌-◌, ◌≤◌, ◌<◌, ◌≡◌, refl, sym, ap, subst, ◌∙◌, [], ◌∷◌, ◌++◌, take, drop,
  length, arith, leb, if◌then◌else◌,
}
use cpa_access_manager.Base.Text.{Text, is_empty, trim_space}
use cpa_access_manager.Plugin.Inventory.{stars, mask_secret}

length-stars : (n : ℕ) → length (stars n) ≡ n
unfolding stars
length-stars zero = refl
length-stars (suc n) = ap suc (length-stars n)

length-append : (a b : Text) → length (a ++ b) ≡ length a + length b
length-append [] b = omega arith
length-append (c ∷ a) b = omega (arith, length-append a b)

length-take_le : (n : ℕ) (v : Text) → length (take n v) ≤ n
length-take_le zero v = omega arith
length-take_le (suc n) [] = omega arith
length-take_le (suc n) (c ∷ v) = omega (arith, length-take_le n v)

length-drop : (n : ℕ) (v : Text) → length (drop n v) ≡ length v - n
length-drop zero v = omega arith
length-drop (suc n) [] = omega arith
length-drop (suc n) (c ∷ v) = omega (arith, length-drop n v)

long_mask :
    (v x : Text)
    → 10 < length v
    → (if is_empty v then [] else if leb (length v) 10 then stars (length v) else x) ≡ x
long_mask [] x h = absurd (omega (arith, h))
long_mask (c ∷ v) x h = ground (arith, h)

-- What is shown of a long secret.
shown : Text → Text
shown v = take 4 v ++ (stars 6 ++ drop (length v - 4) v)

length-shown : (v : Text) → length (shown v) ≤ 14
unfolding shown
length-shown v = omega (
  arith,
  length-append (take 4 v) (stars 6 ++ drop (length v - 4) v),
  length-append (stars 6) (drop (length v - 4) v),
  length-stars 6,
  length-take_le 4 v,
  length-drop (length v - 4) v,
)

-- Two secrets that, trimmed, are longer than ten bytes and share their first four and their last four
-- bytes have the same mask, and the mask has at most fourteen bytes: nothing else of a secret shows,
-- not even its length.
pub mask_secret-hides :
    (v w : Text)
    → 10 < length (trim_space v)
    → 10 < length (trim_space w)
    → take 4 (trim_space v) ≡ take 4 (trim_space w)
    → drop (length (trim_space v) - 4) (trim_space v)
      ≡ drop (length (trim_space w) - 4) (trim_space w)
    → (mask_secret v ≡ mask_secret w) × (length (mask_secret v) ≤ 14)
unfolding mask_secret shown
mask_secret-hides v w lv lw start last =
    let a = trim_space v in
    let b = trim_space w in
    (
      long_mask a (shown a) lv
          ∙ (ap (λ x. x ++ (stars 6 ++ drop (length a - 4) a)) start
              ∙ (ap (λ x. take 4 b ++ (stars 6 ++ x)) last ∙ sym (long_mask b (shown b) lw))),
      subst (λ x. length x ≤ 14) (sym (long_mask a (shown a) lv)) (length-shown a),
    )
