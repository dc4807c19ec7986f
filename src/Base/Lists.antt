-- ===== src/Base/Lists.antt =====
-- Lists measured and indexed by native numbers, membership by recursion, and the loops over lists
-- that the program writes out.
use Prim.Native.Nat.{ℕ, zero, suc, ◌≤◌}
use mathlib.Core.Path.{◌≡◌, refl, sym, subst}
use mathlib.Core.Logic.{◌⊎◌, inl, inr}
use mathlib.Core.Bool.{Bool, true, false, ◌||◌}
use mathlib.Core.List.{List, [], ◌∷◌}
use mathlib.Core.Option.{Option, none, some}
use native.Mathlib.Omega.{arith}
use cpa_access_manager.Base.Tests.{if◌then◌else◌}

module _ {ℓ} {A : Type ℓ} where
  abbrev pub length : List A → ℕ
  length [] = 0
  length (x ∷ xs) = suc (length xs)

  abbrev pub get_elem? : List A → ℕ → Option A
  get_elem? [] i = none
  get_elem? (x ∷ xs) zero = some x
  get_elem? (x ∷ xs) (suc i) = get_elem? xs i

  abbrev pub get_or : List A → ℕ → A → A
  get_or [] i d = d
  get_or (x ∷ xs) zero d = x
  get_or (x ∷ xs) (suc i) d = get_or xs i d

  abbrev pub take : ℕ → List A → List A
  take zero xs = []
  take (suc n) [] = []
  take (suc n) (x ∷ xs) = x ∷ take n xs

  abbrev pub drop : ℕ → List A → List A
  drop zero xs = xs
  drop (suc n) [] = []
  drop (suc n) (x ∷ xs) = drop n xs

-- The value is one of the list's.
abbrev pub In : {A : Type 0} → A → List A → Type 0
In a [] = ⊥
In a (x ∷ xs) = (a ≡ x) ⊎ In a xs

-- The library's `All` by recursion: it computes to tuples.
abbrev pub All {ℓ} : {A : Type ℓ} → (A → Type 0) → List A → Type 0
All P [] = Unit {0}
All P (x ∷ xs) = P x × All P xs

module _ {ℓ} {A : Type ℓ} where
  -- The rows that pass a test (a WHERE clause, or a loop with `continue`).
  unfoldable pub filter : (A → Bool) → List A → List A
  filter p [] = []
  filter p (x ∷ xs) = let rest = filter p xs in if p x then x ∷ rest else rest

  -- The first row that passes a test.
  unfoldable pub find : (A → Bool) → List A → Option A
  find p [] = none
  find p (x ∷ xs) = let rest = find p xs in if p x then some x else rest

  unfoldable pub any : (A → Bool) → List A → Bool
  any p [] = false
  any p (x ∷ xs) = p x || any p xs

  -- The rows that pass the test are changed (UPDATE ... WHERE).
  unfoldable pub update_where : (A → Bool) → (A → A) → List A → List A
  update_where p f [] = []
  update_where p f (x ∷ xs) = (if p x then f x else x) ∷ update_where p f xs

  pub filter-All : (Q : A → Type 0) (p : A → Bool) (xs : List A) → All Q xs → All Q (filter p xs)
  unfolding filter
  filter-All Q p [] h = tt
  filter-All Q p (x ∷ xs) h = ground (arith, filter-All Q p xs h.1)

  pub filter-passes : (p : A → Bool) (xs : List A) → All (λ x. p x ≡ true) (filter p xs)
  unfolding filter
  filter-passes p [] = tt
  filter-passes p (x ∷ xs) = ground (arith, filter-passes p xs)

  pub length-filter-le : (p : A → Bool) (xs : List A) → length (filter p xs) ≤ length xs
  unfolding filter
  length-filter-le p [] = omega arith
  length-filter-le p (x ∷ xs) = ground (arith, length-filter-le p xs)

  pub find-passes : (p : A → Bool) (xs : List A) (a : A) → find p xs ≡ some a → p a ≡ true
  unfolding find
  find-passes p [] a h = cc
  find-passes p (x ∷ xs) a h = ground (arith, find-passes p xs a)

  pub find-All :
      (Q : A → Type 0) (p : A → Bool) (xs : List A) (a : A) → All Q xs → find p xs ≡ some a → Q a
  unfolding find
  find-All Q p [] a h e = absurd (cc)
  find-All Q p (x ∷ xs) a h e = ground (arith, find-All Q p xs a h.1)

  pub any-eq-false-find : (p : A → Bool) (xs : List A) → any p xs ≡ false → find p xs ≡ none
  unfolding any find
  any-eq-false-find p [] h = refl
  any-eq-false-find p (x ∷ xs) h = ground (arith, any-eq-false-find p xs)

  pub update_where-All :
      (Q : A → Type 0) (p : A → Bool) (f : A → A) (xs : List A)
      → ((x : A) → Q x → Q (f x))
      → All Q xs
      → All Q (update_where p f xs)
  unfolding update_where
  update_where-All Q p f [] k h = tt
  update_where-All Q p f (x ∷ xs) k h = ground (arith, k x h.0, update_where-All Q p f xs k h.1)

module _ {A : Type 0} where
  pub All-In : (Q : A → Type 0) (xs : List A) {a : A} → All Q xs → In a xs → Q a
  All-In Q [] h m = absurd m
  All-In Q (x ∷ xs) h (inl e) = subst Q (sym e) h.0
  All-In Q (x ∷ xs) h (inr m) = All-In Q xs h.1 m

  pub find-In : (p : A → Bool) (xs : List A) (a : A) → find p xs ≡ some a → In a xs
  unfolding find
  find-In p [] a h = absurd (cc)
  find-In p (x ∷ xs) a h = ground (arith, find-In p xs a)

  pub filter-In : (p : A → Bool) (xs : List A) (a : A) → In a xs → p a ≡ true → In a (filter p xs)
  unfolding filter
  filter-In p [] a m h = absurd m
  filter-In p (x ∷ xs) a (inl e) h = rw (← e, h) (inl refl)
  filter-In p (x ∷ xs) a (inr m) h = ground (arith, filter-In p xs a m h)

  pub In-filter : (p : A → Bool) (xs : List A) (a : A) → In a (filter p xs) → In a xs
  unfolding filter
  In-filter p [] a m = absurd m
  In-filter p (x ∷ xs) a m = ground (arith, In-filter p xs a)
