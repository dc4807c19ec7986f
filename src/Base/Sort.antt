-- ===== src/Base/Sort.antt =====
-- A stable insertion sort: sort.Strings, sort.SliceStable and ORDER BY, by the order `le`.
use cpa_access_manager.Base.{
  ◌≡◌, refl, ◌⊎◌, inl, inr, Bool, true, false, List, [], ◌∷◌, arith, if◌then◌else◌, In, All, length,
  suc, ap, ◌∙◌, Bool-cases,
}

module _ {ℓ} {A : Type ℓ} where
  unfoldable pub insert_by : (A → A → Bool) → A → List A → List A
  insert_by le a [] = a ∷ []
  insert_by le a (x ∷ xs) = if le a x then a ∷ x ∷ xs else x ∷ insert_by le a xs

  unfoldable pub sort_by : (A → A → Bool) → List A → List A
  unfolding insert_by
  sort_by le [] = []
  sort_by le (x ∷ xs) = insert_by le x (sort_by le xs)

  -- Every value is at most each later one.
  abbrev pub Sorted : (A → A → Bool) → List A → Type 0
  Sorted le [] = Unit {0}
  Sorted le (x ∷ xs) = All (λ y. le x y ≡ true) xs × Sorted le xs

  module _ (le : A → A → Bool) where
    insert_by-All :
        (Q : A → Type 0) (a : A) (xs : List A) → Q a → All Q xs → All Q (insert_by le a xs)
    unfolding insert_by
    insert_by-All Q a [] q h = (q, tt)
    insert_by-All Q a (x ∷ xs) q h = ground (arith, insert_by-All Q a xs q h.1)

    pub sort_by-All : (Q : A → Type 0) (xs : List A) → All Q xs → All Q (sort_by le xs)
    unfolding sort_by
    sort_by-All Q [] h = tt
    sort_by-All Q (x ∷ xs) h = insert_by-All Q x (sort_by le xs) h.0 (sort_by-All Q xs h.1)

    length-insert_by : (a : A) (xs : List A) → length (insert_by le a xs) ≡ suc (length xs)
    unfolding insert_by
    length-insert_by a [] = refl
    length-insert_by a (x ∷ xs) = ground (arith, length-insert_by a xs)

    pub length-sort_by : (xs : List A) → length (sort_by le xs) ≡ length xs
    unfolding sort_by
    length-sort_by [] = refl
    length-sort_by (x ∷ xs) = length-insert_by x (sort_by le xs) ∙ ap suc (length-sort_by xs)

module _ {A : Type 0} (le : A → A → Bool) (total : (a b : A) → le a b ≡ false → le b a ≡ true)
    (trans : (a b c : A) → le a b ≡ true → le b c ≡ true → le a c ≡ true) where
  above :
      (a x : A) (xs : List A)
      → le a x ≡ true
      → All (λ y. le x y ≡ true) xs
      → All (λ y. le a y ≡ true) xs
  above a x [] e h = tt
  above a x (y ∷ ys) e h = (trans a x y e h.0, above a x ys e h.1)

  insert_by-Sorted : (a : A) (xs : List A) → Sorted le xs → Sorted le (insert_by le a xs)
  unfolding insert_by
  insert_by-Sorted a [] s = (tt, tt)
  insert_by-Sorted a (x ∷ xs) s = elim (Bool-cases (le a x)) [
    | inl e ↦ rw e ((e, above a x xs e s.0), s)
    | inr e ↦
        rw e
          (insert_by-All le (λ y. le x y ≡ true) a xs (total a x e) s.0, insert_by-Sorted a xs s.1)
  ]

  pub sort_by-Sorted : (xs : List A) → Sorted le (sort_by le xs)
  unfolding sort_by
  sort_by-Sorted [] = tt
  sort_by-Sorted (x ∷ xs) = insert_by-Sorted x (sort_by le xs) (sort_by-Sorted xs)

module _ {A : Type 0} (le : A → A → Bool) where
  In-insert_by : (a b : A) (xs : List A) → In b (insert_by le a xs) → (b ≡ a) ⊎ In b xs
  unfolding insert_by
  In-insert_by a b [] m = m
  In-insert_by a b (x ∷ xs) m = ground (arith, In-insert_by a b xs)

  -- A sorted list has the values of the list, and no other.
  pub In-sort_by : (b : A) (xs : List A) → In b (sort_by le xs) → In b xs
  unfolding sort_by
  In-sort_by b [] m = m
  In-sort_by b (x ∷ xs) m = ground (arith, In-insert_by x b (sort_by le xs) m, In-sort_by b xs)

  insert_by-In : (a b : A) (xs : List A) → (b ≡ a) ⊎ In b xs → In b (insert_by le a xs)
  unfolding insert_by
  insert_by-In a b [] m = m
  insert_by-In a b (x ∷ xs) m = ground (arith, insert_by-In a b xs)

  pub sort_by-In : (b : A) (xs : List A) → In b xs → In b (sort_by le xs)
  unfolding sort_by
  sort_by-In b [] m = m
  sort_by-In b (x ∷ xs) m = ground (arith, insert_by-In x b (sort_by le xs), sort_by-In b xs)
