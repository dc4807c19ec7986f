-- ===== src/Base/Distinct.antt =====
-- Lists as tables: rows found by a text, rows that no other row shares its text with, and what an
-- insertion, a deletion and an update keep of them.
use mathlib.Core.Path.{◌≡◌, refl, ap, ◌∙◌}
use mathlib.Core.Bool.{Bool, true, false, not, ◌&&◌}
use mathlib.Core.List.{List, [], ◌∷◌}
use native.Mathlib.Omega.{arith}
use cpa_access_manager.Base.Tests.{if◌then◌else◌}
use cpa_access_manager.Base.Lists.{All, any, filter, update_where}
use cpa_access_manager.Base.Text.{Text, text_eq}

module _ {A : Type 0} where
  pub All-map : (P Q : A → Type 0) (xs : List A) → ((x : A) → P x → Q x) → All P xs → All Q xs
  All-map P Q [] k h = tt
  All-map P Q (x ∷ xs) k h = (k x h.0, All-map P Q xs k h.1)

  pub All-kept :
      (P Q : A → Type 0) (p : A → Bool) (xs : List A)
      → ((x : A) → p x ≡ true → P x → Q x)
      → All P xs
      → All Q (filter p xs)
  unfolding filter
  All-kept P Q p [] k h = tt
  All-kept P Q p (x ∷ xs) k h = ground (arith, k x, All-kept P Q p xs k h.1)

  pub any-kept :
      (p q : A → Bool) (xs : List A)
      → ((x : A) → p x ≡ true → q x ≡ true)
      → any p xs ≡ true
      → any p (filter q xs) ≡ true
  unfolding any filter
  any-kept p q [] k h = h
  any-kept p q (x ∷ xs) k h = ground (arith, k x, any-kept p q xs k)

  pub any-update_where :
      (p q : A → Bool) (f : A → A) (xs : List A)
      → ((x : A) → p (f x) ≡ p x)
      → any p (update_where q f xs) ≡ any p xs
  unfolding any update_where
  any-update_where p q f [] k = refl
  any-update_where p q f (x ∷ xs) k = ground (arith, k x, any-update_where p q f xs k)

  pub update_where-none :
      (p : A → Bool) (f : A → A) (xs : List A) → any p xs ≡ false → update_where p f xs ≡ xs
  unfolding any update_where
  update_where-none p f [] h = refl
  update_where-none p f (x ∷ xs) h = ground (arith, update_where-none p f xs)

  pub All-set :
      (P : A → Type 0) (p : A → Bool) (f : A → A) (xs : List A)
      → ((x : A) → p x ≡ true → P x → P (f x))
      → All P xs
      → All P (update_where p f xs)
  unfolding update_where
  All-set P p f [] k h = tt
  All-set P p f (x ∷ xs) k h = ground (arith, k x, All-set P p f xs k h.1)

  any-filter-none : (p q : A → Bool) (xs : List A) → any p xs ≡ false → any p (filter q xs) ≡ false
  unfolding any filter
  any-filter-none p q [] h = h
  any-filter-none p q (x ∷ xs) h = ground (arith, any-filter-none p q xs)

  -- No two rows have the same text.
  abbrev pub Distinct : (A → Text) → List A → Type 0
  Distinct f [] = Unit {0}
  Distinct f (x ∷ xs) = (any (λ y. text_eq (f y) (f x)) xs ≡ false) × Distinct f xs

  pub Distinct-filter :
      (f : A → Text) (q : A → Bool) (xs : List A) → Distinct f xs → Distinct f (filter q xs)
  unfolding filter
  Distinct-filter f q [] h = tt
  Distinct-filter f q (x ∷ xs) h =
      ground
        (arith, Distinct-filter f q xs h.1, any-filter-none (λ y. text_eq (f y) (f x)) q xs h.0)

  kept_text :
      (f : A → Text) (u : A → A) (b : Bool) (x : A) → f (u x) ≡ f x → f (if b then u x else x) ≡ f x
  kept_text f u true x k = k
  kept_text f u false x k = refl

  -- An update that keeps the text.
  pub Distinct-update_where :
      (f : A → Text) (q : A → Bool) (u : A → A) (xs : List A)
      → ((x : A) → f (u x) ≡ f x)
      → Distinct f xs
      → Distinct f (update_where q u xs)
  unfolding update_where
  Distinct-update_where f q u [] k h = tt
  Distinct-update_where f q u (x ∷ xs) k h = (
    rw (kept_text f u (q x) x (k x)) (
        any-update_where (λ y. text_eq (f y) (f x)) q u xs (λ y. ap (λ s. text_eq s (f x)) (k y))
        ∙ h.0),
    Distinct-update_where f q u xs k h.1,
  )

  pub All-if :
      (P : A → Type 0) (b : Bool) (xs ys : List A)
      → All P xs
      → All P ys
      → All P (if b then xs else ys)
  All-if P true xs ys h k = h
  All-if P false xs ys h k = k

-- An update of the rows with one identifier that gives them a text which no other row has.
module _ {A : Type 0} (id f : A → Text) (u : A → A) (i s : Text) (same : (x : A) → id (u x) ≡ id x)
    (given : (x : A) → f (u x) ≡ s) where
  abbrev is_i : A → Bool
  is_i x = text_eq (id x) i

  abbrev is_other : A → Bool
  is_other x = text_eq (f x) s && not (is_i x)

  set_none :
      (v : Text) (xs : List A)
      → text_eq s v ≡ false
      → any (λ y. text_eq (f y) v) xs ≡ false
      → any (λ y. text_eq (f y) v) (update_where is_i u xs) ≡ false
  unfolding any update_where
  set_none v [] n h = h
  set_none v (x ∷ xs) n h = ground (arith, given x, set_none v xs n)

  new_none :
      (xs : List A)
      → any is_i xs ≡ false
      → any is_other xs ≡ false
      → any (λ y. text_eq (f y) s) xs ≡ false
  unfolding any
  new_none [] n h = refl
  new_none (x ∷ xs) n h = ground (arith, new_none xs)

  eq_of : (a b : Text) → text_eq a b ≡ true → a ≡ b
  eq_of a b h = ground arith

  sym_false : (a b : Text) → text_eq a b ≡ false → text_eq b a ≡ false
  sym_false a b h = ground arith

  set_head :
      (x : A) (xs : List A) (b : Bool)
      → is_i x ≡ b
      → any (λ y. text_eq (id y) (id x)) xs ≡ false
      → any (λ y. text_eq (f y) (f x)) xs ≡ false
      → any is_other (x ∷ xs) ≡ false
      → any (λ y. text_eq (f y) (f (if b then u x else x))) (update_where is_i u xs) ≡ false
  unfolding any
  set_head x xs true e hi hf n =
      let none_i : any is_i xs ≡ false = rw (← eq_of (id x) i e) hi in
      rw (given x, update_where-none is_i u xs none_i) (new_none xs none_i (ground arith))
  set_head x xs false e hi hf n = set_none (f x) xs (sym_false (f x) s (ground arith)) hf

  pub Distinct-set :
      (xs : List A)
      → Distinct id xs
      → Distinct f xs
      → any is_other xs ≡ false
      → Distinct f (update_where is_i u xs)
  unfolding any update_where
  Distinct-set [] hi hf n = tt
  Distinct-set (x ∷ xs) hi hf n =
      (set_head x xs (is_i x) refl hi.0 hf.0 n, Distinct-set xs hi.1 hf.1 (ground arith))
