-- ===== src/Access/Routing/Fairness.antt =====
-- The cursor of nextRoutingValue and the search of containsString (internal/access/routing.go).
use cpa_access_manager.Base.{
  ℕ, zero, suc, ◌+◌, ◌-◌, ◌*◌, ◌/◌, ◌%◌, ◌^◌, ◌<◌, ◌≡◌, refl, ap, ◌∙◌, inl, inr, true, List, [],
  ◌∷◌, In, arith, length, get_or, All-In, subst,
}
use native.Mathlib.Nat.{mod-lt, div-add-mod, add-mod-mod, mul-add-mod_self_left, mod-eq_of_lt}
use cpa_access_manager.Base.Sort.{Sorted}
use cpa_access_manager.Base.Text.{Text, text_eq, text_leb, text_ltb_irrefl, text_ltb_connected}
use cpa_access_manager.Access.Routing.Cursor.{
  next_routing_value, set_cursor, search_strings, contains_string,
}
use cpa_access_manager.Access.Db.{ok, State}

-- The state after `n` calls with the same key and values.
unfoldable pub after_calls : ℕ → Text → List Text → State → State
after_calls zero key values s = s
after_calls (suc n) key values s = (next_routing_value key values (after_calls n key values s)).1

text_eq_refl : (k : Text) → text_eq k k ≡ true
text_eq_refl k = ground arith

cursor_after :
    (n : ℕ) (key : Text) (values : List Text) (s : State)
    → s.store.routing_cursor key + n < 2 ^ 64
    → (after_calls n key values s).store.routing_cursor key ≡ s.store.routing_cursor key + n
unfolding after_calls next_routing_value set_cursor
cursor_after zero key values s h = omega arith
cursor_after (suc n) key values s h =
    ground (arith, text_eq_refl key, cursor_after n key values s (omega arith))

search_finds :
    (values : List Text) (v : Text)
    → Sorted text_leb values
    → In v values
    → (search_strings values v < length values) × (get_or values (search_strings values v) [] ≡ v)
unfolding search_strings
search_finds [] v s m = absurd m
search_finds (x ∷ xs) v (a, s) (inl e) = ground (arith, text_ltb_irrefl x)
search_finds (x ∷ xs) v (a, s) (inr m) = ground (
  arith,
  search_finds xs v s m,
  All-In (λ y. text_leb x y ≡ true) xs {a = v} a m,
  text_ltb_connected x v,
)

pub get_or-In :
    {A : Type 0} (values : List A) (i : ℕ) (d : A)
    → i < length values
    → In (get_or values i d) values
get_or-In [] i d h = absurd (omega arith)
get_or-In (x ∷ xs) zero d h = inl refl
get_or-In (x ∷ xs) (suc i) d h = inr (get_or-In xs i d (omega arith))

-- On a sorted list containsString finds exactly the values that are in the list.
pub contains_string-In :
    (values : List Text) (v : Text)
    → Sorted text_leb values
    → (In v values → contains_string values v ≡ true)
      × (contains_string values v ≡ true → In v values)
unfolding contains_string
contains_string-In values v s =
    ((λ m. ground (arith, search_finds values v s m)), (λ e. found (ground arith) (ground arith)))
  where
    found :
        search_strings values v < length values
        → get_or values (search_strings values v) [] ≡ v
        → In v values
    found h r = subst (λ x. In x values) r (get_or-In values (search_strings values v) [] h)

-- The call that serves the i-th of n values after the cursor c.
turn : ℕ → ℕ → ℕ → ℕ
turn n c i = (i + n - c % n) % n

turn_sum : (n c i : ℕ) → i < n → c + (i + n - c % n) ≡ n * (c / n + 1) + i
turn_sum n c i h =
    let below = mod-lt c {m = n} (omega arith) in
    let parts = div-add-mod c n in let next = mul_suc_lem n (c / n) in omega arith
  where
    mul_suc_lem : (a b : ℕ) → a * (b + 1) ≡ a * b + a
    mul_suc_lem a b = omega arith

turn_lem : (n c i : ℕ) → i < n → (turn n c i < n) × ((c + turn n c i) % n ≡ i)
unfolding turn
turn_lem n c i h = (
  mod-lt (i + n - c % n) {m = n} (omega arith),
  add-mod-mod c (i + n - c % n) n
      ∙ ap (λ x. x % n) (turn_sum n c i h)
      ∙ mul-add-mod_self_left n (c / n + 1) i
      ∙ mod-eq_of_lt h,
)

-- From any cursor that stays below 2^64, each of n values is served by one of the next n calls with
-- the same key and values.
pub next_routing_value_fair :
    (key : Text) (values : List Text) (s : State) (i : ℕ)
    → i < length values
    → s.store.routing_cursor key + length values < 2 ^ 64
    → (k : ℕ) × (k < length values)
      × ((next_routing_value key values (after_calls k key values s)).0 ≡ ok (get_or values i []))
unfolding next_routing_value
next_routing_value_fair key values s i h b =
    let (below, lands) = turn_lem (length values) (s.store.routing_cursor key) i h in
    let k = turn (length values) (s.store.routing_cursor key) i in
    (
      k,
      below,
      ap (λ c. ok (get_or values (c % length values) []))
            (cursor_after k key values s (omega arith))
          ∙ ap (λ j. ok (get_or values j [])) lands,
    )
