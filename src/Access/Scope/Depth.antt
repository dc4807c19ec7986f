-- ===== src/Access/Scope/Depth.antt =====
-- The depth of applyTarget (internal/access/store.go): where no group is a member of a group, the
-- recursion ends at depth two, whatever fuel is given beyond that.
use cpa_access_manager.Base.{
  ℕ, zero, suc, ◌≡◌, ◌≢◌, refl, sym, subst, Bool, true, false, List, [], ◌∷◌, All, filter,
  filter-All, arith, if◌then◌else◌,
}
use cpa_access_manager.Base.Text.{Text, text_eq, is_empty, trim_space}
use cpa_access_manager.Base.Sort.{sort_by-All}
use cpa_access_manager.Access.Types.{Binding, GroupMember, Scope, Error, binding_group}
use cpa_access_manager.Access.Normalize.{normalize_target_type}
use cpa_access_manager.Access.Groups.{group_members, members_of, member_le}
use cpa_access_manager.Access.Bindings.{key_bindings}
use cpa_access_manager.Access.Db.{
  Result, ok, err, State, Db, continue_with, ◌>>=◌, pure, attempt, query,
}
use cpa_access_manager.Access.Db.Schema.{Tables}
use cpa_access_manager.Access.Db.Reads.{
  ReadsOnly, reads_rules, ReadsOnly-bind, ReadsOnly-query, ReadsOnly-pure, ReadsOnly-fail,
  ReadsOnly-if, read_same,
}
use cpa_access_manager.Access.Db.Success.{query_ok}
use cpa_access_manager.Access.Scope.{
  inventory_by_type, apply_leaf, apply_members, apply_target, apply_bindings, resolve_scope_fuel,
  resolve_scope, empty_scope,
}

-- A member that is not itself a group.
abbrev pub IsLeaf : GroupMember → Type 0
IsLeaf m = normalize_target_type m.member_type ≢ binding_group

-- No group is a member of a group.
pub record IsFlat (t : Tables) : Type 0 where
  pub leaves : All IsLeaf t.group_members

members_of-leaves : (id : Text) (t : Tables) → IsFlat t → All IsLeaf (members_of id t)
unfolding members_of
members_of-leaves id t h =
    sort_by-All member_le IsLeaf (filter (λ m. text_eq m.group_id id) t.group_members)
      (filter-All IsLeaf (λ m. text_eq m.group_id id) t.group_members h.leaves)

pub inventory_by_type-ReadsOnly : (type id : Text) → ReadsOnly (inventory_by_type type id)
unfolding inventory_by_type
inventory_by_type-ReadsOnly type id = search reads_rules

pub apply_leaf-ReadsOnly : (scope : Scope) (type id : Text) → ReadsOnly (apply_leaf scope type id)
unfolding apply_leaf
apply_leaf-ReadsOnly scope type id = search (reads_rules, inventory_by_type-ReadsOnly)

pub group_members-ReadsOnly : (id : Text) → ReadsOnly (group_members id)
unfolding group_members
group_members-ReadsOnly id = ReadsOnly-query (members_of (trim_space id))

apply_members-ReadsOnly :
    (f : Scope → Text → Text → Db Scope)
    → ((scope : Scope) (type id : Text) → ReadsOnly (f scope type id))
    → (scope : Scope) (ms : List GroupMember) → ReadsOnly (apply_members f scope ms)
unfolding apply_members
apply_members-ReadsOnly f k scope [] = ReadsOnly-pure scope
apply_members-ReadsOnly f k scope (m ∷ ms) =
    ReadsOnly-bind _ _ (k scope m.member_type m.member_id)
      (λ scope'. apply_members-ReadsOnly f k scope' ms)

pub apply_target-ReadsOnly :
    (fuel : ℕ) (scope : Scope) (type id : Text) → ReadsOnly (apply_target fuel scope type id)
unfolding apply_target
apply_target-ReadsOnly zero scope type id = ReadsOnly-fail Error.stack_overflow
apply_target-ReadsOnly (suc fuel) scope type id = ReadsOnly-if _ _ _ (ReadsOnly-pure scope) (
    ReadsOnly-if _ _ _
      (ReadsOnly-bind _ _ (group_members-ReadsOnly _)
        (λ ms. apply_members-ReadsOnly _ (apply_target-ReadsOnly fuel) scope ms))
      (apply_leaf-ReadsOnly _ _ _))

-- Two operations do the same in a state, and the recursion ends.
record Same {A : Type 0} (m n : Db A) (s : State) : Type 0 where
  agree : m s ≡ n s
  ends : (m s).0 ≢ err Error.stack_overflow

continue-Same :
    {A B : Type 0} (r : Result A × State) (f g : A → Db B)
    → r.0 ≢ err Error.stack_overflow
    → ((a : A) (t : State) → r ≡ (ok a, t) → Same (f a) (g a) t)
    → (continue_with r f ≡ continue_with r g) × ((continue_with r f).0 ≢ err Error.stack_overflow)
continue-Same (ok a, t) f g n k = let h = k a t refl in (h.agree, h.ends)
continue-Same (err e, t) f g n k = (refl, λ h. n (ground arith))

Same-pure : {A : Type 0} (a : A) (s : State) → Same (pure a) (pure a) s
unfolding pure
Same-pure a s = record { agree = refl; ends = λ h. cc }

Same-bind :
    {A B : Type 0} (m n : Db A) (f g : A → Db B) (s : State)
    → Same m n s
    → ((a : A) (t : State) → m s ≡ (ok a, t) → Same (f a) (g a) t)
    → Same (m >>= f) (n >>= g) s
unfolding ◌>>=◌
Same-bind m n f g s h k =
    let c = continue-Same (m s) f g h.ends k in record { agree = rw (← h.agree) c.0; ends = c.1 }

apply_leaf_ends :
    (scope : Scope) (type id : Text) (s : State)
    → (apply_leaf scope type id s).0 ≢ err Error.stack_overflow
unfolding apply_leaf inventory_by_type ◌>>=◌ attempt pure
apply_leaf_ends scope type id s = ground arith

-- A target that is no group is resolved at once.
leaf-Same :
    (m n : ℕ) (scope : Scope) (type id : Text) (s : State)
    → normalize_target_type type ≢ binding_group
    → Same (apply_target (suc m) scope type id) (apply_target (suc n) scope type id) s
unfolding apply_target pure
leaf-Same m n scope type id s h = record {
  agree = ground arith;
  ends = ground (arith, apply_leaf_ends scope (normalize_target_type type) (trim_space id) s);
}

members-Same :
    (m n : ℕ) (scope : Scope) (ms : List GroupMember) (s : State)
    → All IsLeaf ms
    → Same
        (apply_members (apply_target (suc m)) scope ms)
        (apply_members (apply_target (suc n)) scope ms)
        s
unfolding apply_members pure
members-Same m n scope [] s h = Same-pure scope s
members-Same m n scope (x ∷ ms) s h =
    Same-bind _ _ _ _ s (leaf-Same m n scope x.member_type x.member_id s h.0)
      (λ scope' t e. members-Same m n scope' ms t h.1)

group_members_ends : (id : Text) (s : State) → (group_members id s).0 ≢ err Error.stack_overflow
unfolding group_members query
group_members_ends id s = ground arith

group_members-leaves :
    (id : Text) (s t : State) (ms : List GroupMember)
    → IsFlat s.store.db
    → group_members id s ≡ (ok ms, t)
    → All IsLeaf ms
unfolding group_members
group_members-leaves id s t ms h e =
    subst (All IsLeaf) (sym (query_ok (members_of (trim_space id)) s ms t e).0)
      (members_of-leaves (trim_space id) s.store.db h)

through-Same :
    (m n : ℕ) (scope : Scope) (id : Text) (s : State)
    → IsFlat s.store.db
    → Same
        (group_members id >>= λ ms. apply_members (apply_target (suc m)) scope ms)
        (group_members id >>= λ ms. apply_members (apply_target (suc n)) scope ms)
        s
through-Same m n scope id s h =
    Same-bind _ _ _ _ s (record { agree = refl; ends = group_members_ends id s })
      (λ ms t e. members-Same m n scope ms t (group_members-leaves id s t ms h e))

Same-if :
    {A : Type 0} (b : Bool) (m m' n n' : Db A) (s : State)
    → Same m m' s
    → Same n n' s
    → Same (if b then m else n) (if b then m' else n') s
Same-if true m m' n n' s h k = h
Same-if false m m' n n' s h k = k

target-Same :
    (m n : ℕ) (scope : Scope) (type id : Text) (s : State)
    → IsFlat s.store.db
    → Same (apply_target (suc (suc m)) scope type id) (apply_target (suc (suc n)) scope type id) s
unfolding apply_target pure
target-Same m n scope type id s h =
    let leaf = apply_leaf scope (normalize_target_type type) (trim_space id) in
    Same-if (is_empty (trim_space id)) _ _ _ _ s (Same-pure scope s) (
      Same-if (text_eq (normalize_target_type type) binding_group) _ _ leaf leaf s
        (through-Same m n scope (trim_space id) s h)
        (record {
          agree = refl;
          ends = apply_leaf_ends scope (normalize_target_type type) (trim_space id) s;
        }))

bindings-Same :
    (m n : ℕ) (scope : Scope) (bs : List Binding) (s : State)
    → IsFlat s.store.db
    → Same (apply_bindings (suc (suc m)) scope bs) (apply_bindings (suc (suc n)) scope bs) s
unfolding apply_bindings pure
bindings-Same m n scope [] s h = Same-pure scope s
bindings-Same m n scope (b ∷ bs) s h =
    let scope₁ : Scope = record scope { has_bindings = true } in
    Same-bind _ _ _ _ s (target-Same m n scope₁ b.target_type b.target_id s h) (λ scope' t e.
      bindings-Same m n scope' bs t (
        subst (λ x. IsFlat x.db)
          (sym (
            read_same s t (ok scope')
              (apply_target-ReadsOnly (suc (suc m)) scope₁ b.target_type b.target_id) e))
          h))

key_bindings_ends : (id : Text) (s : State) → (key_bindings id s).0 ≢ err Error.stack_overflow
unfolding key_bindings query
key_bindings_ends id s = ground arith

pub key_bindings-ReadsOnly : (id : Text) → ReadsOnly (key_bindings id)
unfolding key_bindings
key_bindings-ReadsOnly id = search reads_rules

-- Where no group is a member of a group, ResolveScope ends, and its result does not depend on how
-- deep the recursion is allowed to go.
pub resolve_scope_ends :
    (n : ℕ) (key_id : Text) (s : State)
    → IsFlat s.store.db
    → ((resolve_scope key_id s).0 ≢ err Error.stack_overflow)
      × (resolve_scope_fuel (suc (suc n)) key_id s ≡ resolve_scope key_id s)
unfolding resolve_scope resolve_scope_fuel
resolve_scope_ends n key_id s h =
    let same =
      Same-bind (key_bindings key_id) (key_bindings key_id)
        (apply_bindings (suc (suc n)) empty_scope) (apply_bindings 2 empty_scope) s
        (record { agree = refl; ends = key_bindings_ends key_id s })
        (λ bs t e. bindings-Same n 0 empty_scope bs t (
          subst (λ x. IsFlat x.db) (sym (read_same s t (ok bs) (key_bindings-ReadsOnly key_id) e))
            h)) in
    (λ e. same.ends (rw same.agree e), same.agree)
