-- ===== src/Access/Routing/Candidate/Served.antt =====
-- The steps of PickCandidateRouted of internal/access/routing.go return one of the candidates they
-- are given.
use cpa_access_manager.Base.{
  ℕ, ◌%◌, ◌<◌, ◌≡◌, refl, sym, subst, ◌⊎◌, inl, inr, true, false, ◌&&◌, ◌||◌, List, [], ◌∷◌, Option,
  none, some, In, arith, length, get_or, Bool-cases, find-In,
}
use native.Mathlib.Nat.{mod-lt}
use cpa_access_manager.Base.Int.{ℤ}
use cpa_access_manager.Base.Text.{
  Text, is_empty, text_ltb_irrefl, text_ltb_trans, text_leb_trans, text_eq,
}
use cpa_access_manager.Access.Types.{Time, Candidate}
use cpa_access_manager.Access.Time.{after}
use cpa_access_manager.Access.Routing.Cursor.{next_routing_value}
use cpa_access_manager.Access.Routing.Fairness.{get_or-In}
use cpa_access_manager.Access.Routing.Session.{RoutingSession, save_routing_session}
use cpa_access_manager.Access.Routing.Candidate.{
  Request, candidate_le, same_priority, top_priority, ids_of, by_id, candidate_cursor,
  or_zero_candidate, next_candidate, sticky_candidate, route_candidate, route_top,
}
use cpa_access_manager.Access.Db.{ok, State, ◌>>=◌, pure}
use cpa_access_manager.Access.Db.Success.{bind_ok, pure_ok, if_ok, transaction_ok}

by_id-finds :
    (id : Text) (cs : List Candidate) → In id (ids_of cs) → (c : Candidate) × (by_id id cs ≡ some c)
unfolding by_id
by_id-finds id [] m = absurd m
by_id-finds id (x ∷ xs) (inl e) = elim (by_id_cases (by_id id xs)) [
  | inl (d, r) ↦ (d, rw r refl)
  | inr r ↦ (x, rw r (ground arith))
]
  where
    by_id_cases : (o : Option Candidate) → ((d : Candidate) × (o ≡ some d)) ⊎ (o ≡ none)
    by_id_cases none = inr refl
    by_id_cases (some d) = inl (d, refl)
by_id-finds id (x ∷ xs) (inr m) = let (d, r) = by_id-finds id xs m in (d, rw r refl)

by_id-In : (id : Text) (cs : List Candidate) (c : Candidate) → by_id id cs ≡ some c → In c cs
unfolding by_id
by_id-In id [] c h = absurd (cc)
by_id-In id (x ∷ xs) c h = ground (arith, by_id-In id xs c)

length-ids_of : (cs : List Candidate) → length (ids_of cs) ≡ length cs
length-ids_of [] = refl
length-ids_of (c ∷ cs) = omega (arith, length-ids_of cs)

candidate_at :
    (i : ℕ) (cs : List Candidate)
    → i < length cs
    → In (or_zero_candidate (by_id (get_or (ids_of cs) i []) cs)) cs
unfolding or_zero_candidate
candidate_at i cs h =
    let m = get_or-In (ids_of cs) i [] (omega (arith, length-ids_of cs)) in
    let (c, r) = by_id-finds (get_or (ids_of cs) i []) cs m in
    rw r (by_id-In (get_or (ids_of cs) i []) cs c r)

mod_below : (cs : List Candidate) (n : ℕ) → 0 < length cs → n % length (ids_of cs) < length cs
mod_below cs n h =
    subst (λ l. n % length (ids_of cs) < l) (length-ids_of cs)
      (mod-lt n {m = length (ids_of cs)} (omega (arith, length-ids_of cs)))

next_candidate-In :
    (key_id model provider : Text) (priority : ℤ) (d : Candidate) (ds : List Candidate)
    (s s' : State) (c : Candidate)
    → next_candidate key_id model provider priority (d ∷ ds) s ≡ (ok c, s')
    → In c (d ∷ ds)
unfolding next_candidate next_routing_value ◌>>=◌ pure
next_candidate-In key_id model provider priority d ds s s' c h =
    let found =
      candidate_at
        (s.store.routing_cursor (candidate_cursor key_id model provider priority)
          % length (ids_of (d ∷ ds)))
        (d ∷ ds) (mod_below (d ∷ ds) _ (omega arith)) in
    subst (λ y. In y (d ∷ ds)) (sym (pure_ok _ _ c s' h).0) found

sticky-In :
    (top : List Candidate) (now : Time) (o : Option RoutingSession) (c : Candidate)
    → sticky_candidate top now o ≡ some c
    → In c top
unfolding sticky_candidate
sticky-In top now none c h = absurd (cc)
sticky-In top now (some m) c h = elim (Bool-cases (after m.expires_at now)) [
  | inl e ↦
      find-In
        (λ d. text_eq d.id m.auth_id && (is_empty m.provider || text_eq d.provider m.provider)) top
        c (ground arith)
  | inr e ↦ absurd (ground arith)
]

pub candidate_le_total : (a b : Candidate) → candidate_le a b ≡ false → candidate_le b a ≡ true
unfolding candidate_le
candidate_le_total a b h = ground (arith, text_ltb_trans a.id b.id a.id, text_ltb_irrefl a.id)

pub candidate_le_trans :
    (a b c : Candidate)
    → candidate_le a b ≡ true
    → candidate_le b c ≡ true
    → candidate_le a c ≡ true
unfolding candidate_le
candidate_le_trans a b c h k = ground (arith, text_leb_trans a.id b.id c.id)

pub top_priority-In :
    (p : ℤ) (cs : List Candidate) (c : Candidate)
    → In c (top_priority p cs)
    → In c cs × (same_priority c.priority p ≡ true)
unfolding top_priority
top_priority-In p [] c m = absurd m
top_priority-In p (x ∷ xs) c m = ground (arith, top_priority-In p xs c)

In-nonempty : {A : Type 0} (a : A) (xs : List A) → In a xs → (x : A) × (ys : List A) × (xs ≡ x ∷ ys)
In-nonempty a [] m = absurd m
In-nonempty a (x ∷ xs) m = (x, xs, refl)

route_candidate-In :
    (r : Request) (priority : ℤ) (d : Candidate) (ds : List Candidate) (o : Option Candidate)
    (s s' : State) (c : Candidate)
    → ((x : Candidate) → o ≡ some x → In x (d ∷ ds))
    → route_candidate r priority (d ∷ ds) o s ≡ (ok c, s')
    → In c (d ∷ ds)
unfolding route_candidate
route_candidate-In r priority d ds (some x) s s' c k h =
    let (u, t, saved, h1) =
      bind_ok (save_routing_session r.key_id r.session_hash x.provider x.id r.now) (λ u. pure x) s c
        s' h in
    subst (λ y. In y (d ∷ ds)) (sym (pure_ok x t c s' h1).0) (k x refl)
route_candidate-In r priority d ds none s s' c k h =
    let (x, t, next, h1) =
      bind_ok (next_candidate r.key_id r.model r.provider priority (d ∷ ds)) _ s c s' h in
    let (u, t1, saved, h2) = bind_ok _ _ t c s' h1 in
    let (v, t2, dropped, h3) = bind_ok _ _ t1 c s' h2 in
    subst (λ y. In y (d ∷ ds)) (sym (pure_ok x t2 c s' h3).0)
      (next_candidate-In r.key_id r.model r.provider priority d ds s t x next)

pub route_top-In :
    (r : Request) (priority : ℤ) (d : Candidate) (ds : List Candidate) (s s' : State)
    (c : Candidate)
    → route_top r priority (d ∷ ds) s ≡ (ok c, s')
    → In c (d ∷ ds)
unfolding route_top
route_top-In r priority d ds s s' c h = elim (if_ok (is_empty r.session_hash) _ _ s s' c h) [
  | inl k ↦ next_candidate-In r.key_id r.model r.provider priority d ds s s' c k
  | inr k ↦
      let (t, t', body, same) = transaction_ok _ s c s' k in
      let (m, t1, loaded, h1) = bind_ok _ _ t c t' body in
      route_candidate-In r priority d ds (sticky_candidate (d ∷ ds) r.now m) t1 t' c
        (λ x e. sticky-In (d ∷ ds) r.now m x e) h1
]
