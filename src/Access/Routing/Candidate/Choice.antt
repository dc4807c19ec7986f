-- ===== src/Access/Routing/Candidate/Choice.antt =====
-- The candidate that PickCandidateRouted of internal/access/routing.go returns.
use cpa_access_manager.Base.{
  ◌≡◌, sym, ap, subst, inl, inr, true, not, List, [], ◌∷◌, All, In, filter, arith, All-In,
  filter-In, In-filter, filter-passes,
}
use cpa_access_manager.Base.Int.{ℤ, ◌≤ℤ◌}
use cpa_access_manager.Base.Sort.{Sorted, sort_by, sort_by-Sorted, In-sort_by, sort_by-In}
use cpa_access_manager.Base.Text.{Text, trim_space}
use cpa_access_manager.Access.Types.{Time, Candidate, Scope, Error}
use cpa_access_manager.Access.Normalize.{Platform}
use cpa_access_manager.Access.Scope.{resolve_scope}
use cpa_access_manager.Access.Routing.Candidate.{
  Request, is_match, candidate_le, same_priority, top_priority, route_top, pick_sorted,
  pick_in_scope, pick_candidate_routed,
}
use cpa_access_manager.Access.Db.{ok, State, fail}
use cpa_access_manager.Access.Db.Success.{bind_ok, unless_ok}
use cpa_access_manager.Access.Routing.Candidate.Served.{
  candidate_le_total, candidate_le_trans, top_priority-In, route_top-In,
}

-- The choice has the highest priority among the matching candidates.
record IsTop (c : Candidate) (matched : List Candidate) : Type 0 where
  chosen : In c matched
  highest : (d : Candidate) → In d matched → d.priority ≤ℤ c.priority

top_priority_head :
    (x : Candidate) (xs : List Candidate)
    → (y : Candidate) × (ys : List Candidate) × (top_priority x.priority (x ∷ xs) ≡ y ∷ ys)
unfolding top_priority same_priority
top_priority_head x xs = (x, top_priority x.priority xs, ground arith)

le_head :
    (x : Candidate) (xs : List Candidate) (d : Candidate)
    → All (λ y. candidate_le x y ≡ true) xs
    → In d (x ∷ xs)
    → d.priority ≤ℤ x.priority
unfolding candidate_le
le_head x xs d a (inl e) = subst (λ y. y.priority ≤ℤ x.priority) (sym e) (omega arith)
le_head x xs d a (inr m) =
    let le = All-In (λ y. candidate_le x y ≡ true) xs {a = d} a m in ground arith

top_le : (d x c : ℤ) → d ≤ℤ x → same_priority c x ≡ true → d ≤ℤ c
unfolding same_priority
top_le d x c l e = ground arith

pick_sorted-IsTop :
    (r : Request) (matched : List Candidate) (s s' : State) (c : Candidate)
    → Sorted candidate_le matched
    → pick_sorted r matched s ≡ (ok c, s')
    → IsTop c matched
unfolding pick_sorted fail
pick_sorted-IsTop r [] s s' c sorted h = absurd (cc)
pick_sorted-IsTop r (x ∷ xs) s s' c (a, sorted) h =
    let (y, ys, e) = top_priority_head x xs in
    let m =
      route_top-In r x.priority y ys s s' c
        (subst (λ l. route_top r x.priority l s ≡ (ok c, s')) e h) in
    let (m', same) = top_priority-In x.priority (x ∷ xs) c (subst (λ l. In c l) (sym e) m) in
    record {
      chosen = m';
      highest = λ d n. top_le d.priority x.priority c.priority (le_head x xs d a n) same;
    }

-- What PickCandidateRouted returns.
pub record IsPick (p : Platform) (scope : Scope) (provider : Text) (candidates : List Candidate)
    (c : Candidate) : Type 0 where
  pub bound : scope.has_bindings ≡ true
  pub offered : In c candidates
  pub allowed : is_match p scope provider c ≡ true
  pub highest :
      (d : Candidate)
      → In d candidates
      → is_match p scope provider d ≡ true
      → d.priority ≤ℤ c.priority

pick_in_scope_ok :
    (p : Platform) (scope : Scope) (r : Request) (cs : List Candidate) (present : Time)
    (s s' : State) (c : Candidate)
    → pick_in_scope p scope r cs present s ≡ (ok c, s')
    → IsPick p scope r.provider cs c
unfolding pick_in_scope
pick_in_scope_ok p scope r cs present s s' c h =
    let (bound, h1) = unless_ok (not scope.has_bindings) Error.no_bindings _ s s' c h in
    let (u, t, noted, h2) = bind_ok _ _ s c s' h1 in
    let matched = filter (is_match p scope r.provider) cs in
    let top =
      pick_sorted-IsTop r (sort_by candidate_le matched) t s' c
        (sort_by-Sorted candidate_le candidate_le_total candidate_le_trans matched) h2 in
    let m = In-sort_by candidate_le c matched top.chosen in
    record {
      bound = ground arith;
      offered = In-filter (is_match p scope r.provider) cs c m;
      allowed =
          All-In (λ x. is_match p scope r.provider x ≡ true) matched {a = c}
            (filter-passes (is_match p scope r.provider) cs) m;
      highest = λ d n e.
          top.highest d
            (sort_by-In candidate_le d matched (filter-In (is_match p scope r.provider) cs d n e));
    }

-- Whatever statements fail, a candidate that PickCandidateRouted returns is one of those offered, the
-- scope of the key has bindings and allows it, it has the provider asked for, and no other candidate
-- of which the same holds has a higher priority; this is so for a sticky session too.
pub pick_candidate_routed_safe :
    (p : Platform) (key_id model provider hash : Text) (cs : List Candidate) (now present : Time)
    (s s' : State) (c : Candidate)
    → pick_candidate_routed p key_id model provider hash cs now present s ≡ (ok c, s')
    → (scope : Scope) × ((resolve_scope key_id s).0 ≡ ok scope)
      × IsPick p scope (trim_space provider) cs c
unfolding pick_candidate_routed
pick_candidate_routed_safe p key_id model provider hash cs now present s s' c h =
    let (scope, t, found, h1) = bind_ok (resolve_scope key_id) _ s c s' h in
    (scope, ap (λ r. r.0) found, pick_in_scope_ok p scope _ cs present t s' c h1)
