-- ===== src/Access/Db/Keeps.antt =====
-- Rules for what every step of an operation keeps, also a step that fails.
use cpa_access_manager.Base.{
  ◌≡◌, refl, subst, Bool, true, false, Option, none, some, arith, if◌then◌else◌,
}
use cpa_access_manager.Access.Types.{Error}
use cpa_access_manager.Access.Db.{
  Result, ok, err, Store, State, Db, continue_with, ◌>>=◌, pure, fail, lift, gets, statement, query,
  query_row, exec, exec_checked, constrained, transaction, committed, rolled_back, or_zero, zeroed,
  attempt,
}
use cpa_access_manager.Access.Db.Schema.{Tables}

-- The operation keeps a property of the store, also when it fails.
pub record Keeps {A : Type 0} (P : Store → Type 0) (m : Db A) : Type 0 where
  pub kept : (s : State) → P s.store → P (m s).1.store

keeps_zeroed :
    {A : Type 0} (P : Store → Type 0) (a : A) (r : Result A × State)
    → P r.1.store
    → P (zeroed a r).1.store
keeps_zeroed P a (ok x, s) h = h
keeps_zeroed P a (err e, s) h = h

module _ {A : Type 0} {P : Store → Type 0} where
  pub Keeps-query : (f : Tables → A) → Keeps P (query f)
  unfolding query
  Keeps-query f = record { kept = λ s h. ground arith }

  pub Keeps-gets : (f : Store → A) → Keeps P (gets f)
  unfolding gets
  Keeps-gets f = record { kept = λ state holds. holds }

  pub Keeps-query_row : (e : Error) (f : Tables → Option A) → Keeps P (query_row e f)
  unfolding query_row
  Keeps-query_row e f = record { kept = λ s h. ground arith }

  pub Keeps-fail : (e : Error) → Keeps P (fail {A = A} e)
  unfolding fail
  Keeps-fail e = record { kept = λ state holds. holds }

  pub Keeps-pure : (a : A) → Keeps P (pure a)
  unfolding pure
  Keeps-pure a = record { kept = λ state holds. holds }

  pub Keeps-lift : (r : Result A) → Keeps P (lift r)
  unfolding lift
  Keeps-lift r = record { kept = λ state holds. holds }

  pub Keeps-if : (b : Bool) (m n : Db A) → Keeps P m → Keeps P n → Keeps P (if b then m else n)
  Keeps-if true m n km kn = km
  Keeps-if false m n km kn = kn

  pub Keeps-or_zero : (a : A) (m : Db A) → Keeps P m → Keeps P (or_zero a m)
  unfolding or_zero
  Keeps-or_zero a m k = record { kept = λ s h. keeps_zeroed P a (m s) (k.kept s h) }

  pub Keeps-attempt : (m : Db A) → Keeps P m → Keeps P (attempt m)
  unfolding attempt
  Keeps-attempt m k = record { kept = k.kept }

module _ {A B : Type 0} {P : Store → Type 0} where
  keeps_continue :
      (r : Result A × State) (f : A → Db B)
      → P r.1.store
      → ((a : A) → Keeps P (f a))
      → P (continue_with r f).1.store
  keeps_continue (ok a, s) f h k = (k a).kept s h
  keeps_continue (err e, s) f h k = h

  pub Keeps-bind :
      (m : Db A) (f : A → Db B) → Keeps P m → ((a : A) → Keeps P (f a)) → Keeps P (m >>= f)
  unfolding ◌>>=◌
  Keeps-bind m f km kf = record { kept = λ s h. keeps_continue (m s) f (km.kept s h) kf }

-- The same for a property of the tables, which statements change.
pub record OnTables (Q : Tables → Type 0) (s : Store) : Type 0 where
  pub holds : Q s.db

module _ {Q : Tables → Type 0} where
  -- What is kept, after an operation whose result is known.
  pub kept_after :
      {A : Type 0} (m : Db A) (s : State) (r : Result A) (s' : State)
      → Keeps (OnTables Q) m
      → m s ≡ (r, s')
      → Q s.store.db
      → Q s'.store.db
  kept_after m s r s' k e h = subst (λ x. Q x.1.store.db) e (k.kept s (record { holds = h })).holds

  pub Keeps-exec :
      (f : Tables → Tables) → ((t : Tables) → Q t → Q (f t)) → Keeps (OnTables Q) (exec f)
  unfolding exec
  Keeps-exec f k = record {
    kept = λ s h. record { holds = ground (arith, h.holds, k s.store.db h.holds) };
  }

  pub Keeps-statement :
      {A : Type 0} (f : Tables → Result A × Tables)
      → ((t : Tables) → Q t → Q (f t).1)
      → Keeps (OnTables Q) (statement f)
  unfolding statement
  Keeps-statement f k = record {
    kept = λ s h. record { holds = ground (arith, h.holds, k s.store.db h.holds) };
  }

  keeps_constrained :
      (e : Error) (t : Tables) (o : Option Tables)
      → Q t
      → ((t' : Tables) → o ≡ some t' → Q t')
      → Q (constrained e t o).1
  unfolding constrained
  keeps_constrained e t none q k = q
  keeps_constrained e t (some t') q k = k t' refl

  pub Keeps-exec_checked :
      (e : Error) (f : Tables → Option Tables)
      → ((t t' : Tables) → Q t → f t ≡ some t' → Q t')
      → Keeps (OnTables Q) (exec_checked e f)
  unfolding exec_checked
  Keeps-exec_checked e f k = record {
    kept = λ s h. record {
      holds = ground (
        arith,
        h.holds,
        keeps_constrained e s.store.db (f s.store.db) h.holds (λ t'. k s.store.db t' h.holds),
      );
    };
  }

  module _ {A : Type 0} where
    keeps_rolled_back :
        (t : Tables) (r : Result A × State)
        → Q t
        → OnTables Q r.1.store
        → OnTables Q (rolled_back t r).1.store
    unfolding rolled_back
    keeps_rolled_back t (ok a, s) p q = q
    keeps_rolled_back t (err e, s) p q = record { holds = p }

    Keeps-committed : (m : Db A) → Keeps (OnTables Q) m → Keeps (OnTables Q) (committed m)
    unfolding committed
    Keeps-committed m k = Keeps-bind _ _ (Keeps-exec (λ t. t) (λ t h. h)) (λ _.
        Keeps-bind m _ k (λ a. Keeps-bind _ _ (Keeps-exec (λ t. t) (λ t h. h)) (λ _. Keeps-pure a)))

    pub Keeps-transaction : (m : Db A) → Keeps (OnTables Q) m → Keeps (OnTables Q) (transaction m)
    unfolding transaction
    Keeps-transaction m k = record {
      kept = λ s h.
          keeps_rolled_back s.store.db (committed m s) h.holds ((Keeps-committed m k).kept s h);
    }

pub ruleset keeps_rules = (
  Keeps-pure, Keeps-fail, Keeps-lift, Keeps-gets, Keeps-query, Keeps-query_row, Keeps-if,
  Keeps-or_zero, Keeps-attempt, Keeps-bind, Keeps-transaction,
)
