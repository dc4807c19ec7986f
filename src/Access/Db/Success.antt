-- ===== src/Access/Db/Success.antt =====
-- Rules for reasoning about operations without running them: what the success or failure of a step
-- shows.
use cpa_access_manager.Base.{
  ◌≡◌, refl, sym, ap, subst, ◌∙◌, ◌⊎◌, inl, inr, Bool, true, false, Option, none, some, arith,
  if◌then◌else◌,
}
use cpa_access_manager.Access.Types.{Error}
use cpa_access_manager.Access.Db.{
  Result, ok, err, State, Db, continue_with, ◌>>=◌, ◌>>◌, begin_or_commit, pure, fail, statement,
  query, query_row, row_or, exec, transaction, committed, rolled_back,
}
use cpa_access_manager.Access.Db.Schema.{Tables}

module _ {A B : Type 0} where
  continue_ok :
      (r : Result A × State) (f : A → Db B) (b : B) (s' : State)
      → continue_with r f ≡ (ok b, s')
      → (a : A) × (t : State) × (r ≡ (ok a, t)) × (f a t ≡ (ok b, s'))
  continue_ok (ok a, t) f b s' h = (a, t, refl, h)
  continue_ok (err e, t) f b s' h = absurd (cc)

  -- A sequence succeeds if both its parts do.
  pub bind_ok :
      (m : Db A) (f : A → Db B) (s : State) (b : B) (s' : State)
      → (m >>= f) s ≡ (ok b, s')
      → (a : A) × (t : State) × (m s ≡ (ok a, t)) × (f a t ≡ (ok b, s'))
  unfolding ◌>>=◌
  bind_ok m f s b s' h = continue_ok (m s) f b s' h

module _ {A : Type 0} where
  pub pure_ok :
      (a : A) (t : State) (b : A) (t' : State) → pure a t ≡ (ok b, t') → (b ≡ a) × (t' ≡ t)
  unfolding pure
  pure_ok a t b t' h = ground arith

  -- A test that fails with `true` was false where the operation succeeded.
  pub unless_ok :
      (b : Bool) (e : Error) (m : Db A) (s s' : State) (a : A)
      → (if b then fail e else m) s ≡ (ok a, s')
      → (b ≡ false) × (m s ≡ (ok a, s'))
  unfolding fail
  unless_ok true e m s s' a h = absurd (cc)
  unless_ok false e m s s' a h = (refl, h)

  pub if_ok :
      (b : Bool) (m n : Db A) (s s' : State) (a : A)
      → (if b then m else n) s ≡ (ok a, s')
      → (m s ≡ (ok a, s')) ⊎ (n s ≡ (ok a, s'))
  if_ok true m n s s' a h = inl h
  if_ok false m n s s' a h = inr h

  -- The same, with what the test said.
  pub test_ok :
      (b : Bool) (m n : Db A) (s s' : State) (a : A)
      → (if b then m else n) s ≡ (ok a, s')
      → ((b ≡ true) × (m s ≡ (ok a, s'))) ⊎ ((b ≡ false) × (n s ≡ (ok a, s')))
  test_ok true m n s s' a h = inl (refl, h)
  test_ok false m n s s' a h = inr (refl, h)

  pub statement_ok :
      (f : Tables → Result A × Tables) (s : State) (a : A) (s' : State)
      → statement f s ≡ (ok a, s')
      → ((f s.store.db).0 ≡ ok a) × (s'.store ≡ record s.store { db = (f s.store.db).1 })
  unfolding statement
  statement_ok f s a s' h = ground arith

  row_or_ok : (e : Error) (o : Option A) (a : A) → row_or e o ≡ ok a → o ≡ some a
  unfolding row_or
  row_or_ok e none a h = absurd (cc)
  row_or_ok e (some x) a h = cc

  pub query_ok :
      (f : Tables → A) (s : State) (a : A) (s' : State)
      → query f s ≡ (ok a, s')
      → (a ≡ f s.store.db) × (s'.store ≡ s.store)
  unfolding query
  query_ok f s a s' h = ground arith

  pub query_row_ok :
      (e : Error) (f : Tables → Option A) (s : State) (a : A) (s' : State)
      → query_row e f s ≡ (ok a, s')
      → (f s.store.db ≡ some a) × (s'.store ≡ s.store)
  unfolding query_row
  query_row_ok e f s a s' h =
      let (r, same) = statement_ok (λ t. (row_or e (f t), t)) s a s' h in
      (row_or_ok e (f s.store.db) a r, same)

begin_or_commit_ok : (s t : State) → begin_or_commit s ≡ (ok tt, t) → t.store ≡ s.store
unfolding exec
begin_or_commit_ok s t h = (statement_ok (λ d. (ok tt, d)) s tt t h).1

module _ {A : Type 0} where
  rolled_back_err :
      (t : Tables) (r : Result A × State) (e : Error) (s' : State)
      → rolled_back t r ≡ (err e, s')
      → s'.store.db ≡ t
  unfolding rolled_back
  rolled_back_err t (ok a, s) e s' h = absurd (cc)
  rolled_back_err t (err x, s) e s' h = ground arith

  -- A transaction that fails leaves the tables as they were.
  pub transaction_err :
      (m : Db A) (s : State) (e : Error) (s' : State)
      → transaction m s ≡ (err e, s')
      → s'.store.db ≡ s.store.db
  unfolding transaction
  transaction_err m s e s' h = rolled_back_err s.store.db (committed m s) e s' h

  rolled_back_ok :
      (t : Tables) (r : Result A × State) (a : A) (s' : State)
      → rolled_back t r ≡ (ok a, s')
      → r ≡ (ok a, s')
  unfolding rolled_back
  rolled_back_ok t (ok b, s) a s' h = h
  rolled_back_ok t (err x, s) a s' h = absurd (cc)

  -- A transaction succeeds if its body does, run after BEGIN.
  pub transaction_ok :
      (m : Db A) (s : State) (a : A) (s' : State)
      → transaction m s ≡ (ok a, s')
      → (t : State) × (t' : State) × (m t ≡ (ok a, t'))
        × ((t.store ≡ s.store) × (s'.store ≡ t'.store))
  unfolding transaction committed
  transaction_ok m s a s' h =
      let (u, t, begun, h1) =
        bind_ok begin_or_commit (λ u. m >>= λ b. begin_or_commit >> pure b) s a s'
          (rolled_back_ok s.store.db (committed m s) a s' h) in
      let (b, t', done, h2) = bind_ok m (λ b. begin_or_commit >> pure b) t a s' h1 in
      let (v, t'', ended, h3) = bind_ok begin_or_commit (λ u. pure b) t' a s' h2 in
      let (same, last) = pure_ok b t'' a s' h3 in
      (
        t,
        t',
        subst (λ x. m t ≡ (ok x, t')) (sym same) done,
        (begin_or_commit_ok s t begun, ap (λ x. x.store) last ∙ begin_or_commit_ok t' t'' ended),
      )
