-- ===== src/Access/Db/Reads.antt =====
-- Rules for operations that change nothing which a later operation reads.
use cpa_access_manager.Base.{
  ◌≡◌, refl, sym, ap, ◌∙◌, subst, Bool, true, false, Option, arith, if◌then◌else◌,
}
use cpa_access_manager.Access.Types.{Error}
use cpa_access_manager.Access.Db.{
  Result, Store, State, Db, ◌>>=◌, pure, fail, lift, gets, query, query_row, or_zero, attempt,
}
use cpa_access_manager.Access.Db.Keeps.{Keeps, Keeps-bind, Keeps-or_zero}
use cpa_access_manager.Access.Db.Schema.{Tables}

-- The operation changes nothing that later operations read.
pub record ReadsOnly {A : Type 0} (m : Db A) : Type 0 where
  pub same : (s : State) → (m s).1.store ≡ s.store

-- The store after a read is the store before it.
pub read_same :
    {A : Type 0} {m : Db A} (s t : State) (r : Result A)
    → ReadsOnly m
    → m s ≡ (r, t)
    → t.store ≡ s.store
read_same {A} s t r k e = sym (ap (λ (x : Result A × State). x.1.store) e) ∙ k.same s

-- Reads, one rule for each way to build them.
module _ {A : Type 0} where
  pub ReadsOnly-pure : (a : A) → ReadsOnly (pure a)
  unfolding pure
  ReadsOnly-pure a = record { same = λ s. refl }

  pub ReadsOnly-fail : (e : Error) → ReadsOnly (fail {A = A} e)
  unfolding fail
  ReadsOnly-fail e = record { same = λ s. refl }

  pub ReadsOnly-lift : (r : Result A) → ReadsOnly (lift r)
  unfolding lift
  ReadsOnly-lift r = record { same = λ s. refl }

  pub ReadsOnly-gets : (f : Store → A) → ReadsOnly (gets f)
  unfolding gets
  ReadsOnly-gets f = record { same = λ s. refl }

  pub ReadsOnly-query : (f : Tables → A) → ReadsOnly (query f)
  unfolding query
  ReadsOnly-query f = record { same = λ s. ground arith }

  pub ReadsOnly-query_row : (e : Error) (f : Tables → Option A) → ReadsOnly (query_row e f)
  unfolding query_row
  ReadsOnly-query_row e f = record { same = λ s. ground arith }

  pub ReadsOnly-if :
      (b : Bool) (m n : Db A) → ReadsOnly m → ReadsOnly n → ReadsOnly (if b then m else n)
  ReadsOnly-if true m n km kn = km
  ReadsOnly-if false m n km kn = kn

  pub ReadsOnly-or_zero : (a : A) (m : Db A) → ReadsOnly m → ReadsOnly (or_zero a m)
  ReadsOnly-or_zero a m k = record {
    same = λ s.
        (Keeps-or_zero {P = λ t. t ≡ s.store} a m (record { kept = λ t h. k.same t ∙ h })).kept s
          refl;
  }

  pub ReadsOnly-attempt : (m : Db A) → ReadsOnly m → ReadsOnly (attempt m)
  unfolding attempt
  ReadsOnly-attempt m k = record { same = k.same }

pub ReadsOnly-bind :
    {A B : Type 0} (m : Db A) (f : A → Db B)
    → ReadsOnly m
    → ((a : A) → ReadsOnly (f a))
    → ReadsOnly (m >>= f)
ReadsOnly-bind m f km kf = record {
  same = λ s.
      (Keeps-bind {P = λ t. t ≡ s.store} m f (record { kept = λ t h. km.same t ∙ h })
          (λ a. record { kept = λ t h. (kf a).same t ∙ h })).kept
        s refl;
}

pub ruleset reads_rules = (
  ReadsOnly-pure, ReadsOnly-fail, ReadsOnly-lift, ReadsOnly-gets, ReadsOnly-query,
  ReadsOnly-query_row, ReadsOnly-if, ReadsOnly-or_zero, ReadsOnly-attempt, ReadsOnly-bind,
)

pub Keeps-of_ReadsOnly : {A : Type 0} {P : Store → Type 0} (m : Db A) → ReadsOnly m → Keeps P m
Keeps-of_ReadsOnly {P} m r = record { kept = λ s h. subst P (sym (r.same s)) h }
