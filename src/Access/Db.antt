-- ===== src/Access/Db.antt =====
-- The `Store` of internal/access/store.go and the monad of its operations. A statement runs against
-- the tables or fails as a whole, as SQLite's do. Which statements fail is the environment's choice:
-- each takes the next entry of `faults`, and runs when the list is used up. What an operation reads
-- from the clock and from the random source is an argument of it.
pub mod Schema
pub mod Success
pub mod Keeps
pub mod Reads
use cpa_access_manager.Base.{ℕ, Bool, true, false, List, [], ◌∷◌, Option, none, some, if◌then◌else◌}
use cpa_access_manager.Base.Text.{Text}
use cpa_access_manager.Access.Types.{Error}
use cpa_access_manager.Access.Db.Schema.{Tables}

pub data Result (A : Type 0) : Type 0 where
  ok : A → Result A
  err : Error → Result A

-- `routingMu` makes each routing call one step of the model.
pub record Store : Type 0 where
  pub db : Tables
  pub allow_unpriced : Bool
  pub routing_cursor : Text → ℕ

pub record State : Type 0 where
  pub store : Store
  pub faults : List Bool

abbrev pub Db : Type 0 → Type 0
Db A = State → Result A × State

abbrev pub continue_with : {A B : Type 0} → Result A × State → (A → Db B) → Result B × State
continue_with (ok a, s) f = f a s
continue_with (err e, s) f = (err e, s)

infixl 5 ◌>>=◌ ◌>>◌
unfoldable pub ◌>>=◌ : {A B : Type 0} → Db A → (A → Db B) → Db B
◌>>=◌ m f s = continue_with (m s) f

abbrev pub ◌>>◌ : {B : Type 0} → Db (Unit {0}) → Db B → Db B
m >> k = m >>= λ _. k

unfoldable pub pure : {A : Type 0} → A → Db A
pure a s = (ok a, s)

unfoldable pub fail : {A : Type 0} → Error → Db A
fail e s = (err e, s)

unfoldable pub lift : {A : Type 0} → Result A → Db A
lift r s = (r, s)

abbrev pub zeroed : {A : Type 0} → A → Result A × State → Result A × State
zeroed a (ok x, s) = (ok x, s)
zeroed a (err e, s) = (ok a, s)

-- `x, _ := m`: an error leaves the zero value `a`.
unfoldable pub or_zero : {A : Type 0} → A → Db A → Db A
or_zero a m s = zeroed a (m s)

-- `x, err := m`, where the code goes on with both.
unfoldable pub attempt : {A : Type 0} → Db A → Db (Result A)
attempt m s = let (r, s') = m s in (ok r, s')

-- The settings and cursors of the store.
unfoldable pub gets : {A : Type 0} → (Store → A) → Db A
gets f s = (ok (f s.store), s)

next_fault : List Bool → Bool
next_fault [] = false
next_fault (b ∷ rest) = b

later_faults : List Bool → List Bool
later_faults [] = []
later_faults (b ∷ rest) = rest

-- One statement: a function from the tables to its result and the tables after it.
unfoldable pub statement : {A : Type 0} → (Tables → Result A × Tables) → Db A
unfolding next_fault later_faults
statement f s =
    let rest = later_faults s.faults in
    let (r, t) = f s.store.db in
    if next_fault s.faults
    then (err Error.fault, record s { faults = rest })
    else (r, record { store = record s.store { db = t }; faults = rest })

-- A SELECT.
unfoldable pub query : {A : Type 0} → (Tables → A) → Db A
unfolding statement
query f = statement (λ t. (ok (f t), t))

unfoldable pub row_or : {A : Type 0} → Error → Option A → Result A
row_or e none = err e
row_or e (some a) = ok a

-- A SELECT of one row; `e` is what the caller makes of sql.ErrNoRows.
unfoldable pub query_row : {A : Type 0} → Error → (Tables → Option A) → Db A
unfolding statement row_or
query_row e f = statement (λ t. (row_or e (f t), t))

-- An INSERT, UPDATE or DELETE that cannot break a constraint.
unfoldable pub exec : (Tables → Tables) → Db (Unit {0})
unfolding statement
exec f = statement (λ t. (ok tt, f t))

unfoldable pub constrained : Error → Tables → Option Tables → Result (Unit {0}) × Tables
constrained e t none = (err e, t)
constrained e t (some t') = (ok tt, t')

-- A statement that a constraint may refuse (`none`), with the error that the caller then returns.
unfoldable pub exec_checked : Error → (Tables → Option Tables) → Db (Unit {0})
unfolding statement constrained
exec_checked e f = statement (λ t. constrained e t (f t))

unfoldable pub rolled_back : {A : Type 0} → Tables → Result A × State → Result A × State
rolled_back t (ok a, s) = (ok a, s)
rolled_back t (err e, s) = (err e, record s { store = record s.store { db = t } })

abbrev begin_or_commit : Db (Unit {0})
begin_or_commit = exec (λ t. t)

-- BeginTx, the body and Commit.
unfoldable pub committed : {A : Type 0} → Db A → Db A
unfolding ◌>>=◌ pure exec
committed m = do begin_or_commit; a ← m; begin_or_commit; pure a

-- The deferred rollback undoes what an error leaves behind.
unfoldable pub transaction : {A : Type 0} → Db A → Db A
unfolding rolled_back committed
transaction m s = rolled_back s.store.db (committed m s)
