-- ===== src/Effect/Monad.antt =====
-- Actions: what a call of a service does to the database, and how it ends. The sentinel errors are
-- those of internal/application/borrow/service.go and internal/application/workorder/service.go.
use scc_backend.Base.{String, ℕ, suc, Bool, Option, none, some, if◌then◌else◌}
use scc_backend.Store.{Db}

-- The sentinel errors of the services, by what errors.Is finds; `internal` is any other error.
pub data Error : Type 0 where
  not_found state_invalid forbidden conflict validation : Error
  insufficient_stock : ℕ → ℕ → Error
  driver not_configured internal : Error
  evidence_required evidence_invalid evidence_unavailable : Error

pub data Result {ℓ} (A : Type ℓ) : Type ℓ where
  ok : A → Result A
  err : Error → Result A

-- What surrounds one call: the clock, the identifiers that uuid.NewString hands out, which
-- statements the database fails, the dialect, the order of the database's texts, and which of the
-- service's collaborators are configured; and two functions of third parties: `norm.NFC.String`, and
-- whether `uuid.Parse` accepts a text. Clock and faults are read at the number of the statement.
pub record Env : Type 0 where
  pub clock : ℕ → ℕ
  pub uuid : ℕ → String
  pub fault : ℕ → Bool
  pub is_postgres : Bool
  pub before : String → String → Bool
  pub nfc : String → String
  pub is_uuid : String → Bool
  pub has_repo : Bool
  pub has_db : Bool
  pub has_notif_repo : Bool

pub record Session : Type 0 where
  pub db : Db
  pub statements : ℕ
  pub minted : ℕ

-- What was written stays written after an error, unless a transaction takes it back.
abbrev pub Action : Type 0 → Type 0
Action A = Env → Session → Result A × Session

module _ {A : Type 0} where
  abbrev pub pure : A → Action A
  pure a c s = (ok a, s)

  abbrev pub fail : Error → Action A
  fail e c s = (err e, s)

  -- What follows a first action, by how that ended.
  unfoldable pub after :
      {B : Type 0} → (A → Action B) → Env → Result A × Session → Result B × Session
  after f c (ok a, s) = f a c s
  after f c (err e, s) = (err e, s)

infixl 5 ◌>>=◌ ◌>>◌
abbrev pub ◌>>=◌ : {A B : Type 0} → Action A → (A → Action B) → Action B
◌>>=◌ m f c s = after f c (m c s)

abbrev pub ◌>>◌ : {B : Type 0} → Action (Unit {0}) → Action B → Action B
m >> k = m >>= λ _. k

-- `if refused { return err }`
abbrev pub refuse_if : Bool → Error → Action (Unit {0})
refuse_if b e c s = (if b then err e else ok tt, s)

-- One round trip to the database.
unfoldable pub statement : Action (Unit {0})
statement c s =
    (if c.fault s.statements then err driver else ok tt, record s { statements = suc s.statements })

-- A SELECT.
unfoldable pub query : {A : Type 0} → (Db → A) → Action A
unfolding statement after
query f = statement >> λ c s. (ok (f s.db), s)

-- An INSERT or an UPDATE.
unfoldable pub execute : (Db → Db) → Action (Unit {0})
unfolding statement after
execute f = statement >> λ c s. (ok tt, record s { db = f s.db })

-- An UPDATE, and the number of rows that it affected.
unfoldable pub update_rows : (Db → ℕ) → (Db → Db) → Action ℕ
unfolding statement after
update_rows affected f = statement >> λ c s. (ok (affected s.db), record s { db = f s.db })

-- An INSERT that the database refuses when a unique key is taken.
unfoldable pub insert_unless : (Db → Bool) → (Db → Db) → Action (Unit {0})
unfolding statement after
insert_unless is_taken f =
    statement >> λ c s. if is_taken s.db then (err driver, s) else (ok tt, record s { db = f s.db })

-- INSERT … ON CONFLICT (a key) DO NOTHING, and the number of rows that it inserted: a conflict on
-- that key is no error, one on another unique key is.
unfoldable pub insert_or_ignore : (Db → Bool) → (Db → Bool) → (Db → Db) → Action ℕ
unfolding statement after
insert_or_ignore conflicts is_taken f = statement >> λ c s.
    if conflicts s.db
    then (ok 0, s)
    else if is_taken s.db
    then (err driver, s)
    else (ok 1, record s { db = f s.db })

abbrev pub or_fail : {A : Type 0} → Option A → Error → Action A
or_fail none e = fail e
or_fail (some a) e = pure a

-- time.Now().UTC()
unfoldable pub time_now : Action ℕ
time_now c s = (ok (c.clock s.statements), s)

-- uuid.NewString()
unfoldable pub new_uuid : Action String
new_uuid c s = (ok (c.uuid s.minted), record s { minted = suc s.minted })

abbrev pub ask : {A : Type 0} → (Env → A) → Action A
ask f c s = (ok (f c), s)

abbrev pub rolled_back : {A : Type 0} → Db → Result A × Session → Result A × Session
rolled_back db (ok a, s) = (ok a, s)
rolled_back db (err e, s) = (err e, record s { db = db })

-- `db.Transaction(func(tx) …)`: BEGIN, the body, COMMIT.
unfoldable pub transaction : {A : Type 0} → Action A → Action A
unfolding statement after
transaction m c s = rolled_back s.db ((statement >> (m >>= λ a. statement >> pure a)) c s)

-- A call whose error is logged and dropped.
abbrev pub ignore_error : {A : Type 0} → Result A × Session → Result (Unit {0}) × Session
ignore_error (ok a, s) = (ok tt, s)
ignore_error (err e, s) = (ok tt, s)

abbrev pub ignoring : {A : Type 0} → Action A → Action (Unit {0})
ignoring m c s = ignore_error (m c s)

abbrev pub map_result : {A : Type 0} → (Error → Error) → Result A × Session → Result A × Session
map_result f (ok a, s) = (ok a, s)
map_result f (err e, s) = (err (f e), s)

-- An error wrapped into another.
abbrev pub map_error : {A : Type 0} → (Error → Error) → Action A → Action A
map_error f m c s = map_result f (m c s)
