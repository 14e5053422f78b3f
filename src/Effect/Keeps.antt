-- ===== src/Effect/Keeps.antt =====
-- Invariants of actions: what holds of the database before an action holds after it, whether the
-- action returns a value or an error.
use scc_backend.Base.{Bool, true, false, Option, none, some, sym, subst, if◌then◌else◌}
use scc_backend.Store.{Db}
use scc_backend.Effect.Monad.{
  Error, Result, ok, err, Env, Session, Action, after, ◌>>=◌, refuse_if, statement, query, execute,
  insert_unless, or_fail, time_now, new_uuid, ask, rolled_back, transaction, pure, ignoring,
  ignore_error,
}
use scc_backend.Effect.Ensures.{On, value, whole_rule}

abbrev insert_result : (Db → Db) → Bool → Session → Result (Unit {0}) × Session
insert_result f b s = if b then (err Error.driver, s) else (ok tt, record s { db = f s.db })

module _ (P : Db → Type 0) where
  abbrev pub Keeps : {A : Type 0} → Action A → Type 0
  Keeps m = (c : Env) (s : Session) → P s.db → P (m c s).1.db

  after-Keeps :
      {A B : Type 0} (f : A → Action B) (c : Env) (r : Result A × Session)
      → ((a : A) → Keeps (f a))
      → P r.1.db
      → P (after f c r).1.db
  unfolding after
  after-Keeps f c (ok a, t) k h = k a c t h
  after-Keeps f c (err e, t) k h = h

  pub bind-Keeps :
      {A B : Type 0} (m : Action A) (f : A → Action B)
      → Keeps m
      → ((a : A) → Keeps (f a))
      → Keeps (m >>= f)
  bind-Keeps m f h k c s p = after-Keeps f c (m c s) k (h c s p)

  pub pure-Keeps : {A : Type 0} (a : A) → Keeps (pure a)
  pure-Keeps a c s p = p

  pub refuse_if-Keeps : (b : Bool) (e : Error) → Keeps (refuse_if b e)
  refuse_if-Keeps b e c s p = p

  pub or_fail-Keeps : {A : Type 0} (o : Option A) (e : Error) → Keeps (or_fail o e)
  or_fail-Keeps none e c s p = p
  or_fail-Keeps (some a) e c s p = p

  pub ask-Keeps : {A : Type 0} (f : Env → A) → Keeps (ask f)
  ask-Keeps f c s p = p

  pub time_now-Keeps : Keeps time_now
  unfolding time_now
  time_now-Keeps c s p = p

  pub new_uuid-Keeps : Keeps new_uuid
  unfolding new_uuid
  new_uuid-Keeps c s p = p

  pub statement-Keeps : Keeps statement
  unfolding statement
  statement-Keeps c s p = p

  pub query-Keeps : {A : Type 0} (f : Db → A) → Keeps (query f)
  unfolding query
  query-Keeps f = bind-Keeps _ _ statement-Keeps λ _ c s p. p

  pub execute-Keeps : (f : Db → Db) → ((db : Db) → P db → P (f db)) → Keeps (execute f)
  unfolding execute
  execute-Keeps f h = bind-Keeps _ _ statement-Keeps λ _ c s p. h s.db p

  pub insert_unless-Keeps :
      (is_taken : Db → Bool) (f : Db → Db)
      → ((db : Db) → P db → P (f db))
      → Keeps (insert_unless is_taken f)
  unfolding insert_unless
  insert_unless-Keeps is_taken f h =
      bind-Keeps _ _ statement-Keeps λ _ c s p. either (is_taken s.db) s p
    where
      either : (b : Bool) (s : Session) → P s.db → P (insert_result f b s).1.db
      either true s p = p
      either false s p = h s.db p

  pub ignoring-Keeps : {A : Type 0} (m : Action A) → Keeps m → Keeps (ignoring m)
  ignoring-Keeps {A} m h c s p = dropped (m c s) (h c s p)
    where
      dropped : (r : Result A × Session) → P r.1.db → P (ignore_error r).1.db
      dropped (ok a, t) q = q
      dropped (err e, t) q = q

  -- A transaction keeps what every successful run of its body keeps: an error takes it back.
  pub transaction-Keeps :
      {A : Type 0} (m : Action A)
      → ((c : Env) (s : Session) → P s.db → On (λ _ t. P t.db) (m c s))
      → Keeps (transaction m)
  unfolding transaction
  transaction-Keeps {A} m h c s p =
      ended _ (whole_rule (λ _ db. P db) m c s λ t e. h c t (subst P (sym e) p))
    where
      ended : (r : Result A × Session) → On (λ _ t. P t.db) r → P (rolled_back s.db r).1.db
      ended (ok a, t) (value q) = q
      ended (err e, t) q = p
