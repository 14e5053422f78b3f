-- ===== src/Effect/Ensures.antt =====
-- Postconditions: what holds when an action returns a value. Each rule is for one construct of
-- the actions, so a proof follows the text of the action.
use scc_backend.Base.{
  ℕ, suc, ◌≡◌, refl, Bool, true, false, Option, none, some, Bool-cases, if◌then◌else◌, inl, inr,
  ◌⊎◌,
}
use mathlib.Core.Path.{subst, subst₂, sym, ap}
use scc_backend.Store.{Db}
use scc_backend.Effect.Monad.{
  Error, Result, ok, err, Env, Session, Action, after, ◌>>=◌, ◌>>◌, refuse_if, statement, query,
  execute, update_rows, insert_unless, insert_or_ignore, or_fail, time_now, new_uuid, ask,
  rolled_back, transaction, pure,
}

-- Of a result: if it is a value, `Q` holds of it and of the session reached.
pub data On {A : Type 0} (Q : A → Session → Type 0) : Result A × Session → Type 0 where
  value : {a : A} {s : Session} → Q a s → On Q (ok a, s)
  error : {e : Error} {s : Session} → On Q (err e, s)

pub On-holds :
    {A : Type 0} {Q : A → Session → Type 0} {r : Result A × Session} (a : A) (s : Session)
    → On Q r
    → r ≡ (ok a, s)
    → Q a s
On-holds {Q} a s (value {a = b} {s = t} q) e =
    let ea : b ≡ a = cc e in let es : t ≡ s = cc e in subst₂ Q ea es q
On-holds a s error e = cc e

-- The rule of the bind: what the first action ensures is what the second may use.
pub On-after :
    {A B : Type 0} {P : A → Session → Type 0} {Q : B → Session → Type 0} (f : A → Action B)
    (c : Env) {r : Result A × Session}
    → On P r
    → ((a : A) (t : Session) → P a t → On Q (f a c t))
    → On Q (after f c r)
unfolding after
On-after f c (value h) k = k _ _ h
On-after f c error k = error

pub On-weaken :
    {A : Type 0} {P Q : A → Session → Type 0} {r : Result A × Session}
    → On P r
    → ((a : A) (t : Session) → P a t → Q a t)
    → On Q r
On-weaken (value h) k = value (k _ _ h)
On-weaken error k = error

pub refuse_if_rule :
    (b : Bool) (e : Error) (c : Env) (s : Session)
    → On (λ _ t. (b ≡ false) × (t ≡ s)) (refuse_if b e c s)
refuse_if_rule true e c s = error
refuse_if_rule false e c s = value (refl, refl)

pub statement_rule :
    (c : Env) (s : Session) → On (λ _ t. (t.db ≡ s.db) × (t.minted ≡ s.minted)) (statement c s)
unfolding statement
statement_rule c s = elim (Bool-cases (c.fault s.statements)) [
  | inl e ↦ rw e error
  | inr e ↦ rw e (value (refl, refl))
]

-- A SELECT returns what it selects and changes nothing.
pub query_rule :
    {A : Type 0} (f : Db → A) (c : Env) (s : Session)
    → On (λ a t. (a ≡ f s.db) × (t.db ≡ s.db)) (query f c s)
unfolding query
query_rule f c s = elim (Bool-cases (c.fault s.statements)) [
  | inl e ↦ rw e error
  | inr e ↦ rw e (value (refl, refl))
]

pub execute_rule : (f : Db → Db) (c : Env) (s : Session) → On (λ _ t. t.db ≡ f s.db) (execute f c s)
unfolding execute
execute_rule f c s = elim (Bool-cases (c.fault s.statements)) [
  | inl e ↦ rw e error
  | inr e ↦ rw e (value refl)
]

pub new_uuid_rule : (c : Env) (s : Session) → On (λ _ t. t.db ≡ s.db) (new_uuid c s)
unfolding new_uuid
new_uuid_rule c s = value refl

pub update_rows_rule :
    (affected : Db → ℕ) (f : Db → Db) (c : Env) (s : Session)
    → On (λ n t. (n ≡ affected s.db) × (t.db ≡ f s.db)) (update_rows affected f c s)
unfolding update_rows
update_rows_rule affected f c s = elim (Bool-cases (c.fault s.statements)) [
  | inl e ↦ rw e error
  | inr e ↦ rw e (value (refl, refl))
]

pub insert_unless_rule :
    (is_taken : Db → Bool) (f : Db → Db) (c : Env) (s : Session)
    → On (λ _ t. (is_taken s.db ≡ false) × (t.db ≡ f s.db)) (insert_unless is_taken f c s)
unfolding insert_unless
insert_unless_rule is_taken f c s = elim (Bool-cases (c.fault s.statements)) [
  | inl e ↦ rw e error
  | inr e ↦ rw e (taken_or_not (is_taken s.db) refl)
]
  where
    taken_or_not :
        (b : Bool)
        → is_taken s.db ≡ b
        → On
            (λ _ t. (is_taken s.db ≡ false) × (t.db ≡ f s.db))
            (if b
              then (err Error.driver, record s { statements = suc s.statements })
              else (ok tt, record s { statements = suc s.statements; db = f s.db }))
    taken_or_not true e = error
    taken_or_not false e = value (e, refl)

pub or_fail_rule :
    {A : Type 0} (o : Option A) (e : Error) (c : Env) (s : Session)
    → On (λ a t. (o ≡ some a) × (t ≡ s)) (or_fail o e c s)
or_fail_rule none e c s = error
or_fail_rule (some a) e c s = value (refl, refl)

-- What an INSERT that ignores conflicts has done, by the number that it returns.
abbrev pub Inserted : (Db → Bool) → Db → (Db → Db) → ℕ → Db → Type 0
Inserted conflicts before f n now =
    ((n ≡ 0) × (conflicts before ≡ true) × (now ≡ before))
    ⊎ ((n ≡ 1) × (conflicts before ≡ false) × (now ≡ f before))

pub insert_or_ignore_rule :
    (conflicts is_taken : Db → Bool) (f : Db → Db) (c : Env) (s : Session)
    → On (λ n t. Inserted conflicts s.db f n t.db) (insert_or_ignore conflicts is_taken f c s)
unfolding insert_or_ignore
insert_or_ignore_rule conflicts is_taken f c s = elim (Bool-cases (c.fault s.statements)) [
  | inl e ↦ rw e error
  | inr e ↦ rw e (by_tests (conflicts s.db) (is_taken s.db) refl)
]
  where
    t : Session
    t = record s { statements = suc s.statements }

    by_tests :
        (x y : Bool)
        → conflicts s.db ≡ x
        → On
            (λ n t. Inserted conflicts s.db f n t.db)
            (if x
              then (ok 0, t)
              else if y
              then (err Error.driver, t)
              else (ok 1, record t { db = f s.db }))
    by_tests true y h = value (inl (refl, h, refl))
    by_tests false true h = error
    by_tests false false h = value (inr (refl, h, refl))

pub ask_rule :
    {A : Type 0} (f : Env → A) (c : Env) (s : Session) → On (λ a t. (a ≡ f c) × (t ≡ s)) (ask f c s)
ask_rule f c s = value (refl, refl)

pub time_now_rule : (c : Env) (s : Session) → On (λ _ t. t ≡ s) (time_now c s)
unfolding time_now
time_now_rule c s = value refl

-- BEGIN, the body and COMMIT.
pub whole_rule :
    {A : Type 0} (Q : A → Db → Type 0) (m : Action A) (c : Env) (s : Session)
    → ((t : Session) → t.db ≡ s.db → On (λ a u. Q a u.db) (m c t))
    → On (λ a u. Q a u.db) ((statement >> (m >>= λ a. statement >> pure a)) c s)
whole_rule Q m c s h = On-after _ c (statement_rule c s) λ _ t p.
    On-after _ c (h t p.0)
      λ a u q. On-after _ c (statement_rule c u) λ _ v p1. value (subst (Q a) (sym p1.0) q)

rolled_back-On :
    {A : Type 0} (Q : A → Db → Type 0) (db : Db) {r : Result A × Session}
    → On (λ a u. Q a u.db) r
    → On (λ a u. Q a u.db) (rolled_back db r)
rolled_back-On Q db (value q) = value q
rolled_back-On Q db error = error

-- A committed transaction has done what its body ensures, whatever BEGIN and COMMIT count.
pub transaction_rule :
    {A : Type 0} (Q : A → Db → Type 0) (m : Action A) (c : Env) (s : Session)
    → ((t : Session) → t.db ≡ s.db → On (λ a u. Q a u.db) (m c t))
    → On (λ a u. Q a u.db) (transaction m c s)
unfolding transaction
transaction_rule Q m c s h = rolled_back-On Q s.db (whole_rule Q m c s h)

-- A transaction that fails leaves the database as it was.
pub transaction_undone :
    {A : Type 0} (m : Action A) (c : Env) (s t : Session) (e : Error)
    → transaction m c s ≡ (err e, t)
    → t.db ≡ s.db
unfolding transaction
transaction_undone {A} m c s t e h = undone _ h
  where
    undone : (r : Result A × Session) → rolled_back s.db r ≡ (err e, t) → t.db ≡ s.db
    undone (ok a, u) h = cc h
    undone (err d, u) h = sym (ap (λ (x : Result A × Session). x.1.db) h)

pub pure_rule :
    {A : Type 0} (a : A) (c : Env) (s : Session) → On (λ x t. (x ≡ a) × (t ≡ s)) (pure a c s)
pure_rule a c s = value (refl, refl)

-- The instant that `time.Now` returns is the clock's at the number of statements so far.
pub time_now_clock :
    (c : Env) (s : Session) → On (λ a t. (t ≡ s) × (a ≡ c.clock s.statements)) (time_now c s)
unfolding time_now
time_now_clock c s = value (refl, refl)

-- A SELECT is one statement.
pub query_counted :
    {A : Type 0} (f : Db → A) (c : Env) (s : Session)
    → On (λ a t. (a ≡ f s.db) × (t.db ≡ s.db) × (t.statements ≡ suc s.statements)) (query f c s)
unfolding query
query_counted f c s = elim (Bool-cases (c.fault s.statements)) [
  | inl e ↦ rw e error
  | inr e ↦ rw e (value (refl, refl, refl))
]

statement_counted :
    (c : Env) (s : Session)
    → On (λ _ t. (t.db ≡ s.db) × (t.statements ≡ suc s.statements)) (statement c s)
unfolding statement
statement_counted c s = elim (Bool-cases (c.fault s.statements)) [
  | inl e ↦ rw e error
  | inr e ↦ rw e (value (refl, refl))
]

whole_counted :
    {A : Type 0} (Q : A → Db → Type 0) (m : Action A) (c : Env) (s : Session)
    → ((t : Session) → t.db ≡ s.db → t.statements ≡ suc s.statements → On (λ a u. Q a u.db) (m c t))
    → On (λ a u. Q a u.db) ((statement >> (m >>= λ a. statement >> pure a)) c s)
whole_counted Q m c s h = On-after _ c (statement_counted c s) λ _ t p.
    On-after _ c (h t p.0 p.1)
      λ a u q. On-after _ c (statement_rule c u) λ _ v p1. value (subst (Q a) (sym p1.0) q)

-- `transaction_rule`, with BEGIN as the one statement before the body.
pub transaction_counted :
    {A : Type 0} (Q : A → Db → Type 0) (m : Action A) (c : Env) (s : Session)
    → ((t : Session) → t.db ≡ s.db → t.statements ≡ suc s.statements → On (λ a u. Q a u.db) (m c t))
    → On (λ a u. Q a u.db) (transaction m c s)
unfolding transaction
transaction_counted Q m c s h = rolled_back-On Q s.db (whole_counted Q m c s h)
