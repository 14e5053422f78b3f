-- ===== src/Effect/Succeeds.antt =====
-- When an action succeeds: what makes each construct return a value, and what then holds.
use scc_backend.Base.{ℕ, ◌≡◌, refl, Bool, false, Option, some}
use scc_backend.Store.{Db}
use scc_backend.Effect.Monad.{
  Error, Result, ok, Env, Session, Action, after, refuse_if, statement, query, update_rows,
  insert_unless, or_fail, new_uuid,
}

-- The result is a value, and `Q` holds of it and of the session reached.
pub data Succeeds {A : Type 0} (Q : A → Session → Type 0) : Result A × Session → Type 0 where
  success : {a : A} {s : Session} → Q a s → Succeeds Q (ok a, s)

pub Succeeds-after :
    {A B : Type 0} {P : A → Session → Type 0} {Q : B → Session → Type 0} (f : A → Action B)
    (c : Env) {r : Result A × Session}
    → Succeeds P r
    → ((a : A) (t : Session) → P a t → Succeeds Q (f a c t))
    → Succeeds Q (after f c r)
unfolding after
Succeeds-after f c (success h) k = k _ _ h

pub Succeeds-weaken :
    {A : Type 0} {P Q : A → Session → Type 0} {r : Result A × Session}
    → Succeeds P r
    → ((a : A) (t : Session) → P a t → Q a t)
    → Succeeds Q r
Succeeds-weaken (success h) k = success (k _ _ h)

pub Succeeds-value :
    {A : Type 0} {Q : A → Session → Type 0} (r : Result A × Session)
    → Succeeds Q r
    → (a : A) × ((s : Session) × (r ≡ (ok a, s)) × Q a s)
Succeeds-value r (success q) = (_, (_, refl, q))

pub refuse_if-Succeeds :
    {Q : Unit {0} → Session → Type 0} (b : Bool) (e : Error) (c : Env) (s : Session)
    → b ≡ false
    → Q tt s
    → Succeeds Q (refuse_if b e c s)
refuse_if-Succeeds b e c s h q = rw h (success q)

-- A refusal that does not apply leaves what follows it.
pub after-refuse_if :
    {B : Type 0} {Q : B → Session → Type 0} (f : Unit {0} → Action B) (b : Bool) (e : Error)
    (c : Env) (s : Session)
    → b ≡ false
    → Succeeds Q (f tt c s)
    → Succeeds Q (after f c (refuse_if b e c s))
unfolding after
after-refuse_if f b e c s h k = rw h k

pub after-or_fail :
    {A B : Type 0} {Q : B → Session → Type 0} (f : A → Action B) (o : Option A) (a : A) (e : Error)
    (c : Env) (s : Session)
    → o ≡ some a
    → Succeeds Q (f a c s)
    → Succeeds Q (after f c (or_fail o e c s))
unfolding after
after-or_fail f o a e c s h k = rw h k

pub new_uuid-Succeeds :
    (c : Env) (s : Session) → Succeeds (λ x t. (x ≡ c.uuid s.minted) × (t.db ≡ s.db)) (new_uuid c s)
unfolding new_uuid
new_uuid-Succeeds c s = success (refl, refl)

-- A database that fails no statement.
module _ (c : Env) (quiet : (n : ℕ) → c.fault n ≡ false) where
  pub statement-Succeeds :
      (s : Session) → Succeeds (λ _ t. (t.db ≡ s.db) × (t.minted ≡ s.minted)) (statement c s)
  unfolding statement
  statement-Succeeds s = simp (quiet s.statements) (success (refl, refl))

  pub query-Succeeds :
      {A : Type 0} (f : Db → A) (s : Session)
      → Succeeds (λ a t. (a ≡ f s.db) × (t.db ≡ s.db) × (t.minted ≡ s.minted)) (query f c s)
  unfolding query
  query-Succeeds f s = simp (quiet s.statements) (success (refl, refl, refl))

  pub update_rows-Succeeds :
      (affected : Db → ℕ) (f : Db → Db) (s : Session)
      → Succeeds
          (λ n t. (n ≡ affected s.db) × (t.db ≡ f s.db) × (t.minted ≡ s.minted))
          (update_rows affected f c s)
  unfolding update_rows
  update_rows-Succeeds affected f s = simp (quiet s.statements) (success (refl, refl, refl))

  pub insert_unless-Succeeds :
      (is_taken : Db → Bool) (f : Db → Db) (s : Session)
      → is_taken s.db ≡ false
      → Succeeds (λ _ t. t.db ≡ f s.db) (insert_unless is_taken f c s)
  unfolding insert_unless
  insert_unless-Succeeds is_taken f s h = simp (quiet s.statements) (simp h (success refl))
