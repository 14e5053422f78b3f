-- ===== src/Login/Run.antt =====
-- The limiter over a sequence of calls.
use scc_backend.Base.{
  ℕ, ◌<◌, ◌≡◌, inl, inr, refl, String, Bool, true, false, Option, none, some, List, [], ◌∷◌,
  if◌then◌else◌, arith, Bool-cases, trim_space, cat, subst, sym, ap,
}
use Prim.Native.String.append
use mathlib.Core.Bool.{false≢true}
use scc_backend.Login.{
  retry_after_locked, record_failure_locked, normalize_login_username, is_empty, LoginLimiterConfig,
  LoginAttemptLimiter, Packages, new_login_attempt_limiter, is_key, is_recent, cleanup_locked,
  known_or, normalized_client_key, identity_key, record_both, retry_after, begin_attempt,
  record_failure, reset, positive_or,
}
use scc_backend.Login.Bounds.{
  IsBounded, record_failure_locked-IsBounded, delete-IsBounded, retry_after_locked-IsBounded,
  cleanup-IsBounded,
}

pub data Call : Type 0 where
  read attempt failure : String → String → ℕ → Call
  success : String → String → Call

abbrev pub serve : Packages → Call → LoginAttemptLimiter → LoginAttemptLimiter
serve k (Call.read ip name now) l = (retry_after k ip name now l).1
serve k (Call.attempt ip name now) l = (begin_attempt k ip name now l).1
serve k (Call.failure ip name now) l = record_failure k ip name now l
serve k (Call.success ip name) l = reset k ip name l

abbrev pub run : Packages → List Call → LoginAttemptLimiter → LoginAttemptLimiter
run k [] l = l
run k (c ∷ cs) l = run k cs (serve k c l)

-- Both maps are within their limits.
pub record IsWithin (c : LoginLimiterConfig) (l : LoginAttemptLimiter) : Type 0 where
  pub same_config : l.config ≡ c
  pub clients : IsBounded c.max_entries_per_map c.client_limit l.clients
  pub identities : IsBounded c.max_entries_per_map c.identity_limit l.identities

-- The text of an address is not empty.
unfoldable pub IsNamed : Packages → Type 0
IsNamed k = (s a : String) → k.parse_addr s ≡ some a → is_empty a ≡ false

module _ (k : Packages) (named : IsNamed k) (c : LoginLimiterConfig)
    (m : 0 < c.max_entries_per_map) where
  known_or-named :
      (o : Option String) (s : String) → k.parse_addr s ≡ o → is_empty (known_or o) ≡ false
  unfolding IsNamed
  known_or-named none s e = refl
  known_or-named (some a) s e = named s a e

  client-named : (ip : String) → is_empty (normalized_client_key k ip) ≡ false
  unfolding normalized_client_key
  client-named ip = known_or-named (k.parse_addr (trim_space ip)) (trim_space ip) refl

  cat-named : (s t : String) → is_empty s ≡ false → is_empty (cat s t) ≡ false
  cat-named String.[] t h = absurd (false≢true (sym h))
  cat-named (String.◌∷◌ a s) t h = ap is_empty (append.cons a s t)

  cleanup_locked-IsWithin :
      (now : ℕ) (l : LoginAttemptLimiter) → IsWithin c l → IsWithin c (cleanup_locked l now)
  unfolding cleanup_locked
  cleanup_locked-IsWithin now l h = elim (Bool-cases (is_recent l now l.last_cleanup)) [
    | inl e ↦ rw e h
    | inr e ↦ rw e (record {
      same_config = h.same_config;
      clients =
          cleanup-IsBounded c.max_entries_per_map c.client_limit l.config.client_window now
            l.clients h.clients;
      identities =
          cleanup-IsBounded c.max_entries_per_map c.identity_limit l.config.identity_window now
            l.identities h.identities;
    })
  ]

  -- What the two checks of an attempt leave.
  checks-IsWithin :
      (client identity : String) (now : ℕ) (l : LoginAttemptLimiter)
      → IsWithin c l
      → IsWithin c (record l {
        clients =
            (retry_after_locked l.clients client l.config.client_limit l.config.client_window
              now).1;
        identities =
            (retry_after_locked l.identities identity l.config.identity_limit
              l.config.identity_window now).1;
      })
  checks-IsWithin client identity now l h = record {
    same_config = h.same_config;
    clients =
        subst
          (λ d.
            IsBounded c.max_entries_per_map c.client_limit
              (retry_after_locked l.clients client d.client_limit d.client_window now).1)
          (sym h.same_config)
          (retry_after_locked-IsBounded c.max_entries_per_map c.client_limit c.client_window now
            client l.clients h.clients);
    identities =
        subst
          (λ d.
            IsBounded c.max_entries_per_map c.identity_limit
              (retry_after_locked l.identities identity d.identity_limit d.identity_window now).1)
          (sym h.same_config)
          (retry_after_locked-IsBounded c.max_entries_per_map c.identity_limit c.identity_window now
            identity l.identities h.identities);
  }

  either-IsWithin :
      (b : Bool) (x y : (ℕ × Bool) × LoginAttemptLimiter)
      → IsWithin c x.1
      → IsWithin c y.1
      → IsWithin c (if b then x else y).1
  either-IsWithin true x y h k = h
  either-IsWithin false x y h k = k

  record_both-IsWithin :
      (ip name : String) (now : ℕ) (l : LoginAttemptLimiter)
      → IsWithin c l
      → IsWithin c (record_both k ip name now l)
  unfolding record_both
  record_both-IsWithin ip name now l h = record {
    same_config = h.same_config;
    clients =
        subst
          (λ d. IsBounded c.max_entries_per_map c.client_limit (
            record_failure_locked d.max_entries_per_map l.clients (normalized_client_key k ip)
              d.client_limit d.client_window now))
          (sym h.same_config)
          (record_failure_locked-IsBounded c.max_entries_per_map c.client_limit c.client_window now
            (normalized_client_key k ip) l.clients m (client-named ip) h.clients);
    identities =
        subst
          (λ d. IsBounded c.max_entries_per_map c.identity_limit (
            record_failure_locked d.max_entries_per_map l.identities (identity_key k ip name)
              d.identity_limit d.identity_window now))
          (sym h.same_config)
          (record_failure_locked-IsBounded c.max_entries_per_map c.identity_limit c.identity_window
            now (identity_key k ip name) l.identities m
            (cat-named (normalized_client_key k ip) (cat "\0" (normalize_login_username k name))
              (client-named ip))
            h.identities);
  }

  serve-IsWithin :
      (call : Call) (l : LoginAttemptLimiter) → IsWithin c l → IsWithin c (serve k call l)
  unfolding retry_after begin_attempt record_failure reset
  serve-IsWithin (Call.read ip name now) l h =
      checks-IsWithin (normalized_client_key k ip) (identity_key k ip name) now
        (cleanup_locked l now) (cleanup_locked-IsWithin now l h)
  serve-IsWithin (Call.attempt ip name now) l h =
      let left =
        checks-IsWithin (normalized_client_key k ip) (identity_key k ip name) now
          (cleanup_locked l now) (cleanup_locked-IsWithin now l h) in
      either-IsWithin _ _ _ left (record_both-IsWithin ip name now _ left)
  serve-IsWithin (Call.failure ip name now) l h =
      record_both-IsWithin ip name now (cleanup_locked l now) (cleanup_locked-IsWithin now l h)
  serve-IsWithin (Call.success ip name) l h = record {
    same_config = h.same_config;
    clients = h.clients;
    identities =
        delete-IsBounded c.max_entries_per_map c.identity_limit (is_key (identity_key k ip name))
          l.identities h.identities;
  }

  run-kept : (cs : List Call) (l : LoginAttemptLimiter) → IsWithin c l → IsWithin c (run k cs l)
  run-kept [] l h = h
  run-kept (call ∷ cs) l h = run-kept cs (serve k call l) (serve-IsWithin call l h)

positive : (n : ℕ) → 0 < positive_or n 1
positive n = ground arith

-- Whatever a new limiter is called with, in any order and with any clock, neither map has more
-- entries than MaxEntriesPerMap, and no entry more failures than its limit, where the text of an
-- address is never empty.
pub run-IsWithin :
    (k : Packages)
    → IsNamed k
    → (c : LoginLimiterConfig) (cs : List Call)
    → IsWithin (new_login_attempt_limiter c).config (run k cs (new_login_attempt_limiter c))
unfolding new_login_attempt_limiter
run-IsWithin k named c cs =
    run-kept k named (new_login_attempt_limiter c).config (positive c.max_entries_per_map) cs
      (new_login_attempt_limiter c)
      (record {
        same_config = refl;
        clients = record { fit = tt; few = omega arith };
        identities = record { fit = tt; few = omega arith };
      })
