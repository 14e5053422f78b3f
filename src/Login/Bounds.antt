-- ===== src/Login/Bounds.antt =====
-- The memory of the limiter: how many entries and failures it holds.
use scc_backend.Base.{
  suc, Option-cases, ℕ, ◌≤◌, ◌<◌, ◌≡◌, inl, inr, refl, String, Bool, false, List, [], ◌∷◌, leb, ltb,
  if◌then◌else◌, is_some, length, take_where, delete_where, ◌++◌, arith, All, Bool-cases,
  length-update_where,
}
use scc_backend.WorkOrder.Stock.Lists.{All-delete_where, All-update_where}
use scc_backend.Login.{
  is_empty, LoginFailureWindow, is_key, current, prune_failures, has_failures,
  cleanup_login_windows, retry_after_locked, record_in, with_bucket, record_failure_locked,
}
use scc_backend.Login.Eviction.{IsFit, length-delete_where, evict-All, evict-room}

pub record IsBounded (max limit : ℕ) (ws : List LoginFailureWindow) : Type 0 where
  pub fit : All (IsFit limit) ws
  pub few : length ws ≤ max

length-current : (window now : ℕ) (fs : List ℕ) → length (current window now fs) ≤ length fs
length-current window now [] = omega arith
length-current window now (f ∷ fs) = ground (arith, length-current window now fs)

length-snoc : (fs : List ℕ) (x : ℕ) → length (fs ++ (x ∷ [])) ≡ suc (length fs)
length-snoc [] x = refl
length-snoc (f ∷ fs) x = ground (arith, length-snoc fs x)

prune-IsFit :
    (limit window now : ℕ) (w : LoginFailureWindow)
    → IsFit limit w
    → IsFit limit (prune_failures window now w)
unfolding prune_failures IsFit
prune-IsFit limit window now w h = (h.0, omega (arith, h.1, length-current window now w.failures))

length-record :
    (limit now : ℕ) (fs : List ℕ)
    → length fs ≤ limit
    → length (if ltb (length fs) limit then fs ++ (now ∷ []) else fs) ≤ limit
length-record limit now fs h = ground (arith, h, length-snoc fs now)

record_in-IsFit :
    (limit window now : ℕ) (w : LoginFailureWindow)
    → IsFit limit w
    → IsFit limit (record_in limit window now w)
unfolding IsFit
record_in-IsFit limit window now w h = (
  h.0,
  length-record limit now (current window now w.failures)
      (omega (arith, h.1, length-current window now w.failures)),
)

with_bucket-IsBounded :
    (max limit : ℕ) (key : String) (ws : List LoginFailureWindow)
    → 0 < max
    → is_empty key ≡ false
    → IsBounded max limit ws
    → IsBounded max limit (with_bucket max key ws)
unfolding IsFit with_bucket
with_bucket-IsBounded max limit key ws m k h =
    elim (Bool-cases (is_some (take_where (is_key key) ws))) [
      | inl e ↦ rw e h
      | inr e ↦ rw e (elim (Bool-cases (leb max (length ws))) [
        | inl f ↦ rw f (record {
          fit = ((k, omega arith), evict-All limit ws h.fit);
          few = ground (arith, h.few, f, m, evict-room limit ws h.fit);
        })
        | inr f ↦ rw f (record { fit = ((k, omega arith), h.fit); few = ground (arith, f) })
      ])
    ]

pub record_failure_locked-IsBounded :
    (max limit window now : ℕ) (key : String) (ws : List LoginFailureWindow)
    → 0 < max
    → is_empty key ≡ false
    → IsBounded max limit ws
    → IsBounded max limit (record_failure_locked max ws key limit window now)
unfolding record_failure_locked
record_failure_locked-IsBounded max limit window now key ws m k h =
    let b = with_bucket-IsBounded max limit key ws m k h in
    record {
      fit =
          All-update_where (IsFit limit) (is_key key) (record_in limit window now)
            (with_bucket max key ws) (λ w e. record_in-IsFit limit window now w) b.fit;
      few = omega (
        arith,
        b.few,
        length-update_where (is_key key) (record_in limit window now) (with_bucket max key ws),
      );
    }

pub delete-IsBounded :
    (max limit : ℕ) (p : LoginFailureWindow → Bool) (ws : List LoginFailureWindow)
    → IsBounded max limit ws
    → IsBounded max limit (delete_where p ws)
delete-IsBounded max limit p ws h = record {
  fit = All-delete_where (IsFit limit) p ws h.fit;
  few = omega (arith, h.few, length-delete_where p ws);
}

pub retry_after_locked-IsBounded :
    (max limit window now : ℕ) (key : String) (ws : List LoginFailureWindow)
    → IsBounded max limit ws
    → IsBounded max limit (retry_after_locked ws key limit window now).1
unfolding retry_after_locked
retry_after_locked-IsBounded max limit window now key ws h =
    elim (Option-cases (take_where (is_key key) ws)) [
      | inl e ↦ rw (e, retry_after_locked) h
      | inr (w, e) ↦
          rw (e, retry_after_locked)
            (elim (Bool-cases (has_failures (prune_failures window now w))) [
              | inl f ↦ rw f (record {
                fit =
                    All-update_where (IsFit limit) (is_key key) (prune_failures window now) ws
                      (λ x e. prune-IsFit limit window now x) h.fit;
                few =
                    omega (
                      arith,
                      h.few,
                      length-update_where (is_key key) (prune_failures window now) ws,
                    );
              })
              | inr f ↦ rw f (delete-IsBounded max limit (is_key key) ws h)
            ])
    ]

cleanup-All :
    (limit window now : ℕ) (ws : List LoginFailureWindow)
    → All (IsFit limit) ws
    → All (IsFit limit) (cleanup_login_windows window now ws)
unfolding cleanup_login_windows
cleanup-All limit window now [] h = tt
cleanup-All limit window now (w ∷ ws) h =
    elim (Bool-cases (has_failures (prune_failures window now w))) [
      | inl e ↦ rw e (prune-IsFit limit window now w h.0, cleanup-All limit window now ws h.1)
      | inr e ↦ rw e (cleanup-All limit window now ws h.1)
    ]

length-cleanup :
    (window now : ℕ) (ws : List LoginFailureWindow)
    → length (cleanup_login_windows window now ws) ≤ length ws
unfolding cleanup_login_windows
length-cleanup window now [] = omega arith
length-cleanup window now (w ∷ ws) = ground (arith, length-cleanup window now ws)

pub cleanup-IsBounded :
    (max limit window now : ℕ) (ws : List LoginFailureWindow)
    → IsBounded max limit ws
    → IsBounded max limit (cleanup_login_windows window now ws)
cleanup-IsBounded max limit window now ws h = record {
  fit = cleanup-All limit window now ws h.fit;
  few = omega (arith, h.few, length-cleanup window now ws);
}
