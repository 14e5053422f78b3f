-- ===== src/Login/Verdict.antt =====
-- When BeginAttempt lets an attempt pass.
use scc_backend.Base.{
  ℕ, ◌≤◌, ◌<◌, ◌≡◌, refl, ap, ◌∙◌, inl, inr, String, Bool, true, false, ◌||◌, ltb, leb,
  if◌then◌else◌, arith, Bool-cases, length, count_where,
}
use scc_backend.Login.{
  LoginLimiterConfig, LoginAttemptLimiter, Packages, is_key, is_recent, cleanup_locked,
  retry_after_locked, max_of, normalized_client_key, identity_key, begin_attempt, record_both,
}
use scc_backend.Login.Window.{
  live, cleaned-live, check, InOrder, failures_of, in_window, length-live,
}

ltb-max_of : (a b : ℕ) → ltb 0 (max_of a b) ≡ (ltb 0 a || ltb 0 b)
ltb-max_of a b = ground arith

refused : (ℕ × Bool) × LoginAttemptLimiter → Bool
refused r = r.0.1

refused-if :
    (b : Bool) (n : ℕ) (x y : LoginAttemptLimiter)
    → refused (if b then ((n, true), x) else ((0, false), y)) ≡ b
unfolding refused
refused-if true n x y = refl
refused-if false n x y = refl

module _ (now : ℕ) (l : LoginAttemptLimiter) (client identity : String)
    (one_client : count_where (is_key client) l.clients ≤ 1)
    (one_identity : count_where (is_key identity) l.identities ≤ 1) where
  cleaned-both :
      (live l.config.client_window now client (cleanup_locked l now).clients
        ≡ live l.config.client_window now client l.clients)
      × (live l.config.identity_window now identity (cleanup_locked l now).identities
          ≡ live l.config.identity_window now identity l.identities)
      × ((cleanup_locked l now).config ≡ l.config)
  unfolding cleanup_locked
  cleaned-both = elim (Bool-cases (is_recent l now l.last_cleanup)) [
    | inl e ↦ rw e (refl, refl, refl)
    | inr e ↦ rw e (
      cleaned-live l.config.client_window now client l.clients one_client,
      cleaned-live l.config.identity_window now identity l.identities one_identity,
      refl,
    )
  ]

-- Where the two keys of an attempt stand at most once in their maps, with their failures in order,
-- and the limits are not 0, BeginAttempt refuses the attempt exactly when the client's failures in
-- the client window have reached the client's limit, or the identity's in the identity window the
-- identity's limit, as the maps are before any pruning or cleanup.
pub begin_attempt-refuses :
    (k : Packages) (ip name : String) (now : ℕ) (l : LoginAttemptLimiter)
    → 0 < l.config.client_limit
    → 0 < l.config.identity_limit
    → count_where (is_key (normalized_client_key k ip)) l.clients ≤ 1
    → count_where (is_key (identity_key k ip name)) l.identities ≤ 1
    → InOrder (failures_of (normalized_client_key k ip) l.clients)
    → InOrder (failures_of (identity_key k ip name) l.identities)
    → (begin_attempt k ip name now l).0.1 ≡ (
        leb l.config.client_limit (
          in_window l.config.client_window now (failures_of (normalized_client_key k ip) l.clients))
        || leb l.config.identity_limit (
            in_window l.config.identity_window now
              (failures_of (identity_key k ip name) l.identities)))
unfolding begin_attempt refused
begin_attempt-refuses k ip name now l pc pi oc oi sc si =
    let client = normalized_client_key k ip in
    let identity = identity_key k ip name in
    let cleaned = cleanup_locked l now in
    let kept = cleaned-both now l client identity oc oi in
    let by_client =
      check cleaned.clients client l.config.client_limit l.config.client_window now pc
      ∙ ap (λ fs. leb l.config.client_limit (length fs)) kept.0
      ∙ ap (leb l.config.client_limit)
          (length-live l.config.client_window now client l.clients sc) in
    let by_identity =
      check cleaned.identities identity l.config.identity_limit l.config.identity_window now pi
      ∙ ap (λ fs. leb l.config.identity_limit (length fs)) kept.1
      ∙ ap (leb l.config.identity_limit)
          (length-live l.config.identity_window now identity l.identities si) in
    let gate : LoginLimiterConfig → Bool = λ d.
      ltb 0 (retry_after_locked cleaned.clients client d.client_limit d.client_window now).0
      || ltb 0
          (retry_after_locked cleaned.identities identity d.identity_limit d.identity_window
            now).0 in
    let c = cleaned.config in
    let by_ip = retry_after_locked cleaned.clients client c.client_limit c.client_window now in
    let by_name =
      retry_after_locked cleaned.identities identity c.identity_limit c.identity_window now in
    let left : LoginAttemptLimiter = record cleaned { clients = by_ip.1; identities = by_name.1 } in
    refused-if (ltb 0 (max_of by_ip.0 by_name.0)) (max_of by_ip.0 by_name.0) left
      (record_both k ip name now left)
    ∙ ltb-max_of by_ip.0 by_name.0
    ∙ ap gate kept.2
    ∙ ap
        (λ b.
          b
          || ltb 0
              (retry_after_locked cleaned.identities identity l.config.identity_limit
                l.config.identity_window now).0)
        by_client
    ∙ ap
        (λ b.
          leb l.config.client_limit
            (in_window l.config.client_window now (failures_of client l.clients))
          || b)
        by_identity
