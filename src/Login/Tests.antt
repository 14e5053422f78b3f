-- ===== src/Login/Tests.antt =====
-- The limiter at concrete attempts.
use scc_backend.Base.{
  leb, ◌||◌, arith, trim_space, ◌+◌, ◌*◌, ap, ◌≡◌, String, Option, some, List, [], ◌∷◌, get_option,
  sym,
}
use scc_backend.Login.{
  cleanup_locked, record_failure_locked, normalized_client_key, identity_key, is_empty,
  LoginLimiterConfig, LoginAttemptLimiter, Packages, new_login_attempt_limiter, begin_attempt,
  second, minute,
}
use scc_backend.Login.Window.{failures_of, in_window}
use scc_backend.Login.Verdict.{begin_attempt-refuses}
use scc_backend.Login.Run.{Call, IsWithin, IsNamed, run, run-IsWithin}

-- Every client comes from one address, and names keep their letters.
abbrev one_address : Packages
one_address = record { parse_addr = λ s. some "::1"; to_lower = λ s. s }

one_address-IsNamed : IsNamed one_address
unfolding IsNamed
one_address-IsNamed s a e = ap (λ (o : Option String). is_empty (get_option o "::1")) (sym e)

abbrev small : LoginLimiterConfig
small = record {
  client_limit = 2;
  client_window = minute;
  identity_limit = 1;
  identity_window = minute;
  max_entries_per_map = 1;
  cleanup_interval = second;
}

-- Two names in turn, so that the second evicts the first.
abbrev attempts : List Call
attempts =
    Call.attempt "a" "ann" minute
    ∷ Call.attempt "a" "bob" (minute + second)
    ∷ Call.read "a" "bob" (minute + 3 * second)
    ∷ Call.success "a" "bob"
    ∷ []

abbrev used : LoginAttemptLimiter
used = run one_address attempts (new_login_attempt_limiter small)

run-IsWithin_example : IsWithin (new_login_attempt_limiter small).config used
run-IsWithin_example = run-IsWithin one_address one_address-IsNamed small attempts

-- The identity has used its one attempt, which is still in the window.
abbrev tried : LoginAttemptLimiter
tried = run one_address (Call.attempt "a" "ann" minute ∷ []) (new_login_attempt_limiter small)

begin_attempt-refuses_example :
    (begin_attempt one_address "a" "ann" (minute + second) tried).0.1 ≡ (
      leb tried.config.client_limit (
        in_window tried.config.client_window
          (minute + second)
          (failures_of (normalized_client_key one_address "a") tried.clients))
      || leb tried.config.identity_limit (
          in_window tried.config.identity_window
            (minute + second)
            (failures_of (identity_key one_address "a" "ann") tried.identities)))
unfolding begin_attempt new_login_attempt_limiter cleanup_locked record_failure_locked trim_space
begin_attempt-refuses_example =
    begin_attempt-refuses one_address "a" "ann" (minute + second) tried (omega arith) (omega arith)
      (omega arith) (omega arith) (tt, tt) (tt, tt)
