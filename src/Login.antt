-- ===== src/Login.antt =====
-- internal/interfaces/http/handler/login_limiter.go: the sliding windows of failed logins, per
-- client and per client and username. A map is the list of its entries, in the order in which a
-- `range` takes them. Each operation holds the limiter's mutex, so operations come one by one.
pub mod Eviction
pub mod Bounds
pub mod Run
pub mod Window
pub mod Verdict
mod Tests
use scc_backend.Base.{
  ◌+◌, ◌-◌, ℕ, String, Bool, true, false, not, ◌&&◌, ◌||◌, Option, none, some, List, [], ◌∷◌, map,
  str_eq, leb, ltb, if◌then◌else◌, is_some, length, take_where, select_where, update_where,
  delete_where, trim_space, cat, ◌++◌,
}

pub record LoginLimiterConfig : Type 0 where
  pub client_limit : ℕ
  pub client_window : ℕ
  pub identity_limit : ℕ
  pub identity_window : ℕ
  pub max_entries_per_map : ℕ
  pub cleanup_interval : ℕ

-- loginFailureWindow, with the key that leads to it
pub record LoginFailureWindow : Type 0 where
  pub key : String
  pub failures : List ℕ
  pub last_seen : ℕ

-- `lastCleanup` is none before the first cleanup.
pub record LoginAttemptLimiter : Type 0 where
  pub clients : List LoginFailureWindow
  pub identities : List LoginFailureWindow
  pub config : LoginLimiterConfig
  pub last_cleanup : Option ℕ

-- time.Second and time.Minute
abbrev pub second : ℕ
second = 1000000000

abbrev pub minute : ℕ
minute = 60000000000

abbrev pub positive_or : ℕ → ℕ → ℕ
positive_or n d = if ltb n 1 then d else n

-- `newLoginAttemptLimiter`; 0 stands for a negative number, too.
unfoldable pub new_login_attempt_limiter : LoginLimiterConfig → LoginAttemptLimiter
new_login_attempt_limiter c = record {
  clients = [];
  identities = [];
  config = record {
    client_limit = positive_or c.client_limit 1;
    client_window = positive_or c.client_window minute;
    identity_limit = positive_or c.identity_limit 1;
    identity_window = positive_or c.identity_window minute;
    max_entries_per_map = positive_or c.max_entries_per_map 1;
    cleanup_interval = positive_or c.cleanup_interval minute;
  };
  last_cleanup = none;
}

abbrev pub is_key : String → LoginFailureWindow → Bool
is_key key w = str_eq w.key key

-- The failures after `now - window`, from the first of them on.
abbrev pub current : ℕ → ℕ → List ℕ → List ℕ
current window now [] = []
current window now (f ∷ fs) =
    let rest = current window now fs in if leb (f + window) now then rest else f ∷ fs

-- `pruneFailures`
unfoldable pub prune_failures : ℕ → ℕ → LoginFailureWindow → LoginFailureWindow
prune_failures window now w = record w { failures = current window now w.failures }

abbrev pub has_failures : LoginFailureWindow → Bool
has_failures w = ltb 0 (length w.failures)

-- `cleanupLoginWindows`
unfoldable pub cleanup_login_windows : ℕ → ℕ → List LoginFailureWindow → List LoginFailureWindow
cleanup_login_windows window now ws = select_where has_failures (map (prune_failures window now) ws)

abbrev pub is_recent : LoginAttemptLimiter → ℕ → Option ℕ → Bool
is_recent l now none = false
is_recent l now (some last) = ltb (now - last) l.config.cleanup_interval && not (ltb now last)

-- `cleanupLocked`
unfoldable pub cleanup_locked : LoginAttemptLimiter → ℕ → LoginAttemptLimiter
unfolding prune_failures cleanup_login_windows
cleanup_locked l now = if is_recent l now l.last_cleanup then l else record l {
  clients = cleanup_login_windows l.config.client_window now l.clients;
  identities = cleanup_login_windows l.config.identity_window now l.identities;
  last_cleanup = some now;
}

abbrev pub wait : ℕ → ℕ → ℕ → List ℕ → ℕ
wait limit window now [] = 0
wait limit window now (f ∷ fs) =
    if ltb (length (f ∷ fs)) limit
    then 0
    else if leb (f + window) now
    then second
    else f + window - now

-- `retryAfterLocked`: the time to wait, and the windows it leaves
abbrev pub retry_after_locked :
    List LoginFailureWindow → String → ℕ → ℕ → ℕ → ℕ × List LoginFailureWindow
unfolding prune_failures
retry_after_locked ws key limit window now = elim (take_where (is_key key) ws) [
  | none ↦ (0, ws)
  | some w ↦
      if has_failures (prune_failures window now w)
      then (
        wait limit window now (current window now w.failures),
        update_where (is_key key) (prune_failures window now) ws,
      )
      else (0, delete_where (is_key key) ws)
]

-- `s == ""`
abbrev pub is_empty : String → Bool
is_empty String.[] = true
is_empty (String.◌∷◌ c s) = false

-- The loop of `evictOldestLoginWindow`, from the key and the instant it has
abbrev pub oldest_key : String → ℕ → List LoginFailureWindow → String
oldest_key key seen [] = key
oldest_key key seen (w ∷ ws) =
    if is_empty key || ltb w.last_seen seen
    then oldest_key w.key w.last_seen ws
    else oldest_key key seen ws

-- `evictOldestLoginWindow`
unfoldable pub evict_oldest_login_window : List LoginFailureWindow → List LoginFailureWindow
evict_oldest_login_window ws =
    let key = oldest_key String.[] 0 ws in
    if not (is_empty key) then delete_where (is_key key) ws else ws

abbrev pub record_in : ℕ → ℕ → ℕ → LoginFailureWindow → LoginFailureWindow
record_in limit window now w =
    let fs = current window now w.failures in
    record w { failures = if ltb (length fs) limit then fs ++ (now ∷ []) else fs; last_seen = now }

-- The bucket of the key is there, made where it was not.
abbrev pub with_bucket : ℕ → String → List LoginFailureWindow → List LoginFailureWindow
unfolding evict_oldest_login_window
with_bucket max key ws =
    if is_some (take_where (is_key key) ws)
    then ws
    else (record { key = key; failures = []; last_seen = 0 })
      ∷ (if leb max (length ws) then evict_oldest_login_window ws else ws)

-- `recordFailureLocked`
unfoldable pub record_failure_locked :
    ℕ → List LoginFailureWindow → String → ℕ → ℕ → ℕ → List LoginFailureWindow
unfolding evict_oldest_login_window
record_failure_locked max ws key limit window now =
    update_where (is_key key) (record_in limit window now) (with_bucket max key ws)

-- What the limiter calls of other packages: `ParseAddr` of net/netip with `Unmap` and `String` of
-- the address, and `strings.ToLower`.
pub record Packages : Type 0 where
  pub parse_addr : String → Option String
  pub to_lower : String → String

abbrev pub known_or : Option String → String
known_or none = "unknown"
known_or (some address) = address

-- `normalizedClientKey`
abbrev pub normalized_client_key : Packages → String → String
unfolding trim_space
normalized_client_key k client_ip = known_or (k.parse_addr (trim_space client_ip))

-- `normalizeLoginUsername`
abbrev pub normalize_login_username : Packages → String → String
unfolding trim_space
normalize_login_username k username = k.to_lower (trim_space username)

abbrev pub identity_key : Packages → String → String → String
identity_key k client_ip username =
    cat (normalized_client_key k client_ip) (cat "\0" (normalize_login_username k username))

-- `if identityRetry > clientRetry { clientRetry = identityRetry }`
abbrev pub max_of : ℕ → ℕ → ℕ
max_of a b = if ltb a b then b else a

-- Both failures of an attempt
abbrev pub record_both : Packages → String → String → ℕ → LoginAttemptLimiter → LoginAttemptLimiter
unfolding record_failure_locked
record_both k client_ip username now l =
    let c = l.config in
    record l {
      clients =
          record_failure_locked c.max_entries_per_map l.clients (normalized_client_key k client_ip)
            c.client_limit c.client_window now;
      identities =
          record_failure_locked c.max_entries_per_map l.identities
            (identity_key k client_ip username) c.identity_limit c.identity_window now;
    }

-- `RetryAfter`: the wait, whether there is one, and the limiter
unfoldable pub retry_after :
    Packages → String → String → ℕ → LoginAttemptLimiter → (ℕ × Bool) × LoginAttemptLimiter
unfolding cleanup_locked
retry_after k client_ip username now l =
    let cleaned = cleanup_locked l now in
    let c = cleaned.config in
    let client =
      retry_after_locked cleaned.clients (normalized_client_key k client_ip) c.client_limit
        c.client_window now in
    let identity =
      retry_after_locked cleaned.identities (identity_key k client_ip username) c.identity_limit
        c.identity_window now in
    let longer = max_of client.0 identity.0 in
    ((longer, ltb 0 longer), record cleaned { clients = client.1; identities = identity.1 })

-- `BeginAttempt`
unfoldable pub begin_attempt :
    Packages → String → String → ℕ → LoginAttemptLimiter → (ℕ × Bool) × LoginAttemptLimiter
unfolding cleanup_locked
begin_attempt k client_ip username now l =
    let cleaned = cleanup_locked l now in
    let c = cleaned.config in
    let client =
      retry_after_locked cleaned.clients (normalized_client_key k client_ip) c.client_limit
        c.client_window now in
    let identity =
      retry_after_locked cleaned.identities (identity_key k client_ip username) c.identity_limit
        c.identity_window now in
    let longer = max_of client.0 identity.0 in
    let checked : LoginAttemptLimiter = record cleaned {
      clients = client.1;
      identities = identity.1;
    } in
    if ltb 0 longer
    then ((longer, true), checked)
    else ((0, false), record_both k client_ip username now checked)

-- `RecordFailure`
unfoldable pub record_failure :
    Packages → String → String → ℕ → LoginAttemptLimiter → LoginAttemptLimiter
unfolding cleanup_locked
record_failure k client_ip username now l =
    record_both k client_ip username now (cleanup_locked l now)

-- `Reset`
unfoldable pub reset : Packages → String → String → LoginAttemptLimiter → LoginAttemptLimiter
reset k client_ip username l = record l {
  identities = delete_where (is_key (identity_key k client_ip username)) l.identities;
}
