-- ===== src/Login/Window.antt =====
-- The failures of one key in the window: what pruning and cleanup keep of them, and when they make
-- an attempt wait.
use scc_backend.Base.{
  ℕ, ◌+◌, ◌≤◌, ◌<◌, ◌≡◌, refl, sym, ◌∙◌, inl, inr, String, true, false, none, some, List, [], ◌∷◌,
  ltb, leb, arith, Bool-cases, Option-cases, length, take_where, count_where, All,
}
use scc_backend.Login.{
  LoginFailureWindow, is_key, current, prune_failures, has_failures, cleanup_login_windows, wait,
  retry_after_locked,
}

-- The failures under a key that are in the window.
abbrev pub live : ℕ → ℕ → String → List LoginFailureWindow → List ℕ
live window now key ws = elim (take_where (is_key key) ws) [
  | none ↦ []
  | some w ↦ current window now w.failures
]

current_again :
    (window now : ℕ) (fs : List ℕ)
    → current window now (current window now fs) ≡ current window now fs
current_again window now [] = refl
current_again window now (f ∷ fs) = elim (Bool-cases (leb (f + window) now)) [
  | inl e ↦ rw e (current_again window now fs)
  | inr e ↦ rw (e, e) refl
]

no_failures : (fs : List ℕ) → ltb 0 (length fs) ≡ false → fs ≡ []
no_failures [] h = refl
no_failures (f ∷ fs) h = absurd (ground (arith, h))

live-found :
    (window now : ℕ) (key : String) (w : LoginFailureWindow) (ws : List LoginFailureWindow)
    → is_key key w ≡ true
    → live window now key (w ∷ ws) ≡ current window now w.failures
live-found window now key w ws e = rw (e, live) refl

live-other :
    (window now : ℕ) (key : String) (w : LoginFailureWindow) (ws : List LoginFailureWindow)
    → is_key key w ≡ false
    → live window now key (w ∷ ws) ≡ live window now key ws
live-other window now key w ws e = rw (e, live) refl

cleaned-absent :
    (window now : ℕ) (key : String) (ws : List LoginFailureWindow)
    → count_where (is_key key) ws ≡ 0
    → live window now key (cleanup_login_windows window now ws) ≡ []
unfolding cleanup_login_windows prune_failures
cleaned-absent window now key [] h = refl
cleaned-absent window now key (w ∷ ws) h =
    let other : is_key key w ≡ false = ground (arith, h) in
    let rest = cleaned-absent window now key ws (ground (arith, h)) in
    elim (Bool-cases (has_failures (prune_failures window now w))) [
      | inl e ↦ rw e (live-other window now key (prune_failures window now w) _ other ∙ rest)
      | inr e ↦ rw e rest
    ]

-- The cleanup takes no failure out of the window, where the key is there at most once.
pub cleaned-live :
    (window now : ℕ) (key : String) (ws : List LoginFailureWindow)
    → count_where (is_key key) ws ≤ 1
    → live window now key (cleanup_login_windows window now ws) ≡ live window now key ws
unfolding cleanup_login_windows prune_failures
cleaned-live window now key [] h = refl
cleaned-live window now key (w ∷ ws) h = elim (Bool-cases (is_key key w)) [
  | inl k ↦ elim (Bool-cases (has_failures (prune_failures window now w))) [
    | inl e ↦ rw e (
        live-found window now key (prune_failures window now w) _ k
        ∙ current_again window now w.failures
        ∙ sym (live-found window now key w ws k))
    | inr e ↦ rw e (
        cleaned-absent window now key ws (ground (arith, h, k))
        ∙ sym (no_failures _ e)
        ∙ sym (live-found window now key w ws k))
  ]
  | inr k ↦
      let rest = cleaned-live window now key ws (ground (arith, h, k)) in
      elim (Bool-cases (has_failures (prune_failures window now w))) [
        | inl e ↦ rw e (
            live-other window now key (prune_failures window now w) _ k
            ∙ rest
            ∙ sym (live-other window now key w ws k))
        | inr e ↦ rw e (rest ∙ sym (live-other window now key w ws k))
      ]
]

wait-positive :
    (limit window now : ℕ) (fs : List ℕ)
    → 0 < limit
    → ltb 0 (wait limit window now fs) ≡ leb limit (length fs)
wait-positive limit window now [] h = ground (arith, h)
wait-positive limit window now (f ∷ fs) h = ground (arith, h)

live-some :
    (window now : ℕ) (key : String) (ws : List LoginFailureWindow) (w : LoginFailureWindow)
    → take_where (is_key key) ws ≡ some w
    → live window now key ws ≡ current window now w.failures
live-some window now key ws w e = rw (e, live) refl

pub check :
    (ws : List LoginFailureWindow) (key : String) (limit window now : ℕ)
    → 0 < limit
    → ltb 0 (retry_after_locked ws key limit window now).0
      ≡ leb limit (length (live window now key ws))
unfolding retry_after_locked prune_failures
check ws key limit window now h = elim (Option-cases (take_where (is_key key) ws)) [
  | inl e ↦ rw (e, retry_after_locked) (ground (arith, h))
  | inr (w, e) ↦ rw (live-some window now key ws w e) (
      rw (e, retry_after_locked)
        (elim (Bool-cases (has_failures (prune_failures window now w))) [
          | inl f ↦ rw f (wait-positive limit window now (current window now w.failures) h)
          | inr f ↦ rw f (rw (no_failures _ f) (ground (arith, h)))
        ]))
]

-- The failures under a key, in the window or not.
abbrev pub failures_of : String → List LoginFailureWindow → List ℕ
failures_of key ws = elim (take_where (is_key key) ws) [ none ↦ [] | some w ↦ w.failures ]

-- From the earliest to the latest.
abbrev pub InOrder : List ℕ → Type 0
InOrder [] = Unit
InOrder (f ∷ fs) = All (λ g. f ≤ g) fs × InOrder fs

-- The failures after `now - window`.
abbrev pub in_window : ℕ → ℕ → List ℕ → ℕ
in_window window now = count_where (λ f. ltb now (f + window))

all_in_window :
    (window now f : ℕ) (fs : List ℕ)
    → now < f + window
    → All (λ g. f ≤ g) fs
    → in_window window now fs ≡ length fs
all_in_window window now f [] h k = refl
all_in_window window now f (g ∷ fs) h k =
    let rest = all_in_window window now f fs h k.1 in ground (arith, h, k.0, rest)

length-current-in_window :
    (window now : ℕ) (fs : List ℕ)
    → InOrder fs
    → length (current window now fs) ≡ in_window window now fs
length-current-in_window window now [] h = refl
length-current-in_window window now (f ∷ fs) h = elim (Bool-cases (leb (f + window) now)) [
  | inl e ↦ rw e (length-current-in_window window now fs h.1 ∙ ground (arith, e))
  | inr e ↦ rw e (sym (all_in_window window now f (f ∷ fs) (ground (arith, e)) (omega arith, h.0)))
]

pub length-live :
    (window now : ℕ) (key : String) (ws : List LoginFailureWindow)
    → InOrder (failures_of key ws)
    → length (live window now key ws) ≡ in_window window now (failures_of key ws)
length-live window now key ws h = elim (Option-cases (take_where (is_key key) ws)) [
  | inl e ↦ rw (e, live, failures_of) refl
  | inr (w, e) ↦
      let order : InOrder w.failures = rw (e, failures_of) at h in
      rw (e, live, failures_of) (length-current-in_window window now w.failures order)
]
