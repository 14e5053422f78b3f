-- ===== src/Login/Eviction.antt =====
-- evictOldestLoginWindow: it makes room, and keeps what holds of every entry.
use scc_backend.Base.{
  subst, sym, ap, eq_iff, ◌+◌, ℕ, ◌≤◌, ◌<◌, ◌≡◌, ◌⊎◌, inl, inr, refl, String, Bool, false, ◌||◌,
  List, [], ◌∷◌, str_eq, ltb, if◌then◌else◌, length, delete_where, count_where, arith, All,
  str_eq_refl, Bool-cases,
}
use scc_backend.WorkOrder.Stock.Lists.{All-delete_where}
use scc_backend.Login.{is_empty, LoginFailureWindow, is_key, oldest_key, evict_oldest_login_window}

-- A window of a map: its key is not empty, and it holds no more failures than the limit.
unfoldable pub IsFit : ℕ → LoginFailureWindow → Type 0
IsFit limit w = (is_empty w.key ≡ false) × (length w.failures ≤ limit)

pub length-delete_where :
    (p : LoginFailureWindow → Bool) (ws : List LoginFailureWindow)
    → length (delete_where p ws) + count_where p ws ≡ length ws
length-delete_where p [] = refl
length-delete_where p (w ∷ ws) = ground (arith, length-delete_where p ws)

found-here :
    (key : String) (w : LoginFailureWindow) (ws : List LoginFailureWindow)
    → key ≡ w.key
    → 0 < count_where (is_key key) (w ∷ ws)
found-here key w ws e =
    subst (λ k. 0 < count_where (is_key k) (w ∷ ws)) (sym e) (rw (str_eq_refl w.key) (omega arith))

found-there :
    (key : String) (w : LoginFailureWindow) (ws : List LoginFailureWindow)
    → 0 < count_where (is_key key) ws
    → 0 < count_where (is_key key) (w ∷ ws)
found-there key w ws h = omega (arith, h)

-- The key of the loop is the one it had, or that of an entry.
oldest_key-found :
    (key : String) (seen : ℕ) (ws : List LoginFailureWindow)
    → (oldest_key key seen ws ≡ key) ⊎ (0 < count_where (is_key (oldest_key key seen ws)) ws)
oldest_key-found key seen [] = inl refl
oldest_key-found key seen (w ∷ ws) =
    let Goal : String → Type 0 = λ r. (r ≡ key) ⊎ (0 < count_where (is_key r) (w ∷ ws)) in
    elim (Bool-cases (is_empty key || ltb w.last_seen seen)) [
      | inl e ↦
          subst Goal
            (sym (
              ap
                (λ (b : Bool).
                  if b then oldest_key w.key w.last_seen ws else oldest_key key seen ws)
                e))
            (elim (oldest_key-found w.key w.last_seen ws) [
              | inl s ↦ inr (found-here (oldest_key w.key w.last_seen ws) w ws s)
              | inr h ↦ inr (found-there (oldest_key w.key w.last_seen ws) w ws h)
            ])
      | inr e ↦
          subst Goal
            (sym (
              ap
                (λ (b : Bool).
                  if b then oldest_key w.key w.last_seen ws else oldest_key key seen ws)
                e))
            (elim (oldest_key-found key seen ws) [
              | inl s ↦ inl s
              | inr h ↦ inr (found-there (oldest_key key seen ws) w ws h)
            ])
    ]

found-named :
    (limit : ℕ) (key : String) (ws : List LoginFailureWindow)
    → All (IsFit limit) ws
    → 0 < count_where (is_key key) ws
    → is_empty key ≡ false
unfolding IsFit
found-named limit key [] hs h = absurd (omega (arith, h))
found-named limit key (w ∷ ws) hs h = elim (Bool-cases (str_eq w.key key)) [
  | inl e ↦ subst (λ k. is_empty k ≡ false) ((eq_iff w.key key).0 e) hs.0.0
  | inr e ↦
      found-named limit key ws hs.1
        (omega (arith, subst (λ b. 0 < (if b then 1 else 0) + count_where (is_key key) ws) e h))
]

pub evict-All :
    (limit : ℕ) (ws : List LoginFailureWindow)
    → All (IsFit limit) ws
    → All (IsFit limit) (evict_oldest_login_window ws)
unfolding evict_oldest_login_window
evict-All limit ws h = elim (Bool-cases (is_empty (oldest_key String.[] 0 ws))) [
  | inl e ↦ rw e h
  | inr e ↦ rw e (All-delete_where (IsFit limit) (is_key (oldest_key String.[] 0 ws)) ws h)
]

-- An eviction makes room.
pub evict-room :
    (limit : ℕ) (ws : List LoginFailureWindow)
    → All (IsFit limit) ws
    → 0 < length ws
    → length (evict_oldest_login_window ws) < length ws
unfolding evict_oldest_login_window
evict-room limit [] h p = omega (arith, p)
evict-room limit (w ∷ ws) h p =
    let key = oldest_key w.key w.last_seen ws in
    let found : 0 < count_where (is_key key) (w ∷ ws) =
      elim (oldest_key-found w.key w.last_seen ws) [
        | inl s ↦ found-here key w ws s
        | inr k ↦ found-there key w ws k
      ] in
    rw (found-named limit key (w ∷ ws) h found)
      (omega (arith, length-delete_where (is_key key) (w ∷ ws), found))
