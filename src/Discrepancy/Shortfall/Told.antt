-- ===== src/Discrepancy/Shortfall/Told.antt =====
-- The notifications of a reported discrepancy: who is told, and that none is lost.
use scc_backend.Base.{
  ℕ, ◌<◌, ◌≡◌, refl, ap, ◌∙◌, String, Bool, true, false, ◌&&◌, List, [], ◌∷◌, map, ltb, str_eq_refl,
  count_where, arith, some, if◌then◌else◌, All, Grown, Grown-none, Grown-one, Grown-trans,
  count_where-Grown, All-ordered, All-selected, cat_all,
}
use scc_backend.Domain.Role.{Role, role_eq}
use scc_backend.Store.{Db, User, Notification}
use scc_backend.Effect.{Env, Session}
use scc_backend.Effect.Ensures.{
  On, value, On-after, On-weaken, new_uuid_rule, ask_rule, query_rule, insert_unless_rule,
}
use scc_backend.Discrepancy.Shortfall.{
  notification_has_key, discrepancy_notification, insert_notification, notify_all,
  notify_active_admins,
}

-- A notification of this kind about the discrepancy.
abbrev pub IsAbout : String → String → Notification → Type 0
IsAbout discrepancy_id kind n = (n.discrepancy_id ≡ some discrepancy_id) × (n.kind ≡ kind)

-- A notification stands under the key of the discrepancy, the event and the user.
abbrev pub IsTold : String → String → List Notification → String → Type 0
IsTold discrepancy_id event rows user_id =
    0
    < count_where
        (notification_has_key
          (cat_all ("discrepancy:" ∷ discrepancy_id ∷ ":" ∷ event ∷ ":" ∷ user_id ∷ [])))
        rows

-- Every active administrator is told.
abbrev pub AdminsTold : String → String → List User → List Notification → Type 0
AdminsTold discrepancy_id event users rows =
    All
      (λ u.
        (role_eq u.role Role.admin && u.is_active) ≡ true → IsTold discrepancy_id event rows u.id)
      users

module _ (discrepancy_id kind message event : String) (now : ℕ) where
  -- Only notifications are added, and each user of the list is told.
  pub record Notifies (ids : List String) (before after : Db) : Type 0 where
    pub only : after ≡ record before { notifications = after.notifications }
    pub grown : Grown (IsAbout discrepancy_id kind) before.notifications after.notifications
    pub told : All (IsTold discrepancy_id event after.notifications) ids

  added :
      (id user_id key : String) (rows : List Notification) (b : Bool)
      → ltb 0 (count_where (notification_has_key key) rows) ≡ b
      → Grown (IsAbout discrepancy_id kind) rows (
          if b
          then rows
          else discrepancy_notification id user_id discrepancy_id kind message key now ∷ rows)
        × (0
            < count_where (notification_has_key key) (
                if b
                then rows
                else discrepancy_notification id user_id discrepancy_id kind message key now
                  ∷ rows))
  added id user_id key rows true e =
      (Grown-none (IsAbout discrepancy_id kind) rows, ground (arith, e))
  added id user_id key rows false e =
      (Grown-one (IsAbout discrepancy_id kind) _ rows (refl, refl), ground (arith, str_eq_refl key))

  insert_notification_rule :
      (user_id key : String) (c : Env) (s : Session)
      → On
          (λ _ t.
            (t.db ≡ record s.db { notifications = t.db.notifications })
            × Grown (IsAbout discrepancy_id kind) s.db.notifications t.db.notifications
            × (0 < count_where (notification_has_key key) t.db.notifications))
          (insert_notification user_id discrepancy_id kind message key now c s)
  unfolding insert_notification
  insert_notification_rule user_id key c s = On-after _ c (new_uuid_rule c s) λ id t p.
      On-weaken (insert_unless_rule _ _ c t) λ _ t1 p1.
        let new =
          added id user_id key s.db.notifications
            (ltb 0 (count_where (notification_has_key key) s.db.notifications)) refl in
        (rw (p1.1, p) refl, rw (p1.1, p) new.0, rw (p1.1, p) new.1)

  still_told :
      (xs ys : List Notification)
      → Grown (IsAbout discrepancy_id kind) xs ys
      → (user_id : String) → IsTold discrepancy_id event xs user_id
      → IsTold discrepancy_id event ys user_id
  still_told xs ys g user_id h =
      omega
        (arith, h, count_where-Grown (IsAbout discrepancy_id kind) (notification_has_key _) xs ys g)

  pub notify_all_rule :
      (ids : List String) (c : Env) (s : Session)
      → On
          (λ _ t. Notifies ids s.db t.db)
          (notify_all discrepancy_id kind message event now ids c s)
  unfolding notify_all
  notify_all_rule [] c s = value (record {
    only = refl;
    grown = Grown-none (IsAbout discrepancy_id kind) s.db.notifications;
    told = tt;
  })
  notify_all_rule (user_id ∷ ids) c s =
      On-after _ c (insert_notification_rule user_id _ c s) λ _ t p.
        On-weaken (notify_all_rule ids c t) λ _ t1 p1. record {
          only = p1.only ∙ ap (λ (d : Db). record d { notifications = t1.db.notifications }) p.0;
          grown = Grown-trans (IsAbout discrepancy_id kind) _ _ _ p.1 p1.grown;
          told = (still_told _ _ p1.grown user_id p.2, p1.told);
        }

  All-ids :
      (rows : List Notification) (users : List User)
      → All (IsTold discrepancy_id event rows) (map (λ u. u.id) users)
      → All (λ u. IsTold discrepancy_id event rows u.id) users
  All-ids rows [] h = tt
  All-ids rows (u ∷ us) h = (h.0, All-ids rows us h.1)

  pub notify_active_admins_rule :
      (c : Env) (s : Session)
      → On
          (λ _ t.
            (t.db ≡ record s.db { notifications = t.db.notifications })
            × Grown (IsAbout discrepancy_id kind) s.db.notifications t.db.notifications
            × AdminsTold discrepancy_id event s.db.users t.db.notifications)
          (notify_active_admins discrepancy_id kind message event now c s)
  unfolding notify_active_admins
  notify_active_admins_rule c s = On-after _ c (ask_rule (λ e. e.before) c s) λ before t p.
      On-after _ c (query_rule _ c t) λ ids t1 p1. On-weaken (notify_all_rule ids c t1) λ _ t2 p2.
        let same : t1.db ≡ s.db = cc in
        (
          rw same at p2.only,
          rw same at p2.grown,
          All-selected _ _ s.db.users
              (All-ordered _ _ _ (All-ids t2.db.notifications _ (rw (p1.0, p.1) at p2.told))),
        )
