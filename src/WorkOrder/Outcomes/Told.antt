-- ===== src/WorkOrder/Outcomes/Told.antt =====
-- Who the removal-due check tells, and that it loses no notification.
use scc_backend.Base.{
  ℕ, ◌<◌, ◌≡◌, refl, ◌∙◌, String, true, false, ◌&&◌, Option, List, [], ◌∷◌, ◌++◌, map, ltb, str_eq,
  str_eq_refl, eq_iff, count_where, arith, some, none, inl, inr, Bool-cases, if◌then◌else◌, All,
  Grown, Grown-none, Grown-one, Grown-trans, count_where-Grown, All-ordered, All-selected, cat_all,
  order_by, text_before, subst,
}
use scc_backend.Store.{Db, User, WorkOrder, Notification}
use scc_backend.Effect.{Env, Session}
use scc_backend.Effect.Ensures.{
  On, value, On-after, On-weaken, new_uuid_rule, ask_rule, refuse_if_rule, query_rule,
  insert_unless_rule,
}
use scc_backend.Borrow.Events.{notification_has_key, add_notification, create_notification}
use scc_backend.WorkOrder.Planning.{is_technician_of}
use scc_backend.WorkOrder.Cron.{
  is_exec_of, is_among, distinct, ids_where, assigned_technician, removal_due_recipients, due_key,
  due_notification, notify_due, notify_recipients,
}

-- A notification that the work order is due for removal.
abbrev pub IsDueNotice : String → Notification → Type 0
IsDueNotice id n = (n.work_order_id ≡ some id) × (n.kind ≡ "REMOVAL_DUE")

-- A notification stands under the key of the work order and the user.
abbrev pub IsTold : String → List Notification → String → Type 0
IsTold id rows user_id =
    0
    < count_where
        (notification_has_key (cat_all ("workorder:" ∷ id ∷ ":removal-due:" ∷ user_id ∷ []))) rows

-- Only notices of the work order are added, and each user of the list is told.
pub record Notifies (id : String) (users : List String) (before after : Db) : Type 0 where
  pub only : after ≡ record before { notifications = after.notifications }
  pub grown : Grown (IsDueNotice id) before.notifications after.notifications
  pub told : All (IsTold id after.notifications) users

added :
    (id : String) (n : Notification) (key : String) (rows : List Notification)
    → IsDueNotice id n
    → n.dedup_key ≡ some key
    → Grown (IsDueNotice id) rows (add_notification n key rows)
      × (0 < count_where (notification_has_key key) (add_notification n key rows))
added id n key rows about keyed =
    elim (Bool-cases (ltb 0 (count_where (notification_has_key key) rows))) [
      | inl e ↦ rw e (Grown-none (IsDueNotice id) rows, ground (arith, e))
      | inr e ↦
          rw e (Grown-one (IsDueNotice id) n rows about, rw (keyed, str_eq_refl key) (omega arith))
    ]

pub notify_due_rule :
    (id : String) (now : ℕ) (users : List String) (c : Env) (s : Session)
    → On (λ _ t. Notifies id users s.db t.db) (notify_due id now users c s)
unfolding notify_due create_notification
notify_due_rule id now [] c s =
    value
      (record { only = refl; grown = Grown-none (IsDueNotice id) s.db.notifications; told = tt })
notify_due_rule id now (u ∷ us) c s = On-after _ c (new_uuid_rule c s) λ n t p.
    On-after _ c (insert_unless_rule _ _ c t) λ _ t1 p1.
      On-weaken (notify_due_rule id now us c t1) λ _ t2 p2.
        let new =
          added id (due_notification n id u now) (due_key id u) s.db.notifications (refl, refl)
            refl in
        let next = rw (p1.1, p) at p2.grown in
        record {
          only = rw (p1.1, p) at p2.only;
          grown = Grown-trans (IsDueNotice id) _ _ _ new.0 next;
          told = (
            omega (
              arith,
              new.1,
              count_where-Grown (IsDueNotice id) (notification_has_key (due_key id u)) _ _ next,
            ),
            p2.told,
          );
        }

pub notify_recipients_rule :
    (id : String) (now : ℕ) (users : List String) (c : Env) (s : Session)
    → On (λ _ t. Notifies id users s.db t.db) (notify_recipients id now users c s)
unfolding notify_recipients
notify_recipients_rule id now [] c s =
    value
      (record { only = refl; grown = Grown-none (IsDueNotice id) s.db.notifications; told = tt })
notify_recipients_rule id now (u ∷ us) c s =
    On-after _ c (ask_rule (λ x. x.has_notif_repo) c s) λ b t p.
      On-after _ c (refuse_if_rule _ _ c t)
        λ _ t1 p1. let here : t1 ≡ s = cc in rw here (notify_due_rule id now (u ∷ us) c s)

-- The assigned technician, where there is one.
abbrev assigned_ids : Option String → String → Db → List String
assigned_ids none office db = []
assigned_ids (some id) office db =
    if str_eq id "" then [] else ids_where (λ u. str_eq u.id id && is_technician_of office u) db

assigned_rule :
    (id : Option String) (office : String) (c : Env) (s : Session)
    → On
        (λ a t. (a ≡ assigned_ids id office s.db) × (t.db ≡ s.db))
        (assigned_technician id office c s)
unfolding assigned_technician
assigned_rule none office c s = value (refl, refl)
assigned_rule (some id) office c s = elim (Bool-cases (str_eq id "")) [
  | inl e ↦ rw e (value (refl, refl))
  | inr e ↦ rw e (query_rule _ c s)
]

abbrev recipients : WorkOrder → Db → List String
recipients w db = order_by text_before (
    distinct
      (assigned_ids w.assigned_to_id w.office_id db ++ ids_where (is_exec_of w.office_id) db))

pub recipients_rule :
    (w : WorkOrder) (c : Env) (s : Session)
    → On (λ a t. (a ≡ recipients w s.db) × (t.db ≡ s.db)) (removal_due_recipients w c s)
unfolding removal_due_recipients
recipients_rule w c s =
    On-after _ c (assigned_rule w.assigned_to_id w.office_id c s) λ a t p.
      On-after _ c (query_rule _ c t) λ e t1 p1. value (rw (p.0, p1.0, p.1) refl, p1.1 ∙ p.1)

module _ (P : String → Type 0) where
  All-among : (id : String) (xs : List String) → is_among id xs ≡ true → All P xs → P id
  All-among id [] e h = cc e
  All-among id (x ∷ xs) e h = elim (Bool-cases (str_eq x id)) [
    | inl f ↦ subst P ((eq_iff x id).0 f) h.0
    | inr f ↦ All-among id xs (rw f at e) h.1
  ]

  All-distinct : (xs : List String) → All P (distinct xs) → All P xs
  All-distinct [] h = tt
  All-distinct (x ∷ xs) h = elim (Bool-cases (is_among x (distinct xs))) [
    | inl e ↦ let k = rw e at h in (All-among x (distinct xs) e k, All-distinct xs k)
    | inr e ↦ let k = rw e at h in (k.0, All-distinct xs k.1)
  ]

  All-parts : (xs ys : List String) → All P (xs ++ ys) → All P xs × All P ys
  All-parts [] ys h = (tt, h)
  All-parts (x ∷ xs) ys h = let k = All-parts xs ys h.1 in ((h.0, k.0), k.1)

  All-ids : (users : List User) → All P (map (λ u. u.id) users) → All (λ u. P u.id) users
  All-ids [] h = tt
  All-ids (u ∷ us) h = (h.0, All-ids us h.1)

-- Every active executive of the office is told, and the assigned technician when active there.
pub record ConcernedTold (w : WorkOrder) (users : List User) (rows : List Notification)
    : Type 0 where
  pub executives : All (λ u. is_exec_of w.office_id u ≡ true → IsTold w.id rows u.id) users
  pub technician :
      (id : String)
      → w.assigned_to_id ≡ some id
      → str_eq id "" ≡ false
      → All
          (λ u. (str_eq u.id id && is_technician_of w.office_id u) ≡ true → IsTold w.id rows u.id)
          users

pub recipients-ConcernedTold :
    (w : WorkOrder) (db : Db) (rows : List Notification)
    → All (IsTold w.id rows) (recipients w db)
    → ConcernedTold w db.users rows
recipients-ConcernedTold w db rows h =
    let all =
      All-parts (IsTold w.id rows) (assigned_ids w.assigned_to_id w.office_id db)
        (ids_where (is_exec_of w.office_id) db)
        (All-distinct (IsTold w.id rows) _ (All-ordered _ _ _ h)) in
    record {
      executives = All-selected _ _ db.users (All-ids (IsTold w.id rows) _ all.1);
      technician =
          λ id e f. All-selected _ _ db.users (All-ids (IsTold w.id rows) _ (rw (e, f) at all.0));
    }
