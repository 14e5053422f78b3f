-- ===== src/Borrow/Consistency/Steps.antt =====
-- The steps of the borrow service as relations between databases: a transition of one borrow, the
-- creation of a borrow with its reservations, and the delivery of the outbox; and sequences of them.
use scc_backend.Base.{
  ℕ, ◌+◌, ◌≤◌, ◌≡◌, refl, sym, ap, subst, ◌∙◌, String, false, none, some, List, [], ◌∷◌, inl, inr,
  str_eq, str_eq_refl, length, count_where, if◌then◌else◌, arith, eq_iff, Bool-cases,
}
use scc_backend.Domain.Borrow.{BorrowStatus}
use scc_backend.Store.{Db, BorrowRow, BorrowCover, OutboxRow}
use scc_backend.Borrow.Rows.{find_borrow}
use scc_backend.Borrow.Capacity.{active_reservations}
use scc_backend.Borrow.Events.{AuditParams, audit_row, add_outbox, has_key}
use scc_backend.Borrow.Create.{is_link_taken, new_link}
use scc_backend.Borrow.Consistency.{
  IsConsistent, LinksAgree, last_status, status_of, total_links, active_links,
}
use scc_backend.Borrow.Consistency.Lookup.{add_outbox-once}
use scc_backend.Borrow.Consistency.Moves.{Moved, Moved-IsConsistent}

-- The reservations of one new borrow, inserted one by one, none of which was taken.
pub data Reserved (borrow_id : String) (now : ℕ)
    : List String → List BorrowCover → List BorrowCover → Type 0 where
  done : {links : List BorrowCover} → Reserved borrow_id now [] links links
  reserve :
      {ids : List String} {before after : List BorrowCover} (cover_id id : String)
      → is_link_taken (new_link borrow_id cover_id now id) before ≡ false
      → Reserved borrow_id now ids (new_link borrow_id cover_id now id ∷ before) after
      → Reserved borrow_id now (cover_id ∷ ids) before after

-- Messages added to the outbox, each under a key that it does not hold.
pub data Queued : List OutboxRow → List OutboxRow → Type 0 where
  none_queued : {rows : List OutboxRow} → Queued rows rows
  queue :
      {before after : List OutboxRow} (o : OutboxRow)
      → Queued (add_outbox o before) after
      → Queued before after

-- From `before` to `after` the borrow `row` has been created as requested, with one reservation for
-- each of `ids`, as many as it requests.
pub record Created (row : BorrowRow) (ids : List String) (before after : Db) : Type 0 where
  pub now : ℕ
  pub entry_id : String
  pub entry : AuditParams
  pub fresh : count_where (λ r. str_eq r.id row.id) before.borrows ≡ 0
  pub status : row.status ≡ BorrowStatus.requested
  pub borrows : after.borrows ≡ row ∷ before.borrows
  pub quantity : length ids ≡ row.requested_qty
  pub links : Reserved row.id now ids before.borrow_covers after.borrow_covers
  pub audited : after.borrow_audit_events ≡ audit_row entry_id entry ∷ before.borrow_audit_events
  pub entry_borrow : entry.borrow_id ≡ row.id
  pub entry_from : entry.from_status ≡ none
  pub entry_to : entry.to_status ≡ BorrowStatus.requested
  pub outbox : Queued before.outbox after.outbox

none_of_count :
    (id : String) (rows : List BorrowRow)
    → count_where (λ r. str_eq r.id id) rows ≡ 0
    → find_borrow id rows ≡ none
none_of_count id [] h = refl
none_of_count id (r ∷ rows) h = ground (arith, none_of_count id rows)

active-le-total : (id : String) (ls : List BorrowCover) → active_links id ls ≤ total_links id ls
active-le-total id [] = omega arith
active-le-total id (l ∷ ls) = ground (arith, active-le-total id ls)

module _ (borrow_id : String) (now : ℕ) where
  Reserved-total :
      {ids : List String} {before after : List BorrowCover} (id : String)
      → Reserved borrow_id now ids before after
      → (total_links id after
          ≡ (if str_eq borrow_id id then length ids else 0) + total_links id before)
        × (active_links id after
            ≡ (if str_eq borrow_id id then length ids else 0) + active_links id before)
  Reserved-total id done = ground arith
  Reserved-total id (reserve cover_id link_id free r) = ground (arith, Reserved-total id r)

  -- A link that the unique keys let in is of a cover without an active reservation.
  pub free_cover :
      (cover_id link_id : String) (ls : List BorrowCover)
      → is_link_taken (new_link borrow_id cover_id now link_id) ls ≡ false
      → active_reservations cover_id ls ≡ 0
  free_cover cover_id link_id [] e = refl
  free_cover cover_id link_id (l ∷ ls) e = ground (arith, free_cover cover_id link_id ls)

  reserve_exclusive :
      (cover_id link_id : String) (links : List BorrowCover) (other : String)
      → is_link_taken (new_link borrow_id cover_id now link_id) links ≡ false
      → active_reservations other links ≤ 1
      → active_reservations other (new_link borrow_id cover_id now link_id ∷ links) ≤ 1
  reserve_exclusive cover_id link_id links other free h =
      ground (arith, eq_iff cover_id other, free_cover cover_id link_id links)

  Reserved-exclusive :
      {ids : List String} {before after : List BorrowCover} (other : String)
      → Reserved borrow_id now ids before after
      → active_reservations other before ≤ 1
      → active_reservations other after ≤ 1
  Reserved-exclusive other done h = h
  Reserved-exclusive other (reserve {before = links} cover_id link_id free r) h =
      Reserved-exclusive other r (reserve_exclusive cover_id link_id links other free h)

Queued-once :
    {before after : List OutboxRow} (key : String)
    → Queued before after
    → count_where (has_key key) before ≤ 1
    → count_where (has_key key) after ≤ 1
Queued-once key none_queued h = h
Queued-once key (queue {before = rows} o q) h = Queued-once key q (add_outbox-once o rows key h)

module _ {row : BorrowRow} {ids : List String} {before after : Db}
    (m : Created row ids before after) (c : IsConsistent before) where
  missing : find_borrow row.id before.borrows ≡ none
  missing = none_of_count row.id before.borrows m.fresh

  created_links :
      (id : String)
      → LinksAgree
          (find_borrow id after.borrows)
          (total_links id after.borrow_covers)
          (active_links id after.borrow_covers)
  created_links id = elim (Bool-cases (str_eq row.id id)) [
    | inl e ↦
        subst
          (λ (j : String).
            LinksAgree (find_borrow j after.borrows) (total_links j after.borrow_covers)
              (active_links j after.borrow_covers))
          ((eq_iff row.id id).0 e)
          (rw m.borrows (
            ground (
              arith,
              str_eq_refl row.id,
              m.status,
              m.quantity,
              Reserved-total row.id m.now row.id m.links,
              rw missing at (c.links row.id),
              active-le-total row.id before.borrow_covers,
            )))
    | inr ne ↦
        let t = Reserved-total row.id m.now id m.links in
        let total : total_links id after.borrow_covers ≡ total_links id before.borrow_covers =
          t.0 ∙ (rw ne (omega arith)) in
        let live : active_links id after.borrow_covers ≡ active_links id before.borrow_covers =
          t.1 ∙ (rw ne (omega arith)) in
        rw (m.borrows, ne, total, live) (c.links id)
  ]

  created_recorded :
      (id : String)
      → last_status id after.borrow_audit_events ≡ status_of (find_borrow id after.borrows)
  created_recorded id = elim (Bool-cases (str_eq row.id id)) [
    | inl e ↦ rw (m.audited, m.borrows, m.entry_borrow, e, m.entry_to) (ap some (sym m.status))
    | inr ne ↦ rw (m.audited, m.borrows, m.entry_borrow, ne) (c.recorded id)
  ]

  -- The creation of a borrow keeps the tables consistent.
  pub Created-IsConsistent : IsConsistent after
  Created-IsConsistent = record {
    unique = λ id. rw m.borrows (ground (arith, eq_iff row.id id, c.unique id, m.fresh));
    links = created_links;
    exclusive = λ cover_id. Reserved-exclusive row.id m.now cover_id m.links (c.exclusive cover_id);
    recorded = created_recorded;
    chained = rw m.audited (
      rw (m.entry_borrow, m.entry_from, c.recorded row.id, missing),
      rw (m.entry_from, m.entry_to),
      c.chained,
    );
    sent_once = λ key. Queued-once key m.outbox (c.sent_once key);
  }

-- What a delivery leaves alone: all that consistency is about, and the covers.
pub record Delivered (before after : Db) : Type 0 where
  pub borrows : after.borrows ≡ before.borrows
  pub borrow_covers : after.borrow_covers ≡ before.borrow_covers
  pub borrow_audit_events : after.borrow_audit_events ≡ before.borrow_audit_events
  pub covers : after.covers ≡ before.covers
  pub users : after.users ≡ before.users
  pub keys :
      (key : String)
      → count_where (has_key key) after.outbox ≡ count_where (has_key key) before.outbox

pub Delivered-refl : (db : Db) → Delivered db db
Delivered-refl db = record {
  borrows = refl;
  borrow_covers = refl;
  borrow_audit_events = refl;
  covers = refl;
  users = refl;
  keys = λ key. refl;
}

pub Delivered-trans : {a b d : Db} → Delivered a b → Delivered b d → Delivered a d
Delivered-trans p q = record {
  borrows = q.borrows ∙ p.borrows;
  borrow_covers = q.borrow_covers ∙ p.borrow_covers;
  borrow_audit_events = q.borrow_audit_events ∙ p.borrow_audit_events;
  covers = q.covers ∙ p.covers;
  users = q.users ∙ p.users;
  keys = λ key. q.keys key ∙ p.keys key;
}

pub Delivered-IsConsistent :
    {before after : Db} → Delivered before after → IsConsistent before → IsConsistent after
Delivered-IsConsistent d c = record {
  unique = λ id. rw d.borrows (c.unique id);
  links = λ id. rw (d.borrows, d.borrow_covers) (c.links id);
  exclusive = λ cover_id. rw d.borrow_covers (c.exclusive cover_id);
  recorded = λ id. rw (d.borrow_audit_events, d.borrows) (c.recorded id);
  chained = rw d.borrow_audit_events c.chained;
  sent_once = λ key. rw (d.keys key) (c.sent_once key);
}

-- Any sequence of steps.
pub data Evolves (start : Db) : Db → Type 0 where
  here : Evolves start start
  moves :
      {t u : Db} {row : BorrowRow} {to : BorrowStatus}
      → Evolves start t
      → Moved row to t u
      → Evolves start u
  creates :
      {t u : Db} {row : BorrowRow} {ids : List String}
      → Evolves start t
      → Created row ids t u
      → Evolves start u
  delivers : {t u : Db} → Evolves start t → Delivered t u → Evolves start u

-- Any sequence of steps keeps the tables consistent.
pub Evolves-IsConsistent :
    {start end : Db} → Evolves start end → IsConsistent start → IsConsistent end
Evolves-IsConsistent here c = c
Evolves-IsConsistent (moves e m) c = Moved-IsConsistent m (Evolves-IsConsistent e c)
Evolves-IsConsistent (creates e m) c = Created-IsConsistent m (Evolves-IsConsistent e c)
Evolves-IsConsistent (delivers e d) c = Delivered-IsConsistent d (Evolves-IsConsistent e c)
