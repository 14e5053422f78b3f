-- ===== src/Borrow/Consistency/Moves.antt =====
-- One transition of one borrow, as it shows in the tables, against their consistency.
use scc_backend.Base.{
  ℕ, ◌≤◌, ◌≡◌, refl, sym, ap, subst, ◌∙◌, String, true, false, some, List, ◌∷◌, ◌⊎◌, inl, inr,
  str_eq, str_eq_refl, count_where, update_where, count_where-update_where, arith, eq_iff,
  Bool-cases, Option-cases,
}
use scc_backend.Domain.Borrow.{BorrowStatus, status_eq_refl, is_valid_transition}
use scc_backend.Store.{Db, BorrowRow, BorrowCover, OutboxRow}
use scc_backend.Borrow.Rows.{Extra, find_borrow, has_status, with_status, is_active_of, released}
use scc_backend.Borrow.Events.{AuditParams, audit_row, add_outbox, has_key}
use scc_backend.Borrow.Capacity.{active_reservations}
use scc_backend.Borrow.Consistency.{
  IsConsistent, LinksAgree, Chained, holds_reservations, last_status, status_of, total_links,
  active_links,
}
use scc_backend.Borrow.Consistency.Lookup.{
  find_borrow-id, with_status_id, find_borrow-update, total_links-release, active_links-release,
  active_reservations-release, add_outbox-once,
}

-- What a transition does to the reservations: a borrow that stops holding them releases all of
-- them, as many as it requested; otherwise they stay.
abbrev pub LinksMove : BorrowRow → BorrowStatus → ℕ → List BorrowCover → List BorrowCover → Type 0
LinksMove row to now before after =
    ((holds_reservations row.status ≡ true)
      × (holds_reservations to ≡ false)
      × (after ≡ update_where (is_active_of row.id) (released now) before))
    ⊎ ((holds_reservations row.status ≡ holds_reservations to) × (after ≡ before))

-- The outbox stays, or takes one message that it does not hold.
abbrev pub OutboxGrows : List OutboxRow → List OutboxRow → Type 0
OutboxGrows before after = (after ≡ before) ⊎ ((o : OutboxRow) × (after ≡ add_outbox o before))

-- From `before` to `after` the borrow `row` has moved to `to`, by an allowed transition that the
-- audit trail records. No other borrow has changed.
pub record Moved (row : BorrowRow) (to : BorrowStatus) (before after : Db) : Type 0 where
  pub now : ℕ
  pub extra : Extra
  pub entry_id : String
  pub entry : AuditParams
  pub found : find_borrow row.id before.borrows ≡ some row
  pub allowed : is_valid_transition row.status to ≡ true
  pub borrows :
      after.borrows
      ≡ update_where (has_status row.id row.status) (with_status to now extra) before.borrows
  pub links : LinksMove row to now before.borrow_covers after.borrow_covers
  pub audited : after.borrow_audit_events ≡ audit_row entry_id entry ∷ before.borrow_audit_events
  pub entry_borrow : entry.borrow_id ≡ row.id
  pub entry_from : entry.from_status ≡ some row.status
  pub entry_to : entry.to_status ≡ to
  pub outbox : OutboxGrows before.outbox after.outbox

module _ {row : BorrowRow} {to : BorrowStatus} {before after : Db}
    (m : Moved row to before after) where
  -- The borrow that moved is found with its new status.
  pub found_after : find_borrow row.id after.borrows ≡ some (with_status to m.now m.extra row)
  found_after =
      rw
        (
          m.borrows,
          find_borrow-update row.id row.status to m.now m.extra row.id before.borrows,
          m.found,
        )
        (ground (arith, str_eq_refl row.id, status_eq_refl row.status))

  -- Every other borrow is found as it was.
  pub found_others :
      (id : String)
      → str_eq row.id id ≡ false
      → find_borrow id after.borrows ≡ find_borrow id before.borrows
  found_others id ne =
      rw (m.borrows, find_borrow-update row.id row.status to m.now m.extra id before.borrows)
        (elim (Option-cases (find_borrow id before.borrows)) [
          | inl e ↦ rw e
          | inr (r, e) ↦ rw e (
              ground
                (arith, eq_iff r.id row.id, eq_iff row.id id, find_borrow-id id r before.borrows e))
        ])

  -- The moved borrow's links agree with its new status.
  links_here :
      LinksAgree
        (some row)
        (total_links row.id before.borrow_covers)
        (active_links row.id before.borrow_covers)
      → LinksMove row to m.now before.borrow_covers after.borrow_covers
      → LinksAgree
          (some (with_status to m.now m.extra row))
          (total_links row.id after.borrow_covers)
          (active_links row.id after.borrow_covers)
  links_here agree (inl (held, drops, e)) =
      rw
        (
          e,
          total_links-release row.id m.now row.id before.borrow_covers,
          active_links-release row.id m.now row.id before.borrow_covers,
        )
        (ground (arith, str_eq_refl row.id, with_status_id to m.now m.extra row, drops, agree))
  links_here agree (inr (same, e)) =
      rw e (ground (arith, with_status_id to m.now m.extra row, same, agree))

  -- Another borrow's links are counted as before.
  links_there :
      (id : String)
      → str_eq row.id id ≡ false
      → LinksMove row to m.now before.borrow_covers after.borrow_covers
      → (total_links id after.borrow_covers ≡ total_links id before.borrow_covers)
        × (active_links id after.borrow_covers ≡ active_links id before.borrow_covers)
  links_there id ne (inl (held, drops, e)) = rw e (
    total_links-release row.id m.now id before.borrow_covers,
    active_links-release row.id m.now id before.borrow_covers ∙ (rw ne),
  )
  links_there id ne (inr (same, e)) = rw e (refl, refl)

  links_after :
      (id : String)
      → IsConsistent before
      → LinksAgree
          (find_borrow id after.borrows)
          (total_links id after.borrow_covers)
          (active_links id after.borrow_covers)
  links_after id c = elim (Bool-cases (str_eq row.id id)) [
    | inl e ↦
        subst
          (λ (j : String).
            LinksAgree (find_borrow j after.borrows) (total_links j after.borrow_covers)
              (active_links j after.borrow_covers))
          ((eq_iff row.id id).0 e)
          (rw found_after (links_here (rw m.found at (c.links row.id)) m.links))
    | inr ne ↦
        rw (found_others id ne, (links_there id ne m.links).0, (links_there id ne m.links).1)
          (c.links id)
  ]

  exclusive_after :
      (cover_id : String)
      → active_reservations cover_id before.borrow_covers ≤ 1
      → LinksMove row to m.now before.borrow_covers after.borrow_covers
      → active_reservations cover_id after.borrow_covers ≤ 1
  exclusive_after cover_id h (inl (held, drops, e)) =
      rw e (omega (arith, active_reservations-release row.id m.now cover_id before.borrow_covers))
  exclusive_after cover_id h (inr (same, e)) = rw e h

  recorded_after :
      (id : String)
      → IsConsistent before
      → last_status id after.borrow_audit_events ≡ status_of (find_borrow id after.borrows)
  recorded_after id c = elim (Bool-cases (str_eq row.id id)) [
    | inl e ↦
        subst
          (λ (j : String).
            last_status j after.borrow_audit_events ≡ status_of (find_borrow j after.borrows))
          ((eq_iff row.id id).0 e)
          (rw (m.audited, found_after, m.entry_borrow, str_eq_refl row.id, m.entry_to)
            (ap some (sym (with_status_id to m.now m.extra row).1)))
    | inr ne ↦ rw (m.audited, found_others id ne, m.entry_borrow, ne) (c.recorded id)
  ]

  Chained-after : IsConsistent before → Chained after.borrow_audit_events
  Chained-after c = rw m.audited (
    rw (m.entry_borrow, m.entry_from, c.recorded row.id, m.found),
    rw (m.entry_from, m.entry_to) m.allowed,
    c.chained,
  )

  sent_once_after :
      (key : String)
      → count_where (has_key key) before.outbox ≤ 1
      → OutboxGrows before.outbox after.outbox
      → count_where (has_key key) after.outbox ≤ 1
  sent_once_after key h (inl e) = rw e h
  sent_once_after key h (inr (o, e)) = rw e (add_outbox-once o before.outbox key h)

  unique_after :
      (id : String)
      → count_where (λ r. str_eq r.id id) before.borrows ≤ 1
      → count_where (λ r. str_eq r.id id) after.borrows ≤ 1
  unique_after id h =
      rw
        (
          m.borrows,
          count_where-update_where (has_status row.id row.status) (λ r. str_eq r.id id)
              (with_status to m.now m.extra)
              (λ r. ap (λ (x : String). str_eq x id) (with_status_id to m.now m.extra r).0)
              before.borrows,
        )
        h

  -- A transition keeps the tables consistent.
  pub Moved-IsConsistent : IsConsistent before → IsConsistent after
  Moved-IsConsistent c = record {
    unique = λ id. unique_after id (c.unique id);
    links = λ id. links_after id c;
    exclusive = λ cover_id. exclusive_after cover_id (c.exclusive cover_id) m.links;
    recorded = λ id. recorded_after id c;
    chained = Chained-after c;
    sent_once = λ key. sent_once_after key (c.sent_once key) m.outbox;
  }
