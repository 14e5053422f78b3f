-- ===== src/Borrow/Custody.antt =====
-- Where the covers are before and after a loan begins and ends.
use scc_backend.Base.{
  ℕ, ◌≡◌, ap, subst, ◌∙◌, ◌⊎◌, inl, inr, String, true, false, Option, none, some, List, [], ◌∷◌,
  str_eq, arith, eq_iff, Bool-cases, All, Option-cases,
}
use scc_backend.Store.{Db, Cover, BorrowRow}
use scc_backend.Effect.{Env, Session, ok}
use scc_backend.Effect.Ensures.{On-holds}
use scc_backend.Borrow.Actor.{Actor}
use scc_backend.Borrow.Rows.{find_borrow, find_cover}
use scc_backend.Borrow.Effects.{ordered_cover_ids}
use scc_backend.Borrow.Capacity.{open_installations}
use scc_backend.Borrow.Lifecycle.{is_at, moved_to, activate_tx, return_tx}
use scc_backend.Borrow.Lifecycle.Covers.{
  contains, IsFreeAt, move_all, moved_one, find_cover-move_all,
}
use scc_backend.Borrow.Lifecycle.Activate.{ActivateDone, activate_tx_rule}
use scc_backend.Borrow.Lifecycle.Return.{ReturnDone, return_tx_rule}

-- One cover over a transfer of `ids`: a named cover stood free at `from` and is now at `to`, with
-- nothing else about it changed but the time of the change; any other cover is as it was.
abbrev pub Transferred : String → String → String → ℕ → List String → Db → Db → String → Type 0
Transferred owner from to now ids before after j =
    ((contains j ids ≡ true)
      × ((r : Cover) × (find_cover j before.covers ≡ some r)
          × (is_at owner from r ≡ true)
          × (open_installations j before.installations ≡ 0)
          × (find_cover j after.covers ≡ some (moved_to to now r))))
    ⊎ ((contains j ids ≡ false) × (find_cover j after.covers ≡ find_cover j before.covers))

All-contains :
    (P : String → Type 0) (j : String) (ids : List String) → All P ids → contains j ids ≡ true → P j
All-contains P j [] h e = cc
All-contains P j (i ∷ ids) (here, rest) e = elim (Bool-cases (str_eq i j)) [
  | inl same ↦ subst P ((eq_iff i j).0 same) here
  | inr other ↦ All-contains P j ids rest (ground arith)
]

find_cover-id :
    (j : String) (r : Cover) (covers : List Cover) → find_cover j covers ≡ some r → r.id ≡ j
find_cover-id j r [] h = cc
find_cover-id j r (x ∷ covers) h = ground (arith, eq_iff x.id j, find_cover-id j r covers)

module _ (owner from to : String) (now : ℕ) (ids : List String) (before after : Db) where
  transfer :
      (j : String)
      → All (IsFreeAt owner from before) ids
      → after.covers ≡ move_all from to now ids before.covers
      → Transferred owner from to now ids before after j
  transfer j free moved =
      let lookup : find_cover j after.covers
          ≡ moved_one from to now ids (find_cover j before.covers) =
        ap (find_cover j) moved ∙ find_cover-move_all from to now ids j before.covers in
      elim (Bool-cases (contains j ids)) [
        | inl e ↦
            let here = All-contains (IsFreeAt owner from before) j ids free e in
            let own : here.0.id ≡ j = find_cover-id j here.0 before.covers here.1 in
            inl (
              e,
              (
                here.0,
                here.1,
                here.2,
                here.3,
                lookup ∙ rw (here.1, own, e) (ground (arith, here.2)),
              ),
            )
        | inr e ↦ inr (
          e,
          lookup ∙ elim (Option-cases (find_cover j before.covers)) [
            | inl none_found ↦ rw none_found
            | inr (r, found) ↦
                let own : r.id ≡ j = find_cover-id j r before.covers found in rw (found, own, e)
          ],
        )
      ]

module _ (id : String) (actor : Actor) (reason : Option String) (now : ℕ) (c : Env)
    (s t : Session) where
  -- When `Activate` commits, exactly the covers that the borrow had reserved have moved: each was in
  -- stock at its owner, the lender, with no open installation, and is now at the borrower. Every
  -- other cover is as it was.
  pub activate_tx-transfers :
      (j : String)
      → activate_tx id actor reason now c s ≡ (ok tt, t)
      → (row : BorrowRow) × (find_borrow id s.db.borrows ≡ some row)
        × Transferred row.lender_office_id row.lender_office_id row.borrower_office_id now
            (ordered_cover_ids c.before row.id true s.db)
            s.db
            t.db
            j
  activate_tx-transfers j h =
      let d : ActivateDone actor reason now id c.before s.db t.db =
        On-holds _ _ (activate_tx_rule actor reason now id c s) h in
      (
        d.row,
        d.found,
        subst
            (λ (ids : List String).
              Transferred d.row.lender_office_id d.row.lender_office_id d.row.borrower_office_id now
                ids s.db t.db j)
            d.reserved
            (transfer _ _ _ now d.ids s.db t.db j d.done.free
              (ap (λ (x : Db). x.covers) d.done.result)),
      )

  -- When `Return` commits without a conflict, exactly the covers linked to the borrow have moved:
  -- each was the lender's, in stock at the borrower, with no open installation, and is now back at
  -- the lender. Every other cover is as it was.
  pub return_tx-transfers :
      (j : String)
      → return_tx id actor reason now c s ≡ (ok none, t)
      → (row : BorrowRow) × (find_borrow id s.db.borrows ≡ some row)
        × Transferred row.lender_office_id row.borrower_office_id row.lender_office_id now
            (ordered_cover_ids c.before row.id false s.db)
            s.db
            t.db
            j
  return_tx-transfers j h =
      let d : ReturnDone actor reason now id c.before none s.db t.db =
        On-holds _ _ (return_tx_rule actor reason now id c s) h in
      (
        d.row,
        d.found,
        subst
            (λ (ids : List String).
              Transferred d.row.lender_office_id d.row.borrower_office_id d.row.lender_office_id now
                ids s.db t.db j)
            d.linked
            (transfer _ _ _ now d.ids s.db t.db j d.ends.0 (
              ap (λ (x : Db). x.covers) d.ends.1.result
              ∙ ap (λ (x : Db). x.covers) d.ends.1.recorded.0)),
      )
