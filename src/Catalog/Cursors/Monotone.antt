-- ===== src/Catalog/Cursors/Monotone.antt =====
-- cursors.rs: a cursor before and after a write, and the others.
use ukiel.Base.{
  ◌≡◌, refl, ℕ, max, true, false, ◌&&◌, String, List, [], ◌∷◌, ◌++◌, ltb, nat_eq, string_eq, any,
  find, update, elem, arith, Bool-cases, inl, inr, eq_iff, ltb→lt,
}
use ukiel.Catalog.Db.{Db, CursorRow}
use ukiel.Catalog.Tx.{ok}
use ukiel.Catalog.Cursors.{of_worker, position, get_cursor, set_cursor}

module _ (worker : String) (ht cursor : ℕ) where
  abbrev advanced : List CursorRow → List CursorRow
  advanced =
      update (λ r. of_worker worker ht r && ltb r.last_commit_id cursor)
        (λ r. record r { last_commit_id = cursor })

  abbrev arrived : CursorRow
  arrived = record { worker = worker; hypertable_id = ht; last_commit_id = cursor }

  advanced_own :
      (rows : List CursorRow)
      → any (of_worker worker ht) rows ≡ true
      → position (find (of_worker worker ht) (advanced rows))
        ≡ max (position (find (of_worker worker ht) rows)) cursor
  advanced_own [] h = cc
  advanced_own (r ∷ rows) h = elim (Bool-cases (of_worker worker ht r)) [
    | inl e ↦ elim (Bool-cases (ltb r.last_commit_id cursor)) [
      | inl g ↦ rw (e, g) (rw e (omega (arith, ltb→lt r.last_commit_id cursor g)))
      | inr g ↦ rw (e, g) (rw e (ground arith))
    ]
    | inr e ↦ rw e (rw e (advanced_own rows (rw e at h)))
  ]

  own_row :
      (r : CursorRow) → r.worker ≡ worker → r.hypertable_id ≡ ht → of_worker worker ht r ≡ true
  own_row r v w = ground (arith, eq_iff r.worker worker)

  not_both :
      (asked : String) (other : ℕ) (r : CursorRow)
      → ¬ ((asked ≡ worker) × (other ≡ ht))
      → of_worker worker ht r ≡ true
      → of_worker asked other r ≡ false
  not_both asked other r n h = ground (arith, eq_iff r.worker worker, eq_iff r.worker asked)

  advanced_other :
      (asked : String) (other : ℕ) (rows : List CursorRow)
      → ¬ ((asked ≡ worker) × (other ≡ ht))
      → position (find (of_worker asked other) (advanced rows))
        ≡ position (find (of_worker asked other) rows)
  advanced_other asked other [] n = refl
  advanced_other asked other (r ∷ rows) n =
      let rest = advanced_other asked other rows n in
      elim (Bool-cases (of_worker worker ht r)) [
        | inr e ↦
            rw e (elim (Bool-cases (of_worker asked other r)) [
              | inl a ↦ rw a refl
              | inr a ↦ rw a rest
            ])
        | inl e ↦
            let away = not_both asked other r n e in
            elim (Bool-cases (ltb r.last_commit_id cursor)) [
              | inl g ↦ rw (e, g) (rw away rest)
              | inr g ↦ rw (e, g) (rw away rest)
            ]
      ]

  arrived_own :
      (rows : List CursorRow)
      → any (of_worker worker ht) rows ≡ false
      → position (find (of_worker worker ht) (rows ++ arrived ∷ []))
        ≡ max (position (find (of_worker worker ht) rows)) cursor
  arrived_own [] h = rw (own_row arrived refl refl) (omega arith)
  arrived_own (r ∷ rows) h = ground (arith, arrived_own rows)

  arrived_other :
      (asked : String) (other : ℕ) (rows : List CursorRow)
      → ¬ ((asked ≡ worker) × (other ≡ ht))
      → position (find (of_worker asked other) (rows ++ arrived ∷ []))
        ≡ position (find (of_worker asked other) rows)
  arrived_other asked other [] n =
      rw (not_both asked other arrived n (own_row arrived refl refl)) refl
  arrived_other asked other (r ∷ rows) n = ground (arith, arrived_other asked other rows n)

  -- For a hypertable that is known, a write of a cursor leaves it at the larger of its old and its
  -- new value, and every other cursor where it was.
  pub set_cursor-get :
      (d : Db)
      → elem ht d.hypertables ≡ true
      → let run = set_cursor worker ht cursor d in
        (run.0 ≡ ok tt)
        × (get_cursor worker ht run.1 ≡ max (get_cursor worker ht d) cursor)
        × ((asked : String) (other : ℕ)
            → ¬ ((asked ≡ worker) × (other ≡ ht))
            → get_cursor asked other run.1 ≡ get_cursor asked other d)
  unfolding set_cursor get_cursor
  set_cursor-get d known = elim (Bool-cases (any (of_worker worker ht) d.worker_cursors)) [
    | inl e ↦
        rw (e, set_cursor)
          (
            refl,
            advanced_own d.worker_cursors e,
            λ asked other n. advanced_other asked other d.worker_cursors n,
          )
    | inr e ↦
        rw (e, set_cursor)
          (rw known (
            refl,
            arrived_own d.worker_cursors e,
            λ asked other n. arrived_other asked other d.worker_cursors n,
          ))
  ]
