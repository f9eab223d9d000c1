-- ===== src/Catalog/Commit/Writes.antt =====
-- commit.rs: the statements of a commit against the effect `applied`.
use ukiel.Base.{
  ℕ, ◌≡◌, refl, String, true, false, Option, none, some, List, [], ◌∷◌, ◌++◌, arith, nat_eq,
  string_eq, elem, Bool-cases, inl, inr, ◌≢◌, subst,
}
use ukiel.Core.Commit.{CommitOp, OperationIdentity, committed, kind}
use ukiel.Catalog.Db.{Db}
use ukiel.Catalog.Tx.{ok, >>=-ok}
use ukiel.Catalog.Offsets.{OffsetRange, advance_offsets}
use ukiel.Catalog.Commit.{
  taken_key, commit_row, draw_commit, insert_commit, apply_op, after_insert, write, resolve,
  lookup_in_tx,
}
use ukiel.Catalog.Commit.Applied.{
  Allowed, applied, op_applied, apply_op-applied, apply_op_live, advance_offsets-upsert,
  advance_offsets-Unblocked, Unblocked,
}

module _ (decode : String → Option (List ℕ)) (now ht : ℕ) (op : CommitOp)
    (identity : Option OperationIdentity) (offsets : List OffsetRange) where
  abbrev inserted : Db → Db
  inserted d = record (draw_commit d) {
    commits = d.commits ++ commit_row d.next_commit now ht (kind op) identity ∷ [];
  }

  pub write-applied :
      (d : Db)
      → Allowed ht op identity offsets d
      → write decode now ht op identity offsets d
        ≡ (ok (committed d.next_commit), applied decode now ht op identity offsets d)
  unfolding write insert_commit after_insert applied
  write-applied d a =
      rw (a.key_free, a.known, apply_op-applied decode ht d.next_commit op (inserted d) a.all_live)
        (rw
          (advance_offsets-upsert decode ht offsets
            (op_applied decode ht d.next_commit op (inserted d)) a.unblocked)
          refl)

  resolve_never_commits :
      (i : Option OperationIdentity) (d d' : Db) (c : ℕ) → resolve i d ≢ (ok (committed c), d')
  unfolding resolve lookup_in_tx
  resolve_never_commits none d d' c h = cc
  resolve_never_commits (some i) d d' c h = ground arith

  after_insert-Allowed :
      (d d' : Db) (c : ℕ)
      → taken_key ht identity d.commits ≡ false
      → elem ht d.hypertables ≡ true
      → after_insert decode ht op identity offsets (some d.next_commit) (inserted d)
        ≡ (ok (committed c), d')
      → Allowed ht op identity offsets d
  unfolding after_insert
  after_insert-Allowed d d' c free known h =
      let (_, d₁, ran, rest) = >>=-ok (apply_op decode ht d.next_commit op) _ (inserted d) h in
      let (_, d₂, moved, _) = >>=-ok (advance_offsets ht offsets) _ d₁ rest in
      let live = apply_op_live decode ht d.next_commit op (inserted d) d₁ ran in
      let same : d₁ ≡ op_applied decode ht d.next_commit op (inserted d) =
        cc (ran, apply_op-applied decode ht d.next_commit op (inserted d) live) in
      record {
        key_free = free;
        known = known;
        all_live = live;
        unblocked =
            subst (λ (x : Db). Unblocked ht offsets x.ingest_offsets) same
              (advance_offsets-Unblocked decode ht offsets d₁ d₂ moved);
      }

  write-Allowed :
      (d d' : Db) (c : ℕ)
      → write decode now ht op identity offsets d ≡ (ok (committed c), d')
      → Allowed ht op identity offsets d
  unfolding write insert_commit after_insert
  write-Allowed d d' c h = elim (Bool-cases (taken_key ht identity d.commits)) [
    | inl e ↦ absurd (resolve_never_commits identity (draw_commit d) d' c (rw e at h))
    | inr free ↦ elim (Bool-cases (elem ht d.hypertables)) [
      | inl known ↦ after_insert-Allowed d d' c free known (rw (free, known) at h)
      | inr unknown ↦ cc (rw (free, unknown) at h)
    ]
  ]

  -- A write that commits was allowed, takes the next commit id, and does what `applied` says.
  pub write-inverse :
      (d d' : Db) (c : ℕ)
      → write decode now ht op identity offsets d ≡ (ok (committed c), d')
      → Allowed ht op identity offsets d
        × (c ≡ d.next_commit)
        × (d' ≡ applied decode now ht op identity offsets d)
  write-inverse d d' c h =
      let a = write-Allowed d d' c h in (a, cc (write-applied d a), cc (write-applied d a))
