-- ===== src/Catalog/Commit/Applied.antt =====
-- commit.rs: what a commit that succeeded did to every table, without the order of its statements.
use ukiel.Base.{
  ℕ, ◌+◌, ◌≡◌, refl, String, true, false, not, Option, some, List, [], ◌∷◌, ◌++◌, map, arith,
  nat_eq, string_eq, elem, select, update, length, Bool-cases, inl, inr,
}
use mathlib.Core.List.{append_assoc, append-nil}
use ukiel.Core.Part.{PartMeta}
use ukiel.Core.Commit.{CommitOp, OperationIdentity, add, replace, delete, kind}
use ukiel.Catalog.Db.{Db, PartRow, PendingRow, OffsetRow}
use ukiel.Catalog.Tx.{ok}
use ukiel.Catalog.Offsets.{OffsetRange, advance_offset, advance_offsets, upsert_offset, blocked}
use ukiel.Catalog.Parts.{targets, tombstone_parts, part_row, insert_rows, insert_parts}
use ukiel.Catalog.Commit.{taken_key, commit_row, apply_op}

-- The parts an operation takes away, and those it brings.
unfoldable pub removed : CommitOp → List ℕ
removed (add parts) = []
removed (replace old new) = old
removed (delete parts) = parts

unfoldable pub added : CommitOp → List PartMeta
added (add parts) = parts
added (replace old new) = new
added (delete parts) = []

abbrev pub retire : ℕ → ℕ → List ℕ → List PartRow → List PartRow
retire ht commit ids = update (targets ht ids) (λ r. record r { deleted_by_commit = some commit })

-- The rows of the new parts, numbered from `id`.
unfoldable pub register : (String → Option (List ℕ)) → ℕ → ℕ → ℕ → List PartMeta → List PartRow
register decode id ht commit [] = []
register decode id ht commit (p ∷ ps) =
    part_row decode id ht commit p ∷ register decode (id + 1) ht commit ps

unfoldable pub upsert_offsets : ℕ → List OffsetRange → List OffsetRow → List OffsetRow
upsert_offsets ht [] rows = rows
upsert_offsets ht (r ∷ rs) rows = upsert_offsets ht rs (upsert_offset ht r rows)

-- No range meets an offset that has moved past it, each judged after those before it.
abbrev pub Unblocked : ℕ → List OffsetRange → List OffsetRow → Type 0
Unblocked ht [] rows = Unit
Unblocked ht (r ∷ rs) rows = (blocked ht r rows ≡ false) × Unblocked ht rs (upsert_offset ht r rows)

-- What must hold of the database for the statements of a commit to go through.
pub record Allowed (ht : ℕ) (op : CommitOp) (identity : Option OperationIdentity)
    (offsets : List OffsetRange) (d : Db) : Type 0 where
  pub key_free : taken_key ht identity d.commits ≡ false
  pub known : elem ht d.hypertables ≡ true
  pub all_live : length (select (targets ht (removed op)) d.parts) ≡ length (removed op)
  pub unblocked : Unblocked ht offsets d.ingest_offsets

abbrev pub without_intents : List PartMeta → List PendingRow → List PendingRow
without_intents ps = select (λ r. not (elem r.path (map (λ (p : PartMeta). p.path) ps)))

module _ (decode : String → Option (List ℕ)) where
  -- The effect of a commit, table by table.
  unfoldable pub applied : ℕ → ℕ → CommitOp → Option OperationIdentity → List OffsetRange → Db → Db
  applied now ht op identity offsets d = record d {
    sequences = record d.sequences {
      next_commit = d.next_commit + 1;
      next_part = d.next_part + length (added op);
    };
    commits = d.commits ++ commit_row d.next_commit now ht (kind op) identity ∷ [];
    parts =
        retire ht d.next_commit (removed op) d.parts
        ++ register decode d.next_part ht d.next_commit (added op);
    ingest_offsets = upsert_offsets ht offsets d.ingest_offsets;
    pending_objects = without_intents (added op) d.pending_objects;
  }

  pub insert_rows-register :
      (ht c : ℕ) (ps : List PartMeta) (d : Db)
      → insert_rows decode ht c ps d ≡ record d {
        sequences = record d.sequences { next_part = d.next_part + length ps };
        parts = d.parts ++ register decode d.next_part ht c ps;
      }
  unfolding insert_rows register
  insert_rows-register ht c [] d = ground (arith, append-nil d.parts)
  insert_rows-register ht c (p ∷ ps) d = ground (
    arith,
    insert_rows-register ht c ps (record d {
      sequences = record d.sequences { next_part = d.next_part + 1 };
      parts = d.parts ++ part_row decode d.next_part ht c p ∷ [];
    }),
    append_assoc d.parts (part_row decode d.next_part ht c p ∷ [])
        (register decode (d.next_part + 1) ht c ps),
  )

  -- `apply_op` succeeds exactly when every part it takes away is live, and then does this.
  abbrev pub op_applied : ℕ → ℕ → CommitOp → Db → Db
  op_applied ht c op d = record d {
    sequences = record d.sequences { next_part = d.next_part + length (added op) };
    parts = retire ht c (removed op) d.parts ++ register decode d.next_part ht c (added op);
    pending_objects = without_intents (added op) d.pending_objects;
  }

  retire-nil : (ht c : ℕ) (rows : List PartRow) → retire ht c [] rows ≡ rows
  retire-nil ht c [] = refl
  retire-nil ht c (r ∷ rows) = rw (retire-nil ht c rows)

  without_intents-nil : (rows : List PendingRow) → without_intents [] rows ≡ rows
  without_intents-nil [] = refl
  without_intents-nil (r ∷ rows) = rw (without_intents-nil rows)

  pub apply_op-applied :
      (ht c : ℕ) (op : CommitOp) (d : Db)
      → length (select (targets ht (removed op)) d.parts) ≡ length (removed op)
      → apply_op decode ht c op d ≡ (ok tt, op_applied ht c op d)
  unfolding apply_op insert_parts tombstone_parts removed added register
  apply_op-applied ht c (add ps) d h =
      ground (arith, insert_rows-register ht c ps d, retire-nil ht c d.parts)
  apply_op-applied ht c (replace old new) d h =
      ground (arith, insert_rows-register ht c new (record d { parts = retire ht c old d.parts }))
  apply_op-applied ht c (delete ps) d h =
      ground (arith, without_intents-nil d.pending_objects, append-nil (retire ht c ps d.parts))

  pub apply_op_live :
      (ht c : ℕ) (op : CommitOp) (d d' : Db)
      → apply_op decode ht c op d ≡ (ok tt, d')
      → length (select (targets ht (removed op)) d.parts) ≡ length (removed op)
  unfolding apply_op insert_parts tombstone_parts removed
  apply_op_live ht c (add ps) d d' h = all_none d.parts
    where
      all_none : (rows : List PartRow) → length (select (targets ht []) rows) ≡ 0
      all_none [] = refl
      all_none (r ∷ rows) = all_none rows
  apply_op_live ht c (replace old new) d d' h = ground arith
  apply_op_live ht c (delete ps) d d' h = ground arith

  pub advance_offsets-upsert :
      (ht : ℕ) (rs : List OffsetRange) (d : Db)
      → Unblocked ht rs d.ingest_offsets
      → advance_offsets ht rs d
        ≡ (ok tt, record d { ingest_offsets = upsert_offsets ht rs d.ingest_offsets })
  unfolding advance_offsets advance_offset upsert_offsets
  advance_offsets-upsert ht [] d h = refl
  advance_offsets-upsert ht (r ∷ rs) d h = rw h.0 (
      advance_offsets-upsert ht rs
        (record d { ingest_offsets = upsert_offset ht r d.ingest_offsets }) h.1)

  pub advance_offsets-Unblocked :
      (ht : ℕ) (rs : List OffsetRange) (d d' : Db)
      → advance_offsets ht rs d ≡ (ok tt, d')
      → Unblocked ht rs d.ingest_offsets
  unfolding advance_offsets advance_offset
  advance_offsets-Unblocked ht [] d d' h = tt
  advance_offsets-Unblocked ht (r ∷ rs) d d' h = elim (Bool-cases (blocked ht r d.ingest_offsets)) [
    | inl e ↦ cc (rw (e, advance_offset) at h)
    | inr e ↦ (
      e,
      advance_offsets-Unblocked ht rs
          (record d { ingest_offsets = upsert_offset ht r d.ingest_offsets }) d' (rw e at h),
    )
  ]
