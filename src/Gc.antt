-- ===== src/Gc.antt =====
-- crates/ukiel-gc/src/lib.rs: the loops that delete objects. The object store is a third-party
-- crate: `S` is its state and `delete_object` what a deletion does to it. A `Round` is what the
-- world does in one turn of a loop: what other workers commit before it, the clock, and the calls
-- of the catalog that fail.
pub mod Reap
pub mod Sweep
mod Examples
use ukiel.Base.{ℕ, ◌+◌, String, Bool, Option, none, some, List, [], ◌∷◌}
use ukiel.Core.Part.{Part}
use ukiel.Catalog.Error.{CatalogError}
use ukiel.Catalog.Db.{Db}
use ukiel.Catalog.Gc.{
  next_reapable_part, mark_purged, next_orphaned_pending_object, clear_pending_objects,
}

pub data GcError : Type 0 where
  catalog : CatalogError → GcError
  object_store : String → GcError

pub data Deletion : Type 0 where
  deleted : Deletion
  not_found : Deletion
  failed : String → Deletion

pub record Round : Type 0 where
  pub others : Db → Db
  pub now : ℕ
  pub read_fault : Option CatalogError
  pub write_fault : Option CatalogError

pub record GcStats : Type 0 where
  pub reaped_parts : ℕ
  pub swept_orphans : ℕ

-- One turn of a loop: go on, or return, or return an error.
pub data Turn : Type 0 where
  again : Turn
  over : Turn
  fault : GcError → Turn

-- How a loop ends: it returns, or it is still running when the rounds are over.
pub data Ending : Type 0 where
  returned : Ending
  stopped : GcError → Ending
  running : Ending

module _ {ℓ} (S : Type ℓ) (delete_object : String → S → Deletion × S) where
  pub record State : Type ℓ where
    pub db : Db
    pub store : S
    pub stats : GcStats

  abbrev count_reaped : GcStats → GcStats
  count_reaped s = record s { reaped_parts = s.reaped_parts + 1 }

  abbrev count_swept : GcStats → GcStats
  count_swept s = record s { swept_orphans = s.swept_orphans + 1 }

  -- The stamp of a part whose object is gone.
  unfoldable pub stamp : Round → ℕ → State → Turn × State
  stamp r id s = elim r.write_fault [
    | some e ↦ (fault (catalog e), s)
    | none ↦
        (again, record s { db = mark_purged r.now (id ∷ []) s.db; stats = count_reaped s.stats })
  ]

  -- The object, then the stamp; an object that is missing counts as deleted.
  unfoldable pub reap_part : Round → Part → State → Turn × State
  reap_part r part s =
      let (outcome, store) = delete_object part.meta.path s.store in
      elim outcome [
        | failed e ↦ (fault (object_store e), record s { store = store })
        | deleted ↦ stamp r part.id (record s { store = store })
        | not_found ↦ stamp r part.id (record s { store = store })
      ]

  unfoldable pub reap_round : ℕ → ℕ → Round → State → Turn × State
  reap_round ht grace r s = elim r.read_fault [
    | some e ↦ (fault (catalog e), s)
    | none ↦ elim (next_reapable_part r.now ht grace s.db) [
      | none ↦ (over, s)
      | some part ↦ reap_part r part s
    ]
  ]

  unfoldable pub reap : ℕ → ℕ → List Round → State → Ending × State
  reap ht grace [] s = (running, s)
  reap ht grace (r ∷ rs) s =
      let (turn, after) = reap_round ht grace r (record s { db = r.others s.db }) in
      let rest = reap ht grace rs after in
      elim turn [ over ↦ (returned, after) | fault e ↦ (stopped e, after) | again ↦ rest ]

  module _ (before : String → String → Bool) where
    unfoldable pub clear : Round → String → State → Turn × State
    clear r path s = elim r.write_fault [
      | some e ↦ (fault (catalog e), s)
      | none ↦ (
        again,
        record s { db = clear_pending_objects (path ∷ []) s.db; stats = count_swept s.stats },
      )
    ]

    unfoldable pub sweep_path : Round → String → State → Turn × State
    sweep_path r path s =
        let (outcome, store) = delete_object path s.store in
        elim outcome [
          | failed e ↦ (fault (object_store e), record s { store = store })
          | deleted ↦ clear r path (record s { store = store })
          | not_found ↦ clear r path (record s { store = store })
        ]

    unfoldable pub sweep_round : ℕ → ℕ → Round → State → Turn × State
    sweep_round ht grace r s = elim r.read_fault [
      | some e ↦ (fault (catalog e), s)
      | none ↦ elim (next_orphaned_pending_object before r.now ht grace s.db) [
        | none ↦ (over, s)
        | some path ↦ sweep_path r path s
      ]
    ]

    unfoldable pub sweep : ℕ → ℕ → List Round → State → Ending × State
    sweep ht grace [] s = (running, s)
    sweep ht grace (r ∷ rs) s =
        let (turn, after) = sweep_round ht grace r (record s { db = r.others s.db }) in
        let rest = sweep ht grace rs after in
        elim turn [ over ↦ (returned, after) | fault e ↦ (stopped e, after) | again ↦ rest ]
