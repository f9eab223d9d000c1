-- ===== src/Core/Commit.antt =====
-- crates/ukiel-core/src/commit.rs, and the stored half of operation.rs.
use ukiel.Base.{ℕ, String, List}
use ukiel.Core.Part.{PartMeta, Part}

pub data CommitOp : Type 0 where
  add : List PartMeta → CommitOp
  replace : List ℕ → List PartMeta → CommitOp
  delete : List ℕ → CommitOp

unfoldable pub kind : CommitOp → String
kind (add parts) = "add"
kind (replace old new) = "replace"
kind (delete parts) = "delete"

pub data CommitResult : Type 0 where
  committed : ℕ → CommitResult
  already_applied : ℕ → CommitResult

unfoldable pub commit_id : CommitResult → ℕ
commit_id (committed id) = id
commit_id (already_applied id) = id

pub record ChangeEvent : Type 0 where
  pub commit_id : ℕ
  pub kind : String
  pub added : List Part
  pub removed : List ℕ

-- A built identity: its scope, the stored key, and the digest of the intent (32 bytes).
pub record OperationIdentity : Type 0 where
  pub hypertable_id : ℕ
  pub key : String
  pub fingerprint : List ℕ
