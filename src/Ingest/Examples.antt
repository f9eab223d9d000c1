-- ===== src/Ingest/Examples.antt =====
-- The ingest's rules on concrete messages.
use ukiel.Base.{ℕ, String, List, [], ◌∷◌, false, Option, none, some, ◌≡◌, refl, arith}
use ukiel.Base.Int.{ℤ, pos}
use ukiel.Base.Result.{ok}
use ukiel.Core.Commit.{OperationIdentity}
use ukiel.Ingest.Assignment.{all, desired_assignment, owns}
use ukiel.Ingest.Buffers.{
  IngestConfig, Message, flush_decision, flush, defer, buffer_all, empty_buffers, drained,
  ingest_identity, event_time_in_bounds,
}
use ukiel.Ingest.Flush.{buffer_all-identity}

abbrev config : IngestConfig
config = record {
  max_buffer_rows = 1000;
  l0_slowdown_parts = 10;
  l0_stop_parts = 20;
  max_event_age_days = 1;
  max_event_future_secs = 60;
}

-- A row is a list of numbers: its time is the first.
abbrev field_at : String → List ℕ → Option ℤ
field_at name [] = none
field_at name (n ∷ row) = some (pos n)

abbrev message : ℕ → ℕ → List ℕ → Message
message partition offset bytes = record {
  partition = pos partition;
  offset = pos offset;
  payload = some bytes;
  now = pos 100;
}

-- A digest of 32 bytes.
abbrev padded : List ℕ → List ℕ
padded bytes =
    7 ∷ 7 ∷ 7 ∷ 7 ∷ 7 ∷ 7 ∷ 7 ∷ 7 ∷ 7 ∷ 7 ∷ 7 ∷ 7 ∷ 7 ∷ 7 ∷ 7 ∷ 7 ∷ 7 ∷ 7 ∷ 7 ∷ 7 ∷ 7 ∷ 7 ∷ 7 ∷ 7
    ∷ 7 ∷ 7 ∷ 7 ∷ 7 ∷ 7 ∷ 7 ∷ 7 ∷ 7 ∷ []

stopped_by_pressure : flush_decision 20 3 5 config ≡ defer
unfolding flush_decision
stopped_by_pressure = refl

memory_first : flush_decision 20 3 2000 config ≡ flush
unfolding flush_decision
memory_first = refl

assigned :
    desired_assignment (pos 2 ∷ pos 0 ∷ []) all ((pos 2, pos 50) ∷ [])
    ≡ record { partition = pos 0; offset = pos 0 }
      ∷ record { partition = pos 2; offset = pos 50 }
      ∷ []
unfolding desired_assignment owns
assigned = refl

-- An age of 0 days leaves no past: an event one millisecond old is out of bounds.
no_past : event_time_in_bounds (pos 99) (pos 100) (record config { max_event_age_days = 0 }) ≡ false
unfolding event_time_in_bounds
no_past = refl

buffer_all-identity_example :
    (a : OperationIdentity) × (ingest_identity padded 1 (
        drained "hits"
          (buffer_all
            (List ℕ)
            some
            field_at
            (λ t. some "1970-01-01")
            config
            "key"
            "ts"
            (message 0 4 (5 ∷ []) ∷ message 1 9 [] ∷ message 0 6 (7 ∷ []) ∷ [])
            (empty_buffers (List ℕ))).ranges)
      ≡ ok a)
buffer_all-identity_example =
    buffer_all-identity some field_at (λ t. some "1970-01-01") config "key" "ts" padded 1 "hits"
      (message 0 4 (5 ∷ [])) (message 1 9 [] ∷ message 0 6 (7 ∷ []) ∷ []) (λ bytes. refl) refl
      (ground arith)
