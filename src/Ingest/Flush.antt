-- ===== src/Ingest/Flush.antt =====
-- From the messages of consumer.rs to the identity of flusher.rs.
use ukiel.Base.{
  ℕ, String, List, [], ◌∷◌, length, false, Option, ◌==◌, string_eq, ◌≡◌, ◌≢◌, refl, sym, ap, ◌∙◌,
  arith,
}
use ukiel.Base.Int.{ℤ}
use ukiel.Base.Sort.{sort}
use ukiel.Base.Result.{ok, ◌>>=◌}
use ukiel.Core.Commit.{OperationIdentity}
use ukiel.Core.Intent.{range_order}
use ukiel.Core.Operation.{ingest, ingest_body, finish}
use ukiel.Core.Operation.Outcome.{finish-made}
use ukiel.Ingest.Buffers.{
  IngestConfig, BufferedRange, Message, Buffers, track_offset, buffer_message, buffer_all,
  empty_buffers, drained, ingest_identity,
}
use ukiel.Ingest.Ranges.{
  InOrder, buffer_message-ranges, buffer_all-Tracked, canonical_ranges-Apart, drained-Fine,
  drained-Apart,
}

track_offset-occupied :
    (partition offset : ℤ) (rs : List BufferedRange) → track_offset partition offset rs ≢ []
unfolding track_offset
track_offset-occupied partition offset [] h = ground arith
track_offset-occupied partition offset (r ∷ rs) h = ground arith

drained-occupied : (topic : String) (rs : List BufferedRange) → rs ≢ [] → drained topic rs ≢ []
unfolding drained
drained-occupied topic [] occupied h = occupied refl
drained-occupied topic (r ∷ rs) occupied h = ground arith

module _ {ℓ} {Row : Type ℓ} (decode : List ℕ → Option Row) (field : String → Row → Option ℤ)
    (day_of : ℤ → Option String) (config : IngestConfig) (packing_key ts_column : String) where
  buffer_message-occupied :
      (m : Message) (b : Buffers Row)
      → (buffer_message Row decode field day_of config packing_key ts_column m b).ranges ≢ []
  buffer_message-occupied m b h =
      track_offset-occupied m.partition m.offset b.ranges
        (sym (buffer_message-ranges decode field day_of config packing_key ts_column m b) ∙ h)

  buffer_all-occupied :
      (ms : List Message) (b : Buffers Row)
      → b.ranges ≢ []
      → (buffer_all Row decode field day_of config packing_key ts_column ms b).ranges ≢ []
  unfolding buffer_all
  buffer_all-occupied [] b occupied = occupied
  buffer_all-occupied (m ∷ ms) b occupied =
      buffer_all-occupied ms
        (buffer_message Row decode field day_of config packing_key ts_column m b)
        (buffer_message-occupied m b)

  buffer_all-some :
      (m : Message) (ms : List Message) (b : Buffers Row)
      → (buffer_all Row decode field day_of config packing_key ts_column (m ∷ ms) b).ranges ≢ []
  unfolding buffer_all
  buffer_all-some m ms b =
      buffer_all-occupied ms
        (buffer_message Row decode field day_of config packing_key ts_column m b)
        (buffer_message-occupied m b)

  -- Whatever is in the messages of a topic, poison or not: if there is one, and those of a partition
  -- come in the order of their offsets, the offsets that the next flush commits make an identity.
  pub buffer_all-identity :
      (hash : List ℕ → List ℕ) (ht : ℕ) (topic : String) (m : Message) (ms : List Message)
      → ((bytes : List ℕ) → length (hash bytes) ≡ 32)
      → (topic == "") ≡ false
      → InOrder (m ∷ ms)
      → (a : OperationIdentity) × (ingest_identity hash ht (
            drained topic
              (buffer_all Row decode field day_of config packing_key ts_column
                (m ∷ ms)
                (empty_buffers Row)).ranges)
          ≡ ok a)
  unfolding ingest_identity ingest empty_buffers
  buffer_all-identity hash ht topic m ms digest named order =
      let tracked =
        buffer_all-Tracked decode field day_of config packing_key ts_column (m ∷ ms)
          (empty_buffers Row) order tt tt in
      let ranges =
        (buffer_all Row decode field day_of config packing_key ts_column (m ∷ ms)
          (empty_buffers Row)).ranges in
      let offsets = drained topic ranges in
      let occupied = drained-occupied topic ranges (buffer_all-some m ms (empty_buffers Row)) in
      let canonical =
        canonical_ranges-Apart offsets occupied (drained-Fine topic named ranges tracked.1)
          (drained-Apart topic named ranges tracked.0) in
      let made =
        finish-made hash ht "ingest" (ingest_body (sort offsets) 1) (omega arith) (digest _) in
      (
        made.0,
        ap (λ c. c >>= λ rs. finish hash ht "ingest" 1 (ingest_body rs 1)) canonical ∙ made.1,
      )
