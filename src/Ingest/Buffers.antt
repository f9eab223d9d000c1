-- ===== src/Ingest/Buffers.antt =====
-- crates/ukiel-ingest/src/consumer.rs: what a route buffers between two flushes; and the identity of a
-- flush, of flusher.rs. A row, its decoding, its integer fields and the day of a time are serde's
-- and chrono's (`Row`, `decode`, `field`, `day_of`). Offsets and times are `i64`; the
-- configured numbers are below 2 ^ 63, so that `as i64` and `as usize` keep them.
use ukiel.Base.{
  not, ◌%◌, ℕ, ◌+◌, ◌-◌, ◌*◌, ◌^◌, min, String, List, [], ◌∷◌, ◌++◌, map, any, update, Bool, true,
  false, ◌&&◌, leb, ltb, Option, none, some, ◌==◌, nat_eq, string_eq, if◌then◌else◌,
}
use ukiel.Base.Int.{ℤ, pos, negsuc, int_eq, leℤ}
use ukiel.Base.Result.{Result}
use ukiel.Core.Commit.{OperationIdentity}
use ukiel.Core.Intent.{IngestRange, OperationError}
use ukiel.Core.Operation.{ingest}

pub record IngestConfig : Type 0 where
  pub max_buffer_rows : ℕ
  pub l0_slowdown_parts : ℕ
  pub l0_stop_parts : ℕ
  pub max_event_age_days : ℕ
  pub max_event_future_secs : ℕ

pub data FlushDecision : Type 0 where
  flush defer : FlushDecision

unfoldable pub flush_decision : ℕ → ℕ → ℕ → IngestConfig → FlushDecision
flush_decision max_live_l0 deferred total_rows config =
    if leb (min (config.max_buffer_rows * 2) (2 ^ 64 - 1)) total_rows
    then flush
    else if leb config.l0_stop_parts max_live_l0
    then defer
    else if leb config.l0_slowdown_parts max_live_l0 && deferred == 0
    then defer
    else flush

abbrev pub minusℤ : ℤ → ℕ → ℤ
minusℤ (pos n) m = if leb m n then pos (n - m) else negsuc (m - n - 1)
minusℤ (negsuc n) m = negsuc (n + m)

abbrev pub plusℤ : ℤ → ℕ → ℤ
plusℤ (pos n) m = pos (n + m)
plusℤ (negsuc n) m = if ltb n m then pos (m - n - 1) else negsuc (n - m)

-- `saturating_sub` and `saturating_add` of an `i64` and one that is not negative.
abbrev pub saturating_sub : ℤ → ℕ → ℤ
saturating_sub a m =
    let d = minusℤ a m in if leℤ (negsuc (2 ^ 63 - 1)) d then d else negsuc (2 ^ 63 - 1)

abbrev pub saturating_add : ℤ → ℕ → ℤ
saturating_add a m = let s = plusℤ a m in if leℤ s (pos (2 ^ 63 - 1)) then s else pos (2 ^ 63 - 1)

unfoldable pub event_time_in_bounds : ℤ → ℤ → IngestConfig → Bool
event_time_in_bounds ts now config =
    let max_age = min (config.max_event_age_days * 86400000) (2 ^ 63 - 1) in
    let max_future = min (config.max_event_future_secs * 1000) (2 ^ 63 - 1) in
    leℤ (saturating_sub now max_age) ts && leℤ ts (saturating_add now max_future)

pub record BufferedRange : Type 0 where
  pub partition : ℤ
  pub first : ℤ
  pub last : ℤ

pub record Message : Type 0 where
  pub partition : ℤ
  pub offset : ℤ
  pub payload : Option (List ℕ)
  pub now : ℤ

abbrev pub of_partition : ℤ → BufferedRange → Bool
of_partition partition r = r.partition == partition

-- `entry(partition).or_insert((offset, offset))`, and then its last offset.
unfoldable pub track_offset : ℤ → ℤ → List BufferedRange → List BufferedRange
track_offset partition offset [] =
    record { partition = partition; first = offset; last = offset } ∷ []
track_offset partition offset (r ∷ ranges) =
    let rest = track_offset partition offset ranges in
    if of_partition partition r then record r { last = offset } ∷ ranges else r ∷ rest

unfoldable pub track_event_ts : Option ℤ → ℤ → ℤ
track_event_ts none ts = ts
track_event_ts (some m) ts = if leℤ m ts then ts else m

module _ {ℓ} (Row : Type ℓ) where
  pub record Buffers : Type ℓ where
    pub rows_by_day : List (String × List Row)
    pub ranges : List BufferedRange
    pub total_rows : ℕ
    pub max_event_ts_ms : Option ℤ
    pub deferred_flushes : ℕ

  unfoldable pub empty_buffers : Buffers
  empty_buffers = record {
    rows_by_day = [];
    ranges = [];
    total_rows = 0;
    max_event_ts_ms = none;
    deferred_flushes = 0;
  }

  abbrev pub push_row : String → Row → List (String × List Row) → List (String × List Row)
  push_row day row days =
      if any (λ d. d.0 == day) days
      then update (λ d. d.0 == day) (λ d. (d.0, d.1 ++ row ∷ [])) days
      else days ++ (day, row ∷ []) ∷ []

  module _ (decode : List ℕ → Option Row) (field : String → Row → Option ℤ)
      (day_of : ℤ → Option String) (config : IngestConfig) (packing_key ts_column : String) where
    abbrev pub dated : Row → ℤ → Option String → Option (Row × (ℤ × String))
    dated row ts none = none
    dated row ts (some day) = some (row, (ts, day))

    abbrev pub timed : ℤ → Row → Option ℤ → Option ℤ → Option (Row × (ℤ × String))
    timed now row none key = none
    timed now row (some ts) none = none
    timed now row (some ts) (some key) =
        if event_time_in_bounds ts now config then dated row ts (day_of ts) else none

    -- The row of a message that is not skipped, with its time and its day.
    abbrev pub decoded : ℤ → Option Row → Option (Row × (ℤ × String))
    decoded now none = none
    decoded now (some row) = timed now row (field ts_column row) (field packing_key row)

    abbrev pub accepted : Message → Option (Row × (ℤ × String))
    accepted m = elim m.payload [ none ↦ none | some bytes ↦ decoded m.now (decode bytes) ]

    abbrev pub keep_row : Option (Row × (ℤ × String)) → Buffers → Buffers
    keep_row none b = b
    keep_row (some (row, (ts, day))) b = record b {
      rows_by_day = push_row day row b.rows_by_day;
      total_rows = b.total_rows + 1;
      max_event_ts_ms = some (track_event_ts b.max_event_ts_ms ts);
    }

    unfoldable pub buffer_message : Message → Buffers → Buffers
    unfolding track_offset
    buffer_message m b =
        keep_row (accepted m) (record b { ranges = track_offset m.partition m.offset b.ranges })

    unfoldable pub buffer_all : List Message → Buffers → Buffers
    buffer_all [] b = b
    buffer_all (m ∷ ms) b = buffer_all ms (buffer_message m b)

-- The offsets that a flush commits.
unfoldable pub drained : String → List BufferedRange → List IngestRange
drained topic ranges =
    map
      (λ (r : BufferedRange). record {
        topic = topic;
        partition = r.partition;
        first = r.first;
        last = r.last;
      })
      ranges

unfoldable pub ingest_identity :
    (List ℕ → List ℕ) → ℕ → List IngestRange → Result OperationIdentity OperationError
unfolding ingest
ingest_identity hash ht offsets = ingest hash ht offsets 1

-- A tick: nothing to flush, a flush put off, or the rows and offsets of a flush and the buffers after it.
pub data FlushStep {ℓ} (Row : Type ℓ) : Type ℓ where
  idle : FlushStep Row
  put_off : Buffers Row → FlushStep Row
  taken : List (String × List Row) → List IngestRange → Buffers Row → FlushStep Row

abbrev pub is_defer : FlushDecision → Bool
is_defer flush = false
is_defer defer = true

abbrev pub is_empty {ℓ} : {A : Type ℓ} → List A → Bool
is_empty [] = true
is_empty (x ∷ xs) = false

-- `max_live` is what the catalog answers for the days of the buffers.
unfoldable pub flush_step {ℓ} :
    {Row : Type ℓ} → Bool → ℕ → String → IngestConfig → Buffers Row → FlushStep Row
unfolding flush_decision drained empty_buffers
flush_step {Row = Row} force max_live topic config b =
    if is_empty b.ranges
    then idle
    else if not force
        && (not (is_empty b.rows_by_day)
            && is_defer (flush_decision max_live b.deferred_flushes b.total_rows config))
    then put_off (record b { deferred_flushes = (b.deferred_flushes + 1) % 2 ^ 32 })
    else taken b.rows_by_day (drained topic b.ranges) (empty_buffers Row)
