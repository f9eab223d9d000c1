-- ===== src/Catalog/Leases.antt =====
-- crates/ukiel-catalog/src/leases.rs: one renewable claim on each partition. `clock` is
-- `clock_timestamp()` of the statement, and a lease row is returned as the token it is.
pub mod Exclusion
pub mod Contention
pub mod Tokens
mod Examples
use ukiel.Base.{
  ℕ, ◌+◌, ◌^◌, String, Bool, ◌&&◌, ◌||◌, not, Option, none, some, [], ◌∷◌, ◌++◌, leb, ltb, ◌==◌,
  nat_eq, string_eq, any, elem, find, select, update, if◌then◌else◌,
}
use ukiel.Catalog.Error.{invalid_lease_ttl, db, database}
use ukiel.Catalog.Db.{Db, LeaseRow}
use ukiel.Catalog.Tx.{Result, Tx, ok, err, lift, ◌>>=◌}

-- `CompactionLease` has the fields of its row.
abbrev pub CompactionLease : Type 0
CompactionLease = LeaseRow

-- `ttl` is the duration's `as_millis`.
unfoldable pub ttl_millis : ℕ → Result ℕ
ttl_millis ttl =
    if ttl == 0
    then err (invalid_lease_ttl "must be greater than zero")
    else if leb (2 ^ 63) ttl
    then err (invalid_lease_ttl "exceeds i64 milliseconds")
    else ok ttl

-- The table's primary key.
abbrev pub on : ℕ → String → LeaseRow → Bool
on ht partition r = r.hypertable_id == ht && r.partition_values == partition

-- `DO UPDATE … WHERE expires_at <= clock_timestamp() OR owner_id = EXCLUDED.owner_id`
abbrev pub takeable : ℕ → ℕ → LeaseRow → Bool
takeable owner clock r = leb r.expires_at clock || r.owner_id == owner

-- The `SET` clause: a live tenancy of the same owner keeps its generation.
abbrev pub taken : ℕ → ℕ → ℕ → ℕ → LeaseRow → LeaseRow
taken owner generation clock expires r = record r {
  owner_id = owner;
  generation = if r.owner_id == owner && ltb clock r.expires_at then r.generation else generation;
  expires_at = expires;
}

abbrev pub draw_generation : Db → Db
draw_generation d = record d {
  sequences = record d.sequences { next_generation = d.next_generation + 1 };
}

abbrev pub claim : ℕ → String → ℕ → ℕ → ℕ → LeaseRow
claim ht partition owner generation expires = record {
  hypertable_id = ht;
  partition_values = partition;
  owner_id = owner;
  generation = generation;
  expires_at = expires;
}

-- `INSERT … ON CONFLICT DO UPDATE … RETURNING`. A new row's hypertable is a foreign key.
unfoldable pub acquire_row : ℕ → String → ℕ → ℕ → ℕ → Tx (Option CompactionLease)
acquire_row ht partition owner ms clock d = elim (find (on ht partition) d.leases) [
  | none ↦
      if elem ht d.hypertables
      then (
        ok (some (claim ht partition owner d.next_generation (clock + ms))),
        record (draw_generation d) {
          leases = d.leases ++ claim ht partition owner d.next_generation (clock + ms) ∷ [];
        },
      )
      else (err (db (database (some "23503"))), draw_generation d)
  | some r ↦
      if takeable owner clock r
      then (
        ok (some (taken owner d.next_generation clock (clock + ms) r)),
        record (draw_generation d) {
          leases =
              update (on ht partition) (taken owner d.next_generation clock (clock + ms)) d.leases;
        },
      )
      else (ok none, draw_generation d)
]

unfoldable pub try_acquire_compaction_lease : ℕ → String → ℕ → ℕ → ℕ → Tx (Option CompactionLease)
try_acquire_compaction_lease ht partition owner ttl clock = do
  ms ← lift (ttl_millis ttl)
  acquire_row ht partition owner ms clock

-- The row of exactly this tenancy.
abbrev pub same_tenancy : CompactionLease → LeaseRow → Bool
same_tenancy lease r =
    on lease.hypertable_id lease.partition_values r
    && (r.owner_id == lease.owner_id && r.generation == lease.generation)

unfoldable pub renew_row : CompactionLease → ℕ → ℕ → Tx (Option CompactionLease)
renew_row lease ms clock d =
    elim (find (λ r. same_tenancy lease r && ltb clock r.expires_at) d.leases) [
      | none ↦ (ok none, d)
      | some r ↦ (
        ok (some (record r { expires_at = clock + ms })),
        record d {
          leases =
              update (λ r. same_tenancy lease r && ltb clock r.expires_at)
                (λ r. record r { expires_at = clock + ms }) d.leases;
        },
      )
    ]

unfoldable pub renew_compaction_lease : CompactionLease → ℕ → ℕ → Tx (Option CompactionLease)
renew_compaction_lease lease ttl clock = do ms ← lift (ttl_millis ttl); renew_row lease ms clock

unfoldable pub release_compaction_lease : CompactionLease → Tx Bool
release_compaction_lease lease d = (
  ok (any (same_tenancy lease) d.leases),
  record d { leases = select (λ r. not (same_tenancy lease r)) d.leases },
)
