-- ===== src/Catalog/Leases/Examples.antt =====
-- Tests of leases.rs, and its theorems at concrete inputs.
use ukiel.Base.{◌≡◌, ◌⊎◌, refl, String, none, some, List, [], ◌∷◌, arith}
use ukiel.Catalog.Db.{Db, fresh}
use ukiel.Catalog.Tx.{ok}
use ukiel.Catalog.Leases.{
  CompactionLease, acquire_row, try_acquire_compaction_lease, ttl_millis, renew_row,
  renew_compaction_lease, release_compaction_lease,
}
use ukiel.Catalog.Leases.Exclusion.{IsLeased, Call, acquire, renew, call, calls, calls-IsLeased}
use ukiel.Catalog.Leases.Contention.{Contended, Granted, Orphan, acquire_cases}
use ukiel.Catalog.Leases.Tokens.{IsOver, release-IsOver, calls-IsOver, takeover-IsOver}

abbrev day : String
day = "{\"day\": \"2026-07-05\"}"

abbrev token : CompactionLease
token = record {
  hypertable_id = 1;
  partition_values = day;
  owner_id = 7;
  generation = 1;
  expires_at = 160;
}

abbrev start : Db
start = fresh (1 ∷ [])

-- Worker 7 claims the day at time 100 for 60 ms.
claimed : Db
unfolding calls call try_acquire_compaction_lease acquire_row ttl_millis
claimed = calls (acquire 1 day 7 60 100 ∷ []) start

claimed_row : claimed.leases ≡ token ∷ []
unfolding claimed
claimed_row = refl

start-IsLeased : IsLeased start
start-IsLeased = record { unique = tt; drawn = tt }

abbrev contest : List Call
contest =
    acquire 1 day 7 60 100
    ∷ acquire 1 day 8 60 120
    ∷ acquire 1 day 8 60 160
    ∷ renew token 60 170
    ∷ []

-- The peer is refused while the lease lives, and takes the partition when it has run out.
contest_end :
    (calls contest start).leases
    ≡ record token { owner_id = 8; generation = 3; expires_at = 220 } ∷ []
unfolding calls call try_acquire_compaction_lease acquire_row ttl_millis renew_compaction_lease
    renew_row
contest_end = refl

calls-IsLeased_example : IsLeased (calls contest start)
calls-IsLeased_example = calls-IsLeased contest start start-IsLeased

acquire_cases_example :
    let run = try_acquire_compaction_lease 1 day 8 60 120 claimed in
    ((run.0 ≡ ok none) × Contended 1 day 8 120 claimed × (run.1.leases ≡ claimed.leases))
    ⊎ (((l : CompactionLease) × (run.0 ≡ ok (some l))
          × Granted 1 day 8 60 120 claimed run.1 l
          × ¬ Contended 1 day 8 120 claimed)
        ⊎ Orphan 1 day claimed run)
acquire_cases_example = acquire_cases 1 day 8 60 120 claimed (omega arith) (omega arith)

release-IsOver_example : IsOver token (release_compaction_lease token claimed).1
unfolding claimed
release-IsOver_example = release-IsOver token claimed (omega arith)

calls-IsOver_example :
    IsOver token (calls (acquire 1 day 7 60 170 ∷ []) (release_compaction_lease token claimed).1)
calls-IsOver_example =
    calls-IsOver token (acquire 1 day 7 60 170 ∷ []) (release_compaction_lease token claimed).1
      release-IsOver_example

-- Worker 8 gets the day when the lease of worker 7 has run out.
takeover-IsOver_example : IsOver token (acquire_row 1 day 8 60 160 claimed).1
takeover-IsOver_example =
    takeover-IsOver token 8 60 160 claimed
      {l = record token { owner_id = 8; generation = 2; expires_at = 220 }} (omega arith)
      (unfold claimed in omega arith) (unfold claimed in unfold acquire_row in refl)
