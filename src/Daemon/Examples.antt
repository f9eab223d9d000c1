-- ===== src/Daemon/Examples.antt =====
-- The daemon's health, recovery and supervision on concrete scripts.
use ukiel.Base.{◌/◌, ℕ, ◌+◌, ◌*◌, ◌≡◌, ◌≤◌, refl, none, some, List, [], ◌∷◌, false, arith}
use ukiel.Base.Result.{ok, err}
use ukiel.Core.Commit.{OperationIdentity}
use ukiel.Catalog.Error.{
  is_recoverable_transport, class, class_for_db_error, io, db, ambiguous_mutation, transport,
}
use ukiel.Catalog.Db.{fresh}
use ukiel.Catalog.Commit
use ukiel.Catalog.Commit.{absent, lookup_operation, lookup_in_tx}
use ukiel.Daemon.Health.{HealthRegistry, new, ingest, gc, role_label, state, stopped, transition}
use ukiel.Daemon.Health.States.{says_healthy, says_degraded, calls, calls-terminal}
use ukiel.Daemon.Recovery.{
  RecoveryPolicy, Probe, pong, elapsed, wait_for_catalog, wait_loop, backoff,
}
use ukiel.Daemon.Supervisor.{
  Attempt, from_catalog, recoverable, catalog_error, ambiguous_operation, supervise_role, reconcile,
  clean_stop, built, went_down, probed, asked, reachable,
}
use ukiel.Daemon.Supervisor.Log.{Orderly, may_build, supervise_role-Orderly}
use ukiel.Daemon.Supervisor.Ends.{Fits, supervise_role-Fits}

-- A jitter that adds half of the delay.
abbrev half_more : ℕ → ℕ → ℕ → ℕ
half_more delay ratio word = delay + delay / 2

half_more-bound : (delay ratio word : ℕ) → half_more delay ratio word ≤ 2 * delay
half_more-bound delay ratio word = omega arith

abbrev policy : RecoveryPolicy
policy = record { base = 100; max = 5000; jitter_ratio = 200000; probe_timeout = 500; seed = 7 }

abbrev probe : ℕ → Probe
probe now = record { cancelled = false; now = now; answer = elapsed; cancelled_asleep = false }

abbrev reached : ℕ → Probe
reached now = record { cancelled = false; now = now; answer = pong; cancelled_asleep = false }

abbrev merge : OperationIdentity
merge = record { hypertable_id = 1; key = "ukiel/compaction/v1/00"; fingerprint = 0 ∷ [] }

-- A worker that dies on an ambiguous commit, an outage of two probes, an answer, and a worker that
-- ends with the process.
abbrev outage : List Attempt
outage =
    record {
      reports = 10 ∷ [];
      outcome = err (from_catalog (ambiguous_mutation merge "k" io));
      now = 20;
      outage = probe 30 ∷ reached 40 ∷ [];
      lookups =
          record {
            failure = some (db io);
            tables = fresh (1 ∷ []);
            outage = probe 45 ∷ reached 50 ∷ [];
            now = 50;
          }
          ∷ record { failure = none; tables = fresh (1 ∷ []); outage = []; now = 55 }
          ∷ [];
    }
    ∷ record { reports = 60 ∷ []; outcome = ok tt; now = 70; outage = []; lookups = [] }
    ∷ []

abbrev started : HealthRegistry
started = new 0 (ingest ∷ gc ∷ [])

stopped_at_last : (supervise_role half_more policy "gc" outage started).outcome ≡ clean_stop
unfolding supervise_role reconcile wait_for_catalog wait_loop backoff recoverable catalog_error
    ambiguous_operation is_recoverable_transport class class_for_db_error lookup_operation
    lookup_in_tx Commit.reconcile
stopped_at_last = refl

-- Of the second question the tables know nothing: the merge never landed.
rebuilt_after_answer :
    (supervise_role half_more policy "gc" outage started).trace
    ≡ built
      ∷ went_down transport (some merge)
      ∷ probed elapsed
      ∷ probed pong
      ∷ asked merge (err (db io))
      ∷ probed elapsed
      ∷ probed pong
      ∷ asked merge (ok absent)
      ∷ reachable
      ∷ built
      ∷ []
unfolding supervise_role reconcile wait_for_catalog wait_loop backoff recoverable catalog_error
    ambiguous_operation is_recoverable_transport class class_for_db_error lookup_operation
    lookup_in_tx Commit.reconcile
rebuilt_after_answer = refl

supervise_role-Orderly_example :
    Orderly may_build (supervise_role half_more policy "gc" outage started).trace
supervise_role-Orderly_example = supervise_role-Orderly half_more policy "gc" outage started

supervise_role-Fits_example :
    Fits
      (supervise_role half_more policy "gc" outage started).outcome
      (state "gc" (supervise_role half_more policy "gc" outage started).health)
unfolding new state role_label
supervise_role-Fits_example = supervise_role-Fits half_more policy "gc" outage started refl

abbrev late : HealthRegistry
late = stopped 90 "gc" started

calls-terminal_example :
    state "gc" (calls (says_degraded 95 "gc" transport ∷ says_healthy 99 "gc" ∷ []) late)
    ≡ state "gc" late
unfolding stopped new state transition role_label
calls-terminal_example =
    calls-terminal (says_degraded 95 "gc" transport ∷ says_healthy 99 "gc" ∷ []) late "gc" refl
