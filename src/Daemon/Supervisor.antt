-- ===== src/Daemon/Supervisor.antt =====
-- crates/ukield/src/supervisor.rs: one role, its worker rebuilt after each catalog failure that may
-- pass. What the workers, the catalog and the process do is a script: an `Attempt` is one worker
-- with what follows its end, a `Lookup` is one question to the catalog with the wait after it: what
-- the connection does, and the tables that answer. Where a script ends before the role does, the
-- role is still running. The trace has what a role does, in order: the workers it builds, the
-- probes and the questions it sends with their answers, and the lines logged around them.
pub mod Log
pub mod Ends
use ukiel.Base.{
  ℕ, String, List, [], ◌∷◌, ◌++◌, map, Bool, true, false, Option, none, some, if◌then◌else◌,
}
use ukiel.Base.Result.{Result, ok, err}
use ukiel.Core.Commit.{OperationIdentity}
use ukiel.Catalog.Error.{
  CatalogError, CatalogErrorClass, ambiguous_mutation, class, is_recoverable_transport,
}
use ukiel.Catalog.Db.{Db}
use ukiel.Catalog.Tx.{Result as TxResult, ok as tx_ok, err as tx_err}
use ukiel.Catalog.Commit.{OperationLookup, lookup_operation}
use ukiel.Daemon.Health.{
  HealthRegistry, healthy, degraded, reconciling, failed, stopped, catalog_reachable,
  catalog_unavailable,
}
use ukiel.Daemon.Recovery.{
  RecoveryPolicy, Probe, ProbeAnswer, Wait, Waited, answered, shut_down, waiting, wait_for_catalog,
}
use mathlib.Core.Option

-- The errors of the workers: each role's type has one variant for a catalog error.
pub data WorkerError : Type 0 where
  from_catalog : CatalogError → WorkerError
  other_error : String → WorkerError

unfoldable pub catalog_error : WorkerError → Option CatalogError
catalog_error (from_catalog e) = some e
catalog_error (other_error what) = none

abbrev pub identity_of : CatalogError → Option OperationIdentity
identity_of (ambiguous_mutation identity key source) = some identity
identity_of e = none

unfoldable pub ambiguous_operation : WorkerError → Option OperationIdentity
unfolding catalog_error
ambiguous_operation e = elim (catalog_error e) [ some c ↦ identity_of c | none ↦ none ]

-- The class of an error that waiting may cure.
unfoldable pub recoverable : WorkerError → Option CatalogErrorClass
unfolding catalog_error
recoverable e = elim (catalog_error e) [
  | some c ↦ if is_recoverable_transport c then some (class c) else none
  | none ↦ none
]

pub record Lookup : Type 0 where
  pub failure : Option CatalogError
  pub tables : Db
  pub outage : List Probe
  pub now : ℕ

abbrev pub from_tx {ℓ} : {A : Type ℓ} → TxResult A → Result A CatalogError
from_tx (tx_ok a) = ok a
from_tx (tx_err e) = err e

-- `catalog.lookup_operation(identity)`
abbrev pub answer_to : OperationIdentity → Lookup → Result OperationLookup CatalogError
answer_to identity l = elim l.failure [
  | some e ↦ err e
  | none ↦ from_tx (lookup_operation identity l.tables).0
]

pub data Reconciled : Type 0 where
  decided : OperationLookup → Reconciled
  reconcile_stopped : Reconciled
  reconcile_failed : CatalogError → Reconciled
  undecided : Reconciled

-- The worker's own calls of `healthy` come first, then its end.
pub record Attempt : Type 0 where
  pub reports : List ℕ
  pub outcome : Result (Unit {0}) WorkerError
  pub now : ℕ
  pub outage : List Probe
  pub lookups : List Lookup

pub data Event : Type 0 where
  built : Event
  went_down : CatalogErrorClass → Option OperationIdentity → Event
  probed : ProbeAnswer → Event
  asked : OperationIdentity → Result OperationLookup CatalogError → Event
  reachable : Event

pub data Supervised : Type 0 where
  clean_stop : Supervised
  worker_failed : WorkerError → Supervised
  reconciliation_failed : CatalogError → Supervised
  running : Supervised

pub record Run : Type 0 where
  pub outcome : Supervised
  pub health : HealthRegistry
  pub trace : List Event

abbrev pub after_events : List Event → Run → Run
after_events events r = record r { trace = events ++ r.trace }

abbrev pub ended : Supervised → HealthRegistry → Run
ended outcome h = record { outcome = outcome; health = h; trace = [] }

unfoldable pub reports_healthy : String → List ℕ → HealthRegistry → HealthRegistry
reports_healthy label [] h = h
reports_healthy label (now ∷ rest) h = reports_healthy label rest (healthy now label h)

-- A reconciliation: its end, the health it leaves, and what it did.
pub record Question : Type 0 where
  pub outcome : Reconciled
  pub health : HealthRegistry
  pub trace : List Event

abbrev pub then_asked : List Event → Question → Question
then_asked events q = record q { trace = events ++ q.trace }

-- After the wait of a lookup: the questions that follow, where there are any.
abbrev pub resume : Waited → HealthRegistry → Question → Question
resume answered h rest = rest
resume shut_down h rest = record { outcome = reconcile_stopped; health = h; trace = [] }
resume waiting h rest = record { outcome = undecided; health = h; trace = [] }

abbrev pub after_lookup :
    OperationIdentity
    → Result OperationLookup CatalogError
    → Wait
    → Question
    → HealthRegistry
    → Question
after_lookup identity (ok found) wait rest h = record {
  outcome = decided found;
  health = h;
  trace = asked identity (ok found) ∷ [];
}
after_lookup identity (err e) wait rest h =
    if is_recoverable_transport e
    then then_asked (asked identity (err e) ∷ map probed wait.probed)
        (resume wait.outcome wait.health rest)
    else record { outcome = reconcile_failed e; health = h; trace = asked identity (err e) ∷ [] }

module _ (mul_f64 : ℕ → ℕ → ℕ → ℕ) (policy : RecoveryPolicy) (label : String) where
  unfoldable pub reconcile : OperationIdentity → List Lookup → HealthRegistry → Question
  reconcile identity [] h = record { outcome = undecided; health = h; trace = [] }
  reconcile identity (l ∷ lookups) h =
      let wait = wait_for_catalog mul_f64 policy l.outage h in
      let rest = reconcile identity lookups (reconciling l.now label wait.health) in
      after_lookup identity (answer_to identity l) wait rest h

  -- After the reconciliation of an ambiguous operation, and the rebuilds that follow it.
  abbrev pub after_reconcile : ℕ → Reconciled → HealthRegistry → (HealthRegistry → Run) → Run
  after_reconcile now (decided found) h rebuild = after_events (reachable ∷ []) (rebuild h)
  after_reconcile now reconcile_stopped h rebuild = ended clean_stop (stopped now label h)
  after_reconcile now (reconcile_failed e) h rebuild =
      ended (reconciliation_failed e) (failed now label (some (class e)) h)
  after_reconcile now undecided h rebuild = ended running h

  -- The catalog answers again: the role is reconciling, and rebuilt when no operation is open.
  abbrev pub after_answer :
      Attempt → Option OperationIdentity → HealthRegistry → (HealthRegistry → Run) → Run
  after_answer a none h rebuild =
      after_events (reachable ∷ []) (rebuild (reconciling a.now label h))
  after_answer a (some identity) h rebuild =
      let q = reconcile identity a.lookups (reconciling a.now label h) in
      after_events q.trace (after_reconcile a.now q.outcome q.health rebuild)

  abbrev pub after_outage :
      Attempt → Option OperationIdentity → Waited → HealthRegistry → (HealthRegistry → Run) → Run
  after_outage a ambiguous answered h rebuild = after_answer a ambiguous h rebuild
  after_outage a ambiguous shut_down h rebuild = ended clean_stop (stopped a.now label h)
  after_outage a ambiguous waiting h rebuild = ended running h

  abbrev pub after_failure :
      Attempt
      → WorkerError
      → Option CatalogErrorClass
      → HealthRegistry
      → (HealthRegistry → Run)
      → Run
  after_failure a e none h rebuild =
      ended (worker_failed e) (failed a.now label (Option.map class (catalog_error e)) h)
  after_failure a e (some c) h rebuild =
      let wait = wait_for_catalog mul_f64 policy a.outage (degraded a.now label c h) in
      after_events (went_down c (ambiguous_operation e) ∷ map probed wait.probed)
        (after_outage a (ambiguous_operation e) wait.outcome wait.health rebuild)

  abbrev pub after_worker :
      Attempt → Result (Unit {0}) WorkerError → HealthRegistry → (HealthRegistry → Run) → Run
  after_worker a (ok done) h rebuild = ended clean_stop (stopped a.now label h)
  after_worker a (err e) h rebuild = after_failure a e (recoverable e) h rebuild

  unfoldable pub supervise_role : List Attempt → HealthRegistry → Run
  unfolding reports_healthy
  supervise_role [] h = ended running h
  supervise_role (a ∷ attempts) h =
      after_events (built ∷ [])
        (after_worker a a.outcome (reports_healthy label a.reports h) (supervise_role attempts))

-- One run of a startup step, with the wait after it where it fails in a way that may pass.
pub record Step {ℓ} (A : Type ℓ) : Type ℓ where
  pub answer : Result A WorkerError
  pub now : ℕ
  pub outage : List Probe

pub data Started {ℓ} (A : Type ℓ) : Type ℓ where
  done_with : A → Started A
  step_failed : WorkerError → Started A
  cancelled_waiting : Started A
  starting_up : Started A

module _ (mul_f64 : ℕ → ℕ → ℕ → ℕ) (policy : RecoveryPolicy) where
  unfoldable pub with_catalog_recovery {ℓ} :
      {A : Type ℓ} → List (Step A) → HealthRegistry → Started A × HealthRegistry
  unfolding recoverable
  with_catalog_recovery [] h = (starting_up, h)
  with_catalog_recovery (s ∷ steps) h =
      let wait = wait_for_catalog mul_f64 policy s.outage (catalog_unavailable h) in
      let rest = with_catalog_recovery steps wait.health in
      elim s.answer [
        | ok value ↦ (done_with value, catalog_reachable s.now h)
        | err e ↦ elim (recoverable e) [
          | none ↦ (step_failed e, h)
          | some c ↦ elim wait.outcome [
            | answered ↦ rest
            | shut_down ↦ (cancelled_waiting, wait.health)
            | waiting ↦ (starting_up, wait.health)
          ]
        ]
      ]
