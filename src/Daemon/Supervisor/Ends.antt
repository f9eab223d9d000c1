-- ===== src/Daemon/Supervisor/Ends.antt =====
-- The state that supervisor.rs leaves its role in.
use mathlib.Core.Option
use ukiel.Catalog.Commit.{OperationLookup}
use ukiel.Base.{
  ℕ, ◌+◌, ◌%◌, ◌^◌, String, List, [], ◌∷◌, Option, none, some, ◌≡◌, refl, ap, ◌∙◌, false,
  Bool-cases, inl, inr,
}
use ukiel.Base.Result.{Result, ok, err}
use ukiel.Core.Commit.{OperationIdentity}
use ukiel.Catalog.Error.{CatalogError, CatalogErrorClass, class, is_recoverable_transport}
use ukiel.Daemon.Health.{
  HealthRegistry, RoleState, healthy_state, reconciling_state, degraded_state, failed_state,
  stopped_state, state, is_terminal, transition, healthy, reconciling, degraded, failed, stopped,
}
use ukiel.Daemon.Health.States.{transition-state}
use ukiel.Daemon.Recovery.{
  RecoveryPolicy, Probe, Wait, Waited, answered, shut_down, waiting, wait_for_catalog,
}
use ukiel.Daemon.Recovery.Waits.{wait_for_catalog-state}
use ukiel.Daemon.Supervisor.{
  WorkerError, Lookup, Reconciled, decided, reconcile_stopped, reconcile_failed, undecided, Attempt,
  Supervised, clean_stop, worker_failed, reconciliation_failed, running, Run, catalog_error, resume,
  after_lookup, after_reconcile, after_outage, after_failure, after_worker, reconcile,
  supervise_role, ambiguous_operation, recoverable, reports_healthy, Question, answer_to,
}

-- What an end of the supervision says of the state of the role.
abbrev pub Fits : Supervised → RoleState → Type 0
Fits clean_stop s = s ≡ stopped_state
Fits (worker_failed e) s = s ≡ failed_state
Fits (reconciliation_failed e) s = s ≡ failed_state
Fits running s = is_terminal s ≡ false

module _ (label : String) where
  Live : HealthRegistry → Type 0
  Live h = is_terminal (state label h) ≡ false

  moves-Live :
      (g : HealthRegistry) (s : RoleState) → state label g ≡ s → is_terminal s ≡ false → Live g
  unfolding Live
  moves-Live g s same t = ap is_terminal same ∙ t

  reports-Live :
      (reports : List ℕ) (h : HealthRegistry) → Live h → Live (reports_healthy label reports h)
  unfolding reports_healthy healthy Live
  reports-Live [] h live = live
  reports-Live (now ∷ reports) h live =
      reports-Live reports (healthy now label h)
        (ap is_terminal (transition-state now label healthy_state none (λ _. 0) h live))

  transition-Live :
      (now : ℕ) (to : RoleState) (c : Option CatalogErrorClass) (adjust : ℕ → ℕ)
      (h : HealthRegistry)
      → is_terminal to ≡ false
      → Live h
      → Live (transition now label to c adjust h)
  unfolding Live
  transition-Live now to c adjust h t live =
      ap is_terminal (transition-state now label to c adjust h live) ∙ t

module _ (mul_f64 : ℕ → ℕ → ℕ → ℕ) (policy : RecoveryPolicy) (label : String) where
  wait-Live :
      (probes : List Probe) (h : HealthRegistry)
      → Live label h
      → Live label (wait_for_catalog mul_f64 policy probes h).health
  unfolding Live
  wait-Live probes h live =
      ap is_terminal (wait_for_catalog-state mul_f64 label policy probes h) ∙ live

  resume-Live :
      (w : Waited) (g : HealthRegistry) (rest : Question)
      → Live label g
      → Live label rest.health
      → Live label (resume w g rest).health
  resume-Live answered g rest live more = more
  resume-Live shut_down g rest live more = live
  resume-Live waiting g rest live more = live

  after_lookup-Live :
      (identity : OperationIdentity) (answer : Result OperationLookup CatalogError) (wait : Wait)
      (rest : Question) (h : HealthRegistry)
      → Live label h
      → Live label wait.health
      → Live label rest.health
      → Live label (after_lookup identity answer wait rest h).health
  after_lookup-Live identity (ok found) wait rest h live waited more = live
  after_lookup-Live identity (err e) wait rest h live waited more =
      elim (Bool-cases (is_recoverable_transport e)) [
        | inl t ↦ rw t (resume-Live wait.outcome wait.health rest waited more)
        | inr t ↦ rw t live
      ]

  reconciling-Live :
      (now : ℕ) (h : HealthRegistry) → Live label h → Live label (reconciling now label h)
  unfolding reconciling
  reconciling-Live now h live =
      transition-Live label now reconciling_state none (λ n. (n + 1) % 2 ^ 32) h refl live

  reconcile-Live :
      (identity : OperationIdentity) (lookups : List Lookup) (h : HealthRegistry)
      → Live label h
      → Live label (reconcile mul_f64 policy label identity lookups h).health
  unfolding reconcile
  reconcile-Live identity [] h live = live
  reconcile-Live identity (l ∷ lookups) h live =
      let wait = wait_for_catalog mul_f64 policy l.outage h in
      let waited = wait-Live l.outage h live in
      after_lookup-Live identity (answer_to identity l) wait _ h live waited (
        reconcile-Live identity lookups (reconciling l.now label wait.health)
          (reconciling-Live l.now wait.health waited))

  module _ (rebuild : HealthRegistry → Run)
      (next : (h : HealthRegistry)
        → Live label h
        → Fits (rebuild h).outcome (state label (rebuild h).health)) where
    stop-Fits :
        (now : ℕ) (h : HealthRegistry)
        → Live label h
        → state label (stopped now label h) ≡ stopped_state
    unfolding stopped Live
    stop-Fits now h live = transition-state now label stopped_state none (λ n. n) h live

    fail-Fits :
        (now : ℕ) (c : Option CatalogErrorClass) (h : HealthRegistry)
        → Live label h
        → state label (failed now label c h) ≡ failed_state
    unfolding failed Live
    fail-Fits now c h live = transition-state now label failed_state c (λ n. n) h live

    running-Fits : (h : HealthRegistry) → Live label h → is_terminal (state label h) ≡ false
    unfolding Live
    running-Fits h live = live

    after_reconcile-Fits :
        (now : ℕ) (r : Reconciled) (h : HealthRegistry)
        → Live label h
        → Fits
            (after_reconcile mul_f64 policy label now r h rebuild).outcome
            (state label (after_reconcile mul_f64 policy label now r h rebuild).health)
    after_reconcile-Fits now (decided found) h live = next h live
    after_reconcile-Fits now reconcile_stopped h live = stop-Fits now h live
    after_reconcile-Fits now (reconcile_failed e) h live = fail-Fits now (some (class e)) h live
    after_reconcile-Fits now undecided h live = running-Fits h live

    after_outage-Fits :
        (a : Attempt) (ambiguous : Option OperationIdentity) (w : Waited) (h : HealthRegistry)
        → Live label h
        → Fits
            (after_outage mul_f64 policy label a ambiguous w h rebuild).outcome
            (state label (after_outage mul_f64 policy label a ambiguous w h rebuild).health)
    after_outage-Fits a none answered h live =
        next (reconciling a.now label h) (reconciling-Live a.now h live)
    after_outage-Fits a (some identity) answered h live =
        let q = reconcile mul_f64 policy label identity a.lookups (reconciling a.now label h) in
        after_reconcile-Fits a.now q.outcome q.health (
          reconcile-Live identity a.lookups (reconciling a.now label h)
            (reconciling-Live a.now h live))
    after_outage-Fits a ambiguous shut_down h live = stop-Fits a.now h live
    after_outage-Fits a ambiguous waiting h live = running-Fits h live

    after_failure-Fits :
        (a : Attempt) (e : WorkerError) (c : Option CatalogErrorClass) (h : HealthRegistry)
        → Live label h
        → Fits
            (after_failure mul_f64 policy label a e c h rebuild).outcome
            (state label (after_failure mul_f64 policy label a e c h rebuild).health)
    unfolding degraded
    after_failure-Fits a e none h live = fail-Fits a.now (Option.map class (catalog_error e)) h live
    after_failure-Fits a e (some c) h live =
        let wait = wait_for_catalog mul_f64 policy a.outage (degraded a.now label c h) in
        after_outage-Fits a (ambiguous_operation e) wait.outcome wait.health (
          wait-Live a.outage (degraded a.now label c h)
            (transition-Live label a.now degraded_state (some c) (λ n. n) h refl live))

    after_worker-Fits :
        (a : Attempt) (outcome : Result (Unit {0}) WorkerError) (h : HealthRegistry)
        → Live label h
        → Fits
            (after_worker mul_f64 policy label a outcome h rebuild).outcome
            (state label (after_worker mul_f64 policy label a outcome h rebuild).health)
    after_worker-Fits a (ok done) h live = stop-Fits a.now h live
    after_worker-Fits a (err e) h live = after_failure-Fits a e (recoverable e) h live

-- A role that is alive when its supervision begins is stopped when it ends in a clean stop, failed when
-- it ends in an error, and alive while it goes on.
pub supervise_role-Fits :
    (mul_f64 : ℕ → ℕ → ℕ → ℕ) (policy : RecoveryPolicy) (label : String) (attempts : List Attempt)
    (h : HealthRegistry)
    → is_terminal (state label h) ≡ false
    → Fits
        (supervise_role mul_f64 policy label attempts h).outcome
        (state label (supervise_role mul_f64 policy label attempts h).health)
unfolding supervise_role Live
supervise_role-Fits mul_f64 policy label [] h live = live
supervise_role-Fits mul_f64 policy label (a ∷ attempts) h live =
    after_worker-Fits mul_f64 policy label (supervise_role mul_f64 policy label attempts)
      (supervise_role-Fits mul_f64 policy label attempts) a a.outcome
      (reports_healthy label a.reports h) (reports-Live label a.reports h live)
