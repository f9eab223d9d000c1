-- ===== src/Daemon/Supervisor/Log.antt =====
-- What a role of supervisor.rs does between one worker and the next.
use mathlib.Core.List.{append_assoc}
use ukiel.Base.{
  ℕ, String, List, [], ◌∷◌, ◌++◌, map, true, false, Option, none, some, ◌≡◌, refl, sym, subst,
  Bool-cases, inl, inr,
}
use ukiel.Base.Result.{Result, ok, err}
use ukiel.Core.Commit.{OperationIdentity}
use ukiel.Catalog.Error.{CatalogError, CatalogErrorClass, is_recoverable_transport}
use ukiel.Catalog.Commit.{OperationLookup}
use ukiel.Daemon.Health.{HealthRegistry, reconciling, degraded, catalog_unavailable}
use ukiel.Daemon.Recovery.{
  RecoveryPolicy, Backoff, backoff, Probe, ProbeAnswer, pong, refused, elapsed, is_pong, Waited,
  answered, shut_down, waiting, next_delay, wait_loop, wait_for_catalog,
}
use ukiel.Daemon.Supervisor.{
  WorkerError, Lookup, Reconciled, decided, reconcile_stopped, reconcile_failed, undecided,
  Question, Attempt, Event, built, went_down, probed, asked, reachable, Run, answer_to, resume,
  after_lookup, after_reconcile, after_outage, after_failure, after_worker, reconcile,
  supervise_role, ambiguous_operation, recoverable, reports_healthy,
}

-- Where a role stands between two events: before a worker, with one, in an outage that the end of a
-- worker may have left an operation open in, with the question about that operation, or with no
-- question left.
pub data Phase : Type 0 where
  may_build up ready : Phase
  down : Option OperationIdentity → Phase
  asking : OperationIdentity → Phase

-- The outage is over: an operation that is open is asked about first.
abbrev pub reopened : Option OperationIdentity → Phase
reopened none = ready
reopened (some identity) = asking identity

-- Of the probes only a pong ends an outage, and only an answer to the question about the open
-- operation leaves none; a question that fails is another outage.
abbrev pub Orderly : Phase → List Event → Type 0
Orderly p [] = Unit
Orderly may_build (built ∷ events) = Orderly up events
Orderly up (went_down c pending ∷ events) = Orderly (down pending) events
Orderly (down pending) (probed pong ∷ events) = Orderly (reopened pending) events
Orderly (down pending) (probed (refused e) ∷ events) = Orderly (down pending) events
Orderly (down pending) (probed elapsed ∷ events) = Orderly (down pending) events
Orderly (asking identity) (asked i (ok found) ∷ events) = (identity ≡ i) × Orderly ready events
Orderly (asking identity) (asked i (err e) ∷ events) =
    (identity ≡ i) × Orderly (down (some identity)) events
Orderly ready (reachable ∷ events) = Orderly may_build events
Orderly p events = ⊥

-- What may follow a wait, and what a reconciliation.
abbrev After : Option OperationIdentity → Waited → List Event → Type 0
After pending answered events = Orderly (reopened pending) events
After pending shut_down events = events ≡ []
After pending waiting events = events ≡ []

abbrev Settled : Reconciled → List Event → Type 0
Settled (decided found) events = Orderly ready events
Settled reconcile_stopped events = events ≡ []
Settled (reconcile_failed e) events = events ≡ []
Settled undecided events = events ≡ []

nothing_more : (p : Phase) (events : List Event) → events ≡ [] → Orderly p events
nothing_more p events e = subst (Orderly p) (sym e) (empty p)
  where
    empty : (p : Phase) → Orderly p []
    empty may_build = tt
    empty up = tt
    empty ready = tt
    empty (down pending) = tt
    empty (asking identity) = tt

module _ (mul_f64 : ℕ → ℕ → ℕ → ℕ) (open_operation : Option OperationIdentity)
    (events : List Event) where
  answered_probe :
      (a : ProbeAnswer)
      → is_pong a ≡ true
      → Orderly (reopened open_operation) events
      → Orderly (down open_operation) (probed a ∷ events)
  answered_probe pong h o = o
  answered_probe (refused e) h o = cc
  answered_probe elapsed h o = cc

  failed_probe :
      (a : ProbeAnswer) (rest : List Event)
      → is_pong a ≡ false
      → Orderly (down open_operation) rest
      → Orderly (down open_operation) (probed a ∷ rest)
  failed_probe pong rest h o = cc
  failed_probe (refused e) rest h o = o
  failed_probe elapsed rest h o = o

  wait_loop-Orderly :
      (probes : List Probe) (b : Backoff) (h : HealthRegistry)
      → After open_operation (wait_loop mul_f64 probes b h).outcome events
      → Orderly (down open_operation) (map probed (wait_loop mul_f64 probes b h).probed ++ events)
  unfolding wait_loop
  wait_loop-Orderly [] b h = nothing_more (down open_operation) events
  wait_loop-Orderly (p ∷ probes) b h = elim (Bool-cases p.cancelled) [
    | inl e ↦ rw e (nothing_more (down open_operation) events)
    | inr e ↦ elim (Bool-cases (is_pong p.answer)) [
      | inl f ↦ rw (e, f) (answered_probe p.answer f)
      | inr f ↦ elim (Bool-cases p.cancelled_asleep) [
        | inl g ↦
            rw (e, f, g)
              (λ o. failed_probe p.answer events f (nothing_more (down open_operation) events o))
        | inr g ↦
            rw (e, f, g)
              (λ o.
                failed_probe p.answer _ f
                  (wait_loop-Orderly probes (next_delay mul_f64 b).1 (catalog_unavailable h) o))
      ]
    ]
  ]

  wait-Orderly :
      (policy : RecoveryPolicy) (probes : List Probe) (h : HealthRegistry)
      → After open_operation (wait_for_catalog mul_f64 policy probes h).outcome events
      → Orderly
          (down open_operation)
          (map probed (wait_for_catalog mul_f64 policy probes h).probed ++ events)
  unfolding wait_for_catalog
  wait-Orderly policy probes h = wait_loop-Orderly probes (backoff policy) h

module _ (mul_f64 : ℕ → ℕ → ℕ → ℕ) (policy : RecoveryPolicy) (label : String)
    (identity : OperationIdentity) (events : List Event) where
  resume-After :
      (w : Waited) (h : HealthRegistry) (rest : Question)
      → (Settled rest.outcome events → Orderly (asking identity) (rest.trace ++ events))
      → Settled (resume w h rest).outcome events
      → After (some identity) w ((resume w h rest).trace ++ events)
  resume-After answered h rest next s = next s
  resume-After shut_down h rest next s = s
  resume-After waiting h rest next s = s

  reconcile-Orderly :
      (lookups : List Lookup) (h : HealthRegistry)
      → Settled (reconcile mul_f64 policy label identity lookups h).outcome events
      → Orderly
          (asking identity)
          ((reconcile mul_f64 policy label identity lookups h).trace ++ events)
  unfolding reconcile
  reconcile-Orderly [] h = nothing_more (asking identity) events
  reconcile-Orderly (l ∷ lookups) h =
      let wait = wait_for_catalog mul_f64 policy l.outage h in
      let next = reconciling l.now label wait.health in
      by_answer (answer_to identity l) l.outage h
        (reconcile mul_f64 policy label identity lookups next) (reconcile-Orderly lookups next)
    where
      by_answer :
          (answer : Result OperationLookup CatalogError) (probes : List Probe) (h : HealthRegistry)
          (rest : Question)
          → (Settled rest.outcome events → Orderly (asking identity) (rest.trace ++ events))
          → let q =
              after_lookup identity answer (wait_for_catalog mul_f64 policy probes h) rest h in
            Settled q.outcome events → Orderly (asking identity) (q.trace ++ events)
      by_answer (ok found) probes h rest next = λ s. (refl, s)
      by_answer (err e) probes h rest next = elim (Bool-cases (is_recoverable_transport e)) [
        | inr t ↦ rw t (λ s. (refl, nothing_more (down (some identity)) events s))
        | inl t ↦
            let wait = wait_for_catalog mul_f64 policy probes h in
            let q = resume wait.outcome wait.health rest in
            rw t (λ s. (
              refl,
              subst (Orderly (down (some identity)))
                  (sym (append_assoc (map probed wait.probed) q.trace events))
                  (wait-Orderly mul_f64 (some identity) (q.trace ++ events) policy probes h
                    (resume-After wait.outcome wait.health rest next s)),
            ))
      ]

module _ (mul_f64 : ℕ → ℕ → ℕ → ℕ) (policy : RecoveryPolicy) (label : String)
    (rebuild : HealthRegistry → Run)
    (next : (h : HealthRegistry) → Orderly may_build (rebuild h).trace) where
  after_reconcile-Settled :
      (now : ℕ) (r : Reconciled) (h : HealthRegistry)
      → Settled r (after_reconcile mul_f64 policy label now r h rebuild).trace
  after_reconcile-Settled now (decided found) h = next h
  after_reconcile-Settled now reconcile_stopped h = refl
  after_reconcile-Settled now (reconcile_failed e) h = refl
  after_reconcile-Settled now undecided h = refl

  after_outage-After :
      (a : Attempt) (ambiguous : Option OperationIdentity) (w : Waited) (h : HealthRegistry)
      → After ambiguous w (after_outage mul_f64 policy label a ambiguous w h rebuild).trace
  after_outage-After a none answered h = next (reconciling a.now label h)
  after_outage-After a (some identity) answered h =
      let q = reconcile mul_f64 policy label identity a.lookups (reconciling a.now label h) in
      reconcile-Orderly mul_f64 policy label identity
        (after_reconcile mul_f64 policy label a.now q.outcome q.health rebuild).trace a.lookups
        (reconciling a.now label h) (after_reconcile-Settled a.now q.outcome q.health)
  after_outage-After a none shut_down h = refl
  after_outage-After a (some identity) shut_down h = refl
  after_outage-After a none waiting h = refl
  after_outage-After a (some identity) waiting h = refl

  after_failure-Orderly :
      (a : Attempt) (e : WorkerError) (c : Option CatalogErrorClass) (h : HealthRegistry)
      → Orderly up (after_failure mul_f64 policy label a e c h rebuild).trace
  after_failure-Orderly a e none h = tt
  after_failure-Orderly a e (some c) h =
      let wait = wait_for_catalog mul_f64 policy a.outage (degraded a.now label c h) in
      let ambiguous = ambiguous_operation e in
      wait-Orderly mul_f64 ambiguous
        (after_outage mul_f64 policy label a ambiguous wait.outcome wait.health rebuild).trace
        policy a.outage (degraded a.now label c h)
        (after_outage-After a ambiguous wait.outcome wait.health)

  after_worker-Orderly :
      (a : Attempt) (outcome : Result (Unit {0}) WorkerError) (h : HealthRegistry)
      → Orderly up (after_worker mul_f64 policy label a outcome h rebuild).trace
  after_worker-Orderly a (ok done) h = tt
  after_worker-Orderly a (err e) h = after_failure-Orderly a e (recoverable e) h

-- After a failure a worker is built only once a probe came back with a pong since and, if the worker
-- left the outcome of an operation open, a question about that very operation was answered after
-- it; a question that fails waits for a pong again.
pub supervise_role-Orderly :
    (mul_f64 : ℕ → ℕ → ℕ → ℕ) (policy : RecoveryPolicy) (label : String) (attempts : List Attempt)
    (h : HealthRegistry)
    → Orderly may_build (supervise_role mul_f64 policy label attempts h).trace
unfolding supervise_role
supervise_role-Orderly mul_f64 policy label [] h = tt
supervise_role-Orderly mul_f64 policy label (a ∷ attempts) h =
    after_worker-Orderly mul_f64 policy label (supervise_role mul_f64 policy label attempts)
      (supervise_role-Orderly mul_f64 policy label attempts) a a.outcome
      (reports_healthy label a.reports h)
