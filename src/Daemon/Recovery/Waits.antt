-- ===== src/Daemon/Recovery/Waits.antt =====
-- The delays of recovery.rs, and what a wait leaves of the health.
use native.Mathlib.Nat.{pow-suc}
use ukiel.Base.{
  ℕ, suc, ◌+◌, ◌*◌, ◌^◌, ◌≤◌, ◌<◌, min, String, List, [], ◌∷◌, All, nat_eq, ◌≡◌, refl, arith,
  Bool-cases, inl, inr,
}
use ukiel.Daemon.Health.{HealthRegistry, catalog_reachable, catalog_unavailable, state}
use ukiel.Daemon.Recovery.{
  RecoveryPolicy, Backoff, backoff, capped, longest, jitter, next_delay, mix, Probe, is_pong,
  wait_loop, wait_for_catalog,
}

double_power : (base a : ℕ) → base * 2 ^ suc a ≡ 2 * (base * 2 ^ a)
double_power base a = rw (pow-suc 2 a) (grind arith)

-- While it is below its ceiling, a delay doubles from one round to the next; at the ceiling it stays.
pub next_delay-doubles :
    (mul_f64 : ℕ → ℕ → ℕ → ℕ) (b : Backoff)
    → b.attempt < 31
    → b.policy.max ≤ longest
    → capped (next_delay mul_f64 b).1 ≡ min (2 * capped b) b.policy.max
unfolding capped next_delay
next_delay-doubles mul_f64 b below fits =
    let later : min (min (b.attempt + 1) 4294967295) 31 ≡ suc b.attempt = omega (arith, below) in
    let here : min b.attempt 31 ≡ b.attempt = omega (arith, below) in
    rw (later, here, double_power b.policy.base b.attempt) (omega (arith, fits))

module _ (mul_f64 : ℕ → ℕ → ℕ → ℕ)
    (bounded : (delay ratio word : ℕ) → mul_f64 delay ratio word ≤ 2 * delay) where
  jitter-bound :
      (delay ratio seed attempt : ℕ) → jitter mul_f64 delay ratio seed attempt ≤ 2 * delay
  unfolding jitter
  jitter-bound delay ratio seed attempt = ground (arith, bounded delay ratio (mix seed attempt))

  capped_le : (b : Backoff) → capped b ≤ b.policy.max
  unfolding capped
  capped_le b = omega arith

  next_delay-bound : (b : Backoff) → (next_delay mul_f64 b).0 ≤ 2 * b.policy.max
  unfolding next_delay capped
  next_delay-bound b = omega (
    arith,
    jitter-bound (capped b) b.policy.jitter_ratio b.policy.seed (min (b.attempt + 1) 4294967295),
    capped_le b,
  )

  wait_loop-delays :
      (probes : List Probe) (b : Backoff) (h : HealthRegistry)
      → All (λ d. d ≤ 2 * b.policy.max) (wait_loop mul_f64 probes b h).delays
  unfolding wait_loop next_delay
  wait_loop-delays [] b h = tt
  wait_loop-delays (p ∷ probes) b h = elim (Bool-cases p.cancelled) [
    | inl e ↦ rw e tt
    | inr e ↦ elim (Bool-cases (is_pong p.answer)) [
      | inl f ↦ rw (e, f) tt
      | inr f ↦ elim (Bool-cases p.cancelled_asleep) [
        | inl g ↦ rw (e, f, g) tt
        | inr g ↦
            rw (e, f, g)
              (
                next_delay-bound b,
                wait_loop-delays probes (next_delay mul_f64 b).1 (catalog_unavailable h),
              )
      ]
    ]
  ]

  -- However long an outage lasts, no delay is longer than twice the ceiling, if the jitter's product
  -- is at most twice the delay.
  pub wait_for_catalog-delays :
      (policy : RecoveryPolicy) (probes : List Probe) (h : HealthRegistry)
      → All (λ d. d ≤ 2 * policy.max) (wait_for_catalog mul_f64 policy probes h).delays
  unfolding wait_for_catalog backoff
  wait_for_catalog-delays policy probes h = wait_loop-delays probes (backoff policy) h

module _ (mul_f64 : ℕ → ℕ → ℕ → ℕ) (label : String) where
  wait_loop-state :
      (probes : List Probe) (b : Backoff) (h : HealthRegistry)
      → state label (wait_loop mul_f64 probes b h).health ≡ state label h
  unfolding wait_loop state catalog_reachable catalog_unavailable
  wait_loop-state [] b h = refl
  wait_loop-state (p ∷ probes) b h = elim (Bool-cases p.cancelled) [
    | inl e ↦ rw e refl
    | inr e ↦ elim (Bool-cases (is_pong p.answer)) [
      | inl f ↦ rw (e, f) refl
      | inr f ↦ elim (Bool-cases p.cancelled_asleep) [
        | inl g ↦ rw (e, f, g) refl
        | inr g ↦
            rw (e, f, g) (wait_loop-state probes (next_delay mul_f64 b).1 (catalog_unavailable h))
      ]
    ]
  ]

  -- A wait moves no role.
  pub wait_for_catalog-state :
      (policy : RecoveryPolicy) (probes : List Probe) (h : HealthRegistry)
      → state label (wait_for_catalog mul_f64 policy probes h).health ≡ state label h
  unfolding wait_for_catalog
  wait_for_catalog-state policy probes h = wait_loop-state probes (backoff policy) h
