-- ===== src/Daemon/Recovery.antt =====
-- crates/ukield/src/recovery.rs: the wait for the catalog, and its backoff. A duration is a number of
-- milliseconds. A probe of the script is one round of the wait: what the process and the catalog do
-- in it. `mul_f64` is the product of a delay and the factor that a jitter ratio (in millionths)
-- and a random word make, which the code computes on floats.
pub mod Waits
use Prim.Native.Nat.{bit_xor}
use ukiel.Base.{
  ℕ, ◌+◌, ◌-◌, ◌*◌, ◌/◌, ◌%◌, ◌^◌, min, List, [], ◌∷◌, Bool, true, false, ◌||◌, ◌==◌, nat_eq,
  if◌then◌else◌,
}
use ukiel.Catalog.Error.{CatalogError}
use ukiel.Daemon.Health.{HealthRegistry, catalog_reachable, catalog_unavailable}

pub record RecoveryPolicy : Type 0 where
  pub base : ℕ
  pub max : ℕ
  pub jitter_ratio : ℕ
  pub probe_timeout : ℕ
  pub seed : ℕ

pub record Backoff : Type 0 where
  pub policy : RecoveryPolicy
  pub attempt : ℕ

unfoldable pub backoff : RecoveryPolicy → Backoff
backoff policy = record { policy = policy; attempt = 0 }

unfoldable pub reset : Backoff → Backoff
reset b = record b { attempt = 0 }

abbrev pub u64 : ℕ → ℕ
u64 n = n % 2 ^ 64

-- The finalizer of SplitMix64.
unfoldable pub mix : ℕ → ℕ → ℕ
mix seed attempt =
    let x = bit_xor seed (u64 (attempt * 11400714819323198485)) in
    let y = u64 (bit_xor x (x / 2 ^ 30) * 13787848793156543929) in
    let z = u64 (bit_xor y (y / 2 ^ 27) * 10723151780598845931) in bit_xor z (z / 2 ^ 31)

-- What a `Duration` of milliseconds can hold, so that a product beyond it is cut there.
abbrev pub longest : ℕ
longest = (2 ^ 64 - 1) * 1000 + 999

unfoldable pub capped : Backoff → ℕ
capped b = min (min (b.policy.base * 2 ^ min b.attempt 31) longest) b.policy.max

module _ (mul_f64 : ℕ → ℕ → ℕ → ℕ) where
  unfoldable pub jitter : ℕ → ℕ → ℕ → ℕ → ℕ
  unfolding mix
  jitter delay ratio seed attempt =
      if ratio == 0 || delay == 0 then delay else mul_f64 delay ratio (mix seed attempt)

  -- A delay, and the backoff after it.
  unfoldable pub next_delay : Backoff → ℕ × Backoff
  unfolding capped jitter
  next_delay b =
      let attempt = min (b.attempt + 1) (2 ^ 32 - 1) in
      (
        jitter (capped b) b.policy.jitter_ratio b.policy.seed attempt,
        record b { attempt = attempt },
      )

pub data ProbeAnswer : Type 0 where
  pong : ProbeAnswer
  refused : CatalogError → ProbeAnswer
  elapsed : ProbeAnswer

pub record Probe : Type 0 where
  pub cancelled : Bool
  pub now : ℕ
  pub answer : ProbeAnswer
  pub cancelled_asleep : Bool

pub data Waited : Type 0 where
  answered shut_down waiting : Waited

-- How a wait stands after the rounds of a script, the health it leaves, the delays it slept, and what
-- its probes came back with.
pub record Wait : Type 0 where
  pub outcome : Waited
  pub health : HealthRegistry
  pub delays : List ℕ
  pub probed : List ProbeAnswer

abbrev pub is_pong : ProbeAnswer → Bool
is_pong pong = true
is_pong answer = false

abbrev pub slept : ProbeAnswer → ℕ → Wait → Wait
slept answer delay w = record w { delays = delay ∷ w.delays; probed = answer ∷ w.probed }

module _ (mul_f64 : ℕ → ℕ → ℕ → ℕ) where
  unfoldable pub wait_loop : List Probe → Backoff → HealthRegistry → Wait
  unfolding next_delay
  wait_loop [] b h = record { outcome = waiting; health = h; delays = []; probed = [] }
  wait_loop (p ∷ probes) b h =
      let step = next_delay mul_f64 b in
      let rest = wait_loop probes step.1 (catalog_unavailable h) in
      if p.cancelled
      then record { outcome = shut_down; health = h; delays = []; probed = [] }
      else if is_pong p.answer
      then record {
        outcome = answered;
        health = catalog_reachable p.now h;
        delays = [];
        probed = p.answer ∷ [];
      }
      else if p.cancelled_asleep
      then record {
        outcome = shut_down;
        health = catalog_unavailable h;
        delays = [];
        probed = p.answer ∷ [];
      }
      else slept p.answer step.0 rest

  unfoldable pub wait_for_catalog : RecoveryPolicy → List Probe → HealthRegistry → Wait
  unfolding backoff wait_loop
  wait_for_catalog policy probes h = wait_loop probes (backoff policy) h
