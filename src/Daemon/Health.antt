-- ===== src/Daemon/Health.antt =====
-- crates/ukield/src/health.rs: the health of the catalog and of each role. The clock of a call is
-- an argument, in milliseconds; a label stands for its role in the map. Gauges are left out.
pub mod States
use ukiel.Base.{
  nat_beq, ℕ, ◌+◌, ◌-◌, ◌/◌, ◌%◌, ◌^◌, String, List, [], ◌∷◌, ◌++◌, map, any, all, find, update,
  Bool, true, false, ◌&&◌, Option, none, some, ◌==◌, string_eq, Eq, if◌then◌else◌, ◌≡◌, ◌↔◌, refl,
  arith,
}
use ukiel.Catalog.Error.{CatalogErrorClass, as_label}
use mathlib.Core.Option

pub data Role : Type 0 where
  ingest mv query compactor gc : Role

unfoldable pub role_label : Role → String
role_label ingest = "ingest"
role_label mv = "mv"
role_label query = "query"
role_label compactor = "compactor"
role_label gc = "gc"

pub data CatalogState : Type 0 where
  catalog_healthy catalog_down : CatalogState

pub data RoleState : Type 0 where
  starting_state healthy_state degraded_state reconciling_state failed_state stopped_state :
      RoleState

abbrev pub state_number : RoleState → ℕ
state_number starting_state = 0
state_number healthy_state = 1
state_number degraded_state = 2
state_number reconciling_state = 3
state_number failed_state = 4
state_number stopped_state = 5

abbrev pub same_state : RoleState → RoleState → Bool
same_state s t = nat_beq (state_number s) (state_number t)

abbrev pub is_terminal : RoleState → Bool
is_terminal failed_state = true
is_terminal stopped_state = true
is_terminal s = false

pub record RoleEntry : Type 0 where
  pub label : String
  pub state : RoleState
  pub since : ℕ
  pub recovery_attempts : ℕ
  pub last_error_class : Option CatalogErrorClass

pub record HealthRegistry : Type 0 where
  pub catalog : CatalogState
  pub catalog_last_success : Option ℕ
  pub roles : List RoleEntry

abbrev pub labelled : String → RoleEntry → Bool
labelled label e = e.label == label

abbrev pub fresh_entry : ℕ → Role → RoleEntry
fresh_entry now role = record {
  label = role_label role;
  state = starting_state;
  since = now;
  recovery_attempts = 0;
  last_error_class = none;
}

-- `map.insert`: one entry for a label.
abbrev pub insert_entry : RoleEntry → List RoleEntry → List RoleEntry
insert_entry e rows =
    if any (labelled e.label) rows then update (labelled e.label) (λ _. e) rows else rows ++ e ∷ []

abbrev pub insert_roles : ℕ → List Role → List RoleEntry → List RoleEntry
insert_roles now [] rows = rows
insert_roles now (role ∷ roles) rows =
    insert_roles now roles (insert_entry (fresh_entry now role) rows)

unfoldable pub new : ℕ → List Role → HealthRegistry
new now roles = record {
  catalog = catalog_down;
  catalog_last_success = none;
  roles = insert_roles now roles [];
}

unfoldable pub catalog_reachable : ℕ → HealthRegistry → HealthRegistry
catalog_reachable now r = record r { catalog = catalog_healthy; catalog_last_success = some now }

unfoldable pub catalog_unavailable : HealthRegistry → HealthRegistry
catalog_unavailable r = record r { catalog = catalog_down }

abbrev pub later_class :
    Option CatalogErrorClass → Option CatalogErrorClass → Option CatalogErrorClass
later_class none before = before
later_class (some c) before = some c

-- What a transition leaves of an entry.
abbrev pub moved : ℕ → RoleState → Option CatalogErrorClass → (ℕ → ℕ) → RoleEntry → RoleEntry
moved now to class adjust e = if is_terminal e.state then e else record e {
  state = to;
  since = if same_state e.state to then e.since else now;
  recovery_attempts = adjust e.recovery_attempts;
  last_error_class = later_class class e.last_error_class;
}

unfoldable pub transition :
    ℕ → String → RoleState → Option CatalogErrorClass → (ℕ → ℕ) → HealthRegistry → HealthRegistry
transition now label to class adjust r = record r {
  roles = update (labelled label) (moved now to class adjust) r.roles;
}

-- The calls of a `RoleHandle`, whose capability is its label.
unfoldable pub healthy : ℕ → String → HealthRegistry → HealthRegistry
unfolding transition
healthy now label r = transition now label healthy_state none (λ _. 0) r

unfoldable pub degraded : ℕ → String → CatalogErrorClass → HealthRegistry → HealthRegistry
unfolding transition
degraded now label class r = transition now label degraded_state (some class) (λ n. n) r

-- The attempts are a `u32`, which wraps.
unfoldable pub reconciling : ℕ → String → HealthRegistry → HealthRegistry
unfolding transition
reconciling now label r = transition now label reconciling_state none (λ n. (n + 1) % 2 ^ 32) r

unfoldable pub failed : ℕ → String → Option CatalogErrorClass → HealthRegistry → HealthRegistry
unfolding transition
failed now label class r = transition now label failed_state class (λ n. n) r

unfoldable pub stopped : ℕ → String → HealthRegistry → HealthRegistry
unfolding transition
stopped now label r = transition now label stopped_state none (λ n. n) r

abbrev pub state_of : Option RoleEntry → RoleState
state_of none = stopped_state
state_of (some e) = e.state

unfoldable pub state : String → HealthRegistry → RoleState
state label r = state_of (find (labelled label) r.roles)

pub record RoleSnapshot : Type 0 where
  pub role : String
  pub state : RoleState
  pub state_age_seconds : ℕ
  pub recovery_attempts : ℕ
  pub last_error_class : Option String

pub record HealthSnapshot : Type 0 where
  pub ready : Bool
  pub catalog : CatalogState
  pub catalog_last_success_seconds : Option ℕ
  pub roles : List RoleSnapshot

abbrev pub is_reachable : CatalogState → Bool
is_reachable catalog_healthy = true
is_reachable catalog_down = false

abbrev pub entry_snapshot : ℕ → RoleEntry → RoleSnapshot
entry_snapshot now e = record {
  role = e.label;
  state = e.state;
  state_age_seconds = (now - e.since) / 1000;
  recovery_attempts = e.recovery_attempts;
  last_error_class = Option.map as_label e.last_error_class;
}

unfoldable pub snapshot : ℕ → HealthRegistry → HealthSnapshot
snapshot now r =
    let roles = map (entry_snapshot now) r.roles in
    record {
      ready =
          is_reachable r.catalog
          && all (λ (s : RoleSnapshot). same_state s.state healthy_state) roles;
      catalog = r.catalog;
      catalog_last_success_seconds = Option.map (λ t. (now - t) / 1000) r.catalog_last_success;
      roles = roles;
    }
