-- ===== src/Daemon/Health/States.antt =====
-- The states that the calls of health.rs leave a role in.
use ukiel.Base.{
  if◌then◌else◌, ℕ, String, List, [], ◌∷◌, find, update, all, map, All, true, false, Option, none,
  some, ◌==◌, string_eq, ◌≡◌, ◌↔◌, refl, sym, ap, ◌∙◌, eq_iff, arith, Bool-cases, inl, inr,
}
use ukiel.Catalog.Error.{CatalogErrorClass}
use ukiel.Daemon.Health.{
  RoleEntry, RoleState, healthy_state, same_state, HealthRegistry, labelled, moved, transition,
  state, state_of, is_terminal, healthy, degraded, reconciling, failed, stopped, catalog_reachable,
  catalog_unavailable, snapshot, catalog_healthy, CatalogState, is_reachable, entry_snapshot,
}

module _ (now : ℕ) (label : String) (to : RoleState) (class : Option CatalogErrorClass)
    (adjust : ℕ → ℕ) where
  moved_state :
      (rows : List RoleEntry)
      → is_terminal (state_of (find (labelled label) rows)) ≡ false
      → state_of (find (labelled label) (update (labelled label) (moved now to class adjust) rows))
        ≡ to
  moved_state [] live = ground arith
  moved_state (e ∷ rows) live = ground (arith, moved_state rows)

  abbrev changed : RoleEntry → RoleEntry
  changed e = if labelled label e then moved now to class adjust e else e

  changed-label : (e : RoleEntry) → (changed e).label ≡ e.label
  changed-label e = ground arith

  changed-terminal : (e : RoleEntry) → is_terminal e.state ≡ true → changed e ≡ e
  changed-terminal e t = ground arith

  fixed_state :
      (rows : List RoleEntry) (s : RoleState) (other : String)
      → is_terminal s ≡ true
      → state_of (find (labelled other) rows) ≡ s
      → state_of (find (labelled other) (update (labelled label) (moved now to class adjust) rows))
        ≡ s
  fixed_state [] s other t h = h
  fixed_state (e ∷ rows) s other t h = elim (Bool-cases (e.label == other)) [
    | inl f ↦
        let same : e.state ≡ s = sym (rw f refl) ∙ h in
        rw (changed-terminal e (ap is_terminal same ∙ t), f) same
    | inr f ↦
        let apart : ((changed e).label == other) ≡ false =
          ap (λ l. l == other) (changed-label e) ∙ f in
        rw apart (fixed_state rows s other t (sym (rw f refl) ∙ h))
  ]

  other_state :
      (rows : List RoleEntry) (other : String)
      → (other == label) ≡ false
      → state_of (find (labelled other) (update (labelled label) (moved now to class adjust) rows))
        ≡ state_of (find (labelled other) rows)
  other_state [] other h = refl
  other_state (e ∷ rows) other h = ground (
    arith,
    other_state rows other h,
    eq_iff e.label label,
    eq_iff e.label other,
    eq_iff other label,
  )

  pub transition-state :
      (h : HealthRegistry)
      → is_terminal (state label h) ≡ false
      → state label (transition now label to class adjust h) ≡ to
  unfolding state transition
  transition-state h live = moved_state h.roles live

  pub transition-fixed :
      (h : HealthRegistry) (s : RoleState) (other : String)
      → is_terminal s ≡ true
      → state other h ≡ s
      → state other (transition now label to class adjust h) ≡ s
  unfolding state transition
  transition-fixed h s other t same = fixed_state h.roles s other t same

-- One call on the shared health, by any role or by a probe.
pub data HealthCall : Type 0 where
  says_healthy says_reconciling says_stopped : (now : ℕ) (label : String) → HealthCall
  says_degraded : (now : ℕ) (label : String) → CatalogErrorClass → HealthCall
  says_failed : (now : ℕ) (label : String) → Option CatalogErrorClass → HealthCall
  probe_answered : (now : ℕ) → HealthCall
  probe_failed : HealthCall

abbrev pub call : HealthCall → HealthRegistry → HealthRegistry
call (says_healthy now label) h = healthy now label h
call (says_reconciling now label) h = reconciling now label h
call (says_stopped now label) h = stopped now label h
call (says_degraded now label c) h = degraded now label c h
call (says_failed now label c) h = failed now label c h
call (probe_answered now) h = catalog_reachable now h
call probe_failed h = catalog_unavailable h

abbrev pub calls : List HealthCall → HealthRegistry → HealthRegistry
calls [] h = h
calls (c ∷ cs) h = calls cs (call c h)

call-fixed :
    (c : HealthCall) (h : HealthRegistry) (s : RoleState) (label : String)
    → is_terminal s ≡ true
    → state label h ≡ s
    → state label (call c h) ≡ s
unfolding healthy reconciling stopped degraded failed catalog_reachable catalog_unavailable state
call-fixed (says_healthy now who) h s label t same =
    transition-fixed now who _ none _ h s label t same
call-fixed (says_reconciling now who) h s label t same =
    transition-fixed now who _ none _ h s label t same
call-fixed (says_stopped now who) h s label t same =
    transition-fixed now who _ none _ h s label t same
call-fixed (says_degraded now who c) h s label t same =
    transition-fixed now who _ (some c) _ h s label t same
call-fixed (says_failed now who c) h s label t same =
    transition-fixed now who _ c _ h s label t same
call-fixed (probe_answered now) h s label t same = same
call-fixed probe_failed h s label t same = same

-- A role that failed or stopped stays as it is, whatever calls follow, its own late ones too.
pub calls-terminal :
    (cs : List HealthCall) (h : HealthRegistry) (label : String)
    → is_terminal (state label h) ≡ true
    → state label (calls cs h) ≡ state label h
calls-terminal cs h label t = go cs h refl
  where
    go :
        (cs : List HealthCall) (g : HealthRegistry)
        → state label g ≡ state label h
        → state label (calls cs g) ≡ state label h
    go [] g same = same
    go (c ∷ cs) g same = go cs (call c g) (call-fixed c g (state label h) label t same)

same_state-path : (s t : RoleState) → same_state s t ≡ true → s ≡ t
same_state-path s t h = ground arith

all_healthy-to :
    (now : ℕ) (rows : List RoleEntry)
    → all (λ s. same_state s.state healthy_state) (map (entry_snapshot now) rows) ≡ true
    → All (λ e. e.state ≡ healthy_state) rows
all_healthy-to now [] h = tt
all_healthy-to now (e ∷ rows) h =
    (same_state-path e.state healthy_state (ground arith), all_healthy-to now rows (ground arith))

all_healthy-from :
    (now : ℕ) (rows : List RoleEntry)
    → All (λ e. e.state ≡ healthy_state) rows
    → all (λ s. same_state s.state healthy_state) (map (entry_snapshot now) rows) ≡ true
all_healthy-from now [] h = refl
all_healthy-from now (e ∷ rows) h = rw h.0 (all_healthy-from now rows h.1)

reachable-path : (c : CatalogState) → is_reachable c ≡ true → c ≡ catalog_healthy
reachable-path c h = ground arith

-- The process is ready just where the catalog answered last and every role is healthy.
pub snapshot-ready :
    (now : ℕ) (h : HealthRegistry)
    → ((snapshot now h).ready ≡ true)
      ↔ ((h.catalog ≡ catalog_healthy) × All (λ e. e.state ≡ healthy_state) h.roles)
unfolding snapshot
snapshot-ready now h = (
  λ r. (reachable-path h.catalog (ground arith), all_healthy-to now h.roles (ground arith)),
  λ p. rw p.0 (all_healthy-from now h.roles p.1),
)
