-- ===== src/Compactor.antt =====
-- crates/ukiel-compactor/src/compactor.rs: the rotation of a sweep over the eligible partitions, and
-- the level of a partition that is merged next. The cursor of a hypertable is the entry that the
-- map of cursors holds for it; `window_at` is the query of the sweep.
pub mod Rotation
mod Examples
use ukiel.Base.{
  ℕ, ◌+◌, String, Bool, true, false, ◌&&◌, ◌||◌, Option, none, some, List, [], ◌∷◌, ◌++◌, map, leb,
  ltb, ◌==◌, nat_eq, length, distinct, if◌then◌else◌,
}
use ukiel.Catalog.Windows.{CandidateWindow}
use ukiel.Core.Part.{Part}

-- The counters of `CompactionStats` that a sweep advances.
pub record CompactionStats : Type 0 where
  pub candidates : ℕ
  pub eligible : ℕ
  pub leased_skips : ℕ
  pub sweep_wraps : ℕ

pub record Swept : Type 0 where
  pub window : CandidateWindow
  pub cursor : Option String
  pub stats : CompactionStats

abbrev pub is_some : Option String → Bool
is_some none = false
is_some (some _) = true

abbrev pub is_empty : List String → Bool
is_empty [] = true
is_empty (p ∷ ps) = false

unfoldable pub sweep :
    ℕ → (Option String → CandidateWindow) → Option String → CompactionStats → Swept
sweep candidate_limit window_at cursor stats =
    let first = window_at cursor in
    let ran_off_tail = is_some cursor && is_empty first.partitions in
    let window = if ran_off_tail then window_at none else first in
    let exhausted = ltb (length window.partitions) candidate_limit in
    let wrapped = ltb 0 window.eligible && (ran_off_tail || exhausted) in
    record {
      window = window;
      cursor = if exhausted then none else window.next_cursor;
      stats = record {
        candidates = stats.candidates + length window.partitions;
        eligible = stats.eligible + window.eligible;
        leased_skips = stats.leased_skips + window.leased;
        sweep_wraps = stats.sweep_wraps + (if wrapped then 1 else 0);
      };
    }

-- `by_level`: the parts of each level in the order they come in, by ascending level.
abbrev pub file : Part → List (ℕ × List Part) → List (ℕ × List Part)
file p [] = (p.meta.level, p ∷ []) ∷ []
file p ((level, group) ∷ levels) =
    let rest = file p levels in
    if p.meta.level == level
    then (level, group ++ p ∷ []) ∷ levels
    else if ltb p.meta.level level
    then (p.meta.level, p ∷ []) ∷ (level, group) ∷ levels
    else (level, group) ∷ rest

abbrev pub by_level : List Part → List (ℕ × List Part) → List (ℕ × List Part)
by_level [] levels = levels
by_level (p ∷ parts) levels = by_level parts (file p levels)

-- The distinct commits of the group have reached the trigger of its level.
abbrev pub due : ℕ → ℕ → ℕ × List Part → Bool
due l0_fanout fanout (level, group) =
    leb (if level == 0 then l0_fanout else fanout)
      (length (distinct (map (λ (p : Part). p.created_by_commit) group)))

abbrev pub first_due : ℕ → ℕ → List (ℕ × List Part) → Option (ℕ × List Part)
first_due l0_fanout fanout [] = none
first_due l0_fanout fanout (entry ∷ levels) =
    let rest = first_due l0_fanout fanout levels in
    if due l0_fanout fanout entry then some entry else rest

unfoldable pub eligible_level : ℕ → ℕ → List Part → Option (ℕ × List Part)
eligible_level l0_fanout fanout parts = first_due l0_fanout fanout (by_level parts [])
