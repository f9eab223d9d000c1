-- ===== src/Catalog/Pipelines/Acyclic.antt =====
-- The graph of the pipelines that pipelines.rs lets in.
use mathlib.Core.List.{Memᴰ, append-nil}
use ukiel.Base.{
  ℕ, List, [], ◌∷◌, ◌++◌, length, elem, find, false, not, ◌||◌, ◌==◌, nat_eq, string_eq,
  if◌then◌else◌, ◌≡◌, ◌⊎◌, inl, inr, refl, sym, ap, ◌∙◌, subst, arith, Bool-cases, Option-cases,
}
use ukiel.Catalog.Pipelines.{
  Endpoint, kafka, parquet, endpoint_id, PipelineDefinition, PipelineRow, PipelineDb, row_of,
  kind_name, malformed, edges, creates_cycle, reachable, ensure_pipeline, insert_pipeline, named,
  endpoint_exists,
}
use ukiel.Catalog.Pipelines.Reachable.{Reach, reachable_complete}

edges-append : (rows more : List PipelineRow) → edges (rows ++ more) ≡ edges rows ++ edges more
edges-append [] more = refl
edges-append (r ∷ rows) more = ground (arith, edges-append rows more)

Mem-append_one : (es : List (ℕ × ℕ)) (e x : ℕ × ℕ) → Memᴰ x (es ++ e ∷ []) → Memᴰ x es ⊎ (x ≡ e)
Mem-append_one [] e x (Memᴰ.head p) = inr p
Mem-append_one [] e x (Memᴰ.tail m) = elim m [ ]
Mem-append_one (y ∷ es) e x (Memᴰ.head p) = inl (Memᴰ.head p)
Mem-append_one (y ∷ es) e x (Memᴰ.tail m) = elim (Mem-append_one es e x m) [
  | inl n ↦ inl (Memᴰ.tail n)
  | inr p ↦ inr p
]

-- To be there already, or to get there.
abbrev Leads : List (ℕ × ℕ) → ℕ → ℕ → Type 0
Leads es a b = (a ≡ b) ⊎ Reach es a b

edge-Leads : (es : List (ℕ × ℕ)) (a b c : ℕ) → Memᴰ (a, b) es → Leads es b c → Leads es a c
edge-Leads es a b c m (inl same) = inr (Reach.edge (subst (λ x. Memᴰ (a, x) es) same m))
edge-Leads es a b c m (inr r) = inr (Reach.then m r)

-- A path in a graph with one edge more is a path without it, or it goes through it.
through :
    (es : List (ℕ × ℕ)) (s t a b : ℕ)
    → Reach (es ++ (s, t) ∷ []) a b
    → Reach es a b ⊎ (Leads es a s × Leads es t b)
through es s t a b (Reach.edge m) = elim (Mem-append_one es (s, t) (a, b) m) [
  | inl n ↦ inl (Reach.edge n)
  | inr p ↦ inr (inl (ap (λ x. x.0) p), inl (sym (ap (λ x. x.1) p)))
]
through es s t a b (Reach.then {b = c} m r) = elim (Mem-append_one es (s, t) (a, c) m) [
  | inl n ↦ elim (through es s t c b r) [
    | inl old ↦ inl (Reach.then n old)
    | inr (to, from) ↦ inr (edge-Leads es a c s n to, from)
  ]
  | inr p ↦
      let start : a ≡ s = ap (λ x. x.0) p in
      let there : c ≡ t = ap (λ x. x.1) p in
      elim (through es s t c b r) [
        | inl old ↦ inr (inl start, inr (subst (λ x. Reach es x b) there old))
        | inr (to, from) ↦ inr (inl start, from)
      ]
]

Leads-trans : (es : List (ℕ × ℕ)) (a b c : ℕ) → Leads es a b → Leads es b c → Leads es a c
Leads-trans es a b c (inl same) r = subst (λ x. Leads es x c) (sym same) r
Leads-trans es a b c (inr (Reach.edge m)) r = edge-Leads es a b c m r
Leads-trans es a b c (inr (Reach.then {b = x} m p)) r =
    edge-Leads es a x c m (Leads-trans es x b c (inr p) r)

edge_keeps :
    (es : List (ℕ × ℕ)) (s t x : ℕ)
    → ((y : ℕ) → Reach es y y → ⊥)
    → elem s (reachable (length es) es (t ∷ [])) ≡ false
    → Reach (es ++ (s, t) ∷ []) x x
    → ⊥
edge_keeps es s t x old free r = elim (through es s t x x r) [
  | inl p ↦ old x p
  | inr (to, from) ↦
      absurd (ground (arith, free, reachable_complete es t s (Leads-trans es t x s from to)))
]

-- The edges of a new row.
abbrev new_edges : PipelineDefinition → Endpoint → List (ℕ × ℕ)
new_edges def source =
    if kind_name source == "parquet" then (endpoint_id source, def.target) ∷ [] else []

module _ (d : PipelineDb) (old : (y : ℕ) → Reach (edges d.pipelines) y y → ⊥) where
  insert-keeps :
      (def : PipelineDefinition) (source : Endpoint) (x : ℕ)
      → def.source ≡ source
      → creates_cycle source def.target d.pipelines ≡ false
      → Reach (edges (insert_pipeline def d).1.pipelines) x x
      → ⊥
  insert-keeps def (kafka id) x same free r = old x (
      subst (λ es. Reach es x x)
        (edges-append d.pipelines (row_of d.next_pipeline def ∷ [])
          ∙ (ap (λ es. edges d.pipelines ++ es) (ap (new_edges def) same)
              ∙ append-nil (edges d.pipelines)))
        r)
  insert-keeps def (parquet id) x same free r =
      edge_keeps (edges d.pipelines) id def.target x old free (
        subst (λ es. Reach es x x)
          (edges-append d.pipelines (row_of d.next_pipeline def ∷ [])
            ∙ ap (λ es. edges d.pipelines ++ es) (ap (new_edges def) same))
          r)

  ensure-keeps :
      (def : PipelineDefinition) (x : ℕ) → Reach (edges (ensure_pipeline def d).1.pipelines) x x → ⊥
  unfolding ensure_pipeline
  ensure-keeps def x = elim (Bool-cases (malformed def)) [
    | inl e ↦ rw e (old x)
    | inr e ↦ elim (Option-cases (find (named def.name) d.pipelines)) [
      | inr (row, f) ↦ rw (e, f) (old x)
      | inl f ↦
          elim (Bool-cases
            (not (endpoint_exists def.source d) || not (elem def.target d.db.hypertables))) [
              | inl g ↦ rw (e, f, g) (old x)
              | inr g ↦ elim (Bool-cases (creates_cycle def.source def.target d.pipelines)) [
                | inl k ↦ rw (e, f, g, k) (old x)
                | inr k ↦ rw (e, f, g, k) (insert-keeps def def.source x refl k)
              ]
            ]
    ]
  ]

-- The definitions that workers bring at their start, one after the other.
abbrev pub ensure_all : List PipelineDefinition → PipelineDb → PipelineDb
ensure_all [] d = d
ensure_all (def ∷ defs) d = ensure_all defs (ensure_pipeline def d).1

all-keeps :
    (defs : List PipelineDefinition) (d : PipelineDb)
    → ((y : ℕ) → Reach (edges d.pipelines) y y → ⊥)
    → (x : ℕ) → Reach (edges (ensure_all defs d).pipelines) x x
    → ⊥
all-keeps [] d old x r = old x r
all-keeps (def ∷ defs) d old x r =
    all-keeps defs (ensure_pipeline def d).1 (λ y. ensure-keeps d old def y) x r

no_edge : (a b : ℕ) → Reach [] a b → ⊥
no_edge a b (Reach.edge m) = elim m [ ]
no_edge a b (Reach.then m r) = elim m [ ]

-- Whatever pipelines are ensured, from a catalog that has none, no hypertable feeds itself, on
-- however long a way.
pub ensure_all-acyclic :
    (defs : List PipelineDefinition) (d : PipelineDb) (x : ℕ)
    → d.pipelines ≡ []
    → ¬ (Reach (edges (ensure_all defs d).pipelines) x x)
ensure_all-acyclic defs d x none_yet r =
    all-keeps defs d (λ y. subst (λ rows. Reach (edges rows) y y → ⊥) (sym none_yet) (no_edge y y))
      x r
