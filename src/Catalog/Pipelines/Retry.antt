-- ===== src/Catalog/Pipelines/Retry.antt =====
-- A pipeline of pipelines.rs that is ensured again.
use ukiel.Base.{
  ℕ, String, [], ◌∷◌, find, find-append_none, any_of_find-none, elem, true, false, not, ◌||◌, ◌==◌,
  nat_eq, string_eq, ◌≡◌, refl, sym, ap, ◌∙◌, subst, arith, Bool-cases, Option-cases, Option, none,
  some, inl, inr, Eq,
}
use ukiel.Base.Result.{Result, ok, >>=-ok}
use ukiel.Catalog.Error.{CatalogError}
use ukiel.Catalog.Pipelines.{
  Endpoint, kafka, parquet, Pipeline, PipelineDefinition, PipelineRow, PipelineDb, ErrorPolicy,
  stall, skip, Delivery, exactly_once, row_of, creates_cycle, ensure_pipeline, pipeline,
  exact_match, same_definition, same_endpoint, same_policy, same_column, insert_pipeline, malformed,
  named, endpoint_exists, get_pipeline,
}

equals_itself {ℓ} : {A : Type ℓ} ⦃e : Eq A⦄ (x : A) → (x == x) ≡ true
equals_itself ⦃e⦄ x = (e.same_iff x x).1 refl

endpoint_refl : (e : Endpoint) → same_endpoint e e ≡ true
endpoint_refl (kafka id) = equals_itself id
endpoint_refl (parquet id) = equals_itself id

policy_refl : (p : ErrorPolicy) → same_policy p p ≡ true
policy_refl stall = refl
policy_refl skip = refl

column_refl : (c : Option String) → same_column c c ≡ true
column_refl none = refl
column_refl (some c) = equals_itself c

definition_refl : (def : PipelineDefinition) → same_definition def def ≡ true
definition_refl def = ground (
  arith,
  equals_itself def.name,
  endpoint_refl def.source,
  equals_itself def.target,
  equals_itself def.sql,
  policy_refl def.error_policy,
  column_refl def.event_time_column,
)

-- The row of a definition is read as that definition.
pub pipeline-row_of :
    (id : ℕ) (def : PipelineDefinition)
    → pipeline (row_of id def) ≡ ok (record { id = id; definition = def })
unfolding pipeline
pipeline-row_of id def = go def.source def.error_policy def.delivery
  where
    go :
        (source : Endpoint) (policy : ErrorPolicy) (delivery : Delivery)
        → pipeline
            (row_of id (record def { source = source; error_policy = policy; delivery = delivery }))
          ≡ ok (record {
            id = id;
            definition = record def { source = source; error_policy = policy; delivery = delivery };
          })
    go (kafka k) stall exactly_once = refl
    go (kafka k) skip exactly_once = refl
    go (parquet k) stall exactly_once = refl
    go (parquet k) skip exactly_once = refl

module _ (def : PipelineDefinition) (d : PipelineDb) (p : Pipeline) where
  insert-found :
      find (named def.name) d.pipelines ≡ none
      → find (named def.name) (insert_pipeline def d).1.pipelines
        ≡ some (row_of d.next_pipeline def)
  insert-found absent =
      find-append_none (named def.name) d.pipelines (row_of d.next_pipeline def ∷ [])
        (any_of_find-none (named def.name) d.pipelines absent)
      ∙ rw (equals_itself def.name) refl

  -- A row under the name of the definition that is read as the pipeline, with that definition.
  Kept : PipelineDb → Type 0
  Kept after =
      (row : PipelineRow) × (find (named def.name) after.pipelines ≡ some row)
      × (pipeline row ≡ ok p)
      × (exact_match def p ≡ ok p)

  Kept-again :
      (after : PipelineDb)
      → malformed def ≡ false
      → Kept after
      → (get_pipeline def.name after ≡ ok p) × (ensure_pipeline def after ≡ (ok p, after))
  unfolding ensure_pipeline get_pipeline Kept
  Kept-again after e (row, f, read, same) = rw (f, e) (rw read (refl, rw same refl))

  exact_match-same : (q : Pipeline) → exact_match def q ≡ ok p → q ≡ p
  exact_match-same q h = ground arith

  exact_match-made :
      (q : Pipeline)
      → q.definition ≡ def
      → ◌≡◌ {A = Result Pipeline CatalogError} (ok q) (ok p)
      → exact_match def p ≡ ok p
  exact_match-made q made h = ground (
    arith,
    made,
    definition_refl def,
    subst (λ x. same_definition x def ≡ true) (sym made) (definition_refl def),
  )

  ensured-Kept :
      (ensure_pipeline def d).0 ≡ ok p → (malformed def ≡ false) × Kept (ensure_pipeline def d).1
  unfolding ensure_pipeline Kept
  ensured-Kept = elim (Bool-cases (malformed def)) [
    | inl e ↦ rw e (λ h. absurd (ground arith))
    | inr e ↦ elim (Option-cases (find (named def.name) d.pipelines)) [
      | inr (row, f) ↦
          rw (e, f)
            (λ h.
              let (q, (read, same)) = >>=-ok (pipeline row) (exact_match def) p h in
              let one = exact_match-same q same in
              (refl, (row, f, (read ∙ ap ok one), subst (λ x. exact_match def x ≡ ok p) one same)))
      | inl f ↦
          elim (Bool-cases
            (not (endpoint_exists def.source d) || not (elem def.target d.db.hypertables))) [
              | inl g ↦ rw (e, f, g) (λ h. absurd (ground arith))
              | inr g ↦ elim (Bool-cases (creates_cycle def.source def.target d.pipelines)) [
                | inl k ↦ rw (e, f, g, k) (λ h. absurd (ground arith))
                | inr k ↦
                    rw (e, f, g, k)
                      (λ h. (
                        refl,
                        (
                          row_of d.next_pipeline def,
                          insert-found f,
                          h,
                          exact_match-made (record { id = d.next_pipeline; definition = def }) refl
                              (sym (pipeline-row_of d.next_pipeline def) ∙ h),
                        ),
                      ))
              ]
            ]
    ]
  ]

  -- A pipeline that was ensured is found by its name, and ensuring it again answers with the same
  -- pipeline and changes nothing.
  pub ensure_pipeline-again :
      (ensure_pipeline def d).0 ≡ ok p
      → (get_pipeline def.name (ensure_pipeline def d).1 ≡ ok p)
        × (ensure_pipeline def (ensure_pipeline def d).1 ≡ (ok p, (ensure_pipeline def d).1))
  ensure_pipeline-again h =
      let (e, kept) = ensured-Kept h in Kept-again (ensure_pipeline def d).1 e kept
