-- ===== src/Catalog/Pipelines/Examples.antt =====
-- The pipelines of pipelines.rs on three hypertables in a row.
use ukiel.Base.{◌≡◌, refl, [], ◌∷◌, none}
use ukiel.Base.Result.{ok, err}
use ukiel.Catalog.Error.{invalid_pipeline}
use ukiel.Catalog.Db.{fresh}
use ukiel.Catalog.Pipelines.{
  PipelineDb, PipelineDefinition, Pipeline, parquet, exactly_once, stall, edges, ensure_pipeline,
  get_pipeline, pipeline,
}
use ukiel.Catalog.Pipelines.Reachable.{Reach}
use ukiel.Catalog.Pipelines.Acyclic.{ensure_all, ensure_all-acyclic}
use ukiel.Catalog.Pipelines.Retry.{ensure_pipeline-again}

abbrev bare : PipelineDb
bare = record { db = fresh (1 ∷ 2 ∷ 3 ∷ []); stream_tables = []; pipelines = []; next_pipeline = 1 }

abbrev first : PipelineDefinition
first = record {
  name = "daily";
  source = parquet 1;
  target = 2;
  sql = "SELECT 1";
  delivery = exactly_once;
  error_policy = stall;
  event_time_column = none;
}

abbrev second : PipelineDefinition
second = record first { name = "weekly"; source = parquet 2; target = 3 }

abbrev back : PipelineDefinition
back = record first { name = "back"; source = parquet 3; target = 1 }

-- The pipeline that would close the circle is refused.
back_refused :
    (ensure_pipeline back (ensure_all (first ∷ second ∷ []) bare)).0
    ≡ err (invalid_pipeline "pipeline would create a cycle")
unfolding ensure_pipeline
back_refused = refl

ensure_all-acyclic_example :
    ¬ (Reach (edges (ensure_all (first ∷ second ∷ back ∷ []) bare).pipelines) 1 1)
ensure_all-acyclic_example = ensure_all-acyclic (first ∷ second ∷ back ∷ []) bare 1 refl

abbrev daily : Pipeline
daily = record { id = 1; definition = first }

ensure_pipeline-again_example :
    (get_pipeline "daily" (ensure_pipeline first bare).1 ≡ ok daily)
    × (ensure_pipeline first (ensure_pipeline first bare).1
        ≡ (ok daily, (ensure_pipeline first bare).1))
unfolding ensure_pipeline pipeline
ensure_pipeline-again_example = ensure_pipeline-again first bare daily refl
