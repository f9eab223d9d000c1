-- ===== src/Catalog/Pipelines.antt =====
-- crates/ukiel-core/src/pipeline.rs and crates/ukiel-catalog/src/pipelines.rs: pipelines, the rows
-- that they are kept in, and the cursors of materialized views. The tables that only they use
-- stand beside the catalog's. Reads are functions of the tables, and the two operations that write
-- return the tables after them; an insert that is refused here is one that PostgreSQL rolls back.
pub mod Reachable
mod Examples
pub mod Retry
pub mod Acyclic
use Prim.Native.Char.{code}
use Prim.Native.String.{[] as empty, ◌∷◌ as char_then}
use ukiel.Base.{
  ℕ, zero, suc, ◌+◌, String, List, [], ◌∷◌, ◌++◌, map, length, any, all, find, select, elem, Bool,
  true, false, not, ◌&&◌, ◌||◌, leb, nat_beq, Option, none, some, ◌==◌, nat_eq, string_eq,
  if◌then◌else◌,
}
use ukiel.Base.Result.{Result, ok, err, ◌>>=◌}
use ukiel.Core.Operation.{decimal, join}
use ukiel.Catalog.Error.{CatalogError, invalid_pipeline, invariant, not_found}
use ukiel.Catalog.Db.{Db, CursorRow}
use ukiel.Catalog.Cursors.{of_worker, position}
use ukiel.Catalog.Feed.{feed_head}

pub data Endpoint : Type 0 where
  kafka parquet : (id : ℕ) → Endpoint

abbrev pub endpoint_id : Endpoint → ℕ
endpoint_id (kafka id) = id
endpoint_id (parquet id) = id

pub data ErrorPolicy : Type 0 where
  stall skip : ErrorPolicy

pub data Delivery : Type 0 where
  exactly_once : Delivery

pub record PipelineDefinition : Type 0 where
  pub name : String
  pub source : Endpoint
  pub target : ℕ
  pub sql : String
  pub delivery : Delivery
  pub error_policy : ErrorPolicy
  pub event_time_column : Option String

pub record Pipeline : Type 0 where
  pub id : ℕ
  pub definition : PipelineDefinition

pub record PipelineRow : Type 0 where
  pub id : ℕ
  pub name : String
  pub source_kind : String
  pub source_id : ℕ
  pub target_kind : String
  pub target_id : ℕ
  pub sql : String
  pub delivery : String
  pub error_policy : String
  pub event_time_column : Option String

-- `stream_tables` has its ids here.
pub record PipelineDb : Type 0 where
  pub db : Db
  pub stream_tables : List ℕ
  pub pipelines : List PipelineRow
  pub next_pipeline : ℕ

abbrev pub source_of_row : String → ℕ → Result Endpoint CatalogError
source_of_row kind id =
    if kind == "kafka"
    then ok (kafka id)
    else if kind == "parquet"
    then ok (parquet id)
    else err (invariant (join "unknown pipeline source kind " kind))

abbrev pub delivery_of_row : String → Result Delivery CatalogError
delivery_of_row text =
    if text == "exactly_once"
    then ok exactly_once
    else err (invariant (join "unknown pipeline delivery " text))

abbrev pub policy_of_row : String → Result ErrorPolicy CatalogError
policy_of_row text =
    if text == "stall"
    then ok stall
    else if text == "skip"
    then ok skip
    else err (invariant (join "unknown pipeline error policy " text))

unfoldable pub pipeline : PipelineRow → Result Pipeline CatalogError
pipeline row = source_of_row row.source_kind row.source_id >>= λ source.
    delivery_of_row row.delivery >>= λ delivery. policy_of_row row.error_policy >>= λ policy.
    if row.target_kind == "parquet"
    then ok (record {
      id = row.id;
      definition = record {
        name = row.name;
        source = source;
        target = row.target_id;
        sql = row.sql;
        delivery = delivery;
        error_policy = policy;
        event_time_column = row.event_time_column;
      };
    })
    else err (invariant "pipeline target is not parquet")

abbrev pub kind_name : Endpoint → String
kind_name (kafka id) = "kafka"
kind_name (parquet id) = "parquet"

abbrev pub policy_name : ErrorPolicy → String
policy_name stall = "stall"
policy_name skip = "skip"

-- The row that `INSERT` writes.
abbrev pub row_of : ℕ → PipelineDefinition → PipelineRow
row_of id def = record {
  id = id;
  name = def.name;
  source_kind = kind_name def.source;
  source_id = endpoint_id def.source;
  target_kind = "parquet";
  target_id = def.target;
  sql = def.sql;
  delivery = "exactly_once";
  error_policy = policy_name def.error_policy;
  event_time_column = def.event_time_column;
}

-- `White_Space`, which `trim` takes off.
abbrev pub is_space : ℕ → Bool
is_space c =
    (leb 9 c && leb c 13)
    || elem c (32 ∷ 133 ∷ 160 ∷ 5760 ∷ 8232 ∷ 8233 ∷ 8239 ∷ 8287 ∷ 12288 ∷ [])
    || (leb 8192 c && leb c 8202)

-- `trim().is_empty()`.
abbrev pub blank : String → Bool
blank empty = true
blank (char_then c s) = is_space (code c) && blank s

-- The edges of the graph: the pipelines that read a hypertable.
abbrev pub edges : List PipelineRow → List (ℕ × ℕ)
edges [] = []
edges (r ∷ rows) =
    let rest = edges rows in
    if r.source_kind == "parquet" then (r.source_id, r.target_id) ∷ rest else rest

-- One round of the recursive query: the targets of the edges that start in the set.
abbrev pub targets_from : List ℕ → List (ℕ × ℕ) → List ℕ
targets_from seen [] = []
targets_from seen ((s, t) ∷ es) =
    let rest = targets_from seen es in if elem s seen then t ∷ rest else rest

-- A round adds no row that is new.
abbrev pub closed : List ℕ → List (ℕ × ℕ) → Bool
closed seen [] = true
closed seen ((s, t) ∷ es) = (not (elem s seen) || elem t seen) && closed seen es

abbrev pub reachable : ℕ → List (ℕ × ℕ) → List ℕ → List ℕ
reachable zero es seen = seen
reachable (suc rounds) es seen =
    let rest = reachable rounds es (targets_from seen es ++ seen) in
    if closed seen es then seen else rest

abbrev pub creates_cycle : Endpoint → ℕ → List PipelineRow → Bool
creates_cycle (kafka id) target rows = false
creates_cycle (parquet source) target rows =
    let es = edges rows in elem source (reachable (length es) es (target ∷ []))

abbrev pub endpoint_exists : Endpoint → PipelineDb → Bool
endpoint_exists (kafka id) d = elem id d.stream_tables
endpoint_exists (parquet id) d = elem id d.db.hypertables

abbrev pub same_endpoint : Endpoint → Endpoint → Bool
same_endpoint (kafka a) (kafka b) = a == b
same_endpoint (parquet a) (parquet b) = a == b
same_endpoint a b = false

abbrev pub same_policy : ErrorPolicy → ErrorPolicy → Bool
same_policy a b = policy_name a == policy_name b

abbrev pub same_column : Option String → Option String → Bool
same_column none none = true
same_column (some a) (some b) = a == b
same_column a b = false

-- The derived equality of definitions; there is one delivery.
abbrev pub same_definition : PipelineDefinition → PipelineDefinition → Bool
same_definition a b =
    a.name == b.name
    && (same_endpoint a.source b.source
        && (a.target == b.target
            && (a.sql == b.sql
                && (same_policy a.error_policy b.error_policy
                    && same_column a.event_time_column b.event_time_column))))

abbrev pub named : String → PipelineRow → Bool
named name r = r.name == name

-- The answer for a name that is taken: the pipeline, if its definition is the same.
abbrev pub exact_match : PipelineDefinition → Pipeline → Result Pipeline CatalogError
exact_match def found =
    if same_definition found.definition def
    then ok found
    else err (invalid_pipeline "differs from its immutable definition")

abbrev pub insert_pipeline :
    PipelineDefinition → PipelineDb → Result Pipeline CatalogError × PipelineDb
insert_pipeline def d =
    let row = row_of d.next_pipeline def in
    (
      pipeline row,
      record d { pipelines = d.pipelines ++ row ∷ []; next_pipeline = d.next_pipeline + 1 },
    )

abbrev pub malformed : PipelineDefinition → Bool
malformed def =
    blank def.name || (blank def.sql || (endpoint_id def.source == 0 || def.target == 0))

unfoldable pub ensure_pipeline :
    PipelineDefinition → PipelineDb → Result Pipeline CatalogError × PipelineDb
ensure_pipeline def d =
    if malformed def
    then (err (invalid_pipeline "pipeline name, SQL, and valid endpoints are required"), d)
    else elim (find (named def.name) d.pipelines) [
      | some row ↦ (pipeline row >>= exact_match def, d)
      | none ↦
          if not (endpoint_exists def.source d) || not (elem def.target d.db.hypertables)
          then (err (invalid_pipeline "pipeline endpoint does not exist in the declared kind"), d)
          else if creates_cycle def.source def.target d.pipelines
          then (err (invalid_pipeline "pipeline would create a cycle"), d)
          else insert_pipeline def d
    ]

abbrev pub found_or : String → Option PipelineRow → Result Pipeline CatalogError
found_or what none = err (not_found what)
found_or what (some row) = pipeline row

unfoldable pub get_pipeline : String → PipelineDb → Result Pipeline CatalogError
get_pipeline name d = found_or (join "pipeline " name) (find (named name) d.pipelines)

abbrev pub numbered : ℕ → PipelineRow → Bool
numbered id r = r.id == id

unfoldable pub get_pipeline_by_id : ℕ → PipelineDb → Result Pipeline CatalogError
get_pipeline_by_id id d =
    found_or (join "pipeline " (decimal 20 id "")) (find (numbered id) d.pipelines)

abbrev pub mv_worker : ℕ → String
mv_worker id = join "mv/" (decimal 20 id "")

abbrev pub mv_source : ℕ → Option PipelineRow → Result ℕ CatalogError
mv_source id none = err (not_found (join "pipeline " (decimal 20 id "")))
mv_source id (some row) =
    if row.source_kind == "parquet"
    then ok row.source_id
    else err (invalid_pipeline "MV cursor requires a Parquet source")

-- `INSERT … ON CONFLICT DO NOTHING`.
abbrev pub register_cursor : String → ℕ → Db → Db
register_cursor worker ht d = if any (of_worker worker ht) d.worker_cursors then d else record d {
  worker_cursors =
      d.worker_cursors
      ++ record { worker = worker; hypertable_id = ht; last_commit_id = feed_head ht d } ∷ [];
}

abbrev pub mv_cursor : ℕ → ℕ → Db → ℕ
mv_cursor id ht d = position (find (of_worker (mv_worker id) ht) d.worker_cursors)

unfoldable pub ensure_mv_cursor : ℕ → PipelineDb → Result ℕ CatalogError × PipelineDb
ensure_mv_cursor id d = elim (mv_source id (find (numbered id) d.pipelines)) [
  | err e ↦ (err e, d)
  | ok ht ↦
      let after = register_cursor (mv_worker id) ht d.db in
      (ok (mv_cursor id ht after), record d { db = after })
]

abbrev pub registered : ℕ → Option CursorRow → Result ℕ CatalogError
registered id none = err (invariant (join "MV has no registered cursor: " (decimal 20 id "")))
registered id (some c) = ok c.last_commit_id

unfoldable pub read_mv_cursor : ℕ → PipelineDb → Result ℕ CatalogError
read_mv_cursor id d = mv_source id (find (numbered id) d.pipelines) >>= λ ht.
    registered id (find (of_worker (mv_worker id) ht) d.db.worker_cursors)
