-- ===== src/Store/Artifacts.antt =====
-- The artifact rows of `Store`.
use go7_spark_broker.Prelude.{
  ℕ, ◌+◌, String, Bool, true, false, not, ◌&&◌, ◌||◌, Option, none, some, List, [], ◌∷◌, ◌++◌, map,
  select, find, any, sort_by, str_lt, Result, ok, err, eqb, ◌==◌, if◌then◌else◌,
}
use go7_spark_broker.Clock.{text_lt}
use go7_spark_broker.Store.Tables.{Artifact, Store, StoreError, integrity_error}
use go7_spark_broker.Store.Queue.{has_id}

abbrev pub sum_sizes : List Artifact → ℕ
sum_sizes [] = 0
sum_sizes (a ∷ r) = a.size_bytes + sum_sizes r

unfoldable pub artifact_usage_bytes : Store → ℕ
artifact_usage_bytes s = sum_sizes s.artifacts

unfoldable pub artifact_relative_paths : Store → List String
artifact_relative_paths s = map (λ a. a.relative_path) s.artifacts

-- PRIMARY KEY and UNIQUE(relative_path)
abbrev pub same_artifact : Artifact → Artifact → Bool
same_artifact a b = b.id == a.id || b.relative_path == a.relative_path

-- The foreign key: a job that is named is there.
abbrev pub has_job : Option String → Store → Bool
has_job none s = true
has_job (some job_id) s = any (has_id job_id) s.jobs

unfoldable pub add_artifact : Artifact → Store → Result StoreError Store
add_artifact a s =
    if any (same_artifact a) s.artifacts || not (has_job a.job_id s)
    then err integrity_error
    else ok (record s { artifacts = s.artifacts ++ (a ∷ []) })

unfoldable pub get_artifact : String → Store → Option Artifact
get_artifact artifact_id s = find (λ a. a.id == artifact_id) s.artifacts

abbrev pub belongs : String → Option String → Bool
belongs job_id none = false
belongs job_id (some j) = j == job_id

-- ORDER BY created_at,id
unfoldable pub artifact_before : Artifact → Artifact → Bool
artifact_before a b =
    text_lt a.created_at b.created_at || (eqb a.created_at b.created_at && str_lt a.id b.id)

unfoldable pub job_artifacts : String → Store → List Artifact
unfolding artifact_before
job_artifacts job_id s = sort_by artifact_before (select (λ a. belongs job_id a.job_id) s.artifacts)
