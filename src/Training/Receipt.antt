-- ===== src/Training/Receipt.antt =====
-- `_load_receipt`, `_receipt_content_digest` and `_validate_release_baseline` of `TrainingController`.
use go7_spark_broker.Prelude.{
  ℕ, String, Bool, true, false, not, ◌&&◌, ◌||◌, Option, none, some, List, [], ◌∷◌, all, any,
  length, contains, sort_by, str_lt, Result, ok, err, ◌>>=◌, ◌>>◌, leb, eqb, if◌then◌else◌,
}
use go7_spark_broker.Text.{codes, size, is_upper, is_word, is_joint, is_sha256}
use go7_spark_broker.Json.{Json, text, array, object, Fields, items, get_field, dict}
use go7_spark_broker.Resources.Coordinator.{says_count}
use go7_spark_broker.Resources.Probe.{names, as_count}
use go7_spark_broker.Training.Types.{Failure, refused, FileRecord, Receipt, Baseline, file_items}
use go7_spark_broker.Training.Requests.{has_names}

abbrev pub bad_checkpoint : Failure
bad_checkpoint = refused "checkpoint_invalid" 503

abbrev require : Bool → Result Failure (Unit {0})
require true = ok tt
require false = err bad_checkpoint

abbrev is_id_char : ℕ → Bool
is_id_char c = is_upper c || is_word c || is_joint c

abbrev id_codes : List ℕ → Bool
id_codes [] = false
id_codes (c ∷ r) = (is_upper c || is_word c) && all is_id_char r && leb (length r) 127

-- `_CHECKPOINT_ID`: ^[A-Za-z0-9][A-Za-z0-9._-]{0,127}$
unfoldable pub is_checkpoint_id : String → Bool
is_checkpoint_id t = id_codes (codes t)

abbrev longer : ℕ → List (List ℕ) → List (List ℕ)
longer c [] = (c ∷ []) ∷ []
longer c (p ∷ r) = (c ∷ p) ∷ r

-- Path(relative).parts, with empty parts and single dots, which the test for ".." ignores.
abbrev parts : List ℕ → List (List ℕ)
parts [] = [] ∷ []
parts (c ∷ r) = let rest = parts r in if eqb c b'/' then [] ∷ rest else longer c rest

abbrev is_parent : List ℕ → Bool
is_parent (a ∷ b ∷ []) = eqb a b'.' && eqb b b'.'
is_parent _ = false

abbrev starts_at_root : List ℕ → Bool
starts_at_root [] = false
starts_at_root (c ∷ r) = eqb c b'/'

-- Not empty, not absolute, and with no part "..".
unfoldable pub is_relative : String → Bool
is_relative t =
    leb 1 (size t) && not (starts_at_root (codes t)) && not (any is_parent (parts (codes t)))

abbrev text_of : (String → Bool) → Option Json → Result Failure String
text_of p (some (text t)) = do require (p t); ok t
text_of p _ = err bad_checkpoint

abbrev count_of : Option Json → Result Failure ℕ
count_of o = elim (as_count o) [ none ↦ err bad_checkpoint | some n ↦ ok n ]

abbrev record_names : List String
record_names = "path" ∷ "size" ∷ "sha256" ∷ []

unfoldable pub read_file : List String → Json → Result Failure FileRecord
unfolding is_relative
read_file seen (object f) = do
  require (has_names record_names (names f))
  path ← text_of (λ t. is_relative t && not (contains t seen)) (get_field "path" f)
  size ← count_of (get_field "size" f)
  sha256 ← text_of is_sha256 (get_field "sha256" f)
  ok (record { path = path; size = size; sha256 = sha256 })
read_file seen _ = err bad_checkpoint

unfoldable pub read_files : List String → List Json → Result Failure (List FileRecord)
unfolding read_file
read_files seen [] = ok []
read_files seen (x ∷ r) = do
  f ← read_file seen x
  rest ← read_files (f.path ∷ seen) r
  ok (f ∷ rest)

abbrev files_of : Option Json → Result Failure (List Json)
files_of (some (array xs)) = do
  require (leb 1 (length (items xs)) && leb (length (items xs)) 128)
  ok (items xs)
files_of _ = err bad_checkpoint

abbrev receipt_names : List String
receipt_names = "version" ∷ "runId" ∷ "checkpointId" ∷ "files" ∷ []

unfoldable pub read_receipt : Fields → Result Failure Receipt
unfolding read_files is_checkpoint_id
read_receipt f = do
  require (has_names receipt_names (names f) && says_count 1 (get_field "version" f))
  run_id ← text_of is_checkpoint_id (get_field "runId" f)
  checkpoint_id ← text_of is_checkpoint_id (get_field "checkpointId" f)
  raw ← files_of (get_field "files" f)
  files ← read_files [] raw
  ok (record { run_id = run_id; checkpoint_id = checkpoint_id; files = files })

abbrev pub path_before : FileRecord → FileRecord → Bool
path_before a b = str_lt a.path b.path

-- `digest` is the SHA-256 of the canonical text of a value.
module _ (digest : Json → String) where
  abbrev pub content_json : Receipt → Json
  content_json r =
      dict (
        ("runId", text r.run_id) ∷ ("files", array (file_items (sort_by path_before r.files))) ∷ [])

  unfoldable pub receipt_content_digest : Receipt → String
  receipt_content_digest r = digest (content_json r)

  abbrev pub baseline_of : Receipt → Baseline
  baseline_of r = record {
    run_id = r.run_id;
    checkpoint_id = r.checkpoint_id;
    content_sha256 = receipt_content_digest r;
  }

-- The check of a baseline that a recovery reads back.
unfoldable pub validate_release_baseline : Option Baseline → Result Failure (Option Baseline)
unfolding is_checkpoint_id
validate_release_baseline none = ok none
validate_release_baseline (some b) =
    if is_checkpoint_id b.run_id && is_checkpoint_id b.checkpoint_id && is_sha256 b.content_sha256
    then ok (some b)
    else err (refused "recovery_required" 503)
