-- ===== src/Gc.antt =====
-- Garbage collection. Source: crates/server/src/gc.rs and `post_gc` of routes/admin.rs.
-- A pass goes through explicit states: the two indexes and the store. The parser of stored shards
-- is another crate's and is the parameter `from_reader`. Logging is not modelled.
pub mod Sweep
pub mod Mark
pub mod Live
pub mod Grace
mod Tests
use openxet.Base.{
  pos, negsuc, Bool, List, Option, Result, [], any, err, false, if◌then◌else◌, length, ltb, min,
  none, ok, some, true, ℕ, ℤ, ◌%◌, ◌++◌, ◌+◌, ◌-◌, ◌>>=◌, ◌>>◌, ◌^◌, ◌∷◌,
}
use openxet.Text.{Text, codes, eq_text}
use openxet.Text.Decimal.{u64_mod, decimal}
use openxet.Errors.{StorageError, AppError, lift_storage}
use openxet.Storage.{
  ObjectStore, StoredObject, get_shard, delete_xorb, delete_shard, list_xorbs, list_shards,
}
use openxet.Index.Files.{FileIndex, list_all}
use openxet.Index.Chunks.{ChunkIndex, remove_xorb}

pub record GcReport : Type 0 where
  pub live_files : ℕ
  pub live_shards : ℕ
  pub live_xorbs : ℕ
  pub deleted_xorbs : ℕ
  pub freed_xorb_bytes : ℕ
  pub deleted_shards : ℕ
  pub freed_shard_bytes : ℕ
  pub skipped_in_grace : ℕ

pub record AppState (S : Type 0) : Type 0 where
  pub file_index : FileIndex
  pub chunk_index : ChunkIndex
  pub storage : S

-- What the pass reads of a file in a stored shard.
pub record FileView : Type 0 where
  pub file_hash : Text
  pub entries : List Text

-- A hash set is a list without repetitions, a hash map a list of entries with one for each key.
abbrev pub member : Text → List Text → Bool
member h xs = any (λ x. eq_text x h) xs

unfoldable pub insert_set : Text → List Text → List Text
insert_set h xs = if member h xs then xs else h ∷ xs

unfoldable pub insert_map : Text × Text → List (Text × Text) → List (Text × Text)
insert_map (k, v) [] = (k, v) ∷ []
insert_map (k, v) ((k', v') ∷ es) = elim (eq_text k' k) [
  | true ↦ (k, v) ∷ es
  | false ↦ (k', v') ∷ insert_map (k, v) es
]

unfoldable pub collect_map : List (Text × Text) → List (Text × Text) → List (Text × Text)
collect_map [] es = es
collect_map (r ∷ rs) es = collect_map rs (insert_map r es)

unfoldable pub lookup : Text → List (Text × Text) → Option Text
lookup k [] = none
lookup k ((k', v) ∷ es) = elim (eq_text k' k) [ true ↦ some v | false ↦ lookup k es ]

unfoldable pub values : List (Text × Text) → List Text
values [] = []
values ((k, v) ∷ es) = insert_set v (values es)

unfoldable pub insert_entries : List Text → List Text → List Text
insert_entries [] reachable = reachable
insert_entries (x ∷ xs) reachable = insert_entries xs (insert_set x reachable)

-- Only a file that the index resolves to this shard keeps its xorbs.
unfoldable pub resolves_to : Option Text → Text → Bool
resolves_to none shard_hash = false
resolves_to (some s) shard_hash = eq_text s shard_hash

unfoldable pub mark_files : List (Text × Text) → Text → List FileView → List Text → List Text
unfolding insert_entries resolves_to
mark_files file_to_shard shard_hash [] reachable = reachable
mark_files file_to_shard shard_hash (f ∷ fs) reachable =
    if resolves_to (lookup f.file_hash file_to_shard) shard_hash
    then mark_files file_to_shard shard_hash fs (insert_entries f.entries reachable)
    else mark_files file_to_shard shard_hash fs reachable

-- `now_unix.saturating_sub(last_modified_unix) < grace.as_secs() as i64`: the cast wraps to a
-- negative number from 2 ^ 63 on, and the difference from a time before 1970 saturates. The
-- absolute values of both times are at most 2 ^ 63.
unfoldable pub in_grace : ℕ → ℕ → ℤ → Bool
in_grace now_unix grace (pos last_modified_unix) =
    if ltb grace (2 ^ 63)
    then ltb now_unix (last_modified_unix + grace)
    else ltb (now_unix + u64_mod) (last_modified_unix + grace)
in_grace now_unix grace (negsuc before) =
    if ltb grace (2 ^ 63) then ltb (min (now_unix + before + 1) (2 ^ 63 - 1)) grace else false

module _ {S : Type 0} where
  -- What `?` does with the outcome of a step: an error ends the pass in the state reached.
  abbrev pub after_step :
      Result StorageError GcReport
      → AppState S
      → (GcReport → AppState S → Result StorageError GcReport × AppState S)
      → Result StorageError GcReport × AppState S
  after_step (err e) st next = (err e, st)
  after_step (ok report) st next = next report st

module _ {S : Type 0} (store : ObjectStore S)
    (from_reader : Text → Result Text (List FileView)) where
  -- A shard that is missing is skipped; one that cannot be read or parsed ends the pass.
  unfoldable pub mark_shard :
      List (Text × Text)
      → Text
      → Result StorageError Text
      → List Text
      → Result StorageError (List Text)
  unfolding mark_files
  mark_shard file_to_shard shard_hash (err (StorageError.not_found p)) reachable = ok reachable
  mark_shard file_to_shard shard_hash (err e) reachable = err e
  mark_shard file_to_shard shard_hash (ok bytes) reachable = elim (from_reader bytes) [
    | ok files ↦ ok (mark_files file_to_shard shard_hash files reachable)
    | err e ↦
        err
          (StorageError.index (codes "corrupt stored shard " ++ (shard_hash ++ (codes ": " ++ e))))
  ]

  unfoldable pub mark :
      List (Text × Text) → S → List Text → List Text → Result StorageError (List Text)
  unfolding mark_shard
  mark file_to_shard s [] reachable = ok reachable
  mark file_to_shard s (h ∷ hs) reachable = do
    reachable' ← mark_shard file_to_shard h (get_shard store h s) reachable
    mark file_to_shard s hs reachable'

  -- One object of the sweeps: kept when live or young, otherwise deleted, its index entries first.
  unfoldable pub sweep_xorb :
      (Text → Bool)
      → (ℤ → Bool)
      → StoredObject
      → GcReport
      → AppState S
      → Result StorageError GcReport × AppState S
  sweep_xorb live young o report st =
      if live o.hash
      then (ok report, st)
      else if young o.last_modified_unix
      then (ok (record report { skipped_in_grace = report.skipped_in_grace + 1 }), st)
      else elim (remove_xorb st.chunk_index o.hash) [
        | err e ↦ (err e, st)
        | ok chunks ↦
            let (r, s) = delete_xorb store o.hash st.storage in
            (
              r
                  >> ok (record report {
                    deleted_xorbs = report.deleted_xorbs + 1;
                    freed_xorb_bytes = (report.freed_xorb_bytes + o.size) % u64_mod;
                  }),
              record { file_index = st.file_index; chunk_index = chunks; storage = s },
            )
      ]

  unfoldable pub sweep_shard :
      (Text → Bool)
      → (ℤ → Bool)
      → StoredObject
      → GcReport
      → AppState S
      → Result StorageError GcReport × AppState S
  sweep_shard live young o report st =
      if live o.hash
      then (ok report, st)
      else if young o.last_modified_unix
      then (ok (record report { skipped_in_grace = report.skipped_in_grace + 1 }), st)
      else let (r, s) = delete_shard store o.hash st.storage in
        (
          r
              >> ok (record report {
                deleted_shards = report.deleted_shards + 1;
                freed_shard_bytes = (report.freed_shard_bytes + o.size) % u64_mod;
              }),
          record st { storage = s },
        )

  -- A loop of a sweep ends at the first error, with what was deleted by then.
  unfoldable pub sweep :
      (StoredObject → GcReport → AppState S → Result StorageError GcReport × AppState S)
      → List StoredObject
      → GcReport
      → AppState S
      → Result StorageError GcReport × AppState S
  sweep step [] report st = (ok report, st)
  sweep step (o ∷ os) report st =
      let (r, st') = step o report st in after_step r st' (sweep step os)

  unfoldable pub sweep_listed :
      (StoredObject → GcReport → AppState S → Result StorageError GcReport × AppState S)
      → Result StorageError (List StoredObject)
      → GcReport
      → AppState S
      → Result StorageError GcReport × AppState S
  unfolding sweep
  sweep_listed step (err e) report st = (err e, st)
  sweep_listed step (ok objects) report st = sweep step objects report st

  unfoldable pub sweep_xorbs :
      (Text → Bool) → (ℤ → Bool) → GcReport → AppState S → Result StorageError GcReport × AppState S
  unfolding sweep_xorb sweep_listed
  sweep_xorbs live young report st =
      sweep_listed (sweep_xorb live young) (list_xorbs store st.storage) report st

  unfoldable pub sweep_shards :
      (Text → Bool) → (ℤ → Bool) → GcReport → AppState S → Result StorageError GcReport × AppState S
  unfolding sweep_shard sweep_listed
  sweep_shards live young report st =
      sweep_listed (sweep_shard live young) (list_shards store st.storage) report st

  unfoldable pub sweep_all :
      (Text → Bool)
      → (Text → Bool)
      → (ℤ → Bool)
      → GcReport
      → AppState S
      → Result StorageError GcReport × AppState S
  unfolding sweep_xorbs sweep_shards
  sweep_all live_xorb live_shard young report st =
      let (r, st') = sweep_xorbs live_xorb young report st in
      after_step r st' (sweep_shards live_shard young)

  -- The roots of a pass: the map of the files, and the shards and xorbs that it keeps.
  unfoldable pub file_to_shard : AppState S → List (Text × Text)
  file_to_shard st = collect_map (list_all st.file_index) []

  unfoldable pub live_shards : AppState S → List Text
  unfolding file_to_shard
  live_shards st = values (file_to_shard st)

  unfoldable pub reachable_xorbs : AppState S → Result StorageError (List Text)
  unfolding file_to_shard live_shards mark
  reachable_xorbs st = mark (file_to_shard st) st.storage (live_shards st) []

  abbrev default_report : AppState S → List Text → GcReport
  default_report st reachable = record {
    live_files = length (file_to_shard st);
    live_shards = length (live_shards st);
    live_xorbs = length reachable;
    deleted_xorbs = 0;
    freed_xorb_bytes = 0;
    deleted_shards = 0;
    freed_shard_bytes = 0;
    skipped_in_grace = 0;
  }

  -- The sweeps once the mark phase is over.
  unfoldable pub run_marked :
      ℕ
      → ℕ
      → AppState S
      → Result StorageError (List Text)
      → Result StorageError GcReport × AppState S
  unfolding sweep_all
  run_marked now_unix grace st (err e) = (err e, st)
  run_marked now_unix grace st (ok reachable) =
      sweep_all (λ h. member h reachable) (λ h. member h (live_shards st)) (in_grace now_unix grace)
        (default_report st reachable) st

  unfoldable pub run_gc : ℕ → ℕ → AppState S → Result StorageError GcReport × AppState S
  unfolding run_marked reachable_xorbs
  run_gc now_unix grace st = run_marked now_unix grace st (reachable_xorbs st)

  -- `POST /v1/gc`, after `RequireAdmin`.
  unfoldable pub post_gc :
      (grace_seconds min_grace_seconds : ℕ)
      → Option ℕ
      → ℕ
      → AppState S
      → Result AppError GcReport × AppState S
  unfolding run_gc
  post_gc grace_seconds min_grace_seconds params now_unix st =
      let grace : ℕ = elim params [ none ↦ grace_seconds | some g ↦ g ] in
      if ltb grace min_grace_seconds
      then (
        err (
            AppError.bad_request (
              codes "grace_seconds must be at least "
              ++ (decimal min_grace_seconds ++ codes " (gc.min_grace_seconds)"))),
        st,
      )
      else let (r, st') = run_gc now_unix grace st in (lift_storage r, st')
