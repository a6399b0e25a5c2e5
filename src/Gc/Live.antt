-- ===== src/Gc/Live.antt =====
-- Files survive a collection. `run_gc` with everything that it goes through.
use openxet.Base.{Any, List, Result, [], err, ok, refl, some, true, ℕ, ◌∙◌, ◌≡◌}
use openxet.Text.{Text}
use openxet.Errors.{StorageError}
use openxet.Storage.{ObjectStore, get_xorb, get_shard}
use openxet.Gc.{
  AppState, FileView, member, lookup, file_to_shard, live_shards, reachable_xorbs, run_gc,
  run_marked, default_report, in_grace,
}
use openxet.Gc.Sweep.{sweep_all-xorb, sweep_all-shard}
use openxet.Gc.Mark.{member-values, mark-member}

module _ {S : Type 0} (store : ObjectStore S)
    (from_reader : Text → Result Text (List FileView)) where
  run_marked-shard :
      (now grace : ℕ) (st : AppState S) (h : Text) (r : Result StorageError (List Text))
      → member h (live_shards store from_reader st) ≡ true
      → get_shard store h (run_marked store from_reader now grace st r).1.storage
        ≡ get_shard store h st.storage
  unfolding run_marked
  run_marked-shard now grace st h (err e) l = refl
  run_marked-shard now grace st h (ok reachable) l =
      sweep_all-shard store from_reader (λ x. member x reachable)
        (λ x. member x (live_shards store from_reader st)) (in_grace now grace)
        (default_report store from_reader st reachable) st h l

  run_marked-xorb :
      (now grace : ℕ) (st : AppState S) (h : Text) (r : Result StorageError (List Text))
      → ((reachable : List Text) → r ≡ ok reachable → member h reachable ≡ true)
      → get_xorb store h (run_marked store from_reader now grace st r).1.storage
        ≡ get_xorb store h st.storage
  unfolding run_marked
  run_marked-xorb now grace st h (err e) l = refl
  run_marked-xorb now grace st h (ok reachable) l =
      sweep_all-xorb store from_reader (λ x. member x reachable)
        (λ x. member x (live_shards store from_reader st)) (in_grace now grace)
        (default_report store from_reader st reachable) st h (l reachable refl)

  -- A pass never harms a file: whatever the time, the grace period and the outcome of the pass (also
  -- one that an error cuts short), the shard that the index names for the file and each xorb
  -- that the file's entry in that shard names answer after the pass what they answered before.
  pub run_gc-file_kept :
      (now grace : ℕ) (st : AppState S) (shard bytes xorb : Text) (files : List FileView)
      (view : FileView)
      → lookup view.file_hash (file_to_shard store from_reader st) ≡ some shard
      → get_shard store shard st.storage ≡ ok bytes
      → from_reader bytes ≡ ok files
      → Any (λ f. f ≡ view) files
      → member xorb view.entries ≡ true
      → (get_shard store shard (run_gc store from_reader now grace st).1.storage ≡ ok bytes)
        × (get_xorb store xorb (run_gc store from_reader now grace st).1.storage
            ≡ get_xorb store xorb st.storage)
  unfolding run_gc live_shards reachable_xorbs
  run_gc-file_kept now grace st shard bytes xorb files view l g f a e =
      let live = member-values view.file_hash shard (file_to_shard store from_reader st) l in
      (
        run_marked-shard now grace st shard (reachable_xorbs store from_reader st) live ∙ g,
        run_marked-xorb now grace st xorb (reachable_xorbs store from_reader st) (λ reachable r.
            mark-member store from_reader (file_to_shard store from_reader st) st.storage shard xorb
              bytes files view g f l a e (live_shards store from_reader st) [] reachable live r),
      )
