-- ===== src/Gc/Grace.antt =====
-- Uploads in flight: objects younger than the grace period.
use openxet.Base.{
  pos, negsuc, All, Bool, Bool-cases, List, Result, [], arith, err, inl, inr, ok, refl, true, ℕ, ℤ,
  ◌+◌, ◌<◌, ◌^◌, ◌∙◌, ◌∷◌, ◌≡◌, ◌≢◌,
}
use openxet.Text.{Text}
use openxet.Errors.{StorageError}
use openxet.Storage.{ObjectStore, StoredObject, get_xorb, list_xorbs, list_shards}
use openxet.Storage.Blobs.{get_xorb-delete_xorb_other}
use openxet.Gc.{
  GcReport, AppState, FileView, member, in_grace, sweep, sweep_listed, sweep_xorb, sweep_xorbs,
  sweep_shard, sweep_shards, sweep_all, run_marked, run_gc, reachable_xorbs, live_shards,
  default_report,
}
use openxet.Gc.Sweep.{after_step_keeps, sweep_listed_keeps, sweep_shard-xorb}

-- Every listed object of that name is young.
abbrev pub Young : (ℤ → Bool) → Text → List StoredObject → Type 0
Young young h objects = All (λ o. o.hash ≡ h → young o.last_modified_unix ≡ true) objects

-- Less than the grace period lies between a time and now.
abbrev pub IsRecent : ℕ → ℕ → ℤ → Type 0
IsRecent now grace (pos t) = now < t + grace
IsRecent now grace (negsuc n) = now + n + 1 < grace

in_grace_of_time :
    (now grace : ℕ) (t : ℤ) → grace < 2 ^ 63 → IsRecent now grace t → in_grace now grace t ≡ true
unfolding in_grace
in_grace_of_time now grace (pos t) small h = ground arith
in_grace_of_time now grace (negsuc n) small h = ground arith

Young-of_times :
    (now grace : ℕ) (h : Text) (objects : List StoredObject)
    → grace < 2 ^ 63
    → All (λ o. o.hash ≡ h → IsRecent now grace o.last_modified_unix) objects
    → Young (in_grace now grace) h objects
Young-of_times now grace h [] small y = tt
Young-of_times now grace h (o ∷ os) small (y, ys) = (
  λ q. in_grace_of_time now grace o.last_modified_unix small (y q),
  Young-of_times now grace h os small ys,
)

module _ {S : Type 0} (store : ObjectStore S)
    (from_reader : Text → Result Text (List FileView)) where
  sweep_xorb-young :
      (live : Text → Bool) (young : ℤ → Bool) (h : Text) (o : StoredObject)
      → (o.hash ≡ h → young o.last_modified_unix ≡ true)
      → (report : GcReport) (st : AppState S)
      → get_xorb store h (sweep_xorb store from_reader live young o report st).1.storage
        ≡ get_xorb store h st.storage
  unfolding sweep_xorb
  sweep_xorb-young live young h o y report st = elim (Bool-cases (young o.last_modified_unix)) [
    | inl e ↦ ground (arith, e)
    | inr e ↦
        let n : o.hash ≢ h = λ q. cc (y q, e) in
        let kept = get_xorb-delete_xorb_other store o.hash h st.storage n in ground (arith, kept)
  ]

  sweep-Young :
      (live : Text → Bool) (young : ℤ → Bool) (h : Text) (objects : List StoredObject)
      → Young young h objects
      → (report : GcReport) (st : AppState S)
      → get_xorb store h
          (sweep store from_reader
            (sweep_xorb store from_reader live young)
            objects
            report
            st).1.storage
        ≡ get_xorb store h st.storage
  unfolding sweep
  sweep-Young live young h [] y report st = refl
  sweep-Young live young h (o ∷ os) (y, ys) report st =
      after_step_keeps store from_reader
        (λ t. get_xorb store h t.storage ≡ get_xorb store h st.storage)
        (sweep_xorb store from_reader live young o report st)
        (sweep store from_reader (sweep_xorb store from_reader live young) os)
        (sweep_xorb-young live young h o y report st)
        (λ r t p. sweep-Young live young h os ys r t ∙ p)

  sweep_all-Young :
      (live_xorb live_shard : Text → Bool) (young : ℤ → Bool) (h : Text)
      (objects : List StoredObject) (report : GcReport) (st : AppState S)
      → list_xorbs store st.storage ≡ ok objects
      → Young young h objects
      → get_xorb store h
          (sweep_all store from_reader live_xorb live_shard young report st).1.storage
        ≡ get_xorb store h st.storage
  unfolding sweep_all sweep_xorbs sweep_shards sweep_listed
  sweep_all-Young live_xorb live_shard young h objects report st e y =
      let Kept : AppState S → Type 0 =
        λ t. get_xorb store h t.storage ≡ get_xorb store h st.storage in
      after_step_keeps store from_reader Kept
        (sweep_xorbs store from_reader live_xorb young report st)
        (sweep_shards store from_reader live_shard young)
        (rw e (sweep-Young live_xorb young h objects y report st))
        (λ r t p.
          sweep_listed_keeps store from_reader Kept (sweep_shard store from_reader live_shard young)
            (λ o r' t' p'. sweep_shard-xorb store from_reader live_shard young h o r' t' ∙ p')
            (list_shards store t.storage) r t p)

  run_marked-Young :
      (now grace : ℕ) (st : AppState S) (h : Text) (objects : List StoredObject)
      (r : Result StorageError (List Text))
      → list_xorbs store st.storage ≡ ok objects
      → Young (in_grace now grace) h objects
      → get_xorb store h (run_marked store from_reader now grace st r).1.storage
        ≡ get_xorb store h st.storage
  unfolding run_marked
  run_marked-Young now grace st h objects (err e) l y = refl
  run_marked-Young now grace st h objects (ok reachable) l y =
      sweep_all-Young (λ x. member x reachable) (λ x. member x (live_shards store from_reader st))
        (in_grace now grace) h objects (default_report store from_reader st reachable) st l y

  -- A pass leaves alone each xorb whose listed objects are all younger than the grace period, of less
  -- than 2 ^ 63 seconds, whether or not a file refers to it: an upload in flight is not deleted.
  pub run_gc-young_kept :
      (now grace : ℕ) (st : AppState S) (h : Text) (objects : List StoredObject)
      → grace < 2 ^ 63
      → list_xorbs store st.storage ≡ ok objects
      → All (λ o. o.hash ≡ h → IsRecent now grace o.last_modified_unix) objects
      → get_xorb store h (run_gc store from_reader now grace st).1.storage
        ≡ get_xorb store h st.storage
  unfolding run_gc
  run_gc-young_kept now grace st h objects small l y =
      run_marked-Young now grace st h objects (reachable_xorbs store from_reader st) l
        (Young-of_times now grace h objects small y)
