-- ===== src/Gc/Sweep.antt =====
-- What a collection never deletes.
use openxet.Base.{
  Bool, Bool-cases, List, Result, [], ap, arith, err, inl, inr, ok, refl, true, ℤ, ◌∙◌, ◌∷◌, ◌≡◌,
  ◌≢◌,
}
use openxet.Text.{Text}
use openxet.Errors.{StorageError}
use openxet.Storage.{ObjectStore, StoredObject, get_xorb, get_shard, list_xorbs, list_shards}
use openxet.Storage.Blobs.{
  get_xorb-delete_xorb_other, get_shard-delete_xorb, get_shard-delete_shard_other,
  get_xorb-delete_shard,
}
use openxet.Gc.{
  GcReport, AppState, FileView, sweep, sweep_xorb, sweep_shard, sweep_listed, sweep_xorbs,
  sweep_shards, sweep_all, after_step,
}

module _ {S : Type 0} (store : ObjectStore S)
    (from_reader : Text → Result Text (List FileView)) where
  pub after_step_keeps :
      (P : AppState S → Type 0) (m : Result StorageError GcReport × AppState S)
      (next : GcReport → AppState S → Result StorageError GcReport × AppState S)
      → P m.1
      → ((r : GcReport) (t : AppState S) → P t → P (next r t).1)
      → P (after_step m.0 m.1 next).1
  after_step_keeps P (ok r, t) next p q = q r t p
  after_step_keeps P (err e, t) next p q = p

  -- A sweep whose every step keeps a property keeps it, whatever its outcome.
  sweep_keeps :
      (P : AppState S → Type 0)
      (step : StoredObject → GcReport → AppState S → Result StorageError GcReport × AppState S)
      → ((o : StoredObject) (report : GcReport) (st : AppState S) → P st → P (step o report st).1)
      → (os : List StoredObject) (report : GcReport) (st : AppState S) → P st
      → P (sweep store from_reader step os report st).1
  unfolding sweep
  sweep_keeps P step keeps [] report st p = p
  sweep_keeps P step keeps (o ∷ os) report st p =
      after_step_keeps P (step o report st) (sweep store from_reader step os) (keeps o report st p)
        (λ report' st' q. sweep_keeps P step keeps os report' st' q)

  pub sweep_listed_keeps :
      (P : AppState S → Type 0)
      (step : StoredObject → GcReport → AppState S → Result StorageError GcReport × AppState S)
      → ((o : StoredObject) (report : GcReport) (st : AppState S) → P st → P (step o report st).1)
      → (r : Result StorageError (List StoredObject)) (report : GcReport) (st : AppState S) → P st
      → P (sweep_listed store from_reader step r report st).1
  unfolding sweep_listed
  sweep_listed_keeps P step keeps (err e) report st p = p
  sweep_listed_keeps P step keeps (ok objects) report st p =
      sweep_keeps P step keeps objects report st p

  -- A xorb that is live stays readable, with the same answer.
  sweep_xorb-live :
      (live : Text → Bool) (young : ℤ → Bool) (h : Text)
      → live h ≡ true
      → (o : StoredObject) (report : GcReport) (st : AppState S)
      → get_xorb store h (sweep_xorb store from_reader live young o report st).1.storage
        ≡ get_xorb store h st.storage
  unfolding sweep_xorb
  sweep_xorb-live live young h l o report st = elim (Bool-cases (live o.hash)) [
    | inl e ↦ ground (arith, e)
    | inr e ↦
        let n : o.hash ≢ h = λ q. cc (ap live q, l, e) in
        let kept = get_xorb-delete_xorb_other store o.hash h st.storage n in ground (arith, kept)
  ]

  sweep_xorb-shard :
      (live : Text → Bool) (young : ℤ → Bool) (h : Text) (o : StoredObject) (report : GcReport)
      (st : AppState S)
      → get_shard store h (sweep_xorb store from_reader live young o report st).1.storage
        ≡ get_shard store h st.storage
  unfolding sweep_xorb
  sweep_xorb-shard live young h o report st =
      let kept = get_shard-delete_xorb store o.hash h st.storage in ground (arith, kept)

  sweep_shard-live :
      (live : Text → Bool) (young : ℤ → Bool) (h : Text)
      → live h ≡ true
      → (o : StoredObject) (report : GcReport) (st : AppState S)
      → get_shard store h (sweep_shard store from_reader live young o report st).1.storage
        ≡ get_shard store h st.storage
  unfolding sweep_shard
  sweep_shard-live live young h l o report st = elim (Bool-cases (live o.hash)) [
    | inl e ↦ ground (arith, e)
    | inr e ↦
        let n : o.hash ≢ h = λ q. cc (ap live q, l, e) in
        let kept = get_shard-delete_shard_other store o.hash h st.storage n in ground (arith, kept)
  ]

  pub sweep_shard-xorb :
      (live : Text → Bool) (young : ℤ → Bool) (h : Text) (o : StoredObject) (report : GcReport)
      (st : AppState S)
      → get_xorb store h (sweep_shard store from_reader live young o report st).1.storage
        ≡ get_xorb store h st.storage
  unfolding sweep_shard
  sweep_shard-xorb live young h o report st =
      let kept = get_xorb-delete_shard store o.hash h st.storage in ground (arith, kept)

  -- Both sweeps keep the live xorbs and the live shards.
  pub sweep_all-xorb :
      (live_xorb live_shard : Text → Bool) (young : ℤ → Bool) (report : GcReport) (st : AppState S)
      (h : Text)
      → live_xorb h ≡ true
      → get_xorb store h
          (sweep_all store from_reader live_xorb live_shard young report st).1.storage
        ≡ get_xorb store h st.storage
  unfolding sweep_all sweep_xorbs sweep_shards
  sweep_all-xorb live_xorb live_shard young report st h l =
      let Kept : AppState S → Type 0 =
        λ t. get_xorb store h t.storage ≡ get_xorb store h st.storage in
      after_step_keeps Kept (sweep_xorbs store from_reader live_xorb young report st)
        (sweep_shards store from_reader live_shard young)
        (sweep_listed_keeps Kept (sweep_xorb store from_reader live_xorb young)
          (λ o r t p. sweep_xorb-live live_xorb young h l o r t ∙ p) (list_xorbs store st.storage)
          report st refl)
        (λ r t p.
          sweep_listed_keeps Kept (sweep_shard store from_reader live_shard young)
            (λ o r' t' p'. sweep_shard-xorb live_shard young h o r' t' ∙ p')
            (list_shards store t.storage) r t p)

  pub sweep_all-shard :
      (live_xorb live_shard : Text → Bool) (young : ℤ → Bool) (report : GcReport) (st : AppState S)
      (h : Text)
      → live_shard h ≡ true
      → get_shard store h
          (sweep_all store from_reader live_xorb live_shard young report st).1.storage
        ≡ get_shard store h st.storage
  unfolding sweep_all sweep_xorbs sweep_shards
  sweep_all-shard live_xorb live_shard young report st h l =
      let Kept : AppState S → Type 0 =
        λ t. get_shard store h t.storage ≡ get_shard store h st.storage in
      after_step_keeps Kept (sweep_xorbs store from_reader live_xorb young report st)
        (sweep_shards store from_reader live_shard young)
        (sweep_listed_keeps Kept (sweep_xorb store from_reader live_xorb young)
          (λ o r t p. sweep_xorb-shard live_xorb young h o r t ∙ p) (list_xorbs store st.storage)
          report st refl)
        (λ r t p.
          sweep_listed_keeps Kept (sweep_shard store from_reader live_shard young)
            (λ o r' t' p'. sweep_shard-live live_shard young h l o r' t' ∙ p')
            (list_shards store t.storage) r t p)
