-- ===== src/Storage/Blobs.antt =====
-- What the backend keeps: xorbs and shards are apart, and written once.
use openxet.Base.{
  Result, Result-cases, [], ap, arith, err, false, inl, inr, ok, refl, subst, sym, true, ℕ, ◌++◌,
  ◌∷◌, ◌≡◌, ◌≢◌,
}
use openxet.Text.{Text, codes, strip_prefix, strip_prefix-append}
use openxet.Storage.{
  ObjectStore, ObjectError, xorb_path, shard_path, get_xorb, get_shard, put_xorb, put_at,
  delete_xorb, delete_shard, delete_ignoring_missing, StorageError, ignore_missing, validate_hash,
}

first_byte : Text → ℕ
first_byte [] = 0
first_byte (b ∷ s) = b

append_left_cancel : (p s t : Text) → (p ++ s) ≡ (p ++ t) → s ≡ t
append_left_cancel p s t e =
    cc (strip_prefix-append p s, strip_prefix-append p t, ap (strip_prefix p) e)

pub xorb_path-ne : (g h : Text) → g ≢ h → xorb_path g ≢ xorb_path h
unfolding xorb_path
xorb_path-ne g h n e = n (append_left_cancel (codes "xorbs/default/") g h e)

pub shard_path-ne : (g h : Text) → g ≢ h → shard_path g ≢ shard_path h
unfolding shard_path
shard_path-ne g h n e = n (append_left_cancel (codes "shards/") g h e)

pub xorb_path-ne-shard_path : (g h : Text) → xorb_path g ≢ shard_path h
unfolding xorb_path shard_path first_byte
xorb_path-ne-shard_path g h e =
    let n : ◌≡◌ {A = ℕ} 120 115 = ap first_byte e in absurd (omega arith)

module _ {S : Type 0} (store : ObjectStore S) where
  -- Deleting one object leaves the others as they are, on every outcome.
  delete_ignoring_missing-other :
      (p q : Text) (s : S)
      → p ≢ q
      → store.get q (delete_ignoring_missing store p s).1 ≡ store.get q s
  unfolding delete_ignoring_missing
  delete_ignoring_missing-other p q s n = store.get-delete_other p q s n

  delete_ignoring_missing-gone :
      (p : Text) (s t : S)
      → delete_ignoring_missing store p s ≡ (ok tt, t)
      → store.get p t ≡ err (ObjectError.not_found p)
  unfolding delete_ignoring_missing
  delete_ignoring_missing-gone p s t h = gone (store.delete p s).0 (store.delete p s).1 refl h
    where
      gone :
          (r : Result ObjectError (Unit {0})) (u : S)
          → store.delete p s ≡ (r, u)
          → ◌≡◌ {A = Result StorageError (Unit {0}) × S} (ignore_missing r, u) (ok tt, t)
          → store.get p t ≡ err (ObjectError.not_found p)
      gone (ok x) u d e =
          subst (λ v. store.get p v ≡ err (ObjectError.not_found p)) (ap (λ y. y.1) e)
            (store.get-delete p s u d)
      gone (err (ObjectError.not_found q)) u d e =
          subst (λ v. store.get p v ≡ err (ObjectError.not_found p)) (ap (λ y. y.1) e)
            (store.get-delete_missing p q s u d)
      gone (err (ObjectError.other m)) u d e = cc

  pub get_xorb-delete_xorb_other :
      (g h : Text) (s : S) → g ≢ h → get_xorb store h (delete_xorb store g s).1 ≡ get_xorb store h s
  unfolding get_xorb delete_xorb
  get_xorb-delete_xorb_other g h s n =
      let kept = delete_ignoring_missing-other (xorb_path g) (xorb_path h) s (xorb_path-ne g h n) in
      ground (arith, kept)

  pub get_shard-delete_xorb :
      (g h : Text) (s : S) → get_shard store h (delete_xorb store g s).1 ≡ get_shard store h s
  unfolding get_shard delete_xorb
  get_shard-delete_xorb g h s =
      let kept =
        delete_ignoring_missing-other (xorb_path g) (shard_path h) s
          (xorb_path-ne-shard_path g h) in
      ground (arith, kept)

  pub get_shard-delete_shard_other :
      (g h : Text) (s : S)
      → g ≢ h
      → get_shard store h (delete_shard store g s).1 ≡ get_shard store h s
  unfolding get_shard delete_shard
  get_shard-delete_shard_other g h s n =
      let kept =
        delete_ignoring_missing-other (shard_path g) (shard_path h) s (shard_path-ne g h n) in
      ground (arith, kept)

  pub get_xorb-delete_shard :
      (g h : Text) (s : S) → get_xorb store h (delete_shard store g s).1 ≡ get_xorb store h s
  unfolding get_xorb delete_shard
  get_xorb-delete_shard g h s =
      let kept =
        delete_ignoring_missing-other (shard_path g) (xorb_path h) s
          (λ e. xorb_path-ne-shard_path h g (sym e)) in
      ground (arith, kept)

  -- After a deletion that succeeds, whether or not the xorb was there, reading it answers that it is
  -- not found.
  pub get_xorb-delete_xorb :
      (h : Text) (s t : S)
      → delete_xorb store h s ≡ (ok tt, t)
      → get_xorb store h t ≡ err (StorageError.not_found (xorb_path h))
  unfolding get_xorb delete_xorb
  get_xorb-delete_xorb h s t e = elim (Result-cases (validate_hash h)) [
    | inl (u, v) ↦
        let gone = delete_ignoring_missing-gone (xorb_path h) s t (rw (v, delete_xorb) at e) in
        rw (v, gone) refl
    | inr (x, v) ↦ ground (arith, v, e)
  ]

  -- A xorb that was written reads back, and a second write of the same hash, whatever its
  -- bytes, is answered `false` and changes nothing.
  pub put_xorb-get_xorb :
      (h bytes other : Text) (s t : S)
      → put_xorb store h bytes s ≡ (ok true, t)
      → (get_xorb store h t ≡ ok bytes) × (put_xorb store h other t ≡ (ok false, t))
  unfolding get_xorb put_xorb put_at
  put_xorb-get_xorb h bytes other s t e =
      let written = store.get-put (xorb_path h) bytes s t in
      let there = store.head-put (xorb_path h) bytes s t in grind (arith, written, there)
