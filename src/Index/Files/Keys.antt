-- ===== src/Index/Files/Keys.antt =====
-- The primary keys of the file tables, which every write keeps, and what a lookup sees of a write.
use openxet.Base.{
  All, All-keep, Bool, Bool-cases, List, Result, Result-cases, [], arith, err, false, if◌then◌else◌,
  inl, inr, keep, keep-false, keep-true, none, not, ok, some, sym, ◌&&◌, ◌>>◌, ◌∙◌, ◌∷◌, ◌≡◌, ◌≢◌,
}
use mathlib.Core.Bool.{false≢true}
use openxet.Text.{Text, eq_text, eq_text_iff}
use openxet.Errors.{StorageError}
use openxet.Hash.{validate_hash, validate_hash_iff, IsHash}
use openxet.Sql.{order_by}
use openxet.Sql.Order.{Distinct, keep-Distinct}
use openxet.Index.{OwnershipClaim}
use openxet.Index.Files.{
  FileRow, OwnershipRow, FileIndex, select_shard, upsert_file, upsert_claim, is_claim, get, put,
  remove, claim, release, file_claims,
}

-- No two claims are of one owner on one file.
abbrev pub DistinctClaims : List OwnershipRow → Type 0
DistinctClaims [] = Unit {0}
DistinctClaims (o ∷ os) =
    All (λ p. is_claim o.owner_id o.file_hash p ≡ false) os × DistinctClaims os

pub record IsValid (idx : FileIndex) : Type 0 where
  pub files : Distinct (λ (r : FileRow). r.file_hash) idx.file_index
  pub hashes : All (λ (r : FileRow). IsHash r.file_hash × IsHash r.shard_hash) idx.file_index
  pub claims : DistinctClaims idx.file_ownership
  pub claimed : All (λ (o : OwnershipRow). IsHash o.file_hash) idx.file_ownership

select_shard-upsert_file :
    (h g s : Text) (rs : List FileRow)
    → select_shard g (upsert_file h s rs) ≡ (if eq_text h g then some s else select_shard g rs)
unfolding select_shard upsert_file
select_shard-upsert_file h g s [] = ground arith
select_shard-upsert_file h g s (r ∷ rs) = ground (
  arith,
  select_shard-upsert_file h g s rs,
  eq_text_iff r.file_hash h,
  eq_text_iff r.file_hash g,
  eq_text_iff h g,
)

select_shard-keep :
    (h g : Text) (rs : List FileRow)
    → select_shard g (keep (λ r. not (eq_text r.file_hash h)) rs)
      ≡ (if eq_text h g then none else select_shard g rs)
unfolding select_shard keep
select_shard-keep h g [] = ground arith
select_shard-keep h g (r ∷ rs) = ground (
  arith,
  select_shard-keep h g rs,
  eq_text_iff r.file_hash h,
  eq_text_iff r.file_hash g,
  eq_text_iff h g,
)

-- After a file was put, a lookup finds the new shard under its hash, and what it found before under
-- any other hash.
pub get-put :
    (idx idx' : FileIndex) (h s g : Text)
    → put idx h s ≡ ok idx'
    → get idx' g ≡ (if eq_text h g then (validate_hash g >> ok (some s)) else get idx g)
unfolding get put
get-put idx idx' h s g e = ground (arith, select_shard-upsert_file h g s idx.file_index)

-- The claims on one file, before they are ordered.
abbrev on_file : Text → List OwnershipRow → List OwnershipRow
on_file g os = keep (λ o. eq_text o.file_hash g) os

claims_of-keep :
    (h g : Text) (os : List OwnershipRow)
    → on_file g (keep (λ o. not (eq_text o.file_hash h)) os)
      ≡ (if eq_text h g then [] else on_file g os)
unfolding keep
claims_of-keep h g [] = ground arith
claims_of-keep h g (o ∷ os) = ground (
  arith,
  claims_of-keep h g os,
  eq_text_iff o.file_hash h,
  eq_text_iff o.file_hash g,
  eq_text_iff h g,
)

-- After a file was removed, a lookup finds nothing under its hash and nobody claims it; all other
-- files keep their shard and their claims.
pub get-remove :
    (idx idx' : FileIndex) (h g : Text)
    → remove idx h ≡ ok idx'
    → (get idx' g ≡ (if eq_text h g then (validate_hash g >> ok none) else get idx g))
      × (file_claims idx' g
          ≡ (if eq_text h g then (validate_hash g >> ok []) else file_claims idx g))
unfolding get remove file_claims order_by
get-remove idx idx' h g e = (
  ground (arith, select_shard-keep h g idx.file_index),
  ground (arith, claims_of-keep h g idx.file_ownership),
)

module _ (P : Text → Type 0) where
  upsert_file-All :
      (h s : Text) (rs : List FileRow)
      → P h
      → All (λ r. P r.file_hash) rs
      → All (λ r. P r.file_hash) (upsert_file h s rs)
  unfolding upsert_file
  upsert_file-All h s [] p a = (p, tt)
  upsert_file-All h s (r ∷ rs) p (a, as') = ground (arith, upsert_file-All h s rs p as')

upsert_file-IsHash :
    (h s : Text) (rs : List FileRow)
    → IsHash h
    → IsHash s
    → All (λ r. IsHash r.file_hash × IsHash r.shard_hash) rs
    → All (λ r. IsHash r.file_hash × IsHash r.shard_hash) (upsert_file h s rs)
unfolding upsert_file
upsert_file-IsHash h s [] p q a = ((p, q), tt)
upsert_file-IsHash h s (r ∷ rs) p q (a, as') = elim (Bool-cases (eq_text r.file_hash h)) [
  | inl t ↦ rw (t, upsert_file) ((a.0, q), as')
  | inr f ↦ rw (f, upsert_file) (a, upsert_file-IsHash h s rs p q as')
]

upsert_claim-IsHash :
    (owner h : Text) (c : OwnershipClaim) (os : List OwnershipRow)
    → IsHash h
    → All (λ o. IsHash o.file_hash) os
    → All (λ o. IsHash o.file_hash) (upsert_claim owner h c os)
unfolding upsert_claim
upsert_claim-IsHash owner h c [] p a = (p, tt)
upsert_claim-IsHash owner h c (o ∷ os) p (a, as') = elim (Bool-cases (is_claim owner h o)) [
  | inl t ↦ rw (t, upsert_claim) (a, as')
  | inr f ↦ rw (f, upsert_claim) (a, upsert_claim-IsHash owner h c os p as')
]

upsert_file-Distinct :
    (h s : Text) (rs : List FileRow)
    → Distinct (λ (r : FileRow). r.file_hash) rs
    → Distinct (λ (r : FileRow). r.file_hash) (upsert_file h s rs)
unfolding upsert_file
upsert_file-Distinct h s [] d = (tt, tt)
upsert_file-Distinct h s (r ∷ rs) (d, ds) =
    let other : eq_text r.file_hash h ≡ false → r.file_hash ≢ h =
      λ f e. false≢true (sym f ∙ (eq_text_iff r.file_hash h).1 e) in
    ground
      (arith, upsert_file-Distinct h s rs ds, other, upsert_file-All (λ k. r.file_hash ≢ k) h s rs)

keep-DistinctClaims :
    (p : OwnershipRow → Bool) (os : List OwnershipRow)
    → DistinctClaims os
    → DistinctClaims (keep p os)
keep-DistinctClaims p [] d = unfold keep in tt
keep-DistinctClaims p (o ∷ os) (d, ds) = elim (Bool-cases (p o)) [
  | inl t ↦ rw (keep-true p o os t) (
    All-keep (λ q. is_claim o.owner_id o.file_hash q ≡ false) p os d,
    keep-DistinctClaims p os ds,
  )
  | inr f ↦ rw (keep-false p o os f) (keep-DistinctClaims p os ds)
]

upsert_claim-All :
    (u g owner h : Text) (c : OwnershipClaim) (os : List OwnershipRow)
    → (eq_text h g && eq_text owner u) ≡ false
    → All (λ q. is_claim u g q ≡ false) os
    → All (λ q. is_claim u g q ≡ false) (upsert_claim owner h c os)
unfolding upsert_claim
upsert_claim-All u g owner h c [] p a = (p, tt)
upsert_claim-All u g owner h c (o ∷ os) p (a, as') =
    ground (arith, upsert_claim-All u g owner h c os p as')

upsert_claim-DistinctClaims :
    (owner h : Text) (c : OwnershipClaim) (os : List OwnershipRow)
    → DistinctClaims os
    → DistinctClaims (upsert_claim owner h c os)
unfolding upsert_claim
upsert_claim-DistinctClaims owner h c [] d = (tt, tt)
upsert_claim-DistinctClaims owner h c (o ∷ os) (d, ds) = ground (
  arith,
  upsert_claim-DistinctClaims owner h c os ds,
  upsert_claim-All o.owner_id o.file_hash owner h c os,
  eq_text_iff o.file_hash h,
  eq_text_iff h o.file_hash,
  eq_text_iff o.owner_id owner,
  eq_text_iff owner o.owner_id,
)

-- The writes of the trait.
pub data Write : Type 0 where
  puts : (file_hash shard_hash : Text) → Write
  removes : (file_hash : Text) → Write
  claims : (owner file_hash : Text) → OwnershipClaim → Write
  releases : (owner file_hash : Text) → Write

abbrev after {ℓ} : {A : Type ℓ} → FileIndex → (A → FileIndex) → Result StorageError A → FileIndex
after idx f (ok a) = f a
after idx f (err e) = idx

-- A write that fails leaves the tables as they were.
pub step : FileIndex → Write → FileIndex
step idx (puts h s) = after idx (λ i. i) (put idx h s)
step idx (removes h) = after idx (λ i. i) (remove idx h)
step idx (claims owner h c) = after idx (λ i. i) (claim idx owner h c)
step idx (releases owner h) = after idx (λ r. r.0) (release idx owner h)

pub run : FileIndex → List Write → FileIndex
run idx [] = idx
run idx (w ∷ ws) = run (step idx w) ws

abbrev pub empty : FileIndex
empty = record { file_index = []; file_ownership = [] }

validated : (h : Text) (u : Unit {0}) → validate_hash h ≡ ok u → IsHash h
validated h u e = (validate_hash_iff h).0 e

module _ {idx : FileIndex} (v : IsValid idx) where
  put-IsValid : (h s : Text) → IsValid (step idx (puts h s))
  unfolding step put
  put-IsValid h s = elim (Result-cases (validate_hash h)) [
    | inr (e, bad) ↦ rw bad v
    | inl (u, good) ↦ elim (Result-cases (validate_hash s)) [
      | inr (e, bad) ↦ rw (good, bad) v
      | inl (w, fine) ↦
          rw (good, fine)
            (record {
              files = upsert_file-Distinct h s idx.file_index v.files;
              hashes =
                  upsert_file-IsHash h s idx.file_index (validated h u good) (validated s w fine)
                    v.hashes;
              claims = v.claims;
              claimed = v.claimed;
            })
    ]
  ]

  remove-IsValid : (h : Text) → IsValid (step idx (removes h))
  unfolding step remove
  remove-IsValid h = elim (Result-cases (validate_hash h)) [
    | inr (e, bad) ↦ rw bad v
    | inl (u, good) ↦ rw good (record {
      files = keep-Distinct (λ r. r.file_hash) _ idx.file_index v.files;
      hashes = All-keep (λ r. IsHash r.file_hash × IsHash r.shard_hash) _ idx.file_index v.hashes;
      claims = keep-DistinctClaims _ idx.file_ownership v.claims;
      claimed = All-keep (λ o. IsHash o.file_hash) _ idx.file_ownership v.claimed;
    })
  ]

  claim-IsValid : (owner h : Text) (c : OwnershipClaim) → IsValid (step idx (claims owner h c))
  unfolding step claim
  claim-IsValid owner h c = elim (Result-cases (validate_hash h)) [
    | inr (e, bad) ↦ rw bad v
    | inl (u, good) ↦ rw good (record {
      files = v.files;
      hashes = v.hashes;
      claims = upsert_claim-DistinctClaims owner h c idx.file_ownership v.claims;
      claimed = upsert_claim-IsHash owner h c idx.file_ownership (validated h u good) v.claimed;
    })
  ]

  release-IsValid : (owner h : Text) → IsValid (step idx (releases owner h))
  unfolding step release
  release-IsValid owner h = elim (Result-cases (validate_hash h)) [
    | inr (e, bad) ↦ rw bad v
    | inl (u, good) ↦ rw good (record {
      files = v.files;
      hashes = v.hashes;
      claims = keep-DistinctClaims _ idx.file_ownership v.claims;
      claimed = All-keep (λ o. IsHash o.file_hash) _ idx.file_ownership v.claimed;
    })
  ]

pub step-IsValid : (idx : FileIndex) (w : Write) → IsValid idx → IsValid (step idx w)
step-IsValid idx (puts h s) v = put-IsValid v h s
step-IsValid idx (removes h) v = remove-IsValid v h
step-IsValid idx (claims owner h c) v = claim-IsValid v owner h c
step-IsValid idx (releases owner h) v = release-IsValid v owner h

run-IsValid : (idx : FileIndex) (ws : List Write) → IsValid idx → IsValid (run idx ws)
unfolding run
run-IsValid idx [] v = v
run-IsValid idx (w ∷ ws) v = run-IsValid (step idx w) ws (step-IsValid idx w v)

-- After any sequence of writes, failed ones among them, no file has two rows, the file hash and the
-- shard hash of each row and the file hash of each claim are 64 lowercase hex digits, and no owner
-- holds two claims on one file.
pub run-empty-IsValid : (ws : List Write) → IsValid (run empty ws)
run-empty-IsValid ws =
    run-IsValid empty ws (record { files = tt; hashes = tt; claims = tt; claimed = tt })
