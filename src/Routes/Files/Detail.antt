-- ===== src/Routes/Files/Detail.antt =====
-- The detail of one file. Source: `get_file` of crates/server/src/routes/files.rs. The parser of
-- stored shards is the parameter `from_reader`; a `BTreeSet` is a sorted list of its elements.
use openxet.Base.{
  >>=-eq-ok, All, Bool-cases, List, Result, [], err, false, if◌then◌else◌, inl, inr, keep,
  keep-false, keep-true, ok, ok-injective, ok_or, refl, subst, sym, ℕ, ◌++◌, ◌>>=◌, ◌>>◌, ◌∷◌, ◌≡◌,
}
use openxet.Text.{eq_text_iff, Text, codes, eq_text}
use openxet.Errors.{AppError, lift_storage}
use openxet.Hash.{validate_hash}
use openxet.Auth.{Claims, admin, owner, satisfies}
use openxet.Sql.{order_by}
use openxet.Storage.{ObjectStore, get_shard}
use openxet.Index.{OwnerClaim}
use openxet.Index.Files.{file_claims}
use openxet.Index.Files as Index
use openxet.Gc.{AppState, insert_set}
use openxet.Routes.Files.{authorize_file_read}
use openxet.Routes.Shard.{ShardEntry, ShardFile}

record FileDetail : Type 0 where
  file_hash : Text
  shard_hash : Text
  logical_bytes : ℕ
  owners : List OwnerClaim
  xorbs : List Text

first_bytes : List OwnerClaim → ℕ
first_bytes [] = 0
first_bytes (c ∷ cs) = c.logical_bytes

-- All claims for an admin, and the caller's own otherwise.
shown_owners : Claims → List OwnerClaim → List OwnerClaim
shown_owners claims owners =
    if satisfies claims.scope admin
    then owners
    else keep (λ c. eq_text c.owner (owner claims)) owners

entry_xorbs : List ShardEntry → List Text → List Text
entry_xorbs [] xorbs = xorbs
entry_xorbs (e ∷ es) xorbs = entry_xorbs es (insert_set e.xorb_hash xorbs)

file_xorbs : Text → List ShardFile → List Text → List Text
unfolding entry_xorbs
file_xorbs file_id [] xorbs = xorbs
file_xorbs file_id (f ∷ fs) xorbs =
    if eq_text f.file_hash file_id
    then file_xorbs file_id fs (entry_xorbs f.entries xorbs)
    else file_xorbs file_id fs xorbs

corrupt_stored : Result Text (List ShardFile) → Result AppError (List ShardFile)
corrupt_stored (ok files) = ok files
corrupt_stored (err e) = err (AppError.internal (codes "corrupt stored shard: " ++ e))

module _ {S : Type 0} (store : ObjectStore S)
    (from_reader : Text → Result Text (List ShardFile)) where
  get_file : AppState S → Claims → Text → Result AppError FileDetail
  unfolding first_bytes shown_owners file_xorbs corrupt_stored
  get_file st claims file_id = do
    lift_storage (validate_hash file_id)
    authorize_file_read st.file_index claims file_id
    found ← lift_storage (Index.get st.file_index file_id)
    shard_hash ← ok_or found (AppError.not_found (codes "file not indexed: " ++ file_id))
    owners ← lift_storage (file_claims st.file_index file_id)
    bytes ← lift_storage (get_shard store shard_hash st.storage)
    files ← corrupt_stored (from_reader bytes)
    ok (record {
      file_hash = file_id;
      shard_hash = shard_hash;
      logical_bytes = first_bytes owners;
      owners = shown_owners claims owners;
      xorbs = order_by (λ x. x) (file_xorbs file_id files []);
    })

  keep-own :
      (who : Text) (cs : List OwnerClaim)
      → All (λ c. c.owner ≡ who) (keep (λ c. eq_text c.owner who) cs)
  keep-own who [] = unfold keep in tt
  keep-own who (c ∷ cs) = elim (Bool-cases (eq_text c.owner who)) [
    | inl t ↦
        subst (λ (l : List OwnerClaim). All (λ d. d.owner ≡ who) l)
          (sym (keep-true (λ (d : OwnerClaim). eq_text d.owner who) c cs t))
          ((eq_text_iff c.owner who).0 t, keep-own who cs)
    | inr f ↦
        subst (λ (l : List OwnerClaim). All (λ d. d.owner ≡ who) l)
          (sym (keep-false (λ (d : OwnerClaim). eq_text d.owner who) c cs f)) (keep-own who cs)
  ]

  shown_owners-own :
      (claims : Claims) (owners : List OwnerClaim)
      → satisfies claims.scope admin ≡ false
      → All (λ c. c.owner ≡ owner claims) (shown_owners claims owners)
  unfolding shown_owners
  shown_owners-own claims owners weak = rw (weak) (keep-own (owner claims) owners)

  -- Who is no admin gets the detail of a file only past the check of its claims, and sees in it no
  -- owner but themselves.
  get_file-own :
      (st : AppState S) (claims : Claims) (file_id : Text) (d : FileDetail)
      → satisfies claims.scope admin ≡ false
      → get_file st claims file_id ≡ ok d
      → (authorize_file_read st.file_index claims file_id ≡ ok tt)
        × (d.file_hash ≡ file_id)
        × All (λ c. c.owner ≡ owner claims) d.owners
  unfolding get_file
  get_file-own st claims file_id d weak e =
      let (u, v, k0) = >>=-eq-ok (lift_storage (validate_hash file_id)) _ e in
      let (w, a, k1) = >>=-eq-ok (authorize_file_read st.file_index claims file_id) _ k0 in
      let (found, b, k2) = >>=-eq-ok (lift_storage (Index.get st.file_index file_id)) _ k1 in
      let (shard_hash, c, k3) =
        >>=-eq-ok (ok_or found (AppError.not_found (codes "file not indexed: " ++ file_id))) _ k2 in
      let (owners, o, k4) = >>=-eq-ok (lift_storage (file_claims st.file_index file_id)) _ k3 in
      let (bytes, g, k5) = >>=-eq-ok (lift_storage (get_shard store shard_hash st.storage)) _ k4 in
      let (files, h, k6) = >>=-eq-ok (corrupt_stored (from_reader bytes)) _ k5 in
      let own = shown_owners-own claims owners weak in
      let (same, own') =
        subst
          (λ (x : FileDetail). (x.file_hash ≡ file_id) × All (λ c. c.owner ≡ owner claims) x.owners)
          (ok-injective k6) (refl, own) in
      (a, same, own')
