-- ===== src/Routes/Shard/Registered.antt =====
-- What the writes of a registration leave in the file index.
use openxet.Base.{
  All, Bool, List, Option, Result-cases, [], ap, arith, inl, inr, none, ok, refl, some, subst, sym,
  ℕ, ◌∙◌, ◌∷◌, ◌≡◌, ◌≢◌, ◌⊎◌,
}
use openxet.Text.{Text, eq_text_iff, eq_text_refl}
use openxet.Hash.{validate_hash}
use openxet.Auth.{Claims, owner}
use openxet.Storage.{ObjectStore}
use openxet.Index.{OwnershipClaim}
use openxet.Index.Files.{FileIndex}
use openxet.Index.Files as Files
use openxet.Index.Files.Keys.{get-put}
use openxet.Index.Files.Claims.{held, claim-held}
use openxet.Gc.{AppState}
use openxet.Xorb.{XetCore}
use openxet.Routes.Shard.{
  Shard, ShardFile, ShardCore, put_files, store_shard, register_shard, validate_shard, index_files,
  index_chunks, put_shard,
}
use openxet.Routes.Shard.Verified.{FilesSized, validate_shard-FilesSized}

put-ownership :
    (idx idx' : FileIndex) (g sh : Text)
    → Files.put idx g sh ≡ ok idx'
    → idx'.file_ownership ≡ idx.file_ownership
unfolding Files.put
put-ownership idx idx' g sh e = ground (arith, e)

get_of_files :
    (idx idx' : FileIndex) (h : Text)
    → idx'.file_index ≡ idx.file_index
    → Files.get idx' h ≡ Files.get idx h
unfolding Files.get
get_of_files idx idx' h e = ground (arith, e)

get-valid :
    (idx : FileIndex) (h : Text) {o : Option Text}
    → Files.get idx h ≡ ok o
    → validate_hash h ≡ ok tt
unfolding Files.get
get-valid idx h e = ground (arith, e)

put-valid :
    (idx idx' : FileIndex) (h sh : Text) → Files.put idx h sh ≡ ok idx' → validate_hash h ≡ ok tt
unfolding Files.put
put-valid idx idx' h sh e = ground (arith, e)

module _ (own sh : Text) where
  -- A file resolves to the shard, and the uploader claims it.
  abbrev pub Registered : FileIndex → Text → Type 0
  Registered idx h = (Files.get idx h ≡ ok (some sh)) × (held own h idx.file_ownership ≢ none)

  get-put_same :
      (idx idx' : FileIndex) (h g : Text)
      → Files.put idx g sh ≡ ok idx'
      → (Files.get idx h ≡ ok (some sh)) ⊎ (g ≡ h)
      → Files.get idx' h ≡ ok (some sh)
  get-put_same idx idx' h g e (inl k) =
      let at = get-put idx idx' g sh h e in let v = get-valid idx h k in ground (arith, at, v, k)
  get-put_same idx idx' h g e (inr q) =
      let at = get-put idx idx' g sh h e in
      let v = subst (λ x. validate_hash x ≡ ok tt) q (put-valid idx idx' g sh e) in
      ground (arith, at, v, (eq_text_iff g h).1 q)

  claim-held_or :
      (idx idx' : FileIndex) (h g : Text) (c : OwnershipClaim)
      → Files.claim idx own g c ≡ ok idx'
      → (held own h idx.file_ownership ≢ none) ⊎ (g ≡ h)
      → held own h idx'.file_ownership ≢ none
  claim-held_or idx idx' h g c e k =
      let (now_held, files) = claim-held idx idx' own g c e in
      let at = now_held own h in
      elim k [
        | inl n ↦ ground (arith, at, n)
        | inr q ↦ ground (arith, at, (eq_text_iff g h).1 q, eq_text_refl own)
      ]

  -- One round of the loop.
  round-Registered :
      (idx idx' idx'' : FileIndex) (g h : Text) (c : OwnershipClaim)
      → Files.put idx g sh ≡ ok idx'
      → Files.claim idx' own g c ≡ ok idx''
      → Registered idx h ⊎ (g ≡ h)
      → Registered idx'' h
  round-Registered idx idx' idx'' g h c e f k =
      let (now_held, files) = claim-held idx' idx'' own g c f in
      let resolved =
        get_of_files idx' idx'' h files
        ∙ get-put_same idx idx' h g e (elim k [ inl r ↦ inl r.0 | inr q ↦ inr q ]) in
      let owned = put-ownership idx idx' g sh e in
      (
        resolved,
        claim-held_or idx' idx'' h g c f
            (elim k [ inl r ↦ inl (λ z. r.1 (ap (held own h) (sym owned) ∙ z)) | inr q ↦ inr q ]),
      )

  put_files-Registered :
      (now : ℕ) (sizes : List (Text × ℕ)) (idx idx' : FileIndex)
      → put_files own sh now sizes idx ≡ (ok tt, idx')
      → ((h : Text) → Registered idx h → Registered idx' h) × All (λ n. Registered idx' n.0) sizes
  unfolding put_files
  put_files-Registered now [] idx idx' e =
      (λ h r. subst (λ i. Registered i h) (ap (λ x. x.1) e) r, tt)
  put_files-Registered now ((g, n) ∷ sizes) idx idx' e = elim (Result-cases (Files.put idx g sh)) [
    | inr (x, p) ↦ absurd (ground (arith, p, e))
    | inl (idx1, p) ↦
        let c : OwnershipClaim = record { logical_bytes = n; created_at_unix = now } in
        elim (Result-cases (Files.claim idx1 own g c)) [
          | inr (x, q) ↦ absurd (ground (arith, p, q, e))
          | inl (idx2, q) ↦
              let (keeps, all) =
                put_files-Registered now sizes idx2 idx' (ground (arith, p, q, e)) in
              (
                λ h r. keeps h (round-Registered idx idx1 idx2 g h c p q (inl r)),
                (keeps g (round-Registered idx idx1 idx2 g g c p q (inr refl)), all),
              )
        ]
  ]

module _ {S : Type 0} (store : ObjectStore S) (xet : XetCore) (core : ShardCore) where
  -- The files of a list that passed validation, under the names they declare.
  All-FilesSized :
      (s : S) (P : Text → Type 0) (fs : List ShardFile) (sizes : List (Text × ℕ))
      → FilesSized store xet core s fs sizes
      → All (λ n. P n.0) sizes
      → All (λ f. P f.file_hash) fs
  All-FilesSized s P [] sizes v a = tt
  All-FilesSized s P (f ∷ fs) [] v a = absurd v
  All-FilesSized s P (f ∷ fs) ((h, n) ∷ ns) ((chunks, t, u, q, r, w, z), vs) (a, as') =
      (subst P q a, All-FilesSized s P fs ns vs as')

  index_chunks_files :
      (b b' : Bool) (shard : Shard) (st st' : AppState S)
      → index_chunks store xet core b shard st ≡ (ok b', st')
      → st'.file_index ≡ st.file_index
  unfolding index_chunks
  index_chunks_files b b' shard st st' e = ground (arith, e)

  index_files-Registered :
      (claims : Claims) (sh : Text) (now : ℕ) (w b : Bool) (shard : Shard) (sizes : List (Text × ℕ))
      (st st' : AppState S)
      → index_files store xet core claims sh now w shard sizes st ≡ (ok b, st')
      → All (λ n. Registered (owner claims) sh st'.file_index n.0) sizes
  unfolding index_files
  index_files-Registered claims sh now w b shard sizes st st' e =
      let wrote = put_files (owner claims) sh now sizes st.file_index in
      elim (Result-cases wrote.0) [
        | inr (x, p) ↦ absurd (ground (arith, p, e))
        | inl (u, p) ↦
            let files =
              index_chunks_files w b shard (record st { file_index = wrote.1 }) st'
                (ground (arith, p, e)) in
            let (keeps, all) =
              put_files-Registered (owner claims) sh now sizes st.file_index wrote.1
                (ground (arith, p)) in
            subst (λ i. All (λ n. Registered (owner claims) sh i n.0) sizes) (sym files) all
      ]

  store_shard-Registered :
      (claims : Claims) (body : Text) (now : ℕ) (valid : Shard × List (Text × ℕ))
      (st st' : AppState S) (b : Bool)
      → store_shard store xet core claims body now valid st ≡ (ok b, st')
      → All
          (λ n. Registered (owner claims) (core.compute_data_hash body) st'.file_index n.0)
          valid.1
  unfolding store_shard
  store_shard-Registered claims body now valid st st' b e =
      let sh = core.compute_data_hash body in
      let stored = put_shard store sh body st.storage in
      elim (Result-cases stored.0) [
        | inr (x, p) ↦ absurd (ground (arith, p, e))
        | inl (w, p) ↦
            index_files-Registered claims sh now w b valid.0 valid.1
              (record st { storage = stored.1 }) st' (ground (arith, p, e))
      ]

  -- After a registration that succeeds, every file of the shard resolves to the shard and the caller
  -- holds a claim on it.
  pub register_shard-Registered :
      (claims : Claims) (body : Text) (now : ℕ) (st st' : AppState S) (b : Bool)
      → register_shard store xet core claims body now st ≡ (ok b, st')
      → (shard : Shard) × (core.from_reader body ≡ ok shard)
        × All
            (λ f.
              Registered (owner claims) (core.compute_data_hash body) st'.file_index f.file_hash)
            shard.files
  unfolding register_shard
  register_shard-Registered claims body now st st' b e =
      elim (Result-cases (validate_shard store xet core st.storage body)) [
        | inr (x, v) ↦ absurd (ground (arith, v, e))
        | inl (valid, v) ↦
            let (parsed, footer, sized) =
              validate_shard-FilesSized store xet core st.storage body valid v in
            let all =
              store_shard-Registered claims body now valid st st' b (ground (arith, v, e)) in
            (
              valid.0,
              parsed,
              All-FilesSized st.storage
                  (Registered (owner claims) (core.compute_data_hash body) st'.file_index)
                  valid.0.files valid.1 sized all,
            )
      ]
