-- ===== src/Routes/Shard/Verified.antt =====
-- What a registered shard was checked against: the stored xorbs themselves.
use openxet.Base.{
  ==_iff, >>=-eq-ok, All, Bool-cases, List, Option-cases, Result, [], ap, arith, drop, err,
  get_elem?, guard-eq-ok, inl, inr, leb, length, length-drop, length-take, ltb, ltb→lt, map, ok,
  ok-injective, ok_or-eq-ok, refl, some, subst, suc, sym, take, true, zero, ℕ, ◌%◌, ◌++◌, ◌+◌, ◌-◌,
  ◌<◌, ◌==◌, ◌>>=◌, ◌∙◌, ◌∷◌, ◌≡◌, ◌≤◌,
}
use openxet.Text.{Text, eq_text, eq_text_iff}
use openxet.Errors.{lift_app, lift_storage, lift_storage-eq-ok, lift_app-eq-ok}
use openxet.Storage.{ObjectStore, xorb_exists, get_xorb}
use openxet.Xorb.{XetCore, XorbInfo, xorb_info_from_stored, sub32, u32_mod}
use openxet.Text.Decimal.{u64_mod}
use openxet.Routes.Shard.{
  ShardEntry, ShardFile, Shard, ShardCore, Cache, find_info, sized_chunks, slice_of, start_offset,
  cached_info, read_info, check_term, check_terms, check_file, check_files, validate_shard,
  validate_hash, invalid_shard, total, max_shard_size,
}

telescoped :
    (start last n declared : ℕ)
    → (start + n) % u32_mod ≡ last % u32_mod
    → (sub32 last start == declared) ≡ true
    → n % u32_mod ≡ declared
telescoped start last n declared h e = omega (arith, h, (==_iff (sub32 last start) declared).0 e)

-- What each chunk of a xorb holds: the differences of the ends of the chunks, counted from `prev`.
abbrev pub chunk_sizes : ℕ → List ℕ → List ℕ
chunk_sizes prev [] = []
chunk_sizes prev (end ∷ ends) = sub32 end prev ∷ chunk_sizes end ends

drop-chunk_sizes :
    (offsets : List ℕ) (prev k start : ℕ)
    → get_elem? offsets k ≡ some start
    → drop (suc k) (chunk_sizes prev offsets) ≡ chunk_sizes start (drop (suc k) offsets)
drop-chunk_sizes [] prev k start e = cc
drop-chunk_sizes (end ∷ ends) prev zero start e = ap (λ n. chunk_sizes n ends) (ground (arith, e))
drop-chunk_sizes (end ∷ ends) prev (suc k) start e = drop-chunk_sizes ends end k start e

start_offset-chunk_sizes :
    (offsets : List ℕ) (k start : ℕ)
    → start_offset offsets k ≡ ok start
    → drop k (chunk_sizes 0 offsets) ≡ chunk_sizes start (drop k offsets)
unfolding start_offset
start_offset-chunk_sizes offsets zero start e = ap (λ n. chunk_sizes n offsets) (ok-injective e)
start_offset-chunk_sizes offsets (suc k) start e =
    drop-chunk_sizes offsets 0 k start (ok_or-eq-ok (get_elem? offsets k) _ e)

sizes-sized_chunks :
    (hs : List Text) (ends : List ℕ) (prev : ℕ) (chunks : List (Text × ℕ)) (last : ℕ)
    → sized_chunks hs ends prev ≡ ok (chunks, last)
    → map (λ c. c.1) chunks ≡ take (length hs) (chunk_sizes prev ends)
unfolding sized_chunks
sizes-sized_chunks [] ends prev chunks last e = ground (arith, e)
sizes-sized_chunks (h ∷ hs) [] prev chunks last e = cc
sizes-sized_chunks (h ∷ hs) (end ∷ ends) prev chunks last e =
    let (rest, a, b) = >>=-eq-ok (sized_chunks hs ends end) _ e in
    let ih = sizes-sized_chunks hs ends end rest.0 rest.1 a in ground (arith, b, ih)

length-slice_of :
    (v : List Text) (start end : ℕ) (hs : List Text)
    → start < end
    → slice_of v start end ≡ ok hs
    → length hs ≡ end - start
unfolding slice_of
length-slice_of v start end hs lt e = elim (Bool-cases (ltb (length v) end)) [
  | inl t ↦ absurd (ground (arith, t, e))
  | inr f ↦
      let q : take (end - start) (drop start v) ≡ hs = ground (arith, f, e) in
      subst (λ (l : List Text). length l ≡ end - start) q
        (ground (arith, f, lt, length-take (end - start) (drop start v), length-drop start v))
]

invalid_shard-eq-ok : {A : Type 0} (r : Result Text A) {a : A} → invalid_shard r ≡ ok a → r ≡ ok a
unfolding invalid_shard
invalid_shard-eq-ok (ok a) e = cc
invalid_shard-eq-ok (err x) e = cc

module _ {S : Type 0} (store : ObjectStore S) (xet : XetCore) (core : ShardCore) (s : S) where
  -- The metadata that the stored bytes of a xorb give.
  abbrev pub IsStored : Text → XorbInfo → Type 0
  IsStored h info =
      (bytes : Text) × (get_xorb store h s ≡ ok bytes) × (xorb_info_from_stored xet bytes ≡ ok info)

  -- The chunks of a term are those of the stored xorb at its range, each with the size that the xorb
  -- gives it; the verification hash of the term is theirs, and its length.
  abbrev pub TermVerified : ShardEntry → List (Text × ℕ) → Type 0
  TermVerified e chunks =
      (info : XorbInfo) × IsStored e.xorb_hash info
      × (e.chunk_index_start < e.chunk_index_end)
      × (e.chunk_index_end ≤ info.num_chunks)
      × (map (λ c. c.0) chunks
          ≡ take (e.chunk_index_end - e.chunk_index_start)
              (drop e.chunk_index_start info.chunk_hashes))
      × (map (λ c. c.1) chunks
          ≡ take (e.chunk_index_end - e.chunk_index_start)
              (drop e.chunk_index_start (chunk_sizes 0 info.unpacked_chunk_offsets)))
      × (core.range_hash_from_chunks (map (λ c. c.0) chunks) ≡ e.range_hash)
      × (total chunks % u32_mod ≡ e.unpacked_segment_bytes)

  abbrev pub TermsVerified : List ShardEntry → List (Text × ℕ) → Type 0
  TermsVerified [] chunks = chunks ≡ []
  TermsVerified (e ∷ es) chunks =
      (here : List (Text × ℕ)) × (rest : List (Text × ℕ)) × (chunks ≡ here ++ rest)
      × TermVerified e here
      × TermsVerified es rest

  -- The cache holds what was read from the store.
  abbrev IsCoherent : Cache → Type 0
  IsCoherent cache = All (λ c. IsStored c.0 c.1) cache

  find_info-IsStored :
      (h : Text) (cache : Cache) (info : XorbInfo)
      → IsCoherent cache
      → find_info h cache ≡ some info
      → IsStored h info
  unfolding find_info
  find_info-IsStored h [] info c e = cc
  find_info-IsStored h ((k, i) ∷ cache) info (c, cs) e = elim (Bool-cases (eq_text k h)) [
    | inl q ↦
        let f : i ≡ info = ground (arith, e, q) in
        subst (λ x. IsStored x info) ((eq_text_iff k h).0 q) (subst (λ x. IsStored k x) f c)
    | inr q ↦ find_info-IsStored h cache info cs (ground (arith, e, q))
  ]

  read_info-IsStored :
      (h : Text) (info : XorbInfo) → read_info store xet core s h ≡ ok info → IsStored h info
  unfolding read_info
  read_info-IsStored h info e =
      let (exists, a, e1) = >>=-eq-ok (lift_storage (xorb_exists store h s)) _ e in
      let (there, e2) = guard-eq-ok exists _ _ e1 in
      let (bytes, b, e3) = >>=-eq-ok (lift_storage (get_xorb store h s)) _ e2 in
      (bytes, lift_storage-eq-ok (get_xorb store h s) b, e3)

  map-sized_chunks :
      (hs : List Text) (ends : List ℕ) (prev : ℕ) (chunks : List (Text × ℕ)) (last : ℕ)
      → sized_chunks hs ends prev ≡ ok (chunks, last)
      → map (λ c. c.0) chunks ≡ hs
  unfolding sized_chunks
  map-sized_chunks [] ends prev chunks last e = ground (arith, e)
  map-sized_chunks (h ∷ hs) [] prev chunks last e = cc
  map-sized_chunks (h ∷ hs) (end ∷ ends) prev chunks last e =
      let (rest, a, b) = >>=-eq-ok (sized_chunks hs ends end) _ e in
      let ih = map-sized_chunks hs ends end rest.0 rest.1 a in ground (arith, b, ih)

  total-sized_chunks :
      (hs : List Text) (ends : List ℕ) (prev : ℕ) (chunks : List (Text × ℕ)) (last : ℕ)
      → sized_chunks hs ends prev ≡ ok (chunks, last)
      → (prev + total chunks) % u32_mod ≡ last % u32_mod
  unfolding sized_chunks
  total-sized_chunks [] ends prev chunks last e = ground (arith, e)
  total-sized_chunks (h ∷ hs) [] prev chunks last e = cc
  total-sized_chunks (h ∷ hs) (end ∷ ends) prev chunks last e =
      let (rest, a, b) = >>=-eq-ok (sized_chunks hs ends end) _ e in
      let ih = total-sized_chunks hs ends end rest.0 rest.1 a in
      let q : (h, sub32 end prev) ∷ rest.0 ≡ chunks = ground (arith, b) in
      let l : rest.1 ≡ last = ground (arith, b) in
      subst (λ cs. (prev + total cs) % u32_mod ≡ last % u32_mod) q (omega (arith, ih, l))

  cached_info-IsStored :
      (h : Text) (cache : Cache) (read : XorbInfo × Cache)
      → IsCoherent cache
      → cached_info store xet core s cache h ≡ ok read
      → IsStored h read.0 × IsCoherent read.1
  unfolding cached_info
  cached_info-IsStored h cache read c e = elim (Option-cases (find_info h cache)) [
    | inr (info, f) ↦
        let i = find_info-IsStored h cache info c f in
        let q : (info, cache) ≡ read = ground (arith, e, f) in
        subst (λ (r : XorbInfo × Cache). IsStored h r.0 × IsCoherent r.1) q (i, c)
    | inl f ↦
        let e' : (lift_app (read_info store xet core s h) >>= λ info. ok (info, (h, info) ∷ cache))
            ≡ ok read =
          rw (f, cached_info) at e in
        let (info, a, b) = >>=-eq-ok (lift_app (read_info store xet core s h)) _ e' in
        let i = read_info-IsStored h info (lift_app-eq-ok (read_info store xet core s h) a) in
        subst (λ (r : XorbInfo × Cache). IsStored h r.0 × IsCoherent r.1) (ok-injective b)
          (i, (i, c))
  ]

  slice_of-take :
      (v : List Text) (start end : ℕ) (hs : List Text)
      → slice_of v start end ≡ ok hs
      → hs ≡ take (end - start) (drop start v)
  unfolding slice_of
  slice_of-take v start end hs e = ground (arith, e)

  check_term-TermVerified :
      (file : ShardFile) (i : ℕ) (e : ShardEntry) (cache : Cache) (r : List (Text × ℕ) × Cache)
      → IsCoherent cache
      → check_term store xet core s file i e cache ≡ ok r
      → TermVerified e r.0 × IsCoherent r.1
  unfolding check_term
  check_term-TermVerified file i e cache r c k =
      let (u, a0, k0) = >>=-eq-ok (lift_app (lift_storage (validate_hash e.xorb_hash))) _ k in
      let (a1, k1) = guard-eq-ok (ltb e.chunk_index_start e.chunk_index_end) _ _ k0 in
      let (read, a2, k2) = >>=-eq-ok (cached_info store xet core s cache e.xorb_hash) _ k1 in
      let (a3, k3) = guard-eq-ok (leb e.chunk_index_end read.0.num_chunks) _ _ k2 in
      let (hs, a4, k4) =
        >>=-eq-ok (slice_of read.0.chunk_hashes e.chunk_index_start e.chunk_index_end) _ k3 in
      let (a5, k5) = guard-eq-ok (eq_text (core.range_hash_from_chunks hs) e.range_hash) _ _ k4 in
      let (start, a6, k6) =
        >>=-eq-ok (start_offset read.0.unpacked_chunk_offsets e.chunk_index_start) _ k5 in
      let (chunks, a7, k7) =
        >>=-eq-ok (sized_chunks hs (drop e.chunk_index_start read.0.unpacked_chunk_offsets) start) _
          k6 in
      let (a8, k8) = guard-eq-ok (sub32 chunks.1 start == e.unpacked_segment_bytes) _ _ k7 in
      let (stored, coherent) = cached_info-IsStored e.xorb_hash cache read c a2 in
      let names =
        map-sized_chunks hs (drop e.chunk_index_start read.0.unpacked_chunk_offsets) start chunks.0
          chunks.1 a7 in
      let sizes =
        sizes-sized_chunks hs (drop e.chunk_index_start read.0.unpacked_chunk_offsets) start
          chunks.0 chunks.1 a7
        ∙ ap
            (λ n.
              take n (chunk_sizes start (drop e.chunk_index_start read.0.unpacked_chunk_offsets)))
            (length-slice_of read.0.chunk_hashes e.chunk_index_start e.chunk_index_end hs
              (ltb→lt _ _ a1) a4)
        ∙ ap (λ (l : List ℕ). take (e.chunk_index_end - e.chunk_index_start) l)
            (sym (
              start_offset-chunk_sizes read.0.unpacked_chunk_offsets e.chunk_index_start start
                a6)) in
      subst (λ (x : List (Text × ℕ) × Cache). TermVerified e x.0 × IsCoherent x.1) (ok-injective k8)
        (
          (
            read.0,
            stored,
            ltb→lt _ _ a1,
            ground (arith, a3),
            names ∙ slice_of-take read.0.chunk_hashes e.chunk_index_start e.chunk_index_end hs a4,
            sizes,
            ap core.range_hash_from_chunks names ∙ (eq_text_iff _ _).0 a5,
            telescoped start chunks.1 (total chunks.0) e.unpacked_segment_bytes
                (total-sized_chunks hs (drop e.chunk_index_start read.0.unpacked_chunk_offsets)
                  start chunks.0 chunks.1 a7)
                a8,
          ),
          coherent,
        )

  check_terms-TermsVerified :
      (file : ShardFile) (i : ℕ) (es : List ShardEntry) (cache : Cache)
      (r : List (Text × ℕ) × Cache)
      → IsCoherent cache
      → check_terms store xet core s file i es cache ≡ ok r
      → TermsVerified es r.0 × IsCoherent r.1
  unfolding check_terms
  check_terms-TermsVerified file i [] cache r c k =
      subst (λ (x : List (Text × ℕ) × Cache). (x.0 ≡ []) × IsCoherent x.1) (ok-injective k)
        (refl, c)
  check_terms-TermsVerified file i (e ∷ es) cache r c k =
      let (here, a, k1) = >>=-eq-ok (check_term store xet core s file i e cache) _ k in
      let (rest, b, k2) = >>=-eq-ok (check_terms store xet core s file (suc i) es here.1) _ k1 in
      let (v, c1) = check_term-TermVerified file i e cache here c a in
      let (vs, c2) = check_terms-TermsVerified file (suc i) es here.1 rest c1 b in
      subst (λ (x : List (Text × ℕ) × Cache). TermsVerified (e ∷ es) x.0 × IsCoherent x.1)
        (ok-injective k2) ((here.0, rest.0, refl, v, vs), c2)

  -- A file that passed: its bytes are those of the terms, and its size is recorded.
  abbrev pub FileSized : ShardFile → Text × ℕ → Type 0
  FileSized f (h, n) =
      (chunks : List (Text × ℕ)) × TermsVerified f.entries chunks
      × (core.file_hash chunks ≡ f.file_hash)
      × (h ≡ f.file_hash)
      × (n ≡ total chunks % u64_mod)
      × (f.contains_verification ≡ true)
      × (0 < length f.entries)

  abbrev pub FilesSized : List ShardFile → List (Text × ℕ) → Type 0
  FilesSized [] sizes = sizes ≡ []
  FilesSized (f ∷ fs) [] = ⊥
  FilesSized (f ∷ fs) (n ∷ ns) = FileSized f n × FilesSized fs ns

  check_file-FileSized :
      (f : ShardFile) (cache : Cache) (r : (Text × ℕ) × Cache)
      → IsCoherent cache
      → check_file store xet core s f cache ≡ ok r
      → FileSized f r.0 × IsCoherent r.1
  unfolding check_file
  check_file-FileSized f cache r c k =
      let (a0, k0) = guard-eq-ok (ltb 0 (length f.entries)) _ _ k in
      let (a1, k1) = guard-eq-ok f.contains_verification _ _ k0 in
      let (chunks, a2, k2) = >>=-eq-ok (check_terms store xet core s f 0 f.entries cache) _ k1 in
      let (a3, k3) = guard-eq-ok (eq_text (core.file_hash chunks.0) f.file_hash) _ _ k2 in
      let (v, c1) = check_terms-TermsVerified f 0 f.entries cache chunks c a2 in
      let h = (eq_text_iff (core.file_hash chunks.0) f.file_hash).0 a3 in
      subst (λ (x : (Text × ℕ) × Cache). FileSized f x.0 × IsCoherent x.1) (ok-injective k3)
        ((chunks.0, v, h, h, refl, a1, ltb→lt _ _ a0), c1)

  check_files-FilesSized :
      (fs : List ShardFile) (cache : Cache) (sizes : List (Text × ℕ))
      → IsCoherent cache
      → check_files store xet core s fs cache ≡ ok sizes
      → FilesSized fs sizes
  unfolding check_files
  check_files-FilesSized [] cache sizes c k = sym (ok-injective k)
  check_files-FilesSized (f ∷ fs) cache sizes c k =
      let (here, a, k1) = >>=-eq-ok (check_file store xet core s f cache) _ k in
      let (rest, b, k2) = >>=-eq-ok (check_files store xet core s fs here.1) _ k1 in
      let (v, c1) = check_file-FileSized f cache here c a in
      subst (λ ns. FilesSized (f ∷ fs) ns) (ok-injective k2)
        (v, check_files-FilesSized fs here.1 rest c1 b)

  -- A shard passes validation only if each of its files is what it says: it has entries, each with a
  -- range of chunks of a stored xorb, the verification hash of the chunks there and, modulo 2^32,
  -- their total size, as the xorb's unpacked offsets give the sizes; the declared file hash is the
  -- hash of all of those chunks with those sizes; the recorded name is that hash, and the recorded
  -- size is their total modulo 2^64.
  pub validate_shard-FilesSized :
      (body : Text) (valid : Shard × List (Text × ℕ))
      → validate_shard store xet core s body ≡ ok valid
      → (core.from_reader body ≡ ok valid.0)
        × (core.footer_size body ≡ ok 0)
        × FilesSized valid.0.files valid.1
  unfolding validate_shard
  validate_shard-FilesSized body valid k =
      let (a0, k0) = guard-eq-ok (leb (length body) max_shard_size) _ _ k in
      let (footer, a1, k1) = >>=-eq-ok (invalid_shard (core.footer_size body)) _ k0 in
      let (a2, k2) = guard-eq-ok (footer == 0) _ _ k1 in
      let (shard, a3, k3) = >>=-eq-ok (invalid_shard (core.from_reader body)) _ k2 in
      let (sizes, a4, k4) = >>=-eq-ok (check_files store xet core s shard.files []) _ k3 in
      subst
        (λ (x : Shard × List (Text × ℕ)).
          (core.from_reader body ≡ ok x.0)
          × (core.footer_size body ≡ ok 0)
          × FilesSized x.0.files x.1)
        (ok-injective k4)
        (
          invalid_shard-eq-ok (core.from_reader body) a3,
          invalid_shard-eq-ok (core.footer_size body) a1 ∙ ap ok ((==_iff footer 0).0 a2),
          check_files-FilesSized shard.files [] sizes tt a4,
        )
