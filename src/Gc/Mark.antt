-- ===== src/Gc/Mark.antt =====
-- What the mark phase reaches.
use openxet.Base.{
  >>=-eq-ok, Any, Bool-cases, List, Result, Result-cases, [], ap, arith, err, inl, inr, ok,
  ok-injective, some, subst, true, ◌∙◌, ◌∷◌, ◌≡◌,
}
use openxet.Text.{Text, eq_text, eq_text_iff, eq_text_refl}
use openxet.Errors.{StorageError}
use openxet.Storage.{ObjectStore, get_shard}
use openxet.Gc.{
  FileView, member, insert_set, insert_entries, resolves_to, mark_files, mark_shard, mark, lookup,
  values,
}

insert_set_keeps :
    (h x : Text) (xs : List Text) → member h xs ≡ true → member h (insert_set x xs) ≡ true
unfolding insert_set
insert_set_keeps h x xs m = ground arith

insert_set-member : (x : Text) (xs : List Text) → member x (insert_set x xs) ≡ true
unfolding insert_set
insert_set-member x xs = ground (arith, eq_text_refl x)

-- The shard of every file is live.
pub member-values :
    (k v : Text) (es : List (Text × Text)) → lookup k es ≡ some v → member v (values es) ≡ true
unfolding lookup values
member-values k v [] e = cc
member-values k v ((k', v') ∷ es) e =
    let here = insert_set-member v' (values es) in
    let later = insert_set_keeps v v' (values es) in
    let rest = member-values k v es in
    elim (Bool-cases (eq_text k' k)) [
      | inl b ↦
          let q : v' ≡ v = ground (arith, e, b) in
          subst (λ w. member w (insert_set v' (values es)) ≡ true) q here
      | inr b ↦ later (rest (ground (arith, e, b)))
    ]

insert_entries_keeps :
    (h : Text) (xs reach : List Text)
    → member h reach ≡ true
    → member h (insert_entries xs reach) ≡ true
unfolding insert_entries
insert_entries_keeps h [] reach m = m
insert_entries_keeps h (x ∷ xs) reach m =
    insert_entries_keeps h xs (insert_set x reach) (insert_set_keeps h x reach m)

insert_entries-member :
    (h : Text) (xs reach : List Text)
    → member h xs ≡ true
    → member h (insert_entries xs reach) ≡ true
unfolding insert_entries
insert_entries-member h [] reach m = cc
insert_entries-member h (x ∷ xs) reach m = elim (Bool-cases (eq_text x h)) [
  | inl b ↦
      let q : x ≡ h = (eq_text_iff x h).0 b in
      insert_entries_keeps h xs (insert_set x reach)
        (subst (λ w. member w (insert_set x reach) ≡ true) q (insert_set-member x reach))
  | inr b ↦ insert_entries-member h xs (insert_set x reach) (ground (arith, m, b))
]

mark_files_keeps :
    (m : List (Text × Text)) (s h : Text) (fs : List FileView) (reach : List Text)
    → member h reach ≡ true
    → member h (mark_files m s fs reach) ≡ true
unfolding mark_files
mark_files_keeps m s h [] reach p = p
mark_files_keeps m s h (f ∷ fs) reach p =
    let more =
      mark_files_keeps m s h fs (insert_entries f.entries reach)
        (insert_entries_keeps h f.entries reach p) in
    let same = mark_files_keeps m s h fs reach p in ground (arith, more, same)

-- The xorbs of a file that resolves to the shard are marked.
mark_files-member :
    (m : List (Text × Text)) (s h : Text) (view : FileView) (fs : List FileView) (reach : List Text)
    → lookup view.file_hash m ≡ some s
    → Any (λ f. f ≡ view) fs
    → member h view.entries ≡ true
    → member h (mark_files m s fs reach) ≡ true
unfolding mark_files resolves_to
mark_files-member m s h view [] reach l a e = elim a [ ]
mark_files-member m s h view (f ∷ fs) reach l (inl q) e =
    let l' : lookup f.file_hash m ≡ some s = ap (λ v. lookup v.file_hash m) q ∙ l in
    let e' : member h f.entries ≡ true = ap (λ v. member h v.entries) q ∙ e in
    let done =
      mark_files_keeps m s h fs (insert_entries f.entries reach)
        (insert_entries-member h f.entries reach e') in
    rw (l', eq_text_refl s) done
mark_files-member m s h view (f ∷ fs) reach l (inr a) e =
    let more = mark_files-member m s h view fs (insert_entries f.entries reach) l a e in
    let same = mark_files-member m s h view fs reach l a e in ground (arith, more, same)

module _ {S : Type 0} (store : ObjectStore S)
    (from_reader : Text → Result Text (List FileView)) where
  mark_shard_keeps :
      (m : List (Text × Text)) (s h : Text) (r : Result StorageError Text)
      (reach reach' : List Text)
      → mark_shard store from_reader m s r reach ≡ ok reach'
      → member h reach ≡ true
      → member h reach' ≡ true
  unfolding mark_shard
  mark_shard_keeps m s h (ok bytes) reach reach' e p = elim (Result-cases (from_reader bytes)) [
    | inl (fs, q) ↦ let k = mark_files_keeps m s h fs reach p in ground (arith, q, k, e)
    | inr (x, q) ↦ ground (arith, q, e)
  ]
  mark_shard_keeps m s h (err (StorageError.not_found x)) reach reach' e p =
      subst (λ r. member h r ≡ true) (ok-injective e) p
  mark_shard_keeps m s h (err _) reach reach' e p = cc

  mark_shard-member :
      (m : List (Text × Text)) (s h bytes : Text) (files : List FileView) (view : FileView)
      (reach reach' : List Text)
      → from_reader bytes ≡ ok files
      → lookup view.file_hash m ≡ some s
      → Any (λ f. f ≡ view) files
      → member h view.entries ≡ true
      → mark_shard store from_reader m s (ok bytes) reach ≡ ok reach'
      → member h reach' ≡ true
  unfolding mark_shard
  mark_shard-member m s h bytes files view reach reach' f l a e k =
      let marked = mark_files-member m s h view files reach l a e in ground (arith, f, k, marked)

  mark_keeps :
      (m : List (Text × Text)) (st : S) (h : Text) (hs reach reach' : List Text)
      → mark store from_reader m st hs reach ≡ ok reach'
      → member h reach ≡ true
      → member h reach' ≡ true
  unfolding mark
  mark_keeps m st h [] reach reach' e p = subst (λ r. member h r ≡ true) (ok-injective e) p
  mark_keeps m st h (x ∷ hs) reach reach' e p =
      let (next, a, b) =
        >>=-eq-ok (mark_shard store from_reader m x (get_shard store x st) reach)
          (λ r. mark store from_reader m st hs r) e in
      mark_keeps m st h hs next reach' b
        (mark_shard_keeps m x h (get_shard store x st) reach next a p)

  pub mark-member :
      (m : List (Text × Text)) (st : S) (s h bytes : Text) (files : List FileView) (view : FileView)
      → get_shard store s st ≡ ok bytes
      → from_reader bytes ≡ ok files
      → lookup view.file_hash m ≡ some s
      → Any (λ f. f ≡ view) files
      → member h view.entries ≡ true
      → (hs reach reach' : List Text) → member s hs ≡ true
      → mark store from_reader m st hs reach ≡ ok reach'
      → member h reach' ≡ true
  unfolding mark
  mark-member m st s h bytes files view g f l a e [] reach reach' i k = cc
  mark-member m st s h bytes files view g f l a e (x ∷ hs) reach reach' i k =
      let (next, b, c) =
        >>=-eq-ok (mark_shard store from_reader m x (get_shard store x st) reach)
          (λ r. mark store from_reader m st hs r) k in
      elim (Bool-cases (eq_text x s)) [
        | inl q ↦
            let same : x ≡ s = (eq_text_iff x s).0 q in
            mark_keeps m st h hs next reach' c (
              mark_shard-member m s h bytes files view reach next f l a e (
                subst (λ r. mark_shard store from_reader m s r reach ≡ ok next) g
                  (subst
                    (λ y. mark_shard store from_reader m y (get_shard store y st) reach ≡ ok next)
                    same b)))
        | inr q ↦
            mark-member m st s h bytes files view g f l a e hs next reach' (ground (arith, i, q)) c
      ]
