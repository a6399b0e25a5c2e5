-- ===== src/Storage/Memory.antt =====
-- An object store in memory, for the tests. It stands in for the `object_store` crate that
-- crates/server/src/storage/object_store_backend.rs calls.
use openxet.Base.{
  pos, Bool-cases, List, Result, [], ap, arith, drop, err, false, inl, inr, keep, length, map, none,
  not, ok, refl, subst, take, true, ◌++◌, ◌-◌, ◌>>=◌, ◌∷◌, ◌≡◌, ◌≢◌,
}
use openxet.Text.{strip_prefix, Text, codes, eq_text, eq_text_iff, eq_text_refl}
use openxet.Storage.{ObjectStore, ObjectError, ObjectMeta}

-- Objects with their paths; the newest is first.
abbrev pub Objects : Type 0
Objects = List (Text × Text)

unfoldable pub read_object : Text → Objects → Result ObjectError Text
read_object p [] = err (ObjectError.not_found p)
read_object p ((q, d) ∷ s) = elim (eq_text q p) [ true ↦ ok d | false ↦ read_object p s ]

abbrev pub erase : Text → Objects → Objects
erase p s = keep (λ (e : Text × Text). not (eq_text e.0 p)) s

abbrev pub meta_of : Text → ObjectMeta
meta_of d = record { filename = none; size = length d; last_modified = pos 0 }

unfoldable pub head_object : Text → Objects → Result ObjectError ObjectMeta
unfolding read_object
head_object p s = read_object p s >>= λ d. ok (meta_of d)

pub read_object_here : (p d : Text) (s : Objects) → read_object p ((p, d) ∷ s) ≡ ok d
unfolding read_object
read_object_here p d s = ground (arith, eq_text_refl p)

pub head_object_here : (p d : Text) (s : Objects) → head_object p ((p, d) ∷ s) ≡ ok (meta_of d)
unfolding head_object
head_object_here p d s = rw (read_object_here p d s) refl

pub read_object_later :
    (p q d : Text) (s : Objects) → p ≢ q → read_object q ((p, d) ∷ s) ≡ read_object q s
unfolding read_object
read_object_later p q d s n = elim (Bool-cases (eq_text p q)) [
  | inl e ↦ absurd (n ((eq_text_iff p q).0 e))
  | inr e ↦ ground (arith, e)
]

pub read_object-erase :
    (p : Text) (s : Objects) → read_object p (erase p s) ≡ err (ObjectError.not_found p)
unfolding read_object keep
read_object-erase p [] = refl
read_object-erase p ((q, d) ∷ s) = ground (arith, read_object-erase p s)

pub read_object-erase_other :
    (p q : Text) (s : Objects) → p ≢ q → read_object q (erase p s) ≡ read_object q s
unfolding read_object keep
read_object-erase_other p q [] n = refl
read_object-erase_other p q ((x, d) ∷ s) n =
    let rest = read_object-erase_other p q s n in
    elim (Bool-cases (eq_text x p)) [
      | inl e ↦
          let m : eq_text x q ≡ false = ground (arith, eq_text_iff x p, eq_text_iff x q, e, n) in
          ground (arith, rest, e, m)
      | inr e ↦ ground (arith, rest, e)
    ]

pub erased_answers_ok :
    (p q : Text) (s t : Objects)
    → ◌≡◌ {A = Result ObjectError (Unit {0}) × Objects}
        (ok tt, erase p s)
        (err (ObjectError.not_found q), t)
    → read_object p t ≡ err (ObjectError.not_found p)
erased_answers_ok p q s t e = cc

abbrev pub memory : ObjectStore Objects
memory = record {
  get = read_object;
  get_bounded = λ p start end s. read_object p s >>= λ d. ok (take (end - start) (drop start d));
  head = head_object;
  put = λ p d s. (ok tt, (p, d) ∷ s);
  delete = λ p s. (ok tt, erase p s);
  list = λ p s. ok (
      map
        (λ (e : Text × Text). record {
          filename = strip_prefix (p ++ codes "/") e.0;
          size = length e.1;
          last_modified = pos 0;
        })
        s);
  get-put =
      λ p d s t e. subst (λ u. read_object p u ≡ ok d) (ap (λ r. r.1) e) (read_object_here p d s);
  head-put = λ p d s t e. (
    meta_of d,
    subst (λ u. head_object p u ≡ ok (meta_of d)) (ap (λ r. r.1) e) (head_object_here p d s),
  );
  get-put_other = λ p q d s n. read_object_later p q d s n;
  get-delete_other = λ p q s n. read_object-erase_other p q s n;
  get-delete = λ p s t e.
      subst (λ u. read_object p u ≡ err (ObjectError.not_found p)) (ap (λ r. r.1) e)
        (read_object-erase p s);
  get-delete_missing = λ p q s t e. erased_answers_ok p q s t e;
}
