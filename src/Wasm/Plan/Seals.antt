-- ===== src/Wasm/Plan/Seals.antt =====
-- Where sealing a group puts its chunks. Source: `build_plan` of crates/wasm/src/lib.rs.
use openxet.Base.{
  ==_iff, All, Bool-cases, List, Option, Option-cases, [], ap, arith, get_elem?, inl, inr, length,
  map, ok, ok-injective, refl, some, subst, suc, sym, zero, ℕ, ◌%◌, ◌++◌, ◌+◌, ◌<◌, ◌==◌, ◌∙◌, ◌∷◌,
  ◌≡◌, ◌≢◌, ◌⊎◌,
}
use openxet.Text.{Text}
use openxet.Xorb.{u32_mod}
use openxet.Wasm.{Chunk, Placement}
use openxet.Wasm.Plan.{place_group, set_elem}

-- The element at an index.
abbrev pub At {ℓ} : {A : Type ℓ} → List A → ℕ → A → Type ℓ
At xs i a = get_elem? xs i ≡ some a

pub At-append {ℓ} : {A : Type ℓ} (xs ys : List A) (i : ℕ) (a : A) → At xs i a → At (xs ++ ys) i a
At-append [] ys i a e = cc
At-append (x ∷ xs) ys zero a e = e
At-append (x ∷ xs) ys (suc i) a e = At-append xs ys i a e

pub At-append_last {ℓ} : {A : Type ℓ} (xs : List A) (a : A) → At (xs ++ a ∷ []) (length xs) a
At-append_last [] a = refl
At-append_last (x ∷ xs) a = At-append_last xs a

pub At-append_cases {ℓ} :
    {A : Type ℓ} (xs : List A) (y : A) (i : ℕ) (a : A) → At (xs ++ y ∷ []) i a → At xs i a ⊎ (y ≡ a)
At-append_cases [] y zero a e = inr (ground (arith, e))
At-append_cases [] y (suc i) a e = cc
At-append_cases (x ∷ xs) y zero a e = inl e
At-append_cases (x ∷ xs) y (suc i) a e = At-append_cases xs y i a e

pub At-map {ℓ κ} :
    {A : Type ℓ} {B : Type κ} (f : A → B) (xs : List A) (i : ℕ) (a : A)
    → At xs i a
    → At (map f xs) i (f a)
At-map f [] i a e = cc
At-map f (x ∷ xs) zero a e = ground (arith, e)
At-map f (x ∷ xs) (suc i) a e = At-map f xs i a e

At-set_elem {ℓ} :
    {A : Type ℓ} (xs : List A) (k : ℕ) (a b : A) → At xs k b → At (set_elem xs k a) k a
At-set_elem [] k a b e = cc
At-set_elem (x ∷ xs) zero a b e = refl
At-set_elem (x ∷ xs) (suc k) a b e = At-set_elem xs k a b e

At-set_elem_other {ℓ} :
    {A : Type ℓ} (xs : List A) (k j : ℕ) (a b : A) → k ≢ j → At xs j b → At (set_elem xs k a) j b
At-set_elem_other [] k j a b n e = cc
At-set_elem_other (x ∷ xs) zero zero a b n e = absurd (n refl)
At-set_elem_other (x ∷ xs) zero (suc j) a b n e = e
At-set_elem_other (x ∷ xs) (suc k) zero a b n e = e
At-set_elem_other (x ∷ xs) (suc k) (suc j) a b n e =
    At-set_elem_other xs k j a b (λ q. n (ap suc q)) e

length-set_elem {ℓ} :
    {A : Type ℓ} (xs : List A) (k : ℕ) (a : A) → length (set_elem xs k a) ≡ length xs
length-set_elem [] k a = refl
length-set_elem (x ∷ xs) zero a = refl
length-set_elem (x ∷ xs) (suc k) a = ap suc (length-set_elem xs k a)

get_elem?-lt {ℓ} :
    {A : Type ℓ} (xs : List A) (k : ℕ) → k < length xs → (a : A) × (get_elem? xs k ≡ some a)
get_elem?-lt [] k h = absurd (omega arith)
get_elem?-lt (x ∷ xs) zero h = (x, refl)
get_elem?-lt (x ∷ xs) (suc k) h = get_elem?-lt xs k (omega arith)

-- The positions that a group takes, where each of its indices is in bounds.
abbrev pub placed_group :
    Text → ℕ → List (ℕ × Chunk) → List (Option Placement) → List (Option Placement)
placed_group h i [] pl = pl
placed_group h i ((k, c) ∷ g) pl =
    placed_group h (suc i) g
      (set_elem pl k (some (record { xorb_hash = h; index_in_xorb = i % u32_mod })))

pub place_group-eq-ok :
    (h : Text) (i : ℕ) (g : List (ℕ × Chunk)) (pl pl' : List (Option Placement))
    → place_group h i g pl ≡ ok pl'
    → placed_group h i g pl ≡ pl'
unfolding place_group
place_group-eq-ok h i [] pl pl' e = ok-injective e
place_group-eq-ok h i ((k, c) ∷ g) pl pl' e = elim (Option-cases (get_elem? pl k)) [
  | inl q ↦ absurd (ground (arith, q, e))
  | inr (o, q) ↦ place_group-eq-ok h (suc i) g _ pl' (ground (arith, q, e))
]

-- No index of the group is out of bounds.
pub place_group-total :
    (h : Text) (i : ℕ) (g : List (ℕ × Chunk)) (pl : List (Option Placement))
    → ((n j : ℕ) (c : Chunk) → At g n (j, c) → j < length pl)
    → (pl' : List (Option Placement)) × (place_group h i g pl ≡ ok pl')
unfolding place_group
place_group-total h i [] pl inside = (pl, refl)
place_group-total h i ((k, c) ∷ g) pl inside =
    let here = inside 0 k c refl in
    let v : Option Placement = some (record { xorb_hash = h; index_in_xorb = i % u32_mod }) in
    let (o, q) = get_elem?-lt pl k here in
    let (pl', e) =
      place_group-total h (suc i) g (set_elem pl k v)
        (λ n j d at. subst (λ m. j < m) (sym (length-set_elem pl k v)) (inside (suc n) j d at)) in
    (pl', rw (q, place_group) e)

pub length-placed_group :
    (h : Text) (i : ℕ) (g : List (ℕ × Chunk)) (pl : List (Option Placement))
    → length (placed_group h i g pl) ≡ length pl
length-placed_group h i [] pl = refl
length-placed_group h i ((k, c) ∷ g) pl = length-placed_group h (suc i) g _ ∙ length-set_elem pl k _

-- The place of the chunk at a position of a sealed group.
abbrev pub place_at : Text → ℕ → Placement
place_at h i = record { xorb_hash = h; index_in_xorb = i % u32_mod }

-- Sealing a group leaves a placement alone, if the group does not hold its index, or puts it at a
-- position at which the group holds the index.
pub placed_group-At :
    (h : Text) (i : ℕ) (g : List (ℕ × Chunk)) (pl : List (Option Placement)) (j : ℕ)
    (o : Option Placement)
    → At pl j o
    → (At (placed_group h i g pl) j o × All (λ e. e.0 ≢ j) g)
      ⊎ ((n : ℕ) × (c : Chunk) × At g n (j, c)
          × At (placed_group h i g pl) j (some (place_at h (n + i))))
placed_group-At h i [] pl j o e = inl (e, tt)
placed_group-At h i ((k, c) ∷ g) pl j o e =
    let placed_at = λ (l : List (Option Placement)) (m : ℕ).
      At (placed_group h (suc i) g l) j (some (place_at h m)) in
    elim (Bool-cases (k == j)) [
      | inl t ↦
          let q = (==_iff k j).0 t in
          let pl' = set_elem pl k (some (place_at h i)) in
          let here : At pl' j (some (place_at h i)) =
            subst (λ n. At pl' n (some (place_at h i))) q
              (At-set_elem pl k (some (place_at h i)) o (subst (λ n. At pl n o) (sym q) e)) in
          elim (placed_group-At h (suc i) g pl' j (some (place_at h i)) here) [
            | inl (kept, others) ↦
                inr (0, c, ap (λ n. some (n, c)) q, subst (placed_at pl') (omega arith) kept)
            | inr (n, d, at, placed) ↦
                inr (suc n, d, at, subst (placed_at pl') (omega arith) placed)
          ]
      | inr f ↦
          let pl' = set_elem pl k (some (place_at h i)) in
          let n : k ≢ j = λ q. ground (arith, (==_iff k j).1 q, f) in
          elim (placed_group-At h (suc i) g pl' j o
            (At-set_elem_other pl k j (some (place_at h i)) o n e)) [
              | inl (kept, others) ↦ inl (kept, (n, others))
              | inr (m, d, at, placed) ↦
                  inr (suc m, d, at, subst (placed_at pl') (omega arith) placed)
            ]
    ]
