-- ===== src/Algorithms/HashTable/Buckets.antt =====
-- What is stored in the buckets, and what a push changes.
use dev_box.Prelude.{
  ℕ, zero, suc, ◌+◌, ◌≤◌, ◌<◌, ◌≡◌, ◌≢◌, ◌↔◌, ◌⊎◌, inl, inr, refl, sym, true, List, [], ◌∷◌, ◌++◌,
  arith, In, In-append_left, In-append_right, In-append_cases, Bool-cases, length, get_or, set,
  replicate, length-append, get_or-set_self, get_or-set_ne, get_or-replicate,
}
use native.Mathlib.Decide.{ℕ_discrete}
use dev_box.Prelude.Int.{ℤ, eqb_ℤ, eqb_ℤ_iff}
use dev_box.Algorithms.HashTable.{Buckets, Table, bucket, includes, push}

-- The value stands in some bucket.
abbrev pub Stored : ℤ → Buckets → Type 0
Stored v b = (i : ℕ) × In v (get_or b i [])

-- The number of entries.
pub total : Buckets → ℕ
total [] = 0
total (x ∷ xs) = length x + total xs

pub includes_iff : (xs : List ℤ) (v : ℤ) → (includes xs v ≡ true) ↔ In v xs
unfolding includes
includes_iff [] v = (λ h. cc, λ m. absurd m)
includes_iff (x ∷ xs) v =
    let (to, from) = includes_iff xs v in
    let (eq, same) = eqb_ℤ_iff x v in
    elim (Bool-cases (eqb_ℤ x v)) [
      | inl e ↦ (λ _. inl (sym (eq e)), λ _. rw e refl)
      | inr ne ↦ (
        λ h. inr (to (rw ne at h)),
        λ m. elim m [ inl e ↦ absurd (cc (ne, same (sym e))) | inr m' ↦ rw ne (from m') ],
      )
    ]

total-set :
    (b : Buckets) (i : ℕ) (x : List ℤ)
    → i < length b
    → total (set b i x) + length (get_or b i []) ≡ total b + length x
unfolding total
total-set [] i x h = elim h [ ]
total-set (y ∷ b) zero x h = omega arith
total-set (y ∷ b) (suc i) x h = omega (arith, total-set b i x (omega arith))

pub total-push :
    (i : ℕ) (v : ℤ) (t : Table)
    → i < length t.buckets
    → total (push i v t).buckets ≡ total t.buckets + 1
unfolding push
total-push i v t h =
    omega (
      arith,
      total-set t.buckets i (bucket t i ++ v ∷ []) h,
      length-append {0} (bucket t i) (v ∷ []),
    )

pub bucket-push_self :
    (i : ℕ) (v : ℤ) (t : Table)
    → i < length t.buckets
    → bucket (push i v t) i ≡ bucket t i ++ v ∷ []
unfolding push
bucket-push_self i v t h = get_or-set_self t.buckets i (bucket t i ++ v ∷ []) [] h

pub bucket-push_ne : (i j : ℕ) (v : ℤ) (t : Table) → i ≢ j → bucket (push i v t) j ≡ bucket t j
unfolding push
bucket-push_ne i j v t ne = get_or-set_ne t.buckets i j (bucket t i ++ v ∷ []) [] ne

-- A push keeps what is stored, and adds the value only.
module _ (i : ℕ) (v : ℤ) (t : Table) (h : i < length t.buckets) where
  pub push_keeps : (a : ℤ) (j : ℕ) → In a (bucket t j) → In a (bucket (push i v t) j)
  push_keeps a j m = elim (ℕ_discrete i j) [
    | yes e ↦
        rw (← e)
          (rw (bucket-push_self i v t h) (In-append_left a (bucket t i) (v ∷ []) (rw (← e) at m)))
    | no ne ↦ rw (bucket-push_ne i j v t ne) m
  ]

  pub push_stores : In v (bucket (push i v t) i)
  push_stores = rw (bucket-push_self i v t h) (In-append_right v (bucket t i) (v ∷ []) (inl refl))

  pub push_only :
      (a : ℤ) (j : ℕ) → In a (bucket (push i v t) j) → In a (bucket t j) ⊎ ((a ≡ v) × (i ≡ j))
  push_only a j m = elim (ℕ_discrete i j) [
    | yes e ↦
        let m' : In a (bucket t i ++ v ∷ []) = rw (bucket-push_self i v t h) at (rw (← e) at m) in
        elim (In-append_cases a (bucket t i) (v ∷ []) m') [
          | inl old ↦ inl (rw (← e) old)
          | inr (inl new) ↦ inr (new, e)
          | inr (inr none') ↦ absurd none'
        ]
    | no ne ↦ inl (rw (bucket-push_ne i j v t ne) at m)
  ]

pub Stored-replicate : (n : ℕ) (a : ℤ) → ¬ Stored a (replicate n [])
Stored-replicate n a (i, m) = rw (get_or-replicate {A = List ℤ} n i []) at m

pub total-replicate : (n : ℕ) → total (replicate n []) ≡ 0
unfolding total
total-replicate zero = refl
total-replicate (suc n) = omega (arith, total-replicate n)

-- No bucket empty: as many entries as buckets, or more; at most one in each: no more.
pub total-full : (b : Buckets) → ((i : ℕ) → i < length b → get_or b i [] ≢ []) → length b ≤ total b
unfolding total
total-full [] h = omega arith
total-full ([] ∷ b) h = absurd (h 0 (omega arith) refl)
total-full ((x ∷ xs) ∷ b) h = omega (arith, total-full b (λ i lt. h (suc i) (omega arith)))

pub total-single : (b : Buckets) → ((i : ℕ) → length (get_or b i []) ≤ 1) → total b ≤ length b
unfolding total
total-single [] h = omega arith
total-single (x ∷ b) h = omega (arith, total-single b (λ i. h (suc i)), h 0)
