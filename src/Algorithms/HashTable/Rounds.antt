-- ===== src/Algorithms/HashTable/Rounds.antt =====
-- What a whole run leaves in the table.
use dev_box.Prelude.{
  ℕ, ◌+◌, ◌-◌, ◌%◌, ◌≤◌, ◌<◌, ◌≡◌, ◌≢◌, ◌⊎◌, inl, inr, refl, sym, ◌∙◌, ap, false, List, [], ◌∷◌,
  ◌++◌, arith, In, In-append_cases, In-append_right, length, length-replicate, get_or-replicate,
  last?, last?-concat, Option, some, ◌||◌,
}
use mathlib.Core.Option
use native.Mathlib.Nat.{mod-lt, mod-eq_of_lt, mod-eq-sub-mod}
use native.Mathlib.Decide.{dec_le}
use dev_box.Prelude.Int.{ℤ, pos, ltb_ℤ, nat_abs}
use dev_box.Algorithms.Steps.{Step, Run, done, assert_size-done, max_elements}
use dev_box.Algorithms.HashTable.{
  CollisionStrategy, chaining, linear_probing, HashTableState, Table, bucket, place, fill, start,
  run_table, hash_table_steps, snapshot, start_step, end_step,
}
use dev_box.Algorithms.HashTable.Buckets.{
  Stored, total-replicate, Stored-replicate, total-full, total-single,
}
use dev_box.Algorithms.HashTable.Probing.{
  IsTable, Grows, Places, probe_at, place-Places, occupied_keeps,
}

module _ (size : ℕ) (strategy : CollisionStrategy) where
  -- From `t`, the values `vs` were put into `u`.
  pub record Fills (vs : List ℤ) (t u : Table) : Type 0 where
    pub valid : IsTable size strategy u
    pub grows : Grows size t u
    pub only : (a : ℤ) (i : ℕ) → In a (bucket u i) → In a (bucket t i) ⊎ In a vs
    pub settled : (a : ℤ) → In a vs → Stored a u.buckets ⊎ In a u.rejected
    pub exhausted :
        (a : ℤ)
        → In a u.rejected
        → In a t.rejected
          ⊎ (In a vs × ((k : ℕ) → k < size → bucket u (probe_at size strategy a k) ≢ []))
    pub chained : strategy ≡ chaining → u.rejected ≡ t.rejected

  -- One value, and then the rest.
  Fills-cons :
      (v : ℤ) (vs : List ℤ) (t u w : Table)
      → Places size strategy v t u
      → Fills vs u w
      → Fills (v ∷ vs) t w
  Fills-cons v vs t u w p f = record {
    valid = f.valid;
    grows = record {
      keeps = λ a i m. f.grows.keeps a i (p.grows.keeps a i m);
      refused = λ a m. f.grows.refused a (p.grows.refused a m);
    };
    only = λ a i m. elim (f.only a i m) [
      | inr later ↦ inr (inr later)
      | inl m' ↦ elim (p.only a i m') [ inl old ↦ inl old | inr new ↦ inr (inl new) ]
    ];
    settled = λ a m. elim m [
      | inr later ↦ f.settled a later
      | inl e ↦ elim p.settled [
        | inl ((i, here), _) ↦ inl (i, rw e (f.grows.keeps v i here))
        | inr (last, _) ↦ inr (rw e (f.grows.refused v (rw last (at_end v t.rejected))))
      ]
    ];
    exhausted = λ a m. elim (f.exhausted a m) [
      | inr (later, full) ↦ inr (inr later, full)
      | inl m' ↦ elim p.settled [
        | inl (_, same) ↦ inl (rw same at m')
        | inr (last, full) ↦ elim (In-append_cases a t.rejected (v ∷ []) (rw last at m')) [
          | inl old ↦ inl old
          | inr (inl e) ↦ inr (
            inl e,
            λ k lt.
                occupied_keeps (bucket u (probe_at size strategy a k))
                  (bucket w (probe_at size strategy a k))
                  (λ b. f.grows.keeps b (probe_at size strategy a k)) (rw e (full k lt)),
          )
          | inr (inr none') ↦ absurd none'
        ]
      ]
    ];
    chained = λ e. f.chained e ∙ p.chained e;
  }
    where
      at_end : (v : ℤ) (xs : List ℤ) → In v (xs ++ v ∷ [])
      at_end v xs = In-append_right v xs (v ∷ []) (inl refl)

  fill-Fills :
      (vs : List ℤ) (t : Table)
      → 0 < size
      → IsTable size strategy t
      → Fills vs t (fill size strategy vs t).1
  unfolding fill
  fill-Fills [] t pos' h = record {
    valid = h;
    grows = record { keeps = λ a i m. m; refused = λ a m. m };
    only = λ a i m. inl m;
    settled = λ a m. absurd m;
    exhausted = λ a m. inl m;
    chained = λ _. refl;
  }
  fill-Fills (v ∷ vs) t pos' h =
      let p = place-Places size strategy v t pos' h in
      let u = (place size strategy v t).1 in
      Fills-cons v vs t u (fill size strategy vs u).1 p (fill-Fills vs u pos' p.valid)

  start-IsTable : IsTable size strategy (start size strategy)
  start-IsTable = record {
    sized = length-replicate size [];
    counted = sym (total-replicate size);
    single = λ _ i. rw (get_or-replicate {A = List ℤ} size i []) (omega arith);
    placed = λ v i m. absurd (Stored-replicate size v (i, m));
  }

-- A linear walk of `size` probes reaches every bucket.
linear_reaches :
    (size : ℕ) (v : ℤ) (j : ℕ)
    → j < size
    → (k : ℕ) × (k < size) × (j ≡ probe_at size linear_probing v k)
linear_reaches size v j lt =
    let home = nat_abs v % size in
    let in_range : home < size = mod-lt (nat_abs v) (omega arith) in
    elim (dec_le home j) [
      | yes le ↦
          let same : home + (j - home) ≡ j = omega arith in
          (j - home, omega arith, rw same (sym (mod-eq_of_lt lt)))
      | no gt ↦
          let same : home + (j + size - home) ≡ j + size = omega arith in
          let back : j + size - size ≡ j = omega arith in
          (
            j + size - home,
            omega arith,
            rw same (sym (mod-eq-sub-mod (omega arith) ∙ rw back (mod-eq_of_lt lt))),
          )
    ]

-- Under linear probing a value is rejected only when the table is full: as many values are stored
-- as there are buckets.
pub linear-full :
    (size : ℕ) (values : List ℤ) (v : ℤ)
    → 0 < size
    → In v (fill size linear_probing values (start size linear_probing)).1.rejected
    → (fill size linear_probing values (start size linear_probing)).1.stored ≡ size
linear-full size values v pos' m =
    let t = (fill size linear_probing values (start size linear_probing)).1 in
    let f =
      fill-Fills size linear_probing values (start size linear_probing) pos'
        (start-IsTable size linear_probing) in
    elim (f.exhausted v m) [
      | inl none' ↦ absurd none'
      | inr (_, full) ↦
          let occupied : (i : ℕ) → i < length t.buckets → bucket t i ≢ [] = λ i lt.
            let (k, lt', e) = linear_reaches size v i (rw f.valid.sized at lt) in
            rw e (full k lt') in
          let most = total-single t.buckets (f.valid.single (cc)) in
          let least = total-full t.buckets occupied in omega (arith, f.valid.counted, f.valid.sized)
    ]

-- The state of the last step.
abbrev pub last_table : List (Step HashTableState) → Option HashTableState
last_table steps = Option.map (λ (s : Step HashTableState). s.state) (last? steps)

-- A run over at most 128 values, in a table of 1 to 128 buckets, ends in a step that shows a table
-- into which the values were put: every value is stored or rejected and only given values are
-- stored; under chaining a stored value is in its home bucket and nothing is rejected; under open
-- addressing it is in the bucket of one of its first `size` attempts, with the buckets of all its
-- earlier attempts occupied, a bucket has at most one entry, and a rejected value finds the
-- buckets of all its attempts occupied; and the stored count is the number of entries.
pub hash_table_steps-Fills :
    (values : List ℤ) (size : ℕ) (strategy : CollisionStrategy)
    → length values ≤ max_elements
    → 0 < size
    → size ≤ max_elements
    → (steps : List (Step HashTableState)) × (t : Table) × (hash_table_steps values
          (pos size)
          strategy
        ≡ done steps)
      × (last_table steps ≡ some (snapshot size strategy t []))
      × Fills size strategy values (start size strategy) t
unfolding hash_table_steps run_table
hash_table_steps-Fills values size strategy short pos' small =
    let t = (fill size strategy values (start size strategy)).1 in
    (
      run_table size strategy values,
      t,
      accepted,
      ap (Option.map (λ (s : Step HashTableState). s.state)) (
          last?-concat
            (start_step size strategy ∷ (fill size strategy values (start size strategy)).0)
            (end_step size strategy t)),
      fill-Fills size strategy values (start size strategy) pos' (start-IsTable size strategy),
    )
  where
    in_bounds : (ltb_ℤ (pos size) (pos 1) || ltb_ℤ (pos max_elements) (pos size)) ≡ false
    in_bounds = ground arith

    accepted : hash_table_steps values (pos size) strategy ≡ done (run_table size strategy values)
    accepted =
        rw
          (
            hash_table_steps,
            assert_size-done {A = Run (List (Step HashTableState))} values "Hash table input" _
                short,
            in_bounds,
          )
          refl
