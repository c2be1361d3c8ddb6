-- ===== src/Algorithms/HashTable/Probing.antt =====
-- One value put into a table: what it keeps, where the value goes, and when it is refused.
use dev_box.Prelude.{
  ℕ, zero, suc, ◌+◌, ◌*◌, ◌%◌, ◌≤◌, ◌<◌, ◌≡◌, ◌≢◌, ◌⊎◌, inl, inr, refl, ◌∙◌, ap, true, false, List,
  [], ◌∷◌, ◌++◌, arith, In, In-append_left, Bool-cases, length, ◌==◌, length-set, List-cases,
}
use native.Mathlib.Decide.{ℕ_discrete}
use native.Mathlib.Nat.{mod-lt}
use dev_box.Prelude.Int.{ℤ, nat_abs}
use dev_box.Algorithms.HashTable.{
  CollisionStrategy, chaining, linear_probing, quadratic_probing, Table, bucket, includes, push,
  hash_value, chain_value, offset, Probe, probe_loop, probe_value, reject, place,
}
use dev_box.Algorithms.HashTable.Buckets.{
  Stored, total, includes_iff, total-push, bucket-push_self, bucket-push_ne, push_keeps,
  push_stores, push_only,
}

pub occupied_keeps : (xs ys : List ℤ) → ((a : ℤ) → In a xs → In a ys) → xs ≢ [] → ys ≢ []
occupied_keeps [] ys keeps ne e = ne refl
occupied_keeps (x ∷ xs) ys keeps ne e = let m : In x [] = rw e at (keeps x (inl refl)) in m

module _ (size : ℕ) where
  -- The bucket where a value is looked for in an attempt: its home bucket under chaining, one bucket
  -- further with each attempt under linear probing, and by the square of the attempt under
  -- quadratic probing.
  abbrev pub probe_at : CollisionStrategy → ℤ → ℕ → ℕ
  probe_at chaining v k = nat_abs v % size
  probe_at linear_probing v k = (nat_abs v % size + k) % size
  probe_at quadratic_probing v k = (nat_abs v % size + k * k) % size

  -- What holds of the table between two rounds. Under open addressing a bucket has one entry at
  -- most. A value is in its home bucket under chaining, and otherwise in the bucket of one of its
  -- `size` attempts, with the buckets of all earlier attempts occupied.
  pub record IsTable (strategy : CollisionStrategy) (t : Table) : Type 0 where
    pub sized : length t.buckets ≡ size
    pub counted : t.stored ≡ total t.buckets
    pub single : strategy ≢ chaining → (i : ℕ) → length (bucket t i) ≤ 1
    pub placed :
        (v : ℤ) (i : ℕ)
        → In v (bucket t i)
        → (attempt : ℕ) × (attempt < size)
          × (i ≡ probe_at strategy v attempt)
          × ((k : ℕ) → k < attempt → bucket t (probe_at strategy v k) ≢ [])

  -- From `t` to `u` nothing stored is lost.
  pub record Grows (t u : Table) : Type 0 where
    pub keeps : (a : ℤ) (i : ℕ) → In a (bucket t i) → In a (bucket u i)
    pub refused : (a : ℤ) → In a t.rejected → In a u.rejected

  push-IsTable :
      (strategy : CollisionStrategy) (t : Table) (v : ℤ) (i attempt : ℕ)
      → IsTable strategy t
      → i < size
      → attempt < size
      → i ≡ probe_at strategy v attempt
      → ((k : ℕ) → k < attempt → bucket t (probe_at strategy v k) ≢ [])
      → (strategy ≢ chaining → bucket t i ≡ [])
      → IsTable strategy (push i v t)
  push-IsTable strategy t v i attempt h lt soon at before free =
      let fits : i < length t.buckets = rw h.sized lt in
      let still : (j : ℕ) → bucket t j ≢ [] → bucket (push i v t) j ≢ [] =
        λ j. occupied_keeps (bucket t j) (bucket (push i v t) j) (λ a. push_keeps i v t fits a j) in
      record {
        sized = unfold push in length-set t.buckets i _ ∙ h.sized;
        counted = unfold push in omega (arith, h.counted, total-push i v t fits);
        single = λ open' j. elim (ℕ_discrete i j) [
          | yes e ↦ rw (← e) (rw (bucket-push_self i v t fits, free open') (omega arith))
          | no ne ↦ rw (bucket-push_ne i j v t ne) (h.single open' j)
        ];
        placed = λ a j m. elim (push_only i v t fits a j m) [
          | inl old ↦
              let (k, few, at', earlier) = h.placed a j old in
              (k, few, at', λ m lt'. still (probe_at strategy a m) (earlier m lt'))
          | inr (same, here) ↦ (
            attempt,
            soon,
            rw (same, ← here) at,
            λ m lt'. rw same (still (probe_at strategy v m) (before m lt')),
          )
        ];
      }

  -- Under open addressing the code's bucket of an attempt.
  probe_at-offset :
      (strategy : CollisionStrategy) (v : ℤ) (k : ℕ)
      → strategy ≢ chaining
      → (hash_value v size + offset size strategy k) % size ≡ probe_at strategy v k
  unfolding hash_value offset
  probe_at-offset chaining v k open' = absurd (open' refl)
  probe_at-offset linear_probing v k open' = refl
  probe_at-offset quadratic_probing v k open' = refl

  reject-IsTable :
      (strategy : CollisionStrategy) (t : Table) (v : ℤ)
      → IsTable strategy t
      → IsTable strategy (reject v t)
  unfolding reject
  reject-IsTable strategy t v h = record {
    sized = h.sized;
    counted = h.counted;
    single = h.single;
    placed = h.placed;
  }

  -- A value is stored, or it is rejected and every bucket that its probes reach is occupied.
  pub record Places (strategy : CollisionStrategy) (v : ℤ) (t u : Table) : Type 0 where
    pub valid : IsTable strategy u
    pub grows : Grows t u
    pub only : (a : ℤ) (i : ℕ) → In a (bucket u i) → In a (bucket t i) ⊎ (a ≡ v)
    pub chained : strategy ≡ chaining → u.rejected ≡ t.rejected
    pub settled :
        Stored v u.buckets × (u.rejected ≡ t.rejected)
        ⊎ (u.rejected ≡ t.rejected ++ v ∷ [])
          × ((k : ℕ) → k < size → bucket u (probe_at strategy v k) ≢ [])

  -- What the probe loop gives for `v`, with `left` rounds to go from `attempt`.
  record Probes (strategy : CollisionStrategy) (v : ℤ) (attempt left : ℕ) (t : Table)
      (p : Probe size strategy) : Type 0 where
    valid : IsTable strategy p.table
    keeps : (a : ℤ) (i : ℕ) → In a (bucket t i) → In a (bucket p.table i)
    only : (a : ℤ) (i : ℕ) → In a (bucket p.table i) → In a (bucket t i) ⊎ (a ≡ v)
    rejected : p.table.rejected ≡ t.rejected
    stores : p.placed ≡ true → Stored v p.table.buckets
    passed :
        p.placed ≡ false
        → (k : ℕ) → k < left
        → bucket t ((hash_value v size + offset size strategy (attempt + k)) % size) ≢ []

  module _ (strategy : CollisionStrategy) (open' : strategy ≢ chaining) (pos' : 0 < size)
      (v : ℤ) where
    -- The bucket of this round is occupied, and so are those of the later rounds.
    passed_more :
        (t : Table) (attempt left : ℕ)
        → bucket t ((hash_value v size + offset size strategy attempt) % size) ≢ []
        → ((k : ℕ)
            → k < left
            → bucket t ((hash_value v size + offset size strategy (attempt + 1 + k)) % size) ≢ [])
        → (k : ℕ) → k < suc left
        → bucket t ((hash_value v size + offset size strategy (attempt + k)) % size) ≢ []
    passed_more t attempt left here later zero lt =
        let same : attempt + 0 ≡ attempt = omega arith in rw same here
    passed_more t attempt left here later (suc k) lt =
        let same : attempt + suc k ≡ attempt + 1 + k = omega arith in
        rw same (later k (omega arith))

    one_more :
        (t : Table) (attempt : ℕ)
        → bucket t ((hash_value v size + offset size strategy attempt) % size) ≢ []
        → ((k : ℕ) → k < attempt → bucket t (probe_at strategy v k) ≢ [])
        → (k : ℕ) → k < attempt + 1
        → bucket t (probe_at strategy v k) ≢ []
    one_more t attempt here before k lt = elim (ℕ_discrete k attempt) [
      | yes e ↦
          rw e (λ none'. here (ap (bucket t) (probe_at-offset strategy v attempt open') ∙ none'))
      | no ne ↦ before k (omega (arith, lt, ne))
    ]

    probe_loop-Probes :
        (left attempt : ℕ) (t : Table) (probed : List ℕ)
        → IsTable strategy t
        → attempt + left ≡ size
        → ((k : ℕ) → k < attempt → bucket t (probe_at strategy v k) ≢ [])
        → Probes strategy v attempt left t (probe_loop size strategy v left attempt t probed)
    unfolding probe_loop
    probe_loop-Probes zero attempt t probed h sum before = record {
      valid = h;
      keeps = λ a i m. m;
      only = λ a i m. inl m;
      rejected = refl;
      stores = λ e. absurd (cc e);
      passed = λ _ k lt. absurd (omega arith);
    }
    probe_loop-Probes (suc left) attempt t probed h sum before =
        let i = (hash_value v size + offset size strategy attempt) % size in
        let lt : i < size = mod-lt (hash_value v size + offset size strategy attempt) pos' in
        let fits : i < length t.buckets = rw h.sized lt in
        elim (Bool-cases (includes (bucket t i) v)) [
          | inl found ↦
              rw (probe_loop, found)
                (record {
                  valid = h;
                  keeps = λ a j m. m;
                  only = λ a j m. inl m;
                  rejected = refl;
                  stores = λ _. (i, (includes_iff (bucket t i) v).0 found);
                  passed = λ e. absurd (cc e);
                })
          | inr new ↦ elim (List-cases (bucket t i)) [
            | inl free ↦
                let empty : (length (bucket t i) == 0) ≡ true = rw free refl in
                rw (probe_loop, new, empty)
                  (record {
                    valid =
                        push-IsTable strategy t v i attempt h lt (omega (arith, sum))
                          (probe_at-offset strategy v attempt open') before (λ _. free);
                    keeps = push_keeps i v t fits;
                    only = λ a j m. elim (push_only i v t fits a j m) [
                      | inl old ↦ inl old
                      | inr (same, _) ↦ inr same
                    ];
                    rejected = unfold push in refl;
                    stores = λ _. (i, push_stores i v t fits);
                    passed = λ e. absurd (cc e);
                  })
            | inr (x, xs, full) ↦
                let r =
                  probe_loop-Probes left (attempt + 1) t (probed ++ i ∷ []) h (omega (arith, sum))
                    (one_more t attempt (λ none'. cc (none', full)) before) in
                let taken : (length (bucket t i) == 0) ≡ false = rw full (ground arith) in
                rw (probe_loop, new, taken)
                  (record {
                    valid = r.valid;
                    keeps = r.keeps;
                    only = r.only;
                    rejected = r.rejected;
                    stores = r.stores;
                    passed = λ e k lt'.
                        passed_more t attempt left (λ none'. cc (none', full)) (r.passed e) k lt';
                  })
          ]
        ]

    from_zero :
        (t : Table) (v : ℤ) (k : ℕ)
        → bucket t ((hash_value v size + offset size strategy (0 + k)) % size) ≢ []
        → bucket t (probe_at strategy v k) ≢ []
    from_zero t v k h none' =
        let same : 0 + k ≡ k = omega arith in
        h (
          ap (λ m. bucket t ((hash_value v size + offset size strategy m) % size)) same
          ∙ ap (bucket t) (probe_at-offset strategy v k open')
          ∙ none')

    pub probe_value-Places :
        (t : Table) → IsTable strategy t → Places strategy v t (probe_value size strategy v t).1
    unfolding probe_value reject
    probe_value-Places t h =
        let p = probe_loop size strategy v size 0 t [] in
        let r =
          probe_loop-Probes size 0 t [] h (omega arith) (λ k lt. absurd (omega (arith, lt))) in
        elim (Bool-cases p.placed) [
          | inl placed ↦
              rw (probe_value, placed)
                (record {
                  valid = r.valid;
                  grows = record { keeps = r.keeps; refused = λ a m. rw r.rejected m };
                  only = r.only;
                  chained = λ e. absurd (open' e);
                  settled = inl (r.stores placed, r.rejected);
                })
          | inr refused ↦
              rw (probe_value, refused)
                (record {
                  valid = reject-IsTable strategy p.table v r.valid;
                  grows = record {
                    keeps = r.keeps;
                    refused = λ a m. In-append_left a p.table.rejected (v ∷ []) (rw r.rejected m);
                  };
                  only = r.only;
                  chained = λ e. absurd (open' e);
                  settled = inr (
                    ap (λ l. l ++ v ∷ []) r.rejected,
                    λ k lt.
                        occupied_keeps (bucket t (probe_at strategy v k))
                          (bucket p.table (probe_at strategy v k))
                          (λ a m. r.keeps a (probe_at strategy v k) m)
                          (from_zero t v k (r.passed refused k lt)),
                  );
                })
        ]

  chain_value-Places :
      (v : ℤ) (t : Table)
      → 0 < size
      → IsTable chaining t
      → Places chaining v t (chain_value size chaining v t).1
  unfolding chain_value
  chain_value-Places v t pos' h =
      let home = hash_value v size in
      let lt : home < size = unfold hash_value in mod-lt (nat_abs v) pos' in
      let fits : home < length t.buckets = rw h.sized lt in
      elim (Bool-cases (includes (bucket t home) v)) [
        | inl found ↦
            rw (chain_value, found)
              (record {
                valid = h;
                grows = record { keeps = λ a i m. m; refused = λ a m. m };
                only = λ a i m. inl m;
                chained = λ _. refl;
                settled = inl ((home, (includes_iff (bucket t home) v).0 found), refl);
              })
        | inr new ↦
            rw (chain_value, new)
              (record {
                valid =
                    push-IsTable chaining t v home 0 h lt pos' (unfold hash_value in refl)
                      (λ k lt'. absurd (omega (arith, lt'))) (λ ne. absurd (ne refl));
                grows = record {
                  keeps = push_keeps home v t fits;
                  refused = λ a m. unfold push in m;
                };
                only = λ a i m. elim (push_only home v t fits a i m) [
                  | inl old ↦ inl old
                  | inr (same, _) ↦ inr same
                ];
                chained = λ _. unfold push in refl;
                settled = inl ((home, push_stores home v t fits), unfold push in refl);
              })
      ]

  pub place-Places :
      (strategy : CollisionStrategy) (v : ℤ) (t : Table)
      → 0 < size
      → IsTable strategy t
      → Places strategy v t (place size strategy v t).1
  unfolding place
  place-Places chaining v t pos' h = chain_value-Places v t pos' h
  place-Places linear_probing v t pos' h = probe_value-Places linear_probing (cc) pos' v t h
  place-Places quadratic_probing v t pos' h = probe_value-Places quadratic_probing (cc) pos' v t h
