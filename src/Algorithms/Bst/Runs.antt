-- ===== src/Algorithms/Bst/Runs.antt =====
-- What the runs of the tree visualizers show in the end.
use dev_box.Prelude.{
  ◌≤◌, ◌≡◌, ◌↔◌, ◌⊎◌, inl, inr, refl, sym, ◌∙◌, ap, Bool, true, false, List, [], ◌∷◌, ◌++◌,
  append_assoc, append-nil, arith, In, All, All-In, Bool-cases, Option, some, length, last?,
  last?-concat, last?-cons,
}
use mathlib.Core.Option
use dev_box.Prelude.Int.{ℤ, ltb_ℤ, eqb_ℤ, ◌<ℤ◌, eqb_ℤ_iff}
use dev_box.Algorithms.Steps.{Step, done, assert_size-done, max_elements}
use dev_box.Algorithms.Bst.{
  Tree, null, node, BstState, insert, insert_all, insert_walk, insert_round, insert_rounds,
  bst_insert_steps, walk, bst_in_order_steps, found_step, missing_step, discard_step, search_start,
  search_walk, bst_search_steps, insert_start, insert_end, walk_start, walk_end,
}
use dev_box.Algorithms.Bst.Order.{
  in_order, IsOrdered, IsSorted, in_order-IsSorted, insert-cases, insert_all-IsOrdered, InTree,
  InTree-in_order, InTree-insert_all,
}

-- The tree and the traversal that the last step of a run shows.
abbrev pub last_root : List (Step BstState) → Option Tree
last_root steps = Option.map (λ (s : Step BstState). s.state.root) (last? steps)

abbrev pub last_traversal : List (Step BstState) → Option (List ℤ)
last_traversal steps = Option.map (λ (s : Step BstState). s.state.traversal) (last? steps)

-- The cursor of `bstInsertSteps` writes the tree that the recursive `insert` builds.
insert_walk-insert :
    (v : ℤ) (root : Tree) (plug : Tree → Tree) (to_left : Bool) (t : Tree) (path : List ℤ)
    → root ≡ plug t
    → (insert_walk v root plug to_left t path).1 ≡ plug (insert t v)
unfolding insert_walk
insert_walk-insert v root plug to_left null path e = unfold insert in refl
insert_walk-insert v root plug to_left (node w l r) path e = elim (insert-cases w l r v) [
  | inl (lt, same) ↦
      let ne : eqb_ℤ v w ≡ false = ground arith in
      let left : ltb_ℤ v w ≡ true = ground arith in
      rw (ne, left)
        (insert_walk-insert v root (λ t. plug (node w t r)) true l (path ++ w ∷ []) e
          ∙ ap plug (sym same))
  | inr (inl (gt, same)) ↦
      let ne : eqb_ℤ v w ≡ false = ground arith in
      let right : ltb_ℤ v w ≡ false = ground arith in
      rw (ne, right)
        (insert_walk-insert v root (λ t. plug (node w l t)) false r (path ++ w ∷ []) e
          ∙ ap plug (sym same))
  | inr (inr (here, same)) ↦
      let eq : eqb_ℤ v w ≡ true = (eqb_ℤ_iff v w).1 here in rw eq (e ∙ ap plug (sym same))
]

insert_round-insert : (root : Tree) (v : ℤ) → (insert_round root v).1 ≡ insert root v
unfolding insert_round
insert_round-insert null v = unfold insert in refl
insert_round-insert (node w l r) v =
    insert_walk-insert v (node w l r) (λ t. t) false (node w l r) [] refl

-- The narrated insertions, which move a cursor and write through it, leave the tree that the
-- recursive `insert` builds from the same values.
pub insert_rounds-insert_all :
    (root : Tree) (vs : List ℤ) → (insert_rounds root vs).1 ≡ insert_all root vs
unfolding insert_rounds insert_all
insert_rounds-insert_all root [] = refl
insert_rounds-insert_all root (v ∷ vs) =
    insert_rounds-insert_all (insert_round root v).1 vs
    ∙ ap (λ t. insert_all t vs) (insert_round-insert root v)

-- The generator `walk` adds the in-order list of the subtree.
walk-in_order :
    (root t : Tree) (path traversal : List ℤ)
    → (walk root t path traversal).1 ≡ traversal ++ in_order t
unfolding walk in_order
walk-in_order root null path traversal = sym (append-nil traversal)
walk-in_order root (node v l r) path traversal =
    simp (walk-in_order root l, walk-in_order root r, append_assoc)

-- The tree of a run is ordered and holds the values that were given, and no others.
built-IsOrdered : (vs : List ℤ) → IsOrdered (insert_all null vs)
built-IsOrdered vs = insert_all-IsOrdered null vs tt

built-InTree : (a : ℤ) (vs : List ℤ) → InTree a (insert_all null vs) ↔ In a vs
built-InTree a vs = let (to, from) = InTree-insert_all a null vs in grind arith

-- The last step of an accepted insertion run shows the tree of all values.
pub bst_insert_steps_lem :
    (values : List ℤ)
    → length values ≤ max_elements
    → (steps : List (Step BstState)) × (t : Tree) × (bst_insert_steps values ≡ done steps)
      × (last_root steps ≡ some t)
      × IsOrdered t
      × ((a : ℤ) → InTree a t ↔ In a values)
unfolding bst_insert_steps
bst_insert_steps_lem values fits =
    let root = (insert_rounds null values).1 in
    let same = insert_rounds-insert_all null values in
    (
      _,
      root,
      assert_size-done values "Tree input" _ fits,
      ap (Option.map (λ (s : Step BstState). s.state.root))
          (last?-concat (insert_start ∷ (insert_rounds null values).0) (insert_end root)),
      rw same (built-IsOrdered values),
      rw same (λ a. built-InTree a values),
    )

-- The last step of an accepted in-order run shows a traversal that is strictly increasing and
-- holds exactly the values that were given.
pub bst_in_order_steps_lem :
    (values : List ℤ)
    → length values ≤ max_elements
    → (steps : List (Step BstState)) × (traversal : List ℤ) × (bst_in_order_steps values
        ≡ done steps)
      × (last_traversal steps ≡ some traversal)
      × IsSorted traversal
      × ((a : ℤ) → In a traversal ↔ In a values)
unfolding bst_in_order_steps
bst_in_order_steps_lem values fits =
    let root = insert_all null values in
    let same : (walk root root [] []).1 ≡ in_order root = walk-in_order root root [] [] in
    (
      _,
      (walk root root [] []).1,
      assert_size-done values "Tree input" _ fits,
      ap (Option.map (λ (s : Step BstState). s.state.traversal)) (
          last?-concat (walk_start root ∷ (walk root root [] []).0)
            (walk_end root (walk root root [] []).1)),
      rw same (in_order-IsSorted root (built-IsOrdered values)),
      λ a.
          let (to, from) = InTree-in_order a root in
          let (to', from') = built-InTree a values in
          rw same (λ m. to' (from m), λ m. to (from' m)),
    )

three_ways : (a b : ℤ) → (a ≡ b) ⊎ (a <ℤ b) ⊎ (b <ℤ a)
three_ways a b = elim (Bool-cases (eqb_ℤ a b)) [
  | inl e ↦ inl ((eqb_ℤ_iff a b).0 e)
  | inr ne ↦ elim (Bool-cases (ltb_ℤ a b)) [
    | inl lt ↦ inr (inl (ground arith))
    | inr ge ↦ inr (inr (ground arith))
  ]
]

lt_irrefl : (a b : ℤ) → a <ℤ b → a ≡ b → ⊥
lt_irrefl a b lt e = let same : b <ℤ b = rw e at lt in absurd (omega arith)

-- A subtree on the other side of the comparison cannot hold the target.
not-InTree :
    (target : ℤ) (P : ℤ → Type 0) (t : Tree) → All P (in_order t) → ¬ P target → ¬ InTree target t
not-InTree target P t h np m = np (All-In P target (in_order t) h ((InTree-in_order target t).0 m))

-- The search ends in a found step exactly if the tree holds the target.
search_walk_lem :
    (root : Tree) (target : ℤ) (t : Tree) (path : List ℤ)
    → IsOrdered t
    → (InTree target t
        × ((p : List ℤ) × (last? (search_walk root target t path)
              ≡ some (found_step root target p))))
      ⊎ (¬ InTree target t
          × ((p : List ℤ) × (last? (search_walk root target t path)
                ≡ some (missing_step root target p))))
unfolding search_walk
search_walk_lem root target null path h = inr (λ m. m, (path, refl))
search_walk_lem root target (node w l r) path (below, above, hl, hr) =
    let here = path ++ w ∷ [] in
    elim (three_ways target w) [
      | inl e ↦
          let eq : eqb_ℤ w target ≡ true = (eqb_ℤ_iff w target).1 (sym e) in
          inl (inl e, (here, rw eq refl))
      | inr (inl lt) ↦
          let ne : eqb_ℤ w target ≡ false = ground arith in
          let left : ltb_ℤ target w ≡ true = ground arith in
          elim (search_walk_lem root target l here hl) [
            | inl (m, (p, e)) ↦ inl (
              inr (inl m),
              (
                p,
                rw (ne, left)
                    (last?-cons (discard_step root target w true here)
                      (search_walk root target l here) (found_step root target p) e),
              ),
            )
            | inr (nm, (p, e)) ↦ inr (
              λ m. elim m [
                | inl e ↦ absurd (lt_irrefl target w lt e)
                | inr (inl i) ↦ nm i
                | inr (inr i) ↦
                    not-InTree target (λ x. w <ℤ x) r above (λ k. absurd (omega arith)) i
              ],
              (
                p,
                rw (ne, left)
                    (last?-cons (discard_step root target w true here)
                      (search_walk root target l here) (missing_step root target p) e),
              ),
            )
          ]
      | inr (inr gt) ↦
          let ne : eqb_ℤ w target ≡ false = ground arith in
          let right : ltb_ℤ target w ≡ false = ground arith in
          elim (search_walk_lem root target r here hr) [
            | inl (m, (p, e)) ↦ inl (
              inr (inr m),
              (
                p,
                rw (ne, right)
                    (last?-cons (discard_step root target w false here)
                      (search_walk root target r here) (found_step root target p) e),
              ),
            )
            | inr (nm, (p, e)) ↦ inr (
              λ m. elim m [
                | inl e ↦ absurd (lt_irrefl w target gt (sym e))
                | inr (inl i) ↦
                    not-InTree target (λ x. x <ℤ w) l below (λ k. absurd (omega arith)) i
                | inr (inr i) ↦ nm i
              ],
              (
                p,
                rw (ne, right)
                    (last?-cons (discard_step root target w false here)
                      (search_walk root target r here) (missing_step root target p) e),
              ),
            )
          ]
    ]

-- An accepted search run ends with the step that reports the target as found if the target is
-- among the values, and with the step that reports a missing child if it is not.
pub bst_search_steps_lem :
    (values : List ℤ) (target : ℤ)
    → length values ≤ max_elements
    → (steps : List (Step BstState)) × (root : Tree) × (path : List ℤ) × (bst_search_steps values
          target
        ≡ done steps)
      × ((In target values × (last? steps ≡ some (found_step root target path)))
          ⊎ (¬ In target values × (last? steps ≡ some (missing_step root target path))))
unfolding bst_search_steps
bst_search_steps_lem values target fits =
    let root = insert_all null values in
    let (to, from) = built-InTree target values in
    let ran = assert_size-done values "Tree input" _ fits in
    elim (search_walk_lem root target root [] (built-IsOrdered values)) [
      | inl (m, (p, e)) ↦ (
        _,
        root,
        p,
        ran,
        inl (
          to m,
          last?-cons (search_start root target) (search_walk root target root [])
              (found_step root target p) e,
        ),
      )
      | inr (nm, (p, e)) ↦ (
        _,
        root,
        p,
        ran,
        inr (
          λ m. nm (from m),
          last?-cons (search_start root target) (search_walk root target root [])
              (missing_step root target p) e,
        ),
      )
    ]
