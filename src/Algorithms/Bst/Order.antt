-- ===== src/Algorithms/Bst/Order.antt =====
-- The search-tree order, the in-order list, and what `insert` does to them.
use dev_box.Prelude.{
  ◌≡◌, ◌↔◌, ◌⊎◌, inl, inr, refl, List, [], ◌∷◌, ◌++◌, arith, All, All-append, All-split, All-map,
  In, In-append_left, In-append_right, In-append_cases, Bool-cases,
}
use dev_box.Prelude.Int.{ℤ, ltb_ℤ, ◌<ℤ◌, eq_of_parts}
use dev_box.Algorithms.Bst.{Tree, null, node, insert, insert_all}

unfoldable pub in_order : Tree → List ℤ
in_order null = []
in_order (node v l r) = in_order l ++ v ∷ in_order r

-- Each node lies above its left subtree and below its right one.
abbrev pub IsOrdered : Tree → Type 0
IsOrdered null = Unit
IsOrdered (node v l r) =
    All (λ x. x <ℤ v) (in_order l) × All (λ x. v <ℤ x) (in_order r) × IsOrdered l × IsOrdered r

abbrev pub IsSorted : List ℤ → Type 0
IsSorted [] = Unit
IsSorted (x ∷ xs) = All (λ y. x <ℤ y) xs × IsSorted xs

IsSorted-append :
    (xs : List ℤ) (v : ℤ) (ys : List ℤ)
    → IsSorted xs
    → All (λ x. x <ℤ v) xs
    → All (λ y. v <ℤ y) ys
    → IsSorted ys
    → IsSorted (xs ++ v ∷ ys)
IsSorted-append [] v ys s below above s' = (above, s')
IsSorted-append (x ∷ xs) v ys (h, s) (lt, below) above s' = (
  All-append (λ y. x <ℤ y) xs (v ∷ ys) h (lt, All-map (λ y k. omega arith) ys above),
  IsSorted-append xs v ys s below above s',
)

-- An in-order walk of an ordered tree is strictly increasing.
pub in_order-IsSorted : (t : Tree) → IsOrdered t → IsSorted (in_order t)
unfolding in_order
in_order-IsSorted null h = tt
in_order-IsSorted (node v l r) (below, above, hl, hr) =
    IsSorted-append (in_order l) v (in_order r) (in_order-IsSorted l hl) below above
      (in_order-IsSorted r hr)

-- The three ways through a node.
pub insert-cases :
    (w : ℤ) (l r : Tree) (v : ℤ)
    → ((v <ℤ w) × (insert (node w l r) v ≡ node w (insert l v) r))
      ⊎ ((w <ℤ v) × (insert (node w l r) v ≡ node w l (insert r v)))
      ⊎ ((v ≡ w) × (insert (node w l r) v ≡ node w l r))
unfolding insert
insert-cases w l r v = elim (Bool-cases (ltb_ℤ v w)) [
  | inl lt ↦ inl (ground arith, rw lt refl)
  | inr ge ↦ elim (Bool-cases (ltb_ℤ w v)) [
    | inl gt ↦ inr (inl (ground arith, rw (ge, gt) refl))
    | inr le ↦ inr (inr (eq_of_parts v w (ground arith), rw (ge, le) refl))
  ]
]

insert-All :
    (P : ℤ → Type 0) (t : Tree) (v : ℤ) → All P (in_order t) → P v → All P (in_order (insert t v))
unfolding in_order
insert-All P null v h p = unfold insert in (p, tt)
insert-All P (node w l r) v h p =
    let (hl, (hw, hr)) = All-split P (in_order l) (w ∷ in_order r) h in
    elim (insert-cases w l r v) [
      | inl (_, e) ↦
          rw e
            (All-append P (in_order (insert l v)) (w ∷ in_order r) (insert-All P l v hl p) (hw, hr))
      | inr (inl (_, e)) ↦
          rw e
            (All-append P (in_order l) (w ∷ in_order (insert r v)) hl (hw, insert-All P r v hr p))
      | inr (inr (_, e)) ↦ rw e h
    ]

pub insert-IsOrdered : (t : Tree) (v : ℤ) → IsOrdered t → IsOrdered (insert t v)
insert-IsOrdered null v h = unfold insert in_order in (tt, tt, tt, tt)
insert-IsOrdered (node w l r) v (below, above, hl, hr) = elim (insert-cases w l r v) [
  | inl (lt, e) ↦ rw e (insert-All (λ x. x <ℤ w) l v below lt, above, insert-IsOrdered l v hl, hr)
  | inr (inl (gt, e)) ↦
      rw e (below, insert-All (λ x. w <ℤ x) r v above gt, hl, insert-IsOrdered r v hr)
  | inr (inr (_, e)) ↦ rw e (below, above, hl, hr)
]

pub insert_all-IsOrdered : (t : Tree) (vs : List ℤ) → IsOrdered t → IsOrdered (insert_all t vs)
unfolding insert_all
insert_all-IsOrdered t [] h = h
insert_all-IsOrdered t (v ∷ vs) h = insert_all-IsOrdered (insert t v) vs (insert-IsOrdered t v h)

-- The values of a tree, by its shape.
abbrev pub InTree : ℤ → Tree → Type 0
InTree a null = ⊥
InTree a (node w l r) = (a ≡ w) ⊎ (InTree a l ⊎ InTree a r)

pub InTree-in_order : (a : ℤ) (t : Tree) → InTree a t ↔ In a (in_order t)
unfolding in_order
InTree-in_order a null = (λ m. m, λ m. m)
InTree-in_order a (node w l r) = (
  λ m. elim m [
    | inl e ↦ In-append_right a (in_order l) (w ∷ in_order r) (inl e)
    | inr (inl i) ↦ In-append_left a (in_order l) (w ∷ in_order r) ((InTree-in_order a l).0 i)
    | inr (inr i) ↦
        In-append_right a (in_order l) (w ∷ in_order r) (inr ((InTree-in_order a r).0 i))
  ],
  λ m. elim (In-append_cases a (in_order l) (w ∷ in_order r) m) [
    | inl i ↦ inr (inl ((InTree-in_order a l).1 i))
    | inr (inl e) ↦ inl e
    | inr (inr i) ↦ inr (inr ((InTree-in_order a r).1 i))
  ],
)

-- An insertion adds the value and nothing else.
InTree-insert : (a : ℤ) (t : Tree) (v : ℤ) → InTree a (insert t v) ↔ (InTree a t ⊎ (a ≡ v))
InTree-insert a null v = unfold insert in ground arith
InTree-insert a (node w l r) v =
    let (to_l, from_l) = InTree-insert a l v in
    let (to_r, from_r) = InTree-insert a r v in
    elim (insert-cases w l r v) [
      | inl (_, e) ↦ rw e (grind arith)
      | inr (inl (_, e)) ↦ rw e (grind arith)
      | inr (inr (same, e)) ↦ rw e (grind arith)
    ]

pub InTree-insert_all :
    (a : ℤ) (t : Tree) (vs : List ℤ) → InTree a (insert_all t vs) ↔ (InTree a t ⊎ In a vs)
unfolding insert_all
InTree-insert_all a t [] = grind arith
InTree-insert_all a t (v ∷ vs) =
    let (to, from) = InTree-insert_all a (insert t v) vs in
    let (to', from') = InTree-insert a t v in grind arith
