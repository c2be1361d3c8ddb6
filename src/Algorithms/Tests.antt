-- ===== src/Algorithms/Tests.antt =====
-- Runs of the visualizers, and the theorems about them at concrete inputs.
use dev_box.Prelude.{◌≡◌, ◌↔◌, ◌⊎◌, refl, List, [], ◌∷◌, arith, In, inl, some, last?}
use dev_box.Prelude.Int.{ℤ, pos, negsuc}
use dev_box.Algorithms.Steps.{Step, done}
use dev_box.Algorithms.Bst
use dev_box.Algorithms.Bst.{Tree, null, BstState, insert_rounds, insert_all}
use dev_box.Algorithms.Bst.Order.{IsOrdered, IsSorted, InTree}
use dev_box.Algorithms.Bst.Runs.{
  last_root, last_traversal, insert_rounds-insert_all, bst_insert_steps_lem, bst_in_order_steps_lem,
  bst_search_steps_lem,
}
use dev_box.Algorithms.HashTable.{
  linear_probing, quadratic_probing, HashTableState, Table, fill, start, hash_table_steps, snapshot,
}
use dev_box.Algorithms.HashTable.Rounds.{last_table, Fills, linear-full, hash_table_steps-Fills}

abbrev some_values : List ℤ
some_values = pos 5 ∷ negsuc 2 ∷ pos 8 ∷ pos 5 ∷ []

insert_rounds-insert_all_example : (insert_rounds null some_values).1 ≡ insert_all null some_values
insert_rounds-insert_all_example = insert_rounds-insert_all null some_values

bst_insert_steps_lem_example :
    (steps : List (Step BstState)) × (t : Tree) × (Bst.bst_insert_steps some_values ≡ done steps)
    × (last_root steps ≡ some t)
    × IsOrdered t
    × ((a : ℤ) → InTree a t ↔ In a some_values)
bst_insert_steps_lem_example = bst_insert_steps_lem some_values (omega arith)

bst_in_order_steps_lem_example :
    (steps : List (Step BstState)) × (traversal : List ℤ) × (Bst.bst_in_order_steps some_values
      ≡ done steps)
    × (last_traversal steps ≡ some traversal)
    × IsSorted traversal
    × ((a : ℤ) → In a traversal ↔ In a some_values)
bst_in_order_steps_lem_example = bst_in_order_steps_lem some_values (omega arith)

bst_search_steps_lem_example :
    (steps : List (Step BstState)) × (root : Tree) × (path : List ℤ) × (Bst.bst_search_steps
        some_values
        (pos 8)
      ≡ done steps)
    × ((In (pos 8) some_values × (last? steps ≡ some (Bst.found_step root (pos 8) path)))
        ⊎ (¬ In (pos 8) some_values × (last? steps ≡ some (Bst.missing_step root (pos 8) path))))
bst_search_steps_lem_example = bst_search_steps_lem some_values (pos 8) (omega arith)

hash_table_steps-Fills_example :
    (steps : List (Step HashTableState)) × (t : Table) × (hash_table_steps some_values
        (pos 4)
        quadratic_probing
      ≡ done steps)
    × (last_table steps ≡ some (snapshot 4 quadratic_probing t []))
    × Fills 4 quadratic_probing some_values (start 4 quadratic_probing) t
hash_table_steps-Fills_example =
    hash_table_steps-Fills some_values 4 quadratic_probing (omega arith) (omega arith) (omega arith)

linear-full_example : (fill 2 linear_probing some_values (start 2 linear_probing)).1.stored ≡ 2
unfolding fill
linear-full_example = linear-full 2 some_values (pos 8) (omega arith) (inl refl)

-- Quadratic probing refuses a value although a bucket is free.
quadratic_refusal :
    (fill 4 quadratic_probing (pos 0 ∷ pos 1 ∷ pos 4 ∷ []) (start 4 quadratic_probing)).1 ≡ record {
      buckets = (pos 0 ∷ []) ∷ (pos 1 ∷ []) ∷ [] ∷ [] ∷ [];
      rejected = pos 4 ∷ [];
      stored = 2;
    }
unfolding fill
quadratic_refusal = refl
