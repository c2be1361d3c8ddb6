-- ===== src/Algorithms.antt =====
-- apps/web/src/modules/learning/algorithms: the algorithm visualizers.
pub mod Steps
pub mod Bst
pub mod Heap
pub mod HashTable
pub mod Sorting
mod Tests
