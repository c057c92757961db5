-- ===== src/Patchset/Heap.antt =====
-- What patchset/src/lib.rs uses of `binary_heap_plus::BinaryHeap` and of the iteration order of
-- `std::collections::HashMap`.
use git_cvs_fast_import.Prelude.{ℕ, List, [], ◌∷◌, ◌≡◌}
use git_cvs_fast_import.Prelude.Multiset.{SameItems, Sorted}

-- A `BinaryHeap<A, MinComparator>`; `key` is what `Ord for A` compares. Items with equal keys may come
-- out in any order.
pub record MinHeap (A : Type 0) (key : A → ℕ) : Type 1 where
  pub Heap : Type 0
  pub new_min : Heap
  pub push : A → Heap → Heap
  pub into_iter_sorted : Heap → List A
  pub into_iter_sorted-new_min : into_iter_sorted new_min ≡ []
  pub into_iter_sorted-push :
      (a : A) (h : Heap) → SameItems (into_iter_sorted (push a h)) (a ∷ into_iter_sorted h)
  pub into_iter_sorted-Sorted : (h : Heap) → Sorted key (into_iter_sorted h)

-- The order in which a hash map yields its entries.
pub record HashOrder : Type 1 where
  pub order : (A : Type 0) → List A → List A
  pub order-SameItems : (A : Type 0) (l : List A) → SameItems (order A l) l
