-- ===== src/Patchset/Concrete.antt =====
-- A heap that is a sorted list, and a hash map that yields its entries in reverse.
use mathlib.Core.List.{reverse, reverse-cons}
use git_cvs_fast_import.Prelude.{
  ℕ, ◌≤◌, List, [], ◌∷◌, refl, arith, leb, if◌then◌else◌, All, Bool-cases, inl, inr,
}
use git_cvs_fast_import.Prelude.Multiset.{SameItems, Sorted, total-append}
use git_cvs_fast_import.Patchset.Heap.{MinHeap, HashOrder}
use git_cvs_fast_import.Patchset.{PatchSetHeap, CommitHeap, patchset_time, commit_time}

module _ {A : Type 0} (key : A → ℕ) where
  unfoldable pub sorted_insert : A → List A → List A
  sorted_insert a [] = a ∷ []
  sorted_insert a (x ∷ xs) = if leb (key a) (key x) then a ∷ x ∷ xs else x ∷ sorted_insert a xs

  pub sorted_insert-SameItems : (a : A) (l : List A) → SameItems (sorted_insert a l) (a ∷ l)
  unfolding sorted_insert
  sorted_insert-SameItems a [] f = refl
  sorted_insert-SameItems a (x ∷ xs) f = ground (arith, sorted_insert-SameItems a xs f)

  All-le : (m n : ℕ) (l : List A) → m ≤ n → All (λ y. n ≤ key y) l → All (λ y. m ≤ key y) l
  All-le m n [] h below = tt
  All-le m n (x ∷ l) h below = (omega arith, All-le m n l h below.1)

  All-sorted_insert :
      (n : ℕ) (a : A) (l : List A)
      → n ≤ key a
      → All (λ y. n ≤ key y) l
      → All (λ y. n ≤ key y) (sorted_insert a l)
  unfolding sorted_insert
  All-sorted_insert n a [] h below = (h, tt)
  All-sorted_insert n a (x ∷ xs) h below = elim (Bool-cases (leb (key a) (key x))) [
    | inl le ↦ rw le (h, below)
    | inr gt ↦ rw gt (below.0, All-sorted_insert n a xs h below.1)
  ]

  pub Sorted-sorted_insert : (a : A) (l : List A) → Sorted key l → Sorted key (sorted_insert a l)
  unfolding sorted_insert
  Sorted-sorted_insert a [] s = (tt, tt)
  Sorted-sorted_insert a (x ∷ xs) s = elim (Bool-cases (leb (key a) (key x))) [
    | inl le ↦ rw le ((ground arith, All-le (key a) (key x) xs (ground arith) s.0), s)
    | inr gt ↦
        rw gt (All-sorted_insert (key x) a xs (ground arith) s.0, Sorted-sorted_insert a xs s.1)
  ]

  pub record SortedList : Type 0 where
    pub items : List A
    pub ascending : Sorted key items

  unfoldable pub sorted_list_heap : MinHeap A key
  unfolding sorted_insert
  sorted_list_heap = record {
    Heap = SortedList;
    new_min = record { items = []; ascending = tt };
    push = λ a h. record {
      items = sorted_insert a h.items;
      ascending = Sorted-sorted_insert a h.items h.ascending;
    };
    into_iter_sorted = λ h. h.items;
    into_iter_sorted-new_min = refl;
    into_iter_sorted-push = λ a h. sorted_insert-SameItems a h.items;
    into_iter_sorted-Sorted = λ h. h.ascending;
  }

pub reverse-SameItems : (A : Type 0) (l : List A) → SameItems (reverse l) l
reverse-SameItems A [] f = refl
reverse-SameItems A (x ∷ l) f =
    rw reverse-cons (omega (arith, total-append f (reverse l) (x ∷ []), reverse-SameItems A l f))

abbrev pub reversed : HashOrder
reversed = record { order = λ A l. reverse l; order-SameItems = reverse-SameItems }

abbrev pub commit_heap : CommitHeap ℕ
commit_heap = sorted_list_heap commit_time

abbrev pub patchset_heap : PatchSetHeap ℕ
patchset_heap = sorted_list_heap patchset_time
