-- ===== src/Links/Tests.antt =====
-- The list operations of common/list.c run on small memories, and their theorems at these.
use neftis.Base.{◌≡◌, refl, [], ◌∷◌, ◌==◌, if◌then◌else◌, arith}
use neftis.Links.{Ptr, null, Memory, Returns, Cmd, ◌>>=◌}
use neftis.Links.Chain.{IsList, IsRing}
use neftis.Links.Circular.{
  circular_list_insert_tail, circular_list_remove_element, circular_list_scroll_next,
}
use neftis.Links.Circular.Insert.{circular_list_insert_tail-IsRing}
use neftis.Links.Circular.Remove.{circular_list_remove_element-IsRing}
use neftis.Links.Linear.{list_remove_element}
use neftis.Links.Linear.Remove.{list_remove_element-IsList}
use neftis.Links.Sorted.{sorted_list_insert}
use neftis.Links.Sorted.Order.{IsAscending}
use neftis.Links.Sorted.Insert.{sorted_list_insert-IsAscending}

-- The ring 1, 2, 3.
abbrev ring : Memory
ring = record {
  next = λ a. if a == 1 then 2 else if a == 2 then 3 else if a == 3 then 1 else 0;
  prev = λ a. if a == 1 then 3 else if a == 2 then 1 else if a == 3 then 2 else 0;
  index = λ a. 0;
}

ring-IsRing : IsRing ring 1 (1 ∷ 2 ∷ 3 ∷ [])
ring-IsRing = record { starts = refl; links = omega arith; distinct = (refl, (refl, (refl, tt))) }

-- The lists 1, 2 and 4, with the indices 10, 20 and 10.
abbrev lists : Memory
lists = record {
  next = λ a. if a == 1 then 2 else 0;
  prev = λ a. if a == 2 then 1 else 0;
  index = λ a. if a == 2 then 20 else 10;
}

lists-IsList : IsList lists 1 (1 ∷ 2 ∷ [])
lists-IsList = record { starts = refl; links = omega arith; distinct = (refl, (refl, tt)) }

circular_list_insert_tail_example :
    Returns (λ list g. IsRing g list (1 ∷ 2 ∷ 3 ∷ 4 ∷ [])) (circular_list_insert_tail 1 4 ring)
circular_list_insert_tail_example =
    circular_list_insert_tail-IsRing ring 4 (omega arith) 1 (1 ∷ 2 ∷ 3 ∷ []) ring-IsRing refl

circular_list_remove_element_example :
    Returns (λ list g. IsRing g list (2 ∷ 3 ∷ [])) (circular_list_remove_element 1 1 ring)
circular_list_remove_element_example =
    circular_list_remove_element-IsRing ring 1 (omega arith) 1 (1 ∷ 2 ∷ 3 ∷ []) ring-IsRing refl

list_remove_element_example :
    Returns (λ list g. IsList g list (2 ∷ [])) (list_remove_element 1 1 lists)
list_remove_element_example =
    list_remove_element-IsList lists 1 (omega arith) 1 (1 ∷ 2 ∷ []) lists-IsList refl

sorted_list_insert_example :
    Returns
      (λ list g.
        IsList g list (1 ∷ 5 ∷ 2 ∷ [])
        × (g.index ≡ λ a. if a == 5 then 20 else lists.index a)
        × IsAscending g.index (1 ∷ 5 ∷ 2 ∷ []))
      (sorted_list_insert 9 1 5 20 lists)
sorted_list_insert_example =
    sorted_list_insert-IsAscending lists 9 20 5 (omega arith) 1 (1 ∷ 2 ∷ []) lists-IsList
      (omega arith) (omega arith) refl

-- A queue built and taken apart by the code alone.
queue : Cmd Ptr
unfolding circular_list_insert_tail circular_list_remove_element circular_list_scroll_next
queue = do
  list ← circular_list_insert_tail null 7
  list ← circular_list_insert_tail list 8
  list ← circular_list_insert_tail list 9
  list ← circular_list_scroll_next list
  circular_list_remove_element list 8

queue_head : Returns (λ list g. (list ≡ 9) × (g.next 9 ≡ 7) × (g.next 7 ≡ 9)) (queue lists)
unfolding queue
queue_head = (refl, refl, refl)
