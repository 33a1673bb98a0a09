-- ===== src/Links/Sorted.antt =====
-- `sorted_list_*` of common/list.c: linear lists in ascending order of `index`.
pub mod Order
pub mod Insert
pub mod Search
use neftis.Base.{ℕ, zero, suc, ltb, leb, ◌==◌, if◌then◌else◌}
use neftis.Links.{
  Ptr, null, not_null, Cmd, out_of_fuel, pure, ◌>>=◌, ◌>>◌, assert, get_next, get_prev, get_index,
  set_index,
}
use neftis.Links.Linear.{
  list_is_empty, list_get_tail, list_insert_head, list_insert_after, list_insert_before,
}

unfoldable pub sorted_list_search : ℕ → Ptr → ℕ → Cmd Ptr
unfolding get_next get_index
sorted_list_search zero this index = λ _. out_of_fuel
sorted_list_search (suc fuel) this index = if this == null then pure null else do
  i ← get_index this
  if i == index
      then pure this
      else if ltb index i
      then pure null
      else do n ← get_next this; sorted_list_search fuel n index

unfoldable pub sorted_list_get_next : ℕ → Ptr → ℕ → Cmd Ptr
unfolding get_next get_index
sorted_list_get_next zero this index = λ _. out_of_fuel
sorted_list_get_next (suc fuel) this index = if this == null then pure null else do
  i ← get_index this
  if leb index i then pure this else do n ← get_next this; sorted_list_get_next fuel n index

unfoldable pub sorted_list_get_previous : ℕ → Ptr → ℕ → Cmd Ptr
unfolding get_next get_prev get_index
sorted_list_get_previous zero this index = λ _. out_of_fuel
sorted_list_get_previous (suc fuel) this index = if this == null then pure null else do
  i ← get_index this
  if ltb index i then get_prev this else do
    n ← get_next this
    if n == null then pure this else sorted_list_get_previous fuel n index

unfoldable pub sorted_list_insert : ℕ → Ptr → Ptr → ℕ → Cmd Ptr
sorted_list_insert fuel list element index = do
  assert (not_null element)
  set_index element index
  if list_is_empty list then list_insert_head list element else do
    alike ← sorted_list_get_next fuel list index
    if alike == null
        then (do tail ← list_get_tail fuel list; list_insert_after list tail element)
        else list_insert_before list alike element
