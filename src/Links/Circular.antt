-- ===== src/Links/Circular.antt =====
-- `circular_list_*` of common/list.c: rings, whose head is any node of the ring.
pub mod Insert
pub mod Remove
pub mod Scroll
use neftis.Base.{Bool, ◌==◌, ◌&&◌, if◌then◌else◌}
use neftis.Links.{
  Ptr, null, not_null, Cmd, pure, ◌>>=◌, ◌>>◌, assert, get_next, get_prev, set_next, set_prev,
}

abbrev pub circular_list_is_empty : Ptr → Bool
circular_list_is_empty list = list == null

abbrev pub circular_list_is_head : Ptr → Ptr → Bool
circular_list_is_head list element = list == element

unfoldable pub circular_list_is_tail : Ptr → Ptr → Cmd Bool
unfolding get_prev
circular_list_is_tail list element = do p ← get_prev list; pure (p == element)

abbrev pub circular_list_get_head : Ptr → Ptr
circular_list_get_head list = list

unfoldable pub circular_list_get_tail : Ptr → Cmd Ptr
unfolding get_prev
circular_list_get_tail list = if list == null then pure null else get_prev list

unfoldable pub circular_list_remove_element : Ptr → Ptr → Cmd Ptr
unfolding get_next get_prev set_next set_prev
circular_list_remove_element list element = do
  assert (not_null element)
  p ← get_prev element
  n ← get_next element
  if (p == element) && (element == n) then pure null else do
    set_prev n p
    set_next p n
    pure (if circular_list_is_head list element then n else list)

-- A ring of one.
unfoldable pub link_alone : Ptr → Cmd (Unit {0})
unfolding set_next set_prev
link_alone element = do set_next element element; set_prev element element

unfoldable pub circular_list_insert_head : Ptr → Ptr → Cmd Ptr
unfolding get_next get_prev set_next set_prev link_alone
circular_list_insert_head list element = do
  assert (not_null element)
  if circular_list_is_empty list then link_alone element else do
    set_next element list
    p ← get_prev list
    set_prev element p
    p' ← get_prev list
    set_next p' element
    set_prev list element
  pure element

unfoldable pub circular_list_insert_tail : Ptr → Ptr → Cmd Ptr
unfolding get_next get_prev set_next set_prev link_alone
circular_list_insert_tail list element = do
  assert (not_null element)
  if circular_list_is_empty list then (do link_alone element; pure element) else do
    old_tail ← get_prev list
    set_next element list
    set_prev element old_tail
    n ← get_next old_tail
    set_prev n element
    set_next old_tail element
    pure list

unfoldable pub circular_list_scroll_to : Ptr → Ptr → Cmd Ptr
circular_list_scroll_to list element = do
  assert (not_null element)
  pure (if circular_list_is_empty list then list else element)

unfoldable pub circular_list_scroll_next : Ptr → Cmd Ptr
unfolding get_next
circular_list_scroll_next list = if circular_list_is_empty list then pure list else get_next list

unfoldable pub circular_list_scroll_prev : Ptr → Cmd Ptr
unfolding get_prev
circular_list_scroll_prev list = if circular_list_is_empty list then pure list else get_prev list
