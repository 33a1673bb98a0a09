-- ===== src/Links/Linear.antt =====
-- `list_*` of common/list.c: doubly linked lists that end in NULL. The C functions take the
-- address of the head; here they take the head and return the new one.
pub mod Insert
pub mod Join
pub mod Remove
use neftis.Base.{ℕ, zero, suc, Bool, true, ◌==◌, if◌then◌else◌, not}
use neftis.Links.{
  Ptr, null, not_null, Cmd, out_of_fuel, pure, ◌>>=◌, ◌>>◌, assert, get_next, get_prev, set_next,
  set_prev,
}

abbrev pub list_is_empty : Ptr → Bool
list_is_empty list = list == null

unfoldable pub list_is_head : Ptr → Cmd Bool
unfolding get_prev
list_is_head list = if list_is_empty list then pure true else do p ← get_prev list; pure (p == null)

-- The walk of `list_get_tail`, from a node.
unfoldable pub get_tail_loop : ℕ → Ptr → Cmd Ptr
unfolding get_next
get_tail_loop zero this = λ _. out_of_fuel
get_tail_loop (suc fuel) this = do
  n ← get_next this
  if n == null then pure this else get_tail_loop fuel n

unfoldable pub list_get_tail : ℕ → Ptr → Cmd Ptr
unfolding get_tail_loop
list_get_tail fuel list = if list == null then pure null else get_tail_loop fuel list

unfoldable pub list_join : ℕ → Ptr → Ptr → Cmd Ptr
list_join fuel list1 list2 = do
  head1 ← list_is_head list1
  assert head1
  head2 ← list_is_head list2
  assert head2
  tail1 ← list_get_tail fuel list1
  if tail1 == null then pure list2 else do set_next tail1 list2; pure list1

-- `if (p != NULL) p->next = v`
unfoldable pub set_next_of : Ptr → Ptr → Cmd (Unit {0})
unfolding set_next
set_next_of p v = if p == null then pure tt else set_next p v

-- `if (p != NULL) p->prev = v`
unfoldable pub set_prev_of : Ptr → Ptr → Cmd (Unit {0})
unfolding set_prev
set_prev_of p v = if p == null then pure tt else set_prev p v

unfoldable pub list_remove_element : Ptr → Ptr → Cmd Ptr
unfolding get_next get_prev set_next_of set_prev_of
list_remove_element list element = do
  assert (not_null element)
  assert (not (list_is_empty list))
  n ← get_next element
  p ← get_prev element
  set_next_of p n
  set_prev_of n p
  pure (if list == element then n else list)

unfoldable pub list_insert_head : Ptr → Ptr → Cmd Ptr
unfolding set_prev set_next set_prev_of
list_insert_head list element = do
  assert (not_null element)
  set_prev element null
  set_next element list
  set_prev_of list element
  pure element

unfoldable pub list_insert_after : Ptr → Ptr → Ptr → Cmd Ptr
unfolding get_next set_next set_prev set_prev_of
list_insert_after list element new = do
  assert (not_null list)
  assert (not_null element)
  assert (not_null new)
  n ← get_next element
  set_next new n
  set_prev new element
  n' ← get_next element
  set_prev_of n' new
  set_next element new
  pure list

unfoldable pub list_insert_before : Ptr → Ptr → Ptr → Cmd Ptr
unfolding get_prev set_next set_prev
list_insert_before list element new = do
  assert (not_null list)
  assert (not_null element)
  assert (not_null new)
  p ← get_prev element
  set_prev new p
  set_next new element
  p' ← get_prev element
  if p' == null then pure tt else set_next p' new
  set_prev element new
  pure (if p' == null then new else list)

unfoldable pub list_insert_tail : ℕ → Ptr → Ptr → Cmd Ptr
list_insert_tail fuel list element = do
  tail ← list_get_tail fuel list
  if tail == null then list_insert_head list element else list_insert_after list tail element
