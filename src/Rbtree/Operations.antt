-- ===== src/Rbtree/Operations.antt =====
-- The operations of common/rbtree.c on a whole tree: insertion, the search with its cache, and the
-- walk that clears the tree.
use neftis.Base.{ℕ, zero, suc, Bool, true, false, not, ◌&&◌, ◌==◌, ltb, if◌then◌else◌, ◌∷◌}
use neftis.Base.Run.{Cmd, out_of_fuel, pure, ◌>>=◌, ◌>>◌, gets, modify}
use neftis.Rbtree.{
  Ptr, null, SearchMode, rb_leftwards, rb_exact, rb_rightwards, Store, get, rbtree_node_destroy,
  rbtree_node_new, rbtree_insert_node, rbtree_node_search,
}
use neftis.Rbtree.Balance.{rbtree_insert_case_1}

-- What `rbtree_insert_ex` returns: -1, 0 and 1.
pub data InsertCode : Type 0 where
  no_memory : InsertCode
  added : InsertCode
  replaced : InsertCode

abbrev pub rbtree_invalidate_cache : Store → Store
rbtree_invalidate_cache s = record s { cached_node = null }

-- The new node becomes the only one, or is put below the root; whether its key was there already.
unfoldable pub place : ℕ → Ptr → Cmd Store Bool
place fuel node = do
  r ← gets (λ s. s.root)
  if r == null
      then (do modify (λ s. record s { root = node; last = node; first = node }); pure false)
      else rbtree_insert_node fuel r node

-- `new` is what `kalloc` returned, and what is stored through `pnode` where it did not fail.
unfoldable pub rbtree_insert_ex : ℕ → Ptr → ℕ → ℕ → Cmd Store InsertCode
rbtree_insert_ex fuel new key data_of = if new == null then pure no_memory else do
  modify (rbtree_node_new new key data_of)
  modify rbtree_invalidate_cache
  there ← place fuel new
  if there then pure replaced else (do rbtree_insert_case_1 fuel new; pure added)

abbrev pub rbtree_insert : ℕ → Ptr → ℕ → ℕ → Cmd Store InsertCode
rbtree_insert = rbtree_insert_ex

abbrev pub same_mode : SearchMode → SearchMode → Bool
same_mode rb_leftwards rb_leftwards = true
same_mode rb_exact rb_exact = true
same_mode rb_rightwards rb_rightwards = true
same_mode _ _ = false

-- The step from the closest node to the one the mode asks for.
unfoldable pub adjust : ℕ → SearchMode → Ptr → ℕ → Cmd Store Ptr
adjust key mode closest closest_key =
    if ltb key closest_key && same_mode mode rb_leftwards
    then get (λ s. s.prev) closest
    else (if ltb closest_key key && same_mode mode rb_rightwards
        then get (λ s. s.next) closest
        else pure closest)

-- The search that the cache saves.
unfoldable pub search_tree : ℕ → Ptr → ℕ → SearchMode → Cmd Store Ptr
search_tree fuel r key mode = do
  closest ← rbtree_node_search fuel r key
  closest_key ← get (λ s. s.key) closest
  if not (closest_key == key) && same_mode mode rb_exact then pure null else do
    found ← adjust key mode closest closest_key
    modify (λ s. record s { cached_mode = mode; cached_key = key; cached_node = found })
    pure found

unfoldable pub rbtree_search : ℕ → ℕ → SearchMode → Cmd Store Ptr
rbtree_search fuel key mode = do
  r ← gets (λ s. s.root)
  if r == null then pure null else do
    k ← gets (λ s. s.cached_key)
    m ← gets (λ s. s.cached_mode)
    c ← gets (λ s. s.cached_node)
    if k == key && same_mode m mode && not (c == null) then pure c else search_tree fuel r key mode

-- The loop of `rbtree_clear`.
unfoldable pub destroy_from : ℕ → Ptr → Cmd Store (Unit {0})
destroy_from zero this = λ s. out_of_fuel
destroy_from (suc fuel) this = do
  let rest = destroy_from fuel
  if this == null then pure tt else do n ← get (λ s. s.next) this; rbtree_node_destroy this; rest n

unfoldable pub rbtree_clear : ℕ → Cmd Store (Unit {0})
rbtree_clear fuel = do
  f ← gets (λ s. s.first)
  destroy_from fuel f
  modify (λ s. record s { root = null; last = null; first = null })

-- `tree` is the address that `rbtree_new` gave.
unfoldable pub rbtree_destroy : ℕ → Ptr → Cmd Store (Unit {0})
rbtree_destroy fuel tree = do rbtree_clear fuel; modify (λ s. record s { freed = tree ∷ s.freed })
