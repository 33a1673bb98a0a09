-- ===== src/Links/Circular/Insert.antt =====
-- Insertion into a ring: `circular_list_insert_head` and `circular_list_insert_tail`.
use mathlib.Core.List.{append-nil}
use neftis.Base.{
  false, ◌≡◌, ◌∙◌, refl, ◌≢◌, List, [], ◌∷◌, ◌++◌, ◌==◌, has, IsDistinct, insert-IsDistinct, arith,
  ne→==, ==-sym,
}
use neftis.Links.{Ptr, null, Memory, ok, Returns, update, update_self, update_other}
use neftis.Links.Chain.{
  last_or, Chain, IsRing, Chain-append, Chain-relink, next-last, last-ne-null, last-append,
  last-ne_of_not_has, last-ne_of_not_has,
}
use neftis.Links.Splice.{between}
use neftis.Links.Circular.{circular_list_insert_head, circular_list_insert_tail}

module _ (m : Memory) (l x e : Ptr) (not_e : (e == null) ≡ false) (not_x : (x == null) ≡ false)
    (not_l : (l == null) ≡ false) (other_l : (l == e) ≡ false) (other_x : (x == e) ≡ false)
    (back : m.prev x ≡ l) (ahead : m.next l ≡ x) where
  insert_tail-between : circular_list_insert_tail x e m ≡ ok x (between m l e x)
  unfolding circular_list_insert_tail
  insert_tail-between = rw (not_e, not_x, back, not_l, other_l, ahead, not_x)

  insert_head-between : circular_list_insert_head x e m ≡ ok e (between m l e x)
  unfolding circular_list_insert_head
  insert_head-between = rw (not_e, not_x, back, other_x, not_l)

first_other : (x : Ptr) (r : List Ptr) (e : Ptr) → has e (x ∷ r) ≡ false → (x == e) ≡ false
first_other x r e out = ground arith

last_other : (x : Ptr) (r : List Ptr) (e : Ptr) → has e (x ∷ r) ≡ false → (last_or x r == e) ≡ false
last_other x r e out = ==-sym e (last_or x r) (last-ne_of_not_has e x r out)

-- The ring that the new node joins.
module _ (m : Memory) (x : Ptr) (r : List Ptr) (e : Ptr) (ne : e ≢ null)
    (out : has e (x ∷ r) ≡ false) (other_x : (e == x) ≡ false)
    (other_l : (last_or x r == e) ≡ false) (d : IsDistinct (x ∷ r))
    (c : Chain m (last_or x r) (x ∷ r) x) where
  abbrev joined : Memory
  joined = between m (last_or x r) e x

  prev-joined : joined.prev e ≡ last_or x r
  prev-joined =
      update_other (update m.prev e (last_or x r)) x e e other_x
      ∙ update_self m.prev e (last_or x r)

  next-joined : joined.next e ≡ x
  next-joined =
      update_other (update m.next e x) (last_or x r) e e (==-sym (last_or x r) e other_l)
      ∙ update_self m.next e x

  old_ring : Chain joined e (x ∷ r) e
  old_ring =
      Chain-relink m joined e (last_or x r) x r x e
        (record { prevs = λ a i. ground arith; nexts = λ a i. ground arith }) d c

  tail-IsRing : IsRing joined x (x ∷ r ++ e ∷ [])
  tail-IsRing = record {
    starts = refl;
    links =
        rw (last-append x e r [])
          (Chain-append joined e (x ∷ r) (e ∷ []) x old_ring (ne, prev-joined, next-joined, tt));
    distinct = insert-IsDistinct e (x ∷ r) [] (rw append-nil out) (rw append-nil d);
  }

  head-IsRing : IsRing joined e (e ∷ x ∷ r)
  head-IsRing = record {
    starts = refl;
    links = (ne, prev-joined, next-joined, old_ring);
    distinct = (out, d);
  }

module _ (m : Memory) (e : Ptr) (ne : e ≢ null) where
  insert_tail-alone :
      Returns (λ list g. IsRing g list (e ∷ [])) (circular_list_insert_tail null e m)
  unfolding circular_list_insert_tail
  insert_tail-alone = rw (ne→== e null ne) (record {
    starts = refl;
    links = (ne, update_self m.prev e e, update_self m.next e e, tt);
    distinct = (refl, tt);
  })

  insert_head-alone :
      Returns (λ list g. IsRing g list (e ∷ [])) (circular_list_insert_head null e m)
  unfolding circular_list_insert_head
  insert_head-alone = rw (ne→== e null ne) (record {
    starts = refl;
    links = (ne, update_self m.prev e e, update_self m.next e e, tt);
    distinct = (refl, tt);
  })

  -- `circular_list_insert_tail` puts a new node behind the last node of a ring and keeps the head.
  pub circular_list_insert_tail-IsRing :
      (list : Ptr) (xs : List Ptr)
      → IsRing m list xs
      → has e xs ≡ false
      → Returns (λ list' g. IsRing g list' (xs ++ e ∷ [])) (circular_list_insert_tail list e m)
  circular_list_insert_tail-IsRing list [] is out = rw is.starts insert_tail-alone
  circular_list_insert_tail-IsRing list (x ∷ r) is out =
      rw
        (
          is.starts,
          insert_tail-between m (last_or x r) x e (ne→== e null ne) (ne→== x null is.links.0)
              (ne→== _ null (last-ne-null m _ x r x is.links)) (last_other x r e out)
              (first_other x r e out) is.links.1 (next-last m _ x r x is.links),
        )
        (tail-IsRing m x r e ne out (==-sym x e (first_other x r e out)) (last_other x r e out)
          is.distinct is.links)

  -- `circular_list_insert_head` makes a new node the head, in front of the old one.
  pub circular_list_insert_head-IsRing :
      (list : Ptr) (xs : List Ptr)
      → IsRing m list xs
      → has e xs ≡ false
      → Returns (λ list' g. IsRing g list' (e ∷ xs)) (circular_list_insert_head list e m)
  circular_list_insert_head-IsRing list [] is out = rw is.starts insert_head-alone
  circular_list_insert_head-IsRing list (x ∷ r) is out =
      rw
        (
          is.starts,
          insert_head-between m (last_or x r) x e (ne→== e null ne) (ne→== x null is.links.0)
              (ne→== _ null (last-ne-null m _ x r x is.links)) (last_other x r e out)
              (first_other x r e out) is.links.1 (next-last m _ x r x is.links),
        )
        (head-IsRing m x r e ne out (==-sym x e (first_other x r e out)) (last_other x r e out)
          is.distinct is.links)
