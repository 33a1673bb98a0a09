-- ===== src/Links/Circular/Scroll.antt =====
-- Turning a ring: `circular_list_scroll_next` and `circular_list_scroll_prev`.
use mathlib.Core.List.{append-nil}
use neftis.Base.{
  ◌≡◌, ◌∙◌, refl, sym, List, [], ◌∷◌, ◌++◌, insert-IsDistinct, remove-IsDistinct, ne→==,
}
use neftis.Links.{Ptr, null, Memory, ok, Returns}
use neftis.Links.Chain.{
  head_or, Chain, IsRing, Chain-append, Chain-front, Chain-back, last-append, head-append,
}
use neftis.Links.Circular.{circular_list_scroll_next, circular_list_scroll_prev}

module _ (m : Memory) where
  -- The same links, read from the second node on.
  turned-IsRing :
      (x : Ptr) (r : List Ptr) {list : Ptr}
      → IsRing m list (x ∷ r)
      → IsRing m (m.next x) (r ++ x ∷ [])
  turned-IsRing x r is = record {
    starts = is.links.2 ∙ sym (head-append x r [] null);
    links =
        rw (last-append null x r [], head-append x r [] null)
          (Chain-append m x r (x ∷ []) (head_or r x) is.links.3
            (is.links.0, is.links.1, is.links.2, tt));
    distinct = insert-IsDistinct x r [] (rw append-nil is.distinct.0) (rw append-nil is.distinct.1);
  }

  -- The same links, read from the last node on.
  turned_back-IsRing :
      (x : Ptr) (r : List Ptr) (z : Ptr) {list : Ptr}
      → IsRing m list (x ∷ r ++ z ∷ [])
      → IsRing m (m.prev x) (z ∷ x ∷ r)
  turned_back-IsRing x r z is =
      let ring : Chain m z (x ∷ r ++ z ∷ []) x = rw (last-append x z r []) at is.links in
      let without = remove-IsDistinct z (x ∷ r) [] is.distinct in
      let last = Chain-back m z (x ∷ r) (z ∷ []) x ring in
      record {
        starts = ring.1;
        links = (last.0, last.1, last.2, Chain-front m z (x ∷ r) (z ∷ []) x ring);
        distinct = (rw append-nil at without.1, rw append-nil at without.0);
      }

  -- `circular_list_scroll_next` makes the second node of a ring its head; it writes nothing.
  pub circular_list_scroll_next-IsRing :
      (list x : Ptr) (r : List Ptr)
      → IsRing m list (x ∷ r)
      → Returns
          (λ list' g. (g ≡ m) × IsRing g list' (r ++ x ∷ []))
          (circular_list_scroll_next list m)
  unfolding circular_list_scroll_next
  circular_list_scroll_next-IsRing list x r is =
      rw (is.starts, ne→== x null is.links.0) (refl, turned-IsRing x r is)

  -- `circular_list_scroll_prev` makes the last node of a ring its head; it writes nothing.
  pub circular_list_scroll_prev-IsRing :
      (list : Ptr) (r : List Ptr) (z : Ptr)
      → IsRing m list (r ++ z ∷ [])
      → Returns (λ list' g. (g ≡ m) × IsRing g list' (z ∷ r)) (circular_list_scroll_prev list m)
  unfolding circular_list_scroll_prev
  circular_list_scroll_prev-IsRing list [] z is =
      rw (is.starts, ne→== z null is.links.0, is.links.1)
        (refl, record { starts = refl; links = is.links; distinct = is.distinct })
  circular_list_scroll_prev-IsRing list (x ∷ r) z is =
      rw (is.starts, ne→== x null is.links.0) (refl, turned_back-IsRing x r z is)

  -- On the empty ring both do nothing.
  pub scroll-null :
      (circular_list_scroll_next null m ≡ ok null m)
      × (circular_list_scroll_prev null m ≡ ok null m)
  unfolding circular_list_scroll_next circular_list_scroll_prev
  scroll-null = (refl, refl)
