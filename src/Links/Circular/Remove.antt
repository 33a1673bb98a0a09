-- ===== src/Links/Circular/Remove.antt =====
-- Removal from a ring: `circular_list_remove_element`.
use mathlib.Core.List.{append-nil}
use neftis.Base.{
  Bool, true, false, ◌≡◌, refl, ◌≢◌, List, [], ◌∷◌, ◌++◌, ◌==◌, ◌&&◌, if◌then◌else◌, has,
  IsDistinct, remove-IsDistinct, arith, ne→==, ==-refl, ne_of_has, erase, split_at, has_head,
  not-has-append,
}
use neftis.Links.{Ptr, null, Memory, Returns, ok}
use neftis.Links.Chain.{
  last_or, Chain, IsRing, Chain-front, Chain-back, Chain-relink, last-ne-null, last-append,
  has-last,
}
use neftis.Links.Splice.{cut, Chain-cut}
use neftis.Links.Circular.{circular_list_remove_element}

and_false : (a : Bool) {b : Bool} → b ≡ false → (a && b) ≡ false
and_false a h = ground arith

false_and : {a : Bool} (b : Bool) → a ≡ false → (a && b) ≡ false
false_and b h = rw h

module _ (m : Memory) (e : Ptr) (ne : e ≢ null) where
  -- A node whose links lead to others: the command's run.
  remove-cut :
      (list p n : Ptr)
      → m.prev e ≡ p
      → m.next e ≡ n
      → (p == null) ≡ false
      → (n == null) ≡ false
      → ((p == e) && (e == n)) ≡ false
      → circular_list_remove_element list e m ≡ ok (if list == e then n else list) (cut m p n)
  unfolding circular_list_remove_element
  remove-cut list p n hp hn np nn other = rw (ne→== e null ne, hp, hn, other, nn, np)

  remove-alone :
      (list : Ptr)
      → IsRing m list (e ∷ [])
      → Returns (λ list' g. IsRing g list' []) (circular_list_remove_element list e m)
  unfolding circular_list_remove_element
  remove-alone list is =
      rw (ne→== e null ne, is.links.1, is.links.2, ==-refl e)
        (record { starts = refl; links = tt; distinct = tt })

  other_y : (y : Ptr) (c : List Ptr) → has e (y ∷ c) ≡ false → (e == y) ≡ false
  other_y y c out = ground arith

  remove-first :
      (list y : Ptr) (c : List Ptr)
      → IsRing m list (e ∷ y ∷ c)
      → Returns (λ list' g. IsRing g list' (y ∷ c)) (circular_list_remove_element list e m)
  remove-first list y c is =
      let ch = is.links in
      let p = last_or y c in
      rw
        (
          is.starts,
          remove-cut e p y ch.1 ch.2 (ne→== p null (last-ne-null m e y c e ch.3))
              (ne→== y null ch.3.0) (and_false _ (other_y y c is.distinct.0)),
          ==-refl e,
        )
        (record {
          starts = refl;
          links =
              Chain-relink m (cut m p y) p e y c e y
                (record { prevs = λ q i. refl; nexts = λ q i. refl }) is.distinct.1 ch.3;
          distinct = is.distinct.1;
        })

  module _ (x : Ptr) (a : List Ptr) where
    -- What the links say of a node behind `x ∷ a`.
    last_other : (c : List Ptr) → IsDistinct (x ∷ a ++ e ∷ c) → (last_or x a == e) ≡ false
    last_other c d =
        ne_of_has (last_or x a) e (x ∷ a) (has-last x a)
          (not-has-append e (x ∷ a) c (remove-IsDistinct e (x ∷ a) c d).1).0

    first_other : (c : List Ptr) → IsDistinct (x ∷ a ++ e ∷ c) → (x == e) ≡ false
    first_other c d =
        ne_of_has x e (x ∷ a) (has_head x a)
          (not-has-append e (x ∷ a) c (remove-IsDistinct e (x ∷ a) c d).1).0

    remove-last :
        (list : Ptr)
        → IsRing m list (x ∷ a ++ e ∷ [])
        → Returns (λ list' g. IsRing g list' (x ∷ a ++ [])) (circular_list_remove_element list e m)
    remove-last list is =
        let p = last_or x a in
        let ring : Chain m e (x ∷ a ++ e ∷ []) x = rw (last-append x e a []) at is.links in
        let front = Chain-front m e (x ∷ a) (e ∷ []) x ring in
        let back = Chain-back m e (x ∷ a) (e ∷ []) x ring in
        let d = (remove-IsDistinct e (x ∷ a) [] is.distinct).0 in
        rw
          (
            is.starts,
            remove-cut x p x back.1 back.2 (ne→== p null (last-ne-null m e x a e front))
                (ne→== x null ring.0) (false_and _ (last_other [] is.distinct)),
            first_other [] is.distinct,
          )
          (rw append-nil (record {
            starts = refl;
            links =
                Chain-relink m (cut m p x) p e x a e x
                  (record { prevs = λ q i. refl; nexts = λ q i. refl }) (rw append-nil at d) front;
            distinct = rw append-nil at d;
          }))

    remove-middle :
        (list y : Ptr) (c : List Ptr)
        → IsRing m list (x ∷ a ++ e ∷ y ∷ c)
        → Returns
            (λ list' g. IsRing g list' (x ∷ a ++ y ∷ c))
            (circular_list_remove_element list e m)
    remove-middle list y c is =
        let p = last_or x a in
        let b = last_or y c in
        let ring : Chain m b (x ∷ a ++ e ∷ y ∷ c) x = rw (last-append x e a (y ∷ c)) at is.links in
        let front = Chain-front m b (x ∷ a) (e ∷ y ∷ c) x ring in
        let back = Chain-back m b (x ∷ a) (e ∷ y ∷ c) x ring in
        rw
          (
            is.starts,
            remove-cut x p y back.1 back.2 (ne→== p null (last-ne-null m b x a e front))
                (ne→== y null back.3.0) (false_and _ (last_other (y ∷ c) is.distinct)),
            first_other (y ∷ c) is.distinct,
          )
          (record {
            starts = refl;
            links = rw (last-append x y a c) (Chain-cut m b x a e y c x is.distinct ring);
            distinct = (remove-IsDistinct e (x ∷ a) (y ∷ c) is.distinct).0;
          })

  remove-split :
      (list : Ptr) (a c : List Ptr)
      → IsRing m list (a ++ e ∷ c)
      → Returns (λ list' g. IsRing g list' (a ++ c)) (circular_list_remove_element list e m)
  remove-split list [] [] is = remove-alone list is
  remove-split list [] (y ∷ c) is = remove-first list y c is
  remove-split list (x ∷ a) [] is = remove-last x a list is
  remove-split list (x ∷ a) (y ∷ c) is = remove-middle x a list y c is

  -- `circular_list_remove_element` takes a node of a ring out of it; where the node was the head,
  -- the next one is the head, and where it was alone the ring is empty.
  pub circular_list_remove_element-IsRing :
      (list : Ptr) (xs : List Ptr)
      → IsRing m list xs
      → has e xs ≡ true
      → Returns (λ list' g. IsRing g list' (erase e xs)) (circular_list_remove_element list e m)
  circular_list_remove_element-IsRing list xs is i =
      let (a, c, whole, less) = split_at e xs i in rw less (remove-split list a c (rw whole at is))
