-- ===== src/Links/Linear/Remove.antt =====
-- Removal from a linear list, and two lists joined.
use mathlib.Core.List.{append-nil}
use neftis.Base.{
  true, false, ◌≡◌, ◌∙◌, refl, ap, ◌≢◌, List, [], ◌∷◌, ◌++◌, ◌==◌, if◌then◌else◌, inl, inr,
  Bool-cases, ==→eq, has, IsDistinct, remove-IsDistinct, ne→==, ==-refl, ne_of_has, erase, split_at,
  has_head, not-has-append,
}
use neftis.Links.{Ptr, null, Memory, Returns, update}
use neftis.Links.Chain.{
  last_or, Chain, IsList, Chain-front, Chain-back, Chain-relink, next-last, last-ne-null,
}
use neftis.Links.Splice.{Chain-cut}
use neftis.Links.Linear.{list_remove_element}

-- The memory after the last node, or the first one, is cut off.
abbrev cut_next : Memory → Ptr → Memory
cut_next m p = record m { next = update m.next p null }

abbrev cut_prev : Memory → Ptr → Memory
cut_prev m n = record m { prev = update m.prev n null }

module _ (m : Memory) (e : Ptr) (ne : e ≢ null) where
  remove-alone :
      (list : Ptr)
      → IsList m list (e ∷ [])
      → Returns (λ list' g. IsList g list' []) (list_remove_element list e m)
  unfolding list_remove_element
  remove-alone list is =
      rw (is.starts, ne→== e null ne, is.links.1, is.links.2, ==-refl e)
        (record { starts = refl; links = tt; distinct = tt })

  remove-first :
      (list y : Ptr) (c : List Ptr)
      → IsList m list (e ∷ y ∷ c)
      → Returns (λ list' g. IsList g list' (y ∷ c)) (list_remove_element list e m)
  unfolding list_remove_element
  remove-first list y c is =
      let ch = is.links in
      rw (is.starts, ne→== e null ne, ch.1, ch.2, ne→== y null ch.3.0, ==-refl e)
        (record {
          starts = refl;
          links =
              Chain-relink m (cut_prev m y) null e y c null null
                (record { prevs = λ q i. refl; nexts = λ q i. unchanged ch.3 q }) is.distinct.1
                ch.3;
          distinct = is.distinct.1;
        })
    where
      unchanged :
          Chain m e (y ∷ c) null
          → (q : Ptr) → m.next q ≡ (if q == last_or y c then null else m.next q)
      unchanged ch q = elim (Bool-cases (q == last_or y c)) [
        | inl same ↦ rw same (ap m.next (==→eq q _ same) ∙ next-last m e y c null ch)
        | inr other ↦ rw other
      ]

  module _ (x : Ptr) (a : List Ptr) where
    first_other : (c : List Ptr) → IsDistinct (x ∷ a ++ e ∷ c) → (x == e) ≡ false
    first_other c d =
        ne_of_has x e (x ∷ a) (has_head x a)
          (not-has-append e (x ∷ a) c (remove-IsDistinct e (x ∷ a) c d).1).0

    remove-last :
        (list : Ptr)
        → IsList m list (x ∷ a ++ e ∷ [])
        → Returns (λ list' g. IsList g list' (x ∷ a ++ [])) (list_remove_element list e m)
    unfolding list_remove_element
    remove-last list is =
        let p = last_or x a in
        let front = Chain-front m null (x ∷ a) (e ∷ []) null is.links in
        let back = Chain-back m null (x ∷ a) (e ∷ []) null is.links in
        let d = (remove-IsDistinct e (x ∷ a) [] is.distinct).0 in
        rw
          (
            is.starts,
            ne→== e null ne,
            ne→== x null front.0,
            back.1,
            back.2,
            ne→== p null (last-ne-null m null x a e front),
            first_other [] is.distinct,
          )
          (rw append-nil (record {
            starts = refl;
            links =
                Chain-relink m (cut_next m p) null null x a e null
                  (record { prevs = λ q i. unchanged front q; nexts = λ q i. refl })
                  (rw append-nil at d) front;
            distinct = rw append-nil at d;
          }))
      where
        unchanged :
            Chain m null (x ∷ a) e → (q : Ptr) → m.prev q ≡ (if q == x then null else m.prev q)
        unchanged ch q = elim (Bool-cases (q == x)) [
          | inl same ↦ rw same (ap m.prev (==→eq q x same) ∙ ch.1)
          | inr other ↦ rw other
        ]

    remove-middle :
        (list y : Ptr) (c : List Ptr)
        → IsList m list (x ∷ a ++ e ∷ y ∷ c)
        → Returns (λ list' g. IsList g list' (x ∷ a ++ y ∷ c)) (list_remove_element list e m)
    unfolding list_remove_element
    remove-middle list y c is =
        let p = last_or x a in
        let front = Chain-front m null (x ∷ a) (e ∷ y ∷ c) null is.links in
        let back = Chain-back m null (x ∷ a) (e ∷ y ∷ c) null is.links in
        rw
          (
            is.starts,
            ne→== e null ne,
            ne→== x null front.0,
            back.1,
            back.2,
            ne→== p null (last-ne-null m null x a e front),
            ne→== y null back.3.0,
            first_other (y ∷ c) is.distinct,
          )
          (record {
            starts = refl;
            links = Chain-cut m null x a e y c null is.distinct is.links;
            distinct = (remove-IsDistinct e (x ∷ a) (y ∷ c) is.distinct).0;
          })

  remove-split :
      (list : Ptr) (a c : List Ptr)
      → IsList m list (a ++ e ∷ c)
      → Returns (λ list' g. IsList g list' (a ++ c)) (list_remove_element list e m)
  remove-split list [] [] is = remove-alone list is
  remove-split list [] (y ∷ c) is = remove-first list y c is
  remove-split list (x ∷ a) [] is = remove-last x a list is
  remove-split list (x ∷ a) (y ∷ c) is = remove-middle x a list y c is

  -- `list_remove_element` takes a node of a linear list out of it; what is left is a linear list.
  pub list_remove_element-IsList :
      (list : Ptr) (xs : List Ptr)
      → IsList m list xs
      → has e xs ≡ true
      → Returns (λ list' g. IsList g list' (erase e xs)) (list_remove_element list e m)
  list_remove_element-IsList list xs is i =
      let (a, c, whole, less) = split_at e xs i in rw less (remove-split list a c (rw whole at is))
