-- ===== src/Links/Linear/Join.antt =====
-- `list_join`: two linear lists, one behind the other.
use neftis.Base.{
  ℕ, ◌≤◌, length, true, ◌≡◌, ◌∙◌, refl, sym, ap, List, [], ◌∷◌, ◌++◌, ◌==◌, if◌then◌else◌,
  IsDistinct, ne→==, ==→eq, Bool-cases, inl, inr,
}
use neftis.Links.{Ptr, null, Memory, Returns, update, update_other, ok, set_next}
use neftis.Links.Chain.{head_or, last_or, Chain, IsList, Chain-back, last-ne-null}
use neftis.Links.Splice.{front-Chain, back-Chain}
use neftis.Links.Linear.{list_join, list_is_head}
use neftis.Links.Linear.Insert.{list_get_tail-last}

-- The memory in which `p` leads to `y`, and nothing leads back.
abbrev leads : Memory → (p y : Ptr) → Memory
leads m p y = record m { next = update m.next p y }

module _ (m : Memory) where
  list_is_head-true :
      (list : Ptr) (xs : List Ptr) → IsList m list xs → list_is_head list m ≡ ok true m
  unfolding list_is_head
  list_is_head-true list [] is = rw is.starts
  list_is_head-true list (x ∷ xs) is = rw (is.starts, ne→== x null is.links.0, is.links.1)

  module _ (fuel : ℕ) (list1 list2 x : Ptr) (a : List Ptr) (is1 : IsList m list1 (x ∷ a)) where
    join-run :
        (ys : List Ptr)
        → IsList m list2 ys
        → length (x ∷ a) ≤ fuel
        → list_join fuel list1 list2 m ≡ ok list1 (leads m (last_or x a) (head_or ys null))
    unfolding list_join set_next
    join-run ys is2 h = rw (
      ← is2.starts,
      list_is_head-true list1 (x ∷ a) is1,
      list_is_head-true list2 ys is2,
      list_get_tail-last m list1 fuel (x ∷ a) is1 h,
      ne→== _ null (last-ne-null m null x a null is1.links),
    )

    -- `list_join` of two lists that are not empty and have no node in common keeps the first head, and from the first list's
    -- last node one gets to the second list; but the second list's head has still no predecessor,
    -- so what results is no doubly linked list of all the nodes.
    pub list_join-one_way :
        (y : Ptr) (c : List Ptr)
        → IsList m list2 (y ∷ c)
        → IsDistinct (x ∷ a ++ y ∷ c)
        → length (x ∷ a) ≤ fuel
        → Returns
            (λ list' g.
              (list' ≡ list1)
              × Chain g null (x ∷ a) y
              × Chain g null (y ∷ c) null
              × (¬ IsList g list' (x ∷ a ++ y ∷ c)))
            (list_join fuel list1 list2 m)
    list_join-one_way y c is2 d h =
        let p = last_or x a in
        rw (join-run (y ∷ c) is2 h) (
          refl,
          front-Chain m (leads m p y) null x a null y c d null y (λ q o i. refl) (λ q i. refl)
              is1.links,
          back-Chain m (leads m p y) null x a null y c d null null (λ q i. unchanged q)
              (λ q o i. update_other m.next p y q o) is2.links,
          λ is.
              last-ne-null m null x a null is1.links
                (sym (Chain-back (leads m p y) null (x ∷ a) (y ∷ c) null is.links).1 ∙ is2.links.1),
        )
      where
        unchanged : (q : Ptr) → m.prev q ≡ (if q == y then null else m.prev q)
        unchanged q = elim (Bool-cases (q == y)) [
          | inl same ↦ rw same (ap m.prev (==→eq q y same) ∙ is2.links.1)
          | inr other ↦ rw other
        ]
