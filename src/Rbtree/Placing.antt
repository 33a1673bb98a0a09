-- ===== src/Rbtree/Placing.antt =====
-- `rbtree_insert_node` of common/rbtree.c, on every branch, all the way down.
use mathlib.Core.Path.{subst}
use mathlib.Core.List.{append_assoc}
use neftis.Base.{
  ℕ, zero, suc, true, false, ◌≤◌, ◌≡◌, ◌∙◌, refl, sym, ap, inl, inr, ◌∷◌, ◌++◌, arith, ◌==◌, ltb,
  Bool-cases, ne→==, count, IsOnce, has-of_count, one, one_self,
}
use neftis.Base.Run.{Returns}
use neftis.Rbtree.{Ptr, null, Color, rb_red, Store, rbtree_insert_node}
use neftis.Rbtree.Shape.{
  Shape, leaf, node, WayUp, in_left, in_right, inorder, before, after, whole, IsTree, whole-left,
  whole-right, count-whole, count-node,
}
use neftis.Rbtree.Rotation.{At}
use neftis.Rbtree.Paint.{to_left, to_right}
use neftis.Rbtree.Listing.{
  Listed, attached_left, attached_right, attached_left-Listed, attached_right-Listed,
}
use neftis.Rbtree.Attach.{IsNew, attached_left-At, attached_right-At}
use neftis.Rbtree.Descend.{
  hole, descend, height, height-left, height-right, Added, Inserts, insert-here, insert-left_empty,
  insert-left, insert-right_empty, insert-right,
}

-- The nodes around a tree without children on the left, or on the right.
whole-empty_left :
    (up : WayUp) (c : Color) (p : Ptr) (r : Shape)
    → whole up (node c leaf p r) ≡ before up ++ p ∷ (inorder r ++ after up)
whole-empty_left up c p r = simp (append_assoc)

whole-empty_right :
    (up : WayUp) (c : Color) (l : Shape) (p : Ptr)
    → whole up (node c l p leaf) ≡ before up ++ inorder l ++ p ∷ after up
whole-empty_right up c l p = simp (append_assoc)

whole-new_left :
    (up : WayUp) (c : Color) (p n : Ptr) (r : Shape)
    → whole (in_left up c p r) (node rb_red leaf n leaf)
      ≡ before up ++ n ∷ p ∷ (inorder r ++ after up)
whole-new_left up c p n r = simp (append_assoc)

whole-new_right :
    (up : WayUp) (c : Color) (l : Shape) (p n : Ptr)
    → whole (in_right up c l p) (node rb_red leaf n leaf)
      ≡ before up ++ inorder l ++ p ∷ n ∷ after up
whole-new_right up c l p n = simp (append_assoc)

not_null-node :
    (s : Store) (par : Ptr) (c : Color) (l : Shape) (p : Ptr) (r : Shape) (q : Ptr)
    → IsTree s par (node c l p r) q
    → (q == null) ≡ false
not_null-node s par c l p r q is = ne→== q null (λ e. is.1 (sym is.0 ∙ e))

module _ (s : Store) (n : Ptr) (new : IsNew s n (s.key n)) where
  -- In the empty place on the left of `p`, and on the right.
  add-left :
      (up : WayUp) (c : Color) (p : Ptr) (r : Shape) (q par : Ptr)
      → At s up (node c leaf p r) q par
      → IsOnce (whole up (node c leaf p r))
      → count n (whole up (node c leaf p r)) ≡ 0
      → Listed s (whole up (node c leaf p r))
      → Added s n (in_left up c p r) (attached_left p n s)
  add-left up c p r q par is once fresh l = record {
    parent_of = p;
    in_place = attached_left-At s up c p n (s.key n) new r q par is once fresh;
    listed = subst (Listed (attached_left p n s)) (sym (whole-new_left up c p n r)) (
        attached_left-Listed s n new.not_null (before up) p (inorder r ++ after up)
          (subst (Listed s) (whole-empty_left up c p r) l)
          (has-of_count n _ (subst (λ xs. count n xs ≡ 0) (whole-empty_left up c p r) fresh)));
    keys = refl;
    contents = refl;
    caches = refl;
  }

  add-right :
      (up : WayUp) (c : Color) (l : Shape) (p : Ptr) (q par : Ptr)
      → At s up (node c l p leaf) q par
      → IsOnce (whole up (node c l p leaf))
      → count n (whole up (node c l p leaf)) ≡ 0
      → Listed s (whole up (node c l p leaf))
      → Added s n (in_right up c l p) (attached_right p n s)
  add-right up c l p q par is once fresh ls = record {
    parent_of = p;
    in_place = attached_right-At s up c p n (s.key n) new l q par is once fresh;
    listed = subst (Listed (attached_right p n s)) (sym (whole-new_right up c l p n)) (
        attached_right-Listed s n new.not_null (before up ++ inorder l) p (after up)
          (subst (Listed s) (whole-empty_right up c l p) ls)
          (has-of_count n _ (subst (λ xs. count n xs ≡ 0) (whole-empty_right up c l p) fresh)));
    keys = refl;
    contents = refl;
    caches = refl;
  }

  -- The new node is none of the tree.
  other-node :
      (up : WayUp) (c : Color) (l : Shape) (p : Ptr) (r : Shape)
      → count n (whole up (node c l p r)) ≡ 0
      → (n == p) ≡ false
  other-node up c l p r fresh = ne→== n p (λ e. omega (
    arith,
    fresh,
    count-whole n up (node c l p r),
    count-node n c l p r,
    ap (λ x. one x p) e,
    one_self p,
  ))

  -- What is to be shown of a run with this fuel.
  abbrev Inserting : ℕ → Type 0
  Inserting fuel =
      (up : WayUp) (c : Color) (l : Shape) (p : Ptr) (r : Shape) (q par : Ptr)
      → At s up (node c l p r) q par
      → IsOnce (whole up (node c l p r))
      → count n (whole up (node c l p r)) ≡ 0
      → Listed s (whole up (node c l p r))
      → height (node c l p r) ≤ fuel
      → Returns (Inserts s n (descend s.key (s.key n) up (node c l p r)))
          (rbtree_insert_node fuel q n s)

  module _ (fuel : ℕ) (rec : Inserting fuel) (up : WayUp) (c : Color) (p par : Ptr)
      (differs : (s.key p == s.key n) ≡ false) where
    on_left :
        (l r : Shape)
        → ltb (s.key n) (s.key p) ≡ true
        → At s up (node c l p r) p par
        → IsOnce (whole up (node c l p r))
        → count n (whole up (node c l p r)) ≡ 0
        → Listed s (whole up (node c l p r))
        → height (node c l p r) ≤ suc fuel
        → Returns
            (Inserts s n (descend s.key (s.key n) (in_left up c p r) l))
            (rbtree_insert_node (suc fuel) p n s)
    on_left leaf r lower is once fresh ls enough =
        subst (Returns (Inserts s n (hole (in_left up c p r))))
          (sym (insert-left_empty fuel s p n is.tree.1 new.not_null differs lower is.tree.4))
          (refl, add-left up c p r p par is once fresh ls)
    on_left (node c' l' p' r') r lower is once fresh ls enough =
        let l : Shape = node c' l' p' r' in
        let e = sym (whole-left up c p r l) in
        subst (Returns (Inserts s n (descend s.key (s.key n) (in_left up c p r) l)))
          (sym (
            insert-left fuel s p n is.tree.1 new.not_null differs lower
              (not_null-node s p c' l' p' r' (s.left p) is.tree.4)))
          (rec (in_left up c p r) c' l' p' r' (s.left p) p (to_left s up c p l r p par is)
            (subst IsOnce e once) (subst (λ xs. count n xs ≡ 0) e fresh) (subst (Listed s) e ls)
            (omega (arith, enough, height-left c l p r)))

    on_right :
        (l r : Shape)
        → ltb (s.key n) (s.key p) ≡ false
        → At s up (node c l p r) p par
        → IsOnce (whole up (node c l p r))
        → count n (whole up (node c l p r)) ≡ 0
        → Listed s (whole up (node c l p r))
        → height (node c l p r) ≤ suc fuel
        → Returns
            (Inserts s n (descend s.key (s.key n) (in_right up c l p) r))
            (rbtree_insert_node (suc fuel) p n s)
    on_right l leaf upper is once fresh ls enough =
        subst (Returns (Inserts s n (hole (in_right up c l p))))
          (sym (insert-right_empty fuel s p n is.tree.1 new.not_null differs upper is.tree.5))
          (refl, add-right up c l p p par is once fresh ls)
    on_right l (node c' l' p' r') upper is once fresh ls enough =
        let r : Shape = node c' l' p' r' in
        let e = sym (whole-right up c l p r) in
        subst (Returns (Inserts s n (descend s.key (s.key n) (in_right up c l p) r)))
          (sym (
            insert-right fuel s p n is.tree.1 new.not_null differs upper
              (not_null-node s p c' l' p' r' (s.right p) is.tree.5)))
          (rec (in_right up c l p) c' l' p' r' (s.right p) p (to_right s up c p r l p par is)
            (subst IsOnce e once) (subst (λ xs. count n xs ≡ 0) e fresh) (subst (Listed s) e ls)
            (omega (arith, enough, height-right c l p r)))

  step :
      (fuel : ℕ)
      → Inserting fuel
      → (up : WayUp) (c : Color) (l : Shape) (p : Ptr) (r : Shape) (par : Ptr)
      → At s up (node c l p r) p par
      → IsOnce (whole up (node c l p r))
      → count n (whole up (node c l p r)) ≡ 0
      → Listed s (whole up (node c l p r))
      → height (node c l p r) ≤ suc fuel
      → Returns
          (Inserts s n (descend s.key (s.key n) up (node c l p r)))
          (rbtree_insert_node (suc fuel) p n s)
  step fuel rec up c l p r par is once fresh ls enough = elim (Bool-cases (s.key p == s.key n)) [
    | inl same ↦
        subst (Returns (Inserts s n (descend s.key (s.key n) up (node c l p r))))
          (sym (insert-here fuel s p n is.tree.1 new.not_null (other-node up c l p r fresh) same))
          (rw same (refl, refl))
    | inr differs ↦ elim (Bool-cases (ltb (s.key n) (s.key p))) [
      | inl lower ↦
          rw (differs, lower)
            (on_left fuel rec up c p par differs l r lower is once fresh ls enough)
      | inr upper ↦
          rw (differs, upper)
            (on_right fuel rec up c p par differs l r upper is once fresh ls enough)
    ]
  ]

  -- `rbtree_insert_node` in a tree that is not empty, with as much fuel as it is high: it overwrites
  -- the data of the node with the key, or puts the new node where the key belongs.
  pub insert_node-Inserts : (fuel : ℕ) → Inserting fuel
  insert_node-Inserts zero up c l p r q par is once fresh ls enough = elim enough [ ]
  insert_node-Inserts (suc fuel) up c l p r q par is once fresh ls enough =
      subst
        (λ x.
          Returns (Inserts s n (descend s.key (s.key n) up (node c l p r)))
            (rbtree_insert_node (suc fuel) x n s))
        (sym is.tree.0)
        (step fuel (insert_node-Inserts fuel) up c l p r par
          (subst (λ x. At s up (node c l p r) x par) is.tree.0 is) once fresh ls enough)
