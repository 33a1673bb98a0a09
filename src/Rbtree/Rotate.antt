-- ===== src/Rbtree/Rotate.antt =====
-- The rotations of common/rbtree.c turn the tree at a node, inside whatever stands around it.
use neftis.Base.{
  ◌+◌, ◌≤◌, ◌<◌, false, ◌≡◌, ◌≢◌, ◌∙◌, refl, sym, ap, ◌++◌, ◌∷◌, ◌==◌, arith, ne→==, ==-sym,
  ==-refl, write, write_self, write_other, count, count_cons, count-append, one, one_self,
  one-of_other, count_nil, [],
}
use neftis.Base.Run.{ok}
use neftis.Rbtree.{Ptr, null, Store}
use neftis.Rbtree.Shape.{
  Shape, leaf, node, WayUp, top, in_left, in_right, inorder, before, after, IsTree, IsContext,
  Agrees, IsTree-frame, IsContext-frame,
}
use neftis.Rbtree.Balance.{replace_child}

-- The pointer to a tree is not one to a node outside it.
pub root-other :
    (s : Store) (par : Ptr) (t : Shape) (q p : Ptr)
    → IsTree s par t q
    → p ≢ null
    → count p (inorder t) ≡ 0
    → (q == p) ≡ false
root-other s par leaf q p is ne out = ne→== q p (λ e. ne (sym e ∙ is))
root-other s par (node c l t r) q p is ne out = ne→== q p (λ e. omega (
  arith,
  out,
  count-append p (inorder l) (t ∷ inorder r),
  count_cons p t (inorder r),
  ap (λ x. one x t) (sym e ∙ is.0) ∙ one_self t,
))

-- The store with `n` in the hole.
abbrev pub replaced : WayUp → Ptr → Store → Store
replaced top n s = record s { root = n }
replaced (in_left up c q r) n s = record s { left = write s.left q n }
replaced (in_right up c l q) n s = record s { right = write s.right q n }

module _ (s : Store) (p n : Ptr) where
  pub replace_child-run :
      (up : WayUp) (g : Ptr)
      → IsContext s up p g
      → p ≢ null
      → count p (before up) + count p (after up) ≡ 0
      → replace_child g p n s ≡ ok tt (replaced up n s)
  unfolding replace_child
  replace_child-run top g is ne out = rw (is.1)
  replace_child-run (in_left up c q r) g (e, nq, child, col, tr, rest) ne out =
      let o = root-other s q r (s.right q) p tr ne (
        omega (
          arith,
          out,
          count_cons p q (inorder r ++ after up),
          count-append p (inorder r) (after up),
        )) in
      rw (e, ne→== q null nq, child, ==-sym (s.right q) p o, ==-refl p)
  replace_child-run (in_right up c l q) g (e, nq, child, col, tl, rest) ne out =
      let o = root-other s q l (s.left q) p tl ne (
        omega (
          arith,
          out,
          count-append p (before up ++ inorder l) (q ∷ []),
          count-append p (before up) (inorder l),
        )) in
      rw (e, ne→== q null nq, child, o)

-- What `replaced` leaves alone.
pub replaced-Agrees :
    (s : Store) (n : Ptr) (up : WayUp) (a : Ptr)
    → count a (before up) + count a (after up) ≡ 0
    → Agrees s (replaced up n s) a
replaced-Agrees s n top a out = record {
  lefts = refl;
  rights = refl;
  parents = refl;
  colors = refl;
}
replaced-Agrees s n (in_left up c q r) a out = record {
  lefts =
      write_other s.left q n a
        (one-of_other a q (omega (arith, out, count_cons a q (inorder r ++ after up))));
  rights = refl;
  parents = refl;
  colors = refl;
}
replaced-Agrees s n (in_right up c l q) a out = record {
  lefts = refl;
  rights = write_other s.right q n a (
      one-of_other a q
        (omega (arith, out, count-append a (before up ++ inorder l) (q ∷ []), count_cons a q [])));
  parents = refl;
  colors = refl;
}

-- Around the hole nothing else changes.
pub replaced-IsContext :
    (s : Store) (p n : Ptr) (up : WayUp) (par : Ptr)
    → ((x : Ptr) → count x (before up) + count x (after up) ≤ 1)
    → IsContext s up p par
    → IsContext (replaced up n s) up n par
replaced-IsContext s p n top par once is = (refl, is.1)
replaced-IsContext s p n (in_left up c q r) par once (e, nq, child, col, tr, rest) =
    let s' : Store = record s { left = write s.left q n } in
    let spread : (x : Ptr)
        → count x (q ∷ inorder r ++ after up)
          ≡ one x q + (count x (inorder r) + count x (after up)) =
      λ x.
        omega
          (arith, count_cons x q (inorder r ++ after up), count-append x (inorder r) (after up)) in
    let apart : (x : Ptr)
        → 0 < count x (before up) + count x (inorder r) + count x (after up)
        → (x == q) ≡ false =
      λ x i. one-of_other x q (omega (arith, once x, spread x)) in
    let same : (x : Ptr)
        → 0 < count x (before up) + count x (inorder r) + count x (after up)
        → Agrees s s' x =
      λ x i. record {
        lefts = write_other s.left q n x (apart x i);
        rights = refl;
        parents = refl;
        colors = refl;
      } in
    (
      e,
      nq,
      write_self s.left q n,
      col,
      IsTree-frame s s' q r (s.right q) (λ x i. same x (omega (arith, i))) tr,
      IsContext-frame s s' up q (s.parent q) refl (λ x i. same x (omega (arith, i))) rest,
    )
replaced-IsContext s p n (in_right up c l q) par once (e, nq, child, col, tl, rest) =
    let s' : Store = record s { right = write s.right q n } in
    let spread : (x : Ptr)
        → count x (before up ++ inorder l ++ q ∷ [])
          ≡ count x (before up) + count x (inorder l) + one x q =
      λ x. omega (
        arith,
        count-append x (before up ++ inorder l) (q ∷ []),
        count-append x (before up) (inorder l),
        count_cons x q [],
        count_nil x,
      ) in
    let apart : (x : Ptr)
        → 0 < count x (before up) + count x (inorder l) + count x (after up)
        → (x == q) ≡ false =
      λ x i. one-of_other x q (omega (arith, once x, spread x)) in
    let same : (x : Ptr)
        → 0 < count x (before up) + count x (inorder l) + count x (after up)
        → Agrees s s' x =
      λ x i. record {
        lefts = refl;
        rights = write_other s.right q n x (apart x i);
        parents = refl;
        colors = refl;
      } in
    (
      e,
      nq,
      write_self s.right q n,
      col,
      IsTree-frame s s' q l (s.left q) (λ x i. same x (omega (arith, i))) tl,
      IsContext-frame s s' up q (s.parent q) refl (λ x i. same x (omega (arith, i))) rest,
    )
