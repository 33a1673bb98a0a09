-- ===== src/Rbtree/Turn.antt =====
-- The turn of two nodes in the rotations of common/rbtree.c: the subtree between them changes its
-- parent.
use neftis.Base.{
  ◌+◌, ◌≤◌, ◌<◌, false, ◌≡◌, ◌∙◌, refl, ◌++◌, ◌∷◌, ◌==◌, arith, write, write_self, write_other,
  count, count_cons, count-append, one, one_self, one-of_other,
}
use neftis.Rbtree.{Ptr, Color, Store}
use neftis.Rbtree.Shape.{
  Shape, leaf, node, WayUp, inorder, before, after, IsTree, Agrees, IsTree-frame,
}

-- The parents after `p` has become that of the tree `t`.
abbrev pub adopted : Shape → Ptr → (Ptr → Ptr) → Ptr → Ptr
adopted leaf p parent = parent
adopted (node c l t r) p parent = write parent t p

adopted-other :
    (t : Shape) (p : Ptr) (f : Ptr → Ptr) (a : Ptr)
    → count a (inorder t) ≡ 0
    → adopted t p f a ≡ f a
adopted-other leaf p f a out = refl
adopted-other (node c l t r) p f a out = write_other f t p a (
    one-of_other a t
      (omega (arith, out, count-append a (inorder l) (t ∷ inorder r), count_cons a t (inorder r))))

-- A tree whose links agree, but for the parent of its root.
adopted-IsTree :
    (s g : Store) (par p : Ptr) (t : Shape) (q : Ptr)
    → ((x : Ptr) → count x (inorder t) ≤ 1)
    → ((x : Ptr) → 0 < count x (inorder t) → g.parent x ≡ adopted t p s.parent x)
    → ((x : Ptr)
        → 0 < count x (inorder t)
        → (g.left x ≡ s.left x) × (g.right x ≡ s.right x) × (g.color x ≡ s.color x))
    → IsTree s par t q
    → IsTree g p t q
adopted-IsTree s g par p leaf q once parents same is = is
adopted-IsTree s g par p (node c l t r) q once parents same (e, ne, up, col, tl, tr) =
    let spread : (x : Ptr)
        → count x (inorder l ++ t ∷ inorder r)
          ≡ count x (inorder l) + one x t + count x (inorder r) =
      λ x. omega (arith, count-append x (inorder l) (t ∷ inorder r), count_cons x t (inorder r)) in
    let here : 0 < count t (inorder l ++ t ∷ inorder r) = omega (arith, spread t, one_self t) in
    let inner : (x : Ptr) → 0 < count x (inorder l) + count x (inorder r) → Agrees s g x = λ x i.
      let there : 0 < count x (inorder l ++ t ∷ inorder r) = omega (arith, spread x, i) in
      record {
        lefts = (same x there).0;
        rights = (same x there).1;
        parents =
            parents x there
            ∙ write_other s.parent t p x (one-of_other x t (omega (arith, once x, spread x, i)));
        colors = (same x there).2;
      } in
    (
      e,
      ne,
      parents t here ∙ write_self s.parent t p,
      (same t here).2 ∙ col,
      rw ((same t here).0) (IsTree-frame s g t l (s.left t) (λ x i. inner x (omega (arith, i))) tl),
      rw ((same t here).1)
          (IsTree-frame s g t r (s.right t) (λ x i. inner x (omega (arith, i))) tr),
    )

-- The store after a turn: of `p` and its right child `n`, or of `n` and its left child `p`.
abbrev pub turned_left : (p n t g : Ptr) → Shape → Store → Store
turned_left p n t g b s = record s {
  left = write s.left n p;
  right = write s.right p t;
  parent = write (write (adopted b p s.parent) n g) p n;
}

abbrev pub turned_right : (p n t g : Ptr) → Shape → Store → Store
turned_right p n t g b s = record s {
  left = write s.left n t;
  right = write s.right p n;
  parent = write (write (adopted b n s.parent) p g) n p;
}

module _ (up : WayUp) (a : Shape) (p : Ptr) (b : Shape) (n : Ptr) (c : Shape)
    (once : (x : Ptr)
      → count x (before up)
          + count x (after up)
          + count x (inorder a)
          + one x p
          + count x (inorder b)
          + one x n
          + count x (inorder c)
        ≤ 1) where
  n-other : (n == p) ≡ false
  n-other = one-of_other n p (omega (arith, once n, one_self n))

  pub p-other : (p == n) ≡ false
  p-other = one-of_other p n (omega (arith, once p, one_self p))

  b-others : (x : Ptr) → 0 < count x (inorder b) → ((x == p) ≡ false) × ((x == n) ≡ false)
  b-others x i =
      (one-of_other x p (omega (arith, once x, i)), one-of_other x n (omega (arith, once x, i)))

  abbrev Outside : Ptr → Type 0
  Outside x =
      0 < count x (before up) + count x (after up) + count x (inorder a) + count x (inorder c)

  outside :
      (x : Ptr) → Outside x → ((x == p) ≡ false) × ((x == n) ≡ false) × (count x (inorder b) ≡ 0)
  outside x i = (
    one-of_other x p (omega (arith, once x, i)),
    one-of_other x n (omega (arith, once x, i)),
    omega (arith, once x, i),
  )

  module _ (s : Store) (g : Ptr) (cp cn : Color) where
    pub turned_left-Agrees : (t x : Ptr) → Outside x → Agrees s (turned_left p n t g b s) x
    turned_left-Agrees t x i =
        let (op, on, ob) = outside x i in
        record {
          lefts = write_other s.left n p x on;
          rights = write_other s.right p t x op;
          parents =
              write_other (write (adopted b p s.parent) n g) p n x op
              ∙ write_other (adopted b p s.parent) n g x on
              ∙ adopted-other b p s.parent x ob;
          colors = refl;
        }

    pub turned_left-IsTree :
        IsTree s g (node cp a p (node cn b n c)) p
        → IsTree (turned_left p n (s.left n) g b s) g (node cn (node cp a p b) n c) n
    turned_left-IsTree (e, np, up_p, col, ta, (e', nn, up_n, col', tb, tc)) =
        let t = s.left n in
        let s' : Store = turned_left p n t g b s in
        let parents : Ptr → Ptr = adopted b p s.parent in
        (
          refl,
          nn,
          write_other (write parents n g) p n n n-other ∙ write_self parents n g,
          col',
          (
            write_self s.left n p,
            np,
            write_self (write parents n g) p n,
            col,
            rw (write_other s.left n p p p-other) (
                IsTree-frame s s' p a (s.left p) (λ x i. turned_left-Agrees t x (omega (arith, i)))
                  ta),
            rw (write_self s.right p t) (
                adopted-IsTree s s' n p b t (λ x. omega (arith, once x))
                  (λ x i.
                    write_other (write parents n g) p n x (b-others x i).0
                    ∙ write_other parents n g x (b-others x i).1)
                  (λ x i. (
                    write_other s.left n p x (b-others x i).1,
                    write_other s.right p t x (b-others x i).0,
                    refl,
                  ))
                  tb),
          ),
          rw (write_other s.right p t n n-other) (
              IsTree-frame s s' n c (s.right n) (λ x i. turned_left-Agrees t x (omega (arith, i)))
                tc),
        )

    pub turned_right-Agrees : (t x : Ptr) → Outside x → Agrees s (turned_right p n t g b s) x
    turned_right-Agrees t x i =
        let (op, on, ob) = outside x i in
        record {
          lefts = write_other s.left n t x on;
          rights = write_other s.right p n x op;
          parents =
              write_other (write (adopted b n s.parent) p g) n p x on
              ∙ write_other (adopted b n s.parent) p g x op
              ∙ adopted-other b n s.parent x ob;
          colors = refl;
        }

    pub turned_right-IsTree :
        IsTree s g (node cn (node cp a p b) n c) n
        → IsTree (turned_right p n (s.right p) g b s) g (node cp a p (node cn b n c)) p
    turned_right-IsTree (e, nn, up_n, col, (e', np, up_p, col', ta, tb), tc) =
        let t = s.right p in
        let s' : Store = turned_right p n t g b s in
        let parents : Ptr → Ptr = adopted b n s.parent in
        (
          refl,
          np,
          write_other (write parents p g) n p p p-other ∙ write_self parents p g,
          col',
          rw (write_other s.left n t p p-other) (
              IsTree-frame s s' p a (s.left p) (λ x i. turned_right-Agrees t x (omega (arith, i)))
                ta),
          (
            write_self s.right p n,
            nn,
            write_self (write parents p g) n p,
            col,
            rw (write_self s.left n t) (
                adopted-IsTree s s' p n b t (λ x. omega (arith, once x))
                  (λ x i.
                    write_other (write parents p g) n p x (b-others x i).1
                    ∙ write_other parents p g x (b-others x i).0)
                  (λ x i. (
                    write_other s.left n t x (b-others x i).1,
                    write_other s.right p n x (b-others x i).0,
                    refl,
                  ))
                  tb),
            rw (write_other s.right p n n n-other) (
                IsTree-frame s s' n c (s.right n)
                  (λ x i. turned_right-Agrees t x (omega (arith, i))) tc),
          ),
        )
