-- ===== src/Rbtree/Shape.antt =====
-- What the pointers of a red-black tree say: the tree at a node, and what stands around it.
use mathlib.Core.List.{append_assoc}
use neftis.Base.{ℕ, ◌+◌, ◌≡◌, ◌≢◌, ◌∙◌, refl, sym, List, [], ◌∷◌, ◌++◌, ◌<◌, arith}
use neftis.Base.{count, count_cons, count-append, one_self, one}
use neftis.Rbtree.{Ptr, null, Color, Store}

pub data Shape : Type 0 where
  leaf : Shape
  node : Color → Shape → Ptr → Shape → Shape

-- The way up from a node: it is the root, or a left or a right child.
pub data WayUp : Type 0 where
  top : WayUp
  in_left : WayUp → Color → Ptr → Shape → WayUp
  in_right : WayUp → Color → Shape → Ptr → WayUp

abbrev pub inorder : Shape → List Ptr
inorder leaf = []
inorder (node c l p r) = inorder l ++ p ∷ inorder r

-- The nodes in front of the hole and behind it.
abbrev pub before : WayUp → List Ptr
before top = []
before (in_left up c p r) = before up
before (in_right up c l p) = before up ++ inorder l ++ p ∷ []

abbrev pub after : WayUp → List Ptr
after top = []
after (in_left up c p r) = p ∷ inorder r ++ after up
after (in_right up c l p) = after up

abbrev pub whole : WayUp → Shape → List Ptr
whole up t = before up ++ inorder t ++ after up

abbrev pub fill : WayUp → Shape → Shape
fill top t = t
fill (in_left up c p r) t = fill up (node c t p r)
fill (in_right up c l p) t = fill up (node c l p t)

-- The tree at `q`, whose parent is `par`.
abbrev pub IsTree : Store → Ptr → Shape → Ptr → Type 0
IsTree s par leaf q = q ≡ null
IsTree s par (node c l p r) q =
    (q ≡ p)
    × (p ≢ null)
    × (s.parent p ≡ par)
    × (s.color p ≡ c)
    × IsTree s p l (s.left p)
    × IsTree s p r (s.right p)

-- What stands around the hole, where `q` is, whose parent is `par`.
abbrev pub IsContext : Store → WayUp → Ptr → Ptr → Type 0
IsContext s top q par = (s.root ≡ q) × (par ≡ null)
IsContext s (in_left up c p r) q par =
    (par ≡ p)
    × (p ≢ null)
    × (s.left p ≡ q)
    × (s.color p ≡ c)
    × IsTree s p r (s.right p)
    × IsContext s up p (s.parent p)
IsContext s (in_right up c l p) q par =
    (par ≡ p)
    × (p ≢ null)
    × (s.right p ≡ q)
    × (s.color p ≡ c)
    × IsTree s p l (s.left p)
    × IsContext s up p (s.parent p)

pub whole-left :
    (up : WayUp) (c : Color) (p : Ptr) (r t : Shape)
    → whole (in_left up c p r) t ≡ whole up (node c t p r)
whole-left up c p r t = simp (append_assoc)

pub whole-right :
    (up : WayUp) (c : Color) (l : Shape) (p : Ptr) (t : Shape)
    → whole (in_right up c l p) t ≡ whole up (node c l p t)
whole-right up c l p t = simp (append_assoc)

-- The nodes of a filled context, in order.
pub inorder-fill : (up : WayUp) (t : Shape) → inorder (fill up t) ++ [] ≡ whole up t
inorder-fill top t = refl
inorder-fill (in_left up c p r) t = inorder-fill up (node c t p r) ∙ sym (whole-left up c p r t)
inorder-fill (in_right up c l p) t = inorder-fill up (node c l p t) ∙ sym (whole-right up c l p t)

pub count-whole :
    (x : ℕ) (up : WayUp) (t : Shape)
    → count x (whole up t) ≡ count x (before up) + count x (inorder t) + count x (after up)
count-whole x up t = omega (
  arith,
  count-append x (before up ++ inorder t) (after up),
  count-append x (before up) (inorder t),
)

pub count-node :
    (x : ℕ) (c : Color) (l : Shape) (p : Ptr) (r : Shape)
    → count x (inorder (node c l p r)) ≡ count x (inorder l) + one x p + count x (inorder r)
count-node x c l p r =
    omega (arith, count-append x (inorder l) (p ∷ inorder r), count_cons x p (inorder r))

-- The tree's links at a node are the same.
pub record Agrees (s g : Store) (a : Ptr) : Type 0 where
  pub lefts : g.left a ≡ s.left a
  pub rights : g.right a ≡ s.right a
  pub parents : g.parent a ≡ s.parent a
  pub colors : g.color a ≡ s.color a

module _ (s g : Store) where
  -- A tree survives where its nodes agree.
  pub IsTree-frame :
      (par : Ptr) (t : Shape) (q : Ptr)
      → ((a : Ptr) → 0 < count a (inorder t) → Agrees s g a)
      → IsTree s par t q
      → IsTree g par t q
  IsTree-frame par leaf q same is = is
  IsTree-frame par (node c l p r) q same (e, ne, up, col, tl, tr) =
      let at_p = same p (
        omega (
          arith,
          count-append p (inorder l) (p ∷ inorder r),
          count_cons p p (inorder r),
          one_self p,
        )) in
      let in_l : (a : Ptr) → 0 < count a (inorder l) → Agrees s g a =
        λ a i. same a (omega (arith, count-append a (inorder l) (p ∷ inorder r))) in
      let in_r : (a : Ptr) → 0 < count a (inorder r) → Agrees s g a = λ a i.
        same a
          (omega (arith, count-append a (inorder l) (p ∷ inorder r), count_cons a p (inorder r))) in
      (
        e,
        ne,
        at_p.parents ∙ up,
        at_p.colors ∙ col,
        rw at_p.lefts (IsTree-frame p l (s.left p) in_l tl),
        rw at_p.rights (IsTree-frame p r (s.right p) in_r tr),
      )

  -- What stands around the hole survives too.
  pub IsContext-frame :
      (up : WayUp) (q par : Ptr)
      → g.root ≡ s.root
      → ((a : Ptr) → 0 < count a (before up) + count a (after up) → Agrees s g a)
      → IsContext s up q par
      → IsContext g up q par
  IsContext-frame top q par root same is = (root ∙ is.0, is.1)
  IsContext-frame (in_left up c p r) q par root same (e, ne, child, col, tr, rest) =
      let at_p = same p (omega (arith, count_cons p p (inorder r ++ after up), one_self p)) in
      let in_r : (a : Ptr) → 0 < count a (inorder r) → Agrees s g a = λ a i. same a (
        omega
          (arith, count_cons a p (inorder r ++ after up), count-append a (inorder r) (after up))) in
      let in_up : (a : Ptr) → 0 < count a (before up) + count a (after up) → Agrees s g a = λ a i.
        same a (
          omega (
            arith,
            count_cons a p (inorder r ++ after up),
            count-append a (inorder r) (after up),
          )) in
      (
        e,
        ne,
        at_p.lefts ∙ child,
        at_p.colors ∙ col,
        rw at_p.rights (IsTree-frame p r (s.right p) in_r tr),
        rw at_p.parents (IsContext-frame up p (s.parent p) root in_up rest),
      )
  IsContext-frame (in_right up c l p) q par root same (e, ne, child, col, tl, rest) =
      let split : (a : Ptr)
          → count a (before up ++ inorder l ++ p ∷ [])
            ≡ count a (before up) + (count a (inorder l) + count a (p ∷ [])) =
        λ a. omega (
          arith,
          count-append a (before up ++ inorder l) (p ∷ []),
          count-append a (before up) (inorder l),
        ) in
      let at_p = same p (omega (arith, split p, count_cons p p [], one_self p)) in
      (
        e,
        ne,
        at_p.rights ∙ child,
        at_p.colors ∙ col,
        rw at_p.lefts (IsTree-frame p l (s.left p) (λ a i. same a (omega (arith, split a))) tl),
        rw at_p.parents
            (IsContext-frame up p (s.parent p) root (λ a i. same a (omega (arith, split a))) rest),
      )
