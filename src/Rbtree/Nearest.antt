-- ===== src/Rbtree/Nearest.antt =====
-- The node that a search of common/rbtree.c is to find, read off the list of the nodes.
use neftis.Base.{
  ℕ, ◌≡◌, ◌∙◌, refl, ap, List, [], ◌∷◌, ◌++◌, arith, ◌==◌, ltb, leb, if◌then◌else◌, if-true,
  if-false, ne→==,
}
use neftis.Links.Chain.{head_or, last_or}
use neftis.Rbtree.{Ptr, null, SearchMode, rb_leftwards, rb_exact, rb_rightwards}
use neftis.Rbtree.Sorted.{AllBelow, AllAbove}

-- The node with the key.
abbrev pub exact : (Ptr → ℕ) → ℕ → List Ptr → Ptr
exact key k [] = null
exact key k (x ∷ xs) = if key x == k then x else exact key k xs

-- The last node whose key is not above `k`, or `d`.
abbrev pub floor : (Ptr → ℕ) → ℕ → Ptr → List Ptr → Ptr
floor key k d [] = d
floor key k d (x ∷ xs) = if leb (key x) k then floor key k x xs else d

-- The first node whose key is not below `k`.
abbrev pub ceiling : (Ptr → ℕ) → ℕ → List Ptr → Ptr
ceiling key k [] = null
ceiling key k (x ∷ xs) = if ltb (key x) k then ceiling key k xs else x

abbrev pub nearest : SearchMode → (Ptr → ℕ) → ℕ → List Ptr → Ptr
nearest rb_exact key k xs = exact key k xs
nearest rb_leftwards key k xs = floor key k null xs
nearest rb_rightwards key k xs = ceiling key k xs

module _ (key : Ptr → ℕ) (k : ℕ) where
  exact-above : (ys : List Ptr) → AllAbove key k ys → exact key k ys ≡ null
  exact-above [] a = refl
  exact-above (y ∷ ys) a =
      if-false y (exact key k ys) (ne→== (key y) k (λ e. omega (arith, a.0, e)))
      ∙ exact-above ys a.1

  -- Around a node with lower keys in front and higher ones behind.
  pub exact-at :
      (xs : List Ptr) (c : Ptr) (ys : List Ptr)
      → AllBelow key k xs
      → AllAbove key k ys
      → exact key k (xs ++ c ∷ ys) ≡ (if key c == k then c else null)
  exact-at [] c ys b a = ap (λ q. if key c == k then c else q) (exact-above ys a)
  exact-at (x ∷ xs) c ys b a =
      if-false x (exact key k (xs ++ c ∷ ys)) (ne→== (key x) k (λ e. omega (arith, b.0, e)))
      ∙ exact-at xs c ys b.1 a

  floor-above : (d : Ptr) (ys : List Ptr) → AllAbove key k ys → floor key k d ys ≡ d
  floor-above d [] a = refl
  floor-above d (y ∷ ys) a = if-false (floor key k y ys) d (ground (arith, a.0))

  pub floor-at :
      (d : Ptr) (xs : List Ptr) (c : Ptr) (ys : List Ptr)
      → AllBelow key k xs
      → AllAbove key k ys
      → floor key k d (xs ++ c ∷ ys) ≡ (if leb (key c) k then c else last_or d xs)
  floor-at d [] c ys b a = ap (λ q. if leb (key c) k then q else d) (floor-above c ys a)
  floor-at d (x ∷ xs) c ys b a =
      if-true (floor key k x (xs ++ c ∷ ys)) d (ground (arith, b.0)) ∙ floor-at x xs c ys b.1 a

  ceiling-above : (ys : List Ptr) → AllAbove key k ys → ceiling key k ys ≡ head_or ys null
  ceiling-above [] a = refl
  ceiling-above (y ∷ ys) a = if-false (ceiling key k ys) y (ground (arith, a.0))

  pub ceiling-at :
      (xs : List Ptr) (c : Ptr) (ys : List Ptr)
      → AllBelow key k xs
      → AllAbove key k ys
      → ceiling key k (xs ++ c ∷ ys) ≡ (if ltb (key c) k then head_or ys null else c)
  ceiling-at [] c ys b a = ap (λ q. if ltb (key c) k then q else c) (ceiling-above ys a)
  ceiling-at (x ∷ xs) c ys b a =
      if-true (ceiling key k (xs ++ c ∷ ys)) x (ground (arith, b.0)) ∙ ceiling-at xs c ys b.1 a
