-- ===== src/Rbtree/Sorted.antt =====
-- Lists of nodes in the order of their keys, and where a key belongs among them.
use mathlib.Core.Path.{subst}
use mathlib.Core.List.{append_assoc, append-nil}
use neftis.Base.{
  ℕ, ◌+◌, ◌<◌, ◌≤◌, ◌≡◌, ◌∙◌, sym, inl, inr, List, [], ◌∷◌, ◌++◌, arith, ◌==◌, ltb, Bool-cases,
  ==→eq, ltb→lt,
}
use neftis.Rbtree.{Ptr, Color}
use neftis.Rbtree.Shape.{
  Shape, leaf, node, WayUp, in_left, in_right, inorder, before, after, whole, whole-left,
  whole-right,
}
use neftis.Rbtree.Fix.{depth}
use neftis.Rbtree.Descend.{Place, found, hole, descend, height, height-left, height-right}

abbrev pub AllBelow : (Ptr → ℕ) → ℕ → List Ptr → Type 0
AllBelow key k [] = Unit {0}
AllBelow key k (x ∷ xs) = (key x < k) × AllBelow key k xs

abbrev pub AllAbove : (Ptr → ℕ) → ℕ → List Ptr → Type 0
AllAbove key k [] = Unit {0}
AllAbove key k (x ∷ xs) = (k < key x) × AllAbove key k xs

abbrev pub IsAscending : (Ptr → ℕ) → List Ptr → Type 0
IsAscending key [] = Unit {0}
IsAscending key (x ∷ xs) = AllAbove key (key x) xs × IsAscending key xs

module _ (key : Ptr → ℕ) where
  AllBelow-append :
      (k : ℕ) (xs ys : List Ptr) → AllBelow key k xs → AllBelow key k ys → AllBelow key k (xs ++ ys)
  AllBelow-append k [] ys a b = b
  AllBelow-append k (x ∷ xs) ys a b = (a.0, AllBelow-append k xs ys a.1 b)

  AllAbove-append :
      (k : ℕ) (xs ys : List Ptr) → AllAbove key k xs → AllAbove key k ys → AllAbove key k (xs ++ ys)
  AllAbove-append k [] ys a b = b
  AllAbove-append k (x ∷ xs) ys a b = (a.0, AllAbove-append k xs ys a.1 b)

  AllAbove-split :
      (k : ℕ) (xs ys : List Ptr) → AllAbove key k (xs ++ ys) → AllAbove key k xs × AllAbove key k ys
  AllAbove-split k [] ys a = (tt, a)
  AllAbove-split k (x ∷ xs) ys a = let (l, r) = AllAbove-split k xs ys a.1 in ((a.0, l), r)

  AllAbove-mono : (j k : ℕ) (xs : List Ptr) → j ≤ k → AllAbove key k xs → AllAbove key j xs
  AllAbove-mono j k [] h a = tt
  AllAbove-mono j k (x ∷ xs) h a = (omega (arith, h, a.0), AllAbove-mono j k xs h a.1)

  AllBelow-mono : (j k : ℕ) (xs : List Ptr) → j ≤ k → AllBelow key j xs → AllBelow key k xs
  AllBelow-mono j k [] h a = tt
  AllBelow-mono j k (x ∷ xs) h a = (omega (arith, h, a.0), AllBelow-mono j k xs h a.1)

  -- Around a node, the keys are lower in front and higher behind.
  pub IsAscending-split :
      (xs : List Ptr) (p : Ptr) (ys : List Ptr)
      → IsAscending key (xs ++ p ∷ ys)
      → AllBelow key (key p) xs × AllAbove key (key p) ys
  IsAscending-split [] p ys a = (tt, a.0)
  IsAscending-split (x ∷ xs) p ys a =
      let (l, r) = IsAscending-split xs p ys a.1 in
      (((AllAbove-split (key x) xs (p ∷ ys) a.0).1.0, l), r)

  -- A node may be put where its key belongs.
  pub insert-IsAscending :
      (xs : List Ptr) (n : Ptr) (ys : List Ptr)
      → AllBelow key (key n) xs
      → AllAbove key (key n) ys
      → IsAscending key (xs ++ ys)
      → IsAscending key (xs ++ n ∷ ys)
  insert-IsAscending [] n ys l r a = (r, a)
  insert-IsAscending (x ∷ xs) n ys l r a =
      let (ax, ay) = AllAbove-split (key x) xs ys a.0 in
      (AllAbove-append (key x) xs (n ∷ ys) ax (l.0, ay), insert-IsAscending xs n ys l.1 r a.1)

  -- A tree in its place: the keys around it, and around its children.
  module _ (k : ℕ) (up : WayUp) (c : Color) (l : Shape) (p : Ptr) (r : Shape)
      (asc : IsAscending key (whole up (node c l p r))) where
    pub parts :
        AllBelow key (key p) (before up ++ inorder l) × AllAbove key (key p) (inorder r ++ after up)
    parts =
        IsAscending-split (before up ++ inorder l) p (inorder r ++ after up)
          (subst (IsAscending key) (simp (append_assoc)) asc)

    module _ (b : AllBelow key k (before up)) (a : AllAbove key k (after up)) where
      pub above-left : k < key p → AllAbove key k (p ∷ inorder r ++ after up)
      above-left h = (h, AllAbove-mono k (key p) (inorder r ++ after up) (omega (arith, h)) parts.1)

      pub below-front : key p < k → AllBelow key k (before up ++ inorder l)
      below-front h = AllBelow-mono (key p) k (before up ++ inorder l) (omega (arith, h)) parts.0

      pub below-right : key p < k → AllBelow key k (before up ++ inorder l ++ p ∷ [])
      below-right h = AllBelow-append k (before up ++ inorder l) (p ∷ []) (below-front h) (h, tt)

  -- What the way down finds.
  abbrev pub Descends : ℕ → WayUp → Shape → Place → Type 0
  Descends k up t (found p) =
      (xs : List Ptr) × (ys : List Ptr) × (whole up t ≡ xs ++ p ∷ ys) × (key p ≡ k)
  Descends k up t (hole up') =
      (before up' ++ after up' ≡ whole up t)
      × AllBelow key k (before up')
      × AllAbove key k (after up')
      × (depth up' ≤ depth up + height t)

  pub descend-Descends :
      (k : ℕ) (up : WayUp) (t : Shape)
      → IsAscending key (whole up t)
      → AllBelow key k (before up)
      → AllAbove key k (after up)
      → Descends k up t (descend key k up t)
  descend-Descends k up leaf asc l r = (simp (append-nil), l, r, omega arith)
  descend-Descends k up (node c tl p tr) asc l r = elim (Bool-cases (key p == k)) [
    | inl same ↦
        rw same (
          before up ++ inorder tl,
          inorder tr ++ after up,
          simp (append_assoc),
          ==→eq (key p) k same,
        )
    | inr differs ↦ elim (Bool-cases (ltb k (key p))) [
      | inl lower ↦
          rw (differs, lower)
            (lift_left (descend key k (in_left up c p tr) tl) (
              descend-Descends k (in_left up c p tr) tl
                (subst (IsAscending key) (sym (whole-left up c p tr tl)) asc) l
                (above-left k up c tl p tr asc l r (ltb→lt k (key p) lower))))
      | inr upper ↦
          rw (differs, upper)
            (lift_right (descend key k (in_right up c tl p) tr) (
              descend-Descends k (in_right up c tl p) tr
                (subst (IsAscending key) (sym (whole-right up c tl p tr)) asc)
                (below-right k up c tl p tr asc l r (ground (arith, differs, upper))) r))
    ]
  ]
    where
      lift_left :
          (place : Place)
          → Descends k (in_left up c p tr) tl place
          → Descends k up (node c tl p tr) place
      lift_left (found q) d = (d.0, d.1, sym (whole-left up c p tr tl) ∙ d.2, d.3)
      lift_left (hole up') d =
          (d.0 ∙ whole-left up c p tr tl, d.1, d.2, omega (arith, d.3, height-left c tl p tr))

      lift_right :
          (place : Place)
          → Descends k (in_right up c tl p) tr place
          → Descends k up (node c tl p tr) place
      lift_right (found q) d = (d.0, d.1, sym (whole-right up c tl p tr) ∙ d.2, d.3)
      lift_right (hole up') d =
          (d.0 ∙ whole-right up c tl p tr, d.1, d.2, omega (arith, d.3, height-right c tl p tr))
