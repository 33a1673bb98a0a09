-- ===== src/Rbtree/Search.antt =====
-- `rbtree_node_search` of common/rbtree.c: the way down to the node closest to a key.
use mathlib.Core.Path.{subst}
use mathlib.Core.List.{append_assoc}
use neftis.Base.{
  ℕ, zero, suc, true, false, ◌≤◌, ◌≡◌, ◌≢◌, ◌∙◌, refl, sym, inl, inr, List, ◌∷◌, ◌++◌, arith, ◌==◌,
  ltb, Bool-cases, ne→==, ==→eq, ltb→lt,
}
use neftis.Base.Run.{Run, ok}
use neftis.Rbtree.{Ptr, null, Color, Store, rbtree_node_search}
use neftis.Rbtree.Shape.{
  Shape, leaf, node, WayUp, in_left, in_right, inorder, before, after, whole, IsTree, whole-left,
  whole-right,
}
use neftis.Rbtree.Sorted.{
  AllBelow, AllAbove, IsAscending, above-left, below-front, below-right, parts,
}
use neftis.Rbtree.Descend.{height, height-left, height-right}

-- A node of the list with lower keys in front of it and higher ones behind it.
abbrev pub Closest : Store → ℕ → List Ptr → Ptr → Type 0
Closest s k zs c =
    (xs : List Ptr) × (ys : List Ptr) × (zs ≡ xs ++ c ∷ ys)
    × AllBelow s.key k xs
    × AllAbove s.key k ys

-- One step.
module _ (fuel : ℕ) (s : Store) (p k : ℕ) (np : p ≢ null) where
  search-here : (s.key p == k) ≡ true → rbtree_node_search (suc fuel) p k s ≡ ok p s
  unfolding rbtree_node_search
  search-here same = rw (ne→== p null np, same)

  module _ (differs : (s.key p == k) ≡ false) where
    search-left_empty :
        ltb k (s.key p) ≡ true → s.left p ≡ null → rbtree_node_search (suc fuel) p k s ≡ ok p s
    unfolding rbtree_node_search
    search-left_empty lower empty = rw (ne→== p null np, differs, lower, empty)

    search-left :
        ltb k (s.key p) ≡ true
        → (s.left p == null) ≡ false
        → rbtree_node_search (suc fuel) p k s ≡ rbtree_node_search fuel (s.left p) k s
    unfolding rbtree_node_search
    search-left lower full = rw (ne→== p null np, differs, lower, full)

    search-right_empty :
        ltb k (s.key p) ≡ false → s.right p ≡ null → rbtree_node_search (suc fuel) p k s ≡ ok p s
    unfolding rbtree_node_search
    search-right_empty upper empty = rw (ne→== p null np, differs, upper, empty)

    search-right :
        ltb k (s.key p) ≡ false
        → (s.right p == null) ≡ false
        → rbtree_node_search (suc fuel) p k s ≡ rbtree_node_search fuel (s.right p) k s
    unfolding rbtree_node_search
    search-right upper full = rw (ne→== p null np, differs, upper, full)

module _ (s : Store) (k : ℕ) where
  -- The search finds the closest node, and writes nothing.
  abbrev Finds : WayUp → Shape → Run Store Ptr → Type 0
  Finds up t r = (c : Ptr) × (r ≡ ok c s) × Closest s k (whole up t) c

  abbrev Searching : ℕ → Type 0
  Searching fuel =
      (up : WayUp) (c : Color) (l : Shape) (p : Ptr) (r : Shape) (q par : Ptr)
      → IsTree s par (node c l p r) q
      → IsAscending s.key (whole up (node c l p r))
      → AllBelow s.key k (before up)
      → AllAbove s.key k (after up)
      → height (node c l p r) ≤ fuel
      → Finds up (node c l p r) (rbtree_node_search fuel q k s)

  module _ (fuel : ℕ) (rec : Searching fuel) (up : WayUp) (c : Color) (p par : Ptr)
      (differs : (s.key p == k) ≡ false) where
    on_left :
        (l r : Shape)
        → ltb k (s.key p) ≡ true
        → IsTree s par (node c l p r) p
        → IsAscending s.key (whole up (node c l p r))
        → AllBelow s.key k (before up)
        → AllAbove s.key k (after up)
        → height (node c l p r) ≤ suc fuel
        → Finds up (node c l p r) (rbtree_node_search (suc fuel) p k s)
    on_left leaf r lower is asc b a enough = (
      p,
      search-left_empty fuel s p k is.1 differs lower is.4,
      (
        before up,
        inorder r ++ after up,
        simp (append_assoc),
        b,
        (above-left s.key k up c leaf p r asc b a (ltb→lt k (s.key p) lower)).1,
      ),
    )
    on_left (node c' l' p' r') r lower is asc b a enough =
        let l : Shape = node c' l' p' r' in
        let e = whole-left up c p r l in
        let (q, run, (xs, ys, split, below, above)) =
          rec (in_left up c p r) c' l' p' r' (s.left p) p is.4
            (subst (IsAscending s.key) (sym e) asc) b
            (above-left s.key k up c l p r asc b a (ltb→lt k (s.key p) lower))
            (omega (arith, enough, height-left c l p r)) in
        (
          q,
          search-left fuel s p k is.1 differs lower
                (ne→== (s.left p) null (λ z. is.4.1 (sym is.4.0 ∙ z)))
              ∙ run,
          (xs, ys, sym e ∙ split, below, above),
        )

    on_right :
        (l r : Shape)
        → ltb k (s.key p) ≡ false
        → IsTree s par (node c l p r) p
        → IsAscending s.key (whole up (node c l p r))
        → AllBelow s.key k (before up)
        → AllAbove s.key k (after up)
        → height (node c l p r) ≤ suc fuel
        → Finds up (node c l p r) (rbtree_node_search (suc fuel) p k s)
    on_right l leaf upper is asc b a enough = (
      p,
      search-right_empty fuel s p k is.1 differs upper is.5,
      (
        before up ++ inorder l,
        after up,
        simp (append_assoc),
        below-front s.key k up c l p leaf asc b a (ground (arith, differs, upper)),
        a,
      ),
    )
    on_right l (node c' l' p' r') upper is asc b a enough =
        let r : Shape = node c' l' p' r' in
        let e = whole-right up c l p r in
        let (q, run, (xs, ys, split, below, above)) =
          rec (in_right up c l p) c' l' p' r' (s.right p) p is.5
            (subst (IsAscending s.key) (sym e) asc)
            (below-right s.key k up c l p r asc b a (ground (arith, differs, upper))) a
            (omega (arith, enough, height-right c l p r)) in
        (
          q,
          search-right fuel s p k is.1 differs upper
                (ne→== (s.right p) null (λ z. is.5.1 (sym is.5.0 ∙ z)))
              ∙ run,
          (xs, ys, sym e ∙ split, below, above),
        )

  step :
      (fuel : ℕ)
      → Searching fuel
      → (up : WayUp) (c : Color) (l : Shape) (p : Ptr) (r : Shape) (par : Ptr)
      → IsTree s par (node c l p r) p
      → IsAscending s.key (whole up (node c l p r))
      → AllBelow s.key k (before up)
      → AllAbove s.key k (after up)
      → height (node c l p r) ≤ suc fuel
      → Finds up (node c l p r) (rbtree_node_search (suc fuel) p k s)
  step fuel rec up c l p r par is asc b a enough = elim (Bool-cases (s.key p == k)) [
    | inl same ↦
        let (below, above) = parts s.key k up c l p r asc in
        let e = ==→eq (s.key p) k same in
        (
          p,
          search-here fuel s p k is.1 same,
          (
            before up ++ inorder l,
            inorder r ++ after up,
            simp (append_assoc),
            subst (λ j. AllBelow s.key j (before up ++ inorder l)) e below,
            subst (λ j. AllAbove s.key j (inorder r ++ after up)) e above,
          ),
        )
    | inr differs ↦ elim (Bool-cases (ltb k (s.key p))) [
      | inl lower ↦ on_left fuel rec up c p par differs l r lower is asc b a enough
      | inr upper ↦ on_right fuel rec up c p par differs l r upper is asc b a enough
    ]
  ]

  -- `rbtree_node_search` in a tree that is not empty, with as much fuel as it is high.
  pub node_search-Closest : (fuel : ℕ) → Searching fuel
  node_search-Closest zero up c l p r q par is asc b a enough = elim enough [ ]
  node_search-Closest (suc fuel) up c l p r q par is asc b a enough =
      subst (λ x. Finds up (node c l p r) (rbtree_node_search (suc fuel) x k s)) (sym is.0)
        (step fuel (node_search-Closest fuel) up c l p r par (refl, is.1, is.2, is.3, is.4, is.5)
          asc b a enough)
