-- ===== src/Rbtree/Lookup.antt =====
-- `rbtree_search` of common/rbtree.c with its cache: it finds the node that the mode asks for.
use mathlib.Core.Path.{subst}
use mathlib.Core.List.{append-nil}
use mathlib.Core.Bool.{false≢true}
use neftis.Base.{
  ℕ, Bool, true, false, not, ◌&&◌, ◌≤◌, ◌≡◌, ◌≢◌, ◌⊎◌, ◌∙◌, refl, sym, ap, inl, inr, List, [], ◌∷◌,
  ◌++◌, arith, ◌==◌, ltb, leb, if-true, if-false, Bool-cases, ne→==, ==→eq,
}
use neftis.Base.Run.{ok, Returns}
use neftis.Links.Chain.{last_or, Chain-back}
use neftis.Rbtree.{
  Ptr, null, Store, SearchMode, rb_leftwards, rb_exact, rb_rightwards, rbtree_node_search,
}
use neftis.Rbtree.Shape.{Shape, leaf, node, top, inorder, IsTree-frame}
use neftis.Rbtree.Listing.{Listed, links}
use neftis.Rbtree.Sorted.{AllBelow, AllAbove, IsAscending}
use neftis.Rbtree.Nearest.{nearest, exact-at, floor-at, ceiling-at}
use neftis.Rbtree.Descend.{height}
use neftis.Rbtree.Search.{Closest, node_search-Closest}
use neftis.Rbtree.Invariant.{IsWell, entries_of}
use neftis.Rbtree.Operations.{same_mode, adjust, search_tree, rbtree_search}

-- The cache holds what a search would find, or nothing; nobody asks it in an empty tree.
abbrev pub IsCached : Store → Shape → Type 0
IsCached s t =
    (s.root ≡ null)
    ⊎ ((s.cached_node ≡ null)
        ⊎ (s.cached_node ≡ nearest s.cached_mode s.key s.cached_key (inorder t)))

-- The store after a search that was saved.
abbrev pub saved : ℕ → SearchMode → Ptr → Store → Store
saved k mode q s = record s { cached_mode = mode; cached_key = k; cached_node = q }

abbrev pub Found : Store → Shape → ℕ → SearchMode → Ptr → Store → Type 0
Found s t k mode q s' =
    (q ≡ nearest mode s.key k (inorder t))
    × IsWell s' t
    × (entries_of s' t ≡ entries_of s t)
    × IsCached s' t

saved-IsWell :
    (s : Store) (t : Shape) (k : ℕ) (mode : SearchMode) (q : Ptr)
    → IsWell s t
    → IsWell (saved k mode q s) t
saved-IsWell s t k mode q is = record {
  tree =
      IsTree-frame s (saved k mode q s) null t s.root
        (λ x i. record { lefts = refl; rights = refl; parents = refl; colors = refl }) is.tree;
  listed = record {
    list = record {
      starts = is.listed.list.starts;
      links = is.listed.list.links;
      distinct = is.listed.list.distinct;
    };
    lasts = is.listed.lasts;
  };
  once = is.once;
  ascending = is.ascending;
  balanced = is.balanced;
}

same_mode→eq : (a b : SearchMode) → same_mode a b ≡ true → a ≡ b
same_mode→eq rb_leftwards rb_leftwards h = refl
same_mode→eq rb_exact rb_exact h = refl
same_mode→eq rb_rightwards rb_rightwards h = refl
same_mode→eq rb_leftwards rb_exact h = absurd (false≢true h)
same_mode→eq rb_leftwards rb_rightwards h = absurd (false≢true h)
same_mode→eq rb_exact rb_leftwards h = absurd (false≢true h)
same_mode→eq rb_exact rb_rightwards h = absurd (false≢true h)
same_mode→eq rb_rightwards rb_leftwards h = absurd (false≢true h)
same_mode→eq rb_rightwards rb_exact h = absurd (false≢true h)

and-false : (b : Bool) → (b && false) ≡ false
and-false true = refl
and-false false = refl

module _ (s : Store) (k : ℕ) (xs : List Ptr) (c : Ptr) (ys : List Ptr) (lower : AllBelow s.key k xs)
    (upper : AllAbove s.key k ys) (l : Listed s (xs ++ c ∷ ys)) where
  nc : c ≢ null
  nc = (Chain-back (links s) null xs (c ∷ ys) null l.list.links).0

  -- The neighbour, or the closest node itself.
  adjust-left :
      adjust k rb_leftwards c (s.key c) s ≡ ok (nearest rb_leftwards s.key k (xs ++ c ∷ ys)) s
  unfolding adjust
  adjust-left = elim (Bool-cases (ltb k (s.key c))) [
    | inl over ↦
        rw (over, ne→== c null nc, (Chain-back (links s) null xs (c ∷ ys) null l.list.links).1)
          (ap (λ q. ok q s)
            (sym (
              floor-at s.key k null xs c ys lower upper
              ∙ if-false {b = leb (s.key c) k} c (last_or null xs) (ground (arith, over)))))
    | inr under ↦
        rw (under, and-false (ltb (s.key c) k))
          (ap (λ q. ok q s)
            (sym (
              floor-at s.key k null xs c ys lower upper
              ∙ if-true {b = leb (s.key c) k} c (last_or null xs) (ground (arith, under)))))
  ]

  adjust-right :
      adjust k rb_rightwards c (s.key c) s ≡ ok (nearest rb_rightwards s.key k (xs ++ c ∷ ys)) s
  unfolding adjust
  adjust-right = elim (Bool-cases (ltb k (s.key c))) [
    | inl over ↦
        rw (over, not_both over)
          (ap (λ q. ok q s)
            (sym (ceiling-at s.key k xs c ys lower upper ∙ if-false _ c (not_both over))))
    | inr under ↦ elim (Bool-cases (ltb (s.key c) k)) [
      | inl below ↦
          rw
            (
              under,
              below,
              ne→== c null nc,
              (Chain-back (links s) null xs (c ∷ ys) null l.list.links).2,
            )
            (ap (λ q. ok q s) (sym (ceiling-at s.key k xs c ys lower upper ∙ if-true _ c below)))
      | inr same ↦
          rw (under, same)
            (ap (λ q. ok q s) (sym (ceiling-at s.key k xs c ys lower upper ∙ if-false _ c same)))
    ]
  ]
    where
      not_both : ltb k (s.key c) ≡ true → ltb (s.key c) k ≡ false
      not_both h = ground (arith, h)

  -- Where the closest node has not the key, and it must, there is none.
  exact-none : (s.key c == k) ≡ false → nearest rb_exact s.key k (xs ++ c ∷ ys) ≡ null
  exact-none differs = exact-at s.key k xs c ys lower upper ∙ if-false c null differs

  exact-some : (s.key c == k) ≡ true → nearest rb_exact s.key k (xs ++ c ∷ ys) ≡ c
  exact-some same = exact-at s.key k xs c ys lower upper ∙ if-true c null same

  adjust-exact :
      (s.key c == k) ≡ true
      → adjust k rb_exact c (s.key c) s ≡ ok (nearest rb_exact s.key k (xs ++ c ∷ ys)) s
  unfolding adjust
  adjust-exact same =
      rw (and-false (ltb k (s.key c)), and-false (ltb (s.key c) k))
        (ap (λ q. ok q s) (sym (exact-some same)))

-- The search below the root finds the node asked for, and saves it.
module _ (s : Store) (t : Shape) (k : ℕ) (is : IsWell s t) (cached : IsCached s t) where
  hit :
      (mode : SearchMode) (q : Ptr)
      → q ≡ nearest mode s.key k (inorder t)
      → Found s t k mode q (saved k mode q s)
  hit mode q e = (e, saved-IsWell s t k mode q is, refl, inr (inr e))

  search_tree-saved :
      (fuel : ℕ) (mode : SearchMode) (c : Ptr)
      → rbtree_node_search fuel s.root k s ≡ ok c s
      → c ≢ null
      → (not (s.key c == k) && same_mode mode rb_exact) ≡ false
      → adjust k mode c (s.key c) s ≡ ok (nearest mode s.key k (inorder t)) s
      → Returns (Found s t k mode) (search_tree fuel s.root k mode s)
  unfolding search_tree
  search_tree-saved fuel mode c run nc goes adjusted =
      rw (run, ne→== c null nc, goes, adjusted) (hit mode (nearest mode s.key k (inorder t)) refl)

  search_tree-missed :
      (fuel : ℕ) (c : Ptr)
      → rbtree_node_search fuel s.root k s ≡ ok c s
      → c ≢ null
      → (s.key c == k) ≡ false
      → nearest rb_exact s.key k (inorder t) ≡ null
      → Returns (Found s t k rb_exact) (search_tree fuel s.root k rb_exact s)
  unfolding search_tree
  search_tree-missed fuel c run nc differs gone =
      rw (run, ne→== c null nc, differs) (sym gone, is, refl, cached)

  search_tree-Found :
      (fuel : ℕ) (mode : SearchMode) (c : Ptr)
      → rbtree_node_search fuel s.root k s ≡ ok c s
      → Closest s k (inorder t) c
      → Returns (Found s t k mode) (search_tree fuel s.root k mode s)
  search_tree-Found fuel mode c run (xs, ys, split, lower, upper) = by_mode mode
    where
      l : Listed s (xs ++ c ∷ ys)
      l = subst (Listed s) split is.listed

      n_c : c ≢ null
      n_c = nc s k xs c ys lower upper l

      by_mode : (mode : SearchMode) → Returns (Found s t k mode) (search_tree fuel s.root k mode s)
      by_mode rb_leftwards =
          search_tree-saved fuel rb_leftwards c run n_c (and-false (not (s.key c == k))) (
            subst
              (λ zs. adjust k rb_leftwards c (s.key c) s ≡ ok (nearest rb_leftwards s.key k zs) s)
              (sym split) (adjust-left s k xs c ys lower upper l))
      by_mode rb_rightwards =
          search_tree-saved fuel rb_rightwards c run n_c (and-false (not (s.key c == k))) (
            subst
              (λ zs. adjust k rb_rightwards c (s.key c) s ≡ ok (nearest rb_rightwards s.key k zs) s)
              (sym split) (adjust-right s k xs c ys lower upper l))
      by_mode rb_exact = elim (Bool-cases (s.key c == k)) [
        | inl same ↦ search_tree-saved fuel rb_exact c run n_c (ap (λ b. not b && true) same) (
            subst (λ zs. adjust k rb_exact c (s.key c) s ≡ ok (nearest rb_exact s.key k zs) s)
              (sym split) (adjust-exact s k xs c ys lower upper l same))
        | inr differs ↦
            search_tree-missed fuel c run n_c differs
              (ap (nearest rb_exact s.key k) split ∙ exact-none s k xs c ys lower upper l differs)
      ]

-- `rbtree_search` in a well-formed tree whose cache is right, with as much fuel as the tree is high:
-- it returns the node with the key, or the last one not above it, or the first one not below it, as
-- the mode says, or NULL where there is none; tree and entries stay, and the cache is right again.
pub rbtree_search-Found :
    (s : Store) (t : Shape) (k : ℕ) (mode : SearchMode) (fuel : ℕ)
    → IsWell s t
    → IsCached s t
    → height t ≤ fuel
    → Returns (Found s t k mode) (rbtree_search fuel k mode s)
unfolding rbtree_search
rbtree_search-Found s leaf k mode fuel is cached enough = rw at_null (empty mode, is, refl, cached)
  where
    at_null : (s.root == null) ≡ true
    at_null = ap (λ q. q == null) is.tree

    empty : (mode : SearchMode) → null ≡ nearest mode s.key k []
    empty rb_leftwards = refl
    empty rb_exact = refl
    empty rb_rightwards = refl
rbtree_search-Found s (node c l p r) k mode fuel is cached enough =
    rw (ne→== s.root null not_empty)
      (elim (Bool-cases
        (s.cached_key == k && same_mode s.cached_mode mode && not (s.cached_node == null))) [
          | inl saved_one ↦ rw saved_one (from_cache saved_one cached, is, refl, cached)
          | inr not_saved ↦ rw not_saved (
              let (q, run, closest) =
                node_search-Closest s k fuel top c l p r s.root null is.tree
                  (subst (IsAscending s.key) (sym (append-nil (inorder (node c l p r))))
                    is.ascending)
                  tt tt enough in
              search_tree-Found s (node c l p r) k is cached fuel mode q run
                (subst (λ zs. Closest s k zs q) (append-nil (inorder (node c l p r))) closest))
        ])
  where
    t : Shape
    t = node c l p r

    not_empty : s.root ≢ null
    not_empty z = is.tree.1 (sym is.tree.0 ∙ z)

    from_cache :
        (s.cached_key == k && same_mode s.cached_mode mode && not (s.cached_node == null)) ≡ true
        → IsCached s (node c l p r)
        → s.cached_node ≡ nearest mode s.key k (inorder (node c l p r))
    from_cache h (inl z) = absurd (not_empty z)
    from_cache h (inr (inl z)) = ground (arith, h, z)
    from_cache h (inr (inr e)) =
        subst (λ m. s.cached_node ≡ nearest m s.key k (inorder (node c l p r)))
          (same_mode→eq s.cached_mode mode (ground (arith, h)))
          (subst (λ j. s.cached_node ≡ nearest s.cached_mode s.key j (inorder (node c l p r)))
            (==→eq s.cached_key k (ground (arith, h))) e)
