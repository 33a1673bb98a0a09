-- ===== src/Rbtree/Invariant.antt =====
-- A well-formed red-black tree of common/rbtree.c, and that it survives a new node that is not in it.
use mathlib.Core.Path.{subst}
use neftis.Base.{
  ℕ, suc, ◌<◌, ◌≤◌, ◌≡◌, ◌≢◌, ◌∙◌, refl, sym, ap, true, List, [], ◌∷◌, arith, write_self,
  write_other, length, length-append, count, count_cons, IsOnce, one_self, has, ne_of_count,
  ne_of_has, has-of_count,
}
use neftis.Links.Chain.{Chain-frame}
use neftis.Rbtree.{Ptr, null, Store, rbtree_node_new, rb_red}
use neftis.Rbtree.Shape.{Shape, leaf, node, inorder, IsTree, Agrees, IsTree-frame}
use neftis.Rbtree.Operations.{rbtree_invalidate_cache}
use neftis.Rbtree.RedBlack.{IsRedBlack}
use neftis.Rbtree.Listing.{Listed, links}
use neftis.Rbtree.Attach.{IsNew}
use neftis.Rbtree.Sorted.{IsAscending, AllAbove}
use neftis.Rbtree.Entries.{entries}
use neftis.Rbtree.Descend.{height}

-- The pointers hold the tree `t`, which is red-black, and the list of its nodes, in the order of
-- their keys.
pub record IsWell (s : Store) (t : Shape) : Type 0 where
  pub tree : IsTree s null t s.root
  pub listed : Listed s (inorder t)
  pub once : IsOnce (inorder t)
  pub ascending : IsAscending s.key (inorder t)
  pub balanced : IsRedBlack t

abbrev pub entries_of : Store → Shape → List (ℕ × ℕ)
entries_of s t = entries s.key s.data_of (inorder t)

-- The store holds a well-formed tree with these entries.
abbrev pub Holds : Store → List (ℕ × ℕ) → Type 0
Holds s m = (t : Shape) × IsWell s t × (entries_of s t ≡ m)

pub length-entries :
    (key data_of : Ptr → ℕ) (xs : List Ptr) → length (entries key data_of xs) ≡ length xs
length-entries key data_of [] = refl
length-entries key data_of (x ∷ xs) = ap suc (length-entries key data_of xs)

pub height-length : (t : Shape) → height t ≤ length (inorder t)
height-length leaf = omega arith
height-length (node c l p r) =
    ground (arith, height-length l, height-length r, length-append (inorder l) (p ∷ inorder r))

-- What depends only on the nodes of a list.
module _ (s g : Store) where
  abbrev pub Same : List Ptr → Type 0
  Same xs = (x : Ptr) → 0 < count x xs → (g.key x ≡ s.key x) × (g.data_of x ≡ s.data_of x)

  Same-tail : (x : Ptr) (xs : List Ptr) → Same (x ∷ xs) → Same xs
  Same-tail x xs same y i = same y (omega (arith, i, count_cons y x xs))

  pub entries-frame :
      (xs : List Ptr) → Same xs → entries g.key g.data_of xs ≡ entries s.key s.data_of xs
  entries-frame [] same = refl
  entries-frame (x ∷ xs) same =
      let (k, v) = same x (omega (arith, count_cons x x xs, one_self x)) in
      rw (k, v) (ap (◌∷◌ (s.key x, s.data_of x)) (entries-frame xs (Same-tail x xs same)))

  AllAbove-frame : (k : ℕ) (xs : List Ptr) → Same xs → AllAbove s.key k xs → AllAbove g.key k xs
  AllAbove-frame k [] same a = tt
  AllAbove-frame k (x ∷ xs) same a = (
    subst (λ j. k < j) (sym (same x (omega (arith, count_cons x x xs, one_self x))).0) a.0,
    AllAbove-frame k xs (Same-tail x xs same) a.1,
  )

  IsAscending-frame : (xs : List Ptr) → Same xs → IsAscending s.key xs → IsAscending g.key xs
  IsAscending-frame [] same a = tt
  IsAscending-frame (x ∷ xs) same a = (
    subst (λ j. AllAbove g.key j xs) (sym (same x (omega (arith, count_cons x x xs, one_self x))).0)
        (AllAbove-frame (s.key x) xs (Same-tail x xs same) a.0),
    IsAscending-frame xs (Same-tail x xs same) a.1,
  )

-- A store that differs outside the tree's nodes only.
pub record Untouched (s g : Store) (t : Shape) : Type 0 where
  pub roots : g.root ≡ s.root
  pub firsts : g.first ≡ s.first
  pub lasts : g.last ≡ s.last
  pub agrees : (x : Ptr) → 0 < count x (inorder t) → Agrees s g x
  pub prevs : (x : Ptr) → has x (inorder t) ≡ true → g.prev x ≡ s.prev x
  pub nexts : (x : Ptr) → has x (inorder t) ≡ true → g.next x ≡ s.next x
  pub same : (x : Ptr) → 0 < count x (inorder t) → (g.key x ≡ s.key x) × (g.data_of x ≡ s.data_of x)

module _ (s g : Store) (t : Shape) (u : Untouched s g t) where
  pub Untouched-IsWell : IsWell s t → IsWell g t
  Untouched-IsWell is = record {
    tree = rw (u.roots) (IsTree-frame s g null t s.root u.agrees is.tree);
    listed = record {
      list = record {
        starts = u.firsts ∙ is.listed.list.starts;
        links =
            Chain-frame (links s) (links g) null (inorder t) null u.prevs u.nexts
              is.listed.list.links;
        distinct = is.listed.list.distinct;
      };
      lasts = u.lasts ∙ is.listed.lasts;
    };
    once = is.once;
    ascending = IsAscending-frame s g (inorder t) u.same is.ascending;
    balanced = is.balanced;
  }

  pub Untouched-entries : entries_of g t ≡ entries_of s t
  Untouched-entries = entries-frame s g (inorder t) u.same

module _ (s : Store) (n k v : ℕ) where
  -- The store once a node was made, its cache gone.
  abbrev pub prepared : Store
  prepared = rbtree_invalidate_cache (rbtree_node_new n k v s)

  pub prepared-Untouched : (t : Shape) → count n (inorder t) ≡ 0 → Untouched s prepared t
  prepared-Untouched t fresh = record {
    roots = refl;
    firsts = refl;
    lasts = refl;
    agrees = λ x i. record {
      lefts = write_other s.left n null x (ne_of_count x n (inorder t) i fresh);
      rights = write_other s.right n null x (ne_of_count x n (inorder t) i fresh);
      parents = write_other s.parent n null x (ne_of_count x n (inorder t) i fresh);
      colors = write_other s.color n rb_red x (ne_of_count x n (inorder t) i fresh);
    };
    prevs = λ x i.
        write_other s.prev n null x
          (ne_of_has x n (inorder t) i (has-of_count n (inorder t) fresh));
    nexts = λ x i.
        write_other s.next n null x
          (ne_of_has x n (inorder t) i (has-of_count n (inorder t) fresh));
    same = λ x i. (
      write_other s.key n k x (ne_of_count x n (inorder t) i fresh),
      write_other s.data_of n v x (ne_of_count x n (inorder t) i fresh),
    );
  }

  pub prepared-IsNew : n ≢ null → IsNew prepared n k
  prepared-IsNew nn = record {
    not_null = nn;
    colors = write_self s.color n rb_red;
    keys = write_self s.key n k;
    lefts = write_self s.left n null;
    rights = write_self s.right n null;
    parents = write_self s.parent n null;
    prevs = write_self s.prev n null;
    nexts = write_self s.next n null;
  }

  pub prepared-data : prepared.data_of n ≡ v
  prepared-data = write_self s.data_of n v
