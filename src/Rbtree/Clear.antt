-- ===== src/Rbtree/Clear.antt =====
-- `rbtree_clear` of common/rbtree.c: every node is destroyed, in the order of the keys.
use mathlib.Core.Path.{subst}
use neftis.Base.{
  push, count_nil, ℕ, zero, suc, Bool, true, false, not, ◌&&◌, ◌<◌, ◌≡◌, ◌∙◌, refl, sym, ap, inl,
  inr, List, [], ◌∷◌, arith, ◌==◌, if◌then◌else◌, Bool-cases, ne→==, write, write_other, has,
  has_head, IsDistinct, length, ne_of_has,
}
use neftis.Base.Run.{ok, Returns, Returns-mono, Returns-bind, modify}
use neftis.Links.Chain.{head_or, Chain}
use neftis.Rbtree.{Ptr, null, Store, rbtree_new, rbtree_node_clear, rbtree_node_destroy}
use neftis.Rbtree.Shape.{Shape, leaf, inorder}
use neftis.Rbtree.Listing.{links}
use neftis.Rbtree.Invariant.{IsWell}
use neftis.Rbtree.Lookup.{IsCached}
use neftis.Rbtree.Operations.{destroy_from, rbtree_clear, rbtree_destroy}

-- The data that the destructor is given.
abbrev pub calls : Bool → (Ptr → ℕ) → List Ptr → List ℕ
calls dtor data_of [] = []
calls dtor data_of (x ∷ xs) =
    if not (data_of x == null) && dtor
    then data_of x ∷ calls dtor data_of xs
    else calls dtor data_of xs

calls-frame :
    (dtor : Bool) (d d' : Ptr → ℕ) (xs : List Ptr)
    → ((a : Ptr) → has a xs ≡ true → d' a ≡ d a)
    → calls dtor d' xs ≡ calls dtor d xs
calls-frame dtor d d' [] same = refl
calls-frame dtor d d' (x ∷ xs) same =
    ap (λ v. if not (v == null) && dtor then v ∷ calls dtor d' xs else calls dtor d' xs)
      (same x (has_head x xs))
    ∙ ap (λ vs. if not (d x == null) && dtor then d x ∷ vs else vs)
        (calls-frame dtor d d' xs (λ a i. same a (ground arith)))

-- The store after a node was destroyed.
abbrev released : Ptr → Store → Store
released x s =
    let b : Bool = not (s.data_of x == null) && s.node_dtor in
    record s {
      freed = x ∷ s.freed;
      destroyed = if b then s.data_of x ∷ s.destroyed else s.destroyed;
      data_of = if b then write s.data_of x null else s.data_of;
    }

destroy-run :
    (s : Store) (x : Ptr) → (x == null) ≡ false → rbtree_node_destroy x s ≡ ok tt (released x s)
unfolding rbtree_node_destroy rbtree_node_clear
destroy-run s x nx = elim (Bool-cases (not (s.data_of x == null) && s.node_dtor)) [
  | inl called ↦ rw (nx, called) refl
  | inr silent ↦ rw (nx, silent) refl
]

released-data : (s : Store) (x a : Ptr) → (a == x) ≡ false → (released x s).data_of a ≡ s.data_of a
released-data s x a other = elim (Bool-cases (not (s.data_of x == null) && s.node_dtor)) [
  | inl called ↦ rw called (write_other s.data_of x null a other)
  | inr silent ↦ rw silent refl
]

-- What the walk leaves behind.
abbrev Destroyed : Store → List Ptr → Unit {0} → Store → Type 0
Destroyed s xs _ s' =
    (s'.freed ≡ push xs s.freed)
    × (s'.destroyed ≡ push (calls s.node_dtor s.data_of xs) s.destroyed)

push-calls :
    (b : Bool) (v : ℕ) (vs ds : List ℕ)
    → push vs (if b then v ∷ ds else ds) ≡ push (if b then v ∷ vs else vs) ds
push-calls true v vs ds = refl
push-calls false v vs ds = refl

destroy_from-Destroyed :
    (fuel : ℕ) (s : Store) (b : Ptr) (xs : List Ptr)
    → Chain (links s) b xs null
    → IsDistinct xs
    → length xs < fuel
    → Returns (Destroyed s xs) (destroy_from fuel (head_or xs null) s)
unfolding destroy_from
destroy_from-Destroyed zero s b xs ch d enough = elim enough [ ]
destroy_from-Destroyed (suc fuel) s b [] ch d enough = (refl, refl)
destroy_from-Destroyed (suc fuel) s b (x ∷ xs) ch d enough =
    let s1 : Store = released x s in
    let nx = ne→== x null ch.0 in
    rw (nx, destroy-run s x nx, ch.2)
      (Returns-mono {P = Destroyed s1 xs} {Q = Destroyed s (x ∷ xs)}
        (destroy_from fuel (head_or xs null) s1)
        (destroy_from-Destroyed fuel s1 x xs ch.3 d.1 (omega (arith, enough)))
        (λ _ s' (freed, destroyed). (
          freed,
          destroyed
              ∙ ap (λ vs. push vs s1.destroyed)
                  (calls-frame s.node_dtor s.data_of s1.data_of xs
                    (λ a i. released-data s x a (ne_of_has a x xs i d.0)))
              ∙ push-calls (not (s.data_of x == null) && s.node_dtor) (s.data_of x)
                  (calls s.node_dtor s.data_of xs) s.destroyed,
        )))

empty-IsWell : (s : Store) → s.root ≡ null → s.first ≡ null → s.last ≡ null → IsWell s leaf
empty-IsWell s root first last = record {
  tree = root;
  listed = record { list = record { starts = first; links = tt; distinct = tt }; lasts = last };
  once = λ a. omega (arith, count_nil a);
  ascending = tt;
  balanced = (refl, 0, refl);
}

-- A new tree is well-formed and empty.
pub rbtree_new-IsWell : IsWell rbtree_new leaf
rbtree_new-IsWell = empty-IsWell rbtree_new refl refl refl

-- The nodes are freed and their data destroyed, in order, and the tree is empty.
abbrev pub Cleared : Store → Shape → Unit {0} → Store → Type 0
Cleared s t _ s' =
    (s'.freed ≡ push (inorder t) s.freed)
    × (s'.destroyed ≡ push (calls s.node_dtor s.data_of (inorder t)) s.destroyed)
    × IsWell s' leaf
    × IsCached s' leaf

pub rbtree_clear-Destroyed :
    (s : Store) (t : Shape) (fuel : ℕ)
    → IsWell s t
    → length (inorder t) < fuel
    → Returns (Cleared s t) (rbtree_clear fuel s)
unfolding rbtree_clear
rbtree_clear-Destroyed s t fuel is enough =
    Returns-bind {P = Destroyed s (inorder t)} (Cleared s t) (destroy_from fuel s.first s)
      (λ _. modify (λ h. record h { root = null; last = null; first = null }))
      (subst (λ f. Returns (Destroyed s (inorder t)) (destroy_from fuel f s))
        (sym is.listed.list.starts)
        (destroy_from-Destroyed fuel s null (inorder t) is.listed.list.links is.listed.list.distinct
          enough))
      (λ _ h (freed, destroyed). (
        freed,
        destroyed,
        empty-IsWell (record h { root = null; last = null; first = null }) refl refl refl,
        inl refl,
      ))

-- `rbtree_destroy` of a well-formed tree frees the nodes in the order of the keys, and the tree last.
pub rbtree_destroy-freed :
    (s : Store) (t : Shape) (fuel : ℕ) (tree : Ptr)
    → IsWell s t
    → length (inorder t) < fuel
    → Returns
        (λ _ s'.
          (s'.freed ≡ tree ∷ push (inorder t) s.freed)
          × (s'.destroyed ≡ push (calls s.node_dtor s.data_of (inorder t)) s.destroyed))
        (rbtree_destroy fuel tree s)
unfolding rbtree_destroy
rbtree_destroy-freed s t fuel tree is enough =
    Returns-bind {P = Cleared s t}
      (λ _ s'.
        (s'.freed ≡ tree ∷ push (inorder t) s.freed)
        × (s'.destroyed ≡ push (calls s.node_dtor s.data_of (inorder t)) s.destroyed))
      (rbtree_clear fuel s) (λ _. modify (λ h. record h { freed = tree ∷ h.freed }))
      (rbtree_clear-Destroyed s t fuel is enough) (λ _ h c. (ap (◌∷◌ tree) c.0, c.1))
