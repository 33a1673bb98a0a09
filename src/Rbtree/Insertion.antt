-- ===== src/Rbtree/Insertion.antt =====
-- `rbtree_insert_ex` of common/rbtree.c, as a whole: it puts an entry into a map.
use mathlib.Core.Path.{subst}
use mathlib.Core.List.{append-nil, append_assoc}
use neftis.Base.{
  ℕ, Bool, true, false, ◌&&◌, not, ◌<◌, ◌≤◌, ◌≡◌, ◌≢◌, ◌∙◌, refl, sym, ap, List, ◌∷◌, ◌++◌, arith,
  ◌==◌, if◌then◌else◌, write, Bool-cases, inl, inr, ==→eq, ne→==, count, IsOnce, count-append,
  count_cons, one, one_self,
}
use neftis.Base.Run.{Returns, Returns-bind, Cmd, ◌>>=◌, ◌>>◌, pure}
use neftis.Links.Chain.{Chain}
use neftis.Rbtree.{Ptr, null, rb_red, Store}
use neftis.Rbtree.Shape.{Shape, leaf, node, WayUp, top, inorder, before, after, IsTree-frame}
use neftis.Rbtree.Rotation.{Kept}
use neftis.Rbtree.Balance.{rbtree_insert_case_1}
use neftis.Rbtree.Fix.{fix}
use neftis.Rbtree.Inorder.{fix-inorder}
use neftis.Rbtree.RedBlack.{fix-IsRedBlack}
use neftis.Rbtree.Rebalance.{case_1-fix}
use neftis.Rbtree.Outer.{Balanced}
use neftis.Rbtree.Listing.{Listed}
use neftis.Rbtree.Attach.{IsNew}
use neftis.Rbtree.Sorted.{
  IsAscending, IsAscending-split, insert-IsAscending, Descends, descend-Descends,
}
use neftis.Rbtree.Entries.{
  put, has_key, entries, entries-insert, entries-overwrite, has_key-insert, has_key-there,
}
use neftis.Rbtree.Way.{TakesRed, root-TakesRed}
use neftis.Rbtree.Descend.{Place, found, hole, descend, height, Added, Inserts, overwritten}
use neftis.Rbtree.Placing.{insert_node-Inserts}
use neftis.Rbtree.Invariant.{
  IsWell, entries_of, Holds, Untouched-IsWell, Untouched-entries, prepared, prepared-Untouched,
  prepared-IsNew, prepared-data, entries-frame,
}
use neftis.Rbtree.Operations.{InsertCode, added, replaced, place, rbtree_insert_ex}

-- The list view is in what the balancing leaves alone.
Kept-Listed : (s g : Store) (xs : List Ptr) → Kept s g → Listed s xs → Listed g xs
Kept-Listed s g xs k l = record {
  list = record {
    starts = k.firsts ∙ l.list.starts;
    links =
        subst (λ nx. Chain (record { next = nx; prev = g.prev; index = λ p. 0 }) null xs null)
          (sym k.nexts)
          (subst (λ pv. Chain (record { next = s.next; prev = pv; index = λ p. 0 }) null xs null)
            (sym k.prevs) l.list.links);
    distinct = l.list.distinct;
  };
  lasts = k.lasts ∙ l.lasts;
}

-- `place` below the root, or at it.
place-Inserts :
    (s : Store) (n : Ptr) (t : Shape) (fuel : ℕ)
    → IsNew s n (s.key n)
    → IsWell s t
    → count n (inorder t) ≡ 0
    → height t ≤ fuel
    → Returns (Inserts s n (descend s.key (s.key n) top t)) (place fuel n s)
unfolding place
place-Inserts s n leaf fuel new is fresh enough = rw (is.tree) (
  refl,
  record {
    parent_of = null;
    in_place = record {
      around = (refl, refl);
      tree = (refl, new.not_null, new.parents, new.colors, new.lefts, new.rights);
    };
    listed = record {
      list = record {
        starts = refl;
        links = (new.not_null, new.prevs, new.nexts, tt);
        distinct = (refl, tt);
      };
      lasts = refl;
    };
    keys = refl;
    contents = refl;
    caches = refl;
  },
)
place-Inserts s n (node c l p r) fuel new is fresh enough =
    let t : Shape = node c l p r in
    let e = sym (append-nil (inorder t)) in
    rw (ne→== s.root null (λ z. is.tree.1 (sym is.tree.0 ∙ z))) (
      insert_node-Inserts s n new fuel top c l p r s.root null
        (record { around = (refl, refl); tree = is.tree }) (subst IsOnce e is.once)
        (subst (λ xs. count n xs ≡ 0) e fresh) (subst (Listed s) e is.listed) enough)

-- What the insertion of `v` under `k` promises, where the map was `m`.
abbrev pub Puts : ℕ → ℕ → List (ℕ × ℕ) → InsertCode → Store → Type 0
Puts k v m code s' =
    (code ≡ (if has_key k m then replaced else added))
    × Holds s' (put k v m)
    × (s'.cached_node ≡ null)

-- The number in front of which a list is split occurs once more.
insert-IsOnce :
    (n : ℕ) (xs ys zs : List ℕ) → xs ++ ys ≡ zs → IsOnce zs → count n zs ≡ 0 → IsOnce (xs ++ n ∷ ys)
insert-IsOnce n xs ys zs e once fresh y = elim (Bool-cases (y == n)) [
  | inl same ↦
      subst (λ z. count z (xs ++ n ∷ ys) ≤ 1) (sym (==→eq y n same))
        (omega (
          arith,
          fresh,
          ap (count n) e,
          count-append n xs ys,
          count-append n xs (n ∷ ys),
          count_cons n n ys,
          one_self n,
        ))
  | inr other ↦
      let none_here : one y n ≡ 0 = rw other refl in
      omega (
        arith,
        once y,
        ap (count y) e,
        count-append y xs ys,
        count-append y xs (n ∷ ys),
        count_cons y n ys,
        none_here,
      )
]

overwritten-data :
    (s : Store) (p n x : Ptr) → (overwritten p n s).data_of x ≡ write s.data_of p (s.data_of n) x
overwritten-data s p n x = elim (Bool-cases (not (s.data_of p == null) && s.node_dtor)) [
  | inl calls ↦
      rw calls (elim (Bool-cases (x == p)) [ inl same ↦ rw same refl | inr other ↦ rw other refl ])
  | inr silent ↦ rw silent refl
]

overwritten-IsWell : (s : Store) (p n : Ptr) (t : Shape) → IsWell s t → IsWell (overwritten p n s) t
overwritten-IsWell s p n t is = record {
  tree =
      IsTree-frame s (overwritten p n s) null t s.root
        (λ x i. record { lefts = refl; rights = refl; parents = refl; colors = refl }) is.tree;
  listed = record {
    list = record {
      starts = is.listed.list.starts;
      links = is.listed.list.links;
      distinct = is.listed.list.distinct;
    };
    lasts = is.listed.lasts;
  };
  once = is.once;
  ascending = is.ascending;
  balanced = is.balanced;
}

-- The new node in its place: the tree is balanced.
module _ (s : Store) (n : Ptr) (t : Shape) (fuel : ℕ) (is : IsWell s t)
    (fresh : count n (inorder t) ≡ 0) (cache : s.cached_node ≡ null)
    (enough : height t < fuel) where
  abbrev finish : Bool → Cmd Store InsertCode
  finish there = if there then pure replaced else (rbtree_insert_case_1 fuel n >> pure added)

  Added-Puts :
      (up : WayUp)
      → Descends s.key (s.key n) top t (hole up)
      → TakesRed (hole up)
      → (s' : Store) → Added s n up s'
      → Returns (Puts (s.key n) (s.data_of n) (entries_of s t)) (finish false s')
  Added-Puts up (same, lower, upper, deep) (fits, black) s' a =
      let x : Shape = node rb_red leaf n leaf in
      let t' : Shape = fix up x in
      let m = entries_of s t in
      let split : before up ++ after up ≡ inorder t = same ∙ append-nil (inorder t) in
      let joined : inorder t' ≡ before up ++ n ∷ after up =
        fix-inorder up x ∙ simp (append_assoc) in
      let once' : IsOnce (before up ++ n ∷ after up) =
        insert-IsOnce n (before up) (after up) (inorder t) split is.once fresh in
      Returns-bind {P = Balanced s' t'} (Puts (s.key n) (s.data_of n) m)
        (rbtree_insert_case_1 fuel n s') (λ _. pure added)
        (case_1-fix fuel up s' leaf n leaf a.parent_of a.in_place
          (subst IsOnce (sym (simp (append_assoc))) once') black (omega (arith, deep, enough)))
        (λ _ s'' (tree, kept). (
          sym (
              ap (λ b. if b then replaced else added)
                (subst (λ xs. has_key (s.key n) (entries s.key s.data_of xs) ≡ false) split
                  (has_key-insert s.key s.data_of (before up) (s.key n) (after up) lower upper))),
          (
            t',
            record {
              tree = tree;
              listed =
                  Kept-Listed s' s'' (inorder t') kept
                    (subst (Listed s') (sym (fix-inorder up x)) a.listed);
              once = subst IsOnce (sym joined) once';
              ascending =
                  subst (λ key. IsAscending key (inorder t')) (sym (kept.keys ∙ a.keys))
                    (subst (IsAscending s.key) (sym joined) (
                      insert-IsAscending s.key (before up) n (after up) lower upper
                        (subst (IsAscending s.key) (sym split) is.ascending)));
              balanced = fix-IsRedBlack up leaf n leaf 0 fits (refl, refl, refl, refl) black;
            },
            ap (λ key. entries key s''.data_of (inorder t')) (kept.keys ∙ a.keys)
                ∙ ap (λ d. entries s.key d (inorder t')) (kept.contents ∙ a.contents)
                ∙ ap (entries s.key s.data_of) joined
                ∙ entries-insert s.key s.data_of (before up) n (after up) lower upper
                ∙ ap (λ xs. put (s.key n) (s.data_of n) (entries s.key s.data_of xs)) split,
          ),
          kept.caches ∙ a.caches ∙ cache,
        ))

  found-Puts :
      (p : Ptr)
      → Descends s.key (s.key n) top t (found p)
      → Returns (Puts (s.key n) (s.data_of n) (entries_of s t)) (finish true (overwritten p n s))
  found-Puts p (xs, ys, where_is, same) =
      let s' : Store = overwritten p n s in
      let v : ℕ = s.data_of n in
      let split : inorder t ≡ xs ++ p ∷ ys = sym (append-nil (inorder t)) ∙ where_is in
      let around = IsAscending-split s.key xs p ys (subst (IsAscending s.key) split is.ascending) in
      (
        sym (
            ap (λ b. if b then replaced else added)
              (subst (λ zs. has_key (s.key n) (entries s.key s.data_of zs) ≡ true) (sym split)
                (subst (λ k. has_key k (entries s.key s.data_of (xs ++ p ∷ ys)) ≡ true) same
                  (has_key-there s.key s.data_of xs p ys around.0)))),
        (
          t,
          overwritten-IsWell s p n t is,
          entries-frame (record s { data_of = write s.data_of p v }) s' (inorder t)
                (λ x i. (refl, overwritten-data s p n x))
              ∙ ap (entries s.key (write s.data_of p v)) split
              ∙ entries-overwrite s.key s.data_of v xs p ys around.0
                  (subst (λ zs. count p zs ≤ 1) split (is.once p))
              ∙ ap (λ k. put k v (entries s.key s.data_of (xs ++ p ∷ ys))) same
              ∙ ap (λ zs. put (s.key n) v (entries s.key s.data_of zs)) (sym split),
        ),
        cache,
      )

  -- Either way.
  finish-Puts :
      (w : Place) (there : Bool) (s' : Store)
      → Descends s.key (s.key n) top t w
      → TakesRed w
      → Inserts s n w there s'
      → Returns (Puts (s.key n) (s.data_of n) (entries_of s t)) (finish there s')
  finish-Puts (found p) there s' d takes (e, e') =
      subst (λ b. Returns (Puts (s.key n) (s.data_of n) (entries_of s t)) (finish b s')) (sym e)
        (subst (λ h. Returns (Puts (s.key n) (s.data_of n) (entries_of s t)) (finish true h))
          (sym e') (found-Puts p d))
  finish-Puts (hole up) there s' d takes (e, a) =
      subst (λ b. Returns (Puts (s.key n) (s.data_of n) (entries_of s t)) (finish b s')) (sym e)
        (Added-Puts up d takes s' a)

  place-Puts :
      IsNew s n (s.key n)
      → Returns (Puts (s.key n) (s.data_of n) (entries_of s t)) ((place fuel n >>= finish) s)
  place-Puts new =
      let (black, h, blacks) = is.balanced in
      let e = sym (append-nil (inorder t)) in
      Returns-bind {P = Inserts s n (descend s.key (s.key n) top t)}
        (Puts (s.key n) (s.data_of n) (entries_of s t)) (place fuel n s) finish
        (place-Inserts s n t fuel new is fresh (omega (arith, enough)))
        (λ there s' inserts.
          finish-Puts (descend s.key (s.key n) top t) there s'
            (descend-Descends s.key (s.key n) top t (subst (IsAscending s.key) e is.ascending) tt
              tt)
            (root-TakesRed s.key (s.key n) t h black blacks) inserts)

-- `rbtree_insert_ex` with a node that `kalloc` gave, which is not in the tree, and more fuel than the
-- tree is high: from a well-formed tree it returns with a well-formed one, whose entries are those of
-- before with the key's data put in; the code tells whether the key was there, and the cache is empty.
pub rbtree_insert_ex-Puts :
    (s : Store) (t : Shape) (n k v fuel : ℕ)
    → IsWell s t
    → n ≢ null
    → count n (inorder t) ≡ 0
    → height t < fuel
    → Returns (Puts k v (entries_of s t)) (rbtree_insert_ex fuel n k v s)
unfolding rbtree_insert_ex
rbtree_insert_ex-Puts s t n k v fuel is nn fresh enough =
    let s1 : Store = prepared s n k v in
    let u = prepared-Untouched s n k v t fresh in
    let new = prepared-IsNew s n k v nn in
    let run =
      place-Puts s1 n t fuel (Untouched-IsWell s s1 t u is) fresh refl enough
        (subst (IsNew s1 n) (sym new.keys) new) in
    rw (ne→== n null nn) (
      subst
        (λ m. Returns (Puts k v m) (
          (place fuel n >>= finish s1 n t fuel (Untouched-IsWell s s1 t u is) fresh refl enough)
            s1))
        (Untouched-entries s s1 t u)
        (subst
          (λ j. Returns (Puts j v (entries_of s1 t)) (
            (place fuel n >>= finish s1 n t fuel (Untouched-IsWell s s1 t u is) fresh refl enough)
              s1))
          new.keys
          (subst
            (λ w. Returns (Puts (s1.key n) w (entries_of s1 t)) (
              (place fuel n >>= finish s1 n t fuel (Untouched-IsWell s s1 t u is) fresh refl enough)
                s1))
            (prepared-data s n k v) run)))
