-- ===== src/Rbtree/Listing.antt =====
-- The list view of a red-black tree: a new node is linked in beside its parent.
use mathlib.Core.Path.{subst}
use mathlib.Core.List.{append-nil, append_assoc}
use neftis.Base.{
  ◌≡◌, ◌≢◌, ◌∙◌, refl, sym, false, inl, inr, List, [], ◌∷◌, ◌++◌, ◌==◌, if◌then◌else◌, Bool-cases,
  ne→==, ==-refl, write, has, insert-IsDistinct,
}
use neftis.Base.Run.{ok}
use neftis.Links.{Memory}
use neftis.Links.Chain.{
  last_or, IsList, Chain-front, Chain-back, next-last, last-ne-null, last-append,
}
use neftis.Links.Splice.{Chain-between, Chain-behind, Chain-ahead}
use neftis.Rbtree.{Ptr, null, Store, attach_left, attach_right, link_prev, link_next}

abbrev pub links : Store → Memory
links s = record { next = s.next; prev = s.prev; index = λ p. 0 }

-- The nodes from `first` on are `xs`, linked both ways, up to `last`.
pub record Listed (s : Store) (xs : List Ptr) : Type 0 where
  pub list : IsList (links s) s.first xs
  pub lasts : s.last ≡ last_or null xs

-- The store after `attach_left` and after `attach_right`.
abbrev pub attached_left : Ptr → Ptr → Store → Store
attached_left p n s = record s {
  left = write s.left p n;
  parent = write s.parent n p;
  prev = write (write s.prev n (s.prev p)) p n;
  next = if s.prev p == null then write s.next n p else write (write s.next n p) (s.prev p) n;
  first = if s.prev p == null then n else s.first;
}

abbrev pub attached_right : Ptr → Ptr → Store → Store
attached_right p n s = record s {
  right = write s.right p n;
  parent = write s.parent n p;
  next = write (write s.next n (s.next p)) p n;
  prev = if s.next p == null then write s.prev n p else write (write s.prev n p) (s.next p) n;
  last = if s.next p == null then n else s.last;
}

module _ (s : Store) (p n : Ptr) (np : p ≢ null) (nn : n ≢ null) where
  pub attach_left-run : attach_left p n s ≡ ok tt (attached_left p n s)
  unfolding attach_left link_prev
  attach_left-run = elim (Bool-cases (s.prev p == null)) [
    | inl none_before ↦ rw (ne→== p null np, ne→== n null nn, ==-refl n, none_before) refl
    | inr some_before ↦ rw (ne→== p null np, ne→== n null nn, ==-refl n, some_before) refl
  ]

  pub attach_right-run : attach_right p n s ≡ ok tt (attached_right p n s)
  unfolding attach_right link_next
  attach_right-run = elim (Bool-cases (s.next p == null)) [
    | inl none_behind ↦ rw (ne→== p null np, ne→== n null nn, ==-refl n, none_behind) refl
    | inr some_behind ↦ rw (ne→== p null np, ne→== n null nn, ==-refl n, some_behind) refl
  ]

module _ (s : Store) (n : Ptr) (nn : n ≢ null) where
  -- In front of `p`.
  pub attached_left-Listed :
      (a : List Ptr) (p : Ptr) (c : List Ptr)
      → Listed s (a ++ p ∷ c)
      → has n (a ++ p ∷ c) ≡ false
      → Listed (attached_left p n s) (a ++ n ∷ p ∷ c)
  attached_left-Listed [] p c is out =
      let l = is.list in
      rw (l.links.1) (record {
        list = record {
          starts = refl;
          links = Chain-ahead (links s) null p c n null nn out l.distinct l.links;
          distinct = (out, l.distinct);
        };
        lasts = is.lasts;
      })
  attached_left-Listed (x ∷ a) p c is out =
      let l = is.list in
      let front = Chain-front (links s) null (x ∷ a) (p ∷ c) null l.links in
      let back = Chain-back (links s) null (x ∷ a) (p ∷ c) null l.links in
      rw (back.1, ne→== _ null (last-ne-null (links s) null x a p front))
        (record {
          list = record {
            starts = l.starts;
            links = Chain-between (links s) null x a n p c null nn out l.distinct l.links;
            distinct = insert-IsDistinct n (x ∷ a) (p ∷ c) out l.distinct;
          };
          lasts = is.lasts ∙ last-append x p a c ∙ sym (last-append x n a (p ∷ c));
        })

  -- Behind the last node of `x ∷ a`.
  attached_right-front :
      (x : Ptr) (a c : List Ptr)
      → Listed s (x ∷ a ++ c)
      → has n (x ∷ a ++ c) ≡ false
      → Listed (attached_right (last_or x a) n s) (x ∷ a ++ n ∷ c)
  attached_right-front x a [] is out =
      let l = is.list in
      let d = rw append-nil at l.distinct in
      let ch = rw append-nil at l.links in
      let out' = rw append-nil at out in
      rw (next-last (links s) null x a null ch) (record {
        list = record {
          starts = l.starts;
          links = Chain-behind (links s) null x a n null nn out' d ch;
          distinct = insert-IsDistinct n (x ∷ a) [] out l.distinct;
        };
        lasts = sym (last-append x n a []);
      })
  attached_right-front x a (y ∷ c) is out =
      let l = is.list in
      let front = Chain-front (links s) null (x ∷ a) (y ∷ c) null l.links in
      let back = Chain-back (links s) null (x ∷ a) (y ∷ c) null l.links in
      rw (next-last (links s) null x a y front, ne→== y null back.0)
        (record {
          list = record {
            starts = l.starts;
            links = Chain-between (links s) null x a n y c null nn out l.distinct l.links;
            distinct = insert-IsDistinct n (x ∷ a) (y ∷ c) out l.distinct;
          };
          lasts = is.lasts ∙ last-append x y a c ∙ sym (last-append x n a (y ∷ c));
        })

  -- Behind `p`.
  pub attached_right-Listed :
      (a : List Ptr) (p : Ptr) (c : List Ptr)
      → Listed s (a ++ p ∷ c)
      → has n (a ++ p ∷ c) ≡ false
      → Listed (attached_right p n s) (a ++ p ∷ n ∷ c)
  attached_right-Listed [] p c is out = attached_right-front p [] c is out
  attached_right-Listed (z ∷ a) p c is out =
      subst (λ q. Listed (attached_right q n s) (z ∷ a ++ p ∷ n ∷ c)) (last-append z p a [])
        (rw (← append_assoc (z ∷ a) (p ∷ []) (n ∷ c))
          (attached_right-front z (a ++ p ∷ []) c (rw append_assoc is) (rw append_assoc out)))
