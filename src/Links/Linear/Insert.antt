-- ===== src/Links/Linear/Insert.antt =====
-- Insertion into a linear list, and the walk to its end.
use mathlib.Core.List.{append-nil, append_assoc}
use mathlib.Core.Path.{subst}
use neftis.Base.{
  ℕ, zero, suc, ◌<◌, ◌≤◌, length, false, ◌≡◌, ◌∙◌, refl, sym, ◌≢◌, List, [], ◌∷◌, ◌++◌, ◌==◌, has,
  insert-IsDistinct, arith, ne→==, ne_of_has, has_head, not-has-append,
}
use neftis.Links.{Ptr, null, Memory, Returns, update_self, ok}
use neftis.Links.Chain.{
  last_or, Chain, IsList, Chain-front, Chain-back, next-last, last-ne-null, last-append, has-last,
}
use neftis.Links.Splice.{between, Chain-between, behind, Chain-behind, ahead, Chain-ahead}
use neftis.Links.Linear.{
  get_tail_loop, list_get_tail, list_insert_head, list_insert_after, list_insert_before,
  list_insert_tail,
}

get_tail_loop-last :
    (m : Memory) (fuel : ℕ) (b x : Ptr) (xs : List Ptr)
    → length xs < fuel
    → Chain m b (x ∷ xs) null
    → get_tail_loop fuel x m ≡ ok (last_or x xs) m
unfolding get_tail_loop
get_tail_loop-last m zero b x xs h ch = elim h [ ]
get_tail_loop-last m (suc fuel) b x [] h ch = rw (ne→== x null ch.0, ch.2)
get_tail_loop-last m (suc fuel) b x (y ∷ xs) h ch =
    rw (ne→== x null ch.0, ch.2, ne→== y null ch.3.0)
      (get_tail_loop-last m fuel x y xs (omega arith) ch.3)

module _ (m : Memory) (list : Ptr) where
  -- `list_get_tail` finds the last node, or NULL in the empty list; it writes nothing.
  pub list_get_tail-last :
      (fuel : ℕ) (xs : List Ptr)
      → IsList m list xs
      → length xs ≤ fuel
      → list_get_tail fuel list m ≡ ok (last_or null xs) m
  unfolding list_get_tail
  list_get_tail-last fuel [] is h = rw is.starts
  list_get_tail-last fuel (x ∷ xs) is h =
      rw (is.starts, ne→== x null is.links.0)
        (get_tail_loop-last m fuel null x xs (omega arith) is.links)

  -- `list_insert_head` puts a new node in front.
  pub list_insert_head-IsList :
      (e : Ptr) (xs : List Ptr)
      → IsList m list xs
      → e ≢ null
      → has e xs ≡ false
      → Returns
          (λ list' g. IsList g list' (e ∷ xs) × (g.index ≡ m.index))
          (list_insert_head list e m)
  unfolding list_insert_head
  list_insert_head-IsList e [] is ne out =
      rw (is.starts, ne→== e null ne)
        (
          record {
            starts = refl;
            links = (ne, update_self m.prev e null, update_self m.next e null, tt);
            distinct = (refl, tt);
          },
          refl,
        )
  list_insert_head-IsList e (x ∷ xs) is ne out =
      rw (is.starts, ne→== e null ne, ne→== x null is.links.0)
        (
          record {
            starts = refl;
            links = Chain-ahead m null x xs e null ne out is.distinct is.links;
            distinct = (out, is.distinct);
          },
          refl,
        )

  -- The runs of `list_insert_after` and `list_insert_before`, from the links of the node named.
  module _ (p e : Ptr) (not_list : list ≢ null) (not_p : p ≢ null) (not_e : e ≢ null)
      (other : (p == e) ≡ false) where
    insert_after-behind :
        m.next p ≡ null → list_insert_after list p e m ≡ ok list (behind m p e null)
    unfolding list_insert_after
    insert_after-behind h =
        rw (ne→== list null not_list, ne→== p null not_p, ne→== e null not_e, h, other)

    insert_after-between :
        (y : Ptr)
        → m.next p ≡ y
        → y ≢ null
        → list_insert_after list p e m ≡ ok list (between m p e y)
    unfolding list_insert_after
    insert_after-between y h not_y = rw (
      ne→== list null not_list,
      ne→== p null not_p,
      ne→== e null not_e,
      h,
      other,
      ne→== y null not_y,
    )

    insert_before-ahead : m.prev p ≡ null → list_insert_before list p e m ≡ ok e (ahead m null e p)
    unfolding list_insert_before
    insert_before-ahead h =
        rw (ne→== list null not_list, ne→== p null not_p, ne→== e null not_e, h, other)

    insert_before-between :
        (x : Ptr)
        → m.prev p ≡ x
        → x ≢ null
        → list_insert_before list p e m ≡ ok list (between m x e p)
    unfolding list_insert_before
    insert_before-between x h not_x = rw (
      ne→== list null not_list,
      ne→== p null not_p,
      ne→== e null not_e,
      h,
      other,
      ne→== x null not_x,
    )

  module _ (e : Ptr) (ne : e ≢ null) where
    -- Behind the last node of `x ∷ a`.
    pub insert_after-front :
        (x : Ptr) (a c : List Ptr)
        → IsList m list (x ∷ a ++ c)
        → has e (x ∷ a ++ c) ≡ false
        → Returns
            (λ list' g. IsList g list' (x ∷ a ++ e ∷ c) × (g.index ≡ m.index))
            (list_insert_after list (last_or x a) e m)
    insert_after-front x a [] is out =
        let d = rw append-nil at is.distinct in
        let ch = rw append-nil at is.links in
        let out' = rw append-nil at out in
        let p = last_or x a in
        rw
          (insert_after-behind p e (λ z. is.links.0 (sym is.starts ∙ z))
            (last-ne-null m null x a null ch) ne (ne_of_has p e (x ∷ a) (has-last x a) out')
            (next-last m null x a null ch))
          (
            record {
              starts = is.starts;
              links = Chain-behind m null x a e null ne out' d ch;
              distinct = insert-IsDistinct e (x ∷ a) [] out is.distinct;
            },
            refl,
          )
    insert_after-front x a (y ∷ c) is out =
        let p = last_or x a in
        let front = Chain-front m null (x ∷ a) (y ∷ c) null is.links in
        let back = Chain-back m null (x ∷ a) (y ∷ c) null is.links in
        rw
          (insert_after-between p e (λ z. is.links.0 (sym is.starts ∙ z))
            (last-ne-null m null x a y front) ne
            (ne_of_has p e (x ∷ a) (has-last x a) (not-has-append e (x ∷ a) (y ∷ c) out).0) y
            (next-last m null x a y front) back.0)
          (
            record {
              starts = is.starts;
              links = Chain-between m null x a e y c null ne out is.distinct is.links;
              distinct = insert-IsDistinct e (x ∷ a) (y ∷ c) out is.distinct;
            },
            refl,
          )

    -- `list_insert_after` puts a new node behind the node named, in a list that has it.
    pub list_insert_after-IsList :
        (p : Ptr) (a c : List Ptr)
        → IsList m list (a ++ p ∷ c)
        → has e (a ++ p ∷ c) ≡ false
        → Returns
            (λ list' g. IsList g list' (a ++ p ∷ e ∷ c) × (g.index ≡ m.index))
            (list_insert_after list p e m)
    list_insert_after-IsList p [] c is out = insert_after-front p [] c is out
    list_insert_after-IsList p (z ∷ a) c is out =
        subst
          (λ q.
            Returns (λ list' g. IsList g list' (z ∷ a ++ p ∷ e ∷ c) × (g.index ≡ m.index))
              (list_insert_after list q e m))
          (last-append z p a [])
          (rw (← append_assoc (z ∷ a) (p ∷ []) (e ∷ c))
            (insert_after-front z (a ++ p ∷ []) c (rw append_assoc is) (rw append_assoc out)))

    -- `list_insert_before` puts a new node in front of the node named, in a list that has it; where
    -- that was the head, the
    -- new node is the head.
    pub list_insert_before-IsList :
        (p : Ptr) (a c : List Ptr)
        → IsList m list (a ++ p ∷ c)
        → has e (a ++ p ∷ c) ≡ false
        → Returns
            (λ list' g. IsList g list' (a ++ e ∷ p ∷ c) × (g.index ≡ m.index))
            (list_insert_before list p e m)
    list_insert_before-IsList p [] c is out =
        rw
          (insert_before-ahead p e (λ z. is.links.0 (sym is.starts ∙ z)) is.links.0 ne
            (ne_of_has p e (p ∷ c) (has_head p c) out) is.links.1)
          (
            record {
              starts = refl;
              links = Chain-ahead m null p c e null ne out is.distinct is.links;
              distinct = (out, is.distinct);
            },
            refl,
          )
    list_insert_before-IsList p (x ∷ a) c is out =
        let q = last_or x a in
        let front = Chain-front m null (x ∷ a) (p ∷ c) null is.links in
        let back = Chain-back m null (x ∷ a) (p ∷ c) null is.links in
        rw
          (insert_before-between p e (λ z. is.links.0 (sym is.starts ∙ z)) back.0 ne
            (ne_of_has p e (p ∷ c) (has_head p c) (not-has-append e (x ∷ a) (p ∷ c) out).1) q back.1
            (last-ne-null m null x a p front))
          (
            record {
              starts = is.starts;
              links = Chain-between m null x a e p c null ne out is.distinct is.links;
              distinct = insert-IsDistinct e (x ∷ a) (p ∷ c) out is.distinct;
            },
            refl,
          )

  -- `list_insert_tail` puts a new node at the end of a list, with as much fuel as it has nodes.
  pub list_insert_tail-IsList :
      (fuel : ℕ) (e : Ptr) (xs : List Ptr)
      → IsList m list xs
      → e ≢ null
      → has e xs ≡ false
      → length xs ≤ fuel
      → Returns
          (λ list' g. IsList g list' (xs ++ e ∷ []) × (g.index ≡ m.index))
          (list_insert_tail fuel list e m)
  unfolding list_insert_tail
  list_insert_tail-IsList fuel e [] is ne out h =
      rw (list_get_tail-last fuel [] is h) (list_insert_head-IsList e [] is ne out)
  list_insert_tail-IsList fuel e (x ∷ a) is ne out h =
      rw
        (list_get_tail-last fuel (x ∷ a) is h, ne→== _ null (last-ne-null m null x a null is.links))
        (insert_after-front e ne x a [] (rw append-nil is) (rw append-nil out))
