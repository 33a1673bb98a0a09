-- ===== src/Links/Sorted/Insert.antt =====
-- `sorted_list_insert` keeps a sorted list sorted.
use mathlib.Core.Path.{subst}
use mathlib.Core.List.{append-nil}
use neftis.Base.{
  ℕ, ◌<◌, false, ◌≡◌, ◌∙◌, refl, sym, ap, ◌≢◌, List, [], ◌∷◌, ◌++◌, inl, inr, ◌⊎◌, Bool-cases, leb,
  ◌==◌, has, arith, ne→==, length,
}
use neftis.Links.{Ptr, null, Memory, ok, update, set_index, Returns, Returns-mono}
use neftis.Links.Chain.{IsList, Chain-frame, Chain-back}
use neftis.Links.Linear.Insert.{
  list_get_tail-last, list_insert_head-IsList, list_insert_before-IsList, insert_after-front,
}
use neftis.Links.Sorted.Order.{IsAscending, first_ge, insert_at, insert_at-IsAscending}
use neftis.Links.Sorted.Search.{sorted_list_get_next-first_ge}
use neftis.Links.Sorted.{sorted_list_insert, sorted_list_get_next}

-- The place of insertion: behind the smaller nodes, before the first of the others.
insert_place :
    (f : Ptr → ℕ) (i e : ℕ) (xs : List Ptr)
    → ((first_ge f i xs ≡ null) × (insert_at f i e xs ≡ xs ++ e ∷ []))
      ⊎ ((a : List Ptr) × (p : Ptr) × (c : List Ptr) × (xs ≡ a ++ p ∷ c)
          × (first_ge f i xs ≡ p)
          × (insert_at f i e xs ≡ a ++ e ∷ p ∷ c))
insert_place f i e [] = inl (refl, refl)
insert_place f i e (x ∷ xs) = elim (Bool-cases (leb i (f x))) [
  | inl here ↦ inr ([], x, xs, refl, rw here, rw here)
  | inr later ↦ elim (insert_place f i e xs) [
    | inl (q, r) ↦ inl (rw later q, rw later (ap (◌∷◌ x) r))
    | inr (a, p, c, w, q, r) ↦ inr (x ∷ a, p, c, ap (◌∷◌ x) w, rw later q, rw later (ap (◌∷◌ x) r))
  ]
]

first_ge-update :
    (f : Ptr → ℕ) (i e : ℕ) (xs : List Ptr)
    → has e xs ≡ false
    → first_ge (update f e i) i xs ≡ first_ge f i xs
first_ge-update f i e [] h = refl
first_ge-update f i e (x ∷ xs) h = ground (arith, first_ge-update f i e xs)

-- The index of the new node is written first.
abbrev indexed : Memory → Ptr → ℕ → Memory
indexed m e i = record m { index = update m.index e i }

module _ (m : Memory) (fuel i e : ℕ) (ne : e ≢ null) where
  indexed-IsList : (list : Ptr) (xs : List Ptr) → IsList m list xs → IsList (indexed m e i) list xs
  indexed-IsList list xs is = record {
    starts = is.starts;
    links = Chain-frame m (indexed m e i) null xs null (λ q h. refl) (λ q h. refl) is.links;
    distinct = is.distinct;
  }

  -- What `sorted_list_insert` leaves behind.
  abbrev Inserted : List Ptr → Ptr → Memory → Type 0
  Inserted ys list g = IsList g list ys × (g.index ≡ update m.index e i)

  insert-empty :
      (list : Ptr)
      → IsList m list []
      → Returns (Inserted (e ∷ [])) (sorted_list_insert fuel list e i m)
  unfolding sorted_list_insert set_index
  insert-empty list is =
      rw (ne→== e null ne, is.starts)
        (list_insert_head-IsList (indexed m e i) null e []
          (rw is.starts at (indexed-IsList list [] is)) ne refl)

  module _ (list x : Ptr) (r : List Ptr) (is : IsList m list (x ∷ r))
      (enough : length (x ∷ r) < fuel) (out : has e (x ∷ r) ≡ false) where
    -- The search for the place, made after the index is written.
    alike :
        sorted_list_get_next fuel list i (indexed m e i)
        ≡ ok (first_ge m.index i (x ∷ r)) (indexed m e i)
    alike =
        sorted_list_get_next-first_ge (indexed m e i) i fuel list (x ∷ r)
          (indexed-IsList list (x ∷ r) is) enough
        ∙ ap (λ p. ok p (indexed m e i)) (first_ge-update m.index i e (x ∷ r) out)

    not_empty : (list == null) ≡ false
    not_empty = ne→== list null (λ z. is.links.0 (sym is.starts ∙ z))

    insert-last :
        first_ge m.index i (x ∷ r) ≡ null
        → Returns (Inserted (x ∷ r ++ e ∷ [])) (sorted_list_insert fuel list e i m)
    unfolding sorted_list_insert set_index
    insert-last h =
        let is' = indexed-IsList list (x ∷ r) is in
        rw
          (
            ne→== e null ne,
            not_empty,
            alike,
            h,
            list_get_tail-last (indexed m e i) list fuel (x ∷ r) is' (omega arith),
          )
          (insert_after-front (indexed m e i) list e ne x r [] (rw append-nil is')
            (rw append-nil out))

    insert-before :
        (a : List Ptr) (p : Ptr) (c : List Ptr)
        → x ∷ r ≡ a ++ p ∷ c
        → first_ge m.index i (x ∷ r) ≡ p
        → Returns (Inserted (a ++ e ∷ p ∷ c)) (sorted_list_insert fuel list e i m)
    unfolding sorted_list_insert set_index
    insert-before a p c whole h =
        let is' : IsList (indexed m e i) list (a ++ p ∷ c) =
          rw whole at (indexed-IsList list (x ∷ r) is) in
        let not_p : p ≢ null = (Chain-back (indexed m e i) null a (p ∷ c) null is'.links).0 in
        rw (ne→== e null ne, not_empty, alike, h, ne→== p null not_p)
          (list_insert_before-IsList (indexed m e i) list e ne p a c is'
            (sym (ap (has e) whole) ∙ out))

  insert-Inserted :
      (list : Ptr) (xs : List Ptr)
      → IsList m list xs
      → length xs < fuel
      → has e xs ≡ false
      → Returns (Inserted (insert_at m.index i e xs)) (sorted_list_insert fuel list e i m)
  insert-Inserted list [] is h out = insert-empty list is
  insert-Inserted list (x ∷ r) is h out = elim (insert_place m.index i e (x ∷ r)) [
    | inl (q, place) ↦
        subst (λ ys. Returns (Inserted ys) (sorted_list_insert fuel list e i m)) (sym place)
          (insert-last list x r is h out q)
    | inr (a, p, c, whole, q, place) ↦
        subst (λ ys. Returns (Inserted ys) (sorted_list_insert fuel list e i m)) (sym place)
          (insert-before list x r is h out a p c whole q)
  ]

  -- `sorted_list_insert`, with more fuel than there are nodes, links a new node in with the index
  -- given, in front of the first node whose
  -- index is as large, and an ascending list stays ascending.
  pub sorted_list_insert-IsAscending :
      (list : Ptr) (xs : List Ptr)
      → IsList m list xs
      → IsAscending m.index xs
      → length xs < fuel
      → has e xs ≡ false
      → Returns
          (λ list' g.
            IsList g list' (insert_at m.index i e xs)
            × (g.index ≡ update m.index e i)
            × IsAscending g.index (insert_at m.index i e xs))
          (sorted_list_insert fuel list e i m)
  sorted_list_insert-IsAscending list xs is a h out =
      Returns-mono (sorted_list_insert fuel list e i m) (insert-Inserted list xs is h out)
        (λ list' g (l, x). (l, x, rw x (insert_at-IsAscending m.index i e xs out a)))
