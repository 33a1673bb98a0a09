-- ===== src/Links/Sorted/Search.antt =====
-- The searches in a sorted list find what a look at every node finds.
use neftis.Base.{
  ℕ, zero, suc, ◌<◌, true, false, ◌≡◌, refl, List, [], ◌∷◌, inl, inr, Bool-cases, ltb, leb, ◌==◌,
  arith, ne→==, ltb→lt, length,
}
use neftis.Links.{Ptr, null, Memory, ok}
use neftis.Links.Chain.{Chain, IsList, head_or}
use neftis.Links.Sorted.Order.{AtLeast, IsAscending, first_eq, first_ge, last_le}
use neftis.Links.Sorted.{sorted_list_search, sorted_list_get_next, sorted_list_get_previous}

first_eq_above :
    (f : Ptr → ℕ) (i j : ℕ) (xs : List Ptr) → i < j → AtLeast f j xs → first_eq f i xs ≡ null
first_eq_above f i j [] h a = refl
first_eq_above f i j (x ∷ xs) h a = ground (arith, first_eq_above f i j xs h a.1)

last_le_above :
    (f : Ptr → ℕ) (i j : ℕ) (d : Ptr) (xs : List Ptr)
    → i < j
    → AtLeast f j xs
    → last_le f i d xs ≡ d
last_le_above f i j d [] h a = refl
last_le_above f i j d (x ∷ xs) h a = ground (arith, last_le_above f i j d xs h a.1)

ltb→not_leb : (i j : ℕ) → ltb i j ≡ true → leb j i ≡ false
ltb→not_leb i j h = ground arith

not_ltb→leb : (i j : ℕ) → ltb i j ≡ false → leb j i ≡ true
not_ltb→leb i j h = ground arith

get_previous-null :
    (m : Memory) (i fuel : ℕ) → 0 < fuel → sorted_list_get_previous fuel null i m ≡ ok null m
unfolding sorted_list_get_previous
get_previous-null m i zero h = elim h [ ]
get_previous-null m i (suc fuel) h = refl

module _ (m : Memory) (i : ℕ) where
  search-Chain :
      (fuel : ℕ) (b : Ptr) (xs : List Ptr)
      → length xs < fuel
      → Chain m b xs null
      → IsAscending m.index xs
      → sorted_list_search fuel (head_or xs null) i m ≡ ok (first_eq m.index i xs) m
  unfolding sorted_list_search
  search-Chain zero b xs h ch a = elim h [ ]
  search-Chain (suc fuel) b [] h ch a = refl
  search-Chain (suc fuel) b (x ∷ xs) h ch a =
      rw (ne→== x null ch.0) (elim (Bool-cases (m.index x == i)) [
        | inl same ↦ rw same
        | inr other ↦ rw other (elim (Bool-cases (ltb i (m.index x))) [
          | inl past ↦ rw (past, first_eq_above m.index i (m.index x) xs (ltb→lt i _ past) a.0)
          | inr before ↦ rw (before, ch.2) (search-Chain fuel x xs (omega arith) ch.3 a.1)
        ])
      ])

  get_next-Chain :
      (fuel : ℕ) (b : Ptr) (xs : List Ptr)
      → length xs < fuel
      → Chain m b xs null
      → sorted_list_get_next fuel (head_or xs null) i m ≡ ok (first_ge m.index i xs) m
  unfolding sorted_list_get_next
  get_next-Chain zero b xs h ch = elim h [ ]
  get_next-Chain (suc fuel) b [] h ch = refl
  get_next-Chain (suc fuel) b (x ∷ xs) h ch =
      rw (ne→== x null ch.0) (elim (Bool-cases (leb i (m.index x))) [
        | inl here ↦ rw here
        | inr before ↦ rw (before, ch.2) (get_next-Chain fuel x xs (omega arith) ch.3)
      ])

  get_previous-Chain :
      (fuel : ℕ) (b x : Ptr) (xs : List Ptr)
      → length xs < fuel
      → Chain m b (x ∷ xs) null
      → IsAscending m.index (x ∷ xs)
      → sorted_list_get_previous fuel x i m ≡ ok (last_le m.index i b (x ∷ xs)) m
  unfolding sorted_list_get_previous
  get_previous-Chain zero b x xs h ch a = elim h [ ]
  get_previous-Chain (suc fuel) b x [] h ch a =
      rw (ne→== x null ch.0) (elim (Bool-cases (ltb i (m.index x))) [
        | inl past ↦ rw (past, ltb→not_leb i (m.index x) past, ch.1)
        | inr upto ↦ rw (upto, not_ltb→leb i (m.index x) upto, ch.2)
      ])
  get_previous-Chain (suc fuel) b x (y ∷ xs) h ch a =
      rw (ne→== x null ch.0) (elim (Bool-cases (ltb i (m.index x))) [
        | inl past ↦ rw (
          past,
          ltb→not_leb i (m.index x) past,
          ch.1,
          last_le_above m.index i (m.index x) b (y ∷ xs) (ltb→lt i _ past) a.0,
        )
        | inr upto ↦
            rw (upto, not_ltb→leb i (m.index x) upto, ch.2, ne→== y null ch.3.0)
              (get_previous-Chain fuel x y xs (omega arith) ch.3 a.1)
      ])

module _ (m : Memory) (i fuel : ℕ) (list : Ptr) (xs : List Ptr) (is : IsList m list xs)
    (enough : length xs < fuel) where
  -- With more fuel than there are nodes, `sorted_list_get_next` finds the first node whose index is at least `i`; it writes nothing.
  pub sorted_list_get_next-first_ge :
      sorted_list_get_next fuel list i m ≡ ok (first_ge m.index i xs) m
  sorted_list_get_next-first_ge = rw is.starts (get_next-Chain m i fuel null xs enough is.links)

  -- On an ascending list, with more fuel than it has nodes, `sorted_list_search` finds the first node of all that has the index `i`,
  -- though it stops at the first larger one; it writes nothing.
  pub sorted_list_search-first_eq :
      IsAscending m.index xs → sorted_list_search fuel list i m ≡ ok (first_eq m.index i xs) m
  sorted_list_search-first_eq a = rw is.starts (search-Chain m i fuel null xs enough is.links a)

-- On an ascending list, with more fuel than it has nodes, `sorted_list_get_previous` finds the last node of all whose index is at most
-- `i`, or NULL where there is none; it writes nothing.
pub sorted_list_get_previous-last_le :
    (m : Memory) (i fuel : ℕ) (list : Ptr) (xs : List Ptr)
    → IsList m list xs
    → length xs < fuel
    → IsAscending m.index xs
    → sorted_list_get_previous fuel list i m ≡ ok (last_le m.index i null xs) m
sorted_list_get_previous-last_le m i fuel list [] is h a =
    rw is.starts (get_previous-null m i fuel h)
sorted_list_get_previous-last_le m i fuel list (x ∷ xs) is h a =
    rw is.starts (get_previous-Chain m i fuel null x xs (omega arith) is.links a)
