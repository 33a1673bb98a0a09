-- ===== src/Rbtree/Entries.antt =====
-- A red-black tree as what it promises: a map from keys to data, in the order of the keys.
use neftis.Base.{
  ℕ, true, false, Bool, ◌<◌, ◌≡◌, ◌∙◌, refl, sym, ap, List, [], ◌∷◌, ◌++◌, arith, ◌==◌, ltb,
  if◌then◌else◌, if-true, if-false, ==-sym, ==-refl, ne→==, lt→ltb, write, write_self, write_other,
  count, count_cons, one_self, one-of_other, ◌≤◌,
}
use neftis.Rbtree.{Ptr}
use neftis.Rbtree.Sorted.{AllBelow, AllAbove}

-- The map, by its entries in ascending order, and what it does.
abbrev pub put : ℕ → ℕ → List (ℕ × ℕ) → List (ℕ × ℕ)
put k v [] = (k, v) ∷ []
put k v ((j, w) ∷ m) =
    if j == k then (k, v) ∷ m else (if ltb k j then (k, v) ∷ (j, w) ∷ m else (j, w) ∷ put k v m)

abbrev pub has_key : ℕ → List (ℕ × ℕ) → Bool
has_key k [] = false
has_key k ((j, w) ∷ m) = if j == k then true else has_key k m

-- The entries of a list of nodes.
abbrev pub entries : (Ptr → ℕ) → (Ptr → ℕ) → List Ptr → List (ℕ × ℕ)
entries key data_of [] = []
entries key data_of (x ∷ xs) = (key x, data_of x) ∷ entries key data_of xs

module _ (key data_of : Ptr → ℕ) where
  put-below :
      (k v : ℕ) (x : Ptr) (m : List (ℕ × ℕ))
      → key x < k
      → put k v ((key x, data_of x) ∷ m) ≡ (key x, data_of x) ∷ put k v m
  put-below k v x m h = rw (ne→== (key x) k (λ e. omega (arith, h, e)), not_lower) refl
    where
      not_lower : ltb k (key x) ≡ false
      not_lower = ground (arith, h)

  -- A new node where its key belongs.
  pub entries-insert :
      (xs : List Ptr) (n : Ptr) (ys : List Ptr)
      → AllBelow key (key n) xs
      → AllAbove key (key n) ys
      → entries key data_of (xs ++ n ∷ ys)
        ≡ put (key n) (data_of n) (entries key data_of (xs ++ ys))
  entries-insert [] n [] l r = refl
  entries-insert [] n (y ∷ ys) l r =
      rw (ne→== (key y) (key n) (λ e. omega (arith, r.0, e)), lt→ltb (key n) (key y) r.0) refl
  entries-insert (x ∷ xs) n ys l r =
      ap (◌∷◌ (key x, data_of x)) (entries-insert xs n ys l.1 r)
      ∙ sym (put-below (key n) (data_of n) x (entries key data_of (xs ++ ys)) l.0)

  pub has_key-insert :
      (xs : List Ptr) (k : ℕ) (ys : List Ptr)
      → AllBelow key k xs
      → AllAbove key k ys
      → has_key k (entries key data_of (xs ++ ys)) ≡ false
  has_key-insert [] k [] l r = refl
  has_key-insert [] k (y ∷ ys) l r =
      if-false true (has_key k (entries key data_of ys))
        (ne→== (key y) k (λ e. omega (arith, r.0, e)))
      ∙ has_key-insert [] k ys l r.1
  has_key-insert (x ∷ xs) k ys l r =
      if-false true (has_key k (entries key data_of (xs ++ ys)))
        (ne→== (key x) k (λ e. omega (arith, l.0, e)))
      ∙ has_key-insert xs k ys l.1 r

  -- A node whose data changes.
  entries-unchanged :
      (p v : ℕ) (ys : List Ptr)
      → count p ys ≡ 0
      → entries key (write data_of p v) ys ≡ entries key data_of ys
  entries-unchanged p v [] out = refl
  entries-unchanged p v (y ∷ ys) out =
      ap (λ w. (key y, w) ∷ entries key (write data_of p v) ys)
        (write_other data_of p v y
          (==-sym p y (one-of_other p y (omega (arith, out, count_cons p y ys)))))
      ∙ ap (◌∷◌ (key y, data_of y))
          (entries-unchanged p v ys (omega (arith, out, count_cons p y ys)))

  pub entries-overwrite :
      (v : ℕ) (xs : List Ptr) (p : Ptr) (ys : List Ptr)
      → AllBelow key (key p) xs
      → count p (xs ++ p ∷ ys) ≤ 1
      → entries key (write data_of p v) (xs ++ p ∷ ys)
        ≡ put (key p) v (entries key data_of (xs ++ p ∷ ys))
  entries-overwrite v [] p ys l once =
      ap (λ w. (key p, w) ∷ entries key (write data_of p v) ys) (write_self data_of p v)
      ∙ ap (◌∷◌ (key p, v))
          (entries-unchanged p v ys (omega (arith, once, count_cons p p ys, one_self p)))
      ∙ sym (if-true _ _ (==-refl (key p)))
  entries-overwrite v (x ∷ xs) p ys l once =
      ap (λ w. (key x, w) ∷ entries key (write data_of p v) (xs ++ p ∷ ys))
        (write_other data_of p v x (ne→== x p (λ e. omega (arith, l.0, ap key e))))
      ∙ ap (◌∷◌ (key x, data_of x))
          (entries-overwrite v xs p ys l.1 (omega (arith, once, count_cons p x (xs ++ p ∷ ys))))
      ∙ sym (put-below (key p) v x (entries key data_of (xs ++ p ∷ ys)) l.0)

  pub has_key-there :
      (xs : List Ptr) (p : Ptr) (ys : List Ptr)
      → AllBelow key (key p) xs
      → has_key (key p) (entries key data_of (xs ++ p ∷ ys)) ≡ true
  has_key-there [] p ys l = if-true _ _ (==-refl (key p))
  has_key-there (x ∷ xs) p ys l =
      if-false true (has_key (key p) (entries key data_of (xs ++ p ∷ ys)))
        (ne→== (key x) (key p) (λ e. omega (arith, l.0, e)))
      ∙ has_key-there xs p ys l.1
