-- ===== src/Links/Sorted/Order.antt =====
-- Lists of nodes in ascending order of their index, and the searches of common/list.c as functions
-- on such lists.
use neftis.Base.{
  ℕ, ◌≤◌, false, ◌≡◌, List, [], ◌∷◌, ◌==◌, inl, inr, Bool-cases, leb→le, leb, if◌then◌else◌, has,
  arith,
}
use neftis.Links.{Ptr, null, update, update_self, update_other}

-- Every node's index is at least `i`.
abbrev pub AtLeast : (Ptr → ℕ) → ℕ → List Ptr → Type 0
AtLeast f i [] = Unit {0}
AtLeast f i (x ∷ xs) = (i ≤ f x) × AtLeast f i xs

abbrev pub IsAscending : (Ptr → ℕ) → List Ptr → Type 0
IsAscending f [] = Unit {0}
IsAscending f (x ∷ xs) = AtLeast f (f x) xs × IsAscending f xs

-- The first node with the index `i`, of all nodes.
abbrev pub first_eq : (Ptr → ℕ) → ℕ → List Ptr → Ptr
first_eq f i [] = null
first_eq f i (x ∷ xs) = if f x == i then x else first_eq f i xs

-- The first node whose index is at least `i`.
abbrev pub first_ge : (Ptr → ℕ) → ℕ → List Ptr → Ptr
first_ge f i [] = null
first_ge f i (x ∷ xs) = if leb i (f x) then x else first_ge f i xs

-- The last node whose index is at most `i`, of all nodes; `d` where there is none.
abbrev pub last_le : (Ptr → ℕ) → ℕ → Ptr → List Ptr → Ptr
last_le f i d [] = d
last_le f i d (x ∷ xs) = last_le f i (if leb (f x) i then x else d) xs

-- Insertion of `e` with index `i` in front of the first node whose index is as large.
abbrev pub insert_at : (Ptr → ℕ) → ℕ → Ptr → List Ptr → List Ptr
insert_at f i e [] = e ∷ []
insert_at f i e (x ∷ xs) = if leb i (f x) then e ∷ x ∷ xs else x ∷ insert_at f i e xs

pub AtLeast-mono : (f : Ptr → ℕ) (i j : ℕ) (xs : List Ptr) → i ≤ j → AtLeast f j xs → AtLeast f i xs
AtLeast-mono f i j [] h a = tt
AtLeast-mono f i j (x ∷ xs) h a = (omega arith, AtLeast-mono f i j xs h a.1)

head_other : (x : Ptr) (xs : List Ptr) (e : Ptr) → has e (x ∷ xs) ≡ false → (x == e) ≡ false
head_other x xs e out = ground arith

AtLeast-update :
    (f : Ptr → ℕ) (e v i : ℕ) (xs : List Ptr)
    → has e xs ≡ false
    → AtLeast f i xs
    → AtLeast (update f e v) i xs
AtLeast-update f e v i [] out a = tt
AtLeast-update f e v i (x ∷ xs) out a = (ground arith, AtLeast-update f e v i xs (ground arith) a.1)

IsAscending-update :
    (f : Ptr → ℕ) (e v : ℕ) (xs : List Ptr)
    → has e xs ≡ false
    → IsAscending f xs
    → IsAscending (update f e v) xs
IsAscending-update f e v [] out a = tt
IsAscending-update f e v (x ∷ xs) out a = (
  rw (update_other f e v x (head_other x xs e out))
      (AtLeast-update f e v (f x) xs (ground arith) a.0),
  IsAscending-update f e v xs (ground arith) a.1,
)

AtLeast-insert_at :
    (f : Ptr → ℕ) (i e j : ℕ) (xs : List Ptr)
    → has e xs ≡ false
    → j ≤ i
    → AtLeast f j xs
    → AtLeast (update f e i) j (insert_at f i e xs)
AtLeast-insert_at f i e j [] out h a = (rw (update_self f e i) h, tt)
AtLeast-insert_at f i e j (x ∷ xs) out h a = elim (Bool-cases (leb i (f x))) [
  | inl here ↦ rw here (rw (update_self f e i) h, AtLeast-update f e i j (x ∷ xs) out a)
  | inr later ↦ rw later (
    rw (update_other f e i x (head_other x xs e out)) a.0,
    AtLeast-insert_at f i e j xs (ground arith) h a.1,
  )
]

pub insert_at-IsAscending :
    (f : Ptr → ℕ) (i e : ℕ) (xs : List Ptr)
    → has e xs ≡ false
    → IsAscending f xs
    → IsAscending (update f e i) (insert_at f i e xs)
insert_at-IsAscending f i e [] out a = (tt, tt)
insert_at-IsAscending f i e (x ∷ xs) out a = elim (Bool-cases (leb i (f x))) [
  | inl here ↦ rw here (
    AtLeast-mono (update f e i) (update f e i e) i (x ∷ xs) (omega (arith, update_self f e i)) (
        AtLeast-update f e i i (x ∷ xs) out
          (leb→le i (f x) here, AtLeast-mono f i (f x) xs (leb→le i (f x) here) a.0)),
    IsAscending-update f e i (x ∷ xs) out a,
  )
  | inr later ↦ rw later (
    rw (update_other f e i x (head_other x xs e out))
        (AtLeast-insert_at f i e (f x) xs (ground arith) (ground arith) a.0),
    insert_at-IsAscending f i e xs (ground arith) a.1,
  )
]
