-- ===== src/Base/Sequence.antt =====
-- Lists measured and indexed by native numbers, and lists of addresses as finite sets.
use Prim.Native.Nat.{ℕ, zero, suc, ◌+◌}
use mathlib.Core.Path.{◌≡◌, refl, sym, ap, ◌∙◌}
use mathlib.Core.Bool.{Bool, true, false, not, ◌&&◌, ◌||◌, false≢true}
use mathlib.Core.List.{List, [], ◌∷◌, ◌++◌}
use mathlib.Core.Option.{Option, none, some}
use native.Mathlib.Omega.{arith}
use mathlib.Core.Logic.{inl, inr}
use neftis.Base.Tests.{◌==◌, ==→eq, Bool-cases, if◌then◌else◌}

module _ {ℓ} {A : Type ℓ} where
  abbrev pub length : List A → ℕ
  length [] = 0
  length (x ∷ xs) = suc (length xs)

  abbrev pub get_elem? : List A → ℕ → Option A
  get_elem? [] i = none
  get_elem? (x ∷ xs) zero = some x
  get_elem? (x ∷ xs) (suc i) = get_elem? xs i

  -- A write out of bounds changes nothing.
  abbrev pub set : List A → ℕ → A → List A
  set [] i v = []
  set (x ∷ xs) zero v = v ∷ xs
  set (x ∷ xs) (suc i) v = x ∷ set xs i v

  pub length-append : (xs ys : List A) → length (xs ++ ys) ≡ length xs + length ys
  length-append [] ys = omega arith
  length-append (x ∷ xs) ys = omega (arith, length-append xs ys)

-- Whether a number occurs.
abbrev pub has : ℕ → List ℕ → Bool
has a [] = false
has a (x ∷ xs) = (a == x) || has a xs

abbrev pub IsDistinct : List ℕ → Type 0
IsDistinct [] = Unit {0}
IsDistinct (x ∷ xs) = (has x xs ≡ false) × IsDistinct xs

-- Drops the first occurrence.
abbrev pub erase : ℕ → List ℕ → List ℕ
erase a [] = []
erase a (x ∷ xs) = if a == x then xs else x ∷ erase a xs

pub has-append : (a : ℕ) (xs ys : List ℕ) → has a (xs ++ ys) ≡ (has a xs || has a ys)
has-append a [] ys = refl
has-append a (x ∷ xs) ys = ground (arith, has-append a xs ys)

pub has_head : (x : ℕ) (xs : List ℕ) → has x (x ∷ xs) ≡ true
has_head x xs = ground arith

pub ne_of_has : (q e : ℕ) (xs : List ℕ) → has q xs ≡ true → has e xs ≡ false → (q == e) ≡ false
ne_of_has q e xs i out = elim (Bool-cases (q == e)) [
  | inl same ↦ absurd (false≢true (sym out ∙ sym (ap (λ n. has n xs) (==→eq q e same)) ∙ i))
  | inr other ↦ other
]

pub has-append_cons :
    (a e : ℕ) (xs ys : List ℕ) → has a (xs ++ e ∷ ys) ≡ ((a == e) || has a (xs ++ ys))
has-append_cons a e [] ys = refl
has-append_cons a e (x ∷ xs) ys = ground (arith, has-append_cons a e xs ys)

-- A new number may be put anywhere.
pub insert-IsDistinct :
    (e : ℕ) (xs ys : List ℕ)
    → has e (xs ++ ys) ≡ false
    → IsDistinct (xs ++ ys)
    → IsDistinct (xs ++ e ∷ ys)
insert-IsDistinct e [] ys out d = (out, d)
insert-IsDistinct e (x ∷ xs) ys out d =
    (ground (arith, has-append_cons x e xs ys), insert-IsDistinct e xs ys (ground arith) d.1)

module _ (a : ℕ) where
  pub has-append_left : (xs ys : List ℕ) → has a xs ≡ true → has a (xs ++ ys) ≡ true
  has-append_left xs ys h = rw (has-append a xs ys, h)

  pub not-has-append :
      (xs ys : List ℕ) → has a (xs ++ ys) ≡ false → (has a xs ≡ false) × (has a ys ≡ false)
  not-has-append [] ys h = (refl, h)
  not-has-append (x ∷ xs) ys h = ground (arith, not-has-append xs ys)

  -- The two parts of a list without repetitions are disjoint.
  pub has_front-not-has_back :
      (xs ys : List ℕ) → IsDistinct (xs ++ ys) → has a xs ≡ true → has a ys ≡ false
  has_front-not-has_back [] ys d h = absurd (false≢true h)
  has_front-not-has_back (x ∷ xs) ys d h =
      ground (arith, has_front-not-has_back xs ys d.1, not-has-append xs ys)

pub front-IsDistinct : (xs ys : List ℕ) → IsDistinct (xs ++ ys) → IsDistinct xs
front-IsDistinct [] ys d = tt
front-IsDistinct (x ∷ xs) ys d = ((not-has-append x xs ys d.0).0, front-IsDistinct xs ys d.1)

pub back-IsDistinct : (xs ys : List ℕ) → IsDistinct (xs ++ ys) → IsDistinct ys
back-IsDistinct [] ys d = d
back-IsDistinct (x ∷ xs) ys d = back-IsDistinct xs ys d.1

pub remove-IsDistinct :
    (e : ℕ) (xs ys : List ℕ)
    → IsDistinct (xs ++ e ∷ ys)
    → IsDistinct (xs ++ ys) × (has e (xs ++ ys) ≡ false)
remove-IsDistinct e [] ys d = (d.1, d.0)
remove-IsDistinct e (x ∷ xs) ys d =
    ground (arith, remove-IsDistinct e xs ys d.1, has-append_cons x e xs ys)

-- A list splits at a number that occurs in it.
pub split_at :
    (e : ℕ) (zs : List ℕ)
    → has e zs ≡ true
    → (xs : List ℕ) × (ys : List ℕ) × (zs ≡ xs ++ e ∷ ys) × (erase e zs ≡ xs ++ ys)
split_at e [] h = absurd (false≢true h)
split_at e (z ∷ zs) h = elim (Bool-cases (e == z)) [
  | inl here ↦ ([], zs, rw (==→eq e z here), rw here)
  | inr there ↦
      let (xs, ys, whole, less) = split_at e zs (ground arith) in
      (z ∷ xs, ys, ap (◌∷◌ z) whole, rw there (ap (◌∷◌ z) less))
]

pub erase-of_not_has : (a : ℕ) (xs : List ℕ) → has a xs ≡ false → erase a xs ≡ xs
erase-of_not_has a [] h = refl
erase-of_not_has a (x ∷ xs) h = ground (arith, erase-of_not_has a xs)

pub has-erase : (a b : ℕ) (xs : List ℕ) → has a xs ≡ false → has a (erase b xs) ≡ false
has-erase a b [] h = refl
has-erase a b (x ∷ xs) h = ground (arith, has-erase a b xs)

pub erase-IsDistinct : (a : ℕ) (xs : List ℕ) → IsDistinct xs → IsDistinct (erase a xs)
erase-IsDistinct a [] d = tt
erase-IsDistinct a (x ∷ xs) d = ground (arith, erase-IsDistinct a xs, has-erase x a xs)

pub has-erase_self : (a : ℕ) (xs : List ℕ) → IsDistinct xs → has a (erase a xs) ≡ false
has-erase_self a [] d = refl
has-erase_self a (x ∷ xs) d = ground (arith, has-erase_self a xs d.1)

pub has-erase_other :
    (a b : ℕ) (xs : List ℕ) → IsDistinct xs → has a (erase b xs) ≡ (not (a == b) && has a xs)
has-erase_other a b [] d = ground arith
has-erase_other a b (x ∷ xs) d = ground (arith, has-erase_other a b xs d.1)

-- One after the other in front.
abbrev pub push : List ℕ → List ℕ → List ℕ
push [] ys = ys
push (x ∷ xs) ys = push xs (x ∷ ys)

pub push-append : (xs ys zs : List ℕ) → push (xs ++ ys) zs ≡ push ys (push xs zs)
push-append [] ys zs = refl
push-append (x ∷ xs) ys zs = push-append xs ys (x ∷ zs)
