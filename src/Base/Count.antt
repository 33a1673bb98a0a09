-- ===== src/Base/Count.antt =====
-- How often a number occurs in a list: lists without repetitions, for linear arithmetic.
use Prim.Native.Nat.{ℕ, ◌+◌, ◌≤◌, ◌<◌}
use mathlib.Core.Path.{◌≡◌, refl, ap, ◌∙◌}
use mathlib.Core.Logic.{inl, inr}
use mathlib.Core.Bool.{false}
use mathlib.Core.List.{List, [], ◌∷◌, ◌++◌}
use native.Mathlib.Omega.{arith}
use neftis.Base.Tests.{◌==◌, if◌then◌else◌, Bool-cases, ==→eq, ==-refl}
use neftis.Base.Sequence.{has, IsDistinct}

-- 1 where the numbers are the same.
abbrev pub one : ℕ → ℕ → ℕ
one a b = if a == b then 1 else 0

unfoldable pub count : ℕ → List ℕ → ℕ
count a [] = 0
count a (x ∷ xs) = one a x + count a xs

pub count_nil : (a : ℕ) → count a [] ≡ 0
unfolding count
count_nil a = refl

pub count_cons : (a x : ℕ) (xs : List ℕ) → count a (x ∷ xs) ≡ one a x + count a xs
unfolding count
count_cons a x xs = refl

pub count-append : (a : ℕ) (xs ys : List ℕ) → count a (xs ++ ys) ≡ count a xs + count a ys
unfolding count
count-append a [] ys = omega arith
count-append a (x ∷ xs) ys = omega (arith, count-append a xs ys)

-- Nothing twice.
abbrev pub IsOnce : List ℕ → Type 0
IsOnce xs = (a : ℕ) → count a xs ≤ 1

pub one_self : (a : ℕ) → one a a ≡ 1
one_self a = ap (λ b. if b then 1 else 0) (==-refl a)

-- Two numbers, of which one occurs and the other does not.
pub ne_of_count : (a b : ℕ) (xs : List ℕ) → 0 < count a xs → count b xs ≡ 0 → (a == b) ≡ false
ne_of_count a b xs i out = elim (Bool-cases (a == b)) [
  | inl same ↦ absurd (elim (rw (==→eq a b same, out) at i) [ ])
  | inr other ↦ other
]

pub one-of_other : (a b : ℕ) → one a b ≡ 0 → (a == b) ≡ false
one-of_other a b h = ground arith

pub has-of_count : (a : ℕ) (xs : List ℕ) → count a xs ≡ 0 → has a xs ≡ false
unfolding count
has-of_count a [] h = refl
has-of_count a (x ∷ xs) h = ground (arith, has-of_count a xs)

pub IsOnce-IsDistinct : (xs : List ℕ) → IsOnce xs → IsDistinct xs
unfolding count
IsOnce-IsDistinct [] h = tt
IsOnce-IsDistinct (x ∷ xs) h = (
  has-of_count x xs (omega (arith, h x, one_self x)),
  IsOnce-IsDistinct xs (λ a. omega (arith, h a)),
)

pub count-of_not_has : (a : ℕ) (xs : List ℕ) → has a xs ≡ false → count a xs ≡ 0
unfolding count
count-of_not_has a [] h = refl
count-of_not_has a (x ∷ xs) h = ground (arith, count-of_not_has a xs)

pub IsDistinct-IsOnce : (xs : List ℕ) → IsDistinct xs → IsOnce xs
unfolding count
IsDistinct-IsOnce [] d a = omega arith
IsDistinct-IsOnce (x ∷ xs) d a = elim (Bool-cases (a == x)) [
  | inl same ↦
      rw same (omega (arith, count-of_not_has a xs (ap (λ y. has y xs) (==→eq a x same) ∙ d.0)))
  | inr other ↦ rw other (omega (arith, IsDistinct-IsOnce xs d.1 a))
]
