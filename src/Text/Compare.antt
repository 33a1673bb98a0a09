-- ===== src/Text/Compare.antt =====
-- `strlen` and `strcmp` of common/stdlib.c on strings that end in NUL.
use neftis.Base.{
  ℕ, zero, suc, ◌+◌, ◌<◌, false, ◌≡◌, ◌≢◌, ◌∙◌, sym, ap, inl, inr, some, List, [], ◌∷◌, ◌==◌, ltb,
  if◌then◌else◌, Bool-cases, ne→==, lt→ltb, arith, length,
}
use neftis.Text.{Bytes, Sign, less, equal, greater, strlen_loop, strlen, strcmp, differ}

-- The string `xs` stands at `s`.
abbrev pub IsString : Bytes → ℕ → List ℕ → Type 0
IsString m s [] = m s ≡ 0
IsString m s (x ∷ xs) = (m s ≡ x) × (x ≢ 0) × IsString m (suc s) xs

loop-length :
    (m : Bytes) (fuel s i : ℕ) (xs : List ℕ)
    → IsString m s xs
    → length xs < fuel
    → strlen_loop fuel s i m ≡ some (i + length xs)
unfolding strlen_loop
loop-length m zero s i xs is h = absurd (omega (arith, h))
loop-length m (suc fuel) s i [] is h = rw is (ap some (omega arith))
loop-length m (suc fuel) s i (x ∷ xs) is h =
    rw (is.0, ne→== x 0 is.1)
      (loop-length m fuel (suc s) (suc i) xs is.2 (omega arith) ∙ ap some (omega arith))

-- With more fuel than the string is long, `strlen` ends, and counts the characters in front of the NUL.
pub strlen-length :
    (m : Bytes) (fuel s : ℕ) (xs : List ℕ)
    → IsString m s xs
    → length xs < fuel
    → strlen fuel s m ≡ some (length xs)
unfolding strlen
strlen-length m fuel s xs is h = loop-length m fuel s 0 xs is h ∙ ap some (omega arith)

-- The order of strings: of the first characters that differ, a prefix in front.
unfoldable pub order : List ℕ → List ℕ → Sign
order [] [] = equal
order [] (y ∷ ys) = less
order (x ∷ xs) [] = greater
order (x ∷ xs) (y ∷ ys) = if x == y then order xs ys else differ x y

positive : (y : ℕ) → y ≢ 0 → 0 < y
positive y h = ground arith

not_below : (x : ℕ) → ltb x 0 ≡ false
not_below x = ground arith

-- With more fuel than the first string is long, `strcmp` ends, and orders the strings by the first characters that differ.
pub strcmp-order :
    (m : Bytes) (fuel s t : ℕ) (xs ys : List ℕ)
    → IsString m s xs
    → IsString m t ys
    → length xs < fuel
    → strcmp fuel s t m ≡ some (order xs ys)
unfolding strcmp order
strcmp-order m zero s t xs ys is it h = absurd (omega (arith, h))
strcmp-order m (suc fuel) s t [] [] is it h = rw (is, it)
strcmp-order m (suc fuel) s t [] (y ∷ ys) is it h =
    rw (is, it.0, ne→== 0 y (λ e. it.1 (sym e)), lt→ltb 0 y (positive y it.1))
strcmp-order m (suc fuel) s t (x ∷ xs) [] is it h = rw (is.0, it, ne→== x 0 is.1, not_below x)
strcmp-order m (suc fuel) s t (x ∷ xs) (y ∷ ys) is it h = elim (Bool-cases (x == y)) [
  | inl same ↦
      rw (is.0, it.0, same, ne→== x 0 is.1)
        (strcmp-order m fuel (suc s) (suc t) xs ys is.2 it.2 (omega arith))
  | inr other ↦ rw (is.0, it.0, other)
]
