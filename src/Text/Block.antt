-- ===== src/Text/Block.antt =====
-- `memcpy` of common/stdlib.c.
use neftis.Base.{
  ℕ, zero, suc, ◌+◌, ◌<◌, ◌≤◌, true, false, ◌≡◌, ◌≢◌, ◌∙◌, refl, sym, ap, inl, inr, ◌⊎◌, ◌==◌,
  if◌then◌else◌, ne→==, Bool-cases, ==→eq, arith,
}
use neftis.Sched.{update}
use neftis.Text.{Bytes, memcpy_loop, memcpy}

update_other : (f : Bytes) (p v q : ℕ) → q ≢ p → update f p v q ≡ f q
update_other f p v q h = ap (λ b. if b then v else f q) (ne→== q p h)

-- A byte that the loop does not write.
outside :
    (n i dest src : ℕ) (m : Bytes) (p : ℕ)
    → (p < dest + i) ⊎ (dest + i + n ≤ p)
    → memcpy_loop n i dest src m p ≡ m p
unfolding memcpy_loop
outside zero i dest src m p out = refl
outside (suc n) i dest src m p out =
    outside n (suc i) dest src (update m (dest + i) (m (src + i))) p (ground arith)
    ∙ update_other m (dest + i) (m (src + i)) p (ground arith)

-- The blocks do not overlap.
abbrev pub Apart : ℕ → ℕ → ℕ → Type 0
Apart dest src n = (dest + n ≤ src) ⊎ (src + n ≤ dest)

copies :
    (n i dest src : ℕ) (m : Bytes) (j : ℕ)
    → Apart dest src (i + n)
    → i ≤ j
    → j < i + n
    → memcpy_loop n i dest src m (dest + j) ≡ m (src + j)
unfolding memcpy_loop
copies zero i dest src m j apart low high = absurd (omega (arith, low, high))
copies (suc n) i dest src m j apart low high = elim (Bool-cases (j == i)) [
  | inl here ↦
      outside n (suc i) dest src (update m (dest + i) (m (src + i))) (dest + j) (inl (before here))
      ∙ ap (λ b. if b then m (src + i) else m (dest + j)) (reached here)
      ∙ ap (λ k. m (src + k)) (sym (==→eq j i here))
  | inr other ↦
      copies n (suc i) dest src (update m (dest + i) (m (src + i))) j (shift apart)
        (next i j low other) (omega arith)
      ∙ update_other m (dest + i) (m (src + i)) (src + j) (ground arith)
]
  where
    before : (j == i) ≡ true → dest + j < dest + suc i
    before e = ground arith

    reached : (j == i) ≡ true → (dest + j == dest + i) ≡ true
    reached e = ground arith

    shift : Apart dest src (i + suc n) → Apart dest src (suc i + n)
    shift (inl h) = inl (omega (arith, h))
    shift (inr h) = inr (omega (arith, h))

    next : (i j : ℕ) → i ≤ j → (j == i) ≡ false → suc i ≤ j
    next i j h e = ground arith

-- `memcpy` between blocks that do not overlap copies every byte, and writes no other.
pub memcpy-copies :
    (dest src n : ℕ) (m : Bytes)
    → Apart dest src n
    → ((j : ℕ) → j < n → memcpy dest src n m (dest + j) ≡ m (src + j))
      × ((p : ℕ) → (p < dest) ⊎ (dest + n ≤ p) → memcpy dest src n m p ≡ m p)
unfolding memcpy
memcpy-copies dest src n m apart = (
  λ j h. copies n 0 dest src m j (widen apart) (omega arith) (omega arith),
  λ p out. outside n 0 dest src m p (around p out),
)
  where
    widen : Apart dest src n → Apart dest src (0 + n)
    widen (inl h) = inl (omega (arith, h))
    widen (inr h) = inr (omega (arith, h))

    around : (p : ℕ) → (p < dest) ⊎ (dest + n ≤ p) → (p < dest + 0) ⊎ (dest + 0 + n ≤ p)
    around p (inl h) = inl (omega (arith, h))
    around p (inr h) = inr (omega (arith, h))
