-- ===== src/Text/Conversion.antt =====
-- The theorems on `ultostr` and `strtoul` of common/stdlib.c.
use mathlib.Core.Path.{subst}
use native.Mathlib.Nat.{div-one}
use neftis.Base.Partial.{◌>>=◌}
use neftis.Base.{
  ℕ, suc, ◌+◌, ◌-◌, ◌/◌, ◌%◌, ◌^◌, ◌<◌, ◌≤◌, false, ◌≡◌, ◌≢◌, ◌∙◌, refl, sym, ap, inl, inr, ◌⊎◌,
  ◌==◌, Option, none, some, if◌then◌else◌, if-false, ne→==, Bool-cases, ==→eq, arith, ==-refl,
}
use neftis.Sched.{update}
use neftis.Text.{Bytes}
use neftis.Text.Number.{
  size_loop, digits_loop, clipped, write_number, ultostr, isspace, skip_space, strtoul_loop,
  strtoul,
}
use neftis.Text.Decimal.{update_elsewhere, digits-outside, digits-at, read-digits, size_loop-size}

-- A result that is there, with a property.
abbrev pub Yields : (Bytes → Type 0) → Option Bytes → Type 0
Yields P none = ⊥
Yields P (some m) = P m

ultostr-run :
    (fuel num buf max size : ℕ) (m : Bytes)
    → size_loop fuel num 1 1 ≡ some size
    → ultostr fuel num buf max m ≡ some (write_number size num buf max m)
unfolding ultostr
ultostr-run fuel num buf max size m e = ap (λ o. o >>= λ n. some (write_number n num buf max m)) e

strtoul-run :
    (fuel start first : ℕ) (m : Bytes)
    → skip_space fuel start m ≡ some first
    → strtoul fuel start m ≡ strtoul_loop fuel first 0 m
unfolding strtoul
strtoul-run fuel start first m e = ap (λ o. o >>= λ p. strtoul_loop fuel p 0 m) e

no_space :
    (fuel start : ℕ) (m : Bytes)
    → isspace (m start) ≡ false
    → skip_space (suc fuel) start m ≡ some start
unfolding skip_space
no_space fuel start m h = if-false _ (some start) h

clipped-room : (size max : ℕ) → size < max → clipped size max ≡ size
unfolding clipped
clipped-room size max h = if-false (max - 1) size (ground (arith, h))

clipped-inside : (size max : ℕ) → clipped size max ≤ max - 1
unfolding clipped
clipped-inside size max = ground arith

-- The number written with room for every digit.
module _ (num buf max d : ℕ) (m : Bytes) (room : suc d < max) (gone : num / 10 ^ suc d ≡ 0) where
  abbrev written : Bytes
  written = write_number (suc d) num buf max m

  abbrev ended : Bytes
  ended = update m (buf + suc d) 0

  written-digits : written ≡ digits_loop (suc d) num buf ended
  unfolding write_number
  written-digits =
      ap (λ c. digits_loop c num buf (if max == 0 then m else update m (buf + c) 0))
        (clipped-room (suc d) max room)
      ∙ ap (λ b. digits_loop (suc d) num buf (if b then m else ended))
          (ne→== max 0 (λ e. omega (arith, room, e)))

  written-at : (j k : ℕ) → j + suc k ≡ suc d → written (buf + j) ≡ num / 10 ^ k % 10 + 48
  written-at j k e = ap (λ f. f (buf + j)) written-digits ∙ digits-at (suc d) num buf ended j k e

  written-end : written (buf + suc d) ≡ 0
  written-end =
      ap (λ f. f (buf + suc d)) written-digits
      ∙ digits-outside (suc d) num buf ended (buf + suc d) (inr (omega arith))
      ∙ ap (λ b. if b then 0 else m (buf + suc d)) (==-refl (buf + suc d))

  written-read :
      (fuel : ℕ) → num < 4294967296 → suc d ≤ fuel → strtoul (suc fuel) buf written ≡ some (0, num)
  written-read fuel word enough =
      strtoul-run (suc fuel) buf buf written (
        no_space fuel buf written
          (first_digit (written buf) (ap written (omega arith) ∙ written-at 0 d (omega arith))))
      ∙ ap (λ p. strtoul_loop (suc fuel) p 0 written) (omega arith)
      ∙ ap (λ r. strtoul_loop (suc fuel) (buf + 0) r written) (sym gone)
      ∙ read-digits (suc d) num buf written 0 (suc d) (suc fuel) (omega arith)
          (omega (arith, enough)) word written-at written-end
    where
      first_digit : (c : ℕ) → c ≡ num / 10 ^ d % 10 + 48 → isspace c ≡ false
      first_digit c e = ground (arith, e)

-- What is read back of a number below 2^32 is the number, without an error: `ultostr` has fuel for its
-- digits, of which there are no more than that, and the buffer has room for one byte more.
pub ultostr-strtoul :
    (fuel num buf max : ℕ) (m : Bytes)
    → num < 4294967296
    → num < 10 ^ fuel
    → 0 < fuel
    → fuel < max
    → Yields (λ m'. strtoul (suc fuel) buf m' ≡ some (0, num)) (ultostr fuel num buf max m)
ultostr-strtoul fuel num buf max m word fits some_fuel room =
    let (d, run, gone, bound) =
      size_loop-size fuel 0 num word some_fuel
        (subst (λ x. x < 10 ^ fuel) (sym (div-one num)) fits) in
    subst (Yields (λ m'. strtoul (suc fuel) buf m' ≡ some (0, num)))
      (sym (ultostr-run fuel num buf max (suc d) m run))
      (written-read num buf max d m (omega (arith, bound, room)) gone fuel word
        (omega (arith, bound)))

-- Every write of a number goes into the buffer.
write_number-outside :
    (size num buf max : ℕ) (m : Bytes) (p : ℕ)
    → (p < buf) ⊎ (buf + max ≤ p)
    → write_number size num buf max m p ≡ m p
unfolding write_number
write_number-outside size num buf max m p out =
    digits-outside (clipped size max) num buf
      (if max == 0 then m else update m (buf + clipped size max) 0) p (beyond out)
    ∙ no_end (clipped size max) (clipped-inside size max) out
  where
    beyond : (p < buf) ⊎ (buf + max ≤ p) → (p < buf) ⊎ (buf + clipped size max ≤ p)
    beyond (inl h) = inl h
    beyond (inr h) = inr (omega (arith, h, clipped-inside size max))

    apart : (c : ℕ) → c ≤ max - 1 → (max == 0) ≡ false → (p < buf) ⊎ (buf + max ≤ p) → p ≢ buf + c
    apart c inside some_room (inl h) e = omega (arith, h, e)
    apart c inside some_room (inr h) e = ground (arith, inside, some_room, h, e)

    no_end :
        (c : ℕ)
        → c ≤ max - 1
        → (p < buf) ⊎ (buf + max ≤ p)
        → (if max == 0 then m else update m (buf + c) 0) p ≡ m p
    no_end c inside out = elim (Bool-cases (max == 0)) [
      | inl zero_room ↦ rw zero_room refl
      | inr some_room ↦
          rw some_room (update_elsewhere m (buf + c) 0 p (apart c inside some_room out))
    ]

write_number-end :
    (size num buf max : ℕ) (m : Bytes)
    → (max ≡ 0) ⊎ ((c : ℕ) × (c < max) × (write_number size num buf max m (buf + c) ≡ 0))
unfolding write_number
write_number-end size num buf max m = elim (Bool-cases (max == 0)) [
  | inl empty ↦ inl (==→eq max 0 empty)
  | inr some_room ↦ inr (
    clipped size max,
    ground (arith, clipped-inside size max, some_room),
    digits-outside (clipped size max) num buf
          (if max == 0 then m else update m (buf + clipped size max) 0) (buf + clipped size max)
          (inr (omega arith))
        ∙ ap (λ b. (if b then m else update m (buf + clipped size max) 0) (buf + clipped size max))
            some_room
        ∙ ap (λ b. if b then 0 else m (buf + clipped size max)) (==-refl (buf + clipped size max)),
  )
]

-- Nothing outside the buffer changed, and one that is not empty ends with a NUL inside.
abbrev pub IsInside : ℕ → ℕ → Bytes → Bytes → Type 0
IsInside buf max m m' =
    ((p : ℕ) → (p < buf) ⊎ (buf + max ≤ p) → m' p ≡ m p)
    × ((max ≡ 0) ⊎ ((c : ℕ) × (c < max) × (m' (buf + c) ≡ 0)))

-- `ultostr` of a number below 2^32, with fuel for its digits, writes no byte outside the buffer,
-- however small it is, and a buffer that is not empty ends with a NUL inside.
pub ultostr-IsInside :
    (fuel num buf max : ℕ) (m : Bytes)
    → num < 4294967296
    → num < 10 ^ fuel
    → 0 < fuel
    → Yields (IsInside buf max m) (ultostr fuel num buf max m)
ultostr-IsInside fuel num buf max m word fits some_fuel =
    let (d, run, gone, bound) =
      size_loop-size fuel 0 num word some_fuel
        (subst (λ x. x < 10 ^ fuel) (sym (div-one num)) fits) in
    subst (Yields (IsInside buf max m)) (sym (ultostr-run fuel num buf max (suc d) m run))
      (write_number-outside (suc d) num buf max m, write_number-end (suc d) num buf max m)
