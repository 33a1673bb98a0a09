-- ===== src/Text/Tests.antt =====
-- Runs of the string functions.
use neftis.Base.{ℕ, ◌+◌, ◌<◌, ◌≤◌, ◌≡◌, refl, inr, ◌⊎◌, some, [], ◌∷◌, ◌==◌, if◌then◌else◌, arith}
use neftis.Text.Number.{ultostr, strtoul}
use neftis.Text.Conversion.{Yields, ultostr-strtoul, ultostr-IsInside, IsInside}
use neftis.Text.{Bytes, greater, strcmp, memcpy}
use neftis.Text.Compare.{IsString, order, strcmp-order}
use neftis.Text.Block.{memcpy-copies}

-- "ab" at 10 and "aa" at 20.
abbrev bytes : Bytes
bytes p =
    if p == 10
    then 97
    else if p == 11
    then 98
    else if p == 20
    then 97
    else if p == 21
    then 97
    else 0

ab : IsString bytes 10 (97 ∷ 98 ∷ [])
ab = (refl, (λ e. omega arith), (refl, (λ e. omega arith), refl))

aa : IsString bytes 20 (97 ∷ 97 ∷ [])
aa = (refl, (λ e. omega arith), (refl, (λ e. omega arith), refl))

strcmp_example : strcmp 5 10 20 bytes ≡ some greater
unfolding order
strcmp_example = strcmp-order bytes 5 10 20 (97 ∷ 98 ∷ []) (97 ∷ 97 ∷ []) ab aa (omega arith)

memcpy_example :
    ((j : ℕ) → j < 3 → memcpy 30 10 3 bytes (30 + j) ≡ bytes (10 + j))
    × ((p : ℕ) → (p < 30) ⊎ (33 ≤ p) → memcpy 30 10 3 bytes p ≡ bytes p)
memcpy_example = memcpy-copies 30 10 3 bytes (inr (omega arith))

ultostr-strtoul_example :
    Yields (λ m'. strtoul 11 40 m' ≡ some (0, 305)) (ultostr 10 305 40 11 bytes)
ultostr-strtoul_example =
    ultostr-strtoul 10 305 40 11 bytes (omega arith) (omega arith) (omega arith) (omega arith)

-- Room for one digit and the NUL.
ultostr-IsInside_example : Yields (IsInside 40 2 bytes) (ultostr 10 305 40 2 bytes)
ultostr-IsInside_example =
    ultostr-IsInside 10 305 40 2 bytes (omega arith) (omega arith) (omega arith)
