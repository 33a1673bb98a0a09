-- ===== src/Text.antt =====
-- The strings and blocks of bytes of common/stdlib.c, in a memory of bytes. The loops that end at a
-- NUL run on fuel. A character is its unsigned byte; that of `strchr` is below 128.
pub mod Block
pub mod Compare
pub mod Number
pub mod Decimal
pub mod Conversion
mod Tests
use neftis.Base.{
  ℕ, zero, suc, ◌+◌, ◌-◌, ◌%◌, Bool, ◌||◌, Option, none, some, ◌==◌, ltb, if◌then◌else◌,
}
use neftis.Sched.{update}

abbrev pub Bytes : Type 0
Bytes = ℕ → ℕ

-- What a comparison returns: -1, 0 or 1.
pub data Sign : Type 0 where
  less : Sign
  equal : Sign
  greater : Sign

unfoldable pub umax : ℕ → ℕ → ℕ
umax a b = if ltb b a then a else b

-- The loop of `strlen`, with the count `i`.
unfoldable pub strlen_loop : ℕ → ℕ → ℕ → Bytes → Option ℕ
strlen_loop zero s i m = none
strlen_loop (suc fuel) s i m = if m s == 0 then some i else strlen_loop fuel (suc s) (suc i) m

unfoldable pub strlen : ℕ → ℕ → Bytes → Option ℕ
unfolding strlen_loop
strlen fuel s m = strlen_loop fuel s 0 m

abbrev pub differ : ℕ → ℕ → Sign
differ a b = if ltb a b then less else greater

unfoldable pub strcmp : ℕ → ℕ → ℕ → Bytes → Option Sign
strcmp zero s1 s2 m = none
strcmp (suc fuel) s1 s2 m =
    let rest = strcmp fuel (suc s1) (suc s2) m in
    if m s1 == m s2 then (if m s1 == 0 then some equal else rest) else some (differ (m s1) (m s2))

-- `--n` of a `size_t` of 32 bits.
abbrev pub decrement : ℕ → ℕ
decrement n = if n == 0 then 4294967295 else n - 1

unfoldable pub strncmp : ℕ → ℕ → ℕ → ℕ → Bytes → Option Sign
strncmp zero s1 s2 n m = none
strncmp (suc fuel) s1 s2 n m =
    let rest = strncmp fuel (suc s1) (suc s2) (decrement n) m in
    if m s1 == m s2
    then (if (m s1 == 0) || (decrement n == 0) then some equal else rest)
    else some (differ (m s1) (m s2))

unfoldable pub memcmp : ℕ → ℕ → ℕ → ℕ → Bytes → Option Sign
memcmp zero s1 s2 n m = none
memcmp (suc fuel) s1 s2 n m =
    let rest = memcmp fuel (suc s1) (suc s2) (decrement n) m in
    if m s1 == m s2
    then (if decrement n == 0 then some equal else rest)
    else some (differ (m s1) (m s2))

-- The bytes up to the NUL, and it.
unfoldable pub strcpy : ℕ → ℕ → ℕ → Bytes → Option Bytes
strcpy zero dest src m = none
strcpy (suc fuel) dest src m =
    let m' = update m dest (m src) in
    let rest = strcpy fuel (suc dest) (suc src) m' in if m src == 0 then some m' else rest

-- NULL is 0.
unfoldable pub strchr : ℕ → ℕ → ℕ → Bytes → Option ℕ
strchr zero s c m = none
strchr (suc fuel) s c m =
    let rest = strchr fuel (suc s) c m in
    if m s == 0 then some 0 else if m s == c then some s else rest

-- The loop of `memcpy` from the index `i`, with `n` bytes left.
unfoldable pub memcpy_loop : ℕ → ℕ → ℕ → ℕ → Bytes → Bytes
memcpy_loop zero i dest src m = m
memcpy_loop (suc n) i dest src m =
    memcpy_loop n (suc i) dest src (update m (dest + i) (m (src + i)))

unfoldable pub memcpy : ℕ → ℕ → ℕ → Bytes → Bytes
unfolding memcpy_loop
memcpy dest src n m = memcpy_loop n 0 dest src m

unfoldable pub memset_loop : ℕ → ℕ → ℕ → ℕ → Bytes → Bytes
memset_loop zero i s c m = m
memset_loop (suc n) i s c m = memset_loop n (suc i) s c (update m (s + i) (c % 256))

unfoldable pub memset : ℕ → ℕ → ℕ → Bytes → Bytes
unfolding memset_loop
memset s c n m = memset_loop n 0 s c m

-- `strncpy` with `n` bytes left; the end is filled with NUL.
unfoldable pub strncpy : ℕ → ℕ → ℕ → Bytes → Bytes
unfolding memset_loop
strncpy dest src zero m = m
strncpy dest src (suc n) m =
    let m' = update m dest (m src) in
    let rest = strncpy (suc dest) (suc src) n m' in
    if m src == 0 then memset_loop n 0 (suc dest) 0 m' else rest
