-- ===== src/Text/Number.antt =====
-- The conversion of numbers in common/stdlib.c: `ultostr` and `strtoul`, on words of 32 bits. The
-- digits are written in a memory of bytes.
use neftis.Base.Partial.{◌>>=◌}
use neftis.Base.{
  ℕ, zero, suc, ◌+◌, ◌-◌, ◌*◌, ◌/◌, ◌%◌, Bool, ◌||◌, Option, none, some, ◌==◌, leb, ltb,
  if◌then◌else◌,
}
use neftis.Sched.{update}
use neftis.Text.{Bytes}

-- The loop of `ultostr` that counts the digits.
unfoldable pub size_loop : ℕ → ℕ → ℕ → ℕ → Option ℕ
size_loop zero num cover size = none
size_loop (suc fuel) num cover size =
    let rest = size_loop fuel num (cover * 10 % 4294967296) (suc size) in
    if leb 10 (num / cover) then rest else some size

-- The loop of `ultostr` that writes the digits, the last one first; `n` are left.
unfoldable pub digits_loop : ℕ → ℕ → ℕ → Bytes → Bytes
digits_loop zero num buf m = m
digits_loop (suc n) num buf m = digits_loop n (num / 10) buf (update m (buf + n) (num % 10 + 48))

-- The digits that there is room for. Where `max` is 0 the size is -1, and nothing is written.
unfoldable pub clipped : ℕ → ℕ → ℕ
clipped size max = if ltb max (size + 1) then max - 1 else size

unfoldable pub write_number : ℕ → ℕ → ℕ → ℕ → Bytes → Bytes
write_number size num buf max m =
    digits_loop (clipped size max) num buf
      (if max == 0 then m else update m (buf + clipped size max) 0)

unfoldable pub ultostr : ℕ → ℕ → ℕ → ℕ → Bytes → Option Bytes
ultostr fuel num buf max m = do
  size ← size_loop fuel num 1 1
  some (write_number size num buf max m)

abbrev pub isspace : ℕ → Bool
isspace c = (c == 32) || (c == 9)

unfoldable pub skip_space : ℕ → ℕ → Bytes → Option ℕ
skip_space zero start m = none
skip_space (suc fuel) start m =
    let rest = skip_space fuel (suc start) m in if isspace (m start) then rest else some start

-- The loop of `strtoul`: what is stored through `err`, and the result.
unfoldable pub strtoul_loop : ℕ → ℕ → ℕ → Bytes → Option (ℕ × ℕ)
strtoul_loop zero start result m = none
strtoul_loop (suc fuel) start result m =
    let c = m start in
    let rest = strtoul_loop fuel (suc start) ((result * 10 + (c - 48)) % 4294967296) m in
    if (c == 0) || isspace c
    then some (0, result)
    else (if ltb c 48 || ltb 57 c then some (1, 0) else rest)

unfoldable pub strtoul : ℕ → ℕ → Bytes → Option (ℕ × ℕ)
strtoul fuel start m = do first ← skip_space fuel start m; strtoul_loop fuel first 0 m
