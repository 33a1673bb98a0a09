-- ===== src/Text/Decimal.antt =====
-- `ultostr` and `strtoul` of common/stdlib.c: what is written, and that it is read back.
use native.Mathlib.Nat.{
  mul-le-mul_left, mul-div-le, pow-suc, pow-succ', mod-lt, div-div-eq-div-mul, div-lt_iff_lt-mul,
  div-le_self, div-add-mod', div-eq_of_lt, div-one, mod-eq_of_lt,
}
use mathlib.Core.Path.{subst}
use neftis.Base.{
  ℕ, zero, suc, ◌+◌, ◌-◌, ◌*◌, ◌/◌, ◌%◌, ◌^◌, ◌<◌, ◌≤◌, true, false, ◌||◌, ◌≡◌, ◌≢◌, ◌∙◌, refl, sym,
  ap, inl, inr, ◌⊎◌, ◌==◌, some, if◌then◌else◌, if-true, if-false, ne→==, Bool-cases, arith, leb,
  ltb,
}
use neftis.Sched.{update}
use neftis.Text.{Bytes}
use neftis.Text.Number.{size_loop, digits_loop, isspace, strtoul_loop}

pub update_elsewhere : (f : Bytes) (p v q : ℕ) → q ≢ p → update f p v q ≡ f q
update_elsewhere f p v q h = ap (λ b. if b then v else f q) (ne→== q p h)

-- The digits are written in their places only.
pub digits-outside :
    (n num buf : ℕ) (m : Bytes) (p : ℕ)
    → (p < buf) ⊎ (buf + n ≤ p)
    → digits_loop n num buf m p ≡ m p
unfolding digits_loop
digits-outside zero num buf m p out = refl
digits-outside (suc n) num buf m p (inl h) =
    digits-outside n (num / 10) buf (update m (buf + n) (num % 10 + 48)) p (inl h)
    ∙ update_elsewhere m (buf + n) (num % 10 + 48) p (λ e. omega (arith, h, e))
digits-outside (suc n) num buf m p (inr h) =
    digits-outside n (num / 10) buf (update m (buf + n) (num % 10 + 48)) p (inr (omega (arith, h)))
    ∙ update_elsewhere m (buf + n) (num % 10 + 48) p (λ e. omega (arith, h, e))

pow-div : (num k : ℕ) → num / 10 / 10 ^ k ≡ num / 10 ^ suc k
pow-div num k = div-div-eq-div-mul num 10 (10 ^ k) ∙ ap (λ d. num / d) (sym (pow-succ' 10 k))

div-pow : (num k : ℕ) → num / 10 ^ suc k ≡ num / 10 ^ k / 10
div-pow num k = ap (λ d. num / d) (pow-suc 10 k) ∙ sym (div-div-eq-div-mul num (10 ^ k) 10)

-- The digit with `k` digits behind it.
pub digits-at :
    (n num buf : ℕ) (m : Bytes) (j k : ℕ)
    → j + suc k ≡ n
    → digits_loop n num buf m (buf + j) ≡ num / 10 ^ k % 10 + 48
unfolding digits_loop
digits-at zero num buf m j k e = absurd (omega (arith, e))
digits-at (suc n) num buf m j zero e =
    let same_place : (buf + j == buf + n) ≡ true = ground (arith, e) in
    digits-outside n (num / 10) buf (update m (buf + n) (num % 10 + 48)) (buf + j)
      (inr (omega (arith, e)))
    ∙ ap (λ b. if b then num % 10 + 48 else m (buf + j)) same_place
    ∙ ap (λ x. x % 10 + 48) (sym (div-one num))
digits-at (suc n) num buf m j (suc k) e =
    digits-at n (num / 10) buf (update m (buf + n) (num % 10 + 48)) j k (omega (arith, e))
    ∙ ap (λ x. x % 10 + 48) (pow-div num k)

-- The digits from `j` on are read back, where the value of those before it is `num / 10 ^ k`.
pub read-digits :
    (n num buf : ℕ) (m : Bytes) (j k fuel : ℕ)
    → j + k ≡ n
    → k < fuel
    → num < 4294967296
    → ((i l : ℕ) → i + suc l ≡ n → m (buf + i) ≡ num / 10 ^ l % 10 + 48)
    → m (buf + n) ≡ 0
    → strtoul_loop fuel (buf + j) (num / 10 ^ k) m ≡ some (0, num)
unfolding strtoul_loop
read-digits n num buf m j k zero e enough word digits ends = elim enough [ ]
read-digits n num buf m j zero (suc fuel) e enough word digits ends =
    if-true _ _ (ap (λ c. (c == 0) || isspace c) (ap (λ i. m (buf + i)) (omega (arith, e)) ∙ ends))
    ∙ ap (λ x. some (0, x)) (div-one num)
read-digits n num buf m j (suc k) (suc fuel) e enough word digits ends =
    let y : ℕ = num / 10 ^ k in
    let c : ℕ = m (buf + j) in
    let digit : c ≡ y % 10 + 48 = digits j k e in
    let low = mod-lt y {m = 10} (omega arith) in
    if-false _ _ (not_end c digit low)
    ∙ if-false _ _ (is_digit c digit low)
    ∙ ap (λ r. strtoul_loop fuel (suc (buf + j)) r m) (next_value c digit)
    ∙ ap (λ p. strtoul_loop fuel p y m) (omega arith)
    ∙ read-digits n num buf m (suc j) k fuel (omega (arith, e)) (omega (arith, enough)) word digits
        ends
  where
    not_end :
        (c : ℕ)
        → c ≡ num / 10 ^ k % 10 + 48
        → num / 10 ^ k % 10 < 10
        → ((c == 0) || isspace c) ≡ false
    not_end c e low = ground (arith, e)

    is_digit :
        (c : ℕ)
        → c ≡ num / 10 ^ k % 10 + 48
        → num / 10 ^ k % 10 < 10
        → (ltb c 48 || ltb 57 c) ≡ false
    is_digit c e low = ground (arith, e, low)

    next_value :
        (c : ℕ)
        → c ≡ num / 10 ^ k % 10 + 48
        → (num / 10 ^ suc k * 10 + (c - 48)) % 4294967296 ≡ num / 10 ^ k
    next_value c e =
        ap (λ x. (x * 10 + (c - 48)) % 4294967296) (div-pow num k)
        ∙ ap (λ x. (num / 10 ^ k / 10 * 10 + x) % 4294967296) (omega (arith, e))
        ∙ ap (λ x. x % 4294967296) (div-add-mod' (num / 10 ^ k) 10)
        ∙ mod-eq_of_lt (omega (arith, word, div-le_self num (10 ^ k)))

fuel_left : (fuel x : ℕ) → 10 ≤ x → x < 10 ^ suc fuel → 0 < fuel
fuel_left zero x large enough = absurd (omega (arith, large, enough))
fuel_left (suc fuel) x large enough = omega arith

-- The number of digits, where the fuel is as much as there can be.
pub size_loop-size :
    (fuel e num : ℕ)
    → num < 4294967296
    → 0 < fuel
    → num / 10 ^ e < 10 ^ fuel
    → (d : ℕ) × (size_loop fuel num (10 ^ e) (suc e) ≡ some (suc d))
      × (num / 10 ^ suc d ≡ 0)
      × (d < e + fuel)
unfolding size_loop
size_loop-size zero e num word some_fuel enough = elim some_fuel [ ]
size_loop-size (suc fuel) e num word some_fuel enough = elim (Bool-cases (leb 10 (num / 10 ^ e))) [
  | inr last ↦ (
    e,
    if-false _ (some (suc e)) last,
    div-pow num e ∙ div-eq_of_lt {n = num / 10 ^ e} {m = 10} (ground (arith, last)),
    omega arith,
  )
  | inl more ↦
      let x : ℕ = num / 10 ^ e in
      let large : 10 ≤ x = ground (arith, more) in
      let no_wrap : 10 ^ e * 10 < 4294967296 =
        omega (arith, word, mul-le-mul_left (10 ^ e) large, mul-div-le num (10 ^ e)) in
      let fewer : x / 10 < 10 ^ fuel =
        (div-lt_iff_lt-mul {k = 10} {x = x} {y = 10 ^ fuel} (omega arith)).1
          (subst (λ y. x < y) (pow-suc 10 fuel) enough) in
      let (d, run, gone, bound) =
        size_loop-size fuel (suc e) num word (fuel_left fuel x large enough)
          (subst (λ y. y < 10 ^ fuel) (sym (div-pow num e)) fewer) in
      (
        d,
        if-true _ (some (suc e)) more
            ∙ ap (λ c. size_loop fuel num c (suc (suc e)))
                (mod-eq_of_lt no_wrap ∙ sym (pow-suc 10 e))
            ∙ run,
        gone,
        omega (arith, bound),
      )
]
