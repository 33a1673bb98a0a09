-- ===== src/Links.antt =====
-- Memory as common/list.c sees it: a `struct list_head` at every address but NULL, and the
-- commands that read and write its fields. An assertion that fails, and an access through NULL, is
-- a fault; a loop runs on fuel.
pub mod Chain
pub mod Linear
pub mod Circular
pub mod Sorted
mod Tests
pub mod Splice
use neftis.Base.{ℕ, Bool, true, false, ◌==◌, if◌then◌else◌, not, ◌≡◌, ==-refl}

abbrev pub Ptr : Type 0
Ptr = ℕ

abbrev pub null : Ptr
null = 0

-- `struct list_head` and the `index` of `struct sorted_list_head`, field by field.
pub record Memory : Type 0 where
  pub next : Ptr → Ptr
  pub prev : Ptr → Ptr
  pub index : Ptr → ℕ

pub data Run (A : Type 0) : Type 0 where
  ok : A → Memory → Run A
  fault : Run A
  out_of_fuel : Run A

abbrev pub Cmd : Type 0 → Type 0
Cmd A = Memory → Run A

abbrev pub pure : {A : Type 0} → A → Cmd A
pure = ok

module _ {A B : Type 0} where
  abbrev pub and_then : Run A → (A → Cmd B) → Run B
  and_then (ok a m) k = k a m
  and_then fault k = fault
  and_then out_of_fuel k = out_of_fuel

  infixl 5 ◌>>=◌ ◌>>◌
  abbrev pub ◌>>=◌ : Cmd A → (A → Cmd B) → Cmd B
  c >>= k = λ m. and_then (c m) k

  abbrev pub ◌>>◌ : Cmd A → Cmd B → Cmd B
  c >> d = c >>= λ _. d

-- `ASSERT (cond)`
abbrev pub assert : Bool → Cmd (Unit {0})
assert true m = ok tt m
assert false m = fault

-- Nothing may be read or written through NULL.
abbrev pub not_null : Ptr → Bool
not_null p = not (p == null)

unfoldable pub get_next : Ptr → Cmd Ptr
get_next p = do assert (not_null p); λ m. ok (m.next p) m

unfoldable pub get_prev : Ptr → Cmd Ptr
get_prev p = do assert (not_null p); λ m. ok (m.prev p) m

unfoldable pub get_index : Ptr → Cmd ℕ
get_index p = do assert (not_null p); λ m. ok (m.index p) m

abbrev pub update : (Ptr → ℕ) → Ptr → ℕ → Ptr → ℕ
update f p v q = if q == p then v else f q

pub update_self : (f : Ptr → ℕ) (p v : ℕ) → update f p v p ≡ v
update_self f p v = rw (==-refl p)

pub update_other : (f : Ptr → ℕ) (p v q : ℕ) → (q == p) ≡ false → update f p v q ≡ f q
update_other f p v q h = rw h

pub update_past :
    (f : Ptr → ℕ) (p v e w q : ℕ) → (q == e) ≡ false → update (update f e w) p v q ≡ update f p v q
update_past f p v e w q h = rw h

unfoldable pub set_next : Ptr → Ptr → Cmd (Unit {0})
set_next p v = do assert (not_null p); λ m. ok tt (record m { next = update m.next p v })

unfoldable pub set_prev : Ptr → Ptr → Cmd (Unit {0})
set_prev p v = do assert (not_null p); λ m. ok tt (record m { prev = update m.prev p v })

unfoldable pub set_index : Ptr → ℕ → Cmd (Unit {0})
set_index p v = do assert (not_null p); λ m. ok tt (record m { index = update m.index p v })

-- A run that neither faults nor runs out of fuel, and ends in a state with the postcondition.
abbrev pub Returns : {A : Type 0} → (A → Memory → Type 0) → Run A → Type 0
Returns P (ok a m) = P a m
Returns P fault = ⊥
Returns P out_of_fuel = ⊥

pub Returns-mono :
    {A : Type 0} {P Q : A → Memory → Type 0} (r : Run A)
    → Returns P r
    → ((a : A) (m : Memory) → P a m → Q a m)
    → Returns Q r
Returns-mono (ok a m) p weaken = weaken a m p
Returns-mono fault p weaken = p
Returns-mono out_of_fuel p weaken = p
