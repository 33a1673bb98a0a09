-- ===== src/Base/Run.antt =====
-- Commands on a state, with the two ways they can end without a result: a fault, which is an
-- assertion that fails or an access through NULL, and a loop that has used up its fuel.
use mathlib.Core.Path.{◌≡◌, refl}
use mathlib.Core.Bool.{Bool, true, false}
use neftis.Base.Tests.{if◌then◌else◌}

pub data Run (S A : Type 0) : Type 0 where
  ok : A → S → Run S A
  fault : Run S A
  out_of_fuel : Run S A

abbrev pub Cmd : Type 0 → Type 0 → Type 0
Cmd S A = S → Run S A

module _ {S : Type 0} where
  abbrev pub pure : {A : Type 0} → A → Cmd S A
  pure = ok

  -- `ASSERT (cond)`
  abbrev pub assert : Bool → Cmd S (Unit {0})
  assert true s = ok tt s
  assert false s = fault

  -- Reads and writes of the state.
  abbrev pub gets : {A : Type 0} → (S → A) → Cmd S A
  gets f s = ok (f s) s

  abbrev pub modify : (S → S) → Cmd S (Unit {0})
  modify f s = ok tt (f s)

module _ {S A B : Type 0} where
  abbrev pub and_then : Run S A → (A → Cmd S B) → Run S B
  and_then (ok a s) k = k a s
  and_then fault k = fault
  and_then out_of_fuel k = out_of_fuel

  infixl 5 ◌>>=◌ ◌>>◌
  abbrev pub ◌>>=◌ : Cmd S A → (A → Cmd S B) → Cmd S B
  c >>= k = λ s. and_then (c s) k

  abbrev pub ◌>>◌ : Cmd S A → Cmd S B → Cmd S B
  c >> d = c >>= λ _. d

-- A run that ends in a result and a state with the postcondition.
abbrev pub Returns : {S A : Type 0} → (A → S → Type 0) → Run S A → Type 0
Returns P (ok a s) = P a s
Returns P fault = ⊥
Returns P out_of_fuel = ⊥

module _ {S A : Type 0} where
  pub Returns-mono :
      {P Q : A → S → Type 0} (r : Run S A)
      → Returns P r
      → ((a : A) (s : S) → P a s → Q a s)
      → Returns Q r
  Returns-mono (ok a s) p weaken = weaken a s p
  Returns-mono fault p weaken = p
  Returns-mono out_of_fuel p weaken = p

  pub Returns-bind :
      {B : Type 0} {P : A → S → Type 0} (Q : B → S → Type 0) (r : Run S A) (k : A → Cmd S B)
      → Returns P r
      → ((a : A) (s : S) → P a s → Returns Q (k a s))
      → Returns Q (and_then r k)
  Returns-bind Q (ok a s) k p next = next a s p
  Returns-bind Q fault k p next = p
  Returns-bind Q out_of_fuel k p next = p

  -- Under a test between two commands.
  pub if-Returns :
      (P : A → S → Type 0) (b : Bool) (c d : Cmd S A) (s : S)
      → (b ≡ true → Returns P (c s))
      → (b ≡ false → Returns P (d s))
      → Returns P ((if b then c else d) s)
  if-Returns P true c d s t f = t refl
  if-Returns P false c d s t f = f refl
