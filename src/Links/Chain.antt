-- ===== src/Links/Chain.antt =====
-- What the links of a doubly linked list say: a segment of nodes, linked both ways, and how it
-- survives writes.
use neftis.Base.{
  Bool, true, false, ◌≡◌, ◌∙◌, refl, sym, ap, ◌≢◌, inl, inr, Bool-cases, ==→eq, List, [], ◌∷◌, ◌++◌,
  ◌==◌, if◌then◌else◌, has, IsDistinct, arith,
}
use mathlib.Core.Bool.{false≢true}
use neftis.Links.{Ptr, null, Memory}

abbrev pub head_or : List Ptr → Ptr → Ptr
head_or [] d = d
head_or (x ∷ xs) d = x

abbrev pub last_or : Ptr → List Ptr → Ptr
last_or d [] = d
last_or d (x ∷ xs) = last_or x xs

-- The nodes `xs` are linked both ways; `before` stands in front of them and `after` behind them.
abbrev pub Chain : Memory → Ptr → List Ptr → Ptr → Type 0
Chain m before [] after = Unit {0}
Chain m before (x ∷ xs) after =
    (x ≢ null) × (m.prev x ≡ before) × (m.next x ≡ head_or xs after) × Chain m x xs after

-- A list whose ends are NULL, at its head.
pub record IsList (m : Memory) (list : Ptr) (xs : List Ptr) : Type 0 where
  pub starts : list ≡ head_or xs null
  pub links : Chain m null xs null
  pub distinct : IsDistinct xs

-- A ring, from its head round to its head.
pub record IsRing (m : Memory) (list : Ptr) (xs : List Ptr) : Type 0 where
  pub starts : list ≡ head_or xs null
  pub links : Chain m (last_or null xs) xs (head_or xs null)
  pub distinct : IsDistinct xs

-- A split of a chain in two.
module _ (m : Memory) where
  pub Chain-append :
      (b : Ptr) (xs ys : List Ptr) (s : Ptr)
      → Chain m b xs (head_or ys s)
      → Chain m (last_or b xs) ys s
      → Chain m b (xs ++ ys) s
  Chain-append b [] ys s c d = d
  Chain-append b (x ∷ []) ys s c d = (c.0, c.1, c.2, d)
  Chain-append b (x ∷ y ∷ xs) ys s c d = (c.0, c.1, c.2, Chain-append x (y ∷ xs) ys s c.3 d)

  pub Chain-front :
      (b : Ptr) (xs ys : List Ptr) (s : Ptr) → Chain m b (xs ++ ys) s → Chain m b xs (head_or ys s)
  Chain-front b [] ys s c = tt
  Chain-front b (x ∷ []) ys s c = (c.0, c.1, c.2, tt)
  Chain-front b (x ∷ y ∷ xs) ys s c = (c.0, c.1, c.2, Chain-front x (y ∷ xs) ys s c.3)

  pub Chain-back :
      (b : Ptr) (xs ys : List Ptr) (s : Ptr) → Chain m b (xs ++ ys) s → Chain m (last_or b xs) ys s
  Chain-back b [] ys s c = c
  Chain-back b (x ∷ xs) ys s c = Chain-back x xs ys s c.3

  -- The last node's successor is what stands behind the chain.
  pub next-last :
      (b x : Ptr) (xs : List Ptr) (s : Ptr) → Chain m b (x ∷ xs) s → m.next (last_or x xs) ≡ s
  next-last b x [] s c = c.2
  next-last b x (y ∷ xs) s c = next-last x y xs s c.3

  pub last-ne-null :
      (b x : Ptr) (xs : List Ptr) (s : Ptr) → Chain m b (x ∷ xs) s → last_or x xs ≢ null
  last-ne-null b x [] s c = c.0
  last-ne-null b x (y ∷ xs) s c = last-ne-null x y xs s c.3

pub has-last : (x : Ptr) (xs : List Ptr) → has (last_or x xs) (x ∷ xs) ≡ true
has-last x [] = ground arith
has-last x (y ∷ xs) = ground (arith, has-last y xs)

pub last-append : (b x : Ptr) (xs ys : List Ptr) → last_or b (xs ++ x ∷ ys) ≡ last_or x ys
last-append b x [] ys = refl
last-append b x (z ∷ xs) ys = last-append z x xs ys

pub head-append : (x : Ptr) (xs ys : List Ptr) (d : Ptr) → head_or (xs ++ x ∷ ys) d ≡ head_or xs x
head-append x [] ys d = refl
head-append x (z ∷ xs) ys d = refl

-- What two memories have in common where a chain lies: they agree on its links, but that the first
-- node's `prev` is `b` and the last node's `next` is `s` in the second.
pub record Relinked (m g : Memory) (b x : Ptr) (xs : List Ptr) (s : Ptr) : Type 0 where
  pub prevs : (a : Ptr) → has a (x ∷ xs) ≡ true → g.prev a ≡ (if a == x then b else m.prev a)
  pub nexts :
      (a : Ptr) → has a (x ∷ xs) ≡ true → g.next a ≡ (if a == last_or x xs then s else m.next a)

-- A chain survives where its inner links do, with new nodes in front and behind.
pub last-ne_of_not_has :
    (x y : Ptr) (xs : List Ptr) → has x (y ∷ xs) ≡ false → (x == last_or y xs) ≡ false
last-ne_of_not_has x y xs out = elim (Bool-cases (x == last_or y xs)) [
  | inl same ↦
      absurd (false≢true (sym out ∙ ap (λ a. has a (y ∷ xs)) (==→eq _ _ same) ∙ has-last y xs))
  | inr other ↦ other
]

if_other : (b : Bool) (p : Ptr) {q r : Ptr} → b ≡ false → q ≡ r → (if b then p else q) ≡ r
if_other b p e f = rw (e, f)

module _ (m g : Memory) where
  Relinked-tail :
      (b x y : Ptr) (xs : List Ptr) (s : Ptr)
      → Relinked m g b x (y ∷ xs) s
      → has x (y ∷ xs) ≡ false
      → m.prev y ≡ x
      → Relinked m g x y xs s
  Relinked-tail b x y xs s e out p = record {
    prevs = λ a i. ground (arith, e.prevs a);
    nexts = λ a i. ground (arith, e.nexts a);
  }

  pub Chain-relink :
      (b' b x : Ptr) (xs : List Ptr) (s s' : Ptr)
      → Relinked m g b' x xs s'
      → IsDistinct (x ∷ xs)
      → Chain m b (x ∷ xs) s
      → Chain g b' (x ∷ xs) s'
  Chain-relink b' b x [] s s' e d c =
      (c.0, ground (arith, e.prevs x), ground (arith, e.nexts x), tt)
  Chain-relink b' b x (y ∷ xs) s s' e d c = (
    c.0,
    ground (arith, e.prevs x),
    e.nexts x (ground arith) ∙ if_other _ _ (last-ne_of_not_has x y xs d.0) c.2,
    Chain-relink x x y xs s s' (Relinked-tail b' x y xs s' e d.0 c.3.1) d.1 c.3,
  )

  -- A chain survives where none of its links is written.
  pub Chain-frame :
      (b : Ptr) (xs : List Ptr) (s : Ptr)
      → ((a : Ptr) → has a xs ≡ true → g.prev a ≡ m.prev a)
      → ((a : Ptr) → has a xs ≡ true → g.next a ≡ m.next a)
      → Chain m b xs s
      → Chain g b xs s
  Chain-frame b [] s p n c = tt
  Chain-frame b (x ∷ xs) s p n c = (
    c.0,
    ground (arith, p x),
    ground (arith, n x),
    Chain-frame x xs s (λ a i. p a (ground arith)) (λ a i. n a (ground arith)) c.3,
  )
