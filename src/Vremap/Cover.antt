-- ===== src/Vremap/Cover.antt =====
-- Which addresses the free chunks of microkernel/vremap.c cover.
use neftis.Base.{
  ℕ, ◌+◌, ◌*◌, ◌<◌, ◌≤◌, ◌&&◌, ◌≡◌, ◌∙◌, refl, ap, inl, inr, leb→le, leb, ltb, if◌then◌else◌,
  Bool-cases, List, [], ◌∷◌, arith,
}
use neftis.Vremap.{Chunk, end_of, rsorted_list_insert}

-- 1 where the address lies in the pages.
abbrev pub inside : ℕ → ℕ → ℕ → ℕ
inside a address pages = if leb address a && ltb a (address + pages * 4096) then 1 else 0

-- How many chunks cover an address.
abbrev pub cover : ℕ → List Chunk → ℕ
cover a [] = 0
cover a (c ∷ cs) = inside a c.address c.pages + cover a cs

-- How many pages the chunks have.
abbrev pub pages_of : List Chunk → ℕ
pages_of [] = 0
pages_of (c ∷ cs) = c.pages + pages_of cs

-- A chunk has pages, and they end below the last word.
abbrev pub IsChunk : ℕ → ℕ → Type 0
IsChunk address pages = (0 < pages) × (address + pages * 4096 < 4294967296)

abbrev pub IsBelow : ℕ → List Chunk → Type 0
IsBelow n [] = Unit {0}
IsBelow n (c ∷ cs) = (c.pages ≤ n) × IsBelow n cs

-- Chunks sorted by size, the largest first.
abbrev pub IsSound : List Chunk → Type 0
IsSound [] = Unit {0}
IsSound (c ∷ cs) = IsChunk c.address c.pages × IsBelow c.pages cs × IsSound cs

pub end_of-add :
    (address pages : ℕ) → IsChunk address pages → end_of address pages ≡ address + pages * 4096
end_of-add address pages h = omega (arith, h.1)

-- Pages side by side.
inside-add :
    (a address p q : ℕ)
    → inside a address (p + q) ≡ inside a address p + inside a (address + p * 4096) q
inside-add a address p q = ground arith

pub inside-join :
    (a x p y q : ℕ) → x + p * 4096 ≡ y → inside a x (p + q) ≡ inside a x p + inside a y q
inside-join a x p y q e = inside-add a x p q ∙ ap (λ z. inside a x p + inside a z q) e

pub inside_self : (x p : ℕ) → 0 < p → inside x x p ≡ 1
inside_self x p h = ground arith

pub IsBelow-mono : (m n : ℕ) (cs : List Chunk) → m ≤ n → IsBelow m cs → IsBelow n cs
IsBelow-mono m n [] h b = tt
IsBelow-mono m n (c ∷ cs) h b = (omega (arith, b.0), IsBelow-mono m n cs h b.1)

pub cover-insert :
    (a : ℕ) (c : Chunk) (cs : List Chunk)
    → cover a (rsorted_list_insert c cs) ≡ inside a c.address c.pages + cover a cs
unfolding rsorted_list_insert
cover-insert a c [] = refl
cover-insert a c (d ∷ ds) = elim (Bool-cases (leb d.pages c.pages)) [
  | inl smaller ↦ rw smaller refl
  | inr larger ↦ rw larger (omega (arith, cover-insert a c ds))
]

pub pages_of-insert :
    (c : Chunk) (cs : List Chunk) → pages_of (rsorted_list_insert c cs) ≡ c.pages + pages_of cs
unfolding rsorted_list_insert
pages_of-insert c [] = refl
pages_of-insert c (d ∷ ds) = elim (Bool-cases (leb d.pages c.pages)) [
  | inl smaller ↦ rw smaller refl
  | inr larger ↦ rw larger (omega (arith, pages_of-insert c ds))
]

IsBelow-insert :
    (n : ℕ) (c : Chunk) (cs : List Chunk)
    → c.pages ≤ n
    → IsBelow n cs
    → IsBelow n (rsorted_list_insert c cs)
unfolding rsorted_list_insert
IsBelow-insert n c [] h b = (h, tt)
IsBelow-insert n c (d ∷ ds) h b = elim (Bool-cases (leb d.pages c.pages)) [
  | inl smaller ↦ rw smaller (h, b)
  | inr larger ↦ rw larger (b.0, IsBelow-insert n c ds h b.1)
]

pub insert-IsSound :
    (c : Chunk) (cs : List Chunk)
    → IsChunk c.address c.pages
    → IsSound cs
    → IsSound (rsorted_list_insert c cs)
unfolding rsorted_list_insert
insert-IsSound c [] h s = (h, tt, tt)
insert-IsSound c (d ∷ ds) h s = elim (Bool-cases (leb d.pages c.pages)) [
  | inl smaller ↦ rw smaller (
    h,
    (
      leb→le d.pages c.pages smaller,
      IsBelow-mono d.pages c.pages ds (leb→le d.pages c.pages smaller) s.1,
    ),
    s,
  )
  | inr larger ↦
      rw larger (s.0, IsBelow-insert d.pages c ds (ground arith) s.1, insert-IsSound c ds h s.2)
]
