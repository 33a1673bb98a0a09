-- ===== src/Vremap/Merging.antt =====
-- The merge of released pages with the free chunks (microkernel/vremap.c).
use native.Mathlib.Nat.{add_comm}
use neftis.Base.{
  ℕ, zero, suc, ◌+◌, ◌*◌, ◌%◌, ◌<◌, ◌≤◌, ◌≡◌, ◌∙◌, refl, sym, ap, inl, inr, ◌==◌, Bool-cases, List,
  [], ◌∷◌, length, arith, ==→eq,
}
use neftis.Vremap.{
  Chunk, end_of, rsorted_list_insert, Found, nothing, double_free, joined, keep, find_joined, Merge,
  not_merged, merged, fail, out_of_fuel, insert_again, merge_found, vremap_data_try_merge,
}
use neftis.Vremap.Cover.{
  inside, cover, pages_of, IsChunk, IsBelow, IsSound, end_of-add, inside-join, inside_self,
  cover-insert, pages_of-insert, insert-IsSound,
}

-- A chunk made larger by the pages, and the other chunks.
pub record Joined (address pages : ℕ) (cs : List Chunk) (found : Chunk) (rest : List Chunk)
    : Type 0 where
  pub covered :
      (a : ℕ)
      → inside a found.address found.pages + cover a rest ≡ inside a address pages + cover a cs
  pub counted : found.pages + pages_of rest ≡ pages + pages_of cs
  pub shorter : length cs ≡ suc (length rest)
  pub is_chunk : IsChunk found.address found.pages
  pub below : (n : ℕ) → IsBelow n cs → IsBelow n rest
  pub is_sound : IsSound rest

abbrev pub Joins : ℕ → ℕ → List Chunk → Found → Type 0
Joins address pages cs nothing = Unit {0}
Joins address pages cs double_free = ⊥
Joins address pages cs (joined found rest) = Joined address pages cs found rest

-- No address is free twice once the pages are free.
abbrev pub IsApart : ℕ → ℕ → List Chunk → Type 0
IsApart address pages cs = (a : ℕ) → inside a address pages + cover a cs ≤ 1

keep-Joins :
    (address pages : ℕ) (c : Chunk) (cs : List Chunk) (f : Found)
    → IsSound (c ∷ cs)
    → Joins address pages cs f
    → Joins address pages (c ∷ cs) (keep c f)
keep-Joins address pages c cs nothing s j = j
keep-Joins address pages c cs double_free s j = j
keep-Joins address pages c cs (joined found rest) s j = record {
  covered = λ a. omega (arith, j.covered a);
  counted = omega (arith, j.counted);
  shorter = ap suc j.shorter;
  is_chunk = j.is_chunk;
  below = λ n b. (b.0, j.below n b.1);
  is_sound = (s.0, j.below c.pages s.1, j.is_sound);
}

sum-word :
    (x p y q : ℕ) → IsChunk x p → IsChunk y q → x + p * 4096 ≡ y → (p + q) % 4294967296 ≡ p + q
sum-word x p y q h k e = omega (arith, h.1, k.1)

module _ (address pages : ℕ) (c : Chunk) (cs : List Chunk) (h : IsChunk address pages)
    (s : IsSound (c ∷ cs)) where
  -- The pages stand in front of the chunk, or behind it.
  front-Joined :
      address + pages * 4096 ≡ c.address
      → Joined address pages
          (c ∷ cs)
          (record { address = address; pages = (c.pages + pages) % 4294967296 })
          cs
  front-Joined e =
      let size =
        ap (λ n. n % 4294967296) (add_comm c.pages pages)
        ∙ sum-word address pages c.address c.pages h s.0 e in
      record {
        covered = λ a.
            omega
              (arith, ap (inside a address) size, inside-join a address pages c.address c.pages e);
        counted = omega (arith, size);
        shorter = refl;
        is_chunk = (omega (arith, size, h.0), omega (arith, size, e, s.0.1));
        below = λ n b. b.1;
        is_sound = s.2;
      }

  back-Joined :
      c.address + c.pages * 4096 ≡ address
      → Joined address pages
          (c ∷ cs)
          (record { address = c.address; pages = (c.pages + pages) % 4294967296 })
          cs
  back-Joined e =
      let size = sum-word c.address c.pages address pages s.0 h e in
      record {
        covered = λ a.
            omega (
              arith,
              ap (inside a c.address) size,
              inside-join a c.address c.pages address pages e,
            );
        counted = omega (arith, size);
        shorter = refl;
        is_chunk = (omega (arith, size, h.0), omega (arith, size, e, h.1));
        below = λ n b. b.1;
        is_sound = s.2;
      }

  -- A chunk with the address of the pages covers what they cover.
  not-twice : c.address ≡ address → IsApart address pages (c ∷ cs) → ⊥
  not-twice e apart =
      let covered = ap (λ x. inside address x c.pages) e ∙ inside_self address c.pages s.0.0 in
      let none_left : 1 ≤ 0 =
        omega (arith, covered, inside_self address pages h.0, apart address) in
      elim none_left [ ]

find_joined-Joins :
    (address pages : ℕ) (cs : List Chunk)
    → IsChunk address pages
    → IsSound cs
    → IsApart address pages cs
    → Joins address pages cs (find_joined address pages cs)
unfolding find_joined
find_joined-Joins address pages [] h s apart = tt
find_joined-Joins address pages (c ∷ cs) h s apart =
    elim (Bool-cases (end_of address pages == c.address)) [
      | inl front ↦ rw front (
          front-Joined address pages c cs h s
            (sym (end_of-add address pages h) ∙ ==→eq (end_of address pages) c.address front))
      | inr no_front ↦ elim (Bool-cases (end_of c.address c.pages == address)) [
        | inl back ↦
            rw (no_front, back)
              (back-Joined address pages c cs h s (
                sym (end_of-add c.address c.pages s.0)
                ∙ ==→eq (end_of c.address c.pages) address back))
        | inr no_back ↦ elim (Bool-cases (c.address == address)) [
          | inl twice ↦
              absurd (not-twice address pages c cs h s (==→eq c.address address twice) apart)
          | inr other ↦
              rw (no_front, no_back, other)
                (keep-Joins address pages c cs (find_joined address pages cs) s
                  (find_joined-Joins address pages cs h s.2 (λ a. omega (arith, apart a))))
        ]
      ]
    ]

-- The chunks with the pages among them.
pub record Merged (address pages : ℕ) (cs cs' : List Chunk) : Type 0 where
  pub covered : (a : ℕ) → cover a cs' ≡ inside a address pages + cover a cs
  pub counted : pages_of cs' ≡ pages + pages_of cs
  pub is_sound : IsSound cs'

abbrev pub Merges : ℕ → ℕ → List Chunk → Merge → Type 0
Merges address pages cs not_merged = Unit {0}
Merges address pages cs (merged cs') = Merged address pages cs cs'
Merges address pages cs fail = ⊥
Merges address pages cs out_of_fuel = ⊥

pub insert-Merged :
    (c : Chunk) (cs : List Chunk)
    → IsChunk c.address c.pages
    → IsSound cs
    → Merged c.address c.pages cs (rsorted_list_insert c cs)
insert-Merged c cs h s = record {
  covered = λ a. cover-insert a c cs;
  counted = pages_of-insert c cs;
  is_sound = insert-IsSound c cs h s;
}

Joined-Merged :
    (address pages : ℕ) (cs : List Chunk) (found : Chunk) (rest cs' : List Chunk)
    → Joined address pages cs found rest
    → Merged found.address found.pages rest cs'
    → Merged address pages cs cs'
Joined-Merged address pages cs found rest cs' j m = record {
  covered = λ a. m.covered a ∙ j.covered a;
  counted = m.counted ∙ j.counted;
  is_sound = m.is_sound;
}

insert_again-Merges :
    (address pages : ℕ) (cs : List Chunk) (found : Chunk) (rest : List Chunk) (r : Merge)
    → Joined address pages cs found rest
    → Merges found.address found.pages rest r
    → Merges address pages cs (insert_again found rest r)
insert_again-Merges address pages cs found rest not_merged j m =
    Joined-Merged address pages cs found rest (rsorted_list_insert found rest) j
      (insert-Merged found rest j.is_chunk j.is_sound)
insert_again-Merges address pages cs found rest (merged cs') j m =
    Joined-Merged address pages cs found rest cs' j m
insert_again-Merges address pages cs found rest fail j m = m
insert_again-Merges address pages cs found rest out_of_fuel j m = m

merge_found-Merges :
    (address pages : ℕ) (cs : List Chunk) (again : ℕ → ℕ → List Chunk → Merge) (f : Found)
    → Joins address pages cs f
    → IsApart address pages cs
    → ((x p : ℕ) (rest : List Chunk)
        → length cs ≡ suc (length rest)
        → IsChunk x p
        → IsSound rest
        → IsApart x p rest
        → Merges x p rest (again x p rest))
    → Merges address pages cs (merge_found again f)
merge_found-Merges address pages cs again nothing j apart goes_on = tt
merge_found-Merges address pages cs again double_free j apart goes_on = j
merge_found-Merges address pages cs again (joined found rest) j apart goes_on =
    insert_again-Merges address pages cs found rest (again found.address found.pages rest) j (
      goes_on found.address found.pages rest j.shorter j.is_chunk j.is_sound
        (λ a. omega (arith, j.covered a, apart a)))

-- Where the pages are not free, `vremap_data_try_merge` never sees a double free and ends, as each
-- round has a chunk less; if it merges then the chunks cover what they covered and the pages.
pub vremap_data_try_merge-Merges :
    (fuel address pages : ℕ) (cs : List Chunk)
    → length cs < fuel
    → IsChunk address pages
    → IsSound cs
    → IsApart address pages cs
    → Merges address pages cs (vremap_data_try_merge fuel address pages cs)
unfolding vremap_data_try_merge
vremap_data_try_merge-Merges zero address pages cs e h s apart = elim e [ ]
vremap_data_try_merge-Merges (suc fuel) address pages cs e h s apart =
    merge_found-Merges address pages cs (vremap_data_try_merge fuel) (find_joined address pages cs)
      (find_joined-Joins address pages cs h s apart) apart
      (λ x p rest shorter. vremap_data_try_merge-Merges fuel x p rest (omega (arith, e, shorter)))
