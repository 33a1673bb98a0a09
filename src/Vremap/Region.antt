-- ===== src/Vremap/Region.antt =====
-- Taking pages of a remapping region and giving them back (microkernel/vremap.c).
use mathlib.Core.Path.{subst}
use neftis.Base.{
  ℕ, ◌+◌, ◌-◌, ◌*◌, ◌%◌, ◌<◌, ◌≤◌, ◌≡◌, ◌∙◌, refl, sym, ap, true, false, Bool, inl, inr, ◌==◌, ltb,
  Bool-cases, List, [], ◌∷◌, length, Option, none, some, arith, ==→eq,
}
use neftis.Vremap.{
  Chunk, VremapData, vremap_data_new, end_of, rsorted_list_insert, Merge, not_merged, merged, fail,
  out_of_fuel, vremap_data_try_merge, Release, released, not_released, stopped, no_fuel,
  release_merged, vm_region_vremap_release, vm_region_vremap_find, take_chunk,
  vm_region_vremap_ensure,
}
use neftis.Vremap.Cover.{inside, cover, pages_of, IsChunk, IsBelow, IsSound, inside-join}
use neftis.Vremap.Merging.{IsApart, Merged, Merges, insert-Merged, vremap_data_try_merge-Merges}

-- The region: sound chunks, no address free twice, and every page is free or busy.
pub record IsRegion (v : VremapData) : Type 0 where
  pub is_sound : IsSound v.chunks
  pub once : (a : ℕ) → cover a v.chunks ≤ 1
  pub counted : v.pages_busy + pages_of v.chunks ≡ v.pages_total
  pub is_word : v.pages_total < 4294967296

-- A new region, where there is one.
abbrev IsNew : Option VremapData → Type 0
IsNew none = ⊥
IsNew (some v) = IsRegion v

-- A new region has all its pages free.
pub vremap_data_new-IsNew :
    (base pages : ℕ) → IsChunk base pages → IsNew (vremap_data_new true true base pages)
vremap_data_new-IsNew base pages h = record {
  is_sound = (h, tt, tt);
  once = λ a. ground arith;
  counted = omega arith;
  is_word = omega (arith, h.1);
}

-- From `v` to `w` the pages have become free.
pub record Frees (address pages : ℕ) (v w : VremapData) : Type 0 where
  pub covered : (a : ℕ) → cover a w.chunks ≡ inside a address pages + cover a v.chunks
  pub busy : w.pages_busy + pages ≡ v.pages_busy
  pub same_total : w.pages_total ≡ v.pages_total
  pub same_base : w.base ≡ v.base

abbrev pub Releases : Bool → ℕ → ℕ → VremapData → Release → Type 0
Releases chunk_given virt pages v (released w) = IsRegion w × Frees virt pages v w
Releases chunk_given virt pages v (not_released w) = (chunk_given ≡ false) × (w ≡ v)
Releases chunk_given virt pages v stopped = ⊥
Releases chunk_given virt pages v no_fuel = ⊥

module _ (virt pages : ℕ) (v : VremapData) (is : IsRegion v) (h : IsChunk virt pages)
    (taken : pages ≤ v.pages_busy) (apart : IsApart virt pages v.chunks) where
  Merged-Releases :
      (cs : List Chunk)
      → Merged virt pages v.chunks cs
      → (let w : VremapData = record v {
        chunks = cs;
        pages_busy = (v.pages_busy + 4294967296 - pages) % 4294967296;
      } in
          IsRegion w × Frees virt pages v w)
  Merged-Releases cs m =
      let busy : (v.pages_busy + 4294967296 - pages) % 4294967296 + pages ≡ v.pages_busy =
        omega (arith, is.counted, is.is_word, taken) in
      (
        record {
          is_sound = m.is_sound;
          once = λ a. omega (arith, m.covered a, apart a);
          counted = omega (arith, busy, m.counted, is.counted);
          is_word = is.is_word;
        },
        record { covered = m.covered; busy = busy; same_total = refl; same_base = refl },
      )

  release_merged-Releases :
      (given : Bool) (r : Merge)
      → Merges virt pages v.chunks r
      → Releases given virt pages v (release_merged given virt pages v r)
  release_merged-Releases true not_merged m =
      Merged-Releases (rsorted_list_insert (record { address = virt; pages = pages }) v.chunks)
        (insert-Merged (record { address = virt; pages = pages }) v.chunks h is.is_sound)
  release_merged-Releases false not_merged m = (refl, refl)
  release_merged-Releases given (merged cs) m = Merged-Releases cs m
  release_merged-Releases given fail m = m
  release_merged-Releases given out_of_fuel m = m

-- Pages that are busy are released: they are free afterwards, beside what was free, no address is
-- free twice, the chunks stay sorted and the counts of pages right, however many chunks are merged.
-- The release of such pages is never taken for a double free, and ends. It fails only where no chunk can
-- be allocated, and then changes nothing.
pub vm_region_vremap_release-Releases :
    (fuel : ℕ) (given : Bool) (virt pages : ℕ) (v : VremapData)
    → IsRegion v
    → IsChunk virt pages
    → pages ≤ v.pages_busy
    → IsApart virt pages v.chunks
    → length v.chunks < fuel
    → Releases given virt pages v (vm_region_vremap_release fuel given virt pages v)
unfolding vm_region_vremap_release
vm_region_vremap_release-Releases fuel given virt pages v is h taken apart enough =
    release_merged-Releases virt pages v is h taken apart given
      (vremap_data_try_merge fuel virt pages v.chunks)
      (vremap_data_try_merge-Merges fuel virt pages v.chunks enough h is.is_sound apart)

-- Every chunk has fewer pages.
abbrev pub IsShort : ℕ → List Chunk → Type 0
IsShort n [] = Unit {0}
IsShort n (c ∷ cs) = (c.pages < n) × IsShort n cs

IsBelow-IsShort : (m n : ℕ) (cs : List Chunk) → m < n → IsBelow m cs → IsShort n cs
IsBelow-IsShort m n [] h b = tt
IsBelow-IsShort m n (c ∷ cs) h b = (omega (arith, b.0, h), IsBelow-IsShort m n cs h b.1)

abbrev pub Ensures : ℕ → VremapData → Option ℕ × VremapData → Type 0
Ensures pages v (none, w) = IsShort pages v.chunks × (w ≡ v)
Ensures pages v (some address, w) = IsRegion w × Frees address pages w v

module _ (pages : ℕ) (v : VremapData) (is : IsRegion v) (c : Chunk) (cs : List Chunk)
    (e : v.chunks ≡ c ∷ cs) where
  rest-Ensures :
      (rest : List Chunk)
      → IsSound rest
      → ((a : ℕ) → inside a c.address pages + cover a rest ≡ cover a (c ∷ cs))
      → pages + pages_of rest ≡ pages_of (c ∷ cs)
      → Ensures pages v (
        some c.address,
        record v { chunks = rest; pages_busy = (v.pages_busy + pages) % 4294967296 },
      )
  rest-Ensures rest s covered counted =
      let all : pages_of v.chunks ≡ pages_of (c ∷ cs) = ap pages_of e in
      let busy : v.pages_busy + pages ≡ (v.pages_busy + pages) % 4294967296 =
        omega (arith, is.counted, is.is_word, counted, all) in
      let same : (a : ℕ) → cover a v.chunks ≡ cover a (c ∷ cs) = λ a. ap (cover a) e in
      (
        record {
          is_sound = s;
          once = λ a. omega (arith, is.once a, same a, covered a);
          counted = omega (arith, busy, is.counted, counted, all);
          is_word = is.is_word;
        },
        record {
          covered = λ a. same a ∙ sym (covered a);
          busy = busy;
          same_total = refl;
          same_base = refl;
        },
      )

  take_chunk-Ensures : pages ≤ c.pages → Ensures pages v (take_chunk pages v (some (c, cs)))
  take_chunk-Ensures h =
      let s : IsSound (c ∷ cs) = subst IsSound e is.is_sound in
      elim (Bool-cases (c.pages == pages)) [
        | inl all ↦
            let same : c.pages ≡ pages = ==→eq c.pages pages all in
            rw all (
              rest-Ensures cs s.2 (λ a. omega (arith, ap (inside a c.address) same))
                (omega (arith, same)))
        | inr part ↦ rw part (part-Ensures s (ground arith))
      ]
    where
      part-Ensures :
          IsSound (c ∷ cs)
          → pages < c.pages
          → Ensures pages v (
            some c.address,
            record v {
              chunks =
                  rsorted_list_insert
                    (record { address = end_of c.address pages; pages = c.pages - pages })
                    cs;
              pages_busy = (v.pages_busy + pages) % 4294967296;
            },
          )
      part-Ensures s less =
          let at : end_of c.address pages ≡ c.address + pages * 4096 = omega (arith, s.0.1, less) in
          let sum : pages + (c.pages - pages) ≡ c.pages = omega (arith, less) in
          let d : Chunk = record { address = end_of c.address pages; pages = c.pages - pages } in
          let left = insert-Merged d cs (omega (arith, less), omega (arith, at, s.0.1, less)) s.2 in
          rest-Ensures (rsorted_list_insert d cs) left.is_sound
            (λ a. omega (
              arith,
              left.covered a,
              inside-join a c.address pages (end_of c.address pages) (c.pages - pages) (sym at),
              ap (inside a c.address) sum,
            ))
            (omega (arith, left.counted, sum))

ensure-at :
    (pages : ℕ) (v : VremapData) (chunks : List Chunk)
    → IsRegion v
    → v.chunks ≡ chunks
    → Ensures pages v (take_chunk pages v (vm_region_vremap_find pages chunks))
ensure-at pages v [] is e = (subst (IsShort pages) (sym e) tt, refl)
ensure-at pages v (c ∷ cs) is e = elim (Bool-cases (ltb c.pages pages)) [
  | inl short ↦
      let s : IsSound (c ∷ cs) = subst IsSound e is.is_sound in
      let less : c.pages < pages = ground arith in
      rw short
        (subst (IsShort pages) (sym e) (less, IsBelow-IsShort c.pages pages cs less s.1), refl)
  | inr enough ↦ rw enough (take_chunk-Ensures pages v is c cs e (ground arith))
]

-- Pages are taken where some chunk has as many: they were free, they are busy afterwards, what else was
-- free stays free, the chunks stay sorted and the counts of pages right. The call fails, and changes
-- nothing, only where every chunk is too small: the first one is the largest.
pub vm_region_vremap_ensure-Ensures :
    (pages : ℕ) (v : VremapData) → IsRegion v → Ensures pages v (vm_region_vremap_ensure pages v)
vm_region_vremap_ensure-Ensures pages v is = ensure-at pages v v.chunks is refl
