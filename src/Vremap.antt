-- ===== src/Vremap.antt =====
-- microkernel/vremap.c and microkernel/include/mm/vremap.h: the free pages of a remapping region, as
-- chunks sorted by size, the largest first. A list sorted in reverse (rsorted_list_* of
-- common/include/misc/list.h) is the list of its chunks, whose index is what their pages are. An
-- address is a word of 32 bits. Whether a chunk can be allocated is an argument.
mod Cover
mod Merging
mod Region
mod Tests
use neftis.Base.{
  ℕ, zero, suc, ◌+◌, ◌-◌, ◌*◌, ◌%◌, Bool, true, false, ◌==◌, leb, ltb, if◌then◌else◌, List, [], ◌∷◌,
  Option, none, some,
}

-- `struct vremap_free_chunk`
pub record Chunk : Type 0 where
  pub address : ℕ
  pub pages : ℕ

-- `struct vremap_data`
pub record VremapData : Type 0 where
  pub chunks : List Chunk
  pub base : ℕ
  pub pages_total : ℕ
  pub pages_busy : ℕ

-- `address + (pages << __PAGE_BITS)`
abbrev pub end_of : ℕ → ℕ → ℕ
end_of address pages = (address + pages * 4096 % 4294967296) % 4294967296

-- In front of the first chunk that is not larger.
unfoldable pub rsorted_list_insert : Chunk → List Chunk → List Chunk
rsorted_list_insert c [] = c ∷ []
rsorted_list_insert c (d ∷ ds) =
    if leb d.pages c.pages then c ∷ d ∷ ds else d ∷ rsorted_list_insert c ds

-- `vremap_data_new`, where both allocations succeed or not.
abbrev pub vremap_data_new : Bool → Bool → ℕ → ℕ → Option VremapData
vremap_data_new data_given chunk_given base pages =
    if data_given
    then (if chunk_given
        then some (record {
          chunks = record { address = base; pages = pages } ∷ [];
          base = base;
          pages_total = pages;
          pages_busy = 0;
        })
        else none)
    else none

-- What the loop of `vremap_data_try_merge` finds: nothing, a chunk with the address, or a chunk that
-- was made larger, and the chunks without it.
pub data Found : Type 0 where
  nothing : Found
  double_free : Found
  joined : Chunk → List Chunk → Found

abbrev pub keep : Chunk → Found → Found
keep c nothing = nothing
keep c double_free = double_free
keep c (joined found rest) = joined found (c ∷ rest)

unfoldable pub find_joined : ℕ → ℕ → List Chunk → Found
find_joined address pages [] = nothing
find_joined address pages (c ∷ cs) =
    let rest = find_joined address pages cs in
    if end_of address pages == c.address
    then joined (record { address = address; pages = (c.pages + pages) % 4294967296 }) cs
    else (if end_of c.address c.pages == address
        then joined (record { address = c.address; pages = (c.pages + pages) % 4294967296 }) cs
        else (if c.address == address then double_free else keep c rest))

-- `not_merged` is -1, `merged` is 0; `FAIL` stops the kernel.
pub data Merge : Type 0 where
  not_merged : Merge
  merged : List Chunk → Merge
  fail : Merge
  out_of_fuel : Merge

-- The chunk that was made larger is inserted again, or freed if it could be merged further.
abbrev pub insert_again : Chunk → List Chunk → Merge → Merge
insert_again found rest not_merged = merged (rsorted_list_insert found rest)
insert_again found rest (merged cs) = merged cs
insert_again found rest fail = fail
insert_again found rest out_of_fuel = out_of_fuel

-- After the search: the merge of what was found goes on by `again`.
abbrev pub merge_found : (ℕ → ℕ → List Chunk → Merge) → Found → Merge
merge_found again nothing = not_merged
merge_found again double_free = fail
merge_found again (joined found rest) =
    insert_again found rest (again found.address found.pages rest)

unfoldable pub vremap_data_try_merge : ℕ → ℕ → ℕ → List Chunk → Merge
vremap_data_try_merge zero address pages cs = out_of_fuel
vremap_data_try_merge (suc fuel) address pages cs =
    merge_found (vremap_data_try_merge fuel) (find_joined address pages cs)

-- What `vm_region_vremap_release` returns: 0 or -1, with the data; or the kernel stops.
pub data Release : Type 0 where
  released : VremapData → Release
  not_released : VremapData → Release
  stopped : Release
  no_fuel : Release

-- `pages_busy` is a word that wraps around.
abbrev pub release_merged : Bool → ℕ → ℕ → VremapData → Merge → Release
release_merged chunk_given virt pages data_of not_merged =
    if chunk_given
    then released (record data_of {
      chunks = rsorted_list_insert (record { address = virt; pages = pages }) data_of.chunks;
      pages_busy = (data_of.pages_busy + 4294967296 - pages) % 4294967296;
    })
    else not_released data_of
release_merged chunk_given virt pages data_of (merged cs) = released (record data_of {
  chunks = cs;
  pages_busy = (data_of.pages_busy + 4294967296 - pages) % 4294967296;
})
release_merged chunk_given virt pages data_of fail = stopped
release_merged chunk_given virt pages data_of out_of_fuel = no_fuel

unfoldable pub vm_region_vremap_release : ℕ → Bool → ℕ → ℕ → VremapData → Release
vm_region_vremap_release fuel chunk_given virt pages data_of =
    release_merged chunk_given virt pages data_of
      (vremap_data_try_merge fuel virt pages data_of.chunks)

-- The head, if it is large enough, and the other chunks.
abbrev pub vm_region_vremap_find : ℕ → List Chunk → Option (Chunk × List Chunk)
vm_region_vremap_find pages [] = none
vm_region_vremap_find pages (c ∷ cs) = if ltb c.pages pages then none else some (c, cs)

abbrev pub take_chunk : ℕ → VremapData → Option (Chunk × List Chunk) → Option ℕ × VremapData
take_chunk pages data_of none = (none, data_of)
take_chunk pages data_of (some (c, cs)) = (
  some c.address,
  record data_of {
    chunks =
        if c.pages == pages
        then cs
        else rsorted_list_insert
            (record { address = end_of c.address pages; pages = c.pages - pages }) cs;
    pages_busy = (data_of.pages_busy + pages) % 4294967296;
  },
)

-- `none` is the address -1.
abbrev pub vm_region_vremap_ensure : ℕ → VremapData → Option ℕ × VremapData
vm_region_vremap_ensure pages data_of =
    take_chunk pages data_of (vm_region_vremap_find pages data_of.chunks)
