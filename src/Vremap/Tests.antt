-- ===== src/Vremap/Tests.antt =====
-- Runs of the remapping regions.
use neftis.Base.{◌≡◌, refl, true, [], ◌∷◌, arith}
use neftis.Vremap.{
  VremapData, released, find_joined, rsorted_list_insert, vremap_data_try_merge,
  vm_region_vremap_release, vm_region_vremap_ensure,
}
use neftis.Vremap.Region.{
  IsRegion, Releases, Ensures, vm_region_vremap_release-Releases, vm_region_vremap_ensure-Ensures,
}

-- Four pages between two free chunks are busy.
abbrev region : VremapData
region = record {
  chunks = record { address = 98304; pages = 8 } ∷ record { address = 65536; pages = 4 } ∷ [];
  base = 65536;
  pages_total = 16;
  pages_busy = 4;
}

region-IsRegion : IsRegion region
region-IsRegion = record {
  is_sound = ((omega arith, omega arith), (omega arith, tt), ((omega arith, omega arith), tt, tt));
  once = λ a. ground arith;
  counted = refl;
  is_word = omega arith;
}

-- They are merged with both.
release_test :
    vm_region_vremap_release 3 true 81920 4 region
    ≡ released (record {
      chunks = record { address = 65536; pages = 16 } ∷ [];
      base = 65536;
      pages_total = 16;
      pages_busy = 0;
    })
unfolding vm_region_vremap_release vremap_data_try_merge find_joined rsorted_list_insert
release_test = refl

vm_region_vremap_release_example :
    Releases true 81920 4 region (vm_region_vremap_release 3 true 81920 4 region)
vm_region_vremap_release_example =
    vm_region_vremap_release-Releases 3 true 81920 4 region region-IsRegion
      (omega arith, omega arith) (omega arith) (λ a. ground arith) (omega arith)

vm_region_vremap_ensure_example : Ensures 2 region (vm_region_vremap_ensure 2 region)
vm_region_vremap_ensure_example = vm_region_vremap_ensure-Ensures 2 region region-IsRegion
