-- ===== src/Object/Tests.antt =====
-- Runs of the objects and their references.
use mathlib.Core.Bool.{false≢true}
use neftis.Base.Run.{Returns}
use neftis.Base.{
  ◌+◌, ◌-◌, ◌≡◌, refl, true, false, inl, inr, Bool-cases, ◌==◌, if◌then◌else◌, List, [], ◌∷◌, has,
  length, arith,
}
use neftis.Object.{Ptr, Class, Objects, kernel_object_list_destroy}
use neftis.Object.Sound.{IsSound}
use neftis.Object.Destroy.{ListClosed, kernel_object_list_destroy-ListClosed}

abbrev class_of_bodies : Class
class_of_bodies = record { has_open = false; has_close = true; has_dtor = true }

abbrev two_lists : Ptr → List Ptr
two_lists q = if q == 64 then 1 ∷ 2 ∷ [] else (if q == 96 then 3 ∷ [] else [])

-- Two objects, one with two references.
abbrev objects : Objects
objects = record {
  refs = two_lists;
  count = λ q. length (two_lists q);
  ptr = λ q. q + 4096;
  owner = λ r. 5;
  object_of = λ r. if r == 3 then 96 else 64;
  element_of = λ r. r + 128;
  ref_of = λ e. e - 128;
  instances = 64 ∷ 96 ∷ [];
  class_count = 2;
  calls = [];
  freed = [];
}

objects-IsSound : IsSound objects
objects-IsSound = record {
  counted = λ o h. refl;
  distinct = λ o h. elim (Bool-cases (o == 64)) [
    | inl a ↦ rw a (refl, (refl, tt))
    | inr b ↦ elim (Bool-cases (o == 96)) [ inl d ↦ rw (b, d) (refl, tt) | inr e ↦ rw (b, e) tt ]
  ];
  belongs = λ o r h i. elim (Bool-cases (o == 64)) [
    | inl a ↦ (let among : has r (1 ∷ 2 ∷ []) ≡ true = rw a at i in ground arith)
    | inr b ↦ elim (Bool-cases (o == 96)) [
      | inl d ↦ (let among : has r (3 ∷ []) ≡ true = rw (b, d) at i in ground arith)
      | inr e ↦ absurd (false≢true (rw (b, e) at i))
    ]
  ];
  class_counted = refl;
  once = (refl, (refl, tt));
  not_null = refl;
}

list_destroy_example :
    Returns
      (λ u t. ListClosed (1 ∷ 3 ∷ 2 ∷ []) objects t)
      (kernel_object_list_destroy class_of_bodies (129 ∷ 131 ∷ 130 ∷ []) objects)
list_destroy_example =
    kernel_object_list_destroy-ListClosed class_of_bodies objects (129 ∷ 131 ∷ 130 ∷ [])
      objects-IsSound ((refl, refl), refl, ((refl, refl), refl, ((refl, refl), refl, tt)))
