-- ===== src/Object/Instance.antt =====
-- `__kernel_object_instance` of microkernel/object.c.
use neftis.Base.Run.{Returns}
use neftis.Base.{
  ℕ, ◌+◌, ◌-◌, ◌≡◌, ◌∙◌, refl, ap, true, false, inl, inr, Bool-cases, ◌==◌, ==-refl, write,
  has_head, [], ◌∷◌, none, some, has, arith,
}
use neftis.Object.{
  Ptr, null, Class, Objects, destroyed, call_if, kernel_object_create, kernel_object_open,
  kernel_object_destroy, kernel_object_instance,
}
use neftis.Object.Sound.{IsSound, kernel_object_create-IsSound, kernel_object_open-IsSound}

-- An instance whose reference cannot be allocated is destroyed: there are the instances that there were.
pub kernel_object_instance-fails :
    (c : Class) (s : Objects) (object data_of : Ptr) (who : ℕ)
    → (object == null) ≡ false
    → Returns
        (λ r t.
          (r ≡ null)
          × (t.instances ≡ s.instances)
          × (t.class_count ≡ s.class_count)
          × (t.calls ≡ call_if c.has_dtor (destroyed data_of) s.calls)
          × (t.freed ≡ object ∷ s.freed))
        (kernel_object_instance c (some object) none data_of who s)
unfolding kernel_object_instance kernel_object_destroy
kernel_object_instance-fails c s object data_of who real =
    let some_instance : (s.class_count + 1 == 0) ≡ false = ground arith in
    let same : s.class_count + 1 - 1 ≡ s.class_count = omega arith in
    rw (real, some_instance, ==-refl object) (refl, refl, same, refl, refl)

-- What `__kernel_object_create` leaves.
abbrev with_object : Objects → Ptr → Ptr → Objects
with_object s new data_of = record s {
  refs = write s.refs new [];
  count = write s.count new 0;
  ptr = write s.ptr new data_of;
  instances = new ∷ s.instances;
  class_count = s.class_count + 1;
}

-- An instance with a reference: sound objects, the new one with this reference only.
pub kernel_object_instance-IsSound :
    (c : Class) (s : Objects) (object ref data_of : Ptr) (who : ℕ)
    → IsSound s
    → has object s.instances ≡ false
    → (object == null) ≡ false
    → (ref == null) ≡ false
    → ((q : Ptr) → has q s.instances ≡ true → has ref (s.refs q) ≡ false)
    → Returns
        (λ r t. (r ≡ ref) × IsSound t × (t.refs object ≡ ref ∷ []))
        (kernel_object_instance c (some object) (some ref) data_of who s)
unfolding kernel_object_instance kernel_object_create kernel_object_open
kernel_object_instance-IsSound c s object ref data_of who is out real real_ref fresh =
    let created : (object ≡ object)
        × IsSound (with_object s object data_of)
        × (write s.refs object [] object ≡ []) =
      kernel_object_create-IsSound s object data_of is out real in
    let opened =
      kernel_object_open-IsSound c (with_object s object data_of) ref object who created.1
        (has_head object s.instances)
        (λ q live. elim (Bool-cases (q == object)) [
          | inl same ↦ rw same refl
          | inr other ↦ rw other (fresh q (ground arith))
        ]) in
    rw (real, real_ref) (refl, opened.1, opened.2 ∙ ap (λ xs. ref ∷ xs) created.2)
