-- ===== src/Object/Sound.antt =====
-- The well formed objects of microkernel/object.c, and what keeps them so.
use mathlib.Core.Bool.{false≢true}
use neftis.Base.Run.{Returns}
use neftis.Base.{
  some, ℕ, suc, ◌≡◌, ◌∙◌, refl, sym, ap, true, false, inl, inr, Bool-cases, ◌==◌, ==→eq, List, [],
  ◌∷◌, has, IsDistinct, erase, erase-IsDistinct, has-erase, length, write_self, arith,
}
use neftis.Object.{
  kernel_object_create, kernel_object_open, Ptr, null, Class, Objects, without_object, without_ref,
}

-- Every instance counts its references, which are different and refer to it.
pub record IsSound (s : Objects) : Type 0 where
  pub counted : (o : Ptr) → has o s.instances ≡ true → s.count o ≡ length (s.refs o)
  pub distinct : (o : Ptr) → has o s.instances ≡ true → IsDistinct (s.refs o)
  pub belongs : (o r : Ptr) → has o s.instances ≡ true → has r (s.refs o) ≡ true → s.object_of r ≡ o
  pub class_counted : s.class_count ≡ length s.instances
  pub once : IsDistinct s.instances
  pub not_null : has null s.instances ≡ false

pub length-erase : (a : ℕ) (xs : List ℕ) → has a xs ≡ true → length xs ≡ suc (length (erase a xs))
length-erase a [] h = absurd (false≢true h)
length-erase a (x ∷ xs) h = ground (arith, length-erase a xs)

pub has-of_erase : (a b : ℕ) (xs : List ℕ) → has a (erase b xs) ≡ true → has a xs ≡ true
has-of_erase a b [] h = absurd (false≢true h)
has-of_erase a b (x ∷ xs) h = ground (arith, has-of_erase a b xs)

module _ (c : Class) (s : Objects) (is : IsSound s) where
  pub without_object-IsSound : (o : Ptr) → has o s.instances ≡ true → IsSound (without_object c o s)
  without_object-IsSound o live = record {
    counted = λ q h. is.counted q (has-of_erase q o s.instances h);
    distinct = λ q h. is.distinct q (has-of_erase q o s.instances h);
    belongs = λ q r h. is.belongs q r (has-of_erase q o s.instances h);
    class_counted = omega (arith, is.class_counted, length-erase o s.instances live);
    once = erase-IsDistinct o s.instances is.once;
    not_null = has-erase null o s.instances is.not_null;
  }

  pub without_ref-IsSound :
      (o r : Ptr)
      → has o s.instances ≡ true
      → has r (s.refs o) ≡ true
      → IsSound (without_ref c r o s)
  without_ref-IsSound o r live among = record {
    counted = λ q h. elim (Bool-cases (q == o)) [
      | inl same ↦ rw same (omega (arith, is.counted o live, length-erase r (s.refs o) among))
      | inr other ↦ rw other (is.counted q h)
    ];
    distinct = λ q h. elim (Bool-cases (q == o)) [
      | inl same ↦ rw same (erase-IsDistinct r (s.refs o) (is.distinct o live))
      | inr other ↦ rw other (is.distinct q h)
    ];
    belongs = λ q r' h i. elim (Bool-cases (q == o)) [
      | inl same ↦
          is.belongs o r' live (has-of_erase r' r (s.refs o) (rw same at i)) ∙ sym (==→eq q o same)
      | inr other ↦ is.belongs q r' h (rw other at i)
    ];
    class_counted = is.class_counted;
    once = is.once;
    not_null = is.not_null;
  }

-- A new object at an address that no instance has.
pub kernel_object_create-IsSound :
    (s : Objects) (new data_of : Ptr)
    → IsSound s
    → has new s.instances ≡ false
    → (new == null) ≡ false
    → Returns
        (λ o t. (o ≡ new) × IsSound t × (t.refs new ≡ []))
        (kernel_object_create (some new) data_of s)
unfolding kernel_object_create
kernel_object_create-IsSound s new data_of is out real = (
  refl,
  record {
    counted = λ q h. elim (Bool-cases (q == new)) [
      | inl same ↦ rw same refl
      | inr other ↦ rw other (is.counted q (ground arith))
    ];
    distinct = λ q h. elim (Bool-cases (q == new)) [
      | inl same ↦ rw same tt
      | inr other ↦ rw other (is.distinct q (ground arith))
    ];
    belongs = λ q r h i. elim (Bool-cases (q == new)) [
      | inl same ↦ absurd (false≢true (rw same at i))
      | inr other ↦ is.belongs q r (ground arith) (rw other at i)
    ];
    class_counted = omega (arith, is.class_counted);
    once = (out, is.once);
    not_null = ground (arith, is.not_null);
  },
  write_self s.refs new [],
)

-- A new reference, at an address that no reference of an instance has.
pub kernel_object_open-IsSound :
    (c : Class) (s : Objects) (new object : Ptr) (who : ℕ)
    → IsSound s
    → has object s.instances ≡ true
    → ((q : Ptr) → has q s.instances ≡ true → has new (s.refs q) ≡ false)
    → Returns
        (λ r t. (r ≡ new) × IsSound t × (t.refs object ≡ new ∷ s.refs object))
        (kernel_object_open c (some new) object who s)
unfolding kernel_object_open
kernel_object_open-IsSound c s new object who is live out = (
  refl,
  record {
    counted = λ q h. elim (Bool-cases (q == object)) [
      | inl same ↦ rw same (omega (arith, is.counted object live))
      | inr other ↦ rw other (is.counted q h)
    ];
    distinct = λ q h. elim (Bool-cases (q == object)) [
      | inl same ↦ rw same (out object live, is.distinct object live)
      | inr other ↦ rw other (is.distinct q h)
    ];
    belongs = λ q r h i. elim (Bool-cases (q == object)) [
      | inl same ↦
          let e : q ≡ object = ==→eq q object same in
          let among : has r (new ∷ s.refs object) ≡ true = rw same at i in
          elim (Bool-cases (r == new)) [
            | inl fresh ↦ rw fresh (sym e)
            | inr old ↦ rw old (is.belongs object r live (ground arith) ∙ sym e)
          ]
      | inr other ↦
          let among : has r (s.refs q) ≡ true = rw other at i in
          elim (Bool-cases (r == new)) [
            | inl fresh ↦ absurd (
                false≢true
                  (sym (out q h) ∙ ap (λ x. has x (s.refs q)) (sym (==→eq r new fresh)) ∙ among))
            | inr old ↦ rw old (is.belongs q r h among)
          ]
    ];
    class_counted = is.class_counted;
    once = is.once;
    not_null = is.not_null;
  },
  write_self s.refs object (new ∷ s.refs object),
)
