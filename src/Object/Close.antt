-- ===== src/Object/Close.antt =====
-- What `__kernel_object_ref_close` of microkernel/object.c does.
use mathlib.Core.Bool.{false≢true}
use neftis.Base.Run.{ok, Returns}
use neftis.Base.{
  ℕ, suc, ◌-◌, ◌≡◌, ◌∙◌, refl, sym, ap, true, false, not, ◌&&◌, inl, inr, Bool-cases, ◌==◌, ==→eq,
  ==-refl, if◌then◌else◌, List, [], ◌∷◌, has, ne_of_has, ◌≤◌, ◌<◌, erase, erase-of_not_has,
  has-erase_other, has-erase_self, length, write_self, arith,
}
use neftis.Object.{
  Ptr, null, Class, Objects, closed, destroyed, call_if, is_empty, is_first, without_object,
  without_ref, drop_ref, kernel_object_destroy, destroy_unused, kernel_object_ref_close,
}
use neftis.Object.Sound.{
  IsSound, length-erase, has-of_erase, without_object-IsSound, without_ref-IsSound,
}

-- A reference of an instance.
abbrev pub IsRef : Objects → Ptr → Type 0
IsRef s r = (has (s.object_of r) s.instances ≡ true) × (has r (s.refs (s.object_of r)) ≡ true)

abbrev pub erase_all : List Ptr → List Ptr → List Ptr
erase_all [] xs = xs
erase_all (r ∷ rs) xs = erase_all rs (erase r xs)

-- From `s` to `t` the references were closed. The objects that had references live on as long as
-- they have one.
pub record Closes (rs : List Ptr) (s t : Objects) : Type 0 where
  pub lived : (q : Ptr) → has q t.instances ≡ true → has q s.instances ≡ true
  pub remain : (q : Ptr) → has q t.instances ≡ true → t.refs q ≡ erase_all rs (s.refs q)
  pub held :
      (q : Ptr)
      → has q t.instances ≡ true
      → is_empty (s.refs q) ≡ false
      → is_empty (t.refs q) ≡ false
  pub gone :
      (q : Ptr)
      → has q s.instances ≡ true
      → has q t.instances ≡ false
      → erase_all rs (s.refs q) ≡ []
  pub same_objects : t.object_of ≡ s.object_of
  pub same_elements : t.ref_of ≡ s.ref_of

single : (r : ℕ) (xs : List ℕ) → has r xs ≡ true → length xs ≡ 1 → xs ≡ r ∷ []
single r [] h e = absurd (false≢true h)
single r (x ∷ []) h e = ap (λ y. y ∷ []) (sym (==→eq r x (ground arith)))
single r (x ∷ y ∷ xs) h e = let no : 1 ≤ 0 = omega (arith, e) in elim no [ ]

pub not-is_empty : (r : ℕ) (xs : List ℕ) → has r xs ≡ true → is_empty xs ≡ false
not-is_empty r [] h = absurd (false≢true h)
not-is_empty r (x ∷ xs) h = refl

length-is_empty : (xs : List ℕ) → 0 < length xs → is_empty xs ≡ false
length-is_empty [] h = elim h [ ]
length-is_empty (x ∷ xs) h = refl

drop_ref-without_ref :
    (c : Class) (r o : Ptr) (s : Objects)
    → is_empty (s.refs o) ≡ false
    → (s.count o - 1 == 0 && not (is_first r (s.refs o))) ≡ false
    → drop_ref c r o s ≡ ok tt (without_ref c r o s)
unfolding drop_ref
drop_ref-without_ref c r o s some_ref head = rw (some_ref, head) refl

destroy_unused-destroys :
    (c : Class) (o : Ptr) (s : Objects)
    → (s.count o == 0) ≡ true
    → is_empty (s.refs o) ≡ true
    → (s.class_count == 0) ≡ false
    → destroy_unused c o s ≡ ok tt (without_object c o s)
unfolding destroy_unused kernel_object_destroy
destroy_unused-destroys c o s none_left empty some_instance =
    rw (none_left, empty, some_instance) refl

destroy_unused-keeps :
    (c : Class) (o : Ptr) (s : Objects)
    → (s.count o == 0) ≡ false
    → is_empty (s.refs o) ≡ false
    → destroy_unused c o s ≡ ok tt s
unfolding destroy_unused
destroy_unused-keeps c o s some_left filled = rw (some_left, filled) refl

module _ (c : Class) (s : Objects) (is : IsSound s) (r : Ptr) (ref : IsRef s r) where
  abbrev object : Ptr
  object = s.object_of r

  abbrev after : Objects
  after = without_ref c r object s

  counted : s.count object ≡ length (s.refs object)
  counted = is.counted object ref.0

  one_less : length (s.refs object) ≡ suc (length (erase r (s.refs object)))
  one_less = length-erase r (s.refs object) ref.1

  count_after : after.count object ≡ s.count object - 1
  count_after = write_self s.count object (s.count object - 1)

  refs_after : after.refs object ≡ erase r (s.refs object)
  refs_after = write_self s.refs object (erase r (s.refs object))

  not_null : (object == null) ≡ false
  not_null = ne_of_has object null s.instances ref.0 is.not_null

  -- The last reference.
  ref_close-last :
      s.count object ≡ 1 → kernel_object_ref_close c r s ≡ ok tt (without_object c object after)
  unfolding kernel_object_ref_close
  ref_close-last e =
      let one : s.refs object ≡ r ∷ [] = single r (s.refs object) ref.1 (sym counted ∙ e) in
      let instances = length-erase object s.instances ref.0 in
      let dropped : drop_ref c r object s ≡ ok tt after =
        drop_ref-without_ref c r object s (ap is_empty one) (rw (one, ==-refl r) (ground arith)) in
      let last : destroy_unused c object after ≡ ok tt (without_object c object after) =
        destroy_unused-destroys c object after
          (ap (λ n. n == 0) count_after ∙ ap (λ n. n - 1 == 0) e)
          (ap is_empty refs_after ∙ rw (one, ==-refl r) refl)
          (ground (arith, is.class_counted, instances)) in
      let some_left : (s.count object == 0) ≡ false = ap (λ n. n == 0) e in
      rw (not_null, some_left, dropped) last

  -- One of several references.
  ref_close-shared : (s.count object == 1) ≡ false → kernel_object_ref_close c r s ≡ ok tt after
  unfolding kernel_object_ref_close
  ref_close-shared e =
      let several : 0 < s.count object - 1 = ground (arith, counted, one_less) in
      let some_left : (s.count object - 1 == 0) ≡ false = ground (arith, several) in
      let dropped : drop_ref c r object s ≡ ok tt after =
        drop_ref-without_ref c r object s (not-is_empty r (s.refs object) ref.1)
          (rw some_left refl) in
      let kept : destroy_unused c object after ≡ ok tt after =
        destroy_unused-keeps c object after (ap (λ n. n == 0) count_after ∙ some_left) (
          ap is_empty refs_after
          ∙ length-is_empty (erase r (s.refs object))
              (omega (arith, several, counted, one_less))) in
      let more : (s.count object == 0) ≡ false = ground (arith, several) in
      rw (not_null, more, dropped) kept

  not_of_other :
      (q : Ptr) → has q s.instances ≡ true → (q == object) ≡ false → has r (s.refs q) ≡ false
  not_of_other q h other = elim (Bool-cases (has r (s.refs q))) [
    | inl among ↦
        absurd (false≢true (sym other ∙ ap (λ o. q == o) (is.belongs q r h among) ∙ ==-refl q))
    | inr absent ↦ absent
  ]

  -- What is left of the references of each object.
  shared-Closes : (s.count object == 1) ≡ false → Closes (r ∷ []) s after
  shared-Closes e = record {
    lived = λ q h. h;
    remain = λ q h. elim (Bool-cases (q == object)) [
      | inl same ↦ rw same (ap (λ p. erase r (s.refs p)) (sym (==→eq q object same)))
      | inr other ↦ rw other (sym (erase-of_not_has r (s.refs q) (not_of_other q h other)))
    ];
    held = λ q h filled. elim (Bool-cases (q == object)) [
      | inl same ↦
          rw same (length-is_empty (erase r (s.refs object)) (ground (arith, counted, one_less)))
      | inr other ↦ rw other filled
    ];
    gone = λ q live dead. absurd (false≢true (sym dead ∙ live));
    same_objects = refl;
    same_elements = refl;
  }

  last-Closes : s.count object ≡ 1 → Closes (r ∷ []) s (without_object c object after)
  last-Closes e = record {
    lived = λ q h. has-of_erase q object s.instances h;
    remain = λ q h.
        let other = alive q h in
        rw other (
          sym (
            erase-of_not_has r (s.refs q)
              (not_of_other q (has-of_erase q object s.instances h) other)));
    held = λ q h filled. rw (alive q h) filled;
    gone = λ q live dead.
        let same : q ≡ object =
          ==→eq q object (ground (arith, has-erase_other q object s.instances is.once)) in
        ap (λ o. erase r (s.refs o)) same
        ∙ ap (erase r) (single r (s.refs object) ref.1 (sym counted ∙ e))
        ∙ rw (==-refl r) refl;
    same_objects = refl;
    same_elements = refl;
  }
    where
      alive : (q : Ptr) → has q (erase object s.instances) ≡ true → (q == object) ≡ false
      alive q h =
          ne_of_has q object (erase object s.instances) h
            (has-erase_self object s.instances is.once)

-- What a close calls and frees.
pub record Logged (c : Class) (r : Ptr) (s t : Objects) : Type 0 where
  pub calls :
      let o = s.object_of r in
      let others = call_if c.has_close (closed (s.owner r) (s.ptr o)) s.calls in
      t.calls
      ≡ (if length (s.refs o) == 1 then call_if c.has_dtor (destroyed (s.ptr o)) others else others)
  pub frees :
      t.freed
      ≡ (if length (s.refs (s.object_of r)) == 1 then s.object_of r ∷ r ∷ s.freed else r ∷ s.freed)

abbrev pub Closed : Class → Ptr → Objects → Objects → Type 0
Closed c r s t = IsSound t × Closes (r ∷ []) s t × Logged c r s t

pub kernel_object_ref_close-Closed :
    (c : Class) (s : Objects) (r : Ptr)
    → IsSound s
    → IsRef s r
    → Returns (λ u t. Closed c r s t) (kernel_object_ref_close c r s)
kernel_object_ref_close-Closed c s r is ref = elim (Bool-cases (s.count (s.object_of r) == 1)) [
  | inl one ↦
      let e : s.count (s.object_of r) ≡ 1 = ==→eq (s.count (s.object_of r)) 1 one in
      let single_left : (length (s.refs (s.object_of r)) == 1) ≡ true =
        ap (λ n. n == 1) (sym (is.counted (s.object_of r) ref.0)) ∙ one in
      rw (ref_close-last c s is r ref e) (
        without_object-IsSound c (after c s is r ref)
            (without_ref-IsSound c s is (s.object_of r) r ref.0 ref.1) (s.object_of r) ref.0,
        last-Closes c s is r ref e,
        record { calls = rw single_left refl; frees = rw single_left refl },
      )
  | inr several ↦
      let not_single : (length (s.refs (s.object_of r)) == 1) ≡ false =
        ap (λ n. n == 1) (sym (is.counted (s.object_of r) ref.0)) ∙ several in
      rw (ref_close-shared c s is r ref several) (
        without_ref-IsSound c s is (s.object_of r) r ref.0 ref.1,
        shared-Closes c s is r ref several,
        record { calls = rw not_single refl; frees = rw not_single refl },
      )
]
