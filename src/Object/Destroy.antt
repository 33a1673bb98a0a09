-- ===== src/Object/Destroy.antt =====
-- What `__kernel_object_list_destroy` of microkernel/object.c does.
use mathlib.Core.Bool.{false≢true}
use mathlib.Core.Path.{subst}
use neftis.Base.Run.{ok, Returns, Returns-bind, Returns-mono}
use neftis.Base.{
  ◌≡◌, ◌∙◌, refl, sym, ap, true, false, inl, inr, Bool-cases, ◌==◌, List, [], ◌∷◌, has, erase,
  has-erase_other, arith,
}
use neftis.Object.{
  Ptr, Class, Objects, kernel_object_ref_close, list_element_destroy, kernel_object_list_destroy,
}
use neftis.Object.Sound.{IsSound}
use neftis.Object.Close.{IsRef, erase_all, Closes, Closed, kernel_object_ref_close-Closed}

abbrev pub refs_of : (Ptr → Ptr) → List Ptr → List Ptr
refs_of ref_of [] = []
refs_of ref_of (e ∷ es) = ref_of e ∷ refs_of ref_of es

-- The elements of a list of references: every element has a reference of its own.
abbrev pub AreRefs : Objects → List Ptr → Type 0
AreRefs s [] = Unit {0}
AreRefs s (r ∷ rs) = IsRef s r × (has r rs ≡ false) × AreRefs s rs

-- Another reference than the one that was closed.
other-IsRef :
    (c : Class) (s t : Objects) (r r' : Ptr)
    → IsSound s
    → Closes (r ∷ []) s t
    → (r' == r) ≡ false
    → IsRef s r'
    → IsRef t r'
other-IsRef c s t r r' is closes other ref =
    let q = s.object_of r' in
    let same : t.object_of r' ≡ q = ap (λ f. f r') closes.same_objects in
    let left : has r' (erase r (s.refs q)) ≡ true =
      has-erase_other r' r (s.refs q) (is.distinct q ref.0) ∙ rw (other, ref.1) refl in
    let live : has q t.instances ≡ true = elim (Bool-cases (has q t.instances)) [
      | inl alive ↦ alive
      | inr dead ↦ absurd (false≢true (ap (has r') (sym (closes.gone q ref.0 dead)) ∙ left))
    ] in
    (
      ap (λ o. has o t.instances) same ∙ live,
      ap (λ o. has r' (t.refs o)) same ∙ ap (has r') (closes.remain q live) ∙ left,
    )

others-AreRefs :
    (c : Class) (s t : Objects) (r : Ptr) (rs : List Ptr)
    → IsSound s
    → Closes (r ∷ []) s t
    → has r rs ≡ false
    → AreRefs s rs
    → AreRefs t rs
others-AreRefs c s t r [] is closes out refs = tt
others-AreRefs c s t r (r' ∷ rs) is closes out refs = (
  other-IsRef c s t r r' is closes (ground arith) refs.0,
  refs.1,
  others-AreRefs c s t r rs is closes (ground arith) refs.2,
)

-- One closed after the other.
Closes-cons :
    (r : Ptr) (rs : List Ptr) (s t w : Objects)
    → Closes (r ∷ []) s t
    → Closes rs t w
    → Closes (r ∷ rs) s w
Closes-cons r rs s t w first rest = record {
  lived = λ q h. first.lived q (rest.lived q h);
  remain = λ q h. rest.remain q h ∙ ap (erase_all rs) (first.remain q (rest.lived q h));
  held = λ q h filled. rest.held q h (first.held q (rest.lived q h) filled);
  gone = λ q live dead. elim (Bool-cases (has q t.instances)) [
    | inl still ↦ ap (erase_all rs) (sym (first.remain q still)) ∙ rest.gone q still dead
    | inr already ↦ ap (erase_all rs) (first.gone q live already) ∙ erase_all-nil rs
  ];
  same_objects = rest.same_objects ∙ first.same_objects;
  same_elements = rest.same_elements ∙ first.same_elements;
}
  where
    erase_all-nil : (xs : List Ptr) → erase_all xs [] ≡ []
    erase_all-nil [] = refl
    erase_all-nil (x ∷ xs) = erase_all-nil xs

Closes-nil : (s : Objects) → Closes [] s s
Closes-nil s = record {
  lived = λ q h. h;
  remain = λ q h. refl;
  held = λ q h filled. filled;
  gone = λ q live dead. absurd (false≢true (sym dead ∙ live));
  same_objects = refl;
  same_elements = refl;
}

abbrev pub ListClosed : List Ptr → Objects → Objects → Type 0
ListClosed rs s t = IsSound t × Closes rs s t

-- An element that is freed changes nothing else.
free-ListClosed :
    (rs xs : List Ptr) (s t : Objects)
    → ListClosed rs s t
    → ListClosed rs s (record t { freed = xs })
free-ListClosed rs xs s t (is, closes) = (
  record {
    counted = is.counted;
    distinct = is.distinct;
    belongs = is.belongs;
    class_counted = is.class_counted;
    once = is.once;
    not_null = is.not_null;
  },
  record {
    lived = closes.lived;
    remain = closes.remain;
    held = closes.held;
    gone = closes.gone;
    same_objects = closes.same_objects;
    same_elements = closes.same_elements;
  },
)

list_element_destroy-ListClosed :
    (c : Class) (s : Objects) (e : Ptr)
    → IsSound s
    → IsRef s (s.ref_of e)
    → Returns (λ u t. ListClosed (s.ref_of e ∷ []) s t) (list_element_destroy c e s)
list_element_destroy-ListClosed c s e is ref =
    Returns-bind {P = λ u t. Closed c (s.ref_of e) s t} (λ u t. ListClosed (s.ref_of e ∷ []) s t)
      (kernel_object_ref_close c (s.ref_of e) s) (λ u t. ok tt (record t { freed = e ∷ t.freed }))
      (kernel_object_ref_close-Closed c s (s.ref_of e) is ref)
      (λ u t p. free-ListClosed (s.ref_of e ∷ []) (e ∷ t.freed) s t (p.0, p.1))

-- A list of references that is destroyed closes each of them: no assertion fails, whether several refer to
-- one object or not, and the objects stay sound, each with its other references. An object that had
-- references lives on exactly as long as it has one.
pub kernel_object_list_destroy-ListClosed :
    (c : Class) (s : Objects) (elements : List Ptr)
    → IsSound s
    → AreRefs s (refs_of s.ref_of elements)
    → Returns
        (λ u t. ListClosed (refs_of s.ref_of elements) s t)
        (kernel_object_list_destroy c elements s)
unfolding kernel_object_list_destroy
kernel_object_list_destroy-ListClosed c s [] is refs = (is, Closes-nil s)
kernel_object_list_destroy-ListClosed c s (e ∷ es) is refs =
    Returns-bind {P = λ u t. ListClosed (s.ref_of e ∷ []) s t}
      (λ u t. ListClosed (refs_of s.ref_of (e ∷ es)) s t) (list_element_destroy c e s)
      (λ u. kernel_object_list_destroy c es) (list_element_destroy-ListClosed c s e is refs.0)
      (λ u t p.
        let same : refs_of t.ref_of es ≡ refs_of s.ref_of es =
          ap (λ f. refs_of f es) p.1.same_elements in
        Returns-mono {P = λ u' w. ListClosed (refs_of t.ref_of es) t w}
          {Q = λ u' w. ListClosed (refs_of s.ref_of (e ∷ es)) s w}
          (kernel_object_list_destroy c es t)
          (kernel_object_list_destroy-ListClosed c t es p.0 (
            subst (AreRefs t) (sym same)
              (others-AreRefs c s t (s.ref_of e) (refs_of s.ref_of es) is p.1 refs.1 refs.2)))
          (λ u' w q. (
            q.0,
            Closes-cons (s.ref_of e) (refs_of s.ref_of es) s t w p.1
                (subst (λ rs. Closes rs t w) same q.1),
          )))
