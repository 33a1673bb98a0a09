-- ===== src/Object.antt =====
-- microkernel/object.c and include/misc/object.h: the objects of one class, the references to them, and
-- lists of references, over a store of their fields. The list of an object's references, the list
-- of the instances and a list of references are the lists of their nodes. What an allocation
-- returns is an argument, NULL or a new address. The calls of the class and what is freed are
-- logged, the last in front.
mod Sound
mod Close
mod Instance
mod Destroy
mod Tests
use neftis.Base.Run.{ok, fault, Cmd, pure, and_then}
use neftis.Base.{
  ℕ, ◌+◌, ◌-◌, Bool, true, false, not, ◌&&◌, ◌||◌, ◌==◌, if◌then◌else◌, List, [], ◌∷◌, Option, none,
  some, erase, write,
}

abbrev pub Ptr : Type 0
Ptr = ℕ

abbrev pub null : Ptr
null = 0

-- A call of a function of the class: with the task and the private data.
pub data Call : Type 0 where
  opened : ℕ → Ptr → Call
  closed : ℕ → Ptr → Call
  destroyed : Ptr → Call

-- `struct kernel_class`: which of its functions are not NULL.
pub record Class : Type 0 where
  pub has_open : Bool
  pub has_close : Bool
  pub has_dtor : Bool

-- The fields of `struct kernel_object`, `struct kernel_object_ref` and `struct kernel_object_list`, and of
-- the class the instances and their number.
pub record Objects : Type 0 where
  pub refs : Ptr → List Ptr
  pub count : Ptr → ℕ
  pub ptr : Ptr → Ptr
  pub owner : Ptr → ℕ
  pub object_of : Ptr → Ptr
  pub element_of : Ptr → Ptr
  pub ref_of : Ptr → Ptr
  pub instances : List Ptr
  pub class_count : ℕ
  pub calls : List Call
  pub freed : List Ptr

abbrev pub call_if : Bool → Call → List Call → List Call
call_if b call calls = if b then call ∷ calls else calls

abbrev pub is_empty : List Ptr → Bool
is_empty [] = true
is_empty (x ∷ xs) = false

abbrev pub is_first : Ptr → List Ptr → Bool
is_first r [] = false
is_first r (x ∷ xs) = x == r

-- `__kernel_object_create`
unfoldable pub kernel_object_create : Option Ptr → Ptr → Cmd Objects Ptr
kernel_object_create none data_of s = ok null s
kernel_object_create (some new) data_of s = ok new (record s {
  refs = write s.refs new [];
  count = write s.count new 0;
  ptr = write s.ptr new data_of;
  instances = new ∷ s.instances;
  class_count = s.class_count + 1;
})

-- `__kernel_object_open`
unfoldable pub kernel_object_open : Class → Option Ptr → Ptr → ℕ → Cmd Objects Ptr
kernel_object_open c none object who s = ok null s
kernel_object_open c (some ref) object who s = ok ref (record s {
  owner = write s.owner ref who;
  object_of = write s.object_of ref object;
  element_of = write s.element_of ref null;
  count = write s.count object (s.count object + 1);
  calls = call_if c.has_open (opened who (s.ptr object)) s.calls;
  refs = write s.refs object (ref ∷ s.refs object);
})

-- `__kernel_object_destroy`, past its assertion.
abbrev pub without_object : Class → Ptr → Objects → Objects
without_object c object s = record s {
  instances = erase object s.instances;
  class_count = s.class_count - 1;
  calls = call_if c.has_dtor (destroyed (s.ptr object)) s.calls;
  freed = object ∷ s.freed;
}

unfoldable pub kernel_object_destroy : Class → Ptr → Cmd Objects (Unit {0})
kernel_object_destroy c object s =
    if s.class_count == 0 then fault else ok tt (without_object c object s)

-- A reference is closed, taken out of the list and freed.
abbrev pub without_ref : Class → Ptr → Ptr → Objects → Objects
without_ref c ref object s = record s {
  calls = call_if c.has_close (closed (s.owner ref) (s.ptr object)) s.calls;
  count = write s.count object (s.count object - 1);
  refs = write s.refs object (erase ref (s.refs object));
  freed = ref ∷ s.freed;
}

-- Where the object has references: the last one is at the head.
unfoldable pub drop_ref : Class → Ptr → Ptr → Cmd Objects (Unit {0})
drop_ref c ref object s =
    if is_empty (s.refs object)
    then fault
    else (if s.count object - 1 == 0 && not (is_first ref (s.refs object))
        then fault
        else ok tt (without_ref c ref object s))

-- The references are counted, and an object without any is destroyed.
unfoldable pub destroy_unused : Class → Ptr → Cmd Objects (Unit {0})
unfolding kernel_object_destroy
destroy_unused c object s =
    if (s.count object == 0 || not (is_empty (s.refs object)))
      && (not (s.count object == 0) || is_empty (s.refs object))
    then (if s.count object == 0 then kernel_object_destroy c object s else ok tt s)
    else fault

-- `__kernel_object_ref_close`
unfoldable pub kernel_object_ref_close : Class → Ptr → Cmd Objects (Unit {0})
unfolding drop_ref destroy_unused
kernel_object_ref_close c ref s =
    let object = s.object_of ref in
    if object == null
    then fault
    else and_then (if s.count object == 0 then ok tt s else drop_ref c ref object s)
        (λ _. destroy_unused c object)

-- `__kernel_object_instance`: where the object cannot be opened it is destroyed.
abbrev pub or_destroy : Class → Ptr → Ptr → Cmd Objects Ptr
or_destroy c object ref s =
    if ref == null then and_then (kernel_object_destroy c object s) (λ _. pure null) else ok ref s

unfoldable pub kernel_object_instance : Class → Option Ptr → Option Ptr → Ptr → ℕ → Cmd Objects Ptr
unfolding kernel_object_create kernel_object_open kernel_object_destroy
kernel_object_instance c new_object new_ref data_of who s =
    and_then (kernel_object_create new_object data_of s) (λ object t.
      if object == null
      then ok null t
      else and_then (kernel_object_open c new_ref object who t) (or_destroy c object))

-- `__kernel_object_list_add_ref`: 0 or -1, here whether it was done, and the list.
abbrev pub kernel_object_list_add_ref : Option Ptr → Ptr → List Ptr → Cmd Objects (Bool × List Ptr)
kernel_object_list_add_ref none ref elements s = ok (false, elements) s
kernel_object_list_add_ref (some new) ref elements s =
    ok (true, new ∷ elements)
      (record s { ref_of = write s.ref_of new ref; element_of = write s.element_of ref new })

-- `__kernel_object_list_remove_ref`
abbrev pub kernel_object_list_remove_ref : Ptr → List Ptr → Cmd Objects (List Ptr)
kernel_object_list_remove_ref ref elements s =
    if s.element_of ref == null then fault else ok (erase (s.element_of ref) elements) s

-- `__kernel_object_open_from_list`: where the element cannot be allocated the reference is closed.
abbrev pub or_close : Class → Ptr → Bool × List Ptr → Cmd Objects (Ptr × List Ptr)
or_close c ref (true, elements) s = ok (ref, elements) s
or_close c ref (false, elements) s =
    and_then (kernel_object_ref_close c ref s) (λ _. pure (null, elements))

unfoldable pub kernel_object_open_from_list :
    Class → Option Ptr → Option Ptr → Ptr → ℕ → List Ptr → Cmd Objects (Ptr × List Ptr)
unfolding kernel_object_open kernel_object_ref_close
kernel_object_open_from_list c new_ref new_element object who elements s =
    and_then (kernel_object_open c new_ref object who s) (λ ref t.
      if ref == null
      then ok (null, elements) t
      else and_then (kernel_object_list_add_ref new_element ref elements t) (or_close c ref))

-- `__kernel_object_ref_close_from_list`
unfoldable pub kernel_object_ref_close_from_list : Class → Ptr → List Ptr → Cmd Objects (List Ptr)
unfolding kernel_object_ref_close
kernel_object_ref_close_from_list c ref elements s =
    and_then (kernel_object_list_remove_ref ref elements s)
      (λ rest t. and_then (kernel_object_ref_close c ref t) (λ _. pure rest))

-- `__kernel_object_list_element_destroy`
abbrev pub list_element_destroy : Class → Ptr → Cmd Objects (Unit {0})
list_element_destroy c element s =
    and_then (kernel_object_ref_close c (s.ref_of element) s)
      (λ _ t. ok tt (record t { freed = element ∷ t.freed }))

-- `__kernel_object_list_destroy`
unfoldable pub kernel_object_list_destroy : Class → List Ptr → Cmd Objects (Unit {0})
unfolding kernel_object_ref_close
kernel_object_list_destroy c [] s = ok tt s
kernel_object_list_destroy c (element ∷ elements) s =
    and_then (list_element_destroy c element s) (λ _. kernel_object_list_destroy c elements)
