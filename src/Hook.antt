-- ===== src/Hook.antt =====
-- common/hook.c and common/include/misc/hook.h: a bucket has, for each code, a list of functions that
-- are called when the code is triggered. What `kalloc` returns is an argument; what the functions
-- do to the rest of the system is a parameter, and they leave the bucket alone.
mod Bucket
mod Trigger
mod Free
mod Tests
use neftis.Base.Partial.{◌>>=◌}
use neftis.Base.{
  ℕ, zero, suc, Bool, true, false, not, ◌==◌, ltb, if◌then◌else◌, Option, none, some, List, [], ◌∷◌,
  write,
}

abbrev pub Ptr : Type 0
Ptr = ℕ

abbrev pub null : Ptr
null = 0

-- An `int`: `pos n` is n, `negsuc n` is -1 - n.
pub data ℤ : Type 0 where
  pos : ℕ → ℤ
  negsuc : ℕ → ℤ

abbrev pub kernel_error_value : ℤ
kernel_error_value = negsuc 0

-- `struct hook_bucket`, the fields of `struct hook_func` at every address, and what was freed.
pub record Hooks : Type 0 where
  pub hb_hook_count : ℤ
  pub hb_hooks : ℕ → Ptr
  pub hf_func : Ptr → ℕ
  pub hf_data : Ptr → ℕ
  pub hf_next : Ptr → Ptr
  pub hf_prev : Ptr → Ptr
  pub freed : List Ptr

-- `x < y`
abbrev pub less_int : ℤ → ℤ → Bool
less_int (pos a) (pos b) = ltb a b
less_int (pos a) (negsuc b) = false
less_int (negsuc a) (pos b) = true
less_int (negsuc a) (negsuc b) = ltb b a

-- `OVERFLOW (x, higher)`, where it does not hold: `x` as an index.
abbrev pub in_bounds : ℤ → ℤ → Option ℕ
in_bounds (pos a) higher = if less_int (pos a) higher then some a else none
in_bounds (negsuc a) higher = none

-- The list heads are set to NULL up to the count; the other heads are no memory of the bucket.
abbrev pub hook_bucket_new : ℤ → Ptr → Hooks → Option Hooks
hook_bucket_new hooks new h =
    if less_int hooks (pos 1)
    then none
    else (if new == null
        then none
        else some (record h {
          hb_hook_count = hooks;
          hb_hooks = λ i. if less_int (pos i) hooks then null else h.hb_hooks i;
        }))

-- `hook_add`, whose assertions hold where `hook_register` calls it.
unfoldable pub hook_add : ℕ → Ptr → Hooks → Hooks
hook_add code cb h =
    let head : Ptr = h.hb_hooks code in
    record h {
      hf_prev = write (if head == null then h.hf_prev else write h.hf_prev head cb) cb null;
      hf_next = write h.hf_next cb head;
      hb_hooks = write h.hb_hooks code cb;
    }

-- `cb` is what `kalloc` returned. First with the code as an index, where it is one.
unfoldable pub register_at : Option ℕ → ℕ → ℕ → Ptr → Hooks → ℤ × Hooks
register_at none func data_of cb h = (kernel_error_value, h)
register_at (some i) func data_of cb h = if cb == null then (kernel_error_value, h) else (
  pos 0,
  hook_add i cb
      (record h { hf_func = write h.hf_func cb func; hf_data = write h.hf_data cb data_of }),
)

abbrev pub hook_register : ℤ → ℕ → ℕ → Ptr → Hooks → ℤ × Hooks
hook_register code func data_of cb h =
    register_at (in_bounds code h.hb_hook_count) func data_of cb h

-- The loop of `hook_func_free`.
unfoldable pub free_from : ℕ → Ptr → Hooks → Option Hooks
free_from zero func h = none
free_from (suc fuel) func h =
    let rest = free_from fuel (h.hf_next func) (record h { freed = func ∷ h.freed }) in
    if func == null then some h else rest

abbrev pub free_at : ℕ → Option ℕ → Hooks → Option Hooks
free_at fuel none h = some h
free_at fuel (some i) h = free_from fuel (h.hb_hooks i) h

abbrev pub hook_func_free : ℕ → ℤ → Hooks → Option Hooks
hook_func_free fuel code h = free_at fuel (in_bounds code h.hb_hook_count) h

-- The loop of `hook_bucket_free` from the code `i`, with `n` codes left.
unfoldable pub free_codes : ℕ → ℕ → ℕ → Hooks → Option Hooks
free_codes fuel zero i h = some h
free_codes fuel (suc n) i h = do h' ← hook_func_free fuel (pos i) h; free_codes fuel n (suc i) h'

abbrev pub count_of : ℤ → ℕ
count_of (pos n) = n
count_of (negsuc n) = 0

unfoldable pub hook_bucket_free : ℕ → Ptr → Hooks → Option Hooks
hook_bucket_free fuel bucket h = do
  h' ← free_codes fuel (count_of h.hb_hook_count) 0 h
  some (record h' { freed = bucket ∷ h'.freed })

-- `HOOK_LOCK_CHAIN`
abbrev pub is_lock_chain : ℤ → Bool
is_lock_chain (pos n) = n == 1
is_lock_chain (negsuc n) = false

-- `call func code data arg` is what the function at `func` returns and makes of the system.
module _ (World : Type 0) (call : ℕ → ℕ → ℕ → ℕ → World → ℤ × World) where
  -- The loop of `trigger_hook`, from a function.
  unfoldable pub trigger_from : ℕ → ℕ → ℕ → Hooks → Ptr → ℕ → World → Option (ℕ × World)
  trigger_from zero code arg h func acum w = none
  trigger_from (suc fuel) code arg h func acum w =
      let result = call (h.hf_func func) code (h.hf_data func) arg w in
      let rest = trigger_from fuel code arg h (h.hf_next func) (suc acum) result.1 in
      if func == null
      then some (acum, w)
      else (if is_lock_chain result.0 then some (suc acum, result.1) else rest)

  unfoldable pub trigger_at : ℕ → Option ℕ → ℕ → Hooks → World → Option (ℤ × World)
  trigger_at fuel none arg h w = some (kernel_error_value, w)
  trigger_at fuel (some i) arg h w = do
    (calls, w') ← trigger_from fuel i arg h (h.hb_hooks i) 0 w
    some (pos calls, w')

  abbrev pub trigger_hook : ℕ → ℤ → ℕ → Hooks → World → Option (ℤ × World)
  trigger_hook fuel code arg h w = trigger_at fuel (in_bounds code h.hb_hook_count) arg h w
