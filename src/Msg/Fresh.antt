-- ===== src/Msg/Fresh.antt =====
-- The table of a new queue: the loop of `msgq_new` of microkernel/msg.c.
use mathlib.Core.Bool.{false≢true}
use neftis.Base.{
  ℕ, zero, suc, ◌+◌, ◌<◌, ◌&&◌, ◌≡◌, ◌∙◌, refl, sym, ap, List, [], ◌∷◌, leb, if◌then◌else◌, has,
  IsDistinct, arith, ne→==, ==-refl,
}
use neftis.Sched.{update, head_or}
use neftis.Msg.{Ptr, null, minus_one, ptr_idx, chain_slots, new_table}
use neftis.Msg.Ids.{HasFree, FreeChain}

-- The slots from `i` on, `n` after the first.
unfoldable pub from : ℕ → ℕ → List ℕ
from zero i = i ∷ []
from (suc n) i = i ∷ from n (suc i)

head-from : (n i d : ℕ) → head_or d (from n i) ≡ i
unfolding from
head-from zero i d = refl
head-from (suc n) i d = refl

has-from : (n i j : ℕ) → has j (from n i) ≡ (leb i j && leb j (i + n))
unfolding from
has-from zero i j = ground arith
has-from (suc n) i j = ground (arith, has-from n (suc i) j)

from-IsDistinct : (n i : ℕ) → IsDistinct (from n i)
unfolding from
from-IsDistinct zero i = (refl, tt)
from-IsDistinct (suc n) i = (has-from n (suc i) i ∙ ground arith, from-IsDistinct n (suc i))

-- The loop leaves the slots behind it alone.
chain_slots-before : (n i : ℕ) (f : ℕ → Ptr) (j : ℕ) → j < i → chain_slots n i f j ≡ f j
unfolding chain_slots
chain_slots-before zero i f j h =
    ap (λ b. if b then ptr_idx minus_one else f j) (ne→== j i (λ e. omega arith))
chain_slots-before (suc n) i f j h =
    chain_slots-before n (suc i) (update f i (ptr_idx (i + 1))) j (omega arith)
    ∙ ap (λ b. if b then ptr_idx (i + 1) else f j) (ne→== j i (λ e. omega arith))

chain_slots-FreeChain :
    (n i : ℕ) (f : ℕ → Ptr) → i + n < 64 → FreeChain (chain_slots n i f) (from n i)
unfolding from chain_slots
chain_slots-FreeChain zero i f h =
    (omega arith, ap (λ b. if b then ptr_idx minus_one else f i) (==-refl i), tt)
chain_slots-FreeChain (suc n) i f h = (
  omega arith,
  chain_slots-before n (suc i) (update f i (ptr_idx (i + 1))) i (omega arith)
      ∙ ap (λ b. if b then ptr_idx (i + 1) else f i) (==-refl i)
      ∙ ap ptr_idx (omega arith ∙ sym (head-from n (suc i) minus_one)),
  chain_slots-FreeChain n (suc i) (update f i (ptr_idx (i + 1))) (omega arith),
)

-- In the table of a new queue all 64 slots are free.
pub new_table-HasFree : HasFree new_table (from 63 0)
unfolding new_table
new_table-HasFree = record {
  starts = sym (head-from 63 0 minus_one);
  links = chain_slots-FreeChain 63 0 (λ i. null) (omega arith);
  distinct = from-IsDistinct 63 0;
  used = λ i h out. absurd (false≢true (sym out ∙ has-from 63 0 i ∙ ground arith));
}
