-- ===== src/Links/Splice.antt =====
-- A node is linked into a chain, or cut out of it, between two of its nodes.
use mathlib.Core.Bool.{false≢true}
use neftis.Base.{
  true, false, ◌≡◌, ◌∙◌, refl, sym, ap, ◌≢◌, inl, inr, Bool-cases, ==→eq, List, [], ◌∷◌, ◌++◌, ◌==◌,
  if◌then◌else◌, has, IsDistinct, arith, ==-sym, has_front-not-has_back, front-IsDistinct,
  back-IsDistinct, remove-IsDistinct, not-has-append, ne_of_has, has_head,
}
use neftis.Links.{Ptr, null, Memory, update, update_self, update_other, update_past}
use neftis.Links.Chain.{
  last_or, Chain, Chain-append, Chain-front, Chain-back, Chain-relink, next-last, has-last,
}

-- The memory in which `p` and `n` are neighbours.
abbrev pub cut : Memory → (p n : Ptr) → Memory
cut m p n = record m { next = update m.next p n; prev = update m.prev n p }

-- `x ∷ a` and `y ∷ c` lie apart in `m`; `g` differs from it by the links between them.
module _ (m g : Memory) (b x : Ptr) (a : List Ptr) (s y : Ptr) (c : List Ptr)
    (d : IsDistinct (x ∷ a ++ y ∷ c)) where
  -- The front part keeps its first link; its last node leads to `t`.
  pub front-Chain :
      (s' t : Ptr)
      → ((q : Ptr) → (q == y) ≡ false → has q (x ∷ a) ≡ true → g.prev q ≡ m.prev q)
      → ((q : Ptr) → has q (x ∷ a) ≡ true → g.next q ≡ (if q == last_or x a then t else m.next q))
      → Chain m b (x ∷ a) s'
      → Chain g b (x ∷ a) t
  front-Chain s' t prevs nexts ch =
      Chain-relink m g b b x a s' t
        (record { prevs = λ q i. prevs q (apart q i) i ∙ unchanged q; nexts = nexts })
        (front-IsDistinct (x ∷ a) (y ∷ c) d) ch
    where
      apart : (q : Ptr) → has q (x ∷ a) ≡ true → (q == y) ≡ false
      apart q i = ground (arith, has_front-not-has_back q (x ∷ a) (y ∷ c) d i)

      unchanged : (q : Ptr) → m.prev q ≡ (if q == x then b else m.prev q)
      unchanged q = ground arith

  -- The back part keeps its last link; its first node points back to `p`.
  pub back-Chain :
      (b' p : Ptr)
      → ((q : Ptr) → has q (y ∷ c) ≡ true → g.prev q ≡ (if q == y then p else m.prev q))
      → ((q : Ptr) → (q == last_or x a) ≡ false → has q (y ∷ c) ≡ true → g.next q ≡ m.next q)
      → Chain m b' (y ∷ c) s
      → Chain g p (y ∷ c) s
  back-Chain b' p prevs nexts ch =
      Chain-relink m g p b' y c s s
        (record { prevs = prevs; nexts = λ q i. nexts q (apart q i) i ∙ unchanged q })
        (back-IsDistinct (x ∷ a) (y ∷ c) d) ch
    where
      apart : (q : Ptr) → has q (y ∷ c) ≡ true → (q == last_or x a) ≡ false
      apart q i = elim (Bool-cases (q == last_or x a)) [
        | inl same ↦ absurd (
            false≢true (
              sym (
                has_front-not-has_back q (x ∷ a) (y ∷ c) d
                  (ap (λ n. has n (x ∷ a)) (==→eq q _ same) ∙ has-last x a))
              ∙ i))
        | inr other ↦ other
      ]

      unchanged : (q : Ptr) → m.next q ≡ (if q == last_or y c then s else m.next q)
      unchanged q = elim (Bool-cases (q == last_or y c)) [
        | inl same ↦ rw same (ap m.next (==→eq q _ same) ∙ next-last m b' y c s ch)
        | inr other ↦ rw other
      ]

-- A node between `x ∷ a` and `y ∷ c` is cut out.
pub Chain-cut :
    (m : Memory) (b x : Ptr) (a : List Ptr) (e y : Ptr) (c : List Ptr) (s : Ptr)
    → IsDistinct (x ∷ a ++ e ∷ y ∷ c)
    → Chain m b (x ∷ a ++ e ∷ y ∷ c) s
    → Chain (cut m (last_or x a) y) b (x ∷ a ++ y ∷ c) s
Chain-cut m b x a e y c s d ch =
    let d' = (remove-IsDistinct e (x ∷ a) (y ∷ c) d).0 in
    let p = last_or x a in
    Chain-append (cut m p y) b (x ∷ a) (y ∷ c) s
      (front-Chain m (cut m p y) b x a s y c d' e y (λ q o i. update_other m.prev y p q o)
        (λ q i. refl) (Chain-front m b (x ∷ a) (e ∷ y ∷ c) s ch))
      (back-Chain m (cut m p y) b x a s y c d' e p (λ q i. refl)
        (λ q o i. update_other m.next p y q o) (Chain-back m b (x ∷ a) (e ∷ y ∷ c) s ch).3)

-- The memory in which `e` stands between `p` and `n`.
abbrev pub between : Memory → (p e n : Ptr) → Memory
between m p e n = record m {
  next = update (update m.next e n) p e;
  prev = update (update m.prev e p) n e;
}

-- A node is linked in between `x ∷ a` and `y ∷ c`.
pub Chain-between :
    (m : Memory) (b x : Ptr) (a : List Ptr) (e y : Ptr) (c : List Ptr) (s : Ptr)
    → e ≢ null
    → has e (x ∷ a ++ y ∷ c) ≡ false
    → IsDistinct (x ∷ a ++ y ∷ c)
    → Chain m b (x ∷ a ++ y ∷ c) s
    → Chain (between m (last_or x a) e y) b (x ∷ a ++ e ∷ y ∷ c) s
Chain-between m b x a e y c s ne out d ch =
    let p = last_or x a in
    let g : Memory = between m p e y in
    let (out_a, out_c) = not-has-append e (x ∷ a) (y ∷ c) out in
    Chain-append g b (x ∷ a) (e ∷ y ∷ c) s
      (front-Chain m g b x a s y c d y e
        (λ q o i.
          update_other (update m.prev e p) y e q o
          ∙ update_other m.prev e p q (ne_of_has q e (x ∷ a) i out_a))
        (λ q i. update_past m.next p e e y q (ne_of_has q e (x ∷ a) i out_a))
        (Chain-front m b (x ∷ a) (y ∷ c) s ch))
      (
        ne,
        update_other (update m.prev e p) y e e
              (==-sym y e (ne_of_has y e (y ∷ c) (has_head y c) out_c))
            ∙ update_self m.prev e p,
        update_other (update m.next e y) p e e
              (==-sym p e (ne_of_has p e (x ∷ a) (has-last x a) out_a))
            ∙ update_self m.next e y,
        back-Chain m g b x a s y c d p e
            (λ q i. update_past m.prev y e e p q (ne_of_has q e (y ∷ c) i out_c))
            (λ q o i.
              update_other (update m.next e y) p e q o
              ∙ update_other m.next e y q (ne_of_has q e (y ∷ c) i out_c))
            (Chain-back m b (x ∷ a) (y ∷ c) s ch),
      )

-- A node is linked in behind `x ∷ a`, in front of what stood behind it.
abbrev pub behind : Memory → (p e s : Ptr) → Memory
behind m p e s = record m { next = update (update m.next e s) p e; prev = update m.prev e p }

pub Chain-behind :
    (m : Memory) (b x : Ptr) (a : List Ptr) (e s : Ptr)
    → e ≢ null
    → has e (x ∷ a) ≡ false
    → IsDistinct (x ∷ a)
    → Chain m b (x ∷ a) s
    → Chain (behind m (last_or x a) e s) b (x ∷ a ++ e ∷ []) s
Chain-behind m b x a e s ne out d ch =
    let p = last_or x a in
    let g : Memory = behind m p e s in
    Chain-append g b (x ∷ a) (e ∷ []) s
      (Chain-relink m g b b x a s e
        (record {
          prevs = λ q i. update_other m.prev e p q (ne_of_has q e (x ∷ a) i out) ∙ unchanged q;
          nexts = λ q i. update_past m.next p e e s q (ne_of_has q e (x ∷ a) i out);
        })
        d ch)
      (
        ne,
        update_self m.prev e p,
        update_other (update m.next e s) p e e
              (==-sym p e (ne_of_has p e (x ∷ a) (has-last x a) out))
            ∙ update_self m.next e s,
        tt,
      )
  where
    unchanged : (q : Ptr) → m.prev q ≡ (if q == x then b else m.prev q)
    unchanged q = elim (Bool-cases (q == x)) [
      | inl same ↦ rw same (ap m.prev (==→eq q x same) ∙ ch.1)
      | inr other ↦ rw other
    ]

-- A node is linked in before `x ∷ a`, behind what stood before it.
abbrev pub ahead : Memory → (b e x : Ptr) → Memory
ahead m b e x = record m { next = update m.next e x; prev = update (update m.prev e b) x e }

pub Chain-ahead :
    (m : Memory) (b x : Ptr) (a : List Ptr) (e s : Ptr)
    → e ≢ null
    → has e (x ∷ a) ≡ false
    → IsDistinct (x ∷ a)
    → Chain m b (x ∷ a) s
    → Chain (ahead m b e x) b (e ∷ x ∷ a) s
Chain-ahead m b x a e s ne out d ch =
    let g : Memory = ahead m b e x in
    (
      ne,
      update_other (update m.prev e b) x e e (==-sym x e (ne_of_has x e (x ∷ a) (has_head x a) out))
          ∙ update_self m.prev e b,
      update_self m.next e x,
      Chain-relink m g e b x a s s
          (record {
            prevs = λ q i. update_past m.prev x e e b q (ne_of_has q e (x ∷ a) i out);
            nexts = λ q i. update_other m.next e x q (ne_of_has q e (x ∷ a) i out) ∙ unchanged q;
          })
          d ch,
    )
  where
    unchanged : (q : Ptr) → m.next q ≡ (if q == last_or x a then s else m.next q)
    unchanged q = elim (Bool-cases (q == last_or x a)) [
      | inl same ↦ rw same (ap m.next (==→eq q _ same) ∙ next-last m b x a s ch)
      | inr other ↦ rw other
    ]
