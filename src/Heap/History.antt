-- ===== src/Heap/History.antt =====
-- kernel/memory/heap.cpp: what clients may do with a heap, in any order.
use shirleys_os.Heap.Walk.{allocated_from-Live}
use shirleys_os.Heap.{
  Heap, align_up, make_free, emptied, initialize, allocate, free, allocated_block,
}
use shirleys_os.Heap.Check.{consistent}
use shirleys_os.Heap.Align.{align_up-bounds, align_up-multiple}
use shirleys_os.Heap.Chain.{
  Piece, vacant, held, Chain, IsTidy, Live, Live-inside, Live-IsSize, Chain-end, Chain-le, IsValid,
}
use shirleys_os.Heap.Allocate.{allocate-IsNew}
use shirleys_os.Heap.Free.{free-Outcome}
use shirleys_os.Heap.Consistent.{consistent-IsValid}
use shirleys_os.Prelude.{
  ℕ, ◌+◌, ◌-◌, ◌*◌, ◌/◌, ◌≤◌, ◌<◌, ◌≡◌, ◌⊎◌, inl, inr, refl, Bool, true, false, ◌||◌, ◌==◌, ltb,
  leb, u64_mod, arith, List, [], ◌∷◌, ap, ◌∙◌, sym, subst, if_cases,
}

-- The heap after a client has written into the allocated block at `x`, anywhere behind the header. The fields
-- are those at the addresses where blocks can stand, so a write reaches no other.
pub record Written (s t : Heap) (x : ℕ) : Type 0 where
  pub block : allocated_block s x ≡ true
  pub begins : t.heap_begin ≡ s.heap_begin
  pub ends : t.heap_end ≡ s.heap_end
  pub counted : t.free_bytes ≡ s.free_bytes
  pub fields :
      (y : ℕ) → (y ≤ x) ⊎ (x + s.sizes x ≤ y) → (t.sizes y ≡ s.sizes y) × (t.tags y ≡ s.tags y)
  pub linked : (y : ℕ) → (y < x) ⊎ (x + s.sizes x ≤ y) → t.links y ≡ s.links y

pub data Reachable : Heap → Type 0 where
  begun :
      (s : Heap) (base bytes : ℕ)
      → base + bytes + bytes + 64 ≤ u64_mod
      → Reachable (initialize s base bytes)
  allocated :
      (s : Heap) (bytes alignment : ℕ) → Reachable s → Reachable (allocate s bytes alignment).1
  freed : (s : Heap) (payload : ℕ) → Reachable s → Reachable (free s payload)
  written : (s t : Heap) (x : ℕ) → Reachable s → Written s t x → Reachable t

initialize-IsValid :
    (s : Heap) (base bytes : ℕ)
    → base + bytes + bytes + 64 ≤ u64_mod
    → (bs : List Piece) × IsValid (initialize s base bytes) bs
unfolding initialize emptied make_free
initialize-IsValid s base bytes small =
    let P = λ (t : Heap). (bs : List Piece) × IsValid t bs in
    let first = align_up base 16 in
    let last = (base + bytes) / 16 * 16 in
    let (lower, upper) = align_up-bounds base 16 (omega arith) (omega arith) in
    let even = align_up-multiple base 16 (omega arith) in
    let none_left : P (emptied s) = (
      [],
      record {
        chain = (refl, refl);
        tidy = tt;
        even = omega arith;
        even_end = omega arith;
        bytes = refl;
        high = omega arith;
        based = inr refl;
      },
    ) in
    if_cases P (base == 0 || ltb (u64_mod - 1 - base) bytes) _ _ (λ e. none_left)
      (λ fits.
        if_cases P (leb last first || ltb (last - first) 32) _ _ (λ e. none_left)
          (λ room. (
            vacant (last - first) ∷ [],
            record {
              chain = (ground arith, ground arith, ground arith, (ground arith, ground arith));
              tidy = ((ground arith, ground arith), refl, tt);
              even = even;
              even_end = omega arith;
              bytes = omega arith;
              high = ground arith;
              based = inl (ground arith);
            },
          )))

Chain-Live :
    (s : Heap) (a v : ℕ) (bs : List Piece) (x n : ℕ)
    → Chain s a v bs
    → Live a bs x n
    → s.sizes x ≡ n
Chain-Live s a v [] x n c l = absurd (l tt)
Chain-Live s a v (vacant k ∷ bs) x n (c, d, e, f) l = Chain-Live s (a + k) (s.links a) bs x n f l
Chain-Live s a v (held k ∷ bs) x n (c, d, f) (inl (e, g)) = (rw e c) ∙ sym g
Chain-Live s a v (held k ∷ bs) x n (c, d, f) (inr l) = Chain-Live s (a + k) v bs x n f l

-- A write into a live block among those from `a` on, or before them, leaves the chain as it is.
Chain-Written :
    (s t : Heap) (x n a v : ℕ) (after : Bool) (bs : List Piece)
    → Written s t x
    → s.sizes x ≡ n
    → Live a bs x n ⊎ (x + n ≤ a)
    → IsTidy after bs
    → Chain s a v bs
    → Chain t a v bs
Chain-Written s t x n a v after [] w m place tidy (c, d) = (c ∙ sym w.ends, d)
Chain-Written s t x n a v after (vacant k ∷ bs) w m place ((big, mult), z, tidy) (c, d, e, f) =
    let out : (a < x) ⊎ (x + s.sizes x ≤ a) = (elim place [
      | inl l ↦ (let (p, q) = Live-inside (a + k) bs x n l in inl (omega arith))
      | inr l ↦ inr (omega arith)
    ]) in
    let (sizes, tags) = w.fields a (elim out [ inl l ↦ inl (omega arith) | inr l ↦ inr l ]) in
    let links = w.linked a out in
    let rest =
      Chain-Written s t x n (a + k) (s.links a) true bs w m
        (elim place [ inl l ↦ inl l | inr l ↦ inr (omega arith) ]) tidy f in
    (sizes ∙ c, tags ∙ d, e, rw links rest)
Chain-Written s t x n a v after (held k ∷ bs) w m place ((big, mult), tidy) (c, d, f) =
    let out : (a ≤ x) ⊎ (x + s.sizes x ≤ a) = (elim place [
      | inl l ↦ (let (p, q) = Live-inside a (held k ∷ bs) x n l in inl p)
      | inr l ↦ inr (omega arith)
    ]) in
    let (sizes, tags) = w.fields a out in
    let rest =
      Chain-Written s t x n (a + k) v false bs w m
        (elim place [
          | inl l ↦ elim l [ inl (p, q) ↦ inr (omega arith) | inr i ↦ inl i ]
          | inr l ↦ inr (omega arith)
        ])
        tidy f in
    (sizes ∙ c, tags ∙ d, rest)

Written-IsValid :
    (s t : Heap) (x : ℕ) (bs : List Piece) → Written s t x → IsValid s bs → IsValid t bs
unfolding allocated_block
Written-IsValid s t x bs w v =
    let high = v.high in
    let range = Chain-le s s.heap_begin (s.links 0) bs v.chain in
    let (n, live) =
      (allocated_from-Live s x (omega arith) (s.heap_end - s.heap_begin) s.heap_begin (s.links 0) bs
          false (omega arith) v.chain v.tidy).0
        w.block in
    let own = Chain-Live s s.heap_begin (s.links 0) bs x n v.chain live in
    let (after, inside) = Live-inside s.heap_begin bs x n live in
    let ((big, mult), even) = Live-IsSize false s.heap_begin bs x n v.tidy v.even live in
    let last = Chain-end s s.heap_begin (s.links 0) bs v.chain in
    let positive : 0 < x = (elim v.based [ inl h ↦ omega arith | inr h ↦ absurd (omega arith) ]) in
    let head = w.linked 0 (inl positive) in
    let chain =
      Chain-Written s t x n s.heap_begin (s.links 0) false bs w own (inl live) v.tidy v.chain in
    record {
      chain = rw (w.begins, head) chain;
      tidy = v.tidy;
      even = rw w.begins v.even;
      even_end = rw w.ends v.even_end;
      bytes = w.counted ∙ v.bytes;
      high = rw (w.begins, w.ends) high;
      based = rw (w.begins, w.ends) v.based;
    }

Reachable-IsValid : (s : Heap) → Reachable s → (bs : List Piece) × IsValid s bs
Reachable-IsValid _ (begun s base bytes small) = initialize-IsValid s base bytes small
Reachable-IsValid _ (allocated s bytes alignment r) =
    let (bs, v) = Reachable-IsValid s r in
    elim (allocate-IsNew s bs bytes alignment v) [
      | inl e ↦ (bs, subst (λ (t : Heap). IsValid t bs) (sym (ap (λ (q : ℕ × Heap). q.1) e)) v)
      | inr new ↦ (new.blocks, new.valid)
    ]
Reachable-IsValid _ (freed s payload r) =
    let (bs, v) = Reachable-IsValid s r in
    elim (free-Outcome s bs v payload) [
      | inl (x, n, at, live, released) ↦ (released.blocks, released.valid)
      | inr (stranger, same) ↦ (bs, subst (λ (t : Heap). IsValid t bs) (sym same) v)
    ]
Reachable-IsValid t (written s _ x r w) =
    let (bs, v) = Reachable-IsValid s r in (bs, Written-IsValid s t x bs w v)

-- Whatever clients allocate, free (also pointers that they never got or that they gave back before) and write
-- into their blocks, in any order, the heap's own check finds it consistent: the blocks tile it, the free list
-- is in order, inside the heap and without neighbours, and the free bytes are counted right. The heap begins
-- on memory that has its length of addresses behind it.
pub Reachable-consistent : (s : Heap) → Reachable s → consistent s ≡ true
Reachable-consistent s r = let (bs, v) = Reachable-IsValid s r in consistent-IsValid s bs v
