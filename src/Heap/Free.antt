-- ===== src/Heap/Free.antt =====
-- kernel/memory/heap.cpp: free gives back exactly the blocks that allocate gave out.
use shirleys_os.Heap.Walk.{given_back, neighbours-IsFreed, allocated_from-Live}
use shirleys_os.Heap.{Heap, free, allocated_from, allocated_block}
use shirleys_os.Heap.Chain.{
  Piece, vacant, held, Live, Live-inside, Live-IsSize, Live-apart, Chain-end, Chain-le, IsValid,
  vacancy-le,
}
use shirleys_os.Prelude.{
  ℕ, ◌+◌, ◌-◌, ◌%◌, ◌<◌, ◌≡◌, ◌≢◌, ◌⊎◌, ◌↔◌, inl, inr, refl, true, false, not, ◌||◌, ◌==◌, ltb, leb,
  u64_mod, sub64, arith, if_cases, ap, sym, subst, List, [], ◌∷◌, ℕ_discrete, dec_le,
}

-- A live block stands at `x` in the heap, or it does not.
Live-dec : (a : ℕ) (bs : List Piece) (x : ℕ) → Dec ((n : ℕ) × Live a bs x n)
Live-dec a [] x = no (λ (n, l). l tt)
Live-dec a (vacant k ∷ bs) x = Live-dec (a + k) bs x
Live-dec a (held k ∷ bs) x = elim (ℕ_discrete x a) [
  | yes e ↦ yes (k, inl (e, refl))
  | no ne ↦ elim (Live-dec (a + k) bs x) [
    | yes (n, l) ↦ yes (n, inr l)
    | no out ↦ no (λ (n, l). elim l [ inl (e, f) ↦ ne e | inr i ↦ out (n, i) ])
  ]
]

-- The heap after a block is given back: as valid as before, with all the other live blocks.
pub record IsReleased (s t : Heap) (bs : List Piece) (x : ℕ) : Type 0 where
  pub blocks : List Piece
  pub valid : IsValid t blocks
  pub live : (y m : ℕ) → Live t.heap_begin blocks y m ↔ (Live s.heap_begin bs y m × (y ≢ x))
  pub counted : (n : ℕ) → Live s.heap_begin bs x n → t.free_bytes ≡ s.free_bytes + n

module _ (s : Heap) (bs : List Piece) (v : IsValid s bs) where
  -- What `free` does with a pointer it was not given: nothing.
  free-refused :
      (payload : ℕ) → ((x n : ℕ) → Live s.heap_begin bs x n → payload ≢ x + 16) → free s payload ≡ s
  unfolding free allocated_block
  free-refused payload stranger =
      let P = λ (t : Heap). t ≡ s in
      let high = v.high in
      let range = Chain-le s s.heap_begin (s.links 0) bs v.chain in
      let h = sub64 payload 16 in
      if_cases P (payload == 0) _ _ (λ e. refl)
        (λ some_pointer.
          if_cases P
            (ltb payload ((s.heap_begin + 16) % u64_mod)
              || leb s.heap_end payload
              || not (payload % 16 == 0))
            _ _ (λ e. refl)
            (λ inside.
              if_cases P (not (allocated_from (s.heap_end - s.heap_begin) s s.heap_begin h)) _ _
                (λ e. refl)
                (λ found.
                  let (n, live) =
                    (allocated_from-Live s h (omega arith) (s.heap_end - s.heap_begin) s.heap_begin
                        (s.links 0) bs false (omega arith) v.chain v.tidy).0
                      (ground arith) in
                  absurd (stranger h n live (ground arith)))))

  free-IsReleased : (x n : ℕ) → Live s.heap_begin bs x n → IsReleased s (free s (x + 16)) bs x
  unfolding free allocated_block
  free-IsReleased x n live =
      let high = v.high in
      let end = Chain-end s s.heap_begin (s.links 0) bs v.chain in
      let range = Chain-le s s.heap_begin (s.links 0) bs v.chain in
      let (after, fits) = Live-inside s.heap_begin bs x n live in
      let ((big, mult), even) = Live-IsSize false s.heap_begin bs x n v.tidy v.even live in
      let h : sub64 (x + 16) 16 ≡ x = omega arith in
      let some_pointer : (x + 16 == 0) ≡ false = ground arith in
      let inside : (ltb (x + 16) ((s.heap_begin + 16) % u64_mod)
            || leb s.heap_end (x + 16)
            || not ((x + 16) % 16 == 0))
          ≡ false =
        ground arith in
      let first : 0 < s.heap_begin = (elim v.based [ inl z ↦ z | inr z ↦ absurd (omega arith) ]) in
      let found : allocated_from (s.heap_end - s.heap_begin) s s.heap_begin x ≡ true =
        (allocated_from-Live s x (omega arith) (s.heap_end - s.heap_begin) s.heap_begin (s.links 0)
            bs false (omega arith) v.chain v.tidy).1
          (n, live) in
      let refused : not (allocated_from (s.heap_end - s.heap_begin) s s.heap_begin x) ≡ false =
        ap not found in
      let freed =
        neighbours-IsFreed s x n (omega arith) (s.heap_end - s.heap_begin) 0 s.heap_begin bs
          (omega arith) first (inl refl) v.chain v.tidy live in
      let t = given_back s x n (omega arith) (s.heap_end - s.heap_begin) 0 in
      let is : free s (x + 16) ≡ t = rw (free, some_pointer, inside, h, refused) refl in
      let counted = v.bytes in
      let total = freed.total in
      let left = freed.bytes in
      let last = Chain-end t s.heap_begin (t.links 0) freed.blocks freed.chain in
      let most = vacancy-le s.heap_begin freed.blocks in
      let begins = freed.kept.begins in
      let ends = freed.kept.ends in
      let released : IsReleased s t bs x = record {
        blocks = freed.blocks;
        valid = record {
          chain = rw begins freed.chain;
          tidy = freed.tidy;
          even = rw begins v.even;
          even_end = rw ends v.even_end;
          bytes = omega arith;
          high = rw (begins, ends) high;
          based = rw (begins, ends) v.based;
        };
        live = rw begins freed.live;
        counted = λ m k. elim (Live-apart s.heap_begin bs x n x m live k) [
          | inl (e, f) ↦ omega arith
          | inr g ↦ absurd (elim g [
            | inl i ↦ omega arith
            | inr i ↦
                (let ((b2, m2), e2) = Live-IsSize false s.heap_begin bs x m v.tidy v.even k in
                  omega arith)
          ])
        ];
      } in
      subst (λ (y : Heap). IsReleased s y bs x) (sym is) released

  -- In a well-formed heap `free` gives back exactly the blocks that `allocate` gave out: where a live block
  -- has its payload at the pointer, it is live no longer, the other live blocks stay, its bytes are free and
  -- the heap stays well-formed; any other pointer, also one given back before, leaves the heap as it is.
  pub free-Outcome :
      (payload : ℕ)
      → ((x : ℕ) × (n : ℕ) × (payload ≡ x + 16)
          × Live s.heap_begin bs x n
          × IsReleased s (free s payload) bs x)
        ⊎ (((x n : ℕ) → Live s.heap_begin bs x n → payload ≢ x + 16) × (free s payload ≡ s))
  free-Outcome payload = elim (Live-dec s.heap_begin bs (payload - 16)) [
    | yes (n, live) ↦ elim (dec_le 16 payload) [
      | yes l ↦
          let at : payload ≡ payload - 16 + 16 = omega arith in
          let released = free-IsReleased (payload - 16) n live in
          inl (
            payload - 16,
            n,
            at,
            live,
            subst (λ (p : ℕ). IsReleased s (free s p) bs (payload - 16)) (sym at) released,
          )
      | no l ↦
          let stranger =
            λ (x m : ℕ) (k : Live s.heap_begin bs x m) (e : payload ≡ x + 16). l (omega arith) in
          inr (stranger, free-refused payload stranger)
    ]
    | no out ↦
        let stranger = λ (x m : ℕ) (k : Live s.heap_begin bs x m) (e : payload ≡ x + 16).
          let at : payload - 16 ≡ x = omega arith in
          out (m, subst (λ (y : ℕ). Live s.heap_begin bs y m) (sym at) k) in
        inr (stranger, free-refused payload stranger)
  ]
