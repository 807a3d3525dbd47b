-- ===== src/Heap/Consistent.antt =====
-- kernel/memory/heap.cpp: what the heap's own check finds in a well-formed heap.
use shirleys_os.Heap.{Heap, used_tag, free_tag, end_of}
use shirleys_os.Heap.Check.{listed_from, walked_from, consistent}
use shirleys_os.Heap.Chain.{
  Piece, vacant, held, Chain, IsTidy, vacancy, Chain-end, Chain-le, IsValid, vacancy-le,
}
use shirleys_os.Prelude.{
  ℕ, zero, suc, ◌+◌, ◌-◌, ◌%◌, ◌≤◌, ◌<◌, ◌≡◌, ◌⊎◌, inl, inr, refl, Bool, true, false, not, ◌&&◌,
  ◌||◌, ◌==◌, ltb, leb, some, u64_mod, sub64, arith, List, [], ◌∷◌,
}

abbrev vacancies : List Piece → ℕ
vacancies [] = 0
vacancies (vacant n ∷ bs) = 1 + vacancies bs
vacancies (held n ∷ bs) = vacancies bs

-- Whether the end of the free block before, 0 for none, lies before `a`.
abbrev Ended : Bool → ℕ → ℕ → Type 0
Ended after e a = (e ≤ a) × (after ≡ false → (e < a) ⊎ (e ≡ 0))

module _ (s : Heap) (small : s.heap_end + 64 ≤ u64_mod)
    (based : (0 < s.heap_begin) ⊎ (s.heap_end ≡ 0)) where
  listed_from-vacancies :
      (left a v : ℕ) (after : Bool) (bs : List Piece) (listed bytes e : ℕ)
      → s.heap_end ≤ a + left
      → s.heap_begin ≤ a
      → Chain s a v bs
      → IsTidy after bs
      → Ended after e a
      → bytes + vacancy bs < u64_mod
      → listed_from left s v listed bytes e ≡ some (listed + vacancies bs, bytes + vacancy bs)
  unfolding listed_from end_of
  listed_from-vacancies zero a v after [] listed bytes e l b (c, d) t p q =
      let z : v == 0 ≡ true = ground arith in
      let f : listed + 0 ≡ listed = omega arith in
      let g : bytes + 0 ≡ bytes = omega arith in rw (listed_from, z, f, g) refl
  listed_from-vacancies (suc left) a v after [] listed bytes e l b (c, d) t p q =
      let z : v == 0 ≡ true = ground arith in
      let f : listed + 0 ≡ listed = omega arith in
      let g : bytes + 0 ≡ bytes = omega arith in rw (listed_from, z, f, g) refl
  listed_from-vacancies left a v after (held n ∷ bs) listed bytes e l b (c, d, chain)
        ((big, mult), t) (p, r) q =
      listed_from-vacancies left (a + n) v false bs listed bytes e (omega arith) (omega arith) chain
        t (omega arith, λ z. inl (omega arith)) q
  listed_from-vacancies zero a v after (vacant n ∷ bs) listed bytes e l b (c, d, f, chain)
        ((big, mult), z, t) p q =
      absurd (omega (arith, Chain-le s (a + n) (s.links a) bs chain))
  listed_from-vacancies (suc left) a v after (vacant n ∷ bs) listed bytes e l b (c, d, f, chain)
        ((big, mult), z, t) (p, r) q =
      let last = Chain-le s (a + n) (s.links a) bs chain in
      let positive : 0 < a = (elim based [ inl h ↦ omega arith | inr h ↦ absurd (omega arith) ]) in
      let same : a == 0 ≡ false = ground arith in
      let apart : (not (e == 0) && leb a e) ≡ false = (elim (r z) [
        | inl h ↦ ground arith
        | inr h ↦ ground arith
      ]) in
      let proper : (ltb a s.heap_begin
            || ltb (s.sizes a) 32
            || ltb (sub64 s.heap_end a) (s.sizes a)
            || not (s.tags a == free_tag)
            || (not (e == 0) && leb a e))
          ≡ false =
        ground arith in
      let rest =
        listed_from-vacancies left (a + n) (s.links a) true bs (listed + 1)
          ((bytes + s.sizes a) % u64_mod) ((a + s.sizes a) % u64_mod) (omega arith) (omega arith)
          chain t (omega arith, λ w. absurd (ground arith)) (omega arith) in
      let one : listed + 1 + vacancies bs ≡ listed + (1 + vacancies bs) = omega arith in
      let sum : (bytes + s.sizes a) % u64_mod + vacancy bs ≡ bytes + (n + vacancy bs) =
        omega arith in
      rw (f, listed_from, same, proper, ← one, ← sum, end_of) rest

  walked_from-vacancies :
      (left a v walked : ℕ) (after : Bool) (bs : List Piece)
      → s.heap_end ≤ a + left
      → Chain s a v bs
      → IsTidy after bs
      → walked_from left s a walked ≡ some (s.heap_end, walked + vacancies bs)
  unfolding walked_from end_of
  walked_from-vacancies zero a v walked after [] l (c, d) t =
      let z : ltb a s.heap_end ≡ false = ground arith in
      let f : walked + 0 ≡ walked = omega arith in rw (walked_from, z, c, f) refl
  walked_from-vacancies (suc left) a v walked after [] l (c, d) t =
      let z : ltb a s.heap_end ≡ false = ground arith in
      let f : walked + 0 ≡ walked = omega arith in rw (walked_from, z, c, f) refl
  walked_from-vacancies zero a v walked after (vacant n ∷ bs) l (c, d, e, chain)
        ((big, mult), z, t) =
      absurd (omega (arith, Chain-le s (a + n) (s.links a) bs chain))
  walked_from-vacancies zero a v walked after (held n ∷ bs) l (c, d, chain) ((big, mult), t) =
      absurd (omega (arith, Chain-le s (a + n) v bs chain))
  walked_from-vacancies (suc left) a v walked after (vacant n ∷ bs) l (c, d, e, chain)
        ((big, mult), z, t) =
      let last = Chain-le s (a + n) (s.links a) bs chain in
      let inside : ltb a s.heap_end ≡ true = ground arith in
      let free : (s.tags a == free_tag) ≡ true = ground arith in
      let proper : (ltb (s.sizes a) 32
            || ltb (sub64 s.heap_end a) (s.sizes a)
            || (not (s.tags a == used_tag) && not (s.tags a == free_tag)))
          ≡ false =
        ground arith in
      let next : (a + s.sizes a) % u64_mod ≡ a + n = omega arith in
      let one : walked + 1 + vacancies bs ≡ walked + (1 + vacancies bs) = omega arith in
      rw (walked_from, inside, proper, free, end_of, next, ← one)
        (walked_from-vacancies left (a + n) (s.links a) (walked + 1) true bs (omega arith) chain t)
  walked_from-vacancies (suc left) a v walked after (held n ∷ bs) l (c, d, chain) ((big, mult), t) =
      let last = Chain-le s (a + n) v bs chain in
      let inside : ltb a s.heap_end ≡ true = ground arith in
      let used : (s.tags a == free_tag) ≡ false = ground arith in
      let proper : (ltb (s.sizes a) 32
            || ltb (sub64 s.heap_end a) (s.sizes a)
            || (not (s.tags a == used_tag) && not (s.tags a == free_tag)))
          ≡ false =
        ground arith in
      let next : (a + s.sizes a) % u64_mod ≡ a + n = omega arith in
      rw (walked_from, inside, proper, used, end_of, next)
        (walked_from-vacancies left (a + n) v walked false bs (omega arith) chain t)

pub consistent-IsValid : (s : Heap) (bs : List Piece) → IsValid s bs → consistent s ≡ true
unfolding consistent
consistent-IsValid s bs v =
    let high = v.high in
    let range = Chain-le s s.heap_begin (s.links 0) bs v.chain in
    let last = Chain-end s s.heap_begin (s.links 0) bs v.chain in
    let most = vacancy-le s.heap_begin bs in
    let counted = v.bytes in
    let listed =
      listed_from-vacancies s (omega arith) v.based (s.heap_end - s.heap_begin) s.heap_begin
        (s.links 0) false bs 0 0 0 (omega arith) (omega arith) v.chain v.tidy
        (omega arith, λ e. inr refl) (omega arith) in
    let walked =
      walked_from-vacancies s (omega arith) v.based (s.heap_end - s.heap_begin) s.heap_begin
        (s.links 0) 0 false bs (omega arith) v.chain v.tidy in
    rw (consistent, listed, walked) (ground arith)
