-- ===== src/Heap/Join.antt =====
-- kernel/memory/heap.cpp: free merges the block with the free block behind it.
use shirleys_os.Heap.{Heap, free_tag, end_of, join_next}
use shirleys_os.Heap.Chain.{
  Piece, vacant, held, Chain, IsSize, IsTidy, vacancy, Live, Chain-le, Chain-link, Chain-Agree,
}
use shirleys_os.Prelude.{
  ℕ, ◌+◌, ◌%◌, ◌≤◌, ◌<◌, ◌≡◌, ◌≢◌, ◌⊎◌, ◌↔◌, inl, inr, refl, true, false, not, ◌&&◌, ◌==◌, u64_mod,
  arith, List, [], ◌∷◌, update,
}

-- The block at `h` is free and merged with the one behind it, and not linked yet.
pub record IsJoined (s t : Heap) (h n : ℕ) (bs : List Piece) : Type 0 where
  pub size : ℕ
  pub blocks : List Piece
  pub sized : t.sizes h ≡ size
  pub tagged : t.tags h ≡ free_tag
  pub chain : Chain t (h + size) (t.links h) blocks
  pub others :
      (x : ℕ) → x ≢ h → (t.sizes x ≡ s.sizes x) × (t.tags x ≡ s.tags x) × (t.links x ≡ s.links x)
  pub begins : t.heap_begin ≡ s.heap_begin
  pub ends : t.heap_end ≡ s.heap_end
  pub bytes : t.free_bytes ≡ (s.free_bytes + n) % u64_mod
  pub proper : IsSize size
  pub tidy : IsTidy true blocks
  pub total : size + vacancy blocks ≡ n + vacancy bs
  pub live : (y m : ℕ) → Live (h + size) blocks y m ↔ Live (h + n) bs y m

module _ (s : Heap) (h n v : ℕ) (small : s.heap_end + 64 ≤ u64_mod) (sized : s.sizes h ≡ n)
    (proper : IsSize n) where
  abbrev pub marked : Heap
  marked = record s {
    tags = update s.tags h free_tag;
    free_bytes = (s.free_bytes + s.sizes h) % u64_mod;
  }

  -- The block behind is not free.
  join_apart :
      (bs : List Piece)
      → Chain s (h + n) v bs
      → IsTidy true bs
      → (v ≡ 0) ⊎ (h + n < v)
      → IsJoined s (join_next marked h v) h n bs
  unfolding join_next end_of
  join_apart bs chain tidy away =
      let (big, mult) = proper in
      let below = Chain-le s (h + n) v bs chain in
      let apart : (not (v == 0) && (h + s.sizes h) % u64_mod == v) ≡ false = ground arith in
      let t = record marked { links = update s.links h v } in
      let self : t.links h ≡ v = ground arith in
      rw (join_next, apart)
        record {
          size = n;
          blocks = bs;
          sized = sized;
          tagged = ground arith;
          chain =
              rw self (
                Chain-Agree s t (h + n) v bs refl (λ x l. (refl, ground arith, ground arith))
                  chain);
          others = λ x ne. (refl, ground arith, ground arith);
          begins = refl;
          ends = refl;
          bytes = omega arith;
          proper = proper;
          tidy = tidy;
          total = refl;
          live = λ y m. (λ l. l, λ l. l);
        }

  join_free :
      (k : ℕ) (bs : List Piece)
      → Chain s (h + n) v (vacant k ∷ bs)
      → IsTidy false (vacant k ∷ bs)
      → IsJoined s (join_next marked h v) h n (vacant k ∷ bs)
  unfolding join_next end_of
  join_free k bs (c, d, e, chain) ((large, even), f, tidy) =
      let (big, mult) = proper in
      let below = Chain-le s (h + n + k) (s.links (h + n)) bs chain in
      let near : (not (v == 0) && (h + s.sizes h) % u64_mod == v) ≡ true = ground arith in
      let t = record marked {
        sizes = update s.sizes h ((s.sizes h + s.sizes v) % u64_mod);
        links = update s.links h (s.links v);
      } in
      let self : t.links h ≡ s.links (h + n) = (rw e (ground arith)) in
      let far : h + n + k ≡ h + (n + k) = omega arith in
      let moved : Chain t (h + n + k) (s.links (h + n)) bs =
        Chain-Agree s t (h + n + k) (s.links (h + n)) bs refl
          (λ x l. (ground arith, ground arith, ground arith)) chain in
      let size_v : s.sizes v ≡ k = (rw e c) in
      rw (join_next, near)
        record {
          size = n + k;
          blocks = bs;
          sized = ground arith;
          tagged = ground arith;
          chain = rw (self, ← far) moved;
          others = λ x ne. (ground arith, ground arith, ground arith);
          begins = refl;
          ends = refl;
          bytes = omega arith;
          proper = (omega arith, omega arith);
          tidy = tidy;
          total = omega arith;
          live = λ y m. rw (← far) (λ l. l, λ l. l);
        }

  pub join_next-IsJoined :
      (bs : List Piece)
      → Chain s (h + n) v bs
      → IsTidy false bs
      → IsJoined s (join_next marked h v) h n bs
  join_next-IsJoined [] chain tidy = join_apart [] chain tt (inl chain.1)
  join_next-IsJoined (vacant k ∷ bs) chain tidy = join_free k bs chain tidy
  join_next-IsJoined (held k ∷ bs) (c, d, chain) (size, tidy) =
      let (large, even) = size in
      join_apart (held k ∷ bs) (c, d, chain) (size, tidy)
        (elim (Chain-link s (h + n + k) v bs chain) [
          | inl z ↦ inl z
          | inr (l, m) ↦ inr (omega arith)
        ])
