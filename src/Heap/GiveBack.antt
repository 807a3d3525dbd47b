-- ===== src/Heap/GiveBack.antt =====
-- kernel/memory/heap.cpp: free links the block, and merges it with the free block in front.
use shirleys_os.Heap.Join.{marked, join_next-IsJoined}
use shirleys_os.Heap.{Heap, end_of, join_next, join_previous, give_back}
use shirleys_os.Heap.Chain.{
  Piece, vacant, held, Chain, IsTidy, vacancy, Live, Live-inside, Chain-le, Chain-Agree, Kept,
}
use shirleys_os.Prelude.{
  ℕ, ◌+◌, ◌%◌, ◌≤◌, ◌<◌, ◌≡◌, ◌≢◌, ◌⊎◌, ◌↔◌, inl, inr, refl, Bool-cases, true, false, ◌==◌, u64_mod,
  arith, ◌∙◌, sym, subst, List, ◌∷◌, update,
}

-- The block of `n` bytes at `h` is given back to the free blocks from `a` on.
pub record IsFreed (s t : Heap) (pr a : ℕ) (bs : List Piece) (h n : ℕ) : Type 0 where
  pub blocks : List Piece
  pub kept : Kept s t pr a
  pub chain : Chain t a (t.links pr) blocks
  pub tidy : IsTidy false blocks
  pub total : vacancy blocks ≡ vacancy bs + n
  pub live : (y m : ℕ) → Live a blocks y m ↔ (Live a bs y m × (y ≢ h))
  pub bytes : t.free_bytes ≡ (s.free_bytes + n) % u64_mod

-- No free block ends where the blocks from `a` on begin.
abbrev pub Gap : Heap → ℕ → ℕ → Type 0
Gap s pr a = (pr ≡ 0) ⊎ (pr + s.sizes pr < a)

-- The live blocks behind the one at `h`.
behind-Live :
    (h n : ℕ) (bs : List Piece)
    → 0 < n
    → (y m : ℕ) → Live (h + n) bs y m ↔ (Live h (held n ∷ bs) y m × (y ≢ h))
behind-Live h n bs p y m = (
  λ l. let (q, r) = Live-inside (h + n) bs y m l in (inr l, λ e. omega arith),
  λ (l, ne). elim l [ inl (e, f) ↦ absurd (ne e) | inr k ↦ k ],
)

module _ (s : Heap) (pr h n : ℕ) (bs : List Piece) (small : s.heap_end + 64 ≤ u64_mod) where
  pub IsFreed-apart :
      pr < h
      → Gap s pr h
      → Chain s h (s.links pr) (held n ∷ bs)
      → IsTidy false (held n ∷ bs)
      → IsFreed s (give_back s h pr (s.links pr)) pr h (held n ∷ bs) h n
  unfolding give_back join_previous end_of
  IsFreed-apart before gap (sized, tagged, chain) (proper, tidy) =
      let below = Chain-le s (h + n) (s.links pr) bs chain in
      let (big, mult) = proper in
      let v = s.links pr in
      let j = join_next (marked s h n v small sized proper) h v in
      let joined = join_next-IsJoined s h n v small sized proper bs chain tidy in
      let (sizes, tags, links) = joined.others pr (λ e. omega arith) in
      let t = record j { links = update j.links pr h } in
      let linked : join_previous j h pr ≡ t = (elim gap [
        | inl z ↦ (let first : (pr == 0) ≡ true = ground arith in rw (join_previous, first, z) refl)
        | inr g ↦ elim (Bool-cases (pr == 0)) [
          | inl first ↦ (let z : pr ≡ 0 = ground arith in rw (join_previous, first, z) refl)
          | inr later ↦
              let apart : ((pr + j.sizes pr) % u64_mod == h) ≡ false = ground arith in
              rw (join_previous, later, apart) refl
        ]
      ]) in
      let self : t.links pr ≡ h = ground arith in
      let same : t.links h ≡ j.links h = ground arith in
      let (large, even) = joined.proper in
      let total = joined.total in
      let freed : IsFreed s t pr h (held n ∷ bs) h n = record {
        blocks = vacant joined.size ∷ joined.blocks;
        kept = record {
          begins = joined.begins;
          ends = joined.ends;
          fields = λ x l. let (c, d, e) = joined.others x (λ z. omega arith) in (c, d);
          linked = λ x l ne. let (c, d, e) = joined.others x (λ z. omega arith) in ground arith;
        };
        chain = (
          joined.sized,
          joined.tagged,
          self,
          rw same (
              Chain-Agree j t (h + joined.size) (j.links h) joined.blocks refl
                (λ x l. (refl, refl, ground arith)) joined.chain),
        );
        tidy = (joined.proper, refl, joined.tidy);
        total = omega arith;
        live = λ y m.
            let (c, d) = joined.live y m in
            let (e, f) = behind-Live h n bs (omega arith) y m in (λ l. e (c l), λ l. d (f l));
        bytes = joined.bytes;
      } in
      subst (λ (x : Heap). IsFreed s x pr h (held n ∷ bs) h n) (sym linked) freed

  -- The free block in front ends at `h`.
  pub IsFreed-behind :
      (a m : ℕ)
      → pr < a
      → a + m ≡ h
      → Chain s a (s.links pr) (vacant m ∷ held n ∷ bs)
      → IsTidy false (vacant m ∷ held n ∷ bs)
      → IsFreed s (give_back s h a (s.links a)) pr a (vacant m ∷ held n ∷ bs) h n
  unfolding give_back join_previous end_of
  IsFreed-behind a m before at (sized_a, tagged_a, first, chain_a)
        ((big_a, mult_a), f, (proper, tidy)) =
      let there = subst (λ (x : ℕ). Chain s x (s.links a) (held n ∷ bs)) at chain_a in
      let (sized, tagged, chain) = there in
      let below = Chain-le s (h + n) (s.links a) bs chain in
      let (big, mult) = proper in
      let v = s.links a in
      let j = join_next (marked s h n v small sized proper) h v in
      let joined = join_next-IsJoined s h n v small sized proper bs chain tidy in
      let (sizes, tags, links) = joined.others a (λ e. omega arith) in
      let last = Chain-le j (h + joined.size) (j.links h) joined.blocks joined.chain in
      let ends = joined.ends in
      let N = joined.size in
      let sized_j = joined.sized in
      let t = record j {
        sizes = update j.sizes a ((j.sizes a + j.sizes h) % u64_mod);
        links = update j.links a (j.links h);
      } in
      let some_front : (a == 0) ≡ false = ground arith in
      let touching : ((a + j.sizes a) % u64_mod == h) ≡ true = ground arith in
      let linked : join_previous j h a ≡ t = rw (join_previous, some_front, touching) refl in
      let whole : a + (m + N) ≡ h + N = omega arith in
      let size_t : t.sizes a ≡ m + N = ground arith in
      let (large, even) = joined.proper in
      let total = joined.total in
      let link_t : t.links a ≡ j.links h = ground arith in
      let freed : IsFreed s t pr a (vacant m ∷ held n ∷ bs) h n = record {
        blocks = vacant (m + N) ∷ joined.blocks;
        kept = record {
          begins = joined.begins;
          ends = joined.ends;
          fields = λ x l. let (c, d, e) = joined.others x (λ z. omega arith) in (ground arith, d);
          linked = λ x l ne. let (c, d, e) = joined.others x (λ z. omega arith) in ground arith;
        };
        chain = (
          size_t,
          tags ∙ tagged_a,
          (let (c, d, e) = joined.others pr (λ z. omega arith) in ground arith),
          rw (link_t, whole)
              (Chain-Agree j t (h + N) (j.links h) joined.blocks refl
                (λ x l. (ground arith, refl, ground arith)) joined.chain),
        );
        tidy = ((omega arith, omega arith), refl, joined.tidy);
        total = omega arith;
        live = λ y k.
            let (c, d) = joined.live y k in
            let (e, g) = behind-Live h n bs (omega arith) y k in
            let both : Live (h + N) joined.blocks y k ↔ (Live h (held n ∷ bs) y k × (y ≢ h)) =
              (λ l. e (c l), λ l. d (g l)) in
            subst (λ (x : ℕ). Live x joined.blocks y k ↔ (Live (a + m) (held n ∷ bs) y k × (y ≢ h)))
              (sym whole)
              (subst
                (λ (x : ℕ). Live (h + N) joined.blocks y k ↔ (Live x (held n ∷ bs) y k × (y ≢ h)))
                (sym at) both);
        bytes = joined.bytes;
      } in
      subst (λ (x : Heap). IsFreed s x pr a (vacant m ∷ held n ∷ bs) h n) (sym linked) freed
