-- ===== src/Heap/Walk.antt =====
-- kernel/memory/heap.cpp: the walks of free over the free blocks and over all blocks.
use shirleys_os.Heap.GiveBack.{IsFreed, Gap, IsFreed-apart, IsFreed-behind}
use shirleys_os.Heap.{Heap, used_tag, end_of, give_back, neighbours, allocated_from}
use shirleys_os.Heap.Chain.{
  Piece, vacant, held, Chain, IsSize, IsTidy, Live, Live-inside, Chain-le, Chain-link, Kept-vacant,
  Kept-held,
}
use shirleys_os.Prelude.{
  ℕ, zero, suc, ◌+◌, ◌%◌, ◌≤◌, ◌<◌, ◌≡◌, ◌≢◌, ◌⊎◌, ◌↔◌, inl, inr, refl, Bool, Bool-cases, true,
  false, not, ◌&&◌, ◌||◌, ◌==◌, ltb, u64_mod, arith, ap, ◌∙◌, sym, subst, List, [], ◌∷◌,
}

-- The walk stops where the next free block lies behind the header.
neighbours-here :
    (left : ℕ) (s : Heap) (pr h : ℕ)
    → (s.links pr ≡ 0) ⊎ (h ≤ s.links pr)
    → neighbours left s pr h ≡ (pr, s.links pr)
unfolding neighbours
neighbours-here zero s pr h e = refl
neighbours-here (suc left) s pr h e =
    let stop : (not (s.links pr == 0) && ltb (s.links pr) h) ≡ false = ground arith in
    rw (neighbours, stop) refl

neighbours-next :
    (left : ℕ) (s : Heap) (pr a h : ℕ)
    → s.links pr ≡ a
    → 0 < a
    → a < h
    → neighbours (suc left) s pr h ≡ neighbours left s a h
unfolding neighbours
neighbours-next left s pr a h e p q =
    let on : (not (s.links pr == 0) && ltb (s.links pr) h) ≡ true = ground arith in
    rw (neighbours, on) (ap (λ (x : ℕ). neighbours left s x h) e)

-- The live blocks where a live one stands in front.
held-Live :
    (a k h : ℕ) (new old : List Piece) (y m : ℕ)
    → a < h
    → Live (a + k) new y m ↔ (Live (a + k) old y m × (y ≢ h))
    → Live a (held k ∷ new) y m ↔ (Live a (held k ∷ old) y m × (y ≢ h))
held-Live a k h new old y m before (f, g) = (
  λ l. elim l [
    | inl (d, e) ↦ (inl (d, e), λ z. omega arith)
    | inr i ↦ (let (o, ne) = f i in (inr o, ne))
  ],
  λ (l, ne). elim l [ inl i ↦ inl i | inr i ↦ inr (g (i, ne)) ],
)

IsFreed-held :
    (s t : Heap) (pr a k : ℕ) (bs : List Piece) (h n : ℕ)
    → pr < a
    → IsSize k
    → a + k ≤ h
    → s.sizes a ≡ k
    → s.tags a ≡ used_tag
    → IsFreed s t pr (a + k) bs h n
    → IsFreed s t pr a (held k ∷ bs) h n
IsFreed-held s t pr a k bs h n before (big, mult) far c d g =
    let (sizes, tags) = g.kept.fields a (omega arith) in
    record {
      blocks = held k ∷ g.blocks;
      kept = Kept-held s t pr a k before (omega arith) g.kept;
      chain = (sizes ∙ c, tags ∙ d, g.chain);
      tidy = ((big, mult), g.tidy);
      total = g.total;
      live = λ y m. held-Live a k h g.blocks bs y m (omega arith) (g.live y m);
      bytes = g.bytes;
    }

-- The first two blocks are a free and a live one, and the block given back lies behind them.
IsFreed-vacant-held :
    (s t : Heap) (pr a m k : ℕ) (bs : List Piece) (h n : ℕ)
    → pr < a
    → a + m + k ≤ h
    → Chain s a (s.links pr) (vacant m ∷ held k ∷ bs)
    → IsTidy false (vacant m ∷ held k ∷ bs)
    → IsFreed s t a (a + m + k) bs h n
    → IsFreed s t pr a (vacant m ∷ held k ∷ bs) h n
IsFreed-vacant-held s t pr a m k bs h n before far (c, d, e, (c2, d2, chain))
      ((big, mult), f, (size, tidy)) g =
    let (large, even) = size in
    let (kept, first) =
      Kept-vacant s t pr a m before (omega arith)
        (Kept-held s t a (a + m) k (omega arith) (omega arith) g.kept) in
    let (sizes, tags) = g.kept.fields a (omega arith) in
    let (sizes2, tags2) = g.kept.fields (a + m) (omega arith) in
    let total = g.total in
    record {
      blocks = vacant m ∷ held k ∷ g.blocks;
      kept = kept;
      chain = (sizes ∙ c, tags ∙ d, first ∙ e, (sizes2 ∙ c2, tags2 ∙ d2, g.chain));
      tidy = ((big, mult), refl, (size, g.tidy));
      total = omega arith;
      live = λ y q. held-Live (a + m) k h g.blocks bs y q (omega arith) (g.live y q);
      bytes = g.bytes;
    }

module _ (s : Heap) (h n : ℕ) (small : s.heap_end + 64 ≤ u64_mod) where
  abbrev pub given_back : ℕ → ℕ → Heap
  given_back left pr = give_back s h (neighbours left s pr h).0 (neighbours left s pr h).1

  pub neighbours-IsFreed :
      (left pr a : ℕ) (bs : List Piece)
      → s.heap_end ≤ a + left
      → pr < a
      → Gap s pr a
      → Chain s a (s.links pr) bs
      → IsTidy false bs
      → Live a bs h n
      → IsFreed s (given_back left pr) pr a bs h n
  neighbours-IsFreed left pr a [] l before gap chain tidy live = absurd (live tt)
  neighbours-IsFreed left pr a (held k ∷ bs) l before gap (c, d, chain) (size, tidy) (inl (e, f)) =
      let (large, even) = size in
      let stop = neighbours-here left s pr h (elim (Chain-link s (a + k) (s.links pr) bs chain) [
        | inl z ↦ inl z
        | inr (p, q) ↦ inr (omega arith)
      ]) in
      let freed = IsFreed-apart s pr a k bs small before gap (c, d, chain) (size, tidy) in
      let freed' =
        subst (λ (x : ℕ). IsFreed s (give_back s x pr (s.links pr)) pr a (held k ∷ bs) x k) (sym e)
          freed in
      let freed2 =
        subst (λ (x : ℕ). IsFreed s (give_back s h pr (s.links pr)) pr a (held k ∷ bs) h x) (sym f)
          freed' in
      subst (λ (x : ℕ × ℕ). IsFreed s (give_back s h x.0 x.1) pr a (held k ∷ bs) h n) (sym stop)
        freed2
  neighbours-IsFreed left pr a (held k ∷ bs) l before gap (c, d, chain) (size, tidy) (inr live) =
      let (large, even) = size in
      let (far, inside) = Live-inside (a + k) bs h n live in
      IsFreed-held s (given_back left pr) pr a k bs h n before size far c d (
        neighbours-IsFreed left pr (a + k) bs (omega arith) (omega arith)
          (elim gap [ inl z ↦ inl z | inr g ↦ inr (omega arith) ]) chain tidy live)
  neighbours-IsFreed left pr a (vacant m ∷ []) l before gap chain tidy live = absurd (live tt)
  neighbours-IsFreed left pr a (vacant m ∷ vacant k ∷ bs) l before gap chain (size, e, (f, z, g))
        live =
      absurd (ground arith)
  neighbours-IsFreed zero pr a (vacant m ∷ held k ∷ bs) l before gap (c, d, e, (c2, d2, chain))
        ((big, mult), f, (size, tidy)) live =
      absurd (omega (arith, Chain-le s (a + m + k) (s.links a) bs chain))
  neighbours-IsFreed (suc left) pr a (vacant m ∷ held k ∷ bs) l before gap
        (c, d, e, (c2, d2, chain)) ((big, mult), f, (size, tidy)) (inl (at, is)) =
      let (large, even) = size in
      let stop = neighbours-here left s a h (elim (Chain-link s (a + m + k) (s.links a) bs chain) [
        | inl z ↦ inl z
        | inr (p, q) ↦ inr (omega arith)
      ]) in
      let two = neighbours-next left s pr a h e (omega arith) (omega arith) ∙ stop in
      let freed =
        IsFreed-behind s pr h k bs small a m before (sym at) (c, d, e, (c2, d2, chain))
          ((big, mult), f, (size, tidy)) in
      let freed2 =
        subst (λ (x : ℕ). IsFreed s (give_back s h a (s.links a)) pr a (vacant m ∷ held k ∷ bs) h x)
          (sym is) freed in
      subst (λ (x : ℕ × ℕ). IsFreed s (give_back s h x.0 x.1) pr a (vacant m ∷ held k ∷ bs) h n)
        (sym two) freed2
  neighbours-IsFreed (suc left) pr a (vacant m ∷ held k ∷ bs) l before gap
        (c, d, e, (c2, d2, chain)) ((big, mult), f, (size, tidy)) (inr live) =
      let (large, even) = size in
      let (far, inside) = Live-inside (a + m + k) bs h n live in
      let rest =
        neighbours-IsFreed left a (a + m + k) bs (omega arith) (omega arith) (inr (omega arith))
          chain tidy live in
      let freed =
        IsFreed-vacant-held s (given_back left a) pr a m k bs h n before far
          (c, d, e, (c2, d2, chain)) ((big, mult), f, (size, tidy)) rest in
      let two = neighbours-next left s pr a h e (omega arith) (omega arith) in
      subst (λ (x : ℕ × ℕ). IsFreed s (give_back s h x.0 x.1) pr a (vacant m ∷ held k ∷ bs) h n)
        (sym two) freed

-- The walk over all blocks finds exactly the live ones.
module _ (s : Heap) (h : ℕ) (small : s.heap_end + 64 ≤ u64_mod) where
  pub allocated_from-Live :
      (left a v : ℕ) (bs : List Piece) (after : Bool)
      → s.heap_end ≤ a + left
      → Chain s a v bs
      → IsTidy after bs
      → (allocated_from left s a h ≡ true) ↔ ((n : ℕ) × Live a bs h n)
  unfolding allocated_from end_of
  allocated_from-Live zero a v [] after l c t =
      (λ e. absurd (ground arith), λ (n, k). absurd (k tt))
  allocated_from-Live (suc left) a v [] after l (c, d) t =
      let out : not (ltb a s.heap_end) ≡ true = ground arith in
      (
        λ e. absurd (let z : false ≡ true = (rw (allocated_from, out) at e) in ground arith),
        λ (n, k). absurd (k tt),
      )
  allocated_from-Live zero a v (vacant k ∷ bs) after l (c, d, e, f) ((big, mult), z, t) =
      absurd (omega (arith, Chain-le s (a + k) (s.links a) bs f))
  allocated_from-Live zero a v (held k ∷ bs) after l (c, d, f) ((big, mult), t) =
      absurd (omega (arith, Chain-le s (a + k) v bs f))
  allocated_from-Live (suc left) a v (vacant k ∷ bs) after l (c, d, e, f) ((big, mult), z, t) =
      let last = Chain-le s (a + k) (s.links a) bs f in
      let next : (a + s.sizes a) % u64_mod ≡ a + k = omega arith in
      let rest = allocated_from-Live left (a + k) (s.links a) bs true (omega arith) f t in
      let inside : not (ltb a s.heap_end) ≡ false = ground arith in
      elim (Bool-cases (a == h)) [
        | inl here ↦
            let free : (s.tags a == used_tag) ≡ false = ground arith in
            (
              λ q. absurd (
                  let w : false ≡ true = (rw (allocated_from, inside, here, free) at q) in
                  ground arith),
              λ (n, k). absurd (let (p, q) = Live-inside _ bs h n k in ground arith),
            )
        | inr other ↦ elim (Bool-cases (ltb h a || ltb (s.sizes a) 32)) [
          | inl beyond ↦ (
            λ q. absurd (
                let w : false ≡ true = (rw (allocated_from, inside, other, beyond) at q) in
                ground arith),
            λ (n, k). absurd (let (p, q) = Live-inside _ bs h n k in ground arith),
          )
          | inr on ↦ rw (allocated_from, inside, other, on, end_of, next) rest
        ]
      ]
  allocated_from-Live (suc left) a v (held k ∷ bs) after l (c, d, f) ((big, mult), t) =
      let last = Chain-le s (a + k) v bs f in
      let next : (a + s.sizes a) % u64_mod ≡ a + k = omega arith in
      let rest = allocated_from-Live left (a + k) v bs false (omega arith) f t in
      let inside : not (ltb a s.heap_end) ≡ false = ground arith in
      elim (Bool-cases (a == h)) [
        | inl here ↦
            let used : (s.tags a == used_tag) ≡ true = ground arith in
            let same : h ≡ a = ground arith in
            rw (allocated_from, inside, here, used) (λ q. (k, inl (same, refl)), λ q. refl)
        | inr other ↦ elim (Bool-cases (ltb h a || ltb (s.sizes a) 32)) [
          | inl beyond ↦ (
            λ q. absurd (
                let w : false ≡ true = (rw (allocated_from, inside, other, beyond) at q) in
                ground arith),
            λ (n, i). absurd (let (p, q) = Live-inside a (held k ∷ bs) h n i in ground arith),
          )
          | inr on ↦
              rw (allocated_from, inside, other, on, end_of, next)
                (
                  λ q. let (n, i) = rest.0 q in (n, inr i),
                  λ (n, i). elim i [ inl (p, q) ↦ absurd (ground arith) | inr j ↦ rest.1 (n, j) ],
                )
        ]
      ]
