-- ===== src/Blocks/Cache/Setup/Leaks.antt =====
-- kernel/io/block_cache.cpp on kernel/memory/heap.cpp: which blocks of the heap a cache owns.
use shirleys_os.Heap.{Heap, allocate, free}
use shirleys_os.Heap.Clients.{
  Holding, With, Without, Holding_map, Got, allocate-Got, free-Holding, free-null,
}
use shirleys_os.Io.{Error, Result, BlockDevice, succeeded}
use shirleys_os.Blocks.Cache.Acquire.{write_back}
use shirleys_os.Blocks.Cache.Transfer.{sync, sync_from}
use shirleys_os.Blocks.Cache.{BlockCache, ready}
use shirleys_os.Blocks.Cache.Setup.{initialize, shutdown, block_bytes_for, buffer_alignment, set_up}
use shirleys_os.Prelude.{
  ℕ, ◌+◌, ◌*◌, ◌/◌, ◌≡◌, ◌⊎◌, inl, inr, refl, sym, ◌∙◌, ap, subst, arith, Bool, true, false, not,
  ◌||◌, ◌==◌, if_cases, if_both, Bool-cases, zero, suc,
}

-- What `shutdown` leaves: no cache and the blocks given back, or the cache and the heap as they were where
-- dirty content could not be written.
abbrev pub Closed : {W : Type 0} → Heap → (ℕ → ℕ → Type 0) → Result × BlockCache × W × Heap → Type 0
Closed h L (r, c, w, h') =
    ((succeeded r ≡ true) × (ready c ≡ false) × Holding h' L)
    ⊎ ((succeeded r ≡ false) × (ready c ≡ true) × (h' ≡ h))

-- The blocks of `k` bytes at `x` and of `m` bytes at `y` are those of the cache `c`, and were not live.
abbrev pub Owns : BlockCache → (ℕ → ℕ → Type 0) → ℕ → ℕ → ℕ → ℕ → Type 0
Owns c L x k y m =
    (c.entries_address ≡ x + 16)
    × (c.storage_address ≡ y + 16)
    × ((n : ℕ) → ¬ L x n)
    × ((n : ℕ) → ¬ With L x k y n)

-- What `initialize` leaves: no cache and the live blocks as before, or a cache that owns two blocks more.
abbrev pub SetUp : BlockCache → (ℕ → ℕ → Type 0) → Bool × BlockCache × Heap → Type 0
SetUp c L (ok, c', h) =
    ((ok ≡ false) × (c' ≡ c) × Holding h L)
    ⊎ ((ok ≡ true)
        × ((x : ℕ) × (k : ℕ) × (y : ℕ) × (m : ℕ) × Owns c' L x k y m
            × Holding h (With (With L x k) y m)))

-- A block that was live for no client before is given back again.
given_back :
    (s : Heap) (L : ℕ → ℕ → Type 0) (x k : ℕ)
    → Holding s (With L x k)
    → ((n : ℕ) → ¬ L x n)
    → Holding (free s (x + 16)) L
given_back s L x k h fresh =
    Holding_map (free s (x + 16)) (Without (With L x k) x) L
      (λ y n. (
        λ (l, ne). elim l [ inl i ↦ i | inr (e, f) ↦ absurd (ne e) ],
        λ l. (inl l, λ e. fresh n (subst (λ (z : ℕ). L z n) e l)),
      ))
      (free-Holding s (With L x k) x k h (inr (refl, refl)))

module _ (h : Heap) (L : ℕ → ℕ → Type 0) (r q : ℕ × Heap) (got : Got h L r)
    (more : (M : ℕ → ℕ → Type 0) → Holding r.1 M → Got r.1 M q) where
  -- Two allocations of which one failed, given back.
  given_up : Holding h L → (r.0 == 0 || q.0 == 0) ≡ true → Holding (free (free q.1 r.0) q.0) L
  given_up holding failed = elim got [
    | inl e ↦
        let none_first : r.0 ≡ 0 = ap (λ (p : ℕ × Heap). p.0) e in
        let still : Holding r.1 L = subst (λ (p : ℕ × Heap). Holding p.1 L) (sym e) holding in
        let start : free q.1 r.0 ≡ q.1 = ap (free q.1) none_first ∙ free-null q.1 in
        subst (λ (p : Heap). Holding (free p q.0) L) (sym start)
          (elim (more L still) [
            | inl f ↦
                let none_second : q.0 ≡ 0 = ap (λ (p : ℕ × Heap). p.0) f in
                let kept : Holding q.1 L = subst (λ (p : ℕ × Heap). Holding p.1 L) (sym f) still in
                subst (λ (p : Heap). Holding p L) (sym (ap (free q.1) none_second ∙ free-null q.1))
                  kept
            | inr (x, k, at, held, fresh) ↦
                subst (λ (p : ℕ). Holding (free q.1 p) L) (sym at) (given_back q.1 L x k held fresh)
          ])
    | inr (x, k, at, held, fresh) ↦ elim (more (With L x k) held) [
      | inl f ↦
          let none_second : q.0 ≡ 0 = ap (λ (p : ℕ × Heap). p.0) f in
          let kept : Holding q.1 (With L x k) =
            subst (λ (p : ℕ × Heap). Holding p.1 (With L x k)) (sym f) held in
          let back : Holding (free q.1 r.0) L =
            subst (λ (p : ℕ). Holding (free q.1 p) L) (sym at) (given_back q.1 L x k kept fresh) in
          subst (λ (p : Heap). Holding p L)
            (sym (ap (free (free q.1 r.0)) none_second ∙ free-null (free q.1 r.0))) back
      | inr (y, m, at2, held2, fresh2) ↦ absurd (ground arith)
    ]
  ]

  taken_both :
      (c : BlockCache) (capacity bytes blocks : ℕ)
      → (r.0 == 0 || q.0 == 0) ≡ false
      → SetUp c L (true, set_up c r.0 q.0 capacity bytes blocks, q.1)
  taken_both c capacity bytes blocks worked = elim got [
    | inl e ↦ absurd (let z : r.0 ≡ 0 = ap (λ (p : ℕ × Heap). p.0) e in ground arith)
    | inr (x, k, at, held, fresh) ↦ elim (more (With L x k) held) [
      | inl f ↦ absurd (let z : q.0 ≡ 0 = ap (λ (p : ℕ × Heap). p.0) f in ground arith)
      | inr (y, m, at2, held2, fresh2) ↦ inr (refl, (x, k, y, m, (at, at2, fresh, fresh2), held2))
    ]
  ]

module _ {W : Type 0} (dev : BlockDevice W) where
  pub initialize-SetUp :
      (c : BlockCache) (w : W) (h : Heap) (L : ℕ → ℕ → Type 0) (capacity block_bytes : ℕ)
      → Holding h L
      → SetUp c L (initialize dev c w h capacity block_bytes)
  unfolding initialize
  initialize-SetUp c w h L capacity block_bytes holding =
      let P = SetUp c L in
      let bytes = block_bytes_for capacity block_bytes (dev.block_size w) in
      let r = allocate h (capacity * 32) 16 in
      let q = allocate r.1 (capacity * bytes) (buffer_alignment bytes) in
      let got = allocate-Got h L (capacity * 32) 16 holding in
      let more = λ (M : ℕ → ℕ → Type 0) (held : Holding r.1 M).
        allocate-Got r.1 M (capacity * bytes) (buffer_alignment bytes) held in
      if_both P (ready c || capacity == 0) _ _ (inl (refl, refl, holding)) (
        if_both P (bytes == 0) _ _ (inl (refl, refl, holding)) (
          if_cases P (r.0 == 0 || q.0 == 0) _ _
            (λ failed. inl (refl, refl, given_up h L r q got more holding failed))
            (λ worked.
              taken_both h L r q got more c capacity bytes (bytes / dev.block_size w) worked)))

  write_back-addresses :
      (c : BlockCache) (w : W) (i : ℕ)
      → ((write_back dev c w i).1.entries_address ≡ c.entries_address)
        × ((write_back dev c w i).1.storage_address ≡ c.storage_address)
  unfolding write_back
  write_back-addresses c w i = (ground arith, ground arith)

  sync_from-addresses :
      (left i written : ℕ) (failure : Error) (c : BlockCache) (w : W)
      → ((sync_from dev left i written failure c w).1.entries_address ≡ c.entries_address)
        × ((sync_from dev left i written failure c w).1.storage_address ≡ c.storage_address)
  unfolding sync_from
  sync_from-addresses zero i written failure c w = (refl, refl)
  sync_from-addresses (suc left) i written failure c w =
      let (a, b) = write_back-addresses c w i in
      elim (Bool-cases (not (c.entries i).valid || not (c.entries i).dirty)) [
        | inl skip ↦ rw (sync_from, skip) (sync_from-addresses left (i + 1) _ _ c w)
        | inr write ↦
            rw (sync_from, write)
              (let (d, e) =
                  sync_from-addresses left (i + 1) _ _ (write_back dev c w i).1
                    (write_back dev c w i).2 in
                (d ∙ a, e ∙ b))
      ]

  pub shutdown-Closed :
      (c : BlockCache) (w : W) (h : Heap) (L : ℕ → ℕ → Type 0) (x k y m : ℕ)
      → Owns c L x k y m
      → Holding h (With (With L x k) y m)
      → Closed h L (shutdown dev c w h)
  unfolding shutdown ready sync
  shutdown-Closed c w h L x k y m (at, at2, fresh, fresh2) holding =
      let P = Closed {W = W} h L in
      let (a, b) = sync_from-addresses c.capacity 0 0 Error.none c w in
      let s = sync dev c w in
      let there : ready c ≡ true = ground arith in
      let still : ready s.1 ≡ true = ground arith in
      let first : Holding (free h s.1.entries_address) (With L y m) =
        subst (λ (p : ℕ). Holding (free h p) (With L y m)) (sym (a ∙ at))
          (Holding_map (free h (x + 16)) (Without (With (With L x k) y m) x) (With L y m)
            (λ z n. (
              λ (l, ne). elim l [
                | inl i ↦ elim i [ inl j ↦ inl j | inr (e, f) ↦ absurd (ne e) ]
                | inr i ↦ inr i
              ],
              λ l. elim l [
                | inl i ↦ (inl (inl i), λ e. fresh n (subst (λ (p : ℕ). L p n) e i))
                | inr (e, f) ↦ (inr (e, f), λ g. fresh2 k (inr (sym e ∙ g, refl)))
              ],
            ))
            (free-Holding h (With (With L x k) y m) x k holding (inl (inr (refl, refl))))) in
      let second : Holding (free (free h s.1.entries_address) s.1.storage_address) L =
        subst (λ (p : ℕ). Holding (free (free h s.1.entries_address) p) L) (sym (b ∙ at2))
          (given_back (free h s.1.entries_address) L y m first (λ n l. fresh2 n (inl l))) in
      if_cases P (not (ready c)) _ _ (λ e. absurd (ground arith))
        (λ e.
          if_cases P (not (succeeded s.0)) _ _ (λ f. inr (ground arith, still, refl))
            (λ f. inl (ground arith, refl, second)))

  -- A cache that was set up and may be shut down at any time.
  abbrev pub Lifecycle : BlockCache → (ℕ → ℕ → Type 0) → Bool × BlockCache × Heap → Type 1
  Lifecycle c L (ok, c', h) =
      ((ok ≡ false) × (c' ≡ c) × Holding h L)
      ⊎ ((ok ≡ true)
          × ((x : ℕ) × (k : ℕ) × (y : ℕ) × (m : ℕ) × Owns c' L x k y m
              × Holding h (With (With L x k) y m)
              × ((c2 : BlockCache) (w2 : W) (h2 : Heap) (M : ℕ → ℕ → Type 0)
                  → Owns c2 M x k y m
                  → Holding h2 (With (With M x k) y m)
                  → Closed h2 M (shutdown dev c2 w2 h2))))

  -- A cache leaks no memory. Where `initialize` fails, also between its two allocations, the live blocks of the
  -- heap are those from before; where it succeeds, the cache owns two new ones. Whatever the cache and the
  -- other clients then do, as long as the cache keeps its two blocks, `shutdown` gives both back and ends the
  -- cache, or it leaves the heap and the cache's blocks alone where dirty content could not be written.
  pub initialize-shutdown :
      (c : BlockCache) (w : W) (h : Heap) (L : ℕ → ℕ → Type 0) (capacity block_bytes : ℕ)
      → Holding h L
      → Lifecycle c L (initialize dev c w h capacity block_bytes)
  initialize-shutdown c w h L capacity block_bytes holding =
      elim (initialize-SetUp c w h L capacity block_bytes holding) [
        | inl failed ↦ inl failed
        | inr (ok, (x, k, y, m, owns, held)) ↦
            inr (ok, (x, k, y, m, owns, held, λ c2 w2 h2 M. shutdown-Closed c2 w2 h2 M x k y m))
      ]
