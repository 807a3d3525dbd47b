-- ===== src/Blocks/Cache/Pinned.antt =====
-- kernel/io/block_cache.cpp: what `acquire` leaves of the entries that are pinned.
use shirleys_os.Blocks.Cache.Victim.{victim-Chosen, Chosen}
use shirleys_os.Prelude.{
  refl, u64_mod, ◌%◌, Option-cases, leb, some, ℕ_discrete, ◌<◌, ◌⊎◌, ℕ, zero, suc, ◌+◌, ◌≡◌, ◌≢◌,
  inl, inr, true, arith, Bool-cases, ◌==◌, ◌&&◌, Found, Found-here, Found-later, Found-none, ap,
  ◌∙◌,
}
use shirleys_os.Io.{BlockDevice, succeeded}
use shirleys_os.Blocks.Cache.{
  find, victim, ready, prepared, CacheEntry, BlockCache, Access, find_from, pin, read, overwrite,
}
use shirleys_os.Blocks.Cache.Acquire.{block_count, acquire, replace, vacate, load_block, write_back}

-- What an entry holds.
pub record IsKept (e f : CacheEntry) : Type 0 where
  pub block : f.block ≡ e.block
  pub valid : f.valid ≡ e.valid
  pub dirty : f.dirty ≡ e.dirty
  pub content : f.content ≡ e.content

same-IsKept : (e f : CacheEntry) → f ≡ e → IsKept e f
same-IsKept e f h = record {
  block = ap (λ (x : CacheEntry). x.block) h;
  valid = ap (λ (x : CacheEntry). x.valid) h;
  dirty = ap (λ (x : CacheEntry). x.dirty) h;
  content = ap (λ (x : CacheEntry). x.content) h;
}

find_from-Found :
    (entries : ℕ → CacheEntry) (block left i stop : ℕ)
    → i + left ≡ stop
    → Found
        (λ k. ((entries k).valid ≡ true) × ((entries k).block ≡ block))
        i
        stop
        (find_from entries left i block)
unfolding find_from
find_from-Found entries block zero i stop e = Found-none _ i stop (omega arith)
find_from-Found entries block (suc left) i stop e =
    elim (Bool-cases ((entries i).valid && (entries i).block == block)) [
      | inl u ↦ rw u (Found-here _ i stop (ground arith, ground arith) (omega arith))
      | inr u ↦ rw u (
          Found-later _ i stop (λ (a, b). ground arith) (find_from entries left (i + 1) block)
            (find_from-Found entries block left (i + 1) stop (omega arith)))
    ]

find-Found :
    (c : BlockCache) (block i : ℕ)
    → find c block ≡ some i
    → (i < c.capacity) × ((c.entries i).valid ≡ true) × ((c.entries i).block ≡ block)
unfolding find
find-Found c block i h =
    let (_, l, (v, at), _) : Found
        (λ k. ((c.entries k).valid ≡ true) × ((c.entries k).block ≡ block)) 0 c.capacity (some i) =
      (rw h at (find_from-Found c.entries block c.capacity 0 c.capacity (omega arith))) in
    (l, v, at)

module _ {W : Type 0} (dev : BlockDevice W) where
  pin-untouched :
      (access : Access) (c : BlockCache) (w : W) (i j : ℕ)
      → j ≢ i
      → (pin access c w i).cache.entries j ≡ c.entries j
  unfolding pin
  pin-untouched access c w i j ne = ground arith

  vacate-untouched :
      (c : BlockCache) (w : W) (i j : ℕ) → j ≢ i → (vacate dev c w i).1.entries j ≡ c.entries j
  unfolding vacate write_back
  vacate-untouched c w i j ne = ground arith

  load_block-untouched :
      (access : Access) (c : BlockCache) (w : W) (i block j : ℕ)
      → j ≢ i
      → (load_block dev access c w i block).1.entries j ≡ c.entries j
  unfolding load_block
  load_block-untouched overwrite c w i block j ne = ground arith
  load_block-untouched read c w i block j ne = ground arith

  replace-untouched :
      (access : Access) (c : BlockCache) (w : W) (i block j : ℕ)
      → j ≢ i
      → (replace dev access c w i block).cache.entries j ≡ c.entries j
  unfolding replace
  replace-untouched access c w i block j ne =
      let (r, c1, w1) = vacate dev c w i in
      let v = vacate-untouched c w i j ne in
      let l = load_block-untouched access (vacate dev c w i).1 (vacate dev c w i).2 i block j ne in
      elim (Bool-cases (succeeded (vacate dev c w i).0)) [
        | inr e ↦ rw e v
        | inl e ↦
            elim (Bool-cases (
              succeeded
                (load_block dev access (vacate dev c w i).1 (vacate dev c w i).2 i block).0)) [
                  | inr f ↦ rw (e, f) (l ∙ v)
                  | inl f ↦
                      rw (e, f)
                        (pin-untouched access
                            (load_block dev access (vacate dev c w i).1 (vacate dev c w i).2 i
                              block).1
                            (load_block dev access (vacate dev c w i).1 (vacate dev c w i).2 i
                              block).2
                            i j ne
                          ∙ l
                          ∙ v)
                ]
      ]

  pin-IsKept :
      (c : BlockCache) (w : W) (i : ℕ) → IsKept (c.entries i) ((pin read c w i).cache.entries i)
  unfolding pin prepared
  pin-IsKept c w i = record {
    block = ground arith;
    valid = ground arith;
    dirty = ground arith;
    content = ground arith;
  }

  found-IsKept :
      (access : Access) (c : BlockCache) (w : W) (i j block : ℕ)
      → (c.entries i).block ≡ block
      → (access ≡ read) ⊎ ((c.entries j).block ≢ block)
      → IsKept (c.entries j) ((pin access c w i).cache.entries j)
  found-IsKept access c w i j block b goal = elim (ℕ_discrete j i) [
    | no ne ↦ same-IsKept (c.entries j) _ (pin-untouched access c w i j ne)
    | yes e ↦ elim goal [
      | inl l ↦ rw (l, e) (pin-IsKept c w i)
      | inr other ↦ absurd (other (ap (λ k. (c.entries k).block) e ∙ b))
    ]
  ]

  -- Whatever `acquire` evicts, loads or fails at, a pinned entry keeps its block, its content and its
  -- marks, unless the call asks to overwrite that very block.
  pub acquire-IsKept :
      (access : Access) (c : BlockCache) (w : W) (block j : ℕ)
      → j < c.capacity
      → (c.entries j).pins ≢ 0
      → (access ≡ read) ⊎ ((c.entries j).block ≢ block)
      → IsKept (c.entries j) ((acquire dev access c w block).cache.entries j)
  unfolding acquire block_count
  acquire-IsKept access c w block j l pinned goal = elim (Bool-cases (ready c)) [
    | inr e ↦ rw e (same-IsKept (c.entries j) (c.entries j) refl)
    | inl e ↦ elim (Bool-cases (leb (block_count dev c w) block)) [
      | inl f ↦ rw (f, e) (same-IsKept (c.entries j) (c.entries j) refl)
      | inr f ↦ elim (Option-cases (find c block)) [
        | inr (i, h) ↦
            (let (_, _, at) = find-Found c block i h in
              rw (f, e, h)
                (found-IsKept access (record c { hits = (c.hits + 1) % u64_mod }) w i j block at
                  goal))
        | inl h ↦ elim (Option-cases (victim c)) [
          | inl n ↦ rw (f, e, h, n) (same-IsKept (c.entries j) (c.entries j) refl)
          | inr (i, n) ↦
              (let (_, p, _) : Chosen c.entries c.capacity (some i) = (rw n at (victim-Chosen c)) in
                let ne : j ≢ i = λ s. pinned (ap (λ k. (c.entries k).pins) s ∙ p) in
                rw (f, e, h, n)
                  (same-IsKept (c.entries j) _ (
                    replace-untouched access (record c { misses = (c.misses + 1) % u64_mod }) w i
                      block j ne)))
        ]
      ]
    ]
  ]
