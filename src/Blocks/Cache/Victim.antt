-- ===== src/Blocks/Cache/Victim.antt =====
-- kernel/io/block_cache.cpp: the entry that `victim` gives up.
use shirleys_os.Prelude.{
  ℕ, zero, suc, ◌+◌, ◌≤◌, ◌<◌, ◌≡◌, ◌≢◌, ◌⊎◌, inl, inr, true, false, some, none, arith, Option,
  Bool-cases, ℕ_discrete, ◌==◌,
}
use shirleys_os.Blocks.Cache.{CacheEntry, BlockCache, victim, victim_from, older}

module _ (entries : ℕ → CacheEntry) where
  -- The oldest of the unpinned entries below `i`, which are all valid.
  abbrev Oldest : ℕ → Option ℕ → Type 0
  Oldest i none = (k : ℕ) → k < i → (entries k).pins ≢ 0
  Oldest i (some j) =
      (j < i)
      × ((entries j).pins ≡ 0)
      × ((k : ℕ)
          → k < i
          → (entries k).pins ≡ 0
          → ((entries k).valid ≡ true) × ((entries j).last_used ≤ (entries k).last_used))

  abbrev pub Chosen : ℕ → Option ℕ → Type 0
  Chosen stop none = (k : ℕ) → k < stop → (entries k).pins ≢ 0
  Chosen stop (some j) =
      (j < stop)
      × ((entries j).pins ≡ 0)
      × (((entries j).valid ≡ false)
          ⊎ ((k : ℕ)
              → k < stop
              → (entries k).pins ≡ 0
              → ((entries k).valid ≡ true) × ((entries j).last_used ≤ (entries k).last_used)))

  Oldest-Chosen : (stop : ℕ) (oldest : Option ℕ) → Oldest stop oldest → Chosen stop oldest
  Oldest-Chosen stop none o = o
  Oldest-Chosen stop (some j) (l, p, best) = (l, p, inr best)

  skip-Oldest :
      (i : ℕ) (oldest : Option ℕ) → (entries i).pins ≢ 0 → Oldest i oldest → Oldest (i + 1) oldest
  skip-Oldest i none ne o =
      λ k l. elim (ℕ_discrete k i) [ yes e ↦ rw e ne | no n ↦ o k (omega arith) ]
  skip-Oldest i (some j) ne (l, p, best) = (
    omega arith,
    p,
    λ k m z. elim (ℕ_discrete k i) [
      | yes e ↦ absurd (ne (rw e at z))
      | no n ↦ best k (omega arith) z
    ],
  )

  take-Oldest :
      (i : ℕ) (oldest : Option ℕ)
      → (entries i).pins ≡ 0
      → (entries i).valid ≡ true
      → older entries i oldest ≡ true
      → Oldest i oldest
      → Oldest (i + 1) (some i)
  unfolding older
  take-Oldest i none z u e o = (
    omega arith,
    z,
    λ k l y. elim (ℕ_discrete k i) [
      | yes s ↦ rw s (u, omega arith)
      | no n ↦ absurd (o k (omega arith) y)
    ],
  )
  take-Oldest i (some j) z u e (l, p, best) =
      let lower : (entries i).last_used < (entries j).last_used = ground arith in
      (
        omega arith,
        z,
        λ k m y. elim (ℕ_discrete k i) [
          | yes s ↦ rw s (u, omega arith)
          | no n ↦ (let (a, b) = best k (omega arith) y in (a, omega arith))
        ],
      )

  keep-Oldest :
      (i : ℕ) (oldest : Option ℕ)
      → (entries i).valid ≡ true
      → older entries i oldest ≡ false
      → Oldest i oldest
      → Oldest (i + 1) oldest
  unfolding older
  keep-Oldest i none u e o = absurd (ground arith)
  keep-Oldest i (some j) u e (l, p, best) =
      let lower : (entries j).last_used ≤ (entries i).last_used = ground arith in
      (
        omega arith,
        p,
        λ k m y. elim (ℕ_discrete k i) [ yes s ↦ rw s (u, lower) | no n ↦ best k (omega arith) y ],
      )

  victim_from-Chosen :
      (left i stop : ℕ) (oldest : Option ℕ)
      → i + left ≡ stop
      → Oldest i oldest
      → Chosen stop (victim_from entries left i oldest)
  unfolding victim_from
  victim_from-Chosen zero i stop oldest e o =
      let same : i ≡ stop = omega arith in rw⁻¹ same (Oldest-Chosen i oldest o)
  victim_from-Chosen (suc left) i stop oldest e o = elim (Bool-cases ((entries i).pins == 0)) [
    | inr p ↦ rw p (
        victim_from-Chosen left (i + 1) stop oldest (omega arith)
          (skip-Oldest i oldest (ground arith) o))
    | inl p ↦ elim (Bool-cases (entries i).valid) [
      | inr v ↦ rw (p, v) (omega arith, ground arith, inl v)
      | inl v ↦ elim (Bool-cases (older entries i oldest)) [
        | inl y ↦
            rw (p, v, y)
              (victim_from-Chosen left (i + 1) stop (some i) (omega arith)
                (take-Oldest i oldest (ground arith) v y o))
        | inr y ↦
            rw (p, v, y)
              (victim_from-Chosen left (i + 1) stop oldest (omega arith)
                (keep-Oldest i oldest v y o))
      ]
    ]
  ]

-- `victim` gives an unpinned entry: one without a block, or else, all unpinned entries having one, the
-- one unused the longest; and none only if every entry is pinned.
pub victim-Chosen : (c : BlockCache) → Chosen c.entries c.capacity (victim c)
unfolding victim
victim-Chosen c =
    victim_from-Chosen c.entries c.capacity 0 c.capacity none (omega arith)
      (λ k l. absurd (omega arith))
