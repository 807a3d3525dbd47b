-- ===== src/Pages/Subtract.antt =====
-- kernel/memory/page_allocator.cpp: one round of `subtract_extent`, as a relation.
pub mod Rounds
pub mod Exact
use shirleys_os.Prelude.{
  leb→le, ltb→lt, ℕ, ◌+◌, ◌-◌, ◌≤◌, ◌<◌, ◌≡◌, ◌≢◌, refl, ◌⊎◌, inl, inr, leb, ltb, arith, Bool-cases,
  update,
}
use shirleys_os.Pages.Extents.{Extent, Extents, subtract_at, max_extents}
use shirleys_os.Pages.Cover.{Holds}
use shirleys_os.Pages.Moves.{close_gap_lem, open_gap_lem}

abbrev pub Disjoint : Extent → Extent → Type 0
Disjoint e removed = (removed.end ≤ e.begin) ⊎ (e.end ≤ removed.begin)

-- `e` is what is left of `current` without `removed`, on one side of it.
pub record Remainder (current removed e : Extent) : Type 0 where
  pub begin_le : current.begin ≤ e.begin
  pub end_le : e.end ≤ current.end
  pub nonempty : e.begin < e.end
  pub disjoint : Disjoint e removed
  pub begin_from : (e.begin ≡ current.begin) ⊎ (e.begin ≡ removed.end)
  pub end_from : (e.end ≡ current.end) ⊎ (e.end ≡ removed.begin)

-- What a round at index `i` may do to the array and the index.
pub data Round (x : Extents) (removed : Extent) (i : ℕ) : Extents → ℕ → Type 0 where
  skip : Disjoint (x.items i) removed → Round x removed i x (i + 1)
  remove :
      {y : Extents}
      → removed.begin ≤ (x.items i).begin
      → (x.items i).end ≤ removed.end
      → y.count + 1 ≡ x.count
      → ((k : ℕ) → k < i → y.items k ≡ x.items k)
      → ((k : ℕ) → i ≤ k → k < y.count → y.items k ≡ x.items (k + 1))
      → Round x removed i y i
  trim :
      {y : Extents}
      → (x.items i).begin < removed.end
      → Remainder (x.items i) removed (y.items i)
      → ((a : ℕ) → Holds (x.items i) a → ¬ Holds removed a → Holds (y.items i) a)
        ⊎ (x.count ≡ max_extents)
      → y.count ≡ x.count
      → ((k : ℕ) → k ≢ i → y.items k ≡ x.items k)
      → Round x removed i y (i + 1)
  split :
      {y : Extents}
      → x.count < max_extents
      → Remainder (x.items i) removed (y.items i)
      → (y.items i).end ≡ removed.begin
      → (y.items i).begin ≡ (x.items i).begin
      → removed.end < (x.items i).end
      → (y.items (i + 1)).begin ≡ removed.end
      → (y.items (i + 1)).end ≡ (x.items i).end
      → y.count ≡ x.count + 1
      → ((k : ℕ) → k < i → y.items k ≡ x.items k)
      → ((k : ℕ) → i + 1 < k → k < y.count → y.items k ≡ x.items (k - 1))
      → Round x removed i y (i + 1)

module _ (x : Extents) (removed : Extent) (i : ℕ) (in_use : i < x.count)
    (small : x.count ≤ max_extents) (full : (x.items i).begin < (x.items i).end)
    (proper : removed.begin < removed.end) where
  pub subtract_at-Round : Round x removed i (subtract_at x removed i).0 (subtract_at x removed i).1
  unfolding subtract_at
  subtract_at-Round =
      let lower = update x.items i (record { begin = (x.items i).begin; end = removed.begin }) in
      elim (Bool-cases (leb removed.end (x.items i).begin)) [
        | inl e ↦ rw e (skip (inl (leb→le _ _ e)))
        | inr a ↦ elim (Bool-cases (leb (x.items i).end removed.begin)) [
          | inl e ↦ rw (a, e) (skip (inr (leb→le _ _ e)))
          | inr b ↦ elim (Bool-cases (leb removed.begin (x.items i).begin)) [
            | inl c ↦ elim (Bool-cases (leb (x.items i).end removed.end)) [
              | inl d ↦
                  rw (a, b, c, d)
                    (remove (leb→le _ _ c) (leb→le _ _ d) (omega arith)
                      (λ k h.
                        ground (
                          arith,
                          close_gap_lem x.items (i + 1) (x.count - (i + 1)) k (omega arith),
                        ))
                      (λ k h l.
                        ground (
                          arith,
                          close_gap_lem x.items (i + 1) (x.count - (i + 1)) k (omega arith),
                        )))
              | inr d ↦
                  rw (a, b, c, d)
                    (trim (ground arith)
                      (record {
                        begin_le = ground arith;
                        end_le = ground arith;
                        nonempty = ground arith;
                        disjoint = inl (ground arith);
                        begin_from = inr (ground arith);
                        end_from = inl (ground arith);
                      })
                      (inl (λ p h q. ground arith)) refl (λ k h. ground arith))
            ]
            | inr c ↦ elim (Bool-cases (leb (x.items i).end removed.end)) [
              | inl d ↦
                  rw (a, b, c, d)
                    (trim (ground arith)
                      (record {
                        begin_le = ground arith;
                        end_le = ground arith;
                        nonempty = ground arith;
                        disjoint = inr (ground arith);
                        begin_from = inl (ground arith);
                        end_from = inr (ground arith);
                      })
                      (inl (λ p h q. ground arith)) refl (λ k h. ground arith))
              | inr d ↦ elim (Bool-cases (ltb x.count max_extents)) [
                | inl e ↦
                    rw (a, b, c, d, e)
                      (split (ltb→lt _ _ e)
                        (record {
                          begin_le = ground (arith, open_gap_lem lower i (x.count - (i + 1)) i);
                          end_le = ground (arith, open_gap_lem lower i (x.count - (i + 1)) i);
                          nonempty = ground (arith, open_gap_lem lower i (x.count - (i + 1)) i);
                          disjoint =
                              inr (ground (arith, open_gap_lem lower i (x.count - (i + 1)) i));
                          begin_from =
                              inl (ground (arith, open_gap_lem lower i (x.count - (i + 1)) i));
                          end_from =
                              inr (ground (arith, open_gap_lem lower i (x.count - (i + 1)) i));
                        })
                        (ground (arith, open_gap_lem lower i (x.count - (i + 1)) i))
                        (ground (arith, open_gap_lem lower i (x.count - (i + 1)) i)) (ground arith)
                        (ground arith) (ground arith) refl
                        (λ k h. ground (arith, open_gap_lem lower i (x.count - (i + 1)) k))
                        (λ k h l. ground (arith, open_gap_lem lower i (x.count - (i + 1)) k)))
                | inr e ↦
                    rw (a, b, c, d, e)
                      (trim (ground arith)
                        (record {
                          begin_le = ground arith;
                          end_le = ground arith;
                          nonempty = ground arith;
                          disjoint = inr (ground arith);
                          begin_from = inl (ground arith);
                          end_from = inr (ground arith);
                        })
                        (inr (ground arith)) refl (λ k h. ground arith))
              ]
            ]
          ]
        ]
      ]
