-- ===== src/Heap/Allocate.antt =====
-- kernel/memory/heap.cpp: allocate walks the free blocks for one that is large enough.
use shirleys_os.Heap.Cut.{IsGiven, cut-IsGiven}
use shirleys_os.Heap.{
  Heap, used_tag, free_tag, end_of, take_out, allocate_from, allocate, align_up, cut_from,
}
use shirleys_os.Heap.Align.{align_up-bounds, align_up-multiple, cut_from-IsCut, power_multiple}
use shirleys_os.Heap.Chain.{
  Piece, vacant, held, Chain, IsSize, IsTidy, Live, Chain-end, Chain-le, IsValid, vacancy-le,
  Kept-vacant, Kept-held,
}
use Prim.Native.Nat.{bit_and}
use shirleys_os.Prelude.{
  ℕ, zero, suc, ◌+◌, ◌-◌, ◌%◌, ◌≤◌, ◌<◌, ◌≡◌, ◌⊎◌, ◌↔◌, inl, inr, refl, Bool, Option-cases, true,
  false, not, ◌||◌, ◌==◌, ltb, if◌then◌else◌, u64_mod, arith, if_cases, ◌∙◌, sym, subst, List, [],
  ◌∷◌,
}

module _ (s t : Heap) (pr a n alignment wanted x k : ℕ) (after : Bool) (bs : List Piece)
    (before : pr < a) (size : IsSize n) where
  -- The cut lies behind the first block.
  IsGiven-vacant :
      s.sizes a ≡ n
      → s.tags a ≡ free_tag
      → s.links pr ≡ a
      → after ≡ false
      → IsGiven s t a (a + n) true bs alignment wanted x k
      → IsGiven s t pr a after (vacant n ∷ bs) alignment wanted x k
  IsGiven-vacant c d e f g =
      let (big, mult) = size in
      let (kept, first) = Kept-vacant s t pr a n before (omega arith) g.kept in
      let (sizes, tags) = g.kept.fields a (omega arith) in
      let above = g.above in
      let total = g.total in
      record {
        blocks = vacant n ∷ g.blocks;
        kept = kept;
        chain = (sizes ∙ c, tags ∙ d, first ∙ e, g.chain);
        tidy = (size, f, g.tidy);
        total = omega arith;
        live = g.live;
        fresh = g.fresh;
        room = g.room;
        aligned = g.aligned;
        above = omega arith;
        below = g.below;
        bytes = g.bytes;
      }

  IsGiven-held :
      s.sizes a ≡ n
      → s.tags a ≡ used_tag
      → IsGiven s t pr (a + n) false bs alignment wanted x k
      → IsGiven s t pr a after (held n ∷ bs) alignment wanted x k
  IsGiven-held c d g =
      let (big, mult) = size in
      let (sizes, tags) = g.kept.fields a (omega arith) in
      let above = g.above in
      record {
        blocks = held n ∷ g.blocks;
        kept = Kept-held s t pr a n before (omega arith) g.kept;
        chain = (sizes ∙ c, tags ∙ d, g.chain);
        tidy = (size, g.tidy);
        total = g.total;
        live = λ y m. (
          λ l. elim l [
            | inl h ↦ inl (inl h)
            | inr h ↦ elim ((g.live y m).0 h) [ inl i ↦ inl (inr i) | inr i ↦ inr i ]
          ],
          λ l. elim l [
            | inl h ↦ elim h [ inl i ↦ inl i | inr i ↦ inr ((g.live y m).1 (inl i)) ]
            | inr i ↦ inr ((g.live y m).1 (inr i))
          ],
        );
        fresh = λ y m l. elim l [ inl (h, i) ↦ inl (omega arith) | inr h ↦ g.fresh y m h ];
        room = g.room;
        aligned = g.aligned;
        above = omega arith;
        below = g.below;
        bytes = g.bytes;
      }

-- What `allocate` answers: a null pointer and the heap as it was, or the payload of a new block.
abbrev pub Allocated : Heap → ℕ → ℕ → Bool → List Piece → ℕ → ℕ → ℕ × Heap → Type 0
Allocated s pr a after bs alignment wanted r =
    ((r.0 ≡ 0) × (r.1 ≡ s))
    ⊎ ((x : ℕ) × (k : ℕ) × (r.0 ≡ x + 16) × IsGiven s r.1 pr a after bs alignment wanted x k)

module _ (s : Heap) (alignment wanted : ℕ) (large : 16 ≤ alignment) (even : alignment % 16 ≡ 0)
    (ample : 16 ≤ wanted) (whole : wanted % 16 ≡ 0) (high : s.heap_end + alignment + 64 ≤ u64_mod)
    (bottom : s.heap_end % 16 ≡ 0) where
  allocate_from-Allocated :
      (left pr a : ℕ) (after : Bool) (bs : List Piece)
      → s.heap_end ≤ a + left
      → pr < a
      → a % 16 ≡ 0
      → Chain s a (s.links pr) bs
      → IsTidy after bs
      → Allocated s pr a after bs alignment wanted (allocate_from left s pr alignment wanted)
  unfolding allocate_from
  allocate_from-Allocated zero pr a after [] l h i c t = inl (refl, refl)
  allocate_from-Allocated (suc left) pr a after [] l h i (c, d) t =
      let z : s.links pr == 0 ≡ true = ground arith in rw (allocate_from, z) (inl (refl, refl))
  allocate_from-Allocated left pr a after (held n ∷ bs) l h i (c, d, e) (size, t) =
      elim (allocate_from-Allocated left pr (a + n) false bs (omega arith) (omega arith)
        (omega arith) e t) [
          | inl same ↦ inl same
          | inr (x, k, at, g) ↦
              inr (x, k, at, IsGiven-held s _ pr a n alignment wanted x k after bs h size c d g)
        ]
  allocate_from-Allocated zero pr a after (vacant n ∷ bs) l h i (c, d, e, f)
        (size, none_before, tidy) =
      absurd (omega (arith, Chain-le s (a + n) (s.links a) bs f))
  allocate_from-Allocated (suc left) pr a after (vacant n ∷ bs) l h i (c, d, e, f)
        (size, none_before, tidy) =
      let below = Chain-le s (a + n) (s.links a) bs f in
      let z : s.links pr == 0 ≡ false = ground arith in
      let end : end_of s a ≡ a + n = (unfold end_of in omega arith) in
      elim (Option-cases (cut_from a (a + n) alignment wanted)) [
        | inl no_room ↦
            let rest =
              subst
                (λ (y : ℕ).
                  Allocated s a (a + n) true bs alignment wanted
                    (allocate_from left s y alignment wanted))
                (sym e)
                (allocate_from-Allocated left a (a + n) true bs (omega arith) (omega arith)
                  (omega arith) f tidy) in
            rw (allocate_from, z, e, end, no_room)
              (elim rest [
                | inl same ↦ inl same
                | inr (x, k, at, g) ↦ inr (
                  x,
                  k,
                  at,
                  IsGiven-vacant s _ pr a n alignment wanted x k after bs h size c d e none_before
                      g,
                )
              ])
        | inr (bounds, found) ↦
            let (b, fin) = bounds in
            let cut =
              cut_from-IsCut a alignment large even i (omega arith) (a + n) wanted b fin
                (omega arith) (omega arith) (omega arith) whole (omega arith) found in
            let room = cut.room in
            let back = cut.back in
            let at : (b + 16) % u64_mod ≡ b + 16 = omega arith in
            let given =
              subst
                (λ (y : ℕ).
                  IsGiven s (take_out s pr y b fin) pr a after (vacant n ∷ bs) alignment wanted b
                    (fin - b))
                (sym e)
                (cut-IsGiven s pr a n alignment wanted b fin after bs h (omega arith) (c, d, e, f)
                  (size, none_before, tidy) cut i ample) in
            rw (allocate_from, z, e, end, found, at) (inr (b, fin - b, refl, given))
      ]

pair_eq : {r : ℕ × Heap} {s : Heap} → r.0 ≡ 0 → r.1 ≡ s → r ≡ (0, s)
pair_eq e f = λ i. (e i, f i)

-- A new block with its header in front of the payload: the heap is as valid as before and has one live block
-- more, apart from all the others, with room for the bytes asked for.
pub record IsNew (s t : Heap) (bs : List Piece) (bytes alignment payload : ℕ) : Type 0 where
  pub blocks : List Piece
  pub x : ℕ
  pub k : ℕ
  pub valid : IsValid t blocks
  pub at : payload ≡ x + 16
  pub live :
      (y m : ℕ) → Live t.heap_begin blocks y m ↔ (Live s.heap_begin bs y m ⊎ ((y ≡ x) × (m ≡ k)))
  pub fresh : (y m : ℕ) → Live s.heap_begin bs y m → (y + m ≤ x) ⊎ (x + k ≤ y)
  pub room : payload + bytes ≤ x + k
  pub inside : (s.heap_begin ≤ x) × (x + k ≤ s.heap_end)
  pub aligned : payload % (if ltb alignment 16 then 16 else alignment) ≡ 0

IsGiven-IsNew :
    (s t : Heap) (bs : List Piece) (bytes alignment wanted x k : ℕ)
    → IsValid s bs
    → IsGiven s t 0 s.heap_begin false bs (if ltb alignment 16 then 16 else alignment) wanted x k
    → bytes ≤ wanted
    → IsNew s t bs bytes alignment (x + 16)
IsGiven-IsNew s t bs bytes alignment wanted x k v g enough =
    let high = v.high in
    let counted = v.bytes in
    let total = g.total in
    let most = vacancy-le s.heap_begin bs in
    let last = Chain-end s s.heap_begin (s.links 0) bs v.chain in
    let room = g.room in
    let left = g.bytes in
    record {
      blocks = g.blocks;
      x = x;
      k = k;
      valid = record {
        chain = rw (g.kept.begins) g.chain;
        tidy = g.tidy;
        even = rw (g.kept.begins) v.even;
        even_end = rw (g.kept.ends) v.even_end;
        bytes = omega arith;
        high = rw (g.kept.begins, g.kept.ends) high;
        based = rw (g.kept.begins, g.kept.ends) v.based;
      };
      at = refl;
      live = rw (g.kept.begins) g.live;
      fresh = g.fresh;
      room = omega arith;
      inside = (g.above, g.below);
      aligned = g.aligned;
    }

-- In a well-formed heap `allocate` gives a null pointer and leaves the heap alone, or it gives a new block:
-- inside the heap, apart from every live block, with room for the bytes, aligned as asked for and at least
-- to 16. The other live blocks stay, and the heap stays well-formed.
pub allocate-IsNew :
    (s : Heap) (bs : List Piece) (bytes alignment : ℕ)
    → IsValid s bs
    → (allocate s bytes alignment ≡ (0, s))
      ⊎ IsNew s (allocate s bytes alignment).1 bs bytes alignment (allocate s bytes alignment).0
unfolding allocate
allocate-IsNew s bs bytes alignment v =
    let P = λ (r : ℕ × Heap). (r ≡ (0, s)) ⊎ IsNew s r.1 bs bytes alignment r.0 in
    let al = (if ltb alignment 16 then 16 else alignment) in
    let wanted = align_up bytes 16 in
    let high = v.high in
    if_cases P (bytes == 0 || alignment == 0 || not (bit_and alignment (alignment - 1) == 0)) _ _
      (λ e. inl refl)
      (λ proper.
        if_cases P (ltb (s.heap_end - s.heap_begin) bytes || ltb (s.heap_end - s.heap_begin) al) _ _
          (λ e. inl refl)
          (λ fits.
            let some_bytes : 0 < bytes = ground arith in
            let power : bit_and alignment (alignment - 1) ≡ 0 = ground arith in
            let large : 16 ≤ al = ground arith in
            let less : bytes ≤ s.heap_end - s.heap_begin = ground arith in
            let small : al ≤ s.heap_end - s.heap_begin = ground arith in
            let even : al % 16 ≡ 0 =
              if_cases (λ (y : ℕ). y % 16 ≡ 0) (ltb alignment 16) _ _ (λ h. refl)
                (λ h. power_multiple alignment (ground arith) power) in
            let (enough, close) = align_up-bounds bytes 16 (omega arith) (omega arith) in
            let whole = align_up-multiple bytes 16 (omega arith) in
            let first : 0 < s.heap_begin = (elim v.based [
              | inl h ↦ h
              | inr h ↦ absurd (omega arith)
            ]) in
            let r = allocate_from (s.heap_end - s.heap_begin) s 0 al wanted in
            elim (allocate_from-Allocated s al wanted large even (omega arith) whole (omega arith)
              v.even_end (s.heap_end - s.heap_begin) 0 s.heap_begin false bs (omega arith) first
              v.even v.chain v.tidy) [
                | inl (none_left, same) ↦ inl (pair_eq none_left same)
                | inr (x, k, at, g) ↦ inr (
                    subst (λ (y : ℕ). IsNew s r.1 bs bytes alignment y) (sym at)
                      (IsGiven-IsNew s r.1 bs bytes alignment wanted x k v g enough))
              ]))
