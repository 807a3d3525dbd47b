-- ===== src/Elf/Inside.antt =====
-- boot/common/elf64.cpp: what the checks of a file promise its loader.
use shirleys_os.Elf.{
  Header, Elf64Segment, header_at, header_ok, header_of, identifier_ok, range_ok, program_offset,
  program_header_at, valid_from, elf64_valid, segment_of, segments_from, elf64_segments,
}
use native.Mathlib.Nat.{mul-le-mul_right}
use shirleys_os.Prelude.{
  ℕ, zero, suc, ◌+◌, ◌*◌, Bool, true, false, not, ◌||◌, ◌==◌, ltb, List, [], ◌∷◌, none, some, subst,
  sym, ◌≡◌, ◌≤◌, ◌<◌, Bool-cases, Option-cases, inl, inr, arith, length, if_both, if_cases,
}

-- The bytes of a segment lie in the file, and no more of them than it has memory.
pub record IsInside (size : ℕ) (s : Elf64Segment) : Type 0 where
  pub inside : s.file_offset + s.file_size ≤ size
  pub filled : s.file_size ≤ s.memory_size
  pub memory : 0 < s.memory_size

abbrev pub AreInside : ℕ → List Elf64Segment → Type 0
AreInside size [] = Unit
AreInside size (s ∷ segments) = IsInside size s × AreInside size segments

range_ok-inside :
    (offset length size : ℕ) → range_ok offset length size ≡ true → offset + length ≤ size
unfolding range_ok
range_ok-inside offset length size e = ground arith

abbrev Answer : ℕ → ℕ → List Elf64Segment → Type 0
Answer size capacity segments = AreInside size segments × (length segments ≤ capacity)

segments_from-Answer :
    (h : Header) (bytes : ℕ → ℕ) (size left index room : ℕ)
    → valid_from h bytes size left index ≡ true
    → Answer size room (segments_from h bytes left index room)
unfolding valid_from segments_from segment_of
segments_from-Answer h bytes size zero index room e = (tt, omega arith)
segments_from-Answer h bytes size (suc left) index zero e = (tt, omega arith)
segments_from-Answer h bytes size (suc left) index (suc room) e =
    let p = program_header_at h bytes index in
    let rest : valid_from h bytes size left (index + 1) ≡ true = ground arith in
    let (more, few) = segments_from-Answer h bytes size left (index + 1) room rest in
    if_cases (Answer size (suc room)) (not (p.type == 1) || p.memory_size == 0) _ _
      (λ skipped. segments_from-Answer h bytes size left (index + 1) (suc room) rest)
      (λ loaded.
        let range : range_ok p.offset p.file_size size ≡ true = ground arith in
        (
          (
            record {
              inside = range_ok-inside p.offset p.file_size size range;
              filled = ground arith;
              memory = ground arith;
            },
            more,
          ),
          omega (arith, few),
        ))

-- The program headers that a header announces lie in the file.
abbrev pub HasTable : ℕ → Header → Type 0
HasTable size h = (index : ℕ) → index < h.program_header_count → program_offset h index + 56 ≤ size

header_ok-HasTable :
    (h : Header) (size machine : ℕ) → header_ok h size machine ≡ true → HasTable size h
unfolding header_ok program_offset
header_ok-HasTable h size machine e index l =
    let n = h.program_header_entry_size in
    let c = h.program_header_count in
    let big : 56 ≤ n = ground arith in
    let ranged : range_ok h.program_header_offset (n * c) size ≡ true = ground arith in
    let table = range_ok-inside h.program_header_offset (n * c) size ranged in
    let far : (index + 1) * n ≤ c * n = mul-le-mul_right n (omega arith) in
    omega (arith, table, far, big)

header_of-some :
    (bytes : ℕ → ℕ) (size machine : ℕ) (h : Header)
    → header_of (some bytes) size machine ≡ some h
    → (header_at bytes ≡ h) × (header_ok (header_at bytes) size machine ≡ true)
unfolding header_of
header_of-some bytes size machine h e = elim (Bool-cases (ltb size 64)) [
  | inl short ↦ absurd (let z : none ≡ some h = (rw short at e) in cc)
  | inr enough ↦ elim (Bool-cases (not (identifier_ok bytes))) [
    | inl other ↦ absurd (let z : none ≡ some h = (rw (enough, other) at e) in cc)
    | inr elf ↦ elim (Bool-cases (header_ok (header_at bytes) size machine)) [
      | inr bad ↦ absurd (let z : none ≡ some h = (rw (enough, elf, bad) at e) in cc)
      | inl good ↦
          let z : some (header_at bytes) ≡ some h = (rw (enough, elf, good) at e) in (cc, good)
    ]
  ]
]

elf64_valid-checked :
    (bytes : ℕ → ℕ) (size machine : ℕ)
    → elf64_valid (some bytes) size machine ≡ true
    → (header_ok (header_at bytes) size machine ≡ true)
      × (valid_from (header_at bytes) bytes size (header_at bytes).program_header_count 0 ≡ true)
unfolding elf64_valid
elf64_valid-checked bytes size machine e =
    elim (Option-cases (header_of (some bytes) size machine)) [
      | inl bad ↦ absurd (let z : false ≡ true = (rw (elf64_valid, bad) at e) in ground arith)
      | inr (h, found) ↦
          let (same, good) = header_of-some bytes size machine h found in
          let walked : valid_from h bytes size h.program_header_count 0 ≡ true =
            (rw (elf64_valid, found) at e) in
          (
            good,
            subst (λ (x : Header). valid_from x bytes size x.program_header_count 0 ≡ true)
                (sym same) walked,
          )
    ]

-- For a file that `elf64_valid` accepts, every program header that the loops read lies in the file, and each
-- segment that `elf64_segments` gives has its bytes in the file, memory for all of them, and is not empty;
-- there are no more of them than the array has room for.
pub elf64_segments-AreInside :
    (bytes : ℕ → ℕ) (size machine : ℕ) (given : Bool) (capacity : ℕ)
    → elf64_valid (some bytes) size machine ≡ true
    → HasTable size (header_at bytes)
      × AreInside size (elf64_segments (some bytes) size machine given capacity)
      × (length (elf64_segments (some bytes) size machine given capacity) ≤ capacity)
unfolding elf64_segments
elf64_segments-AreInside bytes size machine given capacity e =
    let h = header_at bytes in
    let (good, walked) = elf64_valid-checked bytes size machine e in
    let (inside, few) : Answer size capacity
        (elf64_segments (some bytes) size machine given capacity) =
      if_both (Answer size capacity) (not given || capacity == 0) _ _ (tt, omega arith)
        (if_both (Answer size capacity) (not (elf64_valid (some bytes) size machine)) _ _
          (tt, omega arith)
          (segments_from-Answer h bytes size h.program_header_count 0 capacity walked)) in
    (header_ok-HasTable h size machine good, inside, few)
