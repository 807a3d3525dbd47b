-- ===== src/Heap/Tests.antt =====
-- kernel/memory/heap.cpp on a heap of 256 bytes at 0x1000.
use shirleys_os.Heap.{Heap, initialize, allocate, free}
use shirleys_os.Heap.Check.{consistent, available, largest_available}
use shirleys_os.Heap.Chain.{Piece, vacant, held, IsValid, Live}
use shirleys_os.Heap.Allocate.{allocate-IsNew, IsNew}
use shirleys_os.Heap.Free.{free-Outcome, IsReleased}
use shirleys_os.Heap.History.{begun, allocated, freed, Reachable-consistent}
use shirleys_os.Prelude.{ℕ, ◌≡◌, ◌≢◌, ◌⊎◌, ◌+◌, refl, true, List, [], ◌∷◌, arith, inl}

abbrev blank : Heap
blank = record {
  heap_begin = 0;
  heap_end = 0;
  free_bytes = 0;
  sizes = λ a. 0;
  tags = λ a. 0;
  links = λ a. 0;
}

abbrev fresh : Heap
fresh = initialize blank 0x1000 256

abbrev one : Heap
one = (allocate fresh 20 16).1

abbrev two : Heap
two = (allocate one 40 128).1

first_payload : (allocate fresh 20 16).0 ≡ 0x1010
unfolding initialize allocate
first_payload = refl

-- Aligned to 128, behind a gap that is a free block of its own.
second_payload : (allocate one 40 128).0 ≡ 0x1080
unfolding initialize allocate
second_payload = refl

two_available : available two ≡ 144
unfolding initialize allocate available
two_available = refl

two_largest : largest_available two ≡ 64
unfolding initialize allocate largest_available
two_largest = refl

too_much : (allocate two 100 16).0 ≡ 0
unfolding initialize allocate
too_much = refl

-- A block given back twice, and a pointer into a block.
twice : free (free two 0x1010) 0x1010 ≡ free two 0x1010
unfolding initialize allocate free
twice = refl

inner : free two 0x1020 ≡ two
unfolding initialize allocate free
inner = refl

all_back : (available (free (free two 0x1080) 0x1010) ≡ 256)
unfolding initialize allocate free available
all_back = refl

abbrev fresh_blocks : List Piece
fresh_blocks = vacant 256 ∷ []

fresh-IsValid : IsValid fresh fresh_blocks
unfolding initialize
fresh-IsValid = record {
  chain = (refl, refl, refl, (refl, refl));
  tidy = ((omega arith, omega arith), refl, tt);
  even = refl;
  even_end = refl;
  bytes = refl;
  high = omega arith;
  based = inl (omega arith);
}

abbrev one_blocks : List Piece
one_blocks = held 48 ∷ vacant 208 ∷ []

one-IsValid : IsValid one one_blocks
unfolding initialize allocate
one-IsValid = record {
  chain = (refl, refl, (refl, refl, refl, (refl, refl)));
  tidy = ((omega arith, omega arith), ((omega arith, omega arith), refl, tt));
  even = refl;
  even_end = refl;
  bytes = refl;
  high = omega arith;
  based = inl (omega arith);
}

Reachable-consistent_example : consistent (free two 0x1010) ≡ true
Reachable-consistent_example = Reachable-consistent (free two 0x1010) (
    freed two 0x1010
      (allocated one 40 128 (allocated fresh 20 16 (begun blank 0x1000 256 (omega arith)))))

allocate-IsNew_example :
    (allocate one 40 128 ≡ (0, one))
    ⊎ IsNew one (allocate one 40 128).1 one_blocks 40 128 (allocate one 40 128).0
allocate-IsNew_example = allocate-IsNew one one_blocks 40 128 one-IsValid

free-Outcome_example :
    ((x : ℕ) × (n : ℕ) × (0x1010 ≡ x + 16)
      × Live one.heap_begin one_blocks x n
      × IsReleased one (free one 0x1010) one_blocks x)
    ⊎ (((x n : ℕ) → Live one.heap_begin one_blocks x n → 0x1010 ≢ x + 16) × (free one 0x1010 ≡ one))
free-Outcome_example = free-Outcome one one_blocks one-IsValid 0x1010
