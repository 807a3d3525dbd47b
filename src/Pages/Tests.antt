-- ===== src/Pages/Tests.antt =====
-- kernel/memory/page_allocator.cpp on small arrays and maps.
use shirleys_os.Pages.History.{allocate, here, next, allocate_page-fresh, IsValid, System}
use shirleys_os.Pages.Allocator.Boot.Safe.{initialize-safe, InRegion}
use shirleys_os.Pages.Allocator.Boot.Usable.{Adds}
use shirleys_os.Pages.Subtract.Exact.{subtract_extent-exact}
use shirleys_os.Pages.Allocator.Allocate.{allocate_page-exact}
use shirleys_os.Pages.Insert.{insert_extent-IsSorted-Covers, insert_extent-repeats}
use shirleys_os.Pages.Allocator.Free.{free_page-exact}
use shirleys_os.Pages.Allocator.Bridge.{free_page-repeats}
use shirleys_os.Pages.Allocator.Boot.Map.{initialize-Booted, Booted}
use shirleys_os.Pages.Allocator.Boot.{InOrder}
use shirleys_os.Pages.Allocator.{
  removed_of_region, added_of, is_usable, contains_from, contains, initialize, Allocator, free_page,
  allocate_page, BootInfo,
}
use shirleys_os.Pages.Cover.{first_index, Holds, last_index, page_at, Covers, IsPaged, IsSorted}
use shirleys_os.Pages.Extents.{
  close_gap, MemoryType, align_down, align_usable, align_reserved, reserved, usable, move_tail,
  widen, page_size, absorb, subtract_extent, insert_extent, Region, Extent, find_first, Extents,
}
use shirleys_os.Prelude.{
  zero, suc, List, [], ◌∷◌, ◌≢◌, update, ◌^◌, false, true, refl, inl, ◌⊎◌, ◌≤◌, ◌↔◌, ◌<◌, ◌==◌, ◌≡◌,
  some, if◌then◌else◌, ◌%◌, ◌+◌, arith, ◌*◌, ℕ, ℕ_discrete,
}

abbrev page : ℕ → ℕ → Extent
page first last = record { begin = first * page_size; end = last * page_size }

-- Pages 1, 3, 5 and 7 are free.
abbrev odd_pages : Extents
odd_pages = record { items = λ k. page (k + k + 1) (k + k + 2); count = 4 }

odd_pages-IsSorted : IsSorted odd_pages
odd_pages-IsSorted = record { nonempty = λ j h. omega arith; apart = λ i j h k. omega arith }

odd_pages-IsPaged : IsPaged odd_pages
odd_pages-IsPaged = record {
  begin_aligned = λ j h. omega arith;
  end_aligned = λ j h. omega arith;
  positive = λ j h. omega arith;
  in_range = λ j h. omega arith;
}

-- Pages 1 to 19 are managed.
abbrev managed_pages : Extents
managed_pages = record { items = λ k. page 1 20; count = 1 }

managed_pages-IsSorted : IsSorted managed_pages
managed_pages-IsSorted = record {
  nonempty = λ j h. omega arith;
  apart = λ i j h k. absurd (omega arith);
}

managed_pages-IsPaged : IsPaged managed_pages
managed_pages-IsPaged = record {
  begin_aligned = λ j h. omega arith;
  end_aligned = λ j h. omega arith;
  positive = λ j h. omega arith;
  in_range = λ j h. omega arith;
}

abbrev running : Allocator
running = record { managed = managed_pages; free = odd_pages; total = 19; available = 4 }

page_8-taken : ¬ Covers odd_pages (8 * page_size)
page_8-taken (j, h, held) = omega arith

page_2-taken : ¬ Covers odd_pages (2 * page_size)
page_2-taken (j, h, held) = omega arith

-- Page 2 joins pages 1 and 3; pages 5 and 7 stand behind: afterwards page 7 is listed twice.
free_page_2 :
    ((free_page running (2 * page_size)).free.items 1 ≡ page 7 8)
    × ((free_page running (2 * page_size)).free.items 2 ≡ page 7 8)
    × ((free_page running (2 * page_size)).free.count ≡ 3)
unfolding free_page insert_extent find_first absorb move_tail widen contains contains_from
free_page_2 = (refl, refl, refl)

-- The pages that the next calls return, in their order.
unfoldable handed_out : ℕ → Allocator → List ℕ
handed_out zero s = []
handed_out (suc n) s = (allocate_page s).0 ∷ handed_out n (allocate_page s).1

-- After that call, pages 1, 2 and 3 are handed out, and then page 7 twice.
page_7_twice :
    handed_out 5 (free_page running (2 * page_size))
    ≡ page_size ∷ 2 * page_size ∷ 3 * page_size ∷ 7 * page_size ∷ 7 * page_size ∷ []
unfolding handed_out allocate_page free_page insert_extent find_first absorb move_tail widen
    close_gap contains contains_from
page_7_twice = refl

free_page-repeats_example :
    let y = (free_page running (2 * page_size)).free in
    ((i : ℕ) × (j : ℕ) × (i < j) × (j < y.count) × (y.items i ≡ y.items j)) × ¬ IsSorted y
free_page-repeats_example =
    free_page-repeats running (2 * page_size) 0 managed_pages-IsSorted managed_pages-IsPaged
      odd_pages-IsSorted refl (0, omega arith, (omega arith, omega arith)) page_2-taken refl refl
      (omega arith)

insert_extent-repeats_example :
    let y = (insert_extent odd_pages (page_at (2 * page_size))).0 in
    let i : ℕ = first_index odd_pages (page_at (2 * page_size)) in
    let j : ℕ = last_index odd_pages (page_at (2 * page_size)) in
    (i + 1 < j) × (j < y.count) × (y.items (i + 1) ≡ y.items j)
unfolding find_first absorb widen
insert_extent-repeats_example =
    insert_extent-repeats odd_pages (page_at (2 * page_size)) odd_pages-IsSorted (omega arith)
      (omega arith)

-- Page 8 extends the last free extent.
insert_extent-IsSorted-Covers_example :
    IsSorted (insert_extent odd_pages (page 8 9)).0
    × ((a : ℕ)
        → Covers (insert_extent odd_pages (page 8 9)).0 a
          ↔ (Covers odd_pages a ⊎ Holds (page 8 9) a))
unfolding insert_extent find_first absorb widen
insert_extent-IsSorted-Covers_example =
    insert_extent-IsSorted-Covers odd_pages (page 8 9) odd_pages-IsSorted (omega arith)
      (inl (omega arith)) refl

subtract_extent-exact_example :
    (z : Extents) × (subtract_extent managed_pages (page 5 7) ≡ some z)
    × IsSorted z
    × IsPaged z
    × (z.count ≤ 2)
    × ((a : ℕ) → Covers z a ↔ (Covers managed_pages a × ¬ Holds (page 5 7) a))
subtract_extent-exact_example =
    subtract_extent-exact managed_pages (page 5 7) (omega arith) managed_pages-IsSorted
      managed_pages-IsPaged (omega arith) (omega arith, inl (omega arith))

allocate_page-exact_example :
    let (page, t) = allocate_page running in
    (page % page_size ≡ 0)
    × (0 < page)
    × ((a : ℕ) → Holds (page_at page) a → Covers running.free a)
    × ((a : ℕ) → Covers t.free a ↔ (Covers running.free a × ¬ Holds (page_at page) a))
    × IsSorted t.free
    × IsPaged t.free
    × (t.managed ≡ running.managed)
allocate_page-exact_example =
    allocate_page-exact running odd_pages-IsSorted odd_pages-IsPaged (omega arith)

free_page-exact_example :
    let t = free_page running (8 * page_size) in
    ((a : ℕ) → Covers t.free a ↔ (Covers running.free a ⊎ Holds (page_at (8 * page_size)) a))
    × IsSorted t.free
    × IsPaged t.free
    × (t.available ≡ 5)
    × (t.managed ≡ running.managed)
unfolding find_first absorb widen
free_page-exact_example =
    free_page-exact running (8 * page_size) managed_pages-IsSorted managed_pages-IsPaged
      odd_pages-IsSorted odd_pages-IsPaged refl (0, omega arith, (omega arith, omega arith))
      page_8-taken (omega arith) (inl (omega arith))

-- A map of three regions: usable, reserved and across the end of the first one, usable.
abbrev regions : ℕ → Region
regions k =
    if k == 0
    then record { physical_start = 0; length = 0xa0000; type = usable }
    else if k == 1
    then record { physical_start = 0x9fc00; length = 0x400; type = reserved }
    else record { physical_start = 0x100000; length = 0x80000; type = usable }

abbrev info : BootInfo
info = record { version = 1; memory_regions = some regions; memory_region_count = 3 }

regions-InOrder : InOrder regions 3
unfolding is_usable
regions-InOrder i j h k u w = elim (ℕ_discrete j 1) [
  | yes one ↦ let no : is_usable reserved ≡ true = (rw one at w) in absurd cc
  | no ne ↦ elim (ℕ_discrete i 1) [
    | yes one ↦ let no : is_usable reserved ≡ true = (rw one at u) in absurd cc
    | no other ↦
        let first : i ≡ 0 = omega arith in
        let last : j ≡ 2 = omega arith in rw (first, last) (omega arith)
  ]
]

initialize-Booted_example :
    (t : Allocator) × (initialize running info ≡ some t) × Booted regions 3 t
initialize-Booted_example =
    initialize-Booted running info regions refl refl regions-InOrder (omega arith)

-- A map of the first two regions.
abbrev low_memory : BootInfo
low_memory = record info { memory_region_count = 2 }

low_memory-InOrder : InOrder regions 2
low_memory-InOrder i j h k = regions-InOrder i j h (omega arith)

low_memory-Booted : (t : Allocator) × (initialize running low_memory ≡ some t) × Booted regions 2 t
low_memory-Booted =
    initialize-Booted running low_memory regions refl refl low_memory-InOrder (omega arith)

low_memory-free : Covers low_memory-Booted.0.free 0x2000
low_memory-free =
    let b = low_memory-Booted.2 in
    (b.all_free 0x2000).1 (
      (b.managed_iff 0x2000).1
        ((0, omega arith, added), λ (j, h, (e, q, held)). none_removed j h e q held))
  where
    added : Adds (regions 0) 0x2000
    added = (
      page 1 0xa0,
      (unfold added_of is_usable align_usable align_down in refl),
      (omega arith, omega arith),
    )

    -- The reserved region takes away its own page only.
    none_removed :
        (j : ℕ) → j < 2 → (e : Extent) → removed_of_region (regions j) ≡ some e → ¬ Holds e 0x2000
    none_removed j h e q held = elim (ℕ_discrete j 0) [
      | yes z ↦
          let q' : removed_of_region (regions 0) ≡ some e = (rw z at q) in
          absurd (unfold removed_of_region is_usable in cc)
      | no ne ↦
          let z : j ≡ 1 = omega arith in
          let q' : removed_of_region (regions 1) ≡ some e = (rw z at q) in
          let r : removed_of_region (regions 1) ≡ some (page 0x9f 0xa0) =
            (unfold removed_of_region is_usable align_reserved align_down in refl) in
          let same : e ≡ page 0x9f 0xa0 = cc in
          let held' : Holds (page 0x9f 0xa0) 0x2000 = (rw same at held) in omega arith
    ]

initialize-safe_example :
    ((j : ℕ) × (j < 2) × ((regions j).type ≡ MemoryType.usable) × InRegion (regions j) 0x2000)
    × ((j : ℕ)
        → ¬ (
            (j < 2)
            × ((regions j).type ≢ MemoryType.usable)
            × ((regions j).physical_start + (regions j).length < 2 ^ 64)
            × InRegion (regions j) 0x2000))
initialize-safe_example =
    initialize-safe running low_memory-Booted.0 low_memory regions refl refl low_memory-InOrder
      (omega arith) low_memory-Booted.1 0x2000 low_memory-free

abbrev idle : System
idle = record { allocator = running; owned = λ p. false }

idle-IsValid : IsValid idle
idle-IsValid = record {
  managed_sorted = managed_pages-IsSorted;
  managed_paged = managed_pages-IsPaged;
  free_sorted = odd_pages-IsSorted;
  free_paged = odd_pages-IsPaged;
  free_managed = λ a (j, h, held). (0, omega arith, (omega arith, omega arith));
  owned_page = λ p h. cc;
}

-- After one call the next one returns another page.
allocate_page-fresh_example :
    let t = (allocate_page running).1 in
    let (page, u) = allocate_page t in
    (update (λ p. false) (allocate_page running).0 true page ≡ false)
    × Covers t.managed page
    × ¬ Covers u.free page
unfolding allocate_page
allocate_page-fresh_example =
    allocate_page-fresh idle _ idle-IsValid (next here (allocate idle (omega arith))) (omega arith)
