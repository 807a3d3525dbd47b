-- ===== src/Pages/Allocator/Boot/Map.antt =====
-- kernel/memory/page_allocator.cpp: `initialize` as a whole, on a memory map whose usable regions come
-- in order of addresses.
use shirleys_os.Prelude.{
  ℕ, zero, suc, ◌+◌, ◌<◌, ◌≡◌, ◌↔◌, refl, inl, inr, leb, ltb, arith, if◌then◌else◌, update, ◌&&◌,
  some,
}
use shirleys_os.Pages.Extents.{Extent, Extents, Region, max_extents}
use shirleys_os.Pages.Cover.{IsSorted, Covers, IsPaged}
use shirleys_os.Pages.Allocator.{
  Allocator, BootInfo, current_version, insert_regions, subtract_regions, copy_extents, count_pages,
  cleared, start, initialize,
}
use shirleys_os.Pages.Allocator.Boot.{InOrder}
use shirleys_os.Pages.Allocator.Boot.Usable.{Adds, insert_regions-Grown}
use shirleys_os.Pages.Allocator.Boot.Reserved.{Removes, subtract_regions-Shrunk}

copy_extents_lem :
    (source : ℕ → Extent) (left i : ℕ) (target : ℕ → Extent) (k : ℕ)
    → copy_extents source left i target k
      ≡ (if leb i k && ltb k (i + left) then source k else target k)
unfolding copy_extents
copy_extents_lem source zero i target k = ground arith
copy_extents_lem source (suc left) i target k =
    ground (arith, copy_extents_lem source left (i + 1) (update target i (source i)) k)

-- Two arrays with the same entries in use.
record Same (x y : Extents) : Type 0 where
  count : y.count ≡ x.count
  items : (k : ℕ) → k < x.count → y.items k ≡ x.items k

Same-IsSorted : {x y : Extents} → Same x y → IsSorted x → IsSorted y
Same-IsSorted e s = record {
  nonempty = λ j h. rw (e.items j (omega (arith, e.count))) (s.nonempty j (omega (arith, e.count)));
  apart = λ i j h k.
      rw (e.items i (omega (arith, e.count)), e.items j (omega (arith, e.count)))
        (s.apart i j h (omega (arith, e.count)));
}

Same-IsPaged : {x y : Extents} → Same x y → IsPaged x → IsPaged y
Same-IsPaged e p = record {
  begin_aligned =
      λ j h. rw (e.items j (omega (arith, e.count))) (p.begin_aligned j (omega (arith, e.count)));
  end_aligned =
      λ j h. rw (e.items j (omega (arith, e.count))) (p.end_aligned j (omega (arith, e.count)));
  positive = λ j h. rw (e.items j (omega (arith, e.count))) (p.positive j (omega (arith, e.count)));
  in_range = λ j h. rw (e.items j (omega (arith, e.count))) (p.in_range j (omega (arith, e.count)));
}

Same-Covers : {x y : Extents} → Same x y → (a : ℕ) → Covers y a ↔ Covers x a
Same-Covers e a = (
  λ (j, h, held). (j, omega (arith, e.count), (rw (e.items j (omega (arith, e.count))) at held)),
  λ (j, h, held). (j, omega (arith, e.count), (rw (e.items j h) held)),
)

start-Same : (s : Allocator) (x : Extents) → Same x (start s x).free
unfolding start
start-Same s x = record {
  count = refl;
  items = λ k h. ground (arith, copy_extents_lem x.items x.count 0 s.free.items k);
}

start_fields :
    (s : Allocator) (x : Extents)
    → ((start s x).managed ≡ x)
      × ((start s x).total ≡ count_pages x)
      × ((start s x).available ≡ count_pages x)
unfolding start
start_fields s x = (refl, refl, refl)

-- What the two loops make of the map.
abbrev pub Wanted : (ℕ → Region) → ℕ → ℕ → Type 0
Wanted regions count a =
    ((j : ℕ) × (j < count) × Adds (regions j) a) × ¬ ((j : ℕ) × (j < count) × Removes (regions j) a)

pub record Booted (regions : ℕ → Region) (count : ℕ) (t : Allocator) : Type 0 where
  pub managed_sorted : IsSorted t.managed
  pub managed_paged : IsPaged t.managed
  pub free_sorted : IsSorted t.free
  pub free_paged : IsPaged t.free
  pub all_free : (a : ℕ) → Covers t.free a ↔ Covers t.managed a
  pub managed_iff : (a : ℕ) → Covers t.managed a ↔ Wanted regions count a
  pub total_pages : t.total ≡ count_pages t.managed
  pub available_pages : t.available ≡ count_pages t.managed

empty_managed : (s : Allocator) → (cleared s).managed.count ≡ 0
unfolding cleared
empty_managed s = refl

start-Booted :
    (s : Allocator) (regions : ℕ → Region) (count : ℕ) (x : Extents)
    → IsSorted x
    → IsPaged x
    → ((a : ℕ) → Covers x a ↔ Wanted regions count a)
    → Booted regions count (start s x)
start-Booted s regions count x sorted paged wanted =
    let fields = start_fields s x in
    let same = start-Same s x in
    record {
      managed_sorted = rw fields.0 sorted;
      managed_paged = rw fields.0 paged;
      free_sorted = Same-IsSorted same sorted;
      free_paged = Same-IsPaged same paged;
      all_free = λ a. rw fields.0 (Same-Covers same a);
      managed_iff = λ a. rw fields.0 (wanted a);
      total_pages = rw fields.0 fields.1;
      available_pages = rw fields.0 fields.2;
    }

initialize-regions :
    (s : Allocator) (info : BootInfo) (regions : ℕ → Region) {y : Extents}
    → info.version ≡ current_version
    → info.memory_regions ≡ some regions
    → subtract_regions regions info.memory_region_count 0
        (insert_regions regions info.memory_region_count 0 (cleared s).managed)
      ≡ some y
    → initialize s info ≡ some (start s y)
unfolding initialize
initialize-regions s info regions version there e = rw (version, there, initialize) (rw e)

-- `initialize`, on fewer than 2048 regions of which the usable ones come in order of addresses and do
-- not overlap each other, ends with sorted extents of whole pages, all of them free, that hold exactly
-- the addresses of the page-aligned usable regions outside the page-aligned regions of every other
-- type. A region of another type may overlap any region, and wins against a usable one.
pub initialize-Booted :
    (s : Allocator) (info : BootInfo) (regions : ℕ → Region)
    → info.version ≡ current_version
    → info.memory_regions ≡ some regions
    → InOrder regions info.memory_region_count
    → info.memory_region_count + info.memory_region_count < max_extents
    → (t : Allocator) × (initialize s info ≡ some t) × Booted regions info.memory_region_count t
initialize-Booted s info regions version there order small =
    let count = info.memory_region_count in
    let x : Extents = (cleared s).managed in
    let none_yet = empty_managed s in
    let grown =
      insert_regions-Grown regions count order (omega arith) count 0 x (omega arith)
        (record { nonempty = λ j h. absurd (omega arith); apart = λ i j h k. absurd (omega arith) })
        (record {
          begin_aligned = λ j h. absurd (omega arith);
          end_aligned = λ j h. absurd (omega arith);
          positive = λ j h. absurd (omega arith);
          in_range = λ j h. absurd (omega arith);
        })
        (omega arith) (λ a (k, h, held). absurd (omega arith)) in
    let (y, e, shrunk) =
      subtract_regions-Shrunk regions count 0 (insert_regions regions count 0 x) grown.sorted
        grown.paged (omega (arith, grown.count_le)) in
    (
      start s y,
      initialize-regions s info regions version there e,
      start-Booted s regions count y shrunk.sorted shrunk.paged (λ a. (
        λ c.
            let (mid, out) = (shrunk.covers a).0 c in
            (
              elim ((grown.covers a).0 mid) [
                | inl (k, h, held) ↦ absurd (omega arith)
                | inr (j, _, h, adds) ↦ (j, h, adds)
              ],
              λ (j, h, gone). out (j, omega arith, omega arith, gone),
            ),
        λ ((j, h, adds), out). (shrunk.covers a).1 (
          (grown.covers a).1 (inr (j, omega arith, h, adds)),
          λ (k, _, l, gone). out (k, omega arith, gone),
        ),
      )),
    )
