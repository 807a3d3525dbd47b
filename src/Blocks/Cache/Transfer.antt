-- ===== src/Blocks/Cache/Transfer.antt =====
-- kernel/io/block_cache.cpp: reads and writes of blocks, and `sync`.
use shirleys_os.Io.{Error, Result, BlockDevice, failed, succeeded}
use shirleys_os.Blocks.RamDisk.{out_of_range, is_null}
use shirleys_os.Prelude.{
  ℕ, zero, suc, ◌+◌, ◌*◌, ◌%◌, Bool, true, false, not, ◌||◌, ◌&&◌, ◌==◌, if◌then◌else◌, List, [],
  ◌++◌, Option, none, some, u64_mod, slice, copy_bytes,
}
use shirleys_os.Blocks.Cache.{BlockCache, ready, set_entry, fine, release, read, overwrite}
use shirleys_os.Blocks.Cache.Acquire.{acquire, write_back, block_count}

module _ {W : Type 0} (dev : BlockDevice W) where
  -- The loop of `read_blocks` from block `first + i` on.
  unfoldable pub read_loop : ℕ → ℕ → ℕ → BlockCache → W → Result × List ℕ × BlockCache × W
  unfolding acquire release
  read_loop zero first i c w = (fine (i * c.block_bytes), [], c, w)
  read_loop (suc left) first i c w =
      let a = acquire dev read c w (first + i) in
      elim a.buffer [
        | none ↦
            (record { transferred = i * c.block_bytes; error = a.error }, [], a.cache, a.device)
        | some j ↦
            let (r, rest, c', w') =
              read_loop left first (i + 1) (release a.cache (some j) false) a.device in
            (r, slice (a.cache.entries j).content 0 c.block_bytes ++ rest, c', w')
      ]

  unfoldable pub read_blocks : BlockCache → W → ℕ → ℕ → Bool → Result × List ℕ × BlockCache × W
  unfolding read_loop ready block_count
  read_blocks c w first count room =
      if not (count == 0) && not room
      then (failed Error.invalid_argument, [], c, w)
      else if not (ready c)
      then (failed Error.device_error, [], c, w)
      else if out_of_range (block_count dev c w) c.block_bytes first count
      then (failed Error.out_of_range, [], c, w)
      else read_loop count first 0 c w

  unfoldable pub write_loop : (ℕ → ℕ) → ℕ → ℕ → ℕ → BlockCache → W → Result × BlockCache × W
  unfolding acquire release
  write_loop source zero first i c w = (fine (i * c.block_bytes), c, w)
  write_loop source (suc left) first i c w =
      let a = acquire dev overwrite c w (first + i) in
      elim a.buffer [
        | none ↦ (record { transferred = i * c.block_bytes; error = a.error }, a.cache, a.device)
        | some j ↦
            let e = a.cache.entries j in
            let content =
              copy_bytes e.content 0 (λ k. source (i * c.block_bytes + k)) c.block_bytes 0 in
            write_loop source left first (i + 1)
              (release (set_entry a.cache j (record e { content = content })) (some j) true)
              a.device
      ]

  unfoldable pub write_blocks : BlockCache → W → ℕ → ℕ → Option (ℕ → ℕ) → Result × BlockCache × W
  unfolding write_loop ready block_count is_null
  write_blocks c w first count buffer =
      if not (count == 0) && is_null buffer
      then (failed Error.invalid_argument, c, w)
      else if not (ready c)
      then (failed Error.device_error, c, w)
      else if out_of_range (block_count dev c w) c.block_bytes first count
      then (failed Error.out_of_range, c, w)
      else elim buffer [ none ↦ (fine 0, c, w) | some source ↦ write_loop source count first 0 c w ]

  -- The loop of `sync`: the bytes written and the first error so far.
  unfoldable pub sync_from : ℕ → ℕ → ℕ → Error → BlockCache → W → Result × BlockCache × W
  unfolding write_back
  sync_from zero i written failure c w = (record { transferred = written; error = failure }, c, w)
  sync_from (suc left) i written failure c w =
      let skip = not (c.entries i).valid || not (c.entries i).dirty in
      let (r, c', w') = if skip then (fine 0, c, w) else write_back dev c w i in
      sync_from left (i + 1)
        (if skip
          then written
          else if succeeded r
          then (written + c.block_bytes) % u64_mod
          else written)
        (if succeeded r then failure else if succeeded (failed failure) then r.error else failure)
        c' w'

  unfoldable pub sync : BlockCache → W → Result × BlockCache × W
  unfolding sync_from
  sync c w = sync_from c.capacity 0 0 Error.none c w
