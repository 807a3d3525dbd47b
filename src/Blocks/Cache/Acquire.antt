-- ===== src/Blocks/Cache/Acquire.antt =====
-- kernel/io/block_cache.cpp: `acquire` and the parts of it that call the device.
use shirleys_os.Io.{Error, Result, BlockDevice, succeeded}
use shirleys_os.Prelude.{
  ℕ, ◌+◌, ◌*◌, ◌/◌, ◌%◌, true, false, not, ◌&&◌, leb, if◌then◌else◌, none, some, u64_mod,
}
use shirleys_os.Blocks.Cache.{
  Access, BlockCache, ready, set_entry, find, victim, fill, Acquired, pin, refused, fine, read,
  overwrite,
}

module _ {W : Type 0} (dev : BlockDevice W) where
  unfoldable pub block_count : BlockCache → W → ℕ
  unfolding ready
  block_count c w = if ready c then dev.block_count w / c.device_blocks else 0

  unfoldable pub write_back : BlockCache → W → ℕ → Result × BlockCache × W
  write_back c w i =
      let e = c.entries i in
      let (r, w') =
        dev.write_blocks w (e.block * c.device_blocks % u64_mod) c.device_blocks (some e.content) in
      (r, if succeeded r then set_entry c i (record e { dirty = false }) else c, w')

  -- The entry is taken over for `block`, its old content is written back before.
  unfoldable pub vacate : BlockCache → W → ℕ → Result × BlockCache × W
  unfolding write_back
  vacate c w i =
      if (c.entries i).valid && (c.entries i).dirty then write_back c w i else (fine 0, c, w)

  unfoldable pub load_block : Access → BlockCache → W → ℕ → ℕ → Result × BlockCache × W
  unfolding fill
  load_block overwrite c w i block = (
    fine 0,
    set_entry c i (record (c.entries i) { block = block; valid = true; dirty = false }),
    w,
  )
  load_block read c w i block =
      let (r, bytes, w') =
        dev.read_blocks w (block * c.device_blocks % u64_mod) c.device_blocks true in
      let e = record (c.entries i) {
        block = block;
        content = fill bytes (c.entries i).content 0;
      } in
      (
        r,
        if succeeded r
            then set_entry c i (record e { valid = true; dirty = false })
            else set_entry c i (record e { valid = false }),
        w',
      )

  unfoldable pub replace : Access → BlockCache → W → ℕ → ℕ → Acquired W
  unfolding vacate load_block pin
  replace access c w i block =
      let (r, c1, w1) = vacate c w i in
      if not (succeeded r)
      then refused r.error c1 w1
      else let (l, c2, w2) = load_block access c1 w1 i block in
        if not (succeeded l) then refused l.error c2 w2 else pin access c2 w2 i

  unfoldable pub acquire : Access → BlockCache → W → ℕ → Acquired W
  unfolding find victim pin replace ready block_count
  acquire access c w block =
      if not (ready c)
      then refused Error.device_error c w
      else if leb (block_count c w) block
      then refused Error.out_of_range c w
      else elim (find c block) [
        | some i ↦ pin access (record c { hits = (c.hits + 1) % u64_mod }) w i
        | none ↦ elim (victim c) [
          | none ↦ refused Error.device_error (record c { misses = (c.misses + 1) % u64_mod }) w
          | some i ↦ replace access (record c { misses = (c.misses + 1) % u64_mod }) w i block
        ]
      ]
