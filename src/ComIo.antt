-- ===== src/ComIo.antt =====
-- ComIO.cpp: the serial port object. The locks and the debug output are left out.
pub mod Wire
pub mod Device
pub mod Thread
pub mod Tests
use cosmos_pc.Prelude.{
  ℕ, ◌+◌, Bool, true, List, [], ◌++◌, length, take, drop, set, ltb, if◌then◌else◌,
}
use cosmos_pc.Os.{Handle, null_handle, is_null, open_existing, Os, Sys}

-- The fields that these methods use. `reading` says whether `InitComIO` started the reading thread.
pub record ComIo : Type 0 where
  pub sz_dev_name : List ℕ
  pub h_com : Handle
  pub reading : Bool

module _ (os : Os) where
  -- `InitComIO`: the settings that follow `CreateFile` change the port alone, and the result is `TRUE`
  -- whatever `CreateFile` gives.
  unfoldable pub init_com_io : ComIo → Bool → Sys os → (Bool × ComIo) × Sys os
  init_com_io c single s =
      let (h, w) = os.create_file c.sz_dev_name open_existing s.world in
      (
        (true, record c { h_com = h; reading = if single then c.reading else true }),
        record s { world = w },
      )

  -- `DeinitComIO`
  unfoldable pub deinit_com_io : ComIo → Sys os → (Bool × ComIo) × Sys os
  deinit_com_io c s = (
    (true, record c { h_com = null_handle }),
    record s { world = os.close_handle c.h_com s.world },
  )

  -- `ReadCom`: the bytes that were read.
  unfoldable pub read_com : ComIo → ℕ → Sys os → List ℕ × Sys os
  read_com c size s =
      if is_null c.h_com
      then ([], s)
      else let (ok, bytes, w) = os.read_file c.h_com size s.world in (bytes, record s { world = w })

  -- `WriteCom` on `size` bytes of the object `buf` from `off` on: the number of bytes written and
  -- the object after `buffer[size] = '\0'`, which is a stray write if the object ends there.
  unfoldable pub write_com : ComIo → List ℕ → ℕ → ℕ → Sys os → (ℕ × List ℕ) × Sys os
  write_com c buf off size s =
      if is_null c.h_com
      then ((0, buf), s)
      else let bytes = take size (drop off buf) in
        let (ok, n, w) = os.write_file c.h_com bytes s.world in
        (
          (n, set buf (off + size) 0),
          record s {
            world = w;
            wire = s.wire ++ take n bytes;
            stray = if ltb (off + size) (length buf) then s.stray else s.stray + 1;
          },
        )
