-- ===== src/ComIo/Wire.antt =====
-- What `WriteCom` (ComIO.cpp) puts on the wire.
use cosmos_pc.Prelude.{ℕ, ◌≡◌, ap, false, List, ◌++◌, arith, length, take, take_all}
use cosmos_pc.Os.{is_null, Os, Sys}
use cosmos_pc.ComIo.{ComIo, write_com}
use cosmos_pc.Download.Transfer.{IsRoomy}

module _ (os : Os) (roomy : IsRoomy os) where
  pub write_com-wire :
      (c : ComIo) (buf : List ℕ) (n : ℕ) (s : Sys os)
      → is_null c.h_com ≡ false
      → (write_com os c buf 0 n s).1.wire ≡ s.wire ++ take n buf
  unfolding write_com
  write_com-wire c buf n s is_open =
      rw (is_open, write_com, roomy.writes_all c.h_com (take n buf) s.world)
        (ap (λ l. s.wire ++ l) (take_all (length (take n buf)) (take n buf) (omega arith)))
