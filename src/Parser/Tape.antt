-- ===== src/Parser/Tape.antt =====
-- The downloaded file that `doParseFile` (CosmosParser.cpp) reads: what is left of it in a state of the world.
use cosmos_pc.Prelude.{
  ℕ, ◌-◌, ◌≤◌, ◌<◌, ◌≡◌, refl, ap, ◌∙◌, true, false, ◌||◌, not, List, ◌++◌, arith, length, take,
  drop, overlay, length-write_at, overlay-append, take_all, take-append_past, ltb,
}
use cosmos_pc.Os.{Handle, create_always, Os}
use cosmos_pc.Download.Transfer.{IsRoomy}
use cosmos_pc.Parser.Format.{Storage}
use cosmos_pc.Parser.Texts.{gps_line}
use cosmos_pc.Parser.{Parse, read_bytes, write_text, gps_data}

-- A file that `h` reads from its place on, to the end and not further, and that neither a new file nor a
-- write to `dest` changes.
pub record IsTape (os : Os) (h dest : Handle) : Type 0 where
  pub rest : os.World → List ℕ
  pub reads_ok : (n : ℕ) (w : os.World) → (os.read_file h n w).0 ≡ true
  pub reads : (n : ℕ) (w : os.World) → (os.read_file h n w).1 ≡ take n (rest w)
  pub moves : (n : ℕ) (w : os.World) → rest (os.read_file h n w).2 ≡ drop n (rest w)
  pub stays : (bs : List ℕ) (w : os.World) → rest (os.write_file dest bs w).2 ≡ rest w
  pub makes : (path : List ℕ) (w : os.World) → rest (os.create_file path create_always w).1 ≡ rest w

module _ (os : Os) (f : Storage) (h dest : Handle) (tape : IsTape os h dest) where
  pub read_bytes-fields :
      (n : ℕ) (s : Parse os)
      → let t = (read_bytes os f h n s).1 in
        ((read_bytes os f h n s).0 ≡ true)
        × (tape.rest t.world ≡ drop n (tape.rest s.world))
        × (t.w ≡ length (take n (tape.rest s.world)))
        × (t.buffer ≡ overlay (take n (tape.rest s.world)) s.buffer)
        × (t.out ≡ s.out)
        × (length t.buffer ≡ length s.buffer)
  unfolding read_bytes
  read_bytes-fields n s = (
    tape.reads_ok n s.world,
    tape.moves n s.world,
    ap length (tape.reads n s.world),
    ap (λ l. overlay l s.buffer) (tape.reads n s.world),
    refl,
    length-write_at 0 (os.read_file h n s.world).1 s.buffer,
  )

  pub write_text-rest :
      (text : List ℕ) (s : Parse os)
      → tape.rest (write_text os f dest text s).world ≡ tape.rest s.world
  unfolding write_text
  write_text-rest text s = tape.stays text s.world

  -- On a system that writes all it is given, at the end of a file that stops within a position, but not
  -- before the size of a heart rate, and with a buffer no shorter than what is left: if the position that
  -- is made of the bytes left and of bytes that the buffer held before is not zero, its line is written
  -- all the same.
  gps_data_cut_short :
      (i mode : ℕ) (s : Parse os)
      → IsRoomy os
      → let left = tape.rest s.world in
        let gps = left ++ take (f.gps_size - length left) (drop (length left) s.buffer) in
        f.heartbeat_size ≤ length left
        → length left < f.gps_size
        → length left ≤ length s.buffer
        → (not (f.is_zero (f.lat gps)) || not (f.is_zero (f.long gps))) ≡ true
        → (gps_data os f i mode h dest s).out ≡ s.out ++ gps_line f i mode gps
  unfolding gps_data write_text
  gps_data_cut_short i mode s roomy enough cut room shown =
      let left = tape.rest s.world in
      let s1 = (read_bytes os f h f.gps_size s).1 in
      let fields = read_bytes-fields f.gps_size s in
      let all : take f.gps_size left ≡ left = take_all f.gps_size left (omega (arith, cut)) in
      let some_read : ltb s1.w f.heartbeat_size ≡ false =
        ground (arith, fields.2 ∙ ap length all, enough) in
      let gps = left ++ take (f.gps_size - length left) (drop (length left) s.buffer) in
      let stale : take f.gps_size s1.buffer ≡ gps =
        ap (take f.gps_size)
          (fields.3 ∙ ap (λ l. overlay l s.buffer) all ∙ overlay-append left s.buffer room)
        ∙ take-append_past f.gps_size (f.gps_size - length left) left (drop (length left) s.buffer)
            (omega (arith, cut)) in
      let text = gps_line f i mode gps in
      rw
        (
          some_read,
          stale,
          shown,
          roomy.writes_all dest text s1.world,
          take_all (length text) text (omega arith),
          fields.4,
        )
        refl
