-- ===== src/Parser/Ends.antt =====
-- The loop over the body of a file in `doParseFile` (CosmosParser.cpp) and its fuel.
use cosmos_pc.Prelude.{
  ℕ, zero, suc, ◌≤◌, ◌<◌, ◌≡◌, refl, ap, Bool-cases, inl, inr, ◌||◌, not, some, arith, length, take,
  length-take, length-drop, get_or, ltb, ◌==◌, pick,
}
use cosmos_pc.Os.{Handle, Os}
use cosmos_pc.Parser.Format.{Storage}
use cosmos_pc.Parser.Texts.{gps_line}
use cosmos_pc.Parser.{Parse, read_bytes, skip_data, gps_data, parse_data, parse_body}
use cosmos_pc.Parser.Tape.{IsTape, read_bytes-fields, write_text-rest}

module _ (os : Os) (f : Storage) (h dest : Handle) (tape : IsTape os h dest) where
  -- No more is left than there was.
  abbrev Shrinks : ℕ → Parse os → Type 0
  Shrinks n t = length (tape.rest t.world) ≤ n

  read_bytes-Shrinks :
      (n : ℕ) (s : Parse os) → Shrinks (length (tape.rest s.world)) (read_bytes os f h n s).1
  read_bytes-Shrinks n s = omega (
    arith,
    ap length (read_bytes-fields os f h dest tape n s).1,
    length-drop n (tape.rest s.world),
  )

  skip_data-Shrinks :
      (n : ℕ) (s : Parse os) → Shrinks (length (tape.rest s.world)) (skip_data os f h n s)
  unfolding skip_data
  skip_data-Shrinks n s =
      let now = read_bytes-Shrinks n s in
      pick (Shrinks (length (tape.rest s.world))) (ltb (read_bytes os f h n s).1.w n) now now

  gps_data-Shrinks :
      (i mode : ℕ) (s : Parse os)
      → Shrinks (length (tape.rest s.world)) (gps_data os f i mode h dest s)
  unfolding gps_data
  gps_data-Shrinks i mode s =
      let s1 = (read_bytes os f h f.gps_size s).1 in
      let gps = take f.gps_size s1.buffer in
      let now = read_bytes-Shrinks f.gps_size s in
      let same = write_text-rest os f h dest tape (gps_line f i mode gps) s1 in
      let P = Shrinks (length (tape.rest s.world)) in
      pick P (ltb s1.w f.heartbeat_size) now (
        pick P (not (f.is_zero (f.lat gps)) || not (f.is_zero (f.long gps)))
          (omega (arith, now, ap length same)) now)

  parse_data-Shrinks :
      (i mode : ℕ) (s : Parse os)
      → Shrinks (length (tape.rest s.world)) (parse_data os f i mode h dest s)
  unfolding parse_data
  parse_data-Shrinks i mode s =
      let tag = get_or s.buffer 0 0 in
      let P = Shrinks (length (tape.rest s.world)) in
      let skip = λ (n : ℕ). skip_data-Shrinks n s in
      pick P (tag == 0x10) (gps_data-Shrinks i mode s) (
        pick P (tag == 0x20) (skip f.heartbeat_size) (
          pick P (tag == 0x21) (skip f.pedometer_size) (
            pick P (tag == 0x22) (skip f.bike_size) (
              pick P (tag == 0x30) (skip f.barometer_size) (
                pick P (tag == 0x31) (skip f.temperature_size)
                  (pick P (tag == 0x82) (read_bytes-Shrinks f.lap_size s) (omega arith)))))))

  -- On a file that is read from its place on to its end, and that the writes to the new file do not
  -- change: the loop over the body ends, whatever bytes the file holds, within a round more than there are
  -- bytes left.
  pub parse_body-returns :
      (fuel i mode : ℕ) (s : Parse os)
      → length (tape.rest s.world) < fuel
      → (t : Parse os) × (parse_body os f fuel i mode h dest s ≡ some t)
  unfolding parse_body
  parse_body-returns zero i mode s enough = absurd (omega arith)
  parse_body-returns (suc fuel) i mode s enough =
      let s1 = (read_bytes os f h 1 s).1 in
      let s2 = parse_data os f i mode h dest s1 in
      let fields = read_bytes-fields os f h dest tape 1 s in
      let less = parse_data-Shrinks i mode s1 in
      elim (Bool-cases (ltb 0 s1.w)) [
        | inr over ↦ (s1, rw (fields.0, over) refl)
        | inl more ↦ elim (Bool-cases (s2.w == 0)) [
          | inl last ↦ (s2, rw (fields.0, more, last) refl)
          | inr goes ↦
              let some_read : 0 < s1.w = ground arith in
              let some_left : 0 < length (tape.rest s.world) =
                omega (arith, some_read, fields.2, length-take 1 (tape.rest s.world)) in
              let next = parse_body-returns fuel i mode s2 (
                omega (
                  arith,
                  less,
                  some_left,
                  enough,
                  ap length fields.1,
                  length-drop 1 (tape.rest s.world),
                )) in
              (next.0, rw (fields.0, more, goes) next.1)
        ]
      ]
