-- ===== src/Parser/Rounds.antt =====
-- The rounds of `doParseFile` (CosmosParser.cpp) over the records of a downloaded file.
use cosmos_pc.Prelude.{
  ℕ, ◌≤◌, ◌<◌, ◌≡◌, refl, sym, ap, ◌∙◌, Bool-cases, inl, inr, Bool, true, false, ◌||◌, not, List,
  [], ◌∷◌, ◌++◌, append-nil, arith, length, take, drop, overlay, take_all, take-append_le,
  take-overlay_le, drop-append_length, get_or, ltb, ◌==◌, if◌then◌else◌,
}
use mathlib.Core.Path.{subst}
use cosmos_pc.Os.{Handle, Os}
use cosmos_pc.Download.Transfer.{IsRoomy}
use cosmos_pc.Parser.Format.{Storage, IsStorage}
use cosmos_pc.Parser.Texts.{gps_line}
use cosmos_pc.Parser.{Parse, read_bytes, write_text, skip_data, gps_data, parse_data}
use cosmos_pc.Parser.Tape.{IsTape, read_bytes-fields}
use cosmos_pc.Parser.Entries.{Entry, gps_entry, other_entry, encode, IsEntry, line_of}

first-overlay : (c : ℕ) (a : List ℕ) → 0 < length a → get_or (overlay (c ∷ []) a) 0 0 ≡ c
first-overlay c [] some_room = absurd (omega arith)
first-overlay c (d ∷ a) some_room = refl

module _ (os : Os) (f : Storage) (h dest : Handle) (tape : IsTape os h dest) (roomy : IsRoomy os)
    (storage : IsStorage f) (enough : f.heartbeat_size ≤ f.gps_size) where
  -- The state behind a record.
  pub record After (more out : List ℕ) (t : Parse os) : Type 0 where
    pub rest : tape.rest t.world ≡ more
    pub goes_on : 0 < t.w
    pub room : length t.buffer ≡ 512
    pub written : t.out ≡ out

  read-After :
      (bytes more : List ℕ) (size : ℕ) (s : Parse os)
      → length bytes ≡ size
      → 0 < size
      → tape.rest s.world ≡ bytes ++ more
      → length s.buffer ≡ 512
      → After more s.out (read_bytes os f h size s).1
        × ((read_bytes os f h size s).1.w ≡ size)
        × ((read_bytes os f h size s).1.buffer ≡ overlay bytes s.buffer)
  read-After bytes more size s long positive ahead room =
      let fields = read_bytes-fields os f h dest tape size s in
      let front : take size (tape.rest s.world) ≡ bytes =
        ap (take size) ahead
        ∙ take-append_le size bytes more (omega (arith, long))
        ∙ take_all size bytes (omega (arith, long)) in
      let size_read : (read_bytes os f h size s).1.w ≡ size = fields.2 ∙ ap length front ∙ long in
      (
        record {
          rest = fields.1 ∙ ap (drop size) ahead ∙ drop-append_length bytes more size (sym long);
          goes_on = omega (arith, size_read, positive);
          room = fields.5 ∙ room;
          written = fields.4;
        },
        size_read,
        fields.3 ∙ ap (λ l. overlay l s.buffer) front,
      )

  skip-After :
      (bytes more : List ℕ) (size : ℕ) (s : Parse os)
      → length bytes ≡ size
      → 0 < size
      → tape.rest s.world ≡ bytes ++ more
      → length s.buffer ≡ 512
      → After more s.out (skip_data os f h size s)
  unfolding skip_data
  skip-After bytes more size s long positive ahead room =
      let (after, size_read, buffer) = read-After bytes more size s long positive ahead room in
      let whole : ltb (read_bytes os f h size s).1.w size ≡ false = ground (arith, size_read) in
      rw whole after

  plain-After :
      (bytes more : List ℕ) (s : Parse os)
      → length bytes ≡ 0
      → 0 < s.w
      → tape.rest s.world ≡ bytes ++ more
      → length s.buffer ≡ 512
      → After more s.out s
  plain-After [] more s long goes_on ahead room = record {
    rest = ahead;
    goes_on = goes_on;
    room = room;
    written = refl;
  }
  plain-After (c ∷ bytes) more s long goes_on ahead room = absurd (omega arith)

  printed-After :
      (b : Bool) (text more out : List ℕ) (s : Parse os)
      → 0 < length text
      → After more out s
      → After more (out ++ (if b then text else [])) (if b then write_text os f dest text s else s)
  unfolding write_text
  printed-After false text more out s some_text after = record {
    rest = after.rest;
    goes_on = after.goes_on;
    room = after.room;
    written = after.written ∙ sym (append-nil out);
  }
  printed-After true text more out s some_text after =
      let all = roomy.writes_all dest text s.world in
      record {
        rest = tape.stays text s.world ∙ after.rest;
        goes_on = omega (arith, all, some_text);
        room = after.room;
        written = rw (all, take_all (length text) text (omega arith), after.written) refl;
      }

  gps-After :
      (i mode : ℕ) (bytes more : List ℕ) (s : Parse os)
      → length bytes ≡ f.gps_size
      → tape.rest s.world ≡ bytes ++ more
      → length s.buffer ≡ 512
      → After more (s.out ++ line_of f i mode (gps_entry bytes)) (gps_data os f i mode h dest s)
  unfolding gps_data
  gps-After i mode bytes more s long ahead room =
      let (after, size_read, buffer) =
        read-After bytes more f.gps_size s long storage.some_gps ahead room in
      let s1 = (read_bytes os f h f.gps_size s).1 in
      let whole : ltb s1.w f.heartbeat_size ≡ false = ground (arith, size_read, enough) in
      let same : take f.gps_size s1.buffer ≡ bytes =
        ap (take f.gps_size) buffer
        ∙ take-overlay_le f.gps_size bytes s.buffer (omega (arith, long))
            (omega (arith, room, storage.gps_fits))
        ∙ take_all f.gps_size bytes (omega (arith, long)) in
      let some_text : 0 < length (gps_line f i mode bytes) = unfold gps_line in omega arith in
      rw (whole, same)
        (printed-After (not (f.is_zero (f.lat bytes)) || not (f.is_zero (f.long bytes)))
          (gps_line f i mode bytes) more s.out s1 some_text after)

  -- Another byte, which is in the buffer.
  other-After :
      (i mode tag : ℕ) (bytes more : List ℕ) (s : Parse os)
      → get_or s.buffer 0 0 ≡ tag
      → 0 < s.w
      → IsEntry f (other_entry tag bytes)
      → tape.rest s.world ≡ bytes ++ more
      → length s.buffer ≡ 512
      → After more s.out (parse_data os f i mode h dest s)
  unfolding parse_data
  other-After i mode tag bytes more s is_tag goes_on (not_gps, long) ahead room =
      let first : (tag == 0x10) ≡ false = ground (arith, not_gps) in
      let skip = λ (size : ℕ) (positive : 0 < size) (e : length bytes ≡ size).
        skip-After bytes more size s e positive ahead room in
      rw (is_tag, first)
        (elim (Bool-cases (tag == 0x20)) [
          | inl e ↦ rw e (skip f.heartbeat_size storage.some_heartbeat (rw e at long))
          | inr e ↦ elim (Bool-cases (tag == 0x21)) [
            | inl e1 ↦
                rw (e, e1) (skip f.pedometer_size storage.some_pedometer (rw (e, e1) at long))
            | inr e1 ↦ elim (Bool-cases (tag == 0x22)) [
              | inl e2 ↦
                  rw (e, e1, e2) (skip f.bike_size storage.some_bike (rw (e, e1, e2) at long))
              | inr e2 ↦ elim (Bool-cases (tag == 0x30)) [
                | inl e3 ↦
                    rw (e, e1, e2, e3)
                      (skip f.barometer_size storage.some_barometer (rw (e, e1, e2, e3) at long))
                | inr e3 ↦ elim (Bool-cases (tag == 0x31)) [
                  | inl e4 ↦
                      rw (e, e1, e2, e3, e4)
                        (skip f.temperature_size storage.some_temperature
                          (rw (e, e1, e2, e3, e4) at long))
                  | inr e4 ↦ elim (Bool-cases (tag == 0x82)) [
                    | inl e5 ↦
                        rw (e, e1, e2, e3, e4, e5)
                          (read-After bytes more f.lap_size s (rw (e, e1, e2, e3, e4, e5) at long)
                            storage.some_lap ahead room).0
                    | inr e5 ↦
                        rw (e, e1, e2, e3, e4, e5)
                          (plain-After bytes more s (rw (e, e1, e2, e3, e4, e5) at long) goes_on
                            ahead room)
                  ]
                ]
              ]
            ]
          ]
        ])

  -- One record, with the byte that says what it is.
  pub entry-After :
      (i mode : ℕ) (e : Entry) (more : List ℕ) (s : Parse os)
      → IsEntry f e
      → tape.rest s.world ≡ encode e ++ more
      → length s.buffer ≡ 512
      → let s1 = (read_bytes os f h 1 s).1 in
        (s1.w ≡ 1) × After more (s.out ++ line_of f i mode e) (parse_data os f i mode h dest s1)
  entry-After i mode (gps_entry bytes) more s long ahead room =
      let (after, one, buffer) =
        read-After (0x10 ∷ []) (bytes ++ more) 1 s refl (omega arith) ahead room in
      let s1 = (read_bytes os f h 1 s).1 in
      let is_gps : get_or s1.buffer 0 0 ≡ 0x10 =
        ap (λ l. get_or l 0 0) buffer ∙ first-overlay 0x10 s.buffer (omega (arith, room)) in
      let done = gps-After i mode bytes more s1 long after.rest after.room in
      (
        one,
        subst
            (λ l.
              After more (l ++ line_of f i mode (gps_entry bytes))
                (parse_data os f i mode h dest s1))
            after.written (unfold parse_data in rw is_gps done),
      )
  entry-After i mode (other_entry tag bytes) more s is_entry ahead room =
      let (after, one, buffer) =
        read-After (tag ∷ []) (bytes ++ more) 1 s refl (omega arith) ahead room in
      let s1 = (read_bytes os f h 1 s).1 in
      let is_tag : get_or s1.buffer 0 0 ≡ tag =
        ap (λ l. get_or l 0 0) buffer ∙ first-overlay tag s.buffer (omega (arith, room)) in
      let done =
        other-After i mode tag bytes more s1 is_tag after.goes_on is_entry after.rest after.room in
      (
        one,
        subst (λ l. After more l (parse_data os f i mode h dest s1))
            (after.written ∙ sym (append-nil s.out)) done,
      )
