-- ===== src/Parser/Files.antt =====
-- The text file that `doParseFile` (CosmosParser.cpp) makes of a downloaded file.
use cosmos_pc.Prelude.{
  ℕ, zero, suc, ◌≤◌, ◌<◌, ◌≡◌, refl, sym, ap, ◌∙◌, true, false, Option, some, List, [], ◌∷◌, ◌++◌,
  append-nil, append_assoc, arith, length, take, drop, overlay, take_all, take-append_le,
  take-overlay_le, drop-append_length, ltb, ◌==◌,
}
use cosmos_pc.Os.{Handle, is_invalid, open_existing, create_always, Os}
use cosmos_pc.Download.{tmp_path}
use cosmos_pc.Download.Transfer.{IsRoomy}
use cosmos_pc.Parser.Format.{Storage, IsStorage}
use cosmos_pc.Parser.Texts.{mode_letter, cosmos_path, select_line, summary_line}
use cosmos_pc.Parser.{
  Parse, read_bytes, write_text, parse_data, parse_body, close_both, convert, parse_file,
}
use cosmos_pc.Parser.Tape.{IsTape, read_bytes-fields, write_text-rest}
use cosmos_pc.Parser.Entries.{Entry, encode_all, AreEntries, line_of, lines_of}
use cosmos_pc.Parser.Rounds.{entry-After}

-- A result that has written `out`.
pub record HasWritten (os : Os) (out : List ℕ) (result : Option (Parse os)) : Type 0 where
  pub final : Parse os
  pub returns : result ≡ some final
  pub written : final.out ≡ out

module _ (os : Os) (f : Storage) (h dest : Handle) (tape : IsTape os h dest) (roomy : IsRoomy os)
    (storage : IsStorage f) (enough : f.heartbeat_size ≤ f.gps_size) where
  parse_body-lines :
      (fuel i mode : ℕ) (es : List Entry) (s : Parse os)
      → AreEntries f es
      → tape.rest s.world ≡ encode_all es
      → length s.buffer ≡ 512
      → length es < fuel
      → HasWritten os (s.out ++ lines_of f i mode es) (parse_body os f fuel i mode h dest s)
  unfolding parse_body
  parse_body-lines zero i mode es s all ahead room less = absurd (omega arith)
  parse_body-lines (suc fuel) i mode [] s all ahead room less =
      let fields = read_bytes-fields os f h dest tape 1 s in
      let s1 = (read_bytes os f h 1 s).1 in
      let none_left : s1.w ≡ 0 = fields.2 ∙ ap (λ l. length (take 1 l)) ahead in
      let over : ltb 0 s1.w ≡ false = ground (arith, none_left) in
      record {
        final = s1;
        returns = rw (fields.0, over) refl;
        written = fields.4 ∙ sym (append-nil s.out);
      }
  parse_body-lines (suc fuel) i mode (e ∷ es) s (is_entry, all) ahead room less =
      let fields = read_bytes-fields os f h dest tape 1 s in
      let s1 = (read_bytes os f h 1 s).1 in
      let s2 = parse_data os f i mode h dest s1 in
      let (one, after) =
        entry-After os f h dest tape roomy storage enough i mode e (encode_all es) s is_entry ahead
          room in
      let more : ltb 0 s1.w ≡ true = ground (arith, one) in
      let goes : (s2.w == 0) ≡ false = ground (arith, after.goes_on) in
      let next = parse_body-lines fuel i mode es s2 all after.rest after.room (omega arith) in
      record {
        final = next.final;
        returns = rw (fields.0, more, goes) next.returns;
        written =
            next.written
            ∙ ap (λ l. l ++ lines_of f i mode es) after.written
            ∙ append_assoc s.out (line_of f i mode e) (lines_of f i mode es);
      }

  write_text-out :
      (text : List ℕ) (s : Parse os) → (write_text os f dest text s).out ≡ s.out ++ text
  unfolding write_text
  write_text-out text s =
      rw (roomy.writes_all dest text s.world, take_all (length text) text (omega arith)) refl

  convert-lines :
      (fuel i : ℕ) (head : List ℕ) (es : List Entry) (s : Parse os)
      → AreEntries f es
      → take f.head_size s.buffer ≡ head
      → tape.rest s.world ≡ encode_all es
      → length s.buffer ≡ 512
      → length es < fuel
      → HasWritten os
          (((s.out ++ select_line f i head) ++ summary_line f i head)
            ++ lines_of f i (mode_letter (f.mode head)) es)
          (convert os f fuel i h dest s)
  unfolding convert
  convert-lines fuel i head es s all is_head ahead room less =
      let s1 = write_text os f dest (select_line f i head) s in
      let s2 = write_text os f dest (summary_line f i head) s1 in
      let room2 : length s2.buffer ≡ 512 = unfold write_text in room in
      let body =
        parse_body-lines fuel i (mode_letter (f.mode head)) es s2 all
          (write_text-rest os f h dest tape (summary_line f i head) s1
            ∙ write_text-rest os f h dest tape (select_line f i head) s
            ∙ ahead)
          room2 less in
      record {
        final = close_both os f h dest body.final;
        returns = rw (is_head, body.returns, convert) refl;
        written =
            body.written
            ∙ ap (λ l. l ++ lines_of f i (mode_letter (f.mode head)) es)
                (write_text-out (summary_line f i head) s1
                  ∙ ap (λ l. l ++ summary_line f i head) (write_text-out (select_line f i head) s));
      }

  module _ (directory : List ℕ) (i : ℕ) (s : Parse os) (head : List ℕ) (es : List Entry)
      (h_valid : is_invalid h ≡ false) (dest_valid : is_invalid dest ≡ false)
      (opens : (os.create_file (tmp_path directory i) open_existing s.world).0 ≡ h)
      (makes : (path : List ℕ) (w : os.World) → (os.create_file path create_always w).0 ≡ dest)
      (holds : tape.rest (os.create_file (tmp_path directory i) open_existing s.world).1
        ≡ head ++ encode_all es)
      (long : length head ≡ f.head_size) (short : f.head_size ≤ 512)
      (room : length s.buffer ≡ 512) where
    abbrev opened : Parse os
    opened = record s { world = (os.create_file (tmp_path directory i) open_existing s.world).1 }

    abbrev created : Parse os
    created =
        let s1 = (read_bytes os f h f.head_size opened).1 in
        let path = cosmos_path f directory i (take f.head_size s1.buffer) in
        record s1 { world = (os.create_file path create_always s1.world).1 }

    front : take f.head_size (head ++ encode_all es) ≡ head
    front =
        take-append_le f.head_size head (encode_all es) (omega (arith, long))
        ∙ take_all f.head_size head (omega (arith, long))

    parse_file-converts :
        (fuel : ℕ) → parse_file os f fuel directory i s ≡ convert os f fuel i h dest created
    unfolding parse_file
    parse_file-converts fuel =
        let fields = read_bytes-fields os f h dest tape f.head_size opened in
        let s1 = (read_bytes os f h f.head_size opened).1 in
        let size_read : s1.w ≡ f.head_size =
          fields.2 ∙ ap (λ l. length (take f.head_size l)) holds ∙ ap length front ∙ long in
        let whole : ltb s1.w f.head_size ≡ false = ground (arith, size_read) in
        rw (opens, h_valid, fields.0, whole, makes, dest_valid, parse_file) refl

    -- For a downloaded file that holds a head and then records, each of the size that its byte stands for;
    -- with structures that have a size, of which head and position fit the buffer of 512 bytes and a
    -- position is not shorter than a heart rate; on a system on which both files can be opened, that reads
    -- and writes all it is asked for, and on which the new file does not change the downloaded one: with
    -- more fuel than there are records, `doParseFile` ends, and has written the two lines of the head and
    -- a line for each position that is not zero, in the order of the file.
    pub parse_file_lines :
        (fuel : ℕ)
        → AreEntries f es
        → length es < fuel
        → HasWritten os
            (((s.out ++ select_line f i head) ++ summary_line f i head)
              ++ lines_of f i (mode_letter (f.mode head)) es)
            (parse_file os f fuel directory i s)
    parse_file_lines fuel all less =
        let fields = read_bytes-fields os f h dest tape f.head_size opened in
        let s1 = (read_bytes os f h f.head_size opened).1 in
        let is_head : take f.head_size s1.buffer ≡ head =
          ap (take f.head_size) (
            fields.3
            ∙ ap (λ l. overlay (take f.head_size l) s.buffer) holds
            ∙ ap (λ l. overlay l s.buffer) front)
          ∙ take-overlay_le f.head_size head s.buffer (omega (arith, long))
              (omega (arith, room, short))
          ∙ take_all f.head_size head (omega (arith, long)) in
        let ahead : tape.rest created.world ≡ encode_all es =
          tape.makes (cosmos_path f directory i (take f.head_size s1.buffer)) s1.world
          ∙ fields.1
          ∙ ap (drop f.head_size) holds
          ∙ drop-append_length head (encode_all es) f.head_size (sym long) in
        let done = convert-lines fuel i head es created all is_head ahead (fields.5 ∙ room) less in
        record {
          final = done.final;
          returns = parse_file-converts fuel ∙ done.returns;
          written =
              done.written
              ∙ ap
                  (λ l.
                    ((l ++ select_line f i head) ++ summary_line f i head)
                    ++ lines_of f i (mode_letter (f.mode head)) es)
                  fields.4;
        }
