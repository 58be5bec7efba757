-- ===== src/Sync/Accesses/Reader.antt =====
-- The rounds of the reading thread (ComIO.cpp) in their two pieces, at each place of `doSync`.
use cosmos_pc.Prelude.{
  ℕ, ◌+◌, ◌*◌, ◌/◌, ◌≤◌, ◌<◌, ◌≡◌, ◌≢◌, refl, ap, ◌∙◌, Bool-cases, inl, inr, true, false, Option,
  some, List, ◌++◌, arith, length, length-append, length-take, take, u32, leb, ◌==◌,
}
use cosmos_pc.Os.{Os, IsLawful}
use cosmos_pc.ComIo.{ComIo, read_com}
use cosmos_pc.Download.{
  ReadProc, Message, ignored, size_told, read_told, content, message, tmp_path,
}
use cosmos_pc.Download.Transfer.{init_file-fields}
use cosmos_pc.Download.Pieces.{
  Rest, is_done, makes_file, closes_file, count_first, proc_first, proc_rest,
}
use cosmos_pc.Sync.Steps.{IsAnswer, arriving, Phase, idle, asked, receiving, received}
use cosmos_pc.Sync.Invariant.{Phase-sys, init_file-names, deinit_file-keeps_names}
use cosmos_pc.Sync.Accesses.{read_first}
use cosmos_pc.Sync.Accesses.Invariant.{Going}

module _ (os : Os) (directory : List ℕ) where
  -- The first piece goes on with what holds for the file `i`.
  pub record GoesOn (i : ℕ) (result : Option (Rest × ReadProc os)) : Type 0 where
    pub rest : Rest
    pub r' : ReadProc os
    pub returns : result ≡ some (rest, r')
    pub going : Going os directory rest i r'

  count_first-GoesOn :
      (i : ℕ) (buf : List ℕ) (w : ℕ) (r : ReadProc os)
      → w ≤ length buf
      → r.flag ≡ 2
      → r.dw_name ≡ i
      → r.last_file ≡ tmp_path directory i
      → 0 < r.file_size
      → r.total_recv ≡ u32 (length r.saved)
      → GoesOn i (count_first os directory buf w r)
  unfolding count_first
  count_first-GoesOn i buf w r le e name file size counted =
      let n = u32 (r.total_recv + w) in
      let more : ReadProc os = record r {
        total_recv = n;
        rate = u32 (100 * n) / r.file_size;
        saved = r.saved ++ take w buf;
      } in
      let divides : (r.file_size == 0) ≡ false = ground (arith, size) in
      let long : length more.saved ≡ length r.saved + w =
        omega (arith, length-append r.saved (take w buf), length-take w buf, le) in
      let kept : n ≡ u32 (length more.saved) = omega (arith, long, counted) in
      elim (Bool-cases (leb r.file_size n)) [
        | inl reached ↦
            let enough : r.file_size ≤ n = ground (arith, reached) in
            record {
              rest = closes_file;
              r' = more;
              returns = rw (divides, reached, count_first) refl;
              going = record { flag = e; file = file; enough = omega (arith, enough, kept) };
            }
        | inr less ↦ record {
          rest = is_done;
          r' = more;
          returns = rw (divides, less, count_first) refl;
          going = receiving e name file size kept;
        }
      ]

  unchanged :
      (i : ℕ) (buf : List ℕ) (r : ReadProc os)
      → message buf ≡ content
      → (r.flag == 2) ≡ false
      → Phase os directory i r
      → GoesOn i (proc_first os directory buf r)
  unfolding proc_first
  unchanged i buf r e off phase = record {
    rest = is_done;
    r' = r;
    returns = rw (e, off, proc_first) refl;
    going = phase;
  }

  module _ (lawful : IsLawful os) where
    written-GoesOn :
        (i : ℕ) (buf : List ℕ) (r : ReadProc os)
        → message buf ≡ content
        → Phase os directory i r
        → GoesOn i (proc_first os directory buf r)
    unfolding proc_first
    written-GoesOn i buf r e (receiving writing name file size counted) =
        let (ok, w, world') = os.write_file r.hfile buf r.sys.world in
        let t : ReadProc os = record r { sys = record r.sys { world = world' } } in
        let on : (r.flag == 2) ≡ true = ground (arith, writing) in
        elim (Bool-cases ok) [
          | inr failed ↦
              rw (e, on, failed, proc_first)
                (record {
                  rest = is_done;
                  r' = t;
                  returns = refl;
                  going = receiving writing name file size counted;
                })
          | inl done ↦
              rw (e, on, done, proc_first)
                (count_first-GoesOn i buf w t (lawful.write_le r.hfile buf r.sys.world) writing name
                  file size counted)
        ]
    written-GoesOn i buf r e (idle flag) = unchanged i buf r e (ground (arith, flag)) (idle flag)
    written-GoesOn i buf r e (asked flag name) =
        unchanged i buf r e (ground (arith, flag)) (asked flag name)
    written-GoesOn i buf r e (received flag file whole) =
        unchanged i buf r e (ground (arith, flag)) (received flag file whole)

    told-GoesOn :
        (i n : ℕ) (buf : List ℕ) (r : ReadProc os)
        → message buf ≡ read_told n
        → r.flag ≡ 1
        → Phase os directory i r
        → GoesOn i (proc_first os directory buf r)
    unfolding proc_first
    told-GoesOn i n buf r e flag (asked _ name) = elim (Bool-cases (n == 0)) [
      | inl nothing ↦ record {
        rest = is_done;
        r' = record r { total_recv = 0; file_size = n; flag = 1 };
        returns = rw (e, nothing, proc_first) refl;
        going = asked refl name;
      }
      | inr more ↦ record {
        rest = makes_file;
        r' = record r { total_recv = 0; file_size = n; flag = 2 };
        returns = rw (e, more, proc_first) refl;
        going = record { flag = refl; name = name; size = ground (arith, more); none_yet = refl };
      }
    ]
    told-GoesOn i n buf r e flag (idle wrong) = absurd (omega arith)
    told-GoesOn i n buf r e flag (receiving wrong name file size counted) = absurd (omega arith)
    told-GoesOn i n buf r e flag (received wrong file whole) = absurd (omega arith)

    proc_first-GoesOn :
        (i : ℕ) (buf : List ℕ) (r : ReadProc os) (m : Message)
        → message buf ≡ m
        → IsAnswer m r.flag
        → Phase os directory i r
        → GoesOn i (proc_first os directory buf r)
    proc_first-GoesOn i buf r ignored e answer phase = record {
      rest = is_done;
      r' = r;
      returns = unfold proc_first in rw (e, proc_first) refl;
      going = phase;
    }
    proc_first-GoesOn i buf r (size_told n) e answer phase = absurd answer
    proc_first-GoesOn i buf r (read_told n) e answer phase = told-GoesOn i n buf r e answer phase
    proc_first-GoesOn i buf r content e answer phase = written-GoesOn i buf r e phase

    pub read_first-GoesOn :
        (i : ℕ) (c : ComIo) (r : ReadProc os)
        → IsAnswer (message (arriving os directory c r)) r.flag
        → Phase os directory i r
        → GoesOn i (read_first os directory c r)
    unfolding read_first
    read_first-GoesOn i c r answer phase =
        let bytes = arriving os directory c r in
        let t : ReadProc os = record r { sys = (read_com os c 1024 r.sys).1 } in
        let phase' = Phase-sys os directory i r (read_com os c 1024 r.sys).1 phase in
        elim (Bool-cases (length bytes == 0)) [
          | inl nothing ↦ record {
            rest = is_done;
            r' = t;
            returns = rw (nothing, read_first) refl;
            going = phase';
          }
          | inr some_read ↦
              rw (some_read, read_first)
                (proc_first-GoesOn i bytes t (message bytes) refl answer phase')
        ]

  -- The buffer changes nothing unless it answers a request or a file is being received.
  proc_first-quiet :
      (buf : List ℕ) (r : ReadProc os) (k : ℕ) (m : Message)
      → message buf ≡ m
      → IsAnswer m k
      → k ≢ 1
      → r.flag ≢ 2
      → proc_first os directory buf r ≡ some (is_done, r)
  unfolding proc_first
  proc_first-quiet buf r k ignored e answer not1 not2 = rw (e, proc_first) refl
  proc_first-quiet buf r k (size_told n) e answer not1 not2 = absurd answer
  proc_first-quiet buf r k (read_told n) e answer not1 not2 = absurd (not1 answer)
  proc_first-quiet buf r k content e answer not1 not2 =
      let off : (r.flag == 2) ≡ false = ground (arith, not2) in rw (e, off, proc_first) refl

  pub read_first-quiet :
      (c : ComIo) (r : ReadProc os) (k : ℕ)
      → IsAnswer (message (arriving os directory c r)) k
      → k ≢ 1
      → r.flag ≢ 2
      → read_first os directory c r
        ≡ some (is_done, record r { sys = (read_com os c 1024 r.sys).1 })
  unfolding read_first
  read_first-quiet c r k answer not1 not2 =
      let bytes = arriving os directory c r in
      let t : ReadProc os = record r { sys = (read_com os c 1024 r.sys).1 } in
      elim (Bool-cases (length bytes == 0)) [
        | inl nothing ↦ rw (nothing, read_first) refl
        | inr some_read ↦
            rw (some_read, read_first)
              (proc_first-quiet bytes t k (message bytes) refl answer not1 not2)
      ]

  -- The second piece.
  pub proc_rest-Phase :
      (rest : Rest) (i : ℕ) (r : ReadProc os)
      → Going os directory rest i r
      → Phase os directory i (proc_rest os directory rest r)
  unfolding proc_rest
  proc_rest-Phase is_done i r h = h
  proc_rest-Phase makes_file i r h =
      let fields = init_file-fields os directory r.dw_name r in
      let names = init_file-names os directory r.dw_name r in
      receiving (fields.0 ∙ h.flag) (names.0 ∙ h.name) (names.1 ∙ ap (tmp_path directory) h.name)
        (omega (arith, fields.1, h.size)) (omega (arith, fields.2, h.none_yet, ap length fields.3))
  proc_rest-Phase closes_file i r h =
      let same = deinit_file-keeps_names os directory r in
      received refl (same.0 ∙ h.file) (omega (arith, same.1, ap length same.2, h.enough))
