-- ===== src/Sync/Invariant.antt =====
-- The invariant of the two threads of MainProcFunc.cpp and ComIO.cpp.
use cosmos_pc.Prelude.{
  ℕ, ◌+◌, ◌≤◌, ◌<◌, ◌≡◌, refl, ap, ◌∙◌, Bool-cases, inl, inr, true, false, Option, some, List, ◌++◌,
  arith, length, length-append, length-take, take, u32, leb, ◌==◌, ◌*◌, ◌/◌,
}
use cosmos_pc.Os.{Os, Sys, IsLawful, is_null}
use cosmos_pc.ComIo.{ComIo, read_com}
use cosmos_pc.Download.{
  ReadProc, Message, ignored, size_told, read_told, content, message, tmp_path, deinit_file,
  init_file, count, proc,
}
use cosmos_pc.Download.Transfer.{init_file-fields}
use cosmos_pc.Sync.{read_round}
use cosmos_pc.Sync.Steps.{IsAnswer, arriving, Phase, idle, asked, receiving, received}

module _ (os : Os) (directory : List ℕ) where
  pub init_file-names :
      (name : ℕ) (r : ReadProc os)
      → let r' = init_file os directory name r in
        (r'.dw_name ≡ r.dw_name) × (r'.last_file ≡ tmp_path directory name)
  unfolding init_file deinit_file
  init_file-names name r = elim (Bool-cases (is_null r.hfile)) [
    | inl e ↦ rw (e, deinit_file) (refl, refl)
    | inr e ↦ rw (e, deinit_file) (refl, refl)
  ]

  pub deinit_file-keeps_names :
      (r : ReadProc os)
      → let r' = deinit_file os directory r in
        (r'.last_file ≡ r.last_file) × (r'.file_size ≡ r.file_size) × (r'.saved ≡ r.saved)
  unfolding deinit_file
  deinit_file-keeps_names r = elim (Bool-cases (is_null r.hfile)) [
    | inl e ↦ rw (e, deinit_file) (refl, refl, refl)
    | inr e ↦ rw (e, deinit_file) (refl, refl, refl)
  ]

  -- The state of the system plays no part in a phase.
  pub Phase-sys :
      (i : ℕ) (r : ReadProc os) (t : Sys os)
      → Phase os directory i r
      → Phase os directory i (record r { sys = t })
  Phase-sys i r t (idle e) = idle e
  Phase-sys i r t (asked e name) = asked e name
  Phase-sys i r t (receiving e name file size counted) = receiving e name file size counted
  Phase-sys i r t (received e file whole) = received e file whole

  pub record Proceeds (i : ℕ) (result : Option (ReadProc os)) : Type 0 where
    pub r' : ReadProc os
    pub returns : result ≡ some r'
    pub phase : Phase os directory i r'

  count-Proceeds :
      (i : ℕ) (buf : List ℕ) (w : ℕ) (r : ReadProc os)
      → w ≤ length buf
      → r.flag ≡ 2
      → r.dw_name ≡ i
      → r.last_file ≡ tmp_path directory i
      → 0 < r.file_size
      → r.total_recv ≡ u32 (length r.saved)
      → Proceeds i (count os directory buf w r)
  unfolding count
  count-Proceeds i buf w r le e name file size counted =
      let n = u32 (r.total_recv + w) in
      let more : ReadProc os = record r {
        total_recv = n;
        rate = u32 (100 * n) / r.file_size;
        saved = r.saved ++ take w buf;
      } in
      let divides : (r.file_size == 0) ≡ false = ground (arith, size) in
      let long : length more.saved ≡ length r.saved + w =
        omega (arith, length-append r.saved (take w buf), length-take w buf, le) in
      let kept : n ≡ u32 (length more.saved) = omega (arith, long, counted) in
      let same = deinit_file-keeps_names more in
      elim (Bool-cases (leb r.file_size n)) [
        | inl reached ↦ record {
          r' = record (deinit_file os directory more) { flag = 3 };
          returns = rw (divides, reached, count);
          phase = received refl (same.0 ∙ file) (
              let enough : r.file_size ≤ n = ground arith in
              omega (arith, enough, kept, same.1, ap length same.2));
        }
        | inr less ↦ record {
          r' = more;
          returns = rw (divides, less, count);
          phase = receiving e name file size kept;
        }
      ]

  module _ (lawful : IsLawful os) where
    written-Proceeds :
        (i : ℕ) (buf : List ℕ) (r : ReadProc os)
        → message buf ≡ content
        → Phase os directory i r
        → Proceeds i (proc os directory buf r)
    unfolding proc
    written-Proceeds i buf r e (receiving writing name file size counted) =
        let (ok, w, world') = os.write_file r.hfile buf r.sys.world in
        let t : ReadProc os = record r { sys = record r.sys { world = world' } } in
        let on : (r.flag == 2) ≡ true = ground arith in
        elim (Bool-cases ok) [
          | inr failed ↦
              rw (e, on, failed, proc)
                (record {
                  r' = t;
                  returns = refl;
                  phase = receiving writing name file size counted;
                })
          | inl done ↦
              rw (e, on, done, proc)
                (count-Proceeds i buf w t (lawful.write_le r.hfile buf r.sys.world) writing name
                  file size counted)
        ]
    written-Proceeds i buf r e (idle flag) =
        let off : (r.flag == 2) ≡ false = ground arith in
        record { r' = r; returns = rw (e, off, proc); phase = idle flag }
    written-Proceeds i buf r e (asked flag name) =
        let off : (r.flag == 2) ≡ false = ground arith in
        record { r' = r; returns = rw (e, off, proc); phase = asked flag name }
    written-Proceeds i buf r e (received flag file whole) =
        let off : (r.flag == 2) ≡ false = ground arith in
        record { r' = r; returns = rw (e, off, proc); phase = received flag file whole }

    read_told-Proceeds :
        (i n : ℕ) (buf : List ℕ) (r : ReadProc os)
        → message buf ≡ read_told n
        → r.flag ≡ 1
        → Phase os directory i r
        → Proceeds i (proc os directory buf r)
    unfolding proc
    read_told-Proceeds i n buf r e flag (asked _ name) = elim (Bool-cases (n == 0)) [
      | inl nothing ↦ record {
        r' = record r { total_recv = 0; file_size = n; flag = 1 };
        returns = rw (e, nothing, proc);
        phase = asked refl name;
      }
      | inr more ↦
          let told : ReadProc os = record r { total_recv = 0; file_size = n; flag = 2 } in
          let fields = init_file-fields os directory r.dw_name told in
          let names = init_file-names r.dw_name told in
          record {
            r' = init_file os directory r.dw_name told;
            returns = rw (e, more, proc);
            phase =
                receiving fields.0 (names.0 ∙ name) (names.1 ∙ ap (tmp_path directory) name)
                  (ground (arith, fields.1)) (omega (arith, fields.2, ap length fields.3));
          }
    ]
    read_told-Proceeds i n buf r e flag (idle wrong) = absurd (omega arith)
    read_told-Proceeds i n buf r e flag (receiving wrong name file size counted) =
        absurd (omega arith)
    read_told-Proceeds i n buf r e flag (received wrong file whole) = absurd (omega arith)

    proc-Proceeds :
        (i : ℕ) (buf : List ℕ) (r : ReadProc os) (m : Message)
        → message buf ≡ m
        → IsAnswer m r.flag
        → Phase os directory i r
        → Proceeds i (proc os directory buf r)
    proc-Proceeds i buf r ignored e answer phase = record {
      r' = r;
      returns = unfold proc in rw (e, proc);
      phase = phase;
    }
    proc-Proceeds i buf r (size_told n) e answer phase = absurd answer
    proc-Proceeds i buf r (read_told n) e answer phase = read_told-Proceeds i n buf r e answer phase
    proc-Proceeds i buf r content e answer phase = written-Proceeds i buf r e phase

    pub read_round-Proceeds :
        (i : ℕ) (c : ComIo) (r : ReadProc os)
        → IsAnswer (message (arriving os directory c r)) r.flag
        → Phase os directory i r
        → Proceeds i (read_round os directory c r)
    unfolding read_round
    read_round-Proceeds i c r answer phase =
        let bytes = arriving os directory c r in
        let t : ReadProc os = record r { sys = (read_com os c 1024 r.sys).1 } in
        let phase' = Phase-sys i r (read_com os c 1024 r.sys).1 phase in
        elim (Bool-cases (length bytes == 0)) [
          | inl nothing ↦ record { r' = t; returns = rw (nothing, read_round); phase = phase' }
          | inr some_read ↦
              rw (some_read, read_round)
                (proc-Proceeds i bytes t (message bytes) refl answer phase')
        ]
