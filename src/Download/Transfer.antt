-- ===== src/Download/Transfer.antt =====
-- The transfer of a file through `CosmosReadCommProc::proc`: what is written, when it ends, and the
-- division by the size.
use cosmos_pc.Prelude.{
  ℕ, ◌+◌, ◌*◌, ◌^◌, ◌≤◌, ◌<◌, ◌≡◌, refl, sym, ap, ◌∙◌, Bool-cases, inl, inr, true, false, Option,
  none, some, List, [], ◌∷◌, ◌++◌, append_assoc, arith, length, take_all, u32, leb, ◌/◌, ◌==◌,
}
use mathlib.Core.Bool.{false≢true}
use cosmos_pc.Os.{Handle, null_handle, invalid_handle, open_handle, is_null, Os}
use cosmos_pc.Download.{
  ReadProc, size_told, read_told, content, message, deinit_file, init_file, count, proc, proc_all,
}

-- A disk that takes all that it is given.
pub record IsRoomy (os : Os) : Type 0 where
  pub writes_ok : (h : Handle) (bs : List ℕ) (w : os.World) → (os.write_file h bs w).0 ≡ true
  pub writes_all : (h : Handle) (bs : List ℕ) (w : os.World) → (os.write_file h bs w).1 ≡ length bs

abbrev pub join : List (List ℕ) → List ℕ
join [] = []
join (buf ∷ bufs) = buf ++ join bufs

-- Buffers that hold no command.
abbrev pub AreContent : List (List ℕ) → Type 0
AreContent [] = Unit
AreContent (buf ∷ bufs) = (message buf ≡ content) × AreContent bufs

abbrev pub total : List (List ℕ) → ℕ
total [] = 0
total (buf ∷ bufs) = length buf + total bufs

is_null-null : (h : Handle) → is_null h ≡ true → h ≡ null_handle
is_null-null null_handle e = refl
is_null-null invalid_handle e = absurd (false≢true e)
is_null-null (open_handle n) e = absurd (false≢true e)

module _ (os : Os) (directory : List ℕ) where
  deinit_file-closes : (r : ReadProc os) → (deinit_file os directory r).hfile ≡ null_handle
  unfolding deinit_file
  deinit_file-closes r = elim (Bool-cases (is_null r.hfile)) [
    | inl e ↦ rw (e, deinit_file) (is_null-null r.hfile e)
    | inr e ↦ rw (e, deinit_file)
  ]

  deinit_file-keeps : (r : ReadProc os) → (deinit_file os directory r).saved ≡ r.saved
  unfolding deinit_file
  deinit_file-keeps r = elim (Bool-cases (is_null r.hfile)) [
    | inl e ↦ rw (e, deinit_file)
    | inr e ↦ rw (e, deinit_file)
  ]

  pub init_file-fields :
      (name : ℕ) (r : ReadProc os)
      → let r' = init_file os directory name r in
        (r'.flag ≡ r.flag)
        × (r'.file_size ≡ r.file_size)
        × (r'.total_recv ≡ r.total_recv)
        × (r'.saved ≡ [])
  unfolding init_file deinit_file
  init_file-fields name r = elim (Bool-cases (is_null r.hfile)) [
    | inl e ↦ rw (e, deinit_file) (refl, refl, refl, refl)
    | inr e ↦ rw (e, deinit_file) (refl, refl, refl, refl)
  ]

  -- The end of a transfer: the file is closed, and holds `bytes`.
  pub record IsDownloaded (bytes : List ℕ) (result : Option (ReadProc os)) : Type 0 where
    pub final : ReadProc os
    pub returns : result ≡ some final
    pub finished : final.flag ≡ 3
    pub closed : final.hfile ≡ null_handle
    pub complete : final.saved ≡ bytes

  module _ (roomy : IsRoomy os) where
    abbrev written : List ℕ → ReadProc os → ReadProc os
    written buf r = record r {
      sys = record r.sys { world = (os.write_file r.hfile buf r.sys.world).2 };
    }

    proc-content :
        (buf : List ℕ) (r : ReadProc os)
        → message buf ≡ content
        → r.flag ≡ 2
        → proc os directory buf r ≡ count os directory buf (length buf) (written buf r)
    unfolding proc
    proc-content buf r e writing =
        let on : (r.flag == 2) ≡ true = ground (arith, writing) in
        rw (
          e,
          on,
          roomy.writes_ok r.hfile buf r.sys.world,
          roomy.writes_all r.hfile buf r.sys.world,
          proc,
        )

    abbrev counted : List ℕ → ReadProc os → ReadProc os
    counted buf r = record (written buf r) {
      total_recv = r.total_recv + length buf;
      rate = u32 (100 * (r.total_recv + length buf)) / r.file_size;
      saved = r.saved ++ buf;
    }

    -- A piece that does not reach the size.
    proc-more :
        (buf : List ℕ) (r : ReadProc os)
        → message buf ≡ content
        → r.flag ≡ 2
        → r.total_recv + length buf < r.file_size
        → r.file_size < 2 ^ 32
        → proc os directory buf r ≡ some (counted buf r)
    unfolding count
    proc-more buf r e writing less small =
        let some_size : (r.file_size == 0) ≡ false = ground (arith, less) in
        let fits : u32 (r.total_recv + length buf) ≡ r.total_recv + length buf =
          omega (arith, less, small) in
        let on : leb r.file_size (r.total_recv + length buf) ≡ false = ground (arith, less) in
        proc-content buf r e writing
        ∙ rw (some_size, fits, on, take_all (length buf) buf (omega arith), count)

    -- The piece that reaches it.
    proc-last :
        (buf : List ℕ) (r : ReadProc os)
        → message buf ≡ content
        → r.flag ≡ 2
        → 0 < r.file_size
        → r.file_size ≤ r.total_recv + length buf
        → r.total_recv + length buf < 2 ^ 32
        → proc os directory buf r
          ≡ some (record (deinit_file os directory (counted buf r)) { flag = 3 })
    unfolding count
    proc-last buf r e writing some_size reached small =
        let divides : (r.file_size == 0) ≡ false = ground (arith, some_size) in
        let fits : u32 (r.total_recv + length buf) ≡ r.total_recv + length buf =
          omega (arith, small) in
        let off : leb r.file_size (r.total_recv + length buf) ≡ true = ground (arith, reached) in
        proc-content buf r e writing
        ∙ rw (divides, fits, off, take_all (length buf) buf (omega arith), count)

    proc_all-nil : (r : ReadProc os) → proc_all os directory [] r ≡ some r
    proc_all-nil r = unfold proc_all in refl

    proc_all-cons :
        (buf : List ℕ) (bufs : List (List ℕ)) (r r' : ReadProc os)
        → proc os directory buf r ≡ some r'
        → proc_all os directory (buf ∷ bufs) r ≡ proc_all os directory bufs r'
    unfolding proc_all
    proc_all-cons buf bufs r r' e = rw (e, proc_all)

    proc_all-IsDownloaded :
        (bufs : List (List ℕ)) (last : List ℕ) (r : ReadProc os)
        → AreContent bufs
        → message last ≡ content
        → r.flag ≡ 2
        → 0 < r.file_size
        → r.file_size < 2 ^ 32
        → r.total_recv + total bufs < r.file_size
        → r.file_size ≤ r.total_recv + total bufs + length last
        → r.total_recv + total bufs + length last < 2 ^ 32
        → IsDownloaded
            (r.saved ++ (join bufs ++ last))
            (proc_all os directory (bufs ++ last ∷ []) r)
    proc_all-IsDownloaded [] last r all e writing some_size size_small less reached small =
        let r' = record (deinit_file os directory (counted last r)) { flag = 3 } in
        record {
          final = r';
          returns =
              proc_all-cons last [] r r'
                (proc-last last r e writing some_size (omega arith) (omega arith))
              ∙ proc_all-nil r';
          finished = refl;
          closed = deinit_file-closes (counted last r);
          complete = deinit_file-keeps (counted last r);
        }
    proc_all-IsDownloaded (buf ∷ bufs) last r (here, all) e writing some_size size_small less
          reached small =
        let next =
          proc_all-IsDownloaded bufs last (counted buf r) all e writing some_size size_small
            (omega arith) (omega arith) (omega arith) in
        record {
          final = next.final;
          returns =
              proc_all-cons buf (bufs ++ last ∷ []) r (counted buf r)
                (proc-more buf r here writing (omega arith) size_small)
              ∙ next.returns;
          finished = next.finished;
          closed = next.closed;
          complete =
              next.complete
              ∙ append_assoc r.saved buf (join bufs ++ last)
              ∙ ap (λ l. r.saved ++ l) (sym (append_assoc buf (join bufs) last));
        }

    abbrev started : ℕ → ReadProc os → ReadProc os
    started n r =
        init_file os directory r.dw_name (record r { total_recv = 0; file_size = n; flag = 2 })

    proc-started :
        (head : List ℕ) (n : ℕ) (r : ReadProc os)
        → message head ≡ read_told n
        → 0 < n
        → proc os directory head r ≡ some (started n r)
    unfolding proc
    proc-started head n r e some_size =
        let divides : (n == 0) ≡ false = ground arith in rw (e, divides, proc)

    -- On a disk that takes all it is given: after a message that tells a size of `n` > 0 to read, buffers
    -- without commands whose lengths stay below `n` and a last one that reaches it, below 2 ^ 32 in all,
    -- are saved in order, whatever the state was before; the transfer is then finished, and the file
    -- closed.
    pub download :
        (head : List ℕ) (n : ℕ) (bufs : List (List ℕ)) (last : List ℕ) (r : ReadProc os)
        → message head ≡ read_told n
        → AreContent bufs
        → message last ≡ content
        → 0 < n
        → n < 2 ^ 32
        → total bufs < n
        → n ≤ total bufs + length last
        → total bufs + length last < 2 ^ 32
        → IsDownloaded (join bufs ++ last) (proc_all os directory (head ∷ (bufs ++ last ∷ [])) r)
    download head n bufs last r told all e some_size size_small less reached small =
        let r1 = started n r in
        let fields =
          init_file-fields r.dw_name (record r { total_recv = 0; file_size = n; flag = 2 }) in
        let size_eq : r1.file_size ≡ n = fields.1 in
        let zero_eq : r1.total_recv ≡ 0 = fields.2 in
        let rest =
          proc_all-IsDownloaded bufs last r1 all e fields.0 (omega (arith, size_eq, some_size))
            (omega (arith, size_eq, size_small)) (omega (arith, size_eq, zero_eq, less))
            (omega (arith, size_eq, zero_eq, reached)) (omega (arith, zero_eq, small)) in
        record {
          final = rest.final;
          returns =
              proc_all-cons head (bufs ++ last ∷ []) r r1 (proc-started head n r told some_size)
              ∙ rest.returns;
          finished = rest.finished;
          closed = rest.closed;
          complete = rest.complete ∙ ap (λ l. l ++ (join bufs ++ last)) fields.3;
        }

    -- On a disk that takes all it is given, during a transfer: a message that tells a size of 0, and then a
    -- buffer without a command, end in the division by zero.
    pub proc_all_divides_by_zero :
        (told piece : List ℕ) (r : ReadProc os)
        → message told ≡ size_told 0
        → message piece ≡ content
        → r.flag ≡ 2
        → proc_all os directory (told ∷ piece ∷ []) r ≡ none
    unfolding proc_all count
    proc_all_divides_by_zero told piece r e e' writing =
        let r1 = record r { file_size = 0 } in
        let first : proc os directory told r ≡ some r1 = unfold proc in rw (e, proc) in
        let second : proc os directory piece r1 ≡ none = proc-content piece r1 e' writing in
        rw (first, second, proc_all)
