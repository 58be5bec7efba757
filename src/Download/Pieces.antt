-- ===== src/Download/Pieces.antt =====
-- `CosmosReadCommProc::proc` (CosmosReadCommProc.cpp) in two pieces: up to the point where the flag was set for
-- a new file or all of a file is written, and what it does then.
use cosmos_pc.Prelude.{
  ℕ, ◌+◌, ◌*◌, ◌/◌, ◌≡◌, refl, Bool-cases, inl, inr, true, false, Option, none, some, List, ◌++◌,
  take, u32, leb, ◌==◌, if◌then◌else◌,
}
use cosmos_pc.Os.{Os}
use cosmos_pc.Download.{
  ReadProc, Message, ignored, size_told, read_told, content, message, deinit_file, init_file, count,
  proc,
}

-- What is left to do: nothing, `InitFile(dwName)`, or `DeinitFile()` and `flag = 3`.
pub data Rest : Type 0 where
  is_done : Rest
  makes_file : Rest
  closes_file : Rest

module _ (os : Os) (directory : List ℕ) where
  -- The count of `w` bytes written, and the test against the size.
  unfoldable pub count_first : List ℕ → ℕ → ReadProc os → Option (Rest × ReadProc os)
  count_first buf w r =
      let total = u32 (r.total_recv + w) in
      if r.file_size == 0
      then none
      else let counted = record r {
        total_recv = total;
        rate = u32 (100 * total) / r.file_size;
        saved = r.saved ++ take w buf;
      } in
        if leb r.file_size total then some (closes_file, counted) else some (is_done, counted)

  -- The first piece.
  unfoldable pub proc_first : List ℕ → ReadProc os → Option (Rest × ReadProc os)
  proc_first buf r = elim (message buf) [
    | ignored ↦ some (is_done, r)
    | size_told n ↦ some (is_done, record r { file_size = n })
    | read_told n ↦
        let told = record r { total_recv = 0; file_size = n } in
        if n == 0
        then some (is_done, record told { flag = 1 })
        else some (makes_file, record told { flag = 2 })
    | content ↦ elim (r.flag == 2) [
      | false ↦ some (is_done, r)
      | true ↦
          let (ok, w, world') = os.write_file r.hfile buf r.sys.world in
          let written = record r { sys = record r.sys { world = world' } } in
          if ok then count_first buf w written else some (is_done, written)
    ]
  ]

  -- The second one.
  unfoldable pub proc_rest : Rest → ReadProc os → ReadProc os
  proc_rest is_done r = r
  proc_rest makes_file r = init_file os directory r.dw_name r
  proc_rest closes_file r = record (deinit_file os directory r) { flag = 3 }

  abbrev joined : Option (Rest × ReadProc os) → Option (ReadProc os)
  joined none = none
  joined (some (rest, r)) = some (proc_rest rest r)

  count_first-joined :
      (buf : List ℕ) (w : ℕ) (r : ReadProc os)
      → joined (count_first buf w r) ≡ count os directory buf w r
  unfolding count_first count proc_rest
  count_first-joined buf w r = elim (Bool-cases (r.file_size == 0)) [
    | inl divides ↦ rw (divides, count_first, count) refl
    | inr some_size ↦ elim (Bool-cases (leb r.file_size (u32 (r.total_recv + w)))) [
      | inl reached ↦ rw (some_size, reached, count_first, count) refl
      | inr less ↦ rw (some_size, less, count_first, count) refl
    ]
  ]

  content-joined :
      (buf : List ℕ) (r : ReadProc os)
      → message buf ≡ content
      → joined (proc_first buf r) ≡ proc os directory buf r
  unfolding proc_first proc proc_rest
  content-joined buf r e = elim (Bool-cases (r.flag == 2)) [
    | inr off ↦ rw (e, off, proc_first, proc) refl
    | inl on ↦
        let (ok, w, world') = os.write_file r.hfile buf r.sys.world in
        let written : ReadProc os = record r { sys = record r.sys { world = world' } } in
        elim (Bool-cases ok) [
          | inr failed ↦ rw (e, on, failed, proc_first, proc) refl
          | inl done ↦ rw (e, on, done, proc_first, proc) (count_first-joined buf w written)
        ]
  ]

  message-joined :
      (buf : List ℕ) (r : ReadProc os) (m : Message)
      → message buf ≡ m
      → joined (proc_first buf r) ≡ proc os directory buf r
  unfolding proc_first proc proc_rest
  message-joined buf r ignored e = rw (e, proc_first, proc) refl
  message-joined buf r (size_told n) e = rw (e, proc_first, proc) refl
  message-joined buf r (read_told n) e = elim (Bool-cases (n == 0)) [
    | inl nothing ↦ rw (e, nothing, proc_first, proc) refl
    | inr more ↦ rw (e, more, proc_first, proc) refl
  ]
  message-joined buf r content e = content-joined buf r e

  -- On any buffer and in any state, the two pieces of `proc` one after the other are `proc`, the division by
  -- zero included.
  proc_first-joined :
      (buf : List ℕ) (r : ReadProc os) → joined (proc_first buf r) ≡ proc os directory buf r
  proc_first-joined buf r = message-joined buf r (message buf) refl
