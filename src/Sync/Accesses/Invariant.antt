-- ===== src/Sync/Accesses/Invariant.antt =====
-- What holds between any two accesses of `doSync` (MainProcFunc.cpp) to what it shares.
use cosmos_pc.Prelude.{ℕ, ◌≤◌, ◌<◌, ◌≡◌, List, arith, length}
use cosmos_pc.Os.{Os, Sys}
use cosmos_pc.Download.{ReadProc, tmp_path}
use cosmos_pc.Download.Pieces.{Rest, is_done, makes_file, closes_file}
use cosmos_pc.Sync.{Sync}
use cosmos_pc.Sync.Steps.{Phase, idle, asked, receiving, received, FallsFrom}
use cosmos_pc.Sync.Invariant.{Phase-sys}
use cosmos_pc.Sync.Accesses.{
  Place, enters, tests_idle, looks, names, asks, tests_receiving, tests_received, parses, resets,
  tests_asked, leaves, ends, deletes, rests, stopped,
}

-- The highest number there.
abbrev pub limit : Place → ℕ
limit enters = 999999
limit (tests_idle c) = 999999
limit (looks c) = 999999
limit (names c) = 999999
limit (asks c) = 999999
limit tests_receiving = 999999
limit tests_received = 999999
limit parses = 999999
limit resets = 1000000
limit tests_asked = 999999
limit leaves = 1000000
limit ends = 1000000
limit deletes = 1000000
limit rests = 1000000
limit stopped = 1000000

pub limit-le : {i : ℕ} (p : Place) → i ≤ limit p → i ≤ 1000000
limit-le enters le = omega (arith, le)
limit-le (tests_idle c) le = omega (arith, le)
limit-le (looks c) le = omega (arith, le)
limit-le (names c) le = omega (arith, le)
limit-le (asks c) le = omega (arith, le)
limit-le tests_receiving le = omega (arith, le)
limit-le tests_received le = omega (arith, le)
limit-le parses le = omega (arith, le)
limit-le resets le = le
limit-le tests_asked le = omega (arith, le)
limit-le leaves le = le
limit-le ends le = le
limit-le deletes le = le
limit-le rests le = le
limit-le stopped le = le

module _ (os : Os) (directory : List ℕ) where
  -- The whole file `i` is saved.
  pub record IsWhole (i : ℕ) (r : ReadProc os) : Type 0 where
    pub flag : r.flag ≡ 3
    pub file : r.last_file ≡ tmp_path directory i
    pub enough : r.file_size ≤ length r.saved

  -- The size was told, and the file is not made yet.
  pub record IsTold (i : ℕ) (r : ReadProc os) : Type 0 where
    pub flag : r.flag ≡ 2
    pub name : r.dw_name ≡ i
    pub size : 0 < r.file_size
    pub none_yet : r.total_recv ≡ 0

  -- The whole file is written, and not closed yet.
  pub record IsFilled (i : ℕ) (r : ReadProc os) : Type 0 where
    pub flag : r.flag ≡ 2
    pub file : r.last_file ≡ tmp_path directory i
    pub enough : r.file_size ≤ length r.saved

  -- What the flag means for the file `i`.
  abbrev pub Going : Rest → ℕ → ReadProc os → Type 0
  Going is_done i r = Phase os directory i r
  Going makes_file i r = IsTold i r
  Going closes_file i r = IsFilled i r

  -- The reading thread has nothing left to do.
  abbrev pub When : Rest → Type 0 → Type 0
  When is_done P = P
  When makes_file P = ⊥
  When closes_file P = ⊥

  -- What holds of the file there.
  abbrev pub Holds : Place → Rest → ℕ → ReadProc os → Type 0
  Holds enters rest i r = Going rest i r
  Holds (tests_idle c) rest i r = Going rest i r
  Holds (looks c) rest i r = When rest (r.flag ≡ 0)
  Holds (names c) rest i r = When rest (r.flag ≡ 1)
  Holds (asks c) rest i r = When rest ((r.flag ≡ 1) × (r.dw_name ≡ i))
  Holds tests_receiving rest i r = Going rest i r
  Holds tests_received rest i r = Going rest i r
  Holds parses rest i r = When rest (IsWhole i r)
  Holds resets rest i r = When rest (r.flag ≡ 3)
  Holds tests_asked rest i r = Going rest i r
  Holds leaves rest i r = Going rest i r
  Holds ends rest i r = Going rest i r
  Holds deletes rest i r = Unit
  Holds rests rest i r = Unit
  Holds stopped rest i r = Unit

  pub record Safe (p : Place) (s : Sync os) (rest : Rest) : Type 0 where
    pub holds : Holds p rest s.i s.r_proc
    pub bounded : s.i ≤ limit p
    pub falls : FallsFrom os directory s.i s.parsed

  pub safe :
      (p : Place) (s : Sync os) (rest : Rest)
      → Holds p rest s.i s.r_proc
      → s.i ≤ limit p
      → FallsFrom os directory s.i s.parsed
      → Safe p s rest
  safe p s rest holds bounded falls = record { holds = holds; bounded = bounded; falls = falls }

  pub When-map : {P Q : Type 0} (rest : Rest) → (P → Q) → When rest P → When rest Q
  When-map is_done f h = f h
  When-map makes_file f h = h
  When-map closes_file f h = h

  pub When-Going :
      (rest : Rest) (i : ℕ) (r : ReadProc os) → When rest (Phase os directory i r) → Going rest i r
  When-Going is_done i r h = h
  When-Going makes_file i r h = absurd h
  When-Going closes_file i r h = absurd h

  pub Going-sys :
      (rest : Rest) (i : ℕ) (r : ReadProc os) (t : Sys os)
      → Going rest i r
      → Going rest i (record r { sys = t })
  Going-sys is_done i r t h = Phase-sys os directory i r t h
  Going-sys makes_file i r t h = record {
    flag = h.flag;
    name = h.name;
    size = h.size;
    none_yet = h.none_yet;
  }
  Going-sys closes_file i r t h = record { flag = h.flag; file = h.file; enough = h.enough }

  -- The flag 0 is seen when nothing is under way.
  pub Going-idle :
      (rest : Rest) (i : ℕ) (r : ReadProc os) → Going rest i r → r.flag ≡ 0 → When rest (r.flag ≡ 0)
  Going-idle is_done i r h flag = flag
  Going-idle makes_file i r h flag = absurd (omega (arith, h.flag, flag))
  Going-idle closes_file i r h flag = absurd (omega (arith, h.flag, flag))

  Phase-IsWhole : (i : ℕ) (r : ReadProc os) → Phase os directory i r → r.flag ≡ 3 → IsWhole i r
  Phase-IsWhole i r (idle e) flag = absurd (omega arith)
  Phase-IsWhole i r (asked e name) flag = absurd (omega arith)
  Phase-IsWhole i r (receiving e name file size counted) flag = absurd (omega arith)
  Phase-IsWhole i r (received e file whole) flag = record {
    flag = flag;
    file = file;
    enough = whole;
  }

  -- The flag 3 is seen when the whole file is saved and closed.
  pub Going-IsWhole :
      (rest : Rest) (i : ℕ) (r : ReadProc os)
      → Going rest i r
      → r.flag ≡ 3
      → When rest (IsWhole i r)
  Going-IsWhole is_done i r h flag = Phase-IsWhole i r h flag
  Going-IsWhole makes_file i r h flag = absurd (omega (arith, h.flag, flag))
  Going-IsWhole closes_file i r h flag = absurd (omega (arith, h.flag, flag))
