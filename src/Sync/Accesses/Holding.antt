-- ===== src/Sync/Accesses/Holding.antt =====
-- The pieces of the reading thread (ComIO.cpp) and StopSync keep what holds at a place of `doSync`.
use cosmos_pc.Prelude.{
  ℕ, ◌≡◌, ◌≢◌, refl, sym, ◌∙◌, Option-cases, inl, inr, Option, some, List, arith,
}
use mathlib.Core.Path.{subst}
use mathlib.Core.Option
use cosmos_pc.Os.{Os, Sys, IsLawful}
use cosmos_pc.ComIo.{ComIo, read_com, deinit_com_io}
use cosmos_pc.Download.{ReadProc, message}
use cosmos_pc.Download.Pieces.{Rest, is_done, makes_file, closes_file, proc_rest}
use cosmos_pc.Sync.{Sync, stop_sync}
use cosmos_pc.Sync.Steps.{IsAnswer, arriving, Phase}
use cosmos_pc.Sync.Accesses.{
  Place, enters, tests_idle, looks, names, asks, tests_receiving, tests_received, parses, resets,
  tests_asked, leaves, ends, deletes, rests, stopped, asked_flag, read_first,
}
use cosmos_pc.Sync.Accesses.Invariant.{IsWhole, Going, When, Holds, Safe, safe, When-map, Going-sys}
use cosmos_pc.Sync.Accesses.Reader.{read_first-GoesOn, read_first-quiet, proc_rest-Phase}

module _ (os : Os) (directory : List ℕ) where
  IsWhole-sys :
      (i : ℕ) (r : ReadProc os) (t : Sys os)
      → IsWhole os directory i r
      → IsWhole os directory i (record r { sys = t })
  IsWhole-sys i r t h = record { flag = h.flag; file = h.file; enough = h.enough }

  Holds-sys :
      (p : Place) (rest : Rest) (i : ℕ) (r : ReadProc os) (t : Sys os)
      → Holds os directory p rest i r
      → Holds os directory p rest i (record r { sys = t })
  Holds-sys enters rest i r t h = Going-sys os directory rest i r t h
  Holds-sys (tests_idle c) rest i r t h = Going-sys os directory rest i r t h
  Holds-sys (looks c) rest i r t h = h
  Holds-sys (names c) rest i r t h = h
  Holds-sys (asks c) rest i r t h = h
  Holds-sys tests_receiving rest i r t h = Going-sys os directory rest i r t h
  Holds-sys tests_received rest i r t h = Going-sys os directory rest i r t h
  Holds-sys parses rest i r t h = When-map os directory rest (IsWhole-sys i r t) h
  Holds-sys resets rest i r t h = h
  Holds-sys tests_asked rest i r t h = Going-sys os directory rest i r t h
  Holds-sys leaves rest i r t h = Going-sys os directory rest i r t h
  Holds-sys ends rest i r t h = Going-sys os directory rest i r t h
  Holds-sys deletes rest i r t h = tt
  Holds-sys rests rest i r t h = tt
  Holds-sys stopped rest i r t h = tt

  pub stop_sync-Safe :
      (p : Place) (s : Sync os) (rest : Rest)
      → Safe os directory p s rest
      → Safe os directory p (stop_sync os directory s) rest
  unfolding stop_sync
  stop_sync-Safe p s rest inv = elim (Option-cases s.pcio) [
    | inl gone ↦ rw (gone, stop_sync) inv
    | inr (c, port) ↦
        let t = (deinit_com_io os c s.r_proc.sys).1 in
        rw (port, stop_sync)
          (safe os directory p _ rest (Holds-sys p rest s.i s.r_proc t inv.holds) inv.bounded
            inv.falls)
  ]

  same_result :
      (P : Rest → ReadProc os → Type 0) {q q' : Rest × ReadProc os}
      (o : Option (Rest × ReadProc os))
      → o ≡ some q
      → o ≡ some q'
      → P q.0 q.1
      → P q'.0 q'.1
  same_result P {q} {q'} o e e' h =
      subst (λ q. P q.0 q.1) (Option.some-injective q q' (sym e ∙ e')) h

  module _ (lawful : IsLawful os) (i : ℕ) (c : ComIo) (r r' : ReadProc os) (rest : Rest)
      (e : read_first os directory c r ≡ some (rest, r')) where
    kept-Going :
        IsAnswer (message (arriving os directory c r)) r.flag
        → Phase os directory i r
        → Going os directory rest i r'
    kept-Going answer phase =
        let done = read_first-GoesOn os directory lawful i c r answer phase in
        same_result (λ q t. Going os directory q i t) {q' = (rest, r')}
          (read_first os directory c r) done.returns e done.going

    kept-Holds :
        (p : Place) (k : ℕ)
        → IsAnswer (message (arriving os directory c r)) k
        → k ≢ 1
        → r.flag ≢ 2
        → Holds os directory p is_done i r
        → Holds os directory p rest i r'
    kept-Holds p k answer not1 not2 h =
        same_result (λ q t. Holds os directory p q i t) {q' = (rest, r')}
          (read_first os directory c r) (read_first-quiet os directory c r k answer not1 not2) e
          (Holds-sys p is_done i r (read_com os c 1024 r.sys).1 h)

    pub read_first-Holds :
        (p : Place)
        → IsAnswer (message (arriving os directory c r)) (asked_flag p r.flag)
        → Holds os directory p is_done i r
        → Holds os directory p rest i r'
    read_first-Holds enters answer h = kept-Going answer h
    read_first-Holds (tests_idle d) answer h = kept-Going answer h
    read_first-Holds (looks d) answer h =
        kept-Holds (looks d) r.flag answer (λ one. absurd (omega (arith, one, h)))
          (λ two. absurd (omega (arith, two, h))) h
    read_first-Holds (names d) answer h =
        kept-Holds (names d) 0 answer (λ one. absurd (omega (arith, one)))
          (λ two. absurd (omega (arith, two, h))) h
    read_first-Holds (asks d) answer h =
        kept-Holds (asks d) 0 answer (λ one. absurd (omega (arith, one)))
          (λ two. absurd (omega (arith, two, h.0))) h
    read_first-Holds tests_receiving answer h = kept-Going answer h
    read_first-Holds tests_received answer h = kept-Going answer h
    read_first-Holds parses answer h =
        kept-Holds parses r.flag answer (λ one. absurd (omega (arith, one, h.flag)))
          (λ two. absurd (omega (arith, two, h.flag))) h
    read_first-Holds resets answer h =
        kept-Holds resets r.flag answer (λ one. absurd (omega (arith, one, h)))
          (λ two. absurd (omega (arith, two, h))) h
    read_first-Holds tests_asked answer h = kept-Going answer h
    read_first-Holds leaves answer h = kept-Going answer h
    read_first-Holds ends answer h = kept-Going answer h
    read_first-Holds deletes answer h = tt
    read_first-Holds rests answer h = tt
    read_first-Holds stopped answer h = tt

  -- Where the reading thread has nothing left to do, its second piece does nothing.
  When-rest :
      (P : ReadProc os → Type 0) (rest : Rest) (r : ReadProc os)
      → When os directory rest (P r)
      → P (proc_rest os directory rest r)
  unfolding proc_rest
  When-rest P is_done r h = h
  When-rest P makes_file r h = absurd h
  When-rest P closes_file r h = absurd h

  pub proc_rest-Holds :
      (p : Place) (rest : Rest) (i : ℕ) (r : ReadProc os)
      → Holds os directory p rest i r
      → Holds os directory p is_done i (proc_rest os directory rest r)
  proc_rest-Holds enters rest i r h = proc_rest-Phase os directory rest i r h
  proc_rest-Holds (tests_idle c) rest i r h = proc_rest-Phase os directory rest i r h
  proc_rest-Holds (looks c) rest i r h = When-rest (λ t. t.flag ≡ 0) rest r h
  proc_rest-Holds (names c) rest i r h = When-rest (λ t. t.flag ≡ 1) rest r h
  proc_rest-Holds (asks c) rest i r h = When-rest (λ t. (t.flag ≡ 1) × (t.dw_name ≡ i)) rest r h
  proc_rest-Holds tests_receiving rest i r h = proc_rest-Phase os directory rest i r h
  proc_rest-Holds tests_received rest i r h = proc_rest-Phase os directory rest i r h
  proc_rest-Holds parses rest i r h = When-rest (IsWhole os directory i) rest r h
  proc_rest-Holds resets rest i r h = When-rest (λ t. t.flag ≡ 3) rest r h
  proc_rest-Holds tests_asked rest i r h = proc_rest-Phase os directory rest i r h
  proc_rest-Holds leaves rest i r h = proc_rest-Phase os directory rest i r h
  proc_rest-Holds ends rest i r h = proc_rest-Phase os directory rest i r h
  proc_rest-Holds deletes rest i r h = tt
  proc_rest-Holds rests rest i r h = tt
  proc_rest-Holds stopped rest i r h = tt

  pub When-done : {P : Type 0} (rest : Rest) → When os directory rest P → (rest ≡ is_done) × P
  When-done is_done h = (refl, h)
  When-done makes_file h = absurd h
  When-done closes_file h = absurd h
