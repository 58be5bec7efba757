-- ===== src/Sync/Accesses/Rounds.antt =====
-- A round of `doSync` (MainProcFunc.cpp) is made of its accesses.
use cosmos_pc.Prelude.{
  ℕ, suc, ◌+◌, ◌≡◌, refl, sym, ◌∙◌, ap, Bool-cases, Option-cases, inl, inr, true, false, some, List,
  ◌∷◌, ltb, ◌==◌, if◌then◌else◌,
}
use mathlib.Core.Path.{subst}
use cosmos_pc.Os.{Os}
use cosmos_pc.ComIo.{ComIo}
use cosmos_pc.Download.{delete_last_file}
use cosmos_pc.Sync.{Sync, check_file_exist, request_file, next_round, end_sync, sync_round}
use cosmos_pc.Sync.Accesses.{
  Place, enters, tests_idle, looks, names, asks, tests_receiving, tests_received, parses, resets,
  tests_asked, leaves, ends, deletes, rests, stopped, Thread, proceed, proceeds,
}

module _ (os : Os) (directory : List ℕ) where
  abbrev put : Place → Sync os → Thread os
  put p s = record { place = p; sync = s }

  -- Between two rounds, or behind the last one.
  abbrev between : Sync os → Thread os
  between s = record { place = if s.looping then enters else stopped; sync = s }

  abbrev LeadsTo : Thread os → Thread os → Type 0
  LeadsTo t u = (n : ℕ) × (proceeds os directory n t ≡ u)

  one_more :
      (p : Place) (s : Sync os) {t u : Thread os}
      → proceed os directory p s ≡ t
      → LeadsTo t u
      → LeadsTo (put p s) u
  unfolding proceeds
  one_more p s e (n, e') = (suc n, ap (proceeds os directory n) e ∙ e')

  none_more : {t u : Thread os} → t ≡ u → LeadsTo t u
  none_more e = (0, unfold proceeds in e)

  -- `rProc.flag = 0` behind the loop.
  abbrev rested : Sync os → Sync os
  rested s = record s { r_proc = record s.r_proc { flag = 0 }; looping = false }

  ends-LeadsTo : (s : Sync os) → LeadsTo (put ends s) (between (end_sync os directory s))
  unfolding proceed end_sync
  ends-LeadsTo s =
      let deleted : Sync os = record s { r_proc = delete_last_file os directory s.r_proc } in
      elim (Bool-cases (s.r_proc.flag == 2)) [
        | inl is2 ↦ one_more ends s {t = put deletes s} (rw (is2, proceed) refl) (
            one_more deletes s {t = put rests deleted} refl (
              one_more rests deleted {t = put stopped (rested deleted)} refl
                (none_more (rw (is2, end_sync) refl))))
        | inr not2 ↦ one_more ends s {t = put rests s} (rw (not2, proceed) refl) (
            one_more rests s {t = put stopped (rested s)} refl
              (none_more (rw (not2, end_sync) refl)))
      ]

  leaves-LeadsTo :
      (s : Sync os)
      → s.looping ≡ true
      → LeadsTo (put leaves s) (between (next_round os directory s))
  unfolding proceed next_round
  leaves-LeadsTo s on =
      let shown : Sync os = record s {
        r_proc = record s.r_proc {
          sys = record s.r_proc.sys { progress = s.r_proc.rate ∷ s.r_proc.sys.progress };
        };
      } in
      elim (Bool-cases (ltb s.i 1000000)) [
        | inl more ↦
            one_more leaves s {t = put enters shown} (rw (more, proceed) refl)
              (none_more (rw (more, next_round, on) refl))
        | inr over ↦
            one_more leaves s {t = put ends shown} (rw (over, proceed) refl)
              (rw (over, next_round) (ends-LeadsTo shown))
      ]

  asks-LeadsTo :
      (c : ComIo) (s : Sync os)
      → s.looping ≡ true
      → LeadsTo
          (put (looks c) s)
          (between (next_round os directory (request_file os directory c s)))
  unfolding proceed request_file
  asks-LeadsTo c s on =
      let looked = check_file_exist os directory s.i s.r_proc.sys in
      let passed : Sync os = record s {
        i = s.i + 1;
        r_proc = record s.r_proc { sys = looked.1 };
      } in
      let flagged : Sync os = record s { r_proc = record s.r_proc { sys = looked.1; flag = 1 } } in
      let named : Sync os = record flagged { r_proc = record flagged.r_proc { dw_name = s.i } } in
      elim (Bool-cases looked.0) [
        | inl there ↦
            one_more (looks c) s {t = put leaves passed} (rw (there, proceed) refl)
              (rw (there, request_file) (leaves-LeadsTo passed on))
        | inr missing ↦
            one_more (looks c) s {t = put (names c) flagged} (rw (missing, proceed) refl) (
              one_more (names c) flagged {t = put (asks c) named} refl
                (one_more (asks c) named refl (rw (missing, request_file) (leaves-LeadsTo _ on))))
      ]

  -- The round, as it was computed.
  round_is :
      (t : Thread os) (s v : Sync os)
      → sync_round os directory s ≡ v
      → LeadsTo t (between v)
      → LeadsTo t (between (sync_round os directory s))
  round_is t s v e path = subst (λ v. LeadsTo t (between v)) (sym e) path

  tests_received-LeadsTo :
      (s : Sync os) (c : ComIo)
      → s.looping ≡ true
      → s.pcio ≡ some c
      → (s.r_proc.flag == 0) ≡ false
      → (s.r_proc.flag == 2) ≡ false
      → LeadsTo (put tests_received s) (between (sync_round os directory s))
  unfolding proceed sync_round
  tests_received-LeadsTo s c on port not0 not2 =
      let parsed : Sync os = record s { parsed = s.i ∷ s.parsed; i = s.i + 1 } in
      let reset : Sync os = record parsed { r_proc = record parsed.r_proc { flag = 0 } } in
      elim (Bool-cases (s.r_proc.flag == 3)) [
        | inl is3 ↦ one_more tests_received s {t = put parses s} (rw (is3, proceed) refl) (
            one_more parses s {t = put resets parsed} refl (
              one_more resets parsed {t = put leaves reset} refl (
                round_is (put leaves reset) s (next_round os directory reset)
                  (simp (on, port, not0, not2, is3, sync_round)) (leaves-LeadsTo reset on))))
        | inr not3 ↦ one_more tests_received s {t = put tests_asked s} (rw (not3, proceed) refl) (
            one_more tests_asked s {t = put ends s} refl (
              round_is (put ends s) s (end_sync os directory s)
                (simp (on, port, not0, not2, not3, sync_round)) (ends-LeadsTo s)))
      ]

  tests_idle-LeadsTo :
      (s : Sync os) (c : ComIo)
      → s.looping ≡ true
      → s.pcio ≡ some c
      → LeadsTo (put (tests_idle c) s) (between (sync_round os directory s))
  unfolding proceed sync_round
  tests_idle-LeadsTo s c on port = elim (Bool-cases (s.r_proc.flag == 0)) [
    | inl is0 ↦ one_more (tests_idle c) s {t = put (looks c) s} (rw (is0, proceed) refl) (
        round_is (put (looks c) s) s (next_round os directory (request_file os directory c s))
          (simp (on, port, is0, sync_round)) (asks-LeadsTo c s on))
    | inr not0 ↦
        one_more (tests_idle c) s {t = put tests_receiving s} (rw (not0, proceed) refl)
          (elim (Bool-cases (s.r_proc.flag == 2)) [
            | inl is2 ↦ one_more tests_receiving s {t = put leaves s} (rw (is2, proceed) refl) (
                round_is (put leaves s) s (next_round os directory s)
                  (simp (on, port, not0, is2, sync_round)) (leaves-LeadsTo s on))
            | inr not2 ↦
                one_more tests_receiving s {t = put tests_received s} (rw (not2, proceed) refl)
                  (tests_received-LeadsTo s c on port not0 not2)
          ])
  ]

  running-LeadsTo :
      (s : Sync os)
      → s.looping ≡ true
      → LeadsTo (put enters s) (between (sync_round os directory s))
  unfolding proceed sync_round
  running-LeadsTo s on = elim (Option-cases s.pcio) [
    | inl gone ↦ one_more enters s {t = put ends s} (simp (gone, proceed)) (
        round_is (put ends s) s (end_sync os directory s) (simp (on, gone, sync_round))
          (ends-LeadsTo s))
    | inr (c, port) ↦
        one_more enters s {t = put (tests_idle c) s} (simp (port, proceed))
          (tests_idle-LeadsTo s c on port)
  ]

  -- From within the loop of `doSync`: when no other thread does anything between its accesses, some number
  -- of them, from the start of a round, comes to the state that the round as one step has, at the start
  -- of the next round, or at the end of the thread if the round left the loop.
  sync_round-LeadsTo :
      (s : Sync os) → s.looping ≡ true → LeadsTo (between s) (between (sync_round os directory s))
  sync_round-LeadsTo s on =
      subst
        (λ b.
          LeadsTo (record { place = if b then enters else stopped; sync = s })
            (between (sync_round os directory s)))
        (sym on) (running-LeadsTo s on)
