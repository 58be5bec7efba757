-- ===== src/Ports/Names.antt =====
-- The name of the port that the user chose, `getCommPort` (MainProcFunc.cpp).
use cosmos_pc.Prelude.{
  ℕ, zero, suc, ◌+◌, ◌*◌, ◌≤◌, ◌<◌, ◌≡◌, refl, ap, ◌∙◌, Bool-cases, inl, inr, true, false, none,
  some, List, [], ◌∷◌, ◌++◌, arith, length, length-append, take, drop, take_all, ltb, ◌==◌,
}
use cosmos_pc.Ports.{device_prefix, before_colon, get_comm_port, comm_port_calls}

-- A text so many times.
abbrev pub repeated : ℕ → List ℕ → List ℕ
repeated zero text = []
repeated (suc n) text = repeated n text ++ text

before_colon-append :
    (a b : List ℕ) → before_colon a ≡ a → before_colon b ≡ b → before_colon (a ++ b) ≡ a ++ b
unfolding before_colon
before_colon-append [] b ha hb = hb
before_colon-append (c ∷ a) b ha hb = elim (Bool-cases (c == b':')) [
  | inl e ↦ absurd (omega (arith, ap length (rw e at ha)))
  | inr e ↦ rw e (ap (◌∷◌ c) (before_colon-append a b (ap (drop 1) (rw e at ha)) hb))
]

length-repeated : (n : ℕ) (text : List ℕ) → length (repeated n text) ≡ n * length text
length-repeated zero text = omega arith
length-repeated (suc n) text =
    omega (arith, length-append (repeated n text) text, length-repeated n text)

repeated-before_colon :
    (n : ℕ) (text : List ℕ)
    → before_colon text ≡ text
    → before_colon (repeated n text) ≡ repeated n text
repeated-before_colon zero text h = unfold before_colon in refl
repeated-before_colon (suc n) text h =
    before_colon-append (repeated n text) text (repeated-before_colon n text h) h

-- The characters that the next call puts together.
next_length :
    (n : ℕ) (text : List ℕ)
    → length text ≤ 27
    → length ((device_prefix ++ repeated n text) ++ take 27 text) ≡ 4 + suc n * length text
next_length n text short = omega (
  arith,
  length-append (device_prefix ++ repeated n text) (take 27 text),
  ap length (take_all 27 text short),
  length-repeated n text,
)

get_comm_port-next :
    (n : ℕ) (text : List ℕ)
    → before_colon text ≡ text
    → length text ≤ 27
    → 4 + suc n * length text < 32
    → get_comm_port text (device_prefix ++ repeated n text)
      ≡ some (device_prefix ++ repeated (suc n) text)
unfolding get_comm_port before_colon
get_comm_port-next n text plain short fits =
    let on : ltb (length ((device_prefix ++ repeated n text) ++ take 27 text)) 32 ≡ true =
      ground (arith, next_length n text short) in
    rw on (
      ap some (
        ap (λ l. device_prefix ++ l)
          (ap (λ l. before_colon (repeated n text ++ l)) (take_all 27 text short)
            ∙ before_colon-append (repeated n text) text (repeated-before_colon n text plain)
                plain)))

get_comm_port-past :
    (n : ℕ) (text : List ℕ)
    → length text ≤ 27
    → 32 ≤ 4 + suc n * length text
    → get_comm_port text (device_prefix ++ repeated n text) ≡ none
unfolding get_comm_port
get_comm_port-past n text short past =
    let off : ltb (length ((device_prefix ++ repeated n text) ++ take 27 text)) 32 ≡ false =
      ground (arith, next_length n text short) in
    rw off refl

-- The buffer of `getCommPort` keeps the names of all calls: for a name without a colon and of at most 27
-- characters, the same in each call, the `n`-th call gives the name `n` times behind the prefix of a
-- device, as long as that fits into 31 characters.
pub comm_port_calls-repeated :
    (n : ℕ) (text : List ℕ)
    → before_colon text ≡ text
    → length text ≤ 27
    → 4 + n * length text < 32
    → comm_port_calls n text ≡ some (device_prefix ++ repeated n text)
unfolding comm_port_calls
comm_port_calls-repeated zero text plain short fits = refl
comm_port_calls-repeated (suc n) text plain short fits =
    rw (comm_port_calls-repeated n text plain short (omega arith))
      (get_comm_port-next n text plain short fits)

-- For a name without a colon and of at most 27 characters, the same in each call: if the name `n` times,
-- behind the prefix of a device, does not fit into 31 characters, the `n`-th call of `getCommPort`, or one
-- before it, writes past its buffer.
comm_port_calls-overflow :
    (n : ℕ) (text : List ℕ)
    → before_colon text ≡ text
    → length text ≤ 27
    → 32 ≤ 4 + n * length text
    → comm_port_calls n text ≡ none
unfolding comm_port_calls
comm_port_calls-overflow zero text plain short past = absurd (omega arith)
comm_port_calls-overflow (suc n) text plain short past =
    elim (Bool-cases (ltb (4 + n * length text) 32)) [
      | inl fits ↦
          let so_far = comm_port_calls-repeated n text plain short (ground arith) in
          rw so_far (get_comm_port-past n text short past)
      | inr earlier ↦
          let gone = comm_port_calls-overflow n text plain short (ground arith) in rw gone refl
    ]
