-- ===== src/Download/Safety.antt =====
-- The division by the size in `CosmosReadCommProc::proc`.
use cosmos_pc.Prelude.{
  ℕ, ◌+◌, ◌*◌, ◌/◌, ◌<◌, ◌≡◌, ◌≢◌, ◌⊎◌, refl, ap, Bool-cases, inl, inr, false, Option, some, List,
  ◌++◌, arith, take, u32, leb, ◌==◌,
}
use cosmos_pc.Os.{Os}
use cosmos_pc.Download.{
  ReadProc, Message, ignored, size_told, read_told, content, message, deinit_file, init_file, count,
  proc,
}
use cosmos_pc.Download.Transfer.{init_file-fields}

-- During a transfer the size is not 0.
unfoldable pub HasSize : {os : Os} → ReadProc os → Type 0
HasSize r = (r.flag ≢ 2) ⊎ (0 < r.file_size)

pub record IsSafe (os : Os) (result : Option (ReadProc os)) : Type 0 where
  pub final : ReadProc os
  pub returns : result ≡ some final
  pub has_size : HasSize final

module _ (os : Os) (directory buf : List ℕ) (r : ReadProc os) (safe : HasSize r) where
  positive : r.flag ≡ 2 → 0 < r.file_size
  unfolding HasSize
  positive writing = elim safe [ inl idle ↦ absurd (idle writing) | inr some_size ↦ some_size ]

  count-IsSafe :
      (w : ℕ) (t : ReadProc os)
      → r.flag ≡ 2
      → t.file_size ≡ r.file_size
      → IsSafe os (count os directory buf w t)
  unfolding count HasSize
  count-IsSafe w t writing same =
      let n = u32 (t.total_recv + w) in
      let counted = record t {
        total_recv = n;
        rate = u32 (100 * n) / t.file_size;
        saved = t.saved ++ take w buf;
      } in
      let divides : (t.file_size == 0) ≡ false = ground (arith, positive writing, same) in
      elim (Bool-cases (leb t.file_size n)) [
        | inl reached ↦ record {
          final = record (deinit_file os directory counted) { flag = 3 };
          returns = rw (divides, reached, count);
          has_size = inl (λ wrong. absurd (omega (arith, wrong)));
        }
        | inr less ↦ record {
          final = counted;
          returns = rw (divides, less, count);
          has_size = inr (omega (arith, positive writing, same));
        }
      ]

  proc-message-IsSafe :
      (m : Message) → message buf ≡ m → m ≢ size_told 0 → IsSafe os (proc os directory buf r)
  unfolding proc HasSize
  proc-message-IsSafe ignored e other = record {
    final = r;
    returns = rw (e, proc);
    has_size = safe;
  }
  proc-message-IsSafe (size_told n) e other = elim (Bool-cases (n == 0)) [
    | inl is_zero ↦ absurd (other (ap size_told (let z : n ≡ 0 = ground arith in z)))
    | inr more ↦ record {
      final = record r { file_size = n };
      returns = rw (e, proc);
      has_size = inr (ground arith);
    }
  ]
  proc-message-IsSafe (read_told n) e other = elim (Bool-cases (n == 0)) [
    | inl is_zero ↦ record {
      final = record r { total_recv = 0; file_size = n; flag = 1 };
      returns = rw (e, is_zero, proc);
      has_size = inl (λ wrong. absurd (omega (arith, wrong)));
    }
    | inr more ↦
        let told = record r { total_recv = 0; file_size = n; flag = 2 } in
        let fields = init_file-fields os directory r.dw_name told in
        record {
          final = init_file os directory r.dw_name told;
          returns = rw (e, more, proc);
          has_size = inr (ground (arith, fields.1));
        }
  ]
  proc-message-IsSafe content e other = elim (Bool-cases (r.flag == 2)) [
    | inr idle ↦ record { final = r; returns = rw (e, idle, proc); has_size = safe }
    | inl writing ↦
        let result = os.write_file r.hfile buf r.sys.world in
        let t = record r { sys = record r.sys { world = result.2 } } in
        elim (Bool-cases result.0) [
          | inr failed ↦ record {
            final = t;
            returns = rw (e, writing, failed, proc);
            has_size = safe;
          }
          | inl ok ↦ rw (e, writing, ok, proc) (count-IsSafe result.1 t (ground arith) refl)
        ]
  ]

  -- If the size is not 0 during a transfer, any buffer but a message that tells a size of 0 is handled
  -- without a division by zero, and the size is again not 0 during a transfer.
  pub proc-IsSafe : message buf ≢ size_told 0 → IsSafe os (proc os directory buf r)
  proc-IsSafe other = proc-message-IsSafe (message buf) refl other
