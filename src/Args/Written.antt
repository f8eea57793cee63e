-- ===== src/Args/Written.antt =====
-- The arguments of the trampoline and of the client in memory: where they are written, and that they
-- are read back.
use libtrustedlo.Prelude.{
  ℕ, ◌+◌, ◌*◌, ◌^◌, ◌≡◌, ◌∙◌, ◌≤◌, ◌<◌, refl, ◌⊎◌, inl, false, List, [], ◌∷◌, length, arith,
}
use libtrustedlo.Memory.{Memory, memset}
use libtrustedlo.Memory.Copy.{inside, memset-at}
use libtrustedlo.Bytes.{read_le64, write_le64, write_le64-frame, read_le64-write_le64}
use libtrustedlo.Bytes.Agreement.{Agree, read_le64-Agree}
use libtrustedlo.Image.{Region}
use libtrustedlo.Args.{
  TrampolineArgs, ClientArgs, write_regions, write_tramp_args, write_client_args,
}

-- A field elsewhere is as it was.
pub read_le64-write_apart :
    (m : Memory) (p v q : ℕ)
    → (q + 8 ≤ p) ⊎ (p + 8 ≤ q)
    → read_le64 (write_le64 m p v) q ≡ read_le64 m q
read_le64-write_apart m p v q h =
    let same : Agree q 8 m (write_le64 m p v) =
      λ r lo hi. write_le64-frame m p v r (ground arith) in
    read_le64-Agree m (write_le64 m p v) q 8 q same (omega arith) (omega arith)

write_regions-frame :
    (rs : List Region) (p : ℕ) (m : Memory) (q : ℕ)
    → (q < p) ⊎ (p + length rs * 16 ≤ q)
    → write_regions p rs m q ≡ m q
unfolding write_regions
write_regions-frame [] p m q h = refl
write_regions-frame (r ∷ rs) p m q h =
    write_regions-frame rs (p + 16) (write_le64 (write_le64 m p r.base) (p + 8) r.size) q
      (ground (arith, h))
    ∙ (write_le64-frame (write_le64 m p r.base) (p + 8) r.size q (ground (arith, h))
        ∙ write_le64-frame m p r.base q (ground (arith, h)))

pub memset_frame : (d c n : ℕ) (m : Memory) (q : ℕ) → inside d n q ≡ false → memset d c n m q ≡ m q
memset_frame d c n m q out = ground (arith, memset-at d c n m q)

-- The trampoline's arguments are 136 bytes, the client's 96.
pub write_tramp_args-frame :
    (p : ℕ) (a : TrampolineArgs) (m : Memory) (q : ℕ)
    → length a.regions ≡ 6
    → inside p 136 q ≡ false
    → write_tramp_args p a m q ≡ m q
unfolding write_tramp_args
write_tramp_args-frame p a m q six out =
    let away : (k : ℕ) → k + 8 ≤ 136 → (q < p + k) ⊎ (p + k + 8 ≤ q) = λ k h. ground (arith, out) in
    write_le64-frame _ (p + 128) a.monitor_pcmcall_id q (away 128 (omega arith))
    ∙ (write_le64-frame _ (p + 120) a.monitor_channel q (away 120 (omega arith))
        ∙ (write_le64-frame _ (p + 112) a.ipc_buffer q (away 112 (omega arith))
            ∙ (write_le64-frame _ (p + 104) a.client_elf q (away 104 (omega arith))
                ∙ (write_le64-frame _ (p + 96) a.container_stack_top q (away 96 (omega arith))
                    ∙ write_regions-frame a.regions p m q (ground (arith, out, six))))))

pub write_client_args-frame :
    (p : ℕ) (a : ClientArgs) (m : Memory) (q : ℕ)
    → inside p 96 q ≡ false
    → write_client_args p a m q ≡ m q
unfolding write_client_args
write_client_args-frame p a m q out =
    let away : (k : ℕ) → k + 8 ≤ 96 → (q < p + k) ⊎ (p + k + 8 ≤ q) = λ k h. ground (arith, out) in
    memset_frame (p + 32) 0 64 _ q (ground (arith, out))
    ∙ (write_le64-frame _ (p + 24) _ q (away 24 (omega arith))
        ∙ (write_le64-frame _ (p + 16) _ q (away 16 (omega arith))
            ∙ (write_le64-frame _ (p + 8) _ q (away 8 (omega arith))
                ∙ write_le64-frame m p _ q (ground (arith, out)))))

-- The regions of a list from an index, as they lie in memory.
abbrev pub Regions : Memory → ℕ → List Region → Type 0
Regions m p [] = Unit
Regions m p (r ∷ rs) =
    (read_le64 m p ≡ r.base) × (read_le64 m (p + 8) ≡ r.size) × Regions m (p + 16) rs

abbrev pub AreRegions : List Region → Type 0
AreRegions [] = Unit
AreRegions (r ∷ rs) = (r.base < 2 ^ 64) × (r.size < 2 ^ 64) × AreRegions rs

write_regions-Regions :
    (rs : List Region) (p : ℕ) (m : Memory) → AreRegions rs → Regions (write_regions p rs m) p rs
unfolding write_regions
write_regions-Regions [] p m ok = tt
write_regions-Regions (r ∷ rs) p m (base, size, ok) =
    let m1 = write_le64 m p r.base in
    let m2 = write_le64 m1 (p + 8) r.size in
    let kept : Agree p 16 m2 (write_regions (p + 16) rs m2) =
      λ q lo hi. write_regions-frame rs (p + 16) m2 q (inl (omega (arith, hi))) in
    (
      read_le64-Agree m2 _ p 16 p kept (omega arith) (omega arith)
          ∙ (read_le64-write_apart m1 (p + 8) r.size p (inl (omega arith))
              ∙ read_le64-write_le64 m p r.base base),
      read_le64-Agree m2 _ p 16 (p + 8) kept (omega arith) (omega arith)
          ∙ read_le64-write_le64 m1 (p + 8) r.size size,
      write_regions-Regions rs (p + 16) m2 ok,
    )

Regions-Agree :
    (rs : List Region) (p : ℕ) (m g : Memory)
    → Agree p (length rs * 16) m g
    → Regions m p rs
    → Regions g p rs
Regions-Agree [] p m g same h = tt
Regions-Agree (r ∷ rs) p m g same (base, size, h) = (
  read_le64-Agree m g p (length (r ∷ rs) * 16) p same (omega arith) (omega arith) ∙ base,
  read_le64-Agree m g p (length (r ∷ rs) * 16) (p + 8) same (omega arith) (omega arith) ∙ size,
  Regions-Agree rs (p + 16) m g (λ q lo hi. same q (omega arith) (omega (arith, hi))) h,
)

-- The arguments are words, and their regions six.
pub record AreArgs (a : TrampolineArgs) : Type 0 where
  pub six : length a.regions ≡ 6
  pub regions : AreRegions a.regions
  pub stack : a.container_stack_top < 2 ^ 64
  pub entry : a.client_elf < 2 ^ 64
  pub channel : a.monitor_channel < 2 ^ 64
  pub call : a.monitor_pcmcall_id < 2 ^ 64

-- The arguments lie in memory at `p`.
pub record Written (m : Memory) (p : ℕ) (a : TrampolineArgs) : Type 0 where
  pub regions : Regions m p a.regions
  pub stack : read_le64 m (p + 96) ≡ a.container_stack_top
  pub entry : read_le64 m (p + 104) ≡ a.client_elf
  pub channel : read_le64 m (p + 120) ≡ a.monitor_channel
  pub call : read_le64 m (p + 128) ≡ a.monitor_pcmcall_id

pub Written-Agree :
    (m g : Memory) (p : ℕ) (a : TrampolineArgs)
    → length a.regions ≡ 6
    → Agree p 136 m g
    → Written m p a
    → Written g p a
Written-Agree m g p a six same w = record {
  regions = Regions-Agree a.regions p m g (λ q lo hi. same q lo (omega (arith, hi, six))) w.regions;
  stack = read_le64-Agree m g p 136 (p + 96) same (omega arith) (omega arith) ∙ w.stack;
  entry = read_le64-Agree m g p 136 (p + 104) same (omega arith) (omega arith) ∙ w.entry;
  channel = read_le64-Agree m g p 136 (p + 120) same (omega arith) (omega arith) ∙ w.channel;
  call = read_le64-Agree m g p 136 (p + 128) same (omega arith) (omega arith) ∙ w.call;
}

-- Arguments that are written are there.
pub write_tramp_args-Written :
    (p : ℕ) (a : TrampolineArgs) (m : Memory) → AreArgs a → Written (write_tramp_args p a m) p a
unfolding write_tramp_args
write_tramp_args-Written p a m ok =
    let m1 = write_regions p a.regions m in
    let m2 = write_le64 m1 (p + 96) a.container_stack_top in
    let m3 = write_le64 m2 (p + 104) a.client_elf in
    let m4 = write_le64 m3 (p + 112) a.ipc_buffer in
    let m5 = write_le64 m4 (p + 120) a.monitor_channel in
    let keep = λ (g : Memory) (k v : ℕ) (o : ℕ) (h : o + 8 ≤ k).
      read_le64-write_apart g (p + k) v (p + o) (inl (omega (arith, h))) in
    record {
      regions =
          Regions-Agree a.regions p m1 _
            (λ q lo hi.
              write_le64-frame m5 (p + 128) _ q (inl (omega (arith, hi, ok.six)))
              ∙ (write_le64-frame m4 (p + 120) _ q (inl (omega (arith, hi, ok.six)))
                  ∙ (write_le64-frame m3 (p + 112) _ q (inl (omega (arith, hi, ok.six)))
                      ∙ (write_le64-frame m2 (p + 104) _ q (inl (omega (arith, hi, ok.six)))
                          ∙ write_le64-frame m1 (p + 96) _ q (inl (omega (arith, hi, ok.six)))))))
            (write_regions-Regions a.regions p m ok.regions);
      stack =
          keep m5 128 _ 96 (omega arith)
          ∙ (keep m4 120 _ 96 (omega arith)
              ∙ (keep m3 112 _ 96 (omega arith)
                  ∙ (keep m2 104 _ 96 (omega arith)
                      ∙ read_le64-write_le64 m1 (p + 96) a.container_stack_top ok.stack)));
      entry =
          keep m5 128 _ 104 (omega arith)
          ∙ (keep m4 120 _ 104 (omega arith)
              ∙ (keep m3 112 _ 104 (omega arith)
                  ∙ read_le64-write_le64 m2 (p + 104) a.client_elf ok.entry));
      channel =
          keep m5 128 _ 120 (omega arith)
          ∙ read_le64-write_le64 m4 (p + 120) a.monitor_channel ok.channel;
      call = read_le64-write_le64 m5 (p + 128) a.monitor_pcmcall_id ok.call;
    }
