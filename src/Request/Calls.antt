-- ===== src/Request/Calls.antt =====
-- The reading of a request, of src/xrt.c, does not call the kernel, however it ends.
use libtrustedlo.Prelude.{ℕ, zero, suc, ◌+◌, ◌*◌, ◌≡◌, ◌∙◌, refl, Bool, arith}
use libtrustedlo.Memory.{Memory}
use libtrustedlo.Platform.{Platform}
use libtrustedlo.Ctxt.{Kind, notifications, ppcs, irqs, ioports}
use libtrustedlo.Xrt.{Machine, check_notification, check_ppc, check_irq, check_ioport}
use libtrustedlo.Request.{
  workerfunc, allow_channel, allow_memory, populate_loop, xrt_entry_size, entry_data,
}
use libtrustedlo.Request.Final.{final, final-try}

module _ {K : Type 0} (p : Platform K) (m : Memory) (info : ℕ) where
  allow_channel_kernel :
      (kind : Kind) (check : ℕ → Bool) (id : ℕ) (s : Machine K)
      → (final (allow_channel p m kind check id s)).kernel ≡ s.kernel
  unfolding allow_channel
  allow_channel_kernel kind check id s = ground arith

  allow_memory_kernel :
      (vaddr : ℕ) (s : Machine K) → (final (allow_memory p m info vaddr s)).kernel ≡ s.kernel
  unfolding allow_memory
  allow_memory_kernel vaddr s = ground arith

  workerfunc_kernel :
      (entry : ℕ) (s : Machine K) → (final (workerfunc p m info entry s)).kernel ≡ s.kernel
  unfolding workerfunc
  workerfunc_kernel entry s =
      let id = entry_data m entry in
      let channel = λ (kind : Kind) (check : ℕ → Bool). allow_channel_kernel kind check id s in
      ground (
        arith,
        channel notifications (check_notification m info),
        channel ppcs (check_ppc m info),
        channel irqs (check_irq m info),
        channel ioports (check_ioport m info),
        allow_memory_kernel id s,
      )

  pub populate_loop_kernel :
      (entries n i : ℕ) (s : Machine K)
      → (final (populate_loop p m info entries n i s)).kernel ≡ s.kernel
  unfolding populate_loop
  populate_loop_kernel entries zero i s = refl
  populate_loop_kernel entries (suc n) i s =
      final-try (λ t. t.kernel ≡ s.kernel) (workerfunc p m info (entries + i * xrt_entry_size))
        (populate_loop p m info entries n (i + 1)) s
        (workerfunc_kernel (entries + i * xrt_entry_size) s)
        (λ t e. populate_loop_kernel entries n (i + 1) t ∙ e)
