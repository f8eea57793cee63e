-- ===== src/Tests/Unmaps.antt =====
-- A round that maps a region and one that asks for nothing: the region stays mapped.
use libtrustedlo.Prelude.{ℕ, ◌≡◌, ◌≤◌, false, Option, [], ◌∷◌, arith}
use libtrustedlo.Platform.{
  Invocation, cnode_delete, cnode_move, cnode_copy, arm_page_map, x86_page_map, arm_page_unmap,
  x86_page_unmap, arm_map_absolute, x86_map_absolute, arm_unmap_absolute, x86_unmap_absolute,
}
use libtrustedlo.Cap.CSpace.{after}
use libtrustedlo.Xrt.{Machine}
use libtrustedlo.Request.Final.{final}
use libtrustedlo.Switch.Calls.{is_unmap}
use libtrustedlo.Switch.Runs.{serve}
use libtrustedlo.Switch.Unmaps.{serve_unmaps_none}
use libtrustedlo.Tests.Kernel.{Slots, platform, cspace, fill}
use libtrustedlo.Tests.Store.{info, header}
use libtrustedlo.Tests.Rounds.{fresh}
use libtrustedlo.Tests.Remaps.{both}
use libtrustedlo.Tests.Runs.{idle_memory, idle_header}

abbrev Mapped : Slots → Type 0
Mapped k = 1 ≤ k.mapped

fill_mapped : (o s : Option ℕ) (d : ℕ) (k : Slots) → (fill o s d k).1.mapped ≡ k.mapped
fill_mapped o s d k = ground arith

Mapped-stable :
    (call : Invocation) (k : Slots)
    → is_unmap call ≡ false
    → Mapped k
    → Mapped (after platform call k)
Mapped-stable (cnode_delete cnode i depth) k safe h = ground (arith, h)
Mapped-stable (cnode_move a b c d e f) k safe h = h
Mapped-stable (cnode_copy cnode dest a b src c d) k safe h =
    ground (arith, h, fill_mapped (k.slots dest) (k.backups src) dest k)
Mapped-stable (arm_page_map a b c d e) k safe h = h
Mapped-stable (x86_page_map a b c d e) k safe h = h
Mapped-stable (arm_page_unmap a) k safe h = h
Mapped-stable (x86_page_unmap a) k safe h = h
Mapped-stable (arm_map_absolute a b c d) k safe h = omega (arith, h)
Mapped-stable (x86_map_absolute a b c d) k safe h = h
Mapped-stable (arm_unmap_absolute a) k safe h = absurd (cc safe)
Mapped-stable (x86_unmap_absolute a) k safe h = h

-- A kernel with a range of pages that is mapped.
abbrev start : Machine Slots
start = record fresh { kernel = record fresh.kernel { mapped = 1 } }

serve_unmaps_none_example :
    1
    ≤ (final (
        serve platform cspace
          (omega arith)
          info
          0
          (record { memory = both; header = header }
            ∷ record { memory = idle_memory; header = idle_header }
            ∷ [])
          start)).kernel.mapped
serve_unmaps_none_example =
    serve_unmaps_none platform Mapped Mapped-stable cspace (omega arith) info 0
      (record { memory = both; header = header }
        ∷ record { memory = idle_memory; header = idle_header }
        ∷ [])
      start (omega arith)
