-- ===== src/Dlg.antt =====
-- The delegation metadata of include/txlodlg.h: packed structs in memory, 22 bytes for a resource
-- and 16 for the header in front of them.
use libtrustedlo.Prelude.{
  ℕ, zero, suc, ◌+◌, ◌-◌, ◌*◌, Bool, ◌&&◌, ◌==◌, if◌then◌else◌, ltb, leb, Option, none, some,
}
use libtrustedlo.Memory.{Memory, load}
use libtrustedlo.Bytes.{read_le16, read_le64}
pub mod Find

abbrev pub resource_channel_notify : ℕ
resource_channel_notify = 1

abbrev pub resource_channel_ppc : ℕ
resource_channel_ppc = 2

abbrev pub resource_memory_region : ℕ
resource_memory_region = 3

abbrev pub resource_ioport : ℕ
resource_ioport = 4

abbrev pub dlg_resource_size : ℕ
dlg_resource_size = 22

abbrev pub dlg_delegator_header_size : ℕ
dlg_delegator_header_size = 16

abbrev pub resource_kind : Memory → ℕ → ℕ
resource_kind m resource = load m resource

abbrev pub resource_slot : Memory → ℕ → ℕ
resource_slot m resource = read_le16 m (resource + 2)

abbrev pub resource_cap_count : Memory → ℕ → ℕ
resource_cap_count m resource = read_le16 m (resource + 4)

abbrev pub resource_arg0 : Memory → ℕ → ℕ
resource_arg0 m resource = read_le64 m (resource + 6)

abbrev pub resource_count : Memory → ℕ → ℕ
resource_count m delegator = read_le16 m (delegator + 2)

-- `none` is NULL.
unfoldable pub delegator_resource : Memory → ℕ → ℕ → Option ℕ
delegator_resource m delegator index =
    if leb (resource_count m delegator) index
    then none
    else some (delegator + dlg_delegator_header_size + index * dlg_resource_size)

-- The loop of `trustedlo_xrt_util_find_resource` with its rounds left, from index `i`.
unfoldable pub find_loop : Memory → ℕ → ℕ → ℕ → ℕ → ℕ → Option ℕ
find_loop m info kind value zero i = none
find_loop m info kind value (suc n) i =
    let rest = find_loop m info kind value n (i + 1) in
    elim (delegator_resource m info i) [
      | none ↦ none
      | some resource ↦
          if resource_kind m resource == kind && resource_arg0 m resource == value
          then some resource
          else rest
    ]

unfoldable pub find_resource : Memory → ℕ → ℕ → ℕ → Option ℕ
find_resource m info kind value = find_loop m info kind value (resource_count m info) 0
