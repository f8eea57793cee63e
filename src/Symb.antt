-- ===== src/Symb.antt =====
-- The symbol image of src/mktsymb.c and include/mktsymb.h. Pointers are addresses.
use libtrustedlo.Prelude.{ℕ, ◌+◌}
use libtrustedlo.Memory.{Memory}
use libtrustedlo.Bytes.{read_le16, read_le32, read_le64}

-- mktsymb_header_t, without `size`, which `mktsymb_read` never sets.
pub record SymbHeader : Type 0 where
  pub base : ℕ
  pub pd_name : ℕ
  pub symbols : ℕ
  pub pd_name_len : ℕ
  pub symbol_cnt : ℕ

pub record Symbol : Type 0 where
  pub name : ℕ
  pub contents : ℕ
  pub name_len : ℕ
  pub setvar : ℕ
  pub data_len : ℕ
  pub expected_size : ℕ

abbrev pub mktsymb_header_size : ℕ
mktsymb_header_size = 14

abbrev pub mktsymb_symbol_header_size : ℕ
mktsymb_symbol_header_size = 16

unfoldable pub mktsymb_read : Memory → ℕ → SymbHeader
mktsymb_read m p = record {
  base = p;
  pd_name_len = read_le16 m (p + 8);
  symbol_cnt = read_le32 m (p + 10);
  pd_name = p + mktsymb_header_size;
  symbols = p + mktsymb_header_size + read_le16 m (p + 8);
}

-- The symbol at `p`, and where the next one begins.
unfoldable pub mktsymb_read_symbol : Memory → ℕ → Symbol × ℕ
mktsymb_read_symbol m p =
    let name_len = read_le16 m p in
    let data_len = read_le32 m (p + 4) in
    let contents = p + mktsymb_symbol_header_size + name_len in
    (
      record {
        name_len = name_len;
        setvar = read_le16 m (p + 2);
        data_len = data_len;
        expected_size = read_le64 m (p + 8);
        name = p + mktsymb_symbol_header_size;
        contents = contents;
      },
      contents + data_len,
    )
