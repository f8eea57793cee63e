-- ===== src/Elf.antt =====
-- The ELF structures of include/elf.h as fields in memory: a struct is the address of its first
-- byte, and a field is a load at its offset.
use libtrustedlo.Prelude.{ℕ, ◌+◌}
use libtrustedlo.Memory.{Memory}
use libtrustedlo.Bytes.{read_le16, read_le32, read_le64}
pub mod Load
pub mod Section
pub mod Names

abbrev pub e_entry : Memory → ℕ → ℕ
e_entry m ehdr = read_le64 m (ehdr + 24)

abbrev pub e_phoff : Memory → ℕ → ℕ
e_phoff m ehdr = read_le64 m (ehdr + 32)

abbrev pub e_shoff : Memory → ℕ → ℕ
e_shoff m ehdr = read_le64 m (ehdr + 40)

abbrev pub e_phentsize : Memory → ℕ → ℕ
e_phentsize m ehdr = read_le16 m (ehdr + 54)

abbrev pub e_phnum : Memory → ℕ → ℕ
e_phnum m ehdr = read_le16 m (ehdr + 56)

abbrev pub e_shnum : Memory → ℕ → ℕ
e_shnum m ehdr = read_le16 m (ehdr + 60)

abbrev pub phdr_size : ℕ
phdr_size = 56

abbrev pub pt_load : ℕ
pt_load = 1

abbrev pub p_type : Memory → ℕ → ℕ
p_type m phdr = read_le32 m phdr

abbrev pub p_offset : Memory → ℕ → ℕ
p_offset m phdr = read_le64 m (phdr + 8)

abbrev pub p_vaddr : Memory → ℕ → ℕ
p_vaddr m phdr = read_le64 m (phdr + 16)

abbrev pub p_filesz : Memory → ℕ → ℕ
p_filesz m phdr = read_le64 m (phdr + 32)

abbrev pub p_memsz : Memory → ℕ → ℕ
p_memsz m phdr = read_le64 m (phdr + 40)

abbrev pub sht_symtab : ℕ
sht_symtab = 2

abbrev pub sht_nobits : ℕ
sht_nobits = 8

abbrev pub shdr_size : ℕ
shdr_size = 64

abbrev pub sh_type : Memory → ℕ → ℕ
sh_type m shdr = read_le32 m (shdr + 4)

abbrev pub sh_addr : Memory → ℕ → ℕ
sh_addr m shdr = read_le64 m (shdr + 16)

abbrev pub sh_offset : Memory → ℕ → ℕ
sh_offset m shdr = read_le64 m (shdr + 24)

abbrev pub sh_size : Memory → ℕ → ℕ
sh_size m shdr = read_le64 m (shdr + 32)

abbrev pub sh_link : Memory → ℕ → ℕ
sh_link m shdr = read_le32 m (shdr + 40)

abbrev pub sym_size : ℕ
sym_size = 24

abbrev pub st_name : Memory → ℕ → ℕ
st_name m sym = read_le32 m sym

abbrev pub st_value : Memory → ℕ → ℕ
st_value m sym = read_le64 m (sym + 8)
