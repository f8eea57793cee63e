-- ===== src/Lib.antt =====
-- libtrustedlo: the trusted loader of a template protection domain on seL4 and Microkit.
--
-- A monitor writes an access-right request and a client's image into memory that it shares with a
-- template protection domain. The loader in that domain checks the images, brings the domain's
-- capabilities in line with the request, loads the client and the trampoline, and jumps into the
-- trampoline, which has the monitor save the loader's context, wipes the loader's memory and enters
-- the client. The next client starts the loader again, with the context of the last round.
--
-- Which file models what:
--   Memory      src/memory.c: memcpy, memset, memcmp, strcmp, strlen, on a memory of bytes.
--   Bytes       the read_le functions of src/mktsymb.c and the access to struct fields.
--   Elf         the 64-bit structs of include/elf.h; Elf.Load is tsldr_miscutil_load_elf and
--               Elf.Section and Elf.Names the two section lookups, of src/miscutils.c.
--   Symb        src/mktsymb.c: the header and the records of a symbol image.
--   Platform    the seL4 and Microkit interface: invocations as data, the kernel as a parameter, and
--               commands that return or crash.
--   Cap         src/cap.c with the slots of include/txlocap.h. Cap.CSpace states what seL4 documents
--               of the invocations: when a deletion and a copy succeed, and what they change.
--   Dlg         include/txlodlg.h: the delegation metadata and the search in it.
--   Ctxt        trustedlo_ctxt_t and its accessors, of include/libtrustedlo.h.
--   Xrt         src/xrt.c: checks, revocation and restoration of channels and mappings.
--   Request     src/xrt.c and src/trustedlo_mfuncs.c: requests, their encoding and their reading.
--   Switch      src/trustedlo_cfuncs.c: mktxlo_context_switch and its parts; Switch.Runs is many of
--               them in a row, each after the monitor's grant, Switch.Leftover a refused one and the
--               next, Switch.Unmaps their kernel calls.
--   Image       src/trustedlo_cfuncs.c: integrity checks, symbol search, patching, client loading.
--   Args        src/trustedlo_cfuncs.c: mktxlo_fill_client_args and mktxlo_fill_tramp_args, with the
--               structs of include/trampoline.h that they leave in memory.
--   Loader      src/trustedlo_cfuncs.c: mktxlo_self_load_entry, entered by loader/loader.c;
--               Loader.Handover follows a launch through the trampoline to the client.
--   Monitor     src/trustedlo_mfuncs.c: mktxlo_privilege_template_pd. Monitor.Grants states what seL4
--               documents of the slots that it works on, and Monitor.Regrant what the loader sees of it.
--   Trampoline  trampoline/trampoline.c.
--   Print       src/miscutils.c: the printing of numbers; Print.Format is tsldr_miscutil_dbg_print, as
--               the list of its calls of the debug console, and Print.Spelling the formats that
--               the library uses.
--   Prelude     names, Boolean tests and lemmas that the others share; Tests has the concrete runs.
--
-- Each C function is a definition under its name less the prefix (trustedlo_xrt_util_, mktxlo_,
-- tsldr_miscutil_). A function that calls the kernel is a command: from a state to a result and a
-- state, or to a crash, which is what microkit_internal_crash does. The four arrays allowed_… are
-- one function of the kind of channel. The loader's context is a record beside the memory, although
-- the code keeps it in a region of it. A patch of a symbol can be anywhere, also in that region:
-- the record is faithful where the loading stays outside it, which Loader.Entry.Separate states.
-- The metadata and the request are read from memory, byte by byte.
--
-- Bounds and fuel: numbers are unbounded, and fields are bounded by their width, since they are read
-- from bytes; sums of fields that wrap in 64 bits in the code are written with the wrap where a
-- theorem depends on it. The ELF loop has fuel; 2 ^ 16 rounds are enough, since e_phnum has 16 bits.
-- strlen and strcmp have fuel, and are undefined where a string has no end within it. The format loop
-- has fuel, and more than the format's length is enough; too few arguments and a precision that
-- overflows an int are undefined. The other loops count down what is left of them.
-- A shift of an int by 31 or more is undefined.
--
-- Parameters: the kernel and the constants of its headers (Platform), with the laws of Cap.CSpace
-- Monitor.Grants and Monitor.Regrant; the memory layout that the build generates (Args.VmLayout);
-- the addresses of the two literals of the checks (Image.Literals); the monitor's answer to the
-- trampoline (Trampoline.MonitorCall).
--
-- Configurations: CONFIG_BATCHING_MAP with CONFIG_ARM_ABS_MAP on AArch64 or CONFIG_X86_ABS_MAP on
-- x86-64, the ones that compile.
--
-- Not modelled: the calls of tsldr_miscutil_dbg_print in the other functions, which change no state of
-- theirs, the assembly that switches the stack (the jump is a value with the stack, the
-- entry and the arguments), the 32-bit structs of include/elf.h, and the layout generator.
pub mod Prelude
pub mod Memory
pub mod Bytes
pub mod Elf
pub mod Symb
pub mod Image
pub mod Args
pub mod Platform
pub mod Cap
pub mod Dlg
pub mod Ctxt
pub mod Xrt
pub mod Request
pub mod Switch
pub mod Monitor
pub mod Loader
pub mod Trampoline
pub mod Print
pub mod Tests
