-- ===== src/Lib.antt =====
-- qboot: a minimal x86 firmware for QEMU that sets up the chipset and boots a kernel which QEMU hands
-- over through its configuration device.
--
-- The firmware starts in hwsetup.c, which programs the PIIX or ICH9 chipset and copies the image to
-- RAM. main.c then runs the steps of the boot in order: PCI enumeration and interrupt routing (pci.c),
-- the real-mode interrupt table, the directory of the configuration device (fw_cfg.c), the ACPI tables
-- (tables.c), the memory map, the MP and SMBIOS tables (mptable.c, smbios.c), and the kernel
-- (fw_cfg.c, linuxboot.c). What stays resident for the kernel are the interrupt handlers of code16.c
-- and the PCI BIOS service of code32seg.c. All parts share physical memory, a few static variables and
-- the I/O ports.
--
-- Files:
--  Base: shared names, Boolean tests, lists over native numbers, fixed-width arithmetic, the laws of
--    bitwise and and or (Base/Bits), byte swaps of include/bswap.h, strings as bytes.
--  Memory: memory as a function from addresses to bytes, include/memaccess.h, memset and memcpy, and
--    what stores leave alone (Memory/Frame, Memory/Changed).
--  Machine: the state and the programs over it. A program of type `Fw A` maps a `Machine` to an
--    `Outcome`: a result, `panic`, a booted kernel, undefined behaviour, or no fuel left. What devices
--    answer is a function of the history of port accesses (`Env`), an argument of every theorem.
--    Machine/Ports is include/ioport.h.
--  CString: string.c. Malloc: malloc.c. PciConfig: include/pci.h. HwSetup: hwsetup.c. Pci: pci.c.
--  LinuxBoot: linuxboot.c. Segment: include/segment.h. Interrupts: code16.c. PciBios: code32seg.c.
--  FwCfg: include/fw_cfg.h and fw_cfg.c up to the boot paths; FwCfg/Contract is what a device that
--    serves its items owes to both interfaces, FwCfg/Sequence adds reads that go on behind others, and
--    FwCfg/Directory is fw_cfg_setup.
--  Boot: the boot paths of fw_cfg.c. Boot/Mmap and Boot/Memmap are the two copies of the memory map,
--    Boot/Entered is the jump into a bzImage kernel, and Boot/BzimageBoot, Boot/PvhBoot and
--    Boot/MultibootBoot are the paths from the device to the jump; Boot/ElfBoot is the way from
--    boot_from_fwcfg to Boot/PvhBoot.
--  Tables: tables.c. Mptable: mptable.c. Smbios: smbios.c. Main: main.c up to `extract_e820`.
--  Startup: `main` of main.c.
--  Printf: printf.c. Printf/Stream is the output stream and the text of strings and numbers, and
--    Printf/Format the interpreter of format strings; Printf/Format/Prints has the rules that say what
--    a format prints.
--  Examples: runs at concrete inputs.
--
-- Functions keep their C names. A piece of a longer C function that has a name of its own here (such
-- as `link` or `initrd_place`) is used by the definition of the whole function. Static variables are
-- fields of `Globals`; locals whose address a device gets are addresses in `Symbols`.
--
-- Numbers are natural numbers; each cast to 8, 16, 32 or 64 bits is written as a remainder. Signed
-- `int` values that stay non-negative are plain numbers, an id of -1 is `none`, and `char` is signed
-- where the C code subtracts or adds characters. A number that overflows the `long` of atol has no
-- result, since the C code is undefined there. Pointer arithmetic does not wrap.
--
-- Loops over a count recurse on it. Loops that only the data ends (strlen, strcpy, strcmp, strchr,
-- atol) take fuel, and the theorems show that one more than the length of the string is enough; the
-- search for an SMBIOS structure takes one round more than the tables have bytes. The fuel of
-- `Machine` bounds the polls of a DMA transfer and the depth of the bridges, which the devices decide,
-- and the copies of the memory map, for which one more than the number of entries is enough. In
-- printf.c it bounds the rounds of the interpreter and each loop over a string or a number, for which
-- 12 is enough; a round is a plain character, a conversion, or a part of one.
--
-- Not modelled: entry.S, cstart.S and flat.lds, whose symbols are parameters; the asm statements other
-- than port I/O, cpuid and the jump into the kernel. The conditional code of benchmark.h is off.
pub mod Base
pub mod Memory
pub mod CString
pub mod Machine
pub mod Malloc
pub mod PciConfig
pub mod HwSetup
pub mod Pci
pub mod LinuxBoot
pub mod Segment
pub mod Interrupts
pub mod PciBios
pub mod FwCfg
pub mod Tables
pub mod Mptable
pub mod Printf
pub mod Smbios
pub mod Boot
pub mod Main
pub mod Startup
pub mod Examples
