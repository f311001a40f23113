-- ===== src/Examples/Output.antt =====
-- Runs of printf.c and of the transfers of fw_cfg.c.
use qboot.Main.Extract.{Leftover, extract_e820-IsListed, lowered_at, lowmem_at}
use qboot.Main.{extract_e820, entry_addr}
use qboot.Main.E820.{IsLowest, Fixed, Window}
use qboot.Machine.{Returns}
use qboot.Base.Text.{codes}
use qboot.Base.{
  ℕ, suc, ◌+◌, ◌≤◌, ◌<◌, ◌≡◌, refl, List, [], ◌∷◌, arith, inl, inr, u8, some, Option, false,
}
use qboot.Memory.{Memory, ldq_p}
use qboot.Memory.Frame.{Outside}
use qboot.CString.{atol}
use qboot.CString.Copy.{SameOutside}
use qboot.Machine.{Machine, Env, Io, ok}
use qboot.Printf.{snprintf, printf}
use qboot.Printf.Result.{returned}
use qboot.Printf.Stream.{digit_loop, finish_number}
use qboot.Printf.Stream.Numbers.{sign, magnitude}
use qboot.Printf.Stream.Arrays.{array-Bounds}
use qboot.Printf.Format.{plain, vsnprintf}
use qboot.Printf.Format.Prints.{Prints, end_of_format, literal, conversion, width, decimal_number}
use qboot.Printf.Format.Buffer.{Written, vsnprintf-Prints}
use qboot.Printf.Serial.{serial, printf-serial}
use qboot.Printf.Roundtrip.{atol-snprintf}
use qboot.FwCfg.Served.{ServesPort, ServesDma}
use qboot.FwCfg.Transfer.{fw_cfg_read_entry-same}
use qboot.Machine.Initial.{initial}
use qboot.FwCfg.{fw_cfg_read_entry}
use qboot.Examples.Device.{device, device-ServesPort, device-ServesDma}
use qboot.Examples.{bytes, machine}

abbrev format : Memory
format = bytes 0x5000 (codes "x%3d")

-- The format prints "x 42" for 42.
format_rules :
    (buf room : ℕ)
    → 0x5010 ≤ buf
    → Prints format buf room 16 16 plain 0x5000 (42 ∷ []) (codes "x 42")
format_rules buf room h =
    literal b'x' (refl, inl (omega arith)) (omega arith) (omega arith)
      (conversion (refl, inl (omega arith))
        (width 3 [] (omega arith) (omega arith, refl, inr (omega arith)) (inr (omega arith))
          (omega arith) (omega arith)
          (decimal_number 42 (refl, inl (omega arith)) (omega arith) (omega arith) (omega arith)
            refl (end_of_format (refl, inl (omega arith))))))

vsnprintf-Prints_example :
    (g : Memory) × (vsnprintf 16 0x6000 16 0x5000 (42 ∷ []) format ≡ returned (g, 5))
    × Written format 0x6000 16 (codes "x 42") g
vsnprintf-Prints_example =
    vsnprintf-Prints 16 0x6000 16 0x5000 (42 ∷ []) format (codes "x 42") (omega arith) (omega arith)
      (omega arith) (format_rules 0x6000 15 (omega arith))

array-Bounds_example :
    ((stored : Memory × ℕ) × (digit_loop 11 10 (magnitude 0xffffffff) (λ _. 7) 0 ≡ some stored)
      × (12 ≤ 12 → finish_number (sign 0xffffffff) stored 12 ≡ 7))
    × ((stored : Memory × ℕ) × (digit_loop 9 16 0xffffffff (λ _. 7) 0 ≡ some stored)
        × (10 ≤ 12 → finish_number 0 stored 12 ≡ 7))
array-Bounds_example = array-Bounds 0xffffffff 12 (λ _. 7) (omega arith) (omega arith)

abbrev printer : Machine
printer = record (machine 0 format) { fuel = 16 }

printf-serial_example :
    (g : Memory) × (printf 0x5000 (42 ∷ []) printer
      ≡ ok 5 (record printer { mem = g; io = serial (codes "x 42") [] }))
    × SameOutside 0xee000 2000 format g
printf-serial_example =
    printf-serial 0x5000 (42 ∷ []) printer (codes "x 42") (omega arith) (omega arith) (omega arith)
      (omega arith, (omega arith, (omega arith, (omega arith, tt))))
      (format_rules 0xee000 1999 (omega arith))

abbrev decimal_format : Machine
decimal_format = record (machine 0 (bytes 0x5000 (codes "%d"))) { fuel = 16 }

-- The number is -42.
atol-snprintf_example :
    (r : ℕ) × (g : Memory) × (snprintf 0x6000 16 0x5000 (4294967254 ∷ []) decimal_format
      ≡ ok r (record decimal_format { mem = g }))
    × (atol 16 g 0x6000 ≡ some 4294967254)
atol-snprintf_example =
    atol-snprintf 0x6000 16 0x5000 4294967254 decimal_format refl refl refl (inr (omega arith))
      (omega arith) (omega arith) (omega arith) (omega arith) (omega arith)

abbrev item : Memory
item i = u8 (suc i)

both_ways : Env
both_ways = device (λ _. item) 0xefe00

both_ways-ServesPort : ServesPort both_ways 0x19 item
unfolding both_ways
both_ways-ServesPort = device-ServesPort (λ _. item) 0xefe00 0x19 (λ i. omega arith)

both_ways-ServesDma : ServesDma both_ways 0xefe00 8 0x19 item
unfolding both_ways
both_ways-ServesDma = device-ServesDma (λ _. item) 0xefe00 0x19

abbrev configured : Machine
configured = record (machine 0 (λ _. 0)) {
  env = both_ways;
  globals = record (initial 0xf0000 0xf8000) { version = 3 };
}

fw_cfg_read_entry-same_example :
    (g : Memory) × (h : List Io) × (g' : Memory) × (h' : List Io) × (fw_cfg_read_entry 0x19 0x10000
        64 configured
      ≡ ok tt (record configured { io = h; mem = g }))
    × (fw_cfg_read_entry 0x19 0x10000 64
          (record configured { globals = record configured.globals { version = 1 } })
        ≡ ok tt (record configured {
          globals = record configured.globals { version = 1 };
          io = h';
          mem = g';
        }))
    × ((a : ℕ) → Outside 0xefe00 16 a → g a ≡ g' a)
unfolding both_ways
fw_cfg_read_entry-same_example =
    fw_cfg_read_entry-same item 0x19 0x10000 64 configured (omega arith) (omega arith) (omega arith)
      (omega arith) (inl (omega arith)) 1 (omega arith) refl both_ways-ServesDma
      both_ways-ServesPort

-- A directory with one file of 20 bytes.
abbrev directory : Memory
directory = bytes 0x7000 (20 ∷ 0 ∷ 0 ∷ 0 ∷ 0x19 ∷ 0 ∷ 0 ∷ 0 ∷ codes "etc/e820")

abbrev one_range : Machine
one_range = record configured {
  mem = directory;
  globals = record (initial 0xf0000 0xf8000) { version = 3; files = 0x7000; filecnt = 1 };
}

extract_e820-IsListed_example :
    (g : Memory) × (found : Option ℕ) × Returns
      (λ _ t.
        (t.mem ≡ lowered_at 0xeff80 found g) × (t.globals.lowmem ≡ lowmem_at 0xeff80 found g 0))
      (extract_e820 one_range)
    × IsLowest (λ k. ldq_p g (entry_addr 0xeff80 k) ≡ 0) 4 2 found
    × ((a : ℕ) → a < 20 → g (0xeffd4 + a) ≡ item a)
    × Fixed g 0xeff80 6
    × Window false g 0xeff80
    × Leftover false directory g 0xeff80 6
unfolding qboot.FwCfg.file_id_loop qboot.FwCfg.filenamecmp qboot.Malloc.down qboot.Main.map_entries
    both_ways
extract_e820-IsListed_example =
    extract_e820-IsListed item 0 0x19 one_range refl refl (omega arith) refl (omega arith)
      (omega arith) (inr (omega arith)) (inr (omega arith)) (omega arith) both_ways-ServesDma
