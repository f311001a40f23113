-- ===== src/Boot/Items.antt =====
-- The reads of single numbers from the configuration device on the boot paths.
use qboot.Base.{ℕ, ◌<◌, ◌≡◌, ◌^◌, ◌∷◌, arith, u16}
use qboot.Machine.{Machine, out, word, ok}
use qboot.FwCfg.Served.{reads}
use qboot.FwCfg.Contract.{Serves, number, fw_cfg_readl_le-Serves}
use qboot.Boot.{read_item}

-- The read returns the number of the item, and only the history of port accesses grows.
pub read_item-Serves :
    (items : ℕ → ℕ → ℕ) (e : ℕ) (s : Machine)
    → e < 2 ^ 16
    → Serves s.env s.symbols.dma s.fuel s.globals.version items
    → read_item e s ≡ ok (number items e) (record s { io = reads 4 (out word 0x510 e ∷ s.io) })
unfolding read_item
read_item-Serves items e s he serves =
    let small : u16 e ≡ e = omega arith in rw small (fw_cfg_readl_le-Serves items e s he serves)
