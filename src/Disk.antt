-- ===== src/Disk.antt =====
-- init/ata.cpp: `read` and `write`, as what they do at the ports of the disk controller.
use arabos.Prelude.{
  ℕ, zero, suc, ◌+◌, ◌-◌, ◌*◌, ◌/◌, ◌%◌, ◌^◌, ◌≤◌, ◌<◌, min, bit_and, bit_or, bit_xor, ◌≡◌, refl,
  sym, ap, ap₂, ◌∙◌, fun_ext, ◌≢◌, ◌↔◌, ◌⊎◌, inl, inr, Bool, true, false, not, ◌&&◌, ◌||◌, Option,
  none, some, List, [], ◌∷◌, ◌++◌, map, arith, dec_lt, ℕ_discrete, ltb, leb, ◌==◌, if◌then◌else◌,
  Bool-cases, Option-cases, ==_iff, ltb→lt, lt→ltb, leb→le, le→leb, lt→leb_false, le→ltb_false,
  ne→==_false, length, get_elem?, set, get_or, get_or-append, take, drop, replicate, length-append,
  length-set, get_elem?-set_self, get_elem?-set_ne, length-take, length-drop, take-append-drop,
  take-prefix, take-all, take-append, drop-append,
}
pub mod Drive

-- An access to a port, or a loop that polls the status register for a flag.
pub data Io : Type 0 where
  outportb : (port byte : ℕ) → Io
  outportw : (port word : ℕ) → Io
  insw : (port words : ℕ) → Io
  poll : (port flag : ℕ) → (value : Bool) → Io
  cli : Io
  sti : Io

-- REG_DATA and the other registers
abbrev pub reg_data : ℕ
reg_data = 0x1F0

abbrev pub reg_error : ℕ
reg_error = 0x1F1

abbrev pub reg_sector_count : ℕ
reg_sector_count = 0x1F2

abbrev pub reg_lba_lo : ℕ
reg_lba_lo = 0x1F3

abbrev pub reg_lba_mid : ℕ
reg_lba_mid = 0x1F4

abbrev pub reg_lba_hi : ℕ
reg_lba_hi = 0x1F5

abbrev pub reg_device : ℕ
reg_device = 0x1F6

abbrev pub reg_status : ℕ
reg_status = 0x1F7

abbrev pub reg_command : ℕ
reg_command = 0x1F7

-- CMD_READ_SECTORS, CMD_WRITE_SECTORS and CMD_CACHE_FLUSH
abbrev pub cmd_read_sectors : ℕ
cmd_read_sectors = 0x20

abbrev pub cmd_write_sectors : ℕ
cmd_write_sectors = 0x30

abbrev pub cmd_cache_flush : ℕ
cmd_cache_flush = 0xE7

unfoldable pub wait_not_busy : Io
wait_not_busy = poll reg_status 0x80 false

unfoldable pub wait_ready : Io
wait_ready = poll reg_status 0x40 true

unfoldable pub wait_for_data : Io
wait_for_data = poll reg_status 0x08 true

-- What `read` and `write` both do before the command: the 28 low bits of the sector's number, in four
-- registers.
unfoldable pub select_sector : ℕ → List Io
select_sector lba =
    outportb reg_device (bit_or 0xE0 (lba / 2 ^ 24 % 16))
    ∷ outportb reg_error 0
    ∷ outportb reg_sector_count 1
    ∷ outportb reg_lba_lo (lba % 256)
    ∷ outportb reg_lba_mid (lba / 2 ^ 8 % 256)
    ∷ outportb reg_lba_hi (lba / 2 ^ 16 % 256)
    ∷ []

unfoldable pub read : ℕ → List Io
read sect_num =
    wait_not_busy
    ∷ cli
    ∷ wait_ready
    ∷ (select_sector sect_num
        ++ (outportb reg_command cmd_read_sectors ∷ wait_for_data ∷ insw reg_data 256 ∷ sti ∷ []))

-- The loop of `write`, for `n` words from `data[i]` on.
unfoldable pub write_words : List ℕ → ℕ → ℕ → List Io
write_words words i zero = []
write_words words i (suc n) = outportw reg_data (get_or words i 0) ∷ write_words words (i + 1) n

unfoldable pub write : List ℕ → ℕ → List Io
write words sect_num =
    wait_not_busy
    ∷ cli
    ∷ wait_ready
    ∷ (select_sector sect_num
        ++ (outportb reg_command cmd_write_sectors
            ∷ (write_words words 0 256 ++ (outportb reg_command cmd_cache_flush ∷ sti ∷ []))))
