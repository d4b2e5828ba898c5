-- ===== src/Paging/Words.antt =====
-- mm/paging.cpp: `SET_BIT`, `CLR_BIT` and `GET_BIT` on a 32-bit word, and the enumerations of
-- include/paging.h that a bit stands for.
use arabos.Prelude.{ℕ, ◌-◌, ◌^◌, Bool, true, false, ltb, if◌then◌else◌, bit_and, bit_or}
pub mod Fields

unfoldable pub set_bit : ℕ → ℕ → ℕ
set_bit x b = bit_or x (2 ^ b)

-- `~(1 << b)` is all ones but bit `b`.
unfoldable pub clr_bit : ℕ → ℕ → ℕ
clr_bit x b = bit_and x (2 ^ 32 - 1 - 2 ^ b)

-- The sign of the masked `int` matters at b = 31 only, which no caller uses.
unfoldable pub get_bit : ℕ → ℕ → Bool
get_bit x b = ltb 0 (bit_and x (2 ^ b))

-- The overload with a value to store.
unfoldable pub set_bit_to : ℕ → ℕ → Bool → ℕ
unfolding set_bit clr_bit
set_bit_to x b v = if v then set_bit x b else clr_bit x b

pub data CacheMode : Type 0 where
  write_back write_through : CacheMode

pub data Privilage : Type 0 where
  supervisor user : Privilage

pub data Access : Type 0 where
  read_only read_write : Access

pub data PageSize : Type 0 where
  size_4k size_4m : PageSize

-- What an enumerator is as a bit, and `static_cast` back.
abbrev pub cache_bit : CacheMode → Bool
cache_bit write_back = false
cache_bit write_through = true

abbrev pub privilage_bit : Privilage → Bool
privilage_bit supervisor = false
privilage_bit user = true

abbrev pub access_bit : Access → Bool
access_bit read_only = false
access_bit read_write = true

abbrev pub size_bit : PageSize → Bool
size_bit size_4k = false
size_bit size_4m = true

abbrev pub to_cache_mode : Bool → CacheMode
to_cache_mode b = if b then write_through else write_back

abbrev pub to_privilage : Bool → Privilage
to_privilage b = if b then user else supervisor

abbrev pub to_access : Bool → Access
to_access b = if b then read_write else read_only

abbrev pub to_page_size : Bool → PageSize
to_page_size b = if b then size_4m else size_4k
