-- ===== src/Paging/Pde.antt =====
-- mm/paging.cpp, class PageDirectoryEntry: a 32-bit word with the address of a page table and flags.
-- The value that a method reads or stores in `value` is an argument or the result here.
use arabos.Prelude.{ℕ, ◌/◌, Bool, not, if◌then◌else◌, bit_and, bit_or}
use arabos.Paging.Words.{
  get_bit, set_bit_to, CacheMode, Privilage, Access, PageSize, cache_bit, privilage_bit, access_bit,
  size_bit, to_cache_mode, to_privilage, to_access, to_page_size,
}

-- The default constructor.
unfoldable pub empty : ℕ
empty = 0

unfoldable pub get_page_table_base : ℕ → ℕ
get_page_table_base value = bit_and value 0xFFFFF000

unfoldable pub set_page_table_base : ℕ → ℕ → ℕ
set_page_table_base value page_base = bit_or (bit_and value 0xFFF) (bit_and page_base 0xFFFFF000)

unfoldable pub get_extra : ℕ → ℕ
get_extra value = bit_and (value / 512) 7

-- `~0` is the `int` -1, so `(~0) >> 3` is all ones and masks nothing.
unfoldable pub set_extra : ℕ → ℕ → ℕ
set_extra value extra = bit_or (bit_and value 0xFFFFFE00) (bit_and extra 0xFFFFFFFF)

unfoldable pub get_global : ℕ → Bool
get_global value = get_bit value 8

unfoldable pub set_global : ℕ → Bool → ℕ
set_global value global = set_bit_to value 8 global

unfoldable pub get_page_size : ℕ → PageSize
get_page_size value = to_page_size (get_bit value 7)

unfoldable pub set_page_size : ℕ → PageSize → ℕ
set_page_size value page_size = set_bit_to value 7 (size_bit page_size)

unfoldable pub get_accessed : ℕ → Bool
get_accessed value = get_bit value 5

unfoldable pub get_cache_enabled : ℕ → Bool
get_cache_enabled value = not (get_bit value 4)

unfoldable pub set_cache_enabled : ℕ → Bool → ℕ
set_cache_enabled value enabled = set_bit_to value 4 (not enabled)

unfoldable pub get_cache_mode : ℕ → CacheMode
get_cache_mode value = to_cache_mode (get_bit value 3)

unfoldable pub set_cache_mode : ℕ → CacheMode → ℕ
set_cache_mode value mode = set_bit_to value 3 (cache_bit mode)

unfoldable pub get_privilage : ℕ → Privilage
get_privilage value = to_privilage (get_bit value 2)

unfoldable pub set_privilage : ℕ → Privilage → ℕ
set_privilage value mode = set_bit_to value 2 (privilage_bit mode)

unfoldable pub get_access : ℕ → Access
get_access value = to_access (get_bit value 1)

unfoldable pub set_access : ℕ → Access → ℕ
set_access value mode = set_bit_to value 1 (access_bit mode)

unfoldable pub get_present : ℕ → Bool
get_present value = get_bit value 0

-- An entry that is made absent loses its other fields too.
unfoldable pub set_present : ℕ → Bool → ℕ
set_present value present = set_bit_to (if present then value else 0) 0 present
