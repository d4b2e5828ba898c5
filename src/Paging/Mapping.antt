-- ===== src/Paging/Mapping.antt =====
-- mm/paging.cpp: the entry that `alloc_page` writes, and the words that it reads it back as.
use arabos.Prelude.{ℕ, ◌*◌, ◌/◌, ◌^◌, ◌<◌, ◌≡◌, ◌∙◌, true, false, arith}
use arabos.Paging.Words.{set_bit_to, supervisor, read_write}
use arabos.Paging.Words.Fields.{get_bit-set_bit_to}
use arabos.Paging.Entry.{set_page_base_lem, get_page_base-set_bit_to}
use arabos.Paging.Pte
use arabos.Paging.Frames.{map_entry}

-- The entry of a page that was mapped to a physical address: it is present, the supervisor's, and
-- may be written, and its page base is the 4 KB page of the address.
pub map_entry_lem :
    (pte paddr : ℕ)
    → pte < 2 ^ 32
    → paddr < 2 ^ 32
    → (Pte.get_page_base (map_entry pte paddr) ≡ paddr / 4096 * 4096)
      × (Pte.get_present (map_entry pte paddr) ≡ true)
      × (Pte.get_access (map_entry pte paddr) ≡ read_write)
      × (Pte.get_privilage (map_entry pte paddr) ≡ supervisor)
      × (map_entry pte paddr < 2 ^ 32)
unfolding map_entry Pte.get_present Pte.get_access Pte.get_privilage
map_entry_lem pte paddr h k =
    let a = Pte.set_page_base pte paddr in
    let b = set_bit_to a 2 false in
    let c = set_bit_to b 1 true in
    let based = set_page_base_lem pte paddr 0 h k (omega arith) in
    let pb = get_page_base-set_bit_to a 2 false based.2 (omega arith) in
    let pc = get_page_base-set_bit_to b 1 true pb.1 (omega arith) in
    let pd = get_page_base-set_bit_to c 0 true pc.1 (omega arith) in
    (
      pd.0 ∙ pc.0 ∙ pb.0 ∙ based.0,
      get_bit-set_bit_to c 0 0 true (omega arith) (omega arith),
      ground (
        arith,
        get_bit-set_bit_to c 0 1 true (omega arith) (omega arith),
        get_bit-set_bit_to b 1 1 true (omega arith) (omega arith),
      ),
      ground (
        arith,
        get_bit-set_bit_to c 0 2 true (omega arith) (omega arith),
        get_bit-set_bit_to b 1 2 true (omega arith) (omega arith),
        get_bit-set_bit_to a 2 2 false (omega arith) (omega arith),
      ),
      pd.1,
    )

-- An entry that `setPresent(false)` cleared is absent.
pub get_present-cleared :
    (pte : ℕ)
    → (Pte.get_present (Pte.set_present pte false) ≡ false) × (Pte.set_present pte false < 2 ^ 32)
unfolding Pte.get_present Pte.set_present
get_present-cleared pte = (
  get_bit-set_bit_to 0 0 0 false (omega arith) (omega arith),
  (get_page_base-set_bit_to 0 0 false (omega arith) (omega arith)).1,
)
