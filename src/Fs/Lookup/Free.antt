-- ===== src/Fs/Lookup/Free.antt =====
-- fs/file_t.cpp, HDD::search: which blocks it returns.
use arabos.Prelude.{
  ℕ, zero, suc, ◌+◌, ◌-◌, ◌/◌, ◌%◌, ◌^◌, ◌≤◌, ◌<◌, min, ◌≡◌, sym, inl, inr, List, [], ◌∷◌, ◌++◌,
  arith, dec_lt, ℕ_discrete, if◌then◌else◌, Bool-cases, length, take, length-append, take-all,
  take-append,
}
use arabos.Stl.StaticVector.{push_back}
use arabos.Fs.Types.{Disk, convert, is_free, block_size}
use arabos.Fs.Lookup.{search_blocks, hdd_search}
use mathlib.Core.List.{append_assoc, append-nil}

-- The free blocks among the `n` blocks from `i` on.
unfoldable pub free_from : Disk → ℕ → ℕ → List ℕ
free_from disk zero i = []
free_from disk (suc n) i =
    if is_free (convert disk i).tag then i ∷ free_from disk n (i + 1) else free_from disk n (i + 1)

-- The blocks that a number of bytes needs.
abbrev pub blocks_for : ℕ → ℕ
blocks_for total_size = (total_size - 1) / block_size + 1

-- With room left the loop goes on from the blocks that it has.
search_blocks_lem :
    (disk : Disk) (want n i : ℕ) (acc : List ℕ)
    → length acc < want
    → length acc ≤ 8
    → search_blocks disk want n i acc ≡ take (min want 8) (acc ++ free_from disk n i)
unfolding search_blocks free_from push_back
search_blocks_lem disk want zero i acc h k =
    rw append-nil (sym (take-all (min want 8) acc (omega arith)))
search_blocks_lem disk want (suc n) i acc h k = elim (Bool-cases (is_free (convert disk i).tag)) [
  | inr taken ↦ rw taken (search_blocks_lem disk want n (i + 1) acc h k)
  | inl is_so ↦ elim (dec_lt (length acc) 8) [
    | yes room ↦ elim (ℕ_discrete (length acc + 1) want) [
      | yes last ↦ ground (
        arith,
        length-append acc (i ∷ []),
        sym (append_assoc acc (i ∷ []) rest),
        take-append (min want 8) (acc ++ i ∷ []) rest (omega (arith, length-append acc (i ∷ []))),
      )
      | no other ↦ ground (
        arith,
        length-append acc (i ∷ []),
        sym (append_assoc acc (i ∷ []) rest),
        search_blocks_lem disk want n (i + 1) (acc ++ i ∷ [])
            (omega (arith, length-append acc (i ∷ []))) (omega (arith, length-append acc (i ∷ []))),
      )
    ]
    | no full ↦ ground (
      arith,
      search_blocks_lem disk want n (i + 1) acc h k,
      take-append (min want 8) acc rest (omega arith),
      take-append (min want 8) acc (i ∷ rest) (omega arith),
    )
  ]
]
  where
    rest : List ℕ
    rest = free_from disk n (i + 1)

-- For a positive size of 32 bits `search` returns the free blocks among the first ten, in order, as many of
-- them as the size needs, and eight at most.
pub hdd_search_lem :
    (disk : Disk) (total_size : ℕ)
    → 0 < total_size
    → total_size < 2 ^ 32
    → hdd_search disk total_size ≡ take (min (blocks_for total_size) 8) (free_from disk 10 0)
unfolding hdd_search
hdd_search_lem disk total_size h k =
    let e : (total_size + 2 ^ 32 - 1) % 2 ^ 32 ≡ total_size - 1 = omega arith in
    rw e (search_blocks_lem disk (blocks_for total_size) 10 0 [] (omega arith) (omega arith))
