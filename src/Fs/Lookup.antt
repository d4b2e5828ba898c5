-- ===== src/Fs/Lookup.antt =====
-- fs/file_t.cpp: the search for a path, the additions to a directory, and the search for free blocks.
pub mod Free
pub mod First
pub mod Same
use arabos.Prelude.{
  ℕ, zero, suc, ◌+◌, ◌-◌, ◌*◌, ◌/◌, ◌%◌, ◌^◌, ◌≤◌, ◌<◌, min, bit_and, bit_or, bit_xor, ◌≡◌, refl,
  sym, ap, ap₂, ◌∙◌, fun_ext, ◌≢◌, ◌↔◌, ◌⊎◌, inl, inr, Bool, true, false, not, ◌&&◌, ◌||◌, Option,
  none, some, List, [], ◌∷◌, ◌++◌, map, arith, dec_lt, ℕ_discrete, ltb, leb, ◌==◌, if◌then◌else◌,
  Bool-cases, Option-cases, ==_iff, ltb→lt, lt→ltb, leb→le, length, get_elem?, set, get_or, take,
  drop, replicate, length-append, length-set, get_elem?-set_self, get_elem?-set_ne, length-take,
  length-drop, take-append-drop,
}
use arabos.Prelude.Int.{ℤ, pos, negsuc, minus_one, to_u32}
use arabos.Stl.StaticVector.{push_back}
use arabos.Stl.Str.{of_cstr, str_eq}
use arabos.Fs.Types.{
  Views, as_inode, as_file, File, Inode, FileType, d, Disk, Block, convert, convert_to_write,
  with_inode, is_free, is_directory, block_size, Fs,
}
use mathlib.Core.List.{foldl}
use arabos.Fs.Names.{slash, split}

module _ (w : Views) where
  -- The inode of a file.
  abbrev pub inode_at : Disk → ℕ → Inode
  inode_at disk n = as_inode w (convert disk n).body

  abbrev pub file_at : Disk → ℕ → File
  file_at disk n = as_file w (convert disk n).body

  -- The loop of `find(first, last)` over the files of a directory. `next` is the call of `find` on
  -- the file, with `first` moved on. The name is the first part's, or that of an empty string where
  -- there is no part. The number in the list, a `uint32_t`, is returned as an `int`: numbers are taken to
  -- be below 2^31, since `search` finds none above nine.
  unfoldable pub scan : Disk → (File → Option ℤ) → List ℕ → Bool → Bool → List ℕ → Option ℤ
  scan disk next name is_last is_one [] = none
  scan disk next name is_last is_one (n ∷ files) =
      let rest = scan disk next name is_last is_one files in
      let entered = next (file_at disk n) in
      if str_eq (file_at disk n).name name
      then (if is_last then some (pos n) else entered)
      else elim files [ [] ↦ if is_one then some minus_one else none | n' ∷ more ↦ rest ]

  -- The assertion that the file is a directory prints a message only. `distance(first, last)` is 0
  -- for no part and for one, and `first == --last` holds for one.
  unfoldable pub find_from : Disk → File → List (List ℕ) → Option ℤ
  unfolding scan
  find_from disk x [] = elim (inode_at disk x.inode).index_file [
    | [] ↦ some minus_one
    | n ∷ files ↦ scan disk (λ y. none) [] true false (n ∷ files)
  ]
  find_from disk x (part ∷ []) = elim (inode_at disk x.inode).index_file [
    | [] ↦ some minus_one
    | n ∷ files ↦ scan disk (λ y. none) part true true (n ∷ files)
  ]
  find_from disk x (part ∷ part' ∷ parts) = elim (inode_at disk x.inode).index_file [
    | [] ↦ some minus_one
    | n ∷ files ↦ scan disk (λ y. find_from disk y (part' ∷ parts)) part false false (n ∷ files)
  ]

  -- `ROOT.file.find(path)`, with the C string taken into a `string<128>`.
  unfoldable pub find : Fs → List ℕ → Option ℤ
  unfolding find_from split
  find fs cpath =
      let path = of_cstr 128 cpath in
      if length path == 1 then some (pos 0) else elim (split path (slash ∷ [])) [
        | none ↦ none
        | some strs ↦ find_from fs.disk fs.root strs
      ]

  -- `add(index)`: the number goes to the end of the file's inode, if there is room.
  unfoldable pub add : Disk → File → ℕ → Disk
  unfolding push_back
  add disk x index =
      let ft = inode_at disk x.inode in
      convert_to_write disk
        (with_inode (convert disk x.inode)
          (record ft { index_file = push_back 94 ft.index_file index }))
        x.inode

  -- `add(index)` of a vector of numbers.
  unfoldable pub add_all : Disk → File → List ℕ → Disk
  unfolding push_back
  add_all disk x index =
      let ft = inode_at disk x.inode in
      convert_to_write disk
        (with_inode (convert disk x.inode)
          (record ft { index_file = foldl (push_back 94) ft.index_file index }))
        x.inode

-- The loop of `search` over the blocks `i`, `i + 1`, …, with `n` of the ten left.
unfoldable pub search_blocks : Disk → ℕ → ℕ → ℕ → List ℕ → List ℕ
unfolding push_back
search_blocks disk blocks_num zero i free_index = free_index
search_blocks disk blocks_num (suc n) i free_index =
    let grown = push_back 8 free_index i in
    let next =
      search_blocks disk blocks_num n (i + 1)
        (if is_free (convert disk i).tag then grown else free_index) in
    if is_free (convert disk i).tag && length grown == blocks_num then grown else next

-- `(total_size - 1) / BLOCK_SIZE + 1`, where the subtraction wraps at 0.
unfoldable pub hdd_search : Disk → ℕ → List ℕ
unfolding search_blocks
hdd_search disk total_size =
    search_blocks disk ((total_size + 2 ^ 32 - 1) % 2 ^ 32 / block_size + 1) 10 0 []
