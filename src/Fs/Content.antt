-- ===== src/Fs/Content.antt =====
-- fs/read.cpp, fs/write.cpp, fs/readlink.cpp and fs/readdir.cpp: what is in a file or a directory.
pub mod RoundTrip
use arabos.Prelude.{
  ℕ, zero, suc, ◌+◌, ◌-◌, ◌*◌, ◌/◌, ◌%◌, ◌^◌, ◌≤◌, ◌<◌, min, bit_and, bit_or, bit_xor, ◌≡◌, refl,
  sym, ap, ap₂, ◌∙◌, fun_ext, ◌≢◌, ◌↔◌, ◌⊎◌, inl, inr, Bool, true, false, not, ◌&&◌, ◌||◌, Option,
  none, some, List, [], ◌∷◌, ◌++◌, map, arith, dec_lt, ℕ_discrete, ltb, leb, ◌==◌, if◌then◌else◌,
  Bool-cases, Option-cases, ==_iff, ltb→lt, lt→ltb, leb→le, length, get_elem?, set, get_or, take,
  drop, replicate, length-append, length-set, get_elem?-set_self, get_elem?-set_ne, length-take,
  length-drop, take-append-drop,
}
use arabos.Prelude.Int.{ℤ, pos, neg, is_neg, to_u32}
use arabos.Stl.StaticVector.{push_back, front}
use arabos.Stl.Str.{of_cstr}
use arabos.Stl.Vector.{Vector, Outcome, ok, panicked, overrun, empty_vector, insert_range}
use arabos.Fs.Types.{
  Views, as_data, Block, File, Inode, FileType, Disk, convert, convert_to_write, data_of, free_of,
  with_inode, is_directory, Fs, Reply, returns, ◌>>=◌, eexist, enoent, incr, decr,
}
use arabos.Fs.Lookup.{inode_at, file_at, find, add_all, hdd_search}
use mathlib.Core.List.{foldl}

-- `copy_n(first, count, back_inserter(data))`, where `first` is in an array and `none` stands for a
-- read past it.
unfoldable pub copy_n : List ℕ → ℕ → Option (List ℕ)
unfolding push_back
copy_n first count =
    if leb count (length first) then some (foldl (push_back 496) [] (take count first)) else none

-- The vector after its `insert`, which does not panic or store past its array for a text in memory.
unfoldable pub vector_of : Outcome ℕ → Option (Vector ℕ)
vector_of (ok v) = some v
vector_of panicked = none
vector_of overrun = none

-- The handle -1.
abbrev pub no_handle : ℕ
no_handle = 2 ^ 32 - 1

-- The characters of a `string<128>` made of a C string, with the terminator where it is in the array.
abbrev pub chars_of : List ℕ → List ℕ
chars_of buf = if leb (length buf) 128 then buf ++ 0 ∷ [] else of_cstr 128 buf

module _ (w : Views) where
  unfoldable pub data_at : Disk → ℕ → List ℕ
  data_at disk n = as_data w (convert disk n).body

  -- The bytes of the blocks, in order.
  unfoldable pub gather : Disk → List ℕ → List ℕ
  unfolding data_at
  gather disk [] = []
  gather disk (n ∷ ns) = data_at disk n ++ gather disk ns

  -- What `read` returns, what it stores in the caller's buffer, and the disk. It copies as many bytes
  -- as the file has, whatever `size` is.
  unfoldable pub sfs_read : Disk → ℕ → ℕ → ℕ → Option (ℤ × List ℕ × Disk)
  unfolding gather
  sfs_read disk size offset index =
      let sec = (file_at w disk index).inode in
      let it = inode_at w disk sec in
      let bytes = gather disk it.index_file in
      let disk1 =
        convert_to_write disk
          (with_inode (convert disk sec) (record it { readcount = incr it.readcount })) sec in
      let disk2 =
        convert_to_write disk1
          (with_inode (convert disk sec) (record it { readcount = decr (incr it.readcount) }))
          sec in
      let n =
        if ltb (length bytes) offset
        then 0
        else if ltb (length bytes) (offset + size)
        then length bytes - offset
        else size in
      if index == no_handle
      then some (neg enoent, [], disk)
      else if n == 0
      then some (pos 0, [], disk2)
      else if offset == 0
      then some (pos n, bytes, disk2)
      else none

  -- The loop that writes the blocks of a file, `i`, `i + 1`, …
  unfoldable pub write_blocks : Disk → List ℕ → ℕ → ℕ → List ℕ → Option Disk
  unfolding copy_n
  write_blocks disk bytes size i [] = some disk
  write_blocks disk bytes size i (n ∷ ns) = copy_n (drop (i * 490) bytes) size >>= λ c.
      write_blocks (convert_to_write disk (data_of c) n) bytes size (i + 1) ns

  unfoldable pub free_blocks : Disk → List ℕ → Disk
  free_blocks disk [] = disk
  free_blocks disk (n ∷ ns) = free_blocks (convert_to_write disk (free_of w) n) ns

  -- The end of `write`: the inode is read again, so what was counted in the copy is lost, unless it
  -- was written.
  unfoldable pub finish_write : Disk → Block → ℕ → ℕ → ℕ → Reply
  finish_write disk fileobj file sec size =
      let it = inode_at w disk sec in
      returns (pos size) (
        convert_to_write
          (convert_to_write disk
            (with_inode (convert disk sec)
              (record it { size = size; writecount = decr it.writecount }))
            sec)
          fileobj file)

  -- `buf` is the bytes at the caller's pointer, up to the terminator.
  unfoldable pub sfs_write : Disk → List ℕ → ℕ → ℕ → Option Reply
  unfolding write_blocks free_blocks finish_write add_all hdd_search
  sfs_write disk buf size file =
      let fileobj = file_at w disk file in
      let sec = fileobj.inode in
      let it = inode_at w disk sec in
      let free_index = hdd_search disk size in
      let counted = record it { writecount = incr it.writecount; index_file = [] } in
      let cleared =
        convert_to_write (free_blocks disk it.index_file) (with_inode (convert disk sec) counted)
          sec in
      if file == no_handle then some (returns (neg enoent) disk) else elim it.index_file [
        | [] ↦ (do
          written ← write_blocks disk (chars_of buf) size 0 free_index
          some (
              finish_write (add_all w written fileobj free_index) (convert disk file) file sec
                size))
        | n ∷ ns ↦
            if leb size (length buf + 1)
            then (do
              v ← vector_of (insert_range empty_vector 0 (take size (buf ++ 0 ∷ [])))
              let free_index_2 = hdd_search cleared (length v.elements)
              written ← write_blocks cleared v.elements size 0 free_index_2
              some (
                  finish_write (add_all w written fileobj free_index_2) (convert disk file) file sec
                    size))
            else none
      ]

  -- The code and the bytes that go to the caller's buffer.
  unfoldable pub sfs_readlink : Fs → List ℕ → Option (ℤ × List ℕ)
  unfolding find data_at
  sfs_readlink fs path = do
    n ← find w fs path
    if is_neg n then some (neg eexist, []) else (do
      first ← front (inode_at w fs.disk (file_at w fs.disk (to_u32 n)).inode).index_file
      some (pos 0, data_at fs.disk first))

  unfoldable pub names_at : Disk → List ℕ → List (List ℕ) → List (List ℕ)
  unfolding push_back
  names_at disk [] temp = temp
  names_at disk (n ∷ ns) temp = names_at disk ns (push_back 10 temp (file_at w disk n).name)

  unfoldable pub sfs_readdir : Fs → List ℕ → Option (List (List ℕ))
  unfolding find names_at
  sfs_readdir fs path = do
    parent ← find w fs path
    let bt = file_at w fs.disk (to_u32 parent)
    if not (is_directory bt.type)
        then some []
        else some (
            names_at fs.disk (inode_at w fs.disk bt.inode).index_file
              ((b'.' ∷ []) ∷ (b'.' ∷ b'.' ∷ []) ∷ []))
