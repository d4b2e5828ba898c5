-- ===== src/Fs/Create.antt =====
-- fs/create.cpp, fs/mkdir.cpp, fs/link.cpp and fs/symlink.cpp: the operations that add a file.
pub mod Found
pub mod Made
use arabos.Prelude.{
  ℕ, zero, suc, ◌+◌, ◌-◌, ◌*◌, ◌/◌, ◌%◌, ◌^◌, ◌≤◌, ◌<◌, min, bit_and, bit_or, bit_xor, ◌≡◌, refl,
  sym, ap, ap₂, ◌∙◌, fun_ext, ◌≢◌, ◌↔◌, ◌⊎◌, inl, inr, Bool, true, false, not, ◌&&◌, ◌||◌, Option,
  none, some, List, [], ◌∷◌, ◌++◌, map, arith, dec_lt, ℕ_discrete, ltb, leb, ◌==◌, if◌then◌else◌,
  Bool-cases, Option-cases, ==_iff, ltb→lt, lt→ltb, leb→le, length, get_elem?, set, get_or, take,
  drop, replicate, length-append, length-set, get_elem?-set_self, get_elem?-set_ne, length-take,
  length-drop, take-append-drop,
}
use arabos.Prelude.Int.{ℤ, pos, negsuc, minus_one, neg, is_neg, is_minus_one, to_u32}
use arabos.Stl.StaticVector.{push_back, front, back}
use arabos.Stl.Str.{of_cstr}
use arabos.Fs.Types.{
  Views, File, f, d, Disk, convert, convert_to_write, file_of, inode_of, data_of, new_inode,
  with_inode, is_directory, Fs, Reply, returns, ◌>>=◌, eexist, enoent, enotdir, incr,
}
use arabos.Fs.Names.{slash, split, dirname, basename}
use arabos.Fs.Lookup.{inode_at, file_at, find_from, find, add, hdd_search}
use mathlib.Core.List.{foldl}

abbrev pub all_but_last {ℓ} : {A : Type ℓ} → List A → List A
all_but_last [] = []
all_but_last (x ∷ []) = []
all_but_last (x ∷ y ∷ xs) = x ∷ all_but_last (y ∷ xs)

abbrev is_pos : ℤ → Bool
is_pos (pos zero) = false
is_pos (pos (suc n)) = true
is_pos (negsuc n) = false

module _ (w : Views) where
  -- The parent of a new file: with no part, the iterator before the first is undefined.
  unfoldable pub parent_of : Fs → List (List ℕ) → Option ℤ
  parent_of fs [] = none
  parent_of fs (part ∷ []) = some (pos 0)
  parent_of fs (part ∷ part' ∷ parts) =
      find_from w fs.disk fs.root (all_but_last (part ∷ part' ∷ parts))

  -- The blocks that `create` and `mkdir` write: the file, its inode, and the directory's inode.
  unfoldable pub add_file : Disk → File → File → ℕ → ℕ → Disk
  unfolding add
  add_file disk x parent file_block inode_block =
      add w
        (convert_to_write (convert_to_write disk (file_of x) file_block) (inode_of new_inode)
          inode_block)
        parent file_block

  -- `create` from where the path is known to be new.
  unfoldable pub create_at : Fs → List (List ℕ) → ℕ → ℕ → Option Reply
  unfolding add_file hdd_search
  create_at fs strs parent mode =
      let ftparent = file_at w fs.disk parent in
      let free_index = hdd_search fs.disk 1024 in
      if not (is_directory ftparent.type)
      then some (returns (neg enotdir) fs.disk)
      else if not (length free_index == 2)
      then some (returns (neg eexist) fs.disk)
      else (do
        a ← front free_index
        b ← back free_index
        name ← back strs
        some (record {
          code = pos 0;
          disk =
              add_file fs.disk
                (record { inode = b; type = f; name = name; mode = mode; is_symlink = false })
                ftparent a b;
          handle = some a;
        }))

  unfoldable pub sfs_create : Fs → List ℕ → ℕ → Option Reply
  unfolding create_at parent_of find split
  sfs_create fs path mode = do
    p ← find w fs path
    if not (is_neg p) then some (returns (neg eexist) fs.disk) else (do
      strs ← split (of_cstr 128 path) (slash ∷ [])
      parent ← parent_of fs strs
      create_at fs strs (to_u32 parent) mode)

  -- `beyond` is what follows the buffer of `dirname`'s result in memory.
  module _ (beyond : List ℕ) where
    unfoldable pub mkdir_at : Fs → List (List ℕ) → ℕ → ℕ → Option Reply
    unfolding add hdd_search
    mkdir_at fs strs parent mode =
        let free_index = hdd_search fs.disk 1024 in
        if not (length free_index == 2) then some (returns (neg eexist) fs.disk) else (do
          a ← front free_index
          b ← back free_index
          name ← back strs
          let ft : File = record {
            inode = b;
            type = d;
            name = name;
            mode = mode;
            is_symlink = false;
          }
          let written =
              convert_to_write (convert_to_write fs.disk (file_of ft) a) (inode_of new_inode) b
          some (returns (pos 0) (add w written (file_at w written parent) a)))

    unfoldable pub sfs_mkdir : Fs → List ℕ → ℕ → Option Reply
    unfolding mkdir_at find split dirname
    sfs_mkdir fs path mode = do
      strs ← split (of_cstr 128 path) (slash ∷ [])
      p ← find w fs path
      if is_pos p then some (returns (pos eexist) fs.disk) else (do
        parent ← find w fs (dirname path beyond)
        if is_minus_one parent
            then some (returns (neg enoent) fs.disk)
            else mkdir_at fs strs (to_u32 parent) mode)

    -- The last write puts back the parent's block as it was read.
    unfoldable pub link_at : Fs → List ℕ → ℕ → ℕ → Option Reply
    unfolding find dirname basename add
    link_at fs newpath file a =
        let ft = file_at w fs.disk file in
        let ftlink : File = record {
          inode = ft.inode;
          type = f;
          name = of_cstr 20 (basename newpath);
          mode = ft.mode;
          is_symlink = false;
        } in
        let disk1 = convert_to_write fs.disk (file_of ftlink) a in
        let it = inode_at w disk1 ft.inode in
        let disk2 =
          convert_to_write disk1
            (with_inode (convert disk1 ft.inode) (record it { link = incr it.link })) ft.inode in
        do
          parent ← find w (record fs { disk = disk2 }) (dirname newpath beyond)
          let back_block = convert disk2 (to_u32 parent)
          some (
              returns (pos 0) (
                convert_to_write (add w disk2 (file_at w disk2 (to_u32 parent)) a) back_block
                  (to_u32 parent)))

    unfoldable pub sfs_link : Fs → List ℕ → List ℕ → Option Reply
    unfolding link_at find hdd_search
    sfs_link fs oldpath newpath = do
      file ← find w fs oldpath
      if is_minus_one file
          then some (returns (neg enoent) fs.disk)
          else if not (length (hdd_search fs.disk 512) == 1)
          then some (returns (neg eexist) fs.disk)
          else (do
            p ← find w fs newpath
            if not (is_neg p)
                then some (returns (pos eexist) fs.disk)
                else (do a ← front (hdd_search fs.disk 512); link_at fs newpath (to_u32 file) a))

  unfoldable pub sfs_symlink : List ℕ → Fs → List ℕ → List ℕ → Option Reply
  unfolding find hdd_search dirname basename add push_back
  sfs_symlink beyond fs target linkpath = do
    p ← find w fs linkpath
    if is_pos p then some (returns (pos eexist) fs.disk) else (do
      -- With too few free blocks a message is printed, and the elements that are not there read 0.
      let symlink_index = hdd_search fs.disk 1536
      let a = get_or symlink_index 0 0
      let b = get_or symlink_index 1 0
      c ← back symlink_index
      let ft : File = record {
        inode = b;
        type = f;
        name = of_cstr 20 (basename linkpath);
        mode = 0o777;
        is_symlink = true;
      }
      let disk1 = convert_to_write (convert_to_write fs.disk (file_of ft) a) (inode_of new_inode) b
      let disk2 = convert_to_write (add w disk1 ft c) (data_of (foldl (push_back 496) [] target)) c
      parent ← find w (record fs { disk = disk2 }) (dirname linkpath beyond)
      if is_minus_one parent
          then some (returns minus_one disk2)
          else some (returns (pos 0) (add w disk2 (file_at w disk2 (to_u32 parent)) a)))
