-- ===== src/Fs/Remove.antt =====
-- fs/unlink.cpp, fs/rmdir.cpp and fs/rename.cpp, and the commands of init/monitor.cpp that set up a
-- disk: the operations that take a file out of its directory.
pub mod Blocks
pub mod Empty
pub mod Undo
use arabos.Prelude.{
  ℕ, zero, suc, ◌+◌, ◌-◌, ◌*◌, ◌/◌, ◌%◌, ◌^◌, ◌≤◌, ◌<◌, min, bit_and, bit_or, bit_xor, ◌≡◌, refl,
  sym, ap, ap₂, ◌∙◌, fun_ext, ◌≢◌, ◌↔◌, ◌⊎◌, inl, inr, Bool, true, false, not, ◌&&◌, ◌||◌, Option,
  none, some, List, [], ◌∷◌, ◌++◌, map, arith, dec_lt, ℕ_discrete, ltb, leb, ◌==◌, if◌then◌else◌,
  Bool-cases, Option-cases, ==_iff, ltb→lt, lt→ltb, leb→le, length, get_elem?, set, get_or, take,
  drop, replicate, length-append, length-set, get_elem?-set_self, get_elem?-set_ne, length-take,
  length-drop, take-append-drop,
}
use arabos.Prelude.Int.{ℤ, pos, neg, is_neg, is_minus_one, to_u32}
use arabos.Stl.StaticVector
use arabos.Stl.StaticVector.{erase, erase_range}
use arabos.Stl.Str.{of_cstr}
use arabos.Fs.Types.{
  Views, File, Inode, FileType, f, d, Disk, convert, convert_to_write, file_of, inode_of, free_of,
  new_inode, with_inode, with_file, with_data, with_tag, free, is_directory, Fs, Reply, returns,
  ◌>>=◌, eexist, enoent,
}
use arabos.Fs.Names.{slash, dirname, basename}
use arabos.Fs.Lookup.{inode_at, file_at, find, add}

module _ (w : Views) where
  -- The first loop of `unlink` at index `i`, with a round of fuel for each element: block `i` is
  -- freed and its number erased, and `i` goes on.
  unfoldable pub free_content : ℕ → Disk → ℕ → List ℕ → ℕ → Disk × List ℕ
  unfolding erase
  free_content zero disk link index_file i = (disk, index_file)
  free_content (suc n) disk link index_file i =
      let sec = get_or index_file i 0 in
      let block = with_data (with_tag (convert disk sec) free) [] in
      let freed =
        free_content n (convert_to_write disk block sec) link (erase index_file i) (i + 1) in
      let kept = free_content n disk link index_file (i + 1) in
      if leb (length index_file) i then (disk, index_file) else if link == 1 then freed else kept

  -- The second loop: the number of the file leaves the directory, and its blocks are freed.
  unfoldable pub drop_entry : ℕ → Disk → ℕ → Disk → List ℕ → ℕ → Disk × List ℕ
  unfolding erase
  drop_entry zero disk current freed index_file i = (disk, index_file)
  drop_entry (suc n) disk current freed index_file i =
      let hit = drop_entry n freed current freed (erase index_file i) (i + 1) in
      let miss = drop_entry n disk current freed index_file (i + 1) in
      if leb (length index_file) i
      then (disk, index_file)
      else if get_or index_file i 0 == current
      then hit
      else miss

  unfoldable pub unlink_at : Disk → File → ℕ → Disk
  unfolding free_content drop_entry
  unlink_at disk ftparent current =
      let ft = file_at w disk current in
      let it = inode_at w disk ft.inode in
      let itparent = inode_at w disk ftparent.inode in
      let (disk1, rest) = free_content (length it.index_file) disk it.link it.index_file 0 in
      let left = with_inode (convert disk ft.inode) (record it { index_file = rest }) in
      let disk2 = convert_to_write disk1 left ft.inode in
      let freed =
        convert_to_write (convert_to_write disk2 (with_tag left free) ft.inode)
          (with_tag (convert disk current) free) current in
      let (disk3, files) =
        drop_entry (length itparent.index_file) disk2 current freed itparent.index_file 0 in
      convert_to_write disk3
        (with_inode (convert disk ftparent.inode) (record itparent { index_file = files }))
        ftparent.inode

  unfoldable pub sfs_unlink : List ℕ → Fs → List ℕ → Option Reply
  unfolding unlink_at find dirname
  sfs_unlink beyond fs path = do
    parent ← find w fs (dirname path beyond)
    current ← find w fs path
    if is_minus_one current
        then some (returns (neg enoent) fs.disk)
        else some (
            returns (pos 0)
              (unlink_at fs.disk (file_at w fs.disk (to_u32 parent)) (to_u32 current)))

  unfoldable pub remove_data : Disk → List ℕ → Disk
  remove_data disk [] = disk
  remove_data disk (n ∷ ns) = remove_data (convert_to_write disk (free_of w) n) ns

  -- The recursion of `rmdir_rec` follows the disk, so it has fuel; `none` is fuel that ran out.
  unfoldable pub rmdir_rec : ℕ → Disk → List ℕ → Option Disk
  unfolding remove_data
  rmdir_rec fuel disk [] = some disk
  rmdir_rec zero disk (n ∷ ns) = none
  rmdir_rec (suc fuel) disk (n ∷ ns) =
      let x = file_at w disk n in
      let it = inode_at w disk x.inode in
      let gone =
        λ (dk : Disk). convert_to_write (convert_to_write dk (free_of w) n) (free_of w) x.inode in
      elim x.type [
        | f ↦ rmdir_rec fuel (remove_data (gone disk) it.index_file) ns
        | d ↦ rmdir_rec fuel disk it.index_file >>= λ below. rmdir_rec fuel (gone below) ns
      ]

  -- The file and its parent are read before the test of `dir`.
  unfoldable pub rmdir_at : ℕ → Disk → ℕ → ℕ → Option Disk
  unfolding rmdir_rec erase
  rmdir_at fuel disk dir parent =
      let ft = file_at w disk dir in
      let it = inode_at w disk ft.inode in
      let ftparent = file_at w disk parent in
      let itparent = inode_at w disk ftparent.inode in
      let files = erase itparent.index_file (StaticVector.find itparent.index_file dir) in
      do
        below ← rmdir_rec fuel disk it.index_file
        let disk1 = convert_to_write below (with_tag (convert disk ft.inode) free) ft.inode
        let disk2 = convert_to_write disk1 (with_tag (convert disk dir) free) dir
        some (
            convert_to_write disk2
              (with_inode (convert disk ftparent.inode) (record itparent { index_file = files }))
              ftparent.inode)

  unfoldable pub sfs_rmdir : ℕ → List ℕ → Fs → List ℕ → Option Reply
  unfolding rmdir_at find dirname
  sfs_rmdir fuel beyond fs path = do
    dir ← find w fs path
    parent ← find w fs (dirname path beyond)
    if is_minus_one dir then some (returns (neg enoent) fs.disk) else (do
      disk ← rmdir_at fuel fs.disk (to_u32 dir) (to_u32 parent)
      some (returns (pos 0) disk))

  unfoldable pub rename_at : Disk → ℕ → ℕ → ℕ → List ℕ → Disk
  unfolding erase_range basename add
  rename_at disk i_file parent newparent newpath =
      let ft = file_at w disk i_file in
      let ftparent = file_at w disk parent in
      let ftnewparent = file_at w disk newparent in
      let itparent = inode_at w disk ftparent.inode in
      let tmp = StaticVector.find itparent.index_file i_file in
      let disk1 =
        convert_to_write disk
          (with_inode (convert disk ftparent.inode)
            (record itparent { index_file = erase_range itparent.index_file tmp (tmp + 1) }))
          ftparent.inode in
      let disk2 =
        convert_to_write disk1
          (with_file (convert disk i_file) (record ft { name = of_cstr 20 (basename newpath) }))
          i_file in
      add w disk2 ftnewparent i_file

  unfoldable pub sfs_rename : List ℕ → Fs → List ℕ → List ℕ → Option Reply
  unfolding rename_at find dirname
  sfs_rename beyond fs path newpath = do
    i_file ← find w fs path
    if is_minus_one i_file then some (returns (neg enoent) fs.disk) else (do
      parent ← find w fs (dirname path beyond)
      newfile ← find w fs newpath
      if not (is_neg newfile) then some (returns (pos eexist) fs.disk) else (do
        newparent ← find w fs (dirname newpath beyond)
        some (
            returns (pos 0)
              (rename_at fs.disk (to_u32 i_file) (to_u32 parent) (to_u32 newparent) newpath))))

  -- `ROOT` as the monitor sets it up, and the command `clean`.
  unfoldable pub make_root : Disk → Fs
  make_root disk =
      let root : File = record {
        inode = 1;
        type = d;
        name = slash ∷ [];
        mode = 0o777;
        is_symlink = false;
      } in
      record { disk = convert_to_write disk (file_of root) 0; root = root }

  unfoldable pub clean_blocks : Disk → ℕ → ℕ → Disk
  clean_blocks disk zero i = disk
  clean_blocks disk (suc n) i = clean_blocks (convert_to_write disk (free_of w) i) n (i + 1)

  unfoldable pub clean : Disk → Disk
  unfolding clean_blocks
  clean disk = convert_to_write (clean_blocks disk 99 1) (inode_of new_inode) 1
