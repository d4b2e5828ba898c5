-- ===== src/Fs/Attributes.antt =====
-- fs/getattr.cpp, fs/chmod.cpp, fs/chown.cpp, fs/open.cpp, fs/release.cpp and fs/truncate.cpp: the
-- operations on what a file and its inode record.
pub mod Handles
use arabos.Prelude.{
  ℕ, zero, suc, ◌+◌, ◌-◌, ◌*◌, ◌/◌, ◌%◌, ◌^◌, ◌≤◌, ◌<◌, min, bit_and, bit_or, bit_xor, ◌≡◌, refl,
  sym, ap, ap₂, ◌∙◌, fun_ext, ◌≢◌, ◌↔◌, ◌⊎◌, inl, inr, Bool, true, false, not, ◌&&◌, ◌||◌, Option,
  none, some, List, [], ◌∷◌, ◌++◌, map, arith, dec_lt, ℕ_discrete, ltb, leb, ◌==◌, if◌then◌else◌,
  Bool-cases, Option-cases, ==_iff, ltb→lt, lt→ltb, leb→le, length, get_elem?, set, get_or, take,
  drop, replicate, length-append, length-set, get_elem?-set_self, get_elem?-set_ne, length-take,
  length-drop, take-append-drop,
}
use arabos.Prelude.Int.{ℤ, pos, neg, is_minus_one, to_u32}
use arabos.Fs.Types.{
  Views, File, Inode, FileType, Disk, convert, convert_to_write, with_inode, with_file,
  is_directory, Fs, Reply, returns, ◌>>=◌, eacces, eexist, enoent, incr, decr,
}
use arabos.Fs.Lookup.{inode_at, file_at, find}

-- `inode_t::check_permission`
unfoldable pub check_permission : Inode → ℕ → ℕ → Bool
check_permission i uid gid = uid == 0 || (i.uid == uid && i.gid == gid)

-- `struct stat`, less the three times, which are a constant.
pub record Stat : Type 0 where
  pub st_mode : ℕ
  pub st_nlink : ℕ
  pub st_uid : ℕ
  pub st_gid : ℕ
  pub st_size : ℕ

abbrev pub s_ifdir : ℕ
s_ifdir = 0o40000

abbrev pub s_ifreg : ℕ
s_ifreg = 0o100000

abbrev pub s_iflnk : ℕ
s_iflnk = 0o120000

module _ (w : Views) where
  -- The code, and the attributes where it is 0.
  unfoldable pub sfs_getattr : Fs → List ℕ → Option (ℤ × Option Stat)
  unfolding find
  sfs_getattr fs path = do
    n ← find w fs path
    let ft = file_at w fs.disk (to_u32 n)
    let it = inode_at w fs.disk ft.inode
    let kind = bit_or (if is_directory ft.type then s_ifdir else s_ifreg) ft.mode
    if is_minus_one n
        then some (neg enoent, none)
        else some (
          pos 0,
          some (record {
            st_mode = if ft.is_symlink then bit_or kind s_iflnk else kind;
            st_nlink = 1;
            st_uid = it.uid;
            st_gid = it.gid;
            st_size = it.size;
          }),
        )

  unfoldable pub sfs_chmod : Fs → List ℕ → ℕ → Option Reply
  unfolding find check_permission
  sfs_chmod fs path mode = do
    n ← find w fs path
    let index_file = to_u32 n
    let ft = file_at w fs.disk index_file
    let it = inode_at w fs.disk ft.inode
    if is_minus_one n
        then some (returns (neg eexist) fs.disk)
        else if not (check_permission it 0 0)
        then some (returns (neg eacces) fs.disk)
        else some (
            returns (pos 0) (
              convert_to_write fs.disk
                (with_file (convert fs.disk index_file) (record ft { mode = mode })) index_file))

  -- The inode's block is written at the number of the file's block. The current user is 0, so the
  -- inner test of its number never passes.
  unfoldable pub sfs_chown : Fs → List ℕ → ℕ → ℕ → Option Reply
  unfolding find
  sfs_chown fs path uid gid = do
    n ← find w fs path
    let index_file = to_u32 n
    let ft = file_at w fs.disk index_file
    let it = inode_at w fs.disk ft.inode
    let current_uid : ℕ = 0
    if is_minus_one n
        then some (returns (neg enoent) fs.disk)
        else if not (current_uid == it.uid) && not (current_uid == 0)
        then some (returns (neg eacces) fs.disk)
        else some (
            returns (pos 0) (
              convert_to_write fs.disk
                (with_inode (convert fs.disk ft.inode) (record it { uid = uid; gid = gid }))
                index_file))

  -- `mode && S_IRGRP` is a logical `and`.
  unfoldable pub readable : ℕ → Bool
  readable mode = ltb 0 (bit_and mode 0o400) || not (mode == 0) || ltb 0 (bit_and mode 0o4)

  unfoldable pub sfs_open : Fs → List ℕ → Option Reply
  unfolding find check_permission readable
  sfs_open fs path = do
    n ← find w fs path
    let file = to_u32 n
    let fileobj = file_at w fs.disk file
    let it = inode_at w fs.disk fileobj.inode
    if is_minus_one n
        then some (returns (neg enoent) fs.disk)
        else if not (check_permission it 0 0) && is_directory fileobj.type
        then some (returns (neg eacces) fs.disk)
        else if not (readable fileobj.mode)
        then some (returns (neg eacces) fs.disk)
        else some (record {
          code = pos 0;
          disk =
              convert_to_write fs.disk
                (with_inode (convert fs.disk fileobj.inode)
                  (record it { usecount = incr it.usecount }))
                fileobj.inode;
          handle = some file;
        })

  unfoldable pub sfs_release : Fs → ℕ → Reply
  sfs_release fs file =
      let inod_sec = (file_at w fs.disk file).inode in
      let it = inode_at w fs.disk inod_sec in
      if file == 0
      then returns (neg enoent) fs.disk
      else returns (pos 0) (
          convert_to_write fs.disk
            (with_inode (convert fs.disk inod_sec) (record it { usecount = decr it.usecount }))
            inod_sec)

  -- The inode is written with one writer more, read again, and written with the new size.
  unfoldable pub sfs_truncate : Fs → List ℕ → ℕ → Option Reply
  unfolding find
  sfs_truncate fs path size = do
    n ← find w fs path
    let fileobj = file_at w fs.disk (to_u32 n)
    let sec = fileobj.inode
    let before = inode_at w fs.disk sec
    let disk1 =
        convert_to_write fs.disk
          (with_inode (convert fs.disk sec) (record before { writecount = incr before.writecount }))
          sec
    let it = inode_at w disk1 sec
    if is_minus_one n
        then some (returns (neg enoent) fs.disk)
        else if is_directory fileobj.type
        then some (returns (neg enoent) fs.disk)
        else some (
            returns (pos 0) (
              convert_to_write disk1
                (with_inode (convert disk1 sec) (record it {
                  size = if size % 2 ^ 32 == it.size then it.size else size % 2 ^ 32;
                  writecount = decr it.writecount;
                }))
                sec))
