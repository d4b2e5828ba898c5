-- ===== src/Fs/Attributes/Handles.antt =====
-- fs/open.cpp, fs/release.cpp and fs/chown.cpp: opening and closing a file, and a change of owner.
use arabos.Prelude.{
  ℕ, ◌^◌, ◌<◌, ◌≡◌, refl, sym, ap, ◌∙◌, fun_ext, ◌≢◌, none, some, List, arith, ℕ_discrete, ==_iff,
  ne→==_false,
}
use arabos.Prelude.{
  ℕ, ◌^◌, ◌<◌, ◌≡◌, refl, sym, ap, ◌∙◌, fun_ext, ◌≢◌, none, some, List, arith, ℕ_discrete, ==_iff,
  ne→==_false,
}
use arabos.Prelude.Int.{pos, to_u32}
use arabos.Fs.Types.{
  Views, inode_body, file_body, returns, File, Inode, Disk, Block, convert, convert_to_write,
  sector, with_inode, Fs, Reply, incr, decr,
}
use arabos.Fs.Lookup.{find}
use arabos.Fs.Attributes.{check_permission, readable, sfs_open, sfs_release, sfs_chown}

-- A disk that is written twice at one block, the second time with what was there, is the first disk.
write_back :
    (disk : Disk) (b : Block) (n : ℕ)
    → convert_to_write (convert_to_write disk b n) (convert disk n) n ≡ disk
write_back disk b n = fun_ext (λ s. elim (ℕ_discrete (sector n) s) [
  | yes same ↦ rw ((==_iff (sector n) s).1 same) (ap disk same)
  | no other ↦ rw (ne→==_false (sector n) s other) refl
])

with_inode_same : (b : Block) (i : Inode) → b.body ≡ inode_body i → with_inode b i ≡ b
with_inode_same b i e = rw (← e) refl

module _ (w : Views) where
  -- The file that `path` names, with its inode: both blocks hold what they are read as, they are two
  -- blocks of the disk, and the file's is not block 0.
  pub record IsFile (fs : Fs) (path : List ℕ) : Type 0 where
    pub block : ℕ
    pub file : File
    pub inode : Inode
    pub at : find w fs path ≡ some (pos block)
    pub in_range : (0 < block) × (block < 2 ^ 31)
    pub file_block : (convert fs.disk block).body ≡ file_body file
    pub inode_block : (convert fs.disk file.inode).body ≡ inode_body inode
    pub apart : sector block ≢ sector file.inode

  sfs_open_lem :
      (fs : Fs) (path : List ℕ) (n : ℕ) (x : File) (it : Inode)
      → find w fs path ≡ some (pos n)
      → n < 2 ^ 31
      → (convert fs.disk n).body ≡ file_body x
      → (convert fs.disk x.inode).body ≡ inode_body it
      → 0 < x.mode
      → sfs_open w fs path
        ≡ some (record {
          code = pos 0;
          disk =
              convert_to_write fs.disk
                (with_inode (convert fs.disk x.inode) (record it { usecount = incr it.usecount }))
                x.inode;
          handle = some n;
        })
  unfolding sfs_open readable check_permission find
  sfs_open_lem fs path n x it at small file_block inode_block mode =
      let e : to_u32 (pos n) ≡ n = omega arith in
      rw (at, e, file_block, inode_block, ne→==_false x.mode 0 (omega arith)) (ground arith)

  -- A file that is opened and then released leaves the disk as it was, use count included.
  pub record Opened (fs : Fs) (path : List ℕ) : Type 0 where
    pub reply : Reply
    pub block : ℕ
    pub returned : sfs_open w fs path ≡ some reply
    pub succeeded : reply.code ≡ pos 0
    pub handle : reply.handle ≡ some block
    pub released :
        sfs_release w (record fs { disk = reply.disk }) block
        ≡ record { code = pos 0; disk = fs.disk; handle = none }

  sfs_release_lem :
      (fs : Fs) (n : ℕ) (x : File) (it : Inode)
      → 0 < n
      → (convert fs.disk n).body ≡ file_body x
      → (convert fs.disk x.inode).body ≡ inode_body it
      → sfs_release w fs n ≡ record {
        code = pos 0;
        disk =
            convert_to_write fs.disk
              (with_inode (convert fs.disk x.inode) (record it { usecount = decr it.usecount }))
              x.inode;
        handle = none;
      }
  unfolding sfs_release
  sfs_release_lem fs n x it n_pos file_block inode_block =
      rw (ne→==_false n 0 (omega arith), file_block, inode_block) refl

  decr-incr : (n : ℕ) → n < 2 ^ 32 → decr (incr n) ≡ n
  decr-incr n h = omega arith

  -- For a file with a mode other than 0 and a use count of 32 bits, `open` returns 0 and the handle of
  -- the file, and `release` of that handle gives back the disk from before.
  sfs_release-sfs_open :
      (fs : Fs) (path : List ℕ)
      → (x : IsFile fs path) → 0 < x.file.mode
      → x.inode.usecount < 2 ^ 32
      → Opened fs path
  sfs_release-sfs_open fs path x mode bound =
      let opened : Inode = record x.inode { usecount = incr x.inode.usecount } in
      let b : Block = with_inode (convert fs.disk x.file.inode) opened in
      let disk1 : Disk = convert_to_write fs.disk b x.file.inode in
      let file_kept : (convert disk1 x.block).body ≡ file_body x.file =
        rw (ne→==_false (sector x.file.inode) (sector x.block) (λ e. x.apart (sym e)))
          x.file_block in
      let inode_new : (convert disk1 x.file.inode).body ≡ inode_body opened = ground arith in
      let same : convert disk1 x.file.inode ≡ b = ground arith in
      let restored : with_inode (convert disk1 x.file.inode)
            (record opened { usecount = decr opened.usecount })
          ≡ convert fs.disk x.file.inode =
        rw (same, decr-incr x.inode.usecount bound)
          (with_inode_same (convert fs.disk x.file.inode) x.inode x.inode_block) in
      record {
        reply = record { code = pos 0; disk = disk1; handle = some x.block };
        block = x.block;
        returned =
            sfs_open_lem fs path x.block x.file x.inode x.at x.in_range.1 x.file_block x.inode_block
              mode;
        succeeded = refl;
        handle = refl;
        released =
            sfs_release_lem (record fs { disk = disk1 }) x.block x.file opened x.in_range.0
              file_kept inode_new
            ∙ ap (λ (dk : Disk). returns (pos 0) dk)
                (ap (λ c. convert_to_write disk1 c x.file.inode) restored
                  ∙ write_back fs.disk b x.file.inode);
      }

  -- What `chown` leaves: the block of the file holds the inode with the new owner, and the inode's
  -- own block is as it was.
  pub record Chowned (fs : Fs) (path : List ℕ) (x : IsFile fs path) (uid gid : ℕ) : Type 0 where
    pub reply : Reply
    pub returned : sfs_chown w fs path uid gid ≡ some reply
    pub succeeded : reply.code ≡ pos 0
    pub overwritten :
        (convert reply.disk x.block).body ≡ inode_body (record x.inode { uid = uid; gid = gid })
    pub kept : (convert reply.disk x.file.inode).body ≡ inode_body x.inode

  chown_disk : (fs : Fs) (path : List ℕ) (uid gid : ℕ) → IsFile fs path → Disk
  chown_disk fs path uid gid x =
      convert_to_write fs.disk
        (with_inode (convert fs.disk x.file.inode) (record x.inode { uid = uid; gid = gid }))
        x.block

  chown_returns :
      (fs : Fs) (path : List ℕ) (uid gid : ℕ) (x : IsFile fs path)
      → sfs_chown w fs path uid gid ≡ some (returns (pos 0) (chown_disk fs path uid gid x))
  unfolding sfs_chown find chown_disk
  chown_returns fs path uid gid x =
      let e : to_u32 (pos x.block) ≡ x.block = omega (arith, x.in_range.1) in
      rw (x.at, e, x.file_block, x.inode_block) (ground arith)

  -- `chown` of a file returns 0, stores the inode with the new owner in the file's own block, and
  -- leaves the inode's block as it was.
  sfs_chown_lem :
      (fs : Fs) (path : List ℕ) (uid gid : ℕ) (x : IsFile fs path) → Chowned fs path x uid gid
  unfolding chown_disk
  sfs_chown_lem fs path uid gid x = record {
    reply = returns (pos 0) (chown_disk fs path uid gid x);
    returned = chown_returns fs path uid gid x;
    succeeded = refl;
    overwritten = ground arith;
    kept = rw (ne→==_false (sector x.block) (sector x.file.inode) x.apart) x.inode_block;
  }
