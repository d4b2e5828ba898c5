-- ===== src/Fs/Errors.antt =====
-- fs/: what the operations do for a path that is not there.
use arabos.Prelude.{ℕ, ◌≡◌, refl, ◌≢◌, Option, some, List}
use arabos.Prelude.Int.{ℤ, pos, minus_one, neg}
use arabos.Fs.Types.{Views, Fs, Disk, Reply, returns, eexist, enoent}
use arabos.Fs.Lookup.{find}
use arabos.Fs.Names.{dirname}
use arabos.Fs.Create.{sfs_link}
use arabos.Fs.Attributes.{sfs_chmod, sfs_chown, sfs_open, sfs_truncate}
use arabos.Fs.Remove.{sfs_unlink, sfs_rmdir, sfs_rename}

-- An operation that refuses: it returns an error, stores no handle, and leaves the disk as it was.
pub record Refuses (disk : Disk) (answer : Option Reply) : Type 0 where
  pub code : ℤ
  pub refused : answer ≡ some (returns code disk)
  pub error : code ≢ pos 0

module _ (w : Views) where
  refuses :
      (disk : Disk) (answer : Option Reply) (code : ℤ)
      → code ≢ pos 0
      → answer ≡ some (returns code disk)
      → Refuses disk answer
  refuses disk answer code nz e = record { code = code; refused = e; error = nz }

  -- What each operation does for a path that is not there, where its parent's path was looked up too.
  pub record Missing (beyond : List ℕ) (fs : Fs) (path : List ℕ) : Type 0 where
    pub chmod : (mode : ℕ) → Refuses fs.disk (sfs_chmod w fs path mode)
    pub chown : (uid gid : ℕ) → Refuses fs.disk (sfs_chown w fs path uid gid)
    pub opening : Refuses fs.disk (sfs_open w fs path)
    pub truncate : (size : ℕ) → Refuses fs.disk (sfs_truncate w fs path size)
    pub rename : (newpath : List ℕ) → Refuses fs.disk (sfs_rename w beyond fs path newpath)
    pub link : (newpath : List ℕ) → Refuses fs.disk (sfs_link w beyond fs path newpath)
    pub unlink : Refuses fs.disk (sfs_unlink w beyond fs path)
    pub rmdir : (fuel : ℕ) → Refuses fs.disk (sfs_rmdir w fuel beyond fs path)

  chmod-missing :
      (fs : Fs) (path : List ℕ) (mode : ℕ)
      → find w fs path ≡ some minus_one
      → Refuses fs.disk (sfs_chmod w fs path mode)
  unfolding sfs_chmod find
  chmod-missing fs path mode e = refuses fs.disk _ (neg eexist) (λ x. cc) (rw e refl)

  chown-missing :
      (fs : Fs) (path : List ℕ) (uid gid : ℕ)
      → find w fs path ≡ some minus_one
      → Refuses fs.disk (sfs_chown w fs path uid gid)
  unfolding sfs_chown find
  chown-missing fs path uid gid e = refuses fs.disk _ (neg enoent) (λ x. cc) (rw e refl)

  open-missing :
      (fs : Fs) (path : List ℕ)
      → find w fs path ≡ some minus_one
      → Refuses fs.disk (sfs_open w fs path)
  unfolding sfs_open find
  open-missing fs path e = refuses fs.disk _ (neg enoent) (λ x. cc) (rw e refl)

  truncate-missing :
      (fs : Fs) (path : List ℕ) (size : ℕ)
      → find w fs path ≡ some minus_one
      → Refuses fs.disk (sfs_truncate w fs path size)
  unfolding sfs_truncate find
  truncate-missing fs path size e = refuses fs.disk _ (neg enoent) (λ x. cc) (rw e refl)

  rename-missing :
      (beyond : List ℕ) (fs : Fs) (path : List ℕ) (newpath : List ℕ)
      → find w fs path ≡ some minus_one
      → Refuses fs.disk (sfs_rename w beyond fs path newpath)
  unfolding sfs_rename find
  rename-missing beyond fs path newpath e = refuses fs.disk _ (neg enoent) (λ x. cc) (rw e refl)

  link-missing :
      (beyond : List ℕ) (fs : Fs) (path : List ℕ) (newpath : List ℕ)
      → find w fs path ≡ some minus_one
      → Refuses fs.disk (sfs_link w beyond fs path newpath)
  unfolding sfs_link find
  link-missing beyond fs path newpath e = refuses fs.disk _ (neg enoent) (λ x. cc) (rw e refl)

  unlink-missing :
      (beyond : List ℕ) (fs : Fs) (path : List ℕ) (parent : ℤ)
      → find w fs (dirname path beyond) ≡ some parent
      → find w fs path ≡ some minus_one
      → Refuses fs.disk (sfs_unlink w beyond fs path)
  unfolding sfs_unlink find dirname
  unlink-missing beyond fs path parent d e =
      refuses fs.disk _ (neg enoent) (λ x. cc) (rw (d, e) refl)

  rmdir-missing :
      (fuel : ℕ) (beyond : List ℕ) (fs : Fs) (path : List ℕ) (parent : ℤ)
      → find w fs (dirname path beyond) ≡ some parent
      → find w fs path ≡ some minus_one
      → Refuses fs.disk (sfs_rmdir w fuel beyond fs path)
  unfolding sfs_rmdir find dirname
  rmdir-missing fuel beyond fs path parent d e =
      refuses fs.disk _ (neg enoent) (λ x. cc) (rw (d, e) refl)

  -- For a path that is looked up and not found, and whose parent's path is looked up too, `chmod`,
  -- `chown`, `open`, `truncate`, `rename`, `link`, `unlink` and `rmdir` return an error and leave the
  -- disk as it was.
  Missing-path :
      (beyond : List ℕ) (fs : Fs) (path : List ℕ) (parent : ℤ)
      → find w fs (dirname path beyond) ≡ some parent
      → find w fs path ≡ some minus_one
      → Missing beyond fs path
  Missing-path beyond fs path parent d e = record {
    chmod = λ mode. chmod-missing fs path mode e;
    chown = λ uid gid. chown-missing fs path uid gid e;
    opening = open-missing fs path e;
    truncate = λ size. truncate-missing fs path size e;
    rename = λ newpath. rename-missing beyond fs path newpath e;
    link = λ newpath. link-missing beyond fs path newpath e;
    unlink = unlink-missing beyond fs path parent d e;
    rmdir = λ fuel. rmdir-missing fuel beyond fs path parent d e;
  }
