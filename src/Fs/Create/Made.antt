-- ===== src/Fs/Create/Made.antt =====
-- fs/mkdir.cpp and fs/file_t.cpp: a directory that `mkdir` made is found under its name.
use arabos.Prelude.{
  ℕ, ◌≤◌, ◌≡◌, refl, sym, ap, ◌∙◌, true, false, some, List, [], ◌∷◌, arith, length,
}
use arabos.Prelude.Int.{pos, minus_one}
use arabos.Stl.StaticVector.{front, back}
use arabos.Stl.Str.{of_cstr}
use arabos.Fs.Types.{
  Views, File, d, Disk, Block, convert, convert_to_write, as_inode, as_file, new_inode, inode_of,
  file_of, is_free, Fs, returns, convert-write_self,
}
use arabos.Fs.Names.{slash, split, dirname}
use arabos.Fs.Names.Dirs.{dirname_root}
use arabos.Fs.Names.Split.{IsName}
use arabos.Fs.Lookup.{inode_at, file_at, find, add, hdd_search}
use arabos.Fs.Lookup.Free.{free_from}
use arabos.Fs.Lookup.First.{TwoFree, two_free}
use arabos.Fs.Create.{add_file, mkdir_at, sfs_mkdir}
use arabos.Fs.Create.Found.{
  IsMounted, new_file, written, after, after_lem, used_apart, written_other, new_found, one_part,
  find_created,
}

module _ (w : Views) (beyond : List ℕ) where
  -- What `mkdir` promises: `find` answers the directory's block, which holds an empty directory.
  pub record Made (fs : Fs) (name : List ℕ) (mode : ℕ) : Type 0 where
    pub disk : Disk
    pub block : ℕ
    pub returned : sfs_mkdir w beyond fs (slash ∷ name) mode ≡ some (returns (pos 0) disk)
    pub found : find w (record fs { disk = disk }) (slash ∷ name) ≡ some (pos block)
    pub was_free : is_free (convert fs.disk block).tag ≡ true
    pub directory :
        ((file_at w disk block).type ≡ d)
        × ((file_at w disk block).name ≡ name)
        × ((file_at w disk block).mode ≡ mode)
    pub empty : inode_at w disk (file_at w disk block).inode ≡ new_inode

  mkdir_runs :
      (fs : Fs) (path name : List ℕ) (mode a b : ℕ)
      → find w fs path ≡ some minus_one
      → split (of_cstr 128 path) (slash ∷ []) ≡ some (name ∷ [])
      → find w fs (dirname path beyond) ≡ some (pos 0)
      → hdd_search fs.disk 1024 ≡ a ∷ b ∷ []
      → let x : File = record {
        inode = b;
        type = d;
        name = name;
        mode = mode;
        is_symlink = false;
      } in
        let disk =
          convert_to_write (convert_to_write fs.disk (file_of x) a) (inode_of new_inode) b in
        sfs_mkdir w beyond fs path mode ≡ some (returns (pos 0) (add w disk (file_at w disk 0) a))
  unfolding sfs_mkdir mkdir_at front back find split dirname hdd_search
  mkdir_runs fs path name mode a b absent parts parent two = rw (absent, parent, parts, two) refl

  root_found : (fs : Fs) → find w fs (slash ∷ []) ≡ some (pos 0)
  unfolding find of_cstr
  root_found fs = refl

  module _ (fs : Fs) (name : List ℕ) (mode : ℕ) (v : IsMounted w fs) (t : TwoFree fs.disk)
      (p : IsName name) (copy_used : is_free (convert fs.disk 0).tag ≡ false) where
    mkdir_returns :
        find w fs (slash ∷ name) ≡ some minus_one
        → sfs_mkdir w beyond fs (slash ∷ name) mode
          ≡ some (returns (pos 0) (after w fs name mode d v t))
    unfolding add_file
    mkdir_returns absent =
        let parent = dirname_root name beyond p.plain p.some_char (omega (arith, p.short)) in
        let copy = written_other w fs name mode d v t 0 copy_used in
        mkdir_runs fs (slash ∷ name) name mode t.a t.b absent (one_part w name p)
          (ap (find w fs) parent ∙ root_found fs) t.both
        ∙ ap
            (λ (k : Block).
              some (returns (pos 0) (add w (written w fs name mode d v t) (as_file w k.body) t.a)))
            copy

    made_inode : convert (after w fs name mode d v t) t.b ≡ inode_of new_inode
    made_inode =
        after_lem w fs name mode d v t t.b
          (λ e. (used_apart w fs name mode d v t fs.root.inode v.root_used).1 (sym e))
        ∙ convert-write_self
            (convert_to_write fs.disk (file_of (new_file w fs name mode d v t)) t.a)
            (inode_of new_inode) t.b

  -- In a mounted file system whose block 0 is in use, with a name that is not in the root directory and
  -- two free blocks among the first ten, `mkdir` returns 0, and `find` on the disk that it leaves answers a
  -- block that was free, which holds a directory of the name and the mode, with no file in it.
  pub sfs_mkdir_lem :
      (fs : Fs) (name : List ℕ) (mode : ℕ)
      → IsMounted w fs
      → is_free (convert fs.disk 0).tag ≡ false
      → IsName name
      → find w fs (slash ∷ name) ≡ some minus_one
      → 2 ≤ length (free_from fs.disk 10 0)
      → Made fs name mode
  sfs_mkdir_lem fs name mode v used p absent room =
      let t = two_free fs.disk room in
      let new = new_found w fs name mode d v t in
      record {
        disk = after w fs name mode d v t;
        block = t.a;
        returned = mkdir_returns fs name mode v t p used absent;
        found = find_created w fs name mode d v t p absent;
        was_free = t.a_free;
        directory = (
          ap (λ (x : File). x.type) new,
          ap (λ (x : File). x.name) new,
          ap (λ (x : File). x.mode) new,
        );
        empty =
            ap (λ (x : File). inode_at w (after w fs name mode d v t) x.inode) new
            ∙ ap (λ (b : Block). as_inode w b.body) (made_inode fs name mode v t p used);
      }
