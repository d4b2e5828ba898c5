-- ===== src/Fs/Create/Found.antt =====
-- fs/create.cpp and fs/file_t.cpp: a file that `create` made is found under its name.
use arabos.Prelude.{
  ℕ, suc, ◌+◌, ◌≤◌, ◌<◌, ◌≡◌, refl, sym, ap, ◌∙◌, ◌≢◌, inl, inr, true, false, Option, none, some,
  List, [], ◌∷◌, ◌++◌, arith, Bool-cases, le→leb, ne→==_false, length, take-all,
}
use arabos.Prelude.Int.{ℤ, pos, minus_one}
use arabos.Stl.StaticVector.{push_back, front, back}
use arabos.Stl.Str.{of_cstr, str_eq, str_eq_iff}
use arabos.Fs.Types.{
  convert-write_self, convert-write_other, Views, File, FileType, f, d, Disk, Block, convert,
  convert_to_write, sector, file_of, inode_of, new_inode, with_inode, is_free, Fs, Reply,
}
use arabos.Fs.Names.{slash, split}
use arabos.Fs.Names.Split.{IsName, path_of, split-path_of}
use arabos.Fs.Lookup.{inode_at, file_at, scan, find_from, find, add, hdd_search}
use arabos.Fs.Lookup.Free.{free_from}
use arabos.Fs.Lookup.First.{TwoFree, two_free}
use arabos.Fs.Create.{parent_of, add_file, create_at, sfs_create}
use mathlib.Core.List.{append-nil}

abbrev pub FilesUsed : Disk → ℕ → List ℕ → Type 0
FilesUsed disk inode [] = Unit
FilesUsed disk inode (n ∷ ns) =
    (is_free (convert disk n).tag ≡ false) × (sector n ≢ sector inode) × FilesUsed disk inode ns

module _ (w : Views) where
  -- The numbers of a directory whose names another disk keeps.
  abbrev pub SameNames : Disk → Disk → List ℕ → Type 0
  SameNames disk disk' [] = Unit
  SameNames disk disk' (n ∷ ns) =
      ((file_at w disk' n).name ≡ (file_at w disk n).name) × SameNames disk disk' ns

  scan_last :
      (disk disk' : Disk) (next next' : File → Option ℤ) (name : List ℕ) (n : ℕ) (ns : List ℕ)
      (a : ℕ)
      → SameNames disk disk' (n ∷ ns)
      → (file_at w disk' a).name ≡ name
      → scan w disk next name true true (n ∷ ns) ≡ some minus_one
      → scan w disk' next' name true true ((n ∷ ns) ++ a ∷ []) ≡ some (pos a)
  unfolding scan
  scan_last disk disk' next next' name n [] a same new h =
      elim (Bool-cases (str_eq (file_at w disk n).name name)) [
        | inl hit ↦ absurd (ground arith)
        | inr miss ↦
            let miss' : str_eq (file_at w disk' n).name name ≡ false = rw same.0 miss in
            let hit : str_eq (file_at w disk' a).name name ≡ true =
              rw new ((str_eq_iff name name).1 refl) in
            rw (miss', hit)
      ]
  scan_last disk disk' next next' name n (m ∷ ns) a same new h =
      elim (Bool-cases (str_eq (file_at w disk n).name name)) [
        | inl hit ↦ absurd (ground arith)
        | inr miss ↦
            let miss' : str_eq (file_at w disk' n).name name ≡ false = rw same.0 miss in
            rw miss' (scan_last disk disk' next next' name m ns a same.1 new (ground arith))
      ]

  pub find_one :
      (disk : Disk) (x : File) (name : List ℕ) (files : List ℕ)
      → (inode_at w disk x.inode).index_file ≡ files
      → find_from w disk x (name ∷ []) ≡ elim files [
        | [] ↦ some minus_one
        | n ∷ ns ↦ scan w disk (λ y. none) name true true (n ∷ ns)
      ]
  unfolding find_from
  find_one disk x name files e = rw (← e) refl

  -- The root directory as `create` needs it: block 0 holds a copy of ROOT's file, the inode and the
  -- files stand in blocks that are not free, and no file stands in the inode's block.
  pub record IsMounted (fs : Fs) : Type 0 where
    pub copy_inode : (file_at w fs.disk 0).inode ≡ fs.root.inode
    pub copy_type : (file_at w fs.disk 0).type ≡ d
    pub root_used : is_free (convert fs.disk fs.root.inode).tag ≡ false
    pub files_used : FilesUsed fs.disk fs.root.inode (inode_at w fs.disk fs.root.inode).index_file
    pub has_room : length (inode_at w fs.disk fs.root.inode).index_file < 94

  module _ (fs : Fs) (name : List ℕ) (mode : ℕ) (kind : FileType) (v : IsMounted fs)
      (t : TwoFree fs.disk) where
    abbrev pub root_inode : ℕ
    root_inode = fs.root.inode

    abbrev pub new_file : File
    new_file = record { inode = t.b; type = kind; name = name; mode = mode; is_symlink = false }

    abbrev pub written : Disk
    written =
        convert_to_write (convert_to_write fs.disk (file_of new_file) t.a) (inode_of new_inode) t.b

    abbrev pub after : Disk
    after = add_file w fs.disk new_file (file_at w fs.disk 0) t.a t.b

    pub used_apart :
        (n : ℕ)
        → is_free (convert fs.disk n).tag ≡ false
        → (sector n ≢ sector t.a) × (sector n ≢ sector t.b)
    used_apart n h =
        let free_a : is_free (fs.disk (sector t.a)).tag ≡ true = t.a_free in
        let free_b : is_free (fs.disk (sector t.b)).tag ≡ true = t.b_free in
        let used : is_free (fs.disk (sector n)).tag ≡ false = h in (λ e. cc, λ e. cc)

    pub written_other :
        (n : ℕ) → is_free (convert fs.disk n).tag ≡ false → convert written n ≡ convert fs.disk n
    written_other n h =
        convert-write_other (convert_to_write fs.disk (file_of new_file) t.a) (inode_of new_inode)
          t.b n (used_apart n h).1
        ∙ convert-write_other fs.disk (file_of new_file) t.a n (used_apart n h).0

    written_file : convert written t.a ≡ file_of new_file
    written_file =
        convert-write_other (convert_to_write fs.disk (file_of new_file) t.a) (inode_of new_inode)
          t.b t.a (λ e. omega (arith, e, t.order))
        ∙ convert-write_self fs.disk (file_of new_file) t.a

    abbrev pub grown : Block
    grown = with_inode (convert written root_inode) (record (inode_at w written root_inode) {
      index_file = push_back 94 (inode_at w written root_inode).index_file t.a;
    })

    pub after_is : after ≡ convert_to_write written grown root_inode
    unfolding add_file add
    after_is = rw (v.copy_inode) refl

    pub after_lem : (n : ℕ) → sector n ≢ sector root_inode → convert after n ≡ convert written n
    after_lem n ne = rw after_is (convert-write_other written grown root_inode n ne)

    pub root_files :
        (inode_at w after root_inode).index_file
        ≡ (inode_at w fs.disk root_inode).index_file ++ t.a ∷ []
    unfolding push_back
    root_files =
        rw
          (
            after_is,
            convert-write_self written grown root_inode,
            written_other root_inode v.root_used,
            le→leb (length (inode_at w fs.disk root_inode).index_file + 1) 94
                (omega (arith, v.has_room)),
          )
          refl

    pub same_names : (ns : List ℕ) → FilesUsed fs.disk root_inode ns → SameNames fs.disk after ns
    same_names [] p = tt
    same_names (n ∷ ns) p = (rw (after_lem n p.1, written_other n p.0) refl, same_names ns p.2)

    -- The new file's block holds it.
    pub new_found : file_at w after t.a ≡ new_file
    new_found =
        rw (after_lem t.a (λ e. (used_apart root_inode v.root_used).0 (sym e)), written_file) refl

    find_new :
        (files : List ℕ)
        → (inode_at w fs.disk root_inode).index_file ≡ files
        → FilesUsed fs.disk root_inode files
        → find_from w fs.disk fs.root (name ∷ []) ≡ some minus_one
        → find_from w after fs.root (name ∷ []) ≡ some (pos t.a)
    unfolding scan
    find_new [] e u h =
        let hit : str_eq (file_at w after t.a).name name ≡ true =
          rw new_found ((str_eq_iff name name).1 refl) in
        find_one after fs.root name (t.a ∷ []) (root_files ∙ rw e refl) ∙ rw hit refl
    find_new (n ∷ files) e u h =
        find_one after fs.root name ((n ∷ files) ++ t.a ∷ []) (root_files ∙ rw e refl)
        ∙ scan_last fs.disk after (λ y. none) (λ y. none) name n files t.a
            (same_names (n ∷ files) u) (ap (λ (x : File). x.name) new_found)
            (sym (find_one fs.disk fs.root name (n ∷ files) e) ∙ h)

  find-split :
      (fs : Fs) (path : List ℕ) (strs : List (List ℕ))
      → length (of_cstr 128 path) ≢ 1
      → split (of_cstr 128 path) (slash ∷ []) ≡ some strs
      → find w fs path ≡ find_from w fs.disk fs.root strs
  unfolding find split
  find-split fs path strs h e = rw (ne→==_false (length (of_cstr 128 path)) 1 h, e) refl

  pub one_part :
      (name : List ℕ)
      → IsName name
      → split (of_cstr 128 (slash ∷ name)) (slash ∷ []) ≡ some (name ∷ [])
  unfolding of_cstr path_of
  one_part name p =
      ap (λ s. split s (slash ∷ [])) (take-all 129 (slash ∷ name) (omega (arith, p.short)))
      ∙ ap (λ s. split (slash ∷ s) (slash ∷ [])) (sym (append-nil name))
      ∙ split-path_of (name ∷ []) (p, tt) (omega arith)
          (omega (arith, p.short, ap length (append-nil name)))

  -- A path of one part is looked for in the root directory.
  pub find_root :
      (fs : Fs) (name : List ℕ)
      → IsName name
      → find w fs (slash ∷ name) ≡ find_from w fs.disk fs.root (name ∷ [])
  unfolding of_cstr
  find_root fs name p =
      let e : length (of_cstr 128 (slash ∷ name)) ≡ suc (length name) =
        ap length (take-all 129 (slash ∷ name) (omega (arith, p.short))) in
      find-split fs (slash ∷ name) (name ∷ []) (λ k. omega (arith, p.some_char)) (one_part name p)

  pub create_returns :
      (fs : Fs) (path name : List ℕ) (mode a b : ℕ)
      → find w fs path ≡ some minus_one
      → split (of_cstr 128 path) (slash ∷ []) ≡ some (name ∷ [])
      → (file_at w fs.disk 0).type ≡ d
      → hdd_search fs.disk 1024 ≡ a ∷ b ∷ []
      → sfs_create w fs path mode
        ≡ some (record {
          code = pos 0;
          disk =
              add_file w fs.disk
                (record { inode = b; type = f; name = name; mode = mode; is_symlink = false })
                (file_at w fs.disk 0)
                a
                b;
          handle = some a;
        })
  unfolding sfs_create create_at parent_of front back find split hdd_search
  create_returns fs path name mode a b absent parts dir two = rw (absent, parts, dir, two) refl

  -- On the disk that `create` leaves, `find` answers the first of the two blocks.
  pub find_created :
      (fs : Fs) (name : List ℕ) (mode : ℕ) (kind : FileType) (v : IsMounted fs)
      (t : TwoFree fs.disk)
      → IsName name
      → find w fs (slash ∷ name) ≡ some minus_one
      → find w (record fs { disk = after fs name mode kind v t }) (slash ∷ name) ≡ some (pos t.a)
  find_created fs name mode kind v t p absent =
      find_root (record fs { disk = after fs name mode kind v t }) name p
      ∙ find_new fs name mode kind v t (inode_at w fs.disk fs.root.inode).index_file refl
          v.files_used (sym (find_root fs name p) ∙ absent)

  -- What `create` promises: the file is stored in the block that the handle names, and `find` on
  -- the disk that it leaves answers that block.
  pub record Created (fs : Fs) (name : List ℕ) (mode : ℕ) : Type 0 where
    pub reply : Reply
    pub block : ℕ
    pub returned : sfs_create w fs (slash ∷ name) mode ≡ some reply
    pub succeeded : reply.code ≡ pos 0
    pub handle : reply.handle ≡ some block
    pub stored :
        ((file_at w reply.disk block).name ≡ name) × ((file_at w reply.disk block).mode ≡ mode)
    pub found : find w (record fs { disk = reply.disk }) (slash ∷ name) ≡ some (pos block)

  -- In a mounted file system, with a name that is not in the root directory and two free blocks
  -- among the first ten, `create` returns 0 and a handle, the block of that handle holds the file,
  -- and `find` answers that block on the disk that `create` leaves.
  pub sfs_create_lem :
      (fs : Fs) (name : List ℕ) (mode : ℕ)
      → IsMounted fs
      → IsName name
      → find w fs (slash ∷ name) ≡ some minus_one
      → 2 ≤ length (free_from fs.disk 10 0)
      → Created fs name mode
  sfs_create_lem fs name mode v p absent room =
      let t = two_free fs.disk room in
      record {
        reply = record { code = pos 0; disk = after fs name mode f v t; handle = some t.a };
        block = t.a;
        returned =
            create_returns fs (slash ∷ name) name mode t.a t.b absent (one_part name p) v.copy_type
              t.both;
        succeeded = refl;
        handle = refl;
        stored = (
          ap (λ (x : File). x.name) (new_found fs name mode f v t),
          ap (λ (x : File). x.mode) (new_found fs name mode f v t),
        );
        found = find_created fs name mode f v t p absent;
      }
