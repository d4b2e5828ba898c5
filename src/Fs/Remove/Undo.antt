-- ===== src/Fs/Remove/Undo.antt =====
-- fs/create.cpp and fs/unlink.cpp: a file that is created and then unlinked.
use arabos.Prelude.{
  ℕ, ◌%◌, ◌^◌, ◌≤◌, ◌≡◌, refl, sym, ap, ◌∙◌, ◌≢◌, false, some, List, [], ◌∷◌, arith, ℕ_discrete,
  length,
}
use arabos.Prelude.Int.{pos, minus_one}
use arabos.Stl.Str.{of_cstr}
use arabos.Fs.Types.{
  convert-write_self, convert-write_other, as_file, as_inode, Views, File, f, Disk, Block, free,
  convert, convert_to_write, sector, file_of, inode_of, new_inode, with_tag, is_free, Fs, Reply,
  returns,
}
use arabos.Fs.Names.{slash}
use arabos.Fs.Names.Dirs.{dirname_root}
use arabos.Fs.Names.Split.{IsName}
use arabos.Fs.Lookup.{inode_at, file_at, find}
use arabos.Fs.Lookup.Free.{free_from}
use arabos.Fs.Lookup.First.{TwoFree, two_free}
use arabos.Fs.Create.{sfs_create}
use arabos.Fs.Create.Found.{
  FilesUsed, SameNames, IsMounted, grown, new_file, written, after, used_apart, written_other,
  after_is, after_lem, root_files, new_found, find_root, create_returns, one_part, find_created,
}
use arabos.Fs.Remove.{unlink_at, sfs_unlink}
use arabos.Fs.Lookup.Same.{find_from-same}
use arabos.Fs.Remove.Empty.{
  Without, without_file, without_file-dir, without_file-apart, file_freed-file, file_freed-apart,
  inode_freed-inode, inode_freed-apart, unlink_empty,
}

module _ (w : Views) where
  module _ (beyond : List ℕ) (fs : Fs) (name : List ℕ) (mode : ℕ) (v : IsMounted w fs)
      (t : TwoFree fs.disk) (p : IsName name) (copy_used : is_free (convert fs.disk 0).tag ≡ false)
      (copy_apart : sector 0 ≢ sector fs.root.inode) where
    abbrev root_inode : ℕ
    root_inode = fs.root.inode

    -- The directory's files before, and the disk that `create` leaves.
    abbrev files : List ℕ
    files = (inode_at w fs.disk root_inode).index_file

    abbrev made : Disk
    made = after w fs name mode f v t

    root_apart : (sector root_inode ≢ sector t.a) × (sector root_inode ≢ sector t.b)
    root_apart = used_apart w fs name mode f v t root_inode v.root_used

    -- The blocks that `create` wrote.
    made_inode : convert made t.b ≡ inode_of new_inode
    made_inode =
        after_lem w fs name mode f v t t.b (λ e. root_apart.1 (sym e))
        ∙ convert-write_self
            (convert_to_write fs.disk (file_of (new_file w fs name mode f v t)) t.a)
            (inode_of new_inode) t.b

    made_copy : (file_at w made 0).inode ≡ root_inode
    made_copy =
        rw
          (
            after_lem w fs name mode f v t 0 copy_apart,
            written_other w fs name mode f v t 0 copy_used,
          )
          v.copy_inode

    abbrev undone : Disk
    undone = without_file w made t.a t.b root_inode files

    used-Without : (ns : List ℕ) → FilesUsed fs.disk root_inode ns → Without t.a ns
    used-Without [] u = tt
    used-Without (n ∷ ns) u =
        (λ e. (used_apart w fs name mode f v t n u.0).0 (ap sector e), used-Without ns u.2)

    unlink_undone : unlink_at w made (file_at w made 0) t.a ≡ undone
    unlink_undone =
        unlink_empty w made (file_at w made 0) t.a t.b files
          (ap (λ (x : File). x.inode) (new_found w fs name mode f v t)) made_inode
          (ap (λ n. (inode_at w made n).index_file) made_copy ∙ root_files w fs name mode f v t)
          (used-Without files v.files_used)
        ∙ ap (λ n. without_file w made t.a t.b n files) made_copy

    undone_file : convert undone t.a ≡ with_tag (convert made t.a) free
    undone_file =
        without_file-apart w made t.a t.b root_inode files t.a (λ e. root_apart.0 (sym e))
        ∙ file_freed-file w made t.a t.b root_inode files

    undone_inode : convert undone t.b ≡ with_tag (inode_of new_inode) free
    undone_inode =
        without_file-apart w made t.a t.b root_inode files t.b (λ e. root_apart.1 (sym e))
        ∙ file_freed-apart w made t.a t.b root_inode files t.b (λ e. omega (arith, e, t.order))
        ∙ inode_freed-inode w made t.a t.b root_inode files

    undone_other :
        (n : ℕ)
        → sector n ≢ sector root_inode
        → sector n ≢ sector t.a
        → sector n ≢ sector t.b
        → convert undone n ≡ convert fs.disk n
    undone_other n c a b =
        without_file-apart w made t.a t.b root_inode files n c
        ∙ file_freed-apart w made t.a t.b root_inode files n a
        ∙ inode_freed-apart w made t.a t.b root_inode files n b
        ∙ after_lem w fs name mode f v t n c
        ∙ convert-write_other
            (convert_to_write fs.disk (file_of (new_file w fs name mode f v t)) t.a)
            (inode_of new_inode) t.b n b
        ∙ convert-write_other fs.disk (file_of (new_file w fs name mode f v t)) t.a n a

    undone_names : (ns : List ℕ) → FilesUsed fs.disk root_inode ns → SameNames w fs.disk undone ns
    undone_names [] u = tt
    undone_names (n ∷ ns) u =
        let ab = used_apart w fs name mode f v t n u.0 in
        (
          ap (λ (b : Block). (as_file w b.body).name) (undone_other n u.1 ab.0 ab.1),
          undone_names ns u.2,
        )

    undone_absent :
        find w fs (slash ∷ name) ≡ some minus_one
        → find w (record fs { disk = undone }) (slash ∷ name) ≡ some minus_one
    undone_absent absent =
        find_root w (record fs { disk = undone }) name p
        ∙ find_from-same w fs.disk undone fs.root name files refl
            (ap (λ (b : Block). (as_inode w b.body).index_file)
              (without_file-dir w made t.a t.b root_inode files))
            (undone_names files v.files_used)
        ∙ sym (find_root w fs name p)
        ∙ absent

    root_tag : is_free (convert made root_inode).tag ≡ is_free (convert fs.disk root_inode).tag
    root_tag =
        ap (λ (dk : Disk). is_free (convert dk root_inode).tag) (after_is w fs name mode f v t)
        ∙ ap (λ (k : Block). is_free k.tag)
            (convert-write_self (written w fs name mode f v t) (grown w fs name mode f v t)
              root_inode)
        ∙ ap (λ (k : Block). is_free k.tag)
            (written_other w fs name mode f v t root_inode v.root_used)

    -- Numbers of one sector have one block.
    same_tag :
        (disk : Disk) (n m : ℕ)
        → sector n ≡ sector m
        → is_free (convert disk n).tag ≡ is_free (convert disk m).tag
    same_tag disk n m e = ap (λ s. is_free (disk s).tag) e

    undone_free : (n : ℕ) → is_free (convert undone n).tag ≡ is_free (convert fs.disk n).tag
    undone_free n = elim (ℕ_discrete (sector n) (sector root_inode)) [
      | yes c ↦
          same_tag undone n root_inode c
          ∙ ap (λ (k : Block). is_free k.tag) (without_file-dir w made t.a t.b root_inode files)
          ∙ root_tag
          ∙ sym (same_tag fs.disk n root_inode c)
      | no c ↦ elim (ℕ_discrete (sector n) (sector t.a)) [
        | yes a ↦
            same_tag undone n t.a a
            ∙ ap (λ (k : Block). is_free k.tag) undone_file
            ∙ sym (same_tag fs.disk n t.a a ∙ t.a_free)
        | no a ↦ elim (ℕ_discrete (sector n) (sector t.b)) [
          | yes b ↦
              same_tag undone n t.b b
              ∙ ap (λ (k : Block). is_free k.tag) undone_inode
              ∙ sym (same_tag fs.disk n t.b b ∙ t.b_free)
          | no b ↦ ap (λ (k : Block). is_free k.tag) (undone_other n c a b)
        ]
      ]
    ]

    root_found : find w (record fs { disk = made }) (slash ∷ []) ≡ some (pos 0)
    unfolding find of_cstr
    root_found = refl

    unlink_returns :
        find w (record fs { disk = made }) (slash ∷ name) ≡ some (pos t.a)
        → sfs_unlink w beyond (record fs { disk = made }) (slash ∷ name)
          ≡ some (returns (pos 0) undone)
    unfolding sfs_unlink
    unlink_returns found =
        let parent = dirname_root name beyond p.plain p.some_char (omega (arith, p.short)) in
        let handle : t.a % 2 ^ 32 ≡ t.a = omega (arith, t.order) in
        rw (parent, root_found, found, handle) (ap (λ dk. some (returns (pos 0) dk)) unlink_undone)

  -- A file is created and unlinked.
  pub record Undone (beyond : List ℕ) (fs : Fs) (path : List ℕ) (mode : ℕ) : Type 0 where
    pub made : Reply
    pub unmade : Reply
    pub created : sfs_create w fs path mode ≡ some made
    pub unlinked : sfs_unlink w beyond (record fs { disk = made.disk }) path ≡ some unmade
    pub succeeded : (made.code ≡ pos 0) × (unmade.code ≡ pos 0)
    pub gone : find w (record fs { disk = unmade.disk }) path ≡ some minus_one
    pub files :
        (inode_at w unmade.disk fs.root.inode).index_file
        ≡ (inode_at w fs.disk fs.root.inode).index_file
    pub blocks : (n : ℕ) → is_free (convert unmade.disk n).tag ≡ is_free (convert fs.disk n).tag

  -- In a mounted file system whose block 0 is in use and holds no inode, with a name that is not in the
  -- root directory and two free blocks among the first ten, `create` and then `unlink` of the file both
  -- return 0, and leave no file of the name, the directory's numbers as they were, and the same blocks
  -- free.
  pub sfs_unlink-sfs_create :
      (beyond : List ℕ) (fs : Fs) (name : List ℕ) (mode : ℕ)
      → IsMounted w fs
      → is_free (convert fs.disk 0).tag ≡ false
      → sector 0 ≢ sector fs.root.inode
      → IsName name
      → find w fs (slash ∷ name) ≡ some minus_one
      → 2 ≤ length (free_from fs.disk 10 0)
      → Undone beyond fs (slash ∷ name) mode
  sfs_unlink-sfs_create beyond fs name mode v used apart p absent room =
      let t = two_free fs.disk room in
      record {
        made = record { code = pos 0; disk = after w fs name mode f v t; handle = some t.a };
        unmade = returns (pos 0) (undone beyond fs name mode v t p used apart);
        created =
            create_returns w fs (slash ∷ name) name mode t.a t.b absent (one_part w name p)
              v.copy_type t.both;
        unlinked =
            unlink_returns beyond fs name mode v t p used apart
              (find_created w fs name mode f v t p absent);
        succeeded = (refl, refl);
        gone = undone_absent beyond fs name mode v t p used apart absent;
        files =
            ap (λ (b : Block). (as_inode w b.body).index_file)
              (without_file-dir w (after w fs name mode f v t) t.a t.b fs.root.inode
                (inode_at w fs.disk fs.root.inode).index_file);
        blocks = undone_free beyond fs name mode v t p used apart;
      }
