-- ===== src/Examples/Files.antt =====
-- A disk with a directory and one file, and runs of fs/ on it.
use arabos.Prelude.{
  ℕ, min, ◌≡◌, refl, ap, false, some, List, [], ◌∷◌, arith, ◌==◌, if◌then◌else◌, length, take,
}
use arabos.Prelude.Int.{pos, minus_one}
use arabos.Stl.Str.{of_cstr, has_char, str_eq}
use arabos.Fs.Types.{Views, pad_body, File, f, d, Disk, new_inode, file_of, inode_of, free_of, Fs}
use arabos.Fs.Names.{slash, split, dirname}
use arabos.Fs.Names.Split.{IsName, no_slash, path_of, split-path_of}
use arabos.Fs.Lookup.{find, hdd_search}
use arabos.Fs.Lookup.Free.{free_from, blocks_for, hdd_search_lem}
use arabos.Fs.Remove.Undo.{Undone, sfs_unlink-sfs_create}
use arabos.Fs.Create.Made.{Made, sfs_mkdir_lem}
use arabos.Fs.Create.Found.{IsMounted, Created, sfs_create_lem}
use arabos.Fs.Content.RoundTrip.{IsEmptyFile, Written, sfs_read-sfs_write}
use arabos.Fs.Attributes.Handles.{IsFile}
use arabos.Fs.Remove.{free_content}
use arabos.Fs.Remove.Blocks.{freed, odd_places, even_places, free_content_lem}

abbrev root : File
root = record { inode = 1; type = d; name = slash ∷ []; mode = 0o777; is_symlink = false }

abbrev letter : File
letter = record { inode = 3; type = f; name = b'a' ∷ []; mode = 0o644; is_symlink = false }

abbrev views : Views
views = record {
  inode_view = λ b. new_inode;
  data_view = λ b. [];
  file_view = λ b. root;
  uninit = pad_body [];
}

-- Blocks 0 and 1 are the root directory, 2 and 3 its file `a`, which is empty.
abbrev disk : Disk
disk n =
    if n == 0
    then file_of root
    else if n == 1
    then inode_of (record new_inode { index_file = 2 ∷ [] })
    else if n == 2
    then file_of letter
    else if n == 3
    then inode_of new_inode
    else free_of views

abbrev fs : Fs
fs = record { disk = disk; root = root }

abbrev name : List ℕ
name = b'b' ∷ []

abbrev hello : List ℕ
hello = b'h' ∷ b'e' ∷ b'l' ∷ b'l' ∷ b'o' ∷ []

fs-IsMounted : IsMounted views fs
fs-IsMounted = record {
  copy_inode = refl;
  copy_type = refl;
  root_used = refl;
  files_used = (refl, λ e. omega (arith, e), tt);
  has_room = omega arith;
}

name-IsName : IsName name
unfolding no_slash
name-IsName = record { some_char = omega arith; short = omega arith; plain = refl }

absent : find views fs (slash ∷ name) ≡ some minus_one
unfolding find of_cstr has_char str_eq
absent = refl

found : find views fs (slash ∷ b'a' ∷ []) ≡ some (pos 2)
unfolding find of_cstr has_char str_eq
found = refl

free_blocks : free_from disk 10 0 ≡ 4 ∷ 5 ∷ 6 ∷ 7 ∷ 8 ∷ 9 ∷ []
unfolding free_from
free_blocks = refl

sfs_create_lem_example : Created views fs name 0o644
sfs_create_lem_example =
    sfs_create_lem views fs name 0o644 fs-IsMounted name-IsName absent
      (omega (arith, ap length free_blocks))

letter-IsEmptyFile : IsEmptyFile views disk 2
letter-IsEmptyFile = record {
  file = letter;
  inode = new_inode;
  a_handle = omega arith;
  file_block = refl;
  inode_block = refl;
  file_used = refl;
  inode_used = refl;
  apart = λ e. omega (arith, e);
  empty = refl;
}

sfs_read-sfs_write_example : Written views disk 2 hello 5
sfs_read-sfs_write_example =
    sfs_read-sfs_write views disk 2 hello 5 letter-IsEmptyFile (omega arith) (omega arith)
      (omega arith) (omega (arith, ap length free_blocks))

hdd_search_lem_example : hdd_search disk 1024 ≡ take (min (blocks_for 1024) 8) (free_from disk 10 0)
hdd_search_lem_example = hdd_search_lem disk 1024 (omega arith) (omega arith)

split-path_of_example : split (path_of (name ∷ name ∷ [])) (slash ∷ []) ≡ some (name ∷ name ∷ [])
unfolding path_of
split-path_of_example =
    split-path_of (name ∷ name ∷ []) (name-IsName, (name-IsName, tt)) (omega arith) (omega arith)

abbrev letter-IsFile : IsFile views fs (slash ∷ b'a' ∷ [])
letter-IsFile = record {
  block = 2;
  file = letter;
  inode = new_inode;
  at = found;
  in_range = (omega arith, omega arith);
  file_block = refl;
  inode_block = refl;
  apart = λ e. omega (arith, e);
}

free_content_lem_example :
    free_content views 3 disk 1 (7 ∷ 8 ∷ 9 ∷ []) 0
    ≡ (freed disk (odd_places (7 ∷ 8 ∷ 9 ∷ [])), even_places (7 ∷ 8 ∷ 9 ∷ []))
free_content_lem_example = free_content_lem views disk (7 ∷ 8 ∷ 9 ∷ [])

parent_found : find views fs (dirname (slash ∷ name) (0 ∷ [])) ≡ some (pos 0)
unfolding find of_cstr has_char str_eq dirname
parent_found = refl

sfs_unlink-sfs_create_example : Undone views (0 ∷ []) fs (slash ∷ name) 0o644
sfs_unlink-sfs_create_example =
    sfs_unlink-sfs_create views (0 ∷ []) fs name 0o644 fs-IsMounted refl (omega arith) name-IsName
      absent (omega (arith, ap length free_blocks))

sfs_mkdir_lem_example : Made views (0 ∷ []) fs name 0o755
sfs_mkdir_lem_example =
    sfs_mkdir_lem views (0 ∷ []) fs name 0o755 fs-IsMounted refl name-IsName absent
      (omega (arith, ap length free_blocks))
