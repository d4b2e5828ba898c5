-- ===== src/Fs/Lookup/Same.antt =====
-- fs/file_t.cpp: `find` on two disks that hold the same names.
use arabos.Prelude.{ℕ, ◌≡◌, refl, sym, ◌∙◌, true, none, List, [], ◌∷◌}
use arabos.Fs.Types.{Views, File, Disk}
use arabos.Fs.Lookup.{inode_at, scan, find_from}
use arabos.Fs.Create.Found.{SameNames, find_one}

module _ (w : Views) where
  -- A search for a name among files with the same names.
  scan-same :
      (disk disk' : Disk) (name ns : List ℕ)
      → SameNames w disk disk' ns
      → scan w disk' (λ y. none) name true true ns ≡ scan w disk (λ y. none) name true true ns
  unfolding scan
  scan-same disk disk' name [] s = refl
  scan-same disk disk' name (n ∷ []) s = rw (s.0) refl
  scan-same disk disk' name (n ∷ m ∷ ns) s = rw (s.0, scan-same disk disk' name (m ∷ ns) s.1) refl

  pub find_from-same :
      (disk disk' : Disk) (root : File) (name ns : List ℕ)
      → (inode_at w disk root.inode).index_file ≡ ns
      → (inode_at w disk' root.inode).index_file ≡ ns
      → SameNames w disk disk' ns
      → find_from w disk' root (name ∷ []) ≡ find_from w disk root (name ∷ [])
  find_from-same disk disk' root name [] e e' s =
      find_one w disk' root name [] e' ∙ sym (find_one w disk root name [] e)
  find_from-same disk disk' root name (n ∷ ns) e e' s =
      find_one w disk' root name (n ∷ ns) e'
      ∙ scan-same disk disk' name (n ∷ ns) s
      ∙ sym (find_one w disk root name (n ∷ ns) e)
