-- ===== src/Fs/Remove/Empty.antt =====
-- fs/unlink.cpp: what `unlink` does to the disk for a file without content.
use arabos.Prelude.{
  ℕ, zero, suc, ◌+◌, ◌≤◌, ◌<◌, ◌≡◌, refl, ap, ◌∙◌, ◌≢◌, List, [], ◌∷◌, ◌++◌, arith, ==_iff, le→leb,
  lt→leb_false, ne→==_false, length, get_or-append, length-append,
}
use arabos.Stl.StaticVector.Erases.{remove_at-append}
use arabos.Fs.Types.{
  convert-write_self, convert-write_other, Views, File, Disk, Block, free, convert,
  convert_to_write, sector, inode_of, new_inode, with_inode, with_tag,
}
use arabos.Fs.Lookup.{inode_at, file_at}
use arabos.Fs.Remove.{free_content, drop_entry, unlink_at}
use mathlib.Core.List.{append_assoc}

-- No number of the list is `a`.
abbrev pub Without : ℕ → List ℕ → Type 0
Without a [] = Unit
Without a (n ∷ ns) = (n ≢ a) × Without a ns

module _ (w : Views) where
  drop_entry-past :
      (n : ℕ) (disk : Disk) (a : ℕ) (freed : Disk) (xs : List ℕ) (i : ℕ)
      → length xs ≤ i
      → drop_entry w n disk a freed xs i ≡ (disk, xs)
  unfolding drop_entry
  drop_entry-past zero disk a freed xs i h = refl
  drop_entry-past (suc n) disk a freed xs i h = rw (le→leb (length xs) i h) refl

  drop_entry-append :
      (n : ℕ) (disk : Disk) (a : ℕ) (freed : Disk) (pre xs : List ℕ)
      → Without a xs
      → length xs < n
      → drop_entry w n disk a freed (pre ++ (xs ++ a ∷ [])) (length pre) ≡ (freed, pre ++ xs)
  unfolding drop_entry
  drop_entry-append zero disk a freed pre xs o h = absurd (omega arith)
  drop_entry-append (suc n) disk a freed pre [] o h =
      let size = length-append pre (a ∷ []) in
      rw
        (
          lt→leb_false (length (pre ++ a ∷ [])) (length pre) (omega (arith, size)),
          get_or-append pre a [] 0,
          (==_iff a a).1 refl,
          remove_at-append pre a [],
        )
        (drop_entry-past n freed a freed (pre ++ []) (length pre + 1)
          (omega (arith, length-append pre [])))
  drop_entry-append (suc n) disk a freed pre (x ∷ xs) o h =
      let size = length-append pre (x ∷ (xs ++ a ∷ [])) in
      let longer : length pre + 1 ≡ length (pre ++ x ∷ []) =
        omega (arith, length-append pre (x ∷ [])) in
      rw
        (
          lt→leb_false (length (pre ++ x ∷ (xs ++ a ∷ []))) (length pre) (omega (arith, size)),
          get_or-append pre x (xs ++ a ∷ []) 0,
          ne→==_false x a o.0,
          longer,
          ← append_assoc pre (x ∷ []) (xs ++ a ∷ []),
        )
        (drop_entry-append n disk a freed (pre ++ x ∷ []) xs o.1 (omega arith)
          ∙ ap (λ l. (freed, l)) (append_assoc pre (x ∷ []) xs))

  -- The disk with the blocks of an empty file freed, and the directory's numbers set to `xs`.
  abbrev pub inode_freed : Disk → ℕ → Disk
  inode_freed disk b =
      convert_to_write (convert_to_write disk (inode_of new_inode) b)
        (with_tag (inode_of new_inode) free) b

  abbrev pub file_freed : Disk → ℕ → ℕ → Disk
  file_freed disk a b = convert_to_write (inode_freed disk b) (with_tag (convert disk a) free) a

  abbrev pub with_files : Disk → ℕ → List ℕ → Block
  with_files disk dir xs =
      with_inode (convert disk dir) (record (inode_at w disk dir) { index_file = xs })

  abbrev pub without_file : Disk → ℕ → ℕ → ℕ → List ℕ → Disk
  without_file disk a b dir xs = convert_to_write (file_freed disk a b) (with_files disk dir xs) dir

  module _ (disk : Disk) (a b dir : ℕ) (xs : List ℕ) where
    pub without_file-dir : convert (without_file disk a b dir xs) dir ≡ with_files disk dir xs
    without_file-dir = convert-write_self (file_freed disk a b) (with_files disk dir xs) dir

    pub without_file-apart :
        (n : ℕ)
        → sector n ≢ sector dir
        → convert (without_file disk a b dir xs) n ≡ convert (file_freed disk a b) n
    without_file-apart n c =
        convert-write_other (file_freed disk a b) (with_files disk dir xs) dir n c

    pub file_freed-file : convert (file_freed disk a b) a ≡ with_tag (convert disk a) free
    file_freed-file = convert-write_self (inode_freed disk b) (with_tag (convert disk a) free) a

    pub file_freed-apart :
        (n : ℕ)
        → sector n ≢ sector a
        → convert (file_freed disk a b) n ≡ convert (inode_freed disk b) n
    file_freed-apart n c =
        convert-write_other (inode_freed disk b) (with_tag (convert disk a) free) a n c

    pub inode_freed-inode : convert (inode_freed disk b) b ≡ with_tag (inode_of new_inode) free
    inode_freed-inode =
        convert-write_self (convert_to_write disk (inode_of new_inode) b)
          (with_tag (inode_of new_inode) free) b

    pub inode_freed-apart :
        (n : ℕ) → sector n ≢ sector b → convert (inode_freed disk b) n ≡ convert disk n
    inode_freed-apart n c =
        convert-write_other (convert_to_write disk (inode_of new_inode) b)
          (with_tag (inode_of new_inode) free) b n c
        ∙ convert-write_other disk (inode_of new_inode) b n c

  pub unlink_empty :
      (disk : Disk) (parent : File) (a b : ℕ) (xs : List ℕ)
      → (file_at w disk a).inode ≡ b
      → convert disk b ≡ inode_of new_inode
      → (inode_at w disk parent.inode).index_file ≡ xs ++ a ∷ []
      → Without a xs
      → unlink_at w disk parent a ≡ without_file disk a b parent.inode xs
  unfolding unlink_at free_content
  unlink_empty disk parent a b xs eb ei ef o =
      let size = length-append xs (a ∷ []) in
      rw (eb, ei, ef, drop_entry-append (length (xs ++ a ∷ [])) _ a _ [] xs o (omega (arith, size)))
        refl
