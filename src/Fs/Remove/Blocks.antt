-- ===== src/Fs/Remove/Blocks.antt =====
-- fs/unlink.cpp: which blocks of a file are freed with its last name.
use arabos.Prelude.{
  ℕ, zero, suc, ◌+◌, ◌≤◌, ◌≡◌, refl, List, [], ◌∷◌, ◌++◌, arith, le→leb, lt→leb_false, length,
  get_or-append, length-append,
}
use arabos.Stl.StaticVector.Erases.{remove_at-append}
use arabos.Fs.Types.{Views, Disk, convert, convert_to_write, with_data, with_tag, free}
use arabos.Fs.Remove.{free_content}
use mathlib.Core.List.{append_assoc}

-- The first, the third, the fifth … of a list, and the others.
unfoldable pub odd_places : List ℕ → List ℕ
odd_places [] = []
odd_places (x ∷ []) = x ∷ []
odd_places (x ∷ y ∷ xs) = x ∷ odd_places xs

unfoldable pub even_places : List ℕ → List ℕ
even_places [] = []
even_places (x ∷ []) = []
even_places (x ∷ y ∷ xs) = y ∷ even_places xs

-- The disk with these blocks freed.
unfoldable pub freed : Disk → List ℕ → Disk
freed disk [] = disk
freed disk (n ∷ ns) =
    freed (convert_to_write disk (with_data (with_tag (convert disk n) free) []) n) ns

free_content-past :
    (w : Views) (n : ℕ) (disk : Disk) (xs : List ℕ) (i : ℕ)
    → length xs ≤ i
    → free_content w n disk 1 xs i ≡ (disk, xs)
unfolding free_content
free_content-past w zero disk xs i h = refl
free_content-past w (suc n) disk xs i h = rw (le→leb (length xs) i h) refl

free_content-append :
    (w : Views) (n : ℕ) (disk : Disk) (pre rest : List ℕ)
    → length rest ≤ n
    → free_content w n disk 1 (pre ++ rest) (length pre)
      ≡ (freed disk (odd_places rest), pre ++ even_places rest)
unfolding free_content freed odd_places even_places
free_content-append w zero disk pre [] h = refl
free_content-append w (suc n) disk pre [] h =
    rw (le→leb (length (pre ++ [])) (length pre) (omega (arith, length-append pre []))) refl
free_content-append w zero disk pre (x ∷ rest) h = absurd (omega arith)
free_content-append w (suc n) disk pre (x ∷ []) h =
    rw
      (
        lt→leb_false (length (pre ++ x ∷ [])) (length pre)
            (omega (arith, length-append pre (x ∷ []))),
        get_or-append pre x [] 0,
        remove_at-append pre x [],
      )
      (free_content-past w n _ (pre ++ []) (length pre + 1) (omega (arith, length-append pre [])))
free_content-append w (suc n) disk pre (x ∷ y ∷ rest) h =
    rw
      (
        lt→leb_false (length (pre ++ x ∷ y ∷ rest)) (length pre)
            (omega (arith, length-append pre (x ∷ y ∷ rest))),
        get_or-append pre x (y ∷ rest) 0,
        remove_at-append pre x (y ∷ rest),
      )
      (let ih =
          free_content-append w n
            (convert_to_write disk (with_data (with_tag (convert disk x) free) []) x)
            (pre ++ y ∷ []) rest (omega arith) in
        let e : length (pre ++ y ∷ []) ≡ length pre + 1 = length-append pre (y ∷ []) in
        rw (← e, ← append_assoc pre (y ∷ []) rest, ← append_assoc pre (y ∷ []) (even_places rest))
          ih)

-- With one name left, `unlink` frees the blocks at the odd places, the first among them, and keeps
-- the others: they are not freed, and stay in the inode.
pub free_content_lem :
    (w : Views) (disk : Disk) (ns : List ℕ)
    → free_content w (length ns) disk 1 ns 0 ≡ (freed disk (odd_places ns), even_places ns)
free_content_lem w disk ns = free_content-append w (length ns) disk [] ns (omega arith)
