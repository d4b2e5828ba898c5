-- ===== src/Fs/Lookup/First.antt =====
-- fs/file_t.cpp, HDD::search: the first free blocks of a disk.
use arabos.Prelude.{
  ℕ, zero, suc, ◌+◌, ◌-◌, ◌/◌, ◌≤◌, ◌<◌, ◌≡◌, refl, ◌∙◌, inl, inr, true, List, [], ◌∷◌, arith,
  Bool-cases, length,
}
use arabos.Fs.Types.{Disk, convert, is_free}
use arabos.Fs.Lookup.{hdd_search}
use arabos.Fs.Lookup.Free.{free_from, hdd_search_lem}

-- Free blocks of `disk`, in order, from `lo` and below `hi`.
abbrev FreeBlocks : Disk → ℕ → ℕ → List ℕ → Type 0
FreeBlocks disk lo hi [] = Unit
FreeBlocks disk lo hi (n ∷ ns) =
    (lo ≤ n) × (n < hi) × (is_free (convert disk n).tag ≡ true) × FreeBlocks disk (n + 1) hi ns

FreeBlocks-weaken :
    (disk : Disk) (lo lo' hi : ℕ) (ns : List ℕ)
    → lo' ≤ lo
    → FreeBlocks disk lo hi ns
    → FreeBlocks disk lo' hi ns
FreeBlocks-weaken disk lo lo' hi [] h p = tt
FreeBlocks-weaken disk lo lo' hi (n ∷ ns) h p = (omega arith, p.1, p.2, p.3)

free_from-FreeBlocks :
    (disk : Disk) (n i hi : ℕ) → i + n ≤ hi → FreeBlocks disk i hi (free_from disk n i)
unfolding free_from
free_from-FreeBlocks disk zero i hi h = tt
free_from-FreeBlocks disk (suc n) i hi h = elim (Bool-cases (is_free (convert disk i).tag)) [
  | inl so ↦
      rw so (omega arith, omega arith, so, free_from-FreeBlocks disk n (i + 1) hi (omega arith))
  | inr not_so ↦ rw not_so (
      FreeBlocks-weaken disk (i + 1) i hi _ (omega arith)
        (free_from-FreeBlocks disk n (i + 1) hi (omega arith)))
]

-- The two blocks that a search for two blocks returns.
pub record TwoFree (disk : Disk) : Type 0 where
  pub a : ℕ
  pub b : ℕ
  pub both : hdd_search disk 1024 ≡ a ∷ b ∷ []
  pub order : (a < b) × (b < 10)
  pub a_free : is_free (convert disk a).tag ≡ true
  pub b_free : is_free (convert disk b).tag ≡ true

pub two_free : (disk : Disk) → 2 ≤ length (free_from disk 10 0) → TwoFree disk
two_free disk h = go (free_from disk 10 0) refl h (free_from-FreeBlocks disk 10 0 10 (omega arith))
  where
    go :
        (ns : List ℕ)
        → free_from disk 10 0 ≡ ns
        → 2 ≤ length ns
        → FreeBlocks disk 0 10 ns
        → TwoFree disk
    go [] e k p = absurd (omega arith)
    go (n ∷ []) e k p = absurd (omega arith)
    go (n ∷ m ∷ ns) e k p = record {
      a = n;
      b = m;
      both = hdd_search_lem disk 1024 (omega arith) (omega arith) ∙ rw e;
      order = (omega arith, omega arith);
      a_free = p.2;
      b_free = p.3.2;
    }

-- The block that a search for one block returns.
pub record OneFree (disk : Disk) (size : ℕ) : Type 0 where
  pub a : ℕ
  pub first : hdd_search disk size ≡ a ∷ []
  pub a_free : is_free (convert disk a).tag ≡ true

pub one_free :
    (disk : Disk) (size : ℕ)
    → 0 < size
    → size ≤ 512
    → 1 ≤ length (free_from disk 10 0)
    → OneFree disk size
one_free disk size h small room =
    go (free_from disk 10 0) refl room (free_from-FreeBlocks disk 10 0 10 (omega arith))
  where
    go :
        (ns : List ℕ)
        → free_from disk 10 0 ≡ ns
        → 1 ≤ length ns
        → FreeBlocks disk 0 10 ns
        → OneFree disk size
    go [] e k p = absurd (omega arith)
    go (n ∷ ns) e k p =
        let one : (size - 1) / 512 + 1 ≡ 1 = omega arith in
        record {
          a = n;
          first = hdd_search_lem disk size h (omega arith) ∙ rw (one, e) refl;
          a_free = p.2;
        }
