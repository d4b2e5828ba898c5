-- ===== src/Examples/Vectors.antt =====
-- Vectors of numbers and pointers that share objects, and calls of their member functions.
use arabos.Prelude.{
  ℕ, ◌≡◌, refl, true, false, none, List, [], ◌∷◌, arith, ◌-◌, zero, ◌<◌, ◌+◌, ◌*◌, ◌/◌, some, suc,
  get_elem?,
}
use arabos.Stl.Cells.{Cells}
use arabos.Stl.Cells.Refine.{Does, all_on_cells, all_on_elements, all_on_cells-Does}
use arabos.Stl.StaticVector.Ranges.{string_insert_range}
use arabos.Stl.StaticVector.Inserts.{string_insert_range_lem}
use arabos.Stl.StaticVector.{erase_range}
use arabos.Stl.StaticVector.Erases.{erase_range_lem}
use arabos.Stl.SharedPtr.{Pointers, construct, share, copy_construct, destruct, release, inc, dec}
use arabos.Stl.SharedPtr.Safe.{
  constructing, copying, destructing, Reached, nothing_yet, used, named-live,
}
use arabos.Stl.Vector.{insert_range, Vector, ok, guarantee_capacity, grown, empty_vector}
use arabos.Stl.Vector.Iterators.{check_bounds, to_const, begin_of, end_of}
use arabos.Stl.Vector.Iterators.Walk.{each}
use arabos.Stl.ReverseIterator.{rbegin_of, rend_of}
use arabos.Stl.ReverseIterator.Walk.{each_back, both_ways}
use arabos.Stl.Vector.Iterators.Stale.{IsReported, says_invalid, invalidated}
use arabos.Stl.Vector.Ranges.{insert_range-empty}
use arabos.Stl.Vector.Refine.{
  Call, pushing, inserting, erasing, calls, all_on_list, Goes, calls-refine,
}

abbrev three : Vector ℕ
three = record { elements = 1 ∷ 2 ∷ 3 ∷ []; capacity = 3; version = 4 }

-- Nine elements, one more than a new vector has room for, and one of them taken out.
abbrev script : List (Call ℕ)
script =
    pushing 1
    ∷ pushing 2
    ∷ pushing 3
    ∷ pushing 4
    ∷ pushing 5
    ∷ pushing 6
    ∷ pushing 7
    ∷ pushing 8
    ∷ inserting 4 9
    ∷ erasing 0
    ∷ []

calls-refine_example : Goes (all_on_list script []) 10 (calls script empty_vector)
calls-refine_example = calls-refine script (omega arith)

abbrev no_pointers : Pointers
no_pointers = record { use_count = λ p. 0; live = λ p. false; fresh = 0; vars = λ i. none }

-- Variable 1 is a copy of variable 0, whose life then ends.
abbrev survivor : Pointers
survivor = destruct (share (construct no_pointers 0) 1 0) 0

survivor-Reached : Reached 2 3 survivor
unfolding construct share copy_construct destruct release inc dec
survivor-Reached =
    used (destructing 0) refl
      (used (copying 1 0) refl (used (constructing 0) refl nothing_yet refl) refl) refl

named-live_example : survivor.live 0 ≡ true
unfolding construct share copy_construct destruct release inc dec
named-live_example = named-live 1 0 survivor-Reached (omega arith) (omega arith) refl

-- An array of four cells that get more than four elements, and lose one.
abbrev four_cells : Cells ℕ
four_cells = record { m_array = λ i. 0; m_size = 0 }

abbrev crowded : List (Call ℕ)
crowded = pushing 1 ∷ pushing 2 ∷ inserting 1 3 ∷ pushing 4 ∷ inserting 0 5 ∷ erasing 2 ∷ []

all_on_cells-Does_example :
    Does 4 four_cells (all_on_cells 0 4 crowded four_cells) (all_on_elements 4 crowded [])
all_on_cells-Does_example = all_on_cells-Does 0 4 crowded four_cells (omega arith) (omega arith)

string_insert_range_lem_example :
    string_insert_range {A = ℕ} 5 (1 ∷ 2 ∷ []) 1 (7 ∷ 8 ∷ 9 ∷ []) ≡ 1 ∷ 9 ∷ 8 ∷ 7 ∷ 2 ∷ []
string_insert_range_lem_example = string_insert_range_lem 5 (1 ∷ 2 ∷ []) 1 (7 ∷ 8 ∷ 9 ∷ [])

-- The range is 2, 3.
erase_range_lem_example : erase_range {A = ℕ} (1 ∷ 2 ∷ 3 ∷ 4 ∷ 5 ∷ []) 1 3 ≡ 1 ∷ 3 ∷ 5 ∷ []
erase_range_lem_example = erase_range_lem (1 ∷ []) (2 ∷ 3 ∷ 4 ∷ 5 ∷ []) 2

-- The elements of `three`, four bytes each, from 4096 on.
abbrev words : ℕ → ℕ
words a = (a - 4096) / 4 + 1

words_lem : (i : ℕ) → i < 3 → get_elem? (1 ∷ 2 ∷ 3 ∷ []) i ≡ some (words (4096 + 4 * i))
words_lem zero h = refl
words_lem (suc zero) h = refl
words_lem (suc (suc zero)) h = refl
words_lem (suc (suc (suc i))) h = absurd (omega arith)

abbrev enlarged : Vector ℕ
enlarged = record { elements = 1 ∷ 2 ∷ 3 ∷ []; capacity = 9; version = 5 }

three_grows : guarantee_capacity three 4 ≡ ok enlarged
unfolding guarantee_capacity grown
three_grows = refl

invalidated_example :
    IsReported 5 4 (begin_of three 4 4096).iterator 2
    × (says_invalid (to_const 5 (begin_of three 4 4096).iterator).reports ≡ false)
    × (check_bounds 5 (to_const 5 (begin_of three 4 4096).iterator).iterator
        ≡ (to_const 5 (begin_of three 4 4096).iterator).reports)
invalidated_example = invalidated three enlarged 4 4 4096 2 three_grows (omega arith)

both_ways_example :
    (each 4 4 words 4 (begin_of three 4 4096).iterator (end_of three 4 4096).iterator
      ≡ some (record { elements = 1 ∷ 2 ∷ 3 ∷ []; reports = [] }))
    × (each_back 4 4 words 4 (rbegin_of three 4 4096).iterator (rend_of three 4 4096).iterator
        ≡ some (record { elements = 3 ∷ 2 ∷ 1 ∷ []; reports = [] }))
both_ways_example = both_ways three 4 4096 words (omega arith) (omega arith) (omega arith) words_lem

insert_range-empty_example :
    (v : Vector ℕ) × (insert_range empty_vector 0 (1 ∷ 2 ∷ 3 ∷ []) ≡ ok v)
    × (v.elements ≡ 2 ∷ 3 ∷ 1 ∷ [])
insert_range-empty_example = insert_range-empty 1 (2 ∷ 3 ∷ []) (omega arith)
