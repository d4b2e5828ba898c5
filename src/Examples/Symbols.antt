-- ===== src/Examples/Symbols.antt =====
-- A table of debugging symbols, and searches in it.
use arabos.Prelude.{ℕ, ◌*◌, ◌≡◌, refl, some, List, [], ◌∷◌, arith, get_or}
use arabos.Debug.{
  Stab, rank, Range, seek, seek_loop, round, compare_with, go_up, go_down, middle, last_before,
  first_from, finish,
}
use arabos.Debug.Lines.{
  stab_data, located, file_found, in_file, function_found, in_function, line_found, name_line,
  name_file, back_up,
}
use arabos.Debug.Ends.{Bounds, seek-ends}
use arabos.Debug.Exact.{Ascending, seek-exact}

-- A function every 16 bytes.
abbrev functions : ℕ → Stab
functions i = record { n_strx = i; n_type = 0x24; n_other = 0; n_desc = 0; n_value = 16 * i }

functions-Ascending : Ascending functions 0x24 0 8
unfolding rank
functions-Ascending i j a b c e f = omega arith

seek-exact_example : (r : Range) × (seek functions 0x24 9 48 0 8 ≡ some r) × (r.low ≡ some 3)
seek-exact_example =
    seek-exact functions 0x24 9 0 8 3 functions-Ascending (omega arith) (omega arith) refl
      (omega arith)

-- The address is in the function number 3.

seek-ends_example : (r : Range) × (seek functions 0x44 9 50 0 8 ≡ some r) × Bounds 0 8 r.low r.high
seek-ends_example = seek-ends functions 0x44 50 9 0 8 (omega arith) (omega arith)

-- A file with one function of two lines.
abbrev program : List Stab
program =
    record { n_strx = 1; n_type = 0x64; n_other = 0; n_desc = 0; n_value = 4096 }
    ∷ record { n_strx = 2; n_type = 0x24; n_other = 0; n_desc = 0; n_value = 4096 }
    ∷ record { n_strx = 0; n_type = 0x44; n_other = 0; n_desc = 7; n_value = 4 }
    ∷ record { n_strx = 0; n_type = 0x44; n_other = 0; n_desc = 8; n_value = 9 }
    ∷ []

abbrev table : ℕ → Stab
table i = get_or program i (record { n_strx = 0; n_type = 0; n_other = 0; n_desc = 0; n_value = 1 })

-- The return address is that of the second line: the call is on the first.
called_from : stab_data table 9 4 4105 ≡ located 1 2 7
unfolding stab_data file_found in_file function_found in_function line_found name_line name_file
    back_up seek seek_loop round compare_with go_up go_down middle last_before first_from finish
    rank
called_from = refl
