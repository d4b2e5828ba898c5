-- ===== src/Debug/Lines.antt =====
-- lib/debug.cpp: `stab_data`, which names the source line of an address, and `print_stack_trace`. The
-- table has at least one stab, the number `last` included.
use arabos.Prelude.{
  ℕ, zero, suc, ◌+◌, ◌-◌, ◌%◌, ◌^◌, Bool, false, not, ◌&&◌, ◌||◌, Option, none, some, List, [], ◌∷◌,
  ltb, ◌==◌, if◌then◌else◌,
}
use arabos.Debug.{Stab, Range, seek}

abbrev n_fun : ℕ
n_fun = 0x24

abbrev n_sline : ℕ
n_sline = 0x44

abbrev n_so : ℕ
n_so = 0x64

abbrev n_sol : ℕ
n_sol = 0x84

-- What `stab_data` prints: one of its three errors, or the names, by their places in the table of
-- strings, and the line. `outside` is a read that is not in the table, `unfinished` fuel that ran out.
pub data Located : Type 0 where
  no_file : Located
  no_method : Located
  no_line : Located
  outside : Located
  unfinished : Located
  located : (file function line : ℕ) → Located

-- `low > high`, where `none` is -1.
abbrev pub crossed : Option ℕ → ℕ → Bool
crossed none high = false
crossed (some low) high = ltb high low

module _ (t : ℕ → Stab) where
  -- The `while` that goes back to the stab of a file.
  unfoldable pub back_up : ℕ → ℕ → Option ℕ
  back_up lfile zero = if (t 0).n_value == 0 then none else some 0
  back_up lfile (suc n) =
      let rest = back_up lfile n in
      let type = (t (suc n)).n_type in
      if (ltb lfile (suc n) && not (type == n_so) && not (type == n_sol))
        || (t (suc n)).n_value == 0
      then rest
      else some (suc n)

  unfoldable pub name_file : ℕ → ℕ → ℕ → Option ℕ → Located
  name_file lfile lfun line none = outside
  name_file lfile lfun line (some lline) =
      if ltb lfile lline && ltb 0 (t lline).n_strx
      then located (t lline).n_strx (t lfun).n_strx line
      else located (t lfile).n_strx (t lfun).n_strx line

  -- From the stab of the line on, the one before which has the number.
  unfoldable pub name_line : ℕ → ℕ → Option ℕ → Located
  name_line lfile lfun none = outside
  name_line lfile lfun (some zero) = outside
  name_line lfile lfun (some (suc n)) =
      name_file lfile lfun (t n).n_desc (back_up lfile (suc n + 2))

  -- The second search for the line, by the address itself.
  unfoldable pub line_again : ℕ → ℕ → Option Range → Located
  line_again lfile lfun none = unfinished
  line_again lfile lfun (some r) =
      if crossed r.low r.high then no_line else name_line lfile lfun r.low

  unfoldable pub line_found : ℕ → ℕ → ℕ → ℕ → ℕ → Option Range → Located
  line_found fuel eip lfile lfun hfun none = unfinished
  line_found fuel eip lfile lfun hfun (some r) =
      if crossed r.low r.high
      then line_again lfile lfun (seek t n_sline fuel eip lfun hfun)
      else name_line lfile lfun r.low

  unfoldable pub in_function : ℕ → ℕ → ℕ → Option ℕ → ℕ → Located
  in_function fuel eip lfile none hfun = outside
  in_function fuel eip lfile (some lfun) hfun =
      line_found fuel eip lfile lfun hfun
        (seek t n_sline fuel ((eip + 2 ^ 32 - (t lfun).n_value) % 2 ^ 32) lfun hfun)

  unfoldable pub function_found : ℕ → ℕ → ℕ → Option Range → Located
  function_found fuel eip lfile none = unfinished
  function_found fuel eip lfile (some r) =
      if crossed r.low r.high then no_method else in_function fuel eip lfile r.low r.high

  unfoldable pub in_file : ℕ → ℕ → Option ℕ → ℕ → Located
  in_file fuel eip none hfile = outside
  in_file fuel eip (some lfile) hfile =
      function_found fuel eip lfile (seek t n_fun fuel eip lfile hfile)

  unfoldable pub file_found : ℕ → ℕ → Option Range → Located
  file_found fuel eip none = unfinished
  file_found fuel eip (some r) =
      if crossed r.low r.high then no_file else in_file fuel eip r.low r.high

  -- `count` is the number of stabs. Without any, `seek` reads what is not in the table.
  unfoldable pub stab_data : ℕ → ℕ → ℕ → Located
  stab_data fuel zero eip = outside
  stab_data fuel (suc last) eip = file_found fuel eip (seek t n_so fuel eip 0 last)

-- The return addresses that `print_stack_trace` prints, along the chain of saved frames; no result when
-- the fuel runs out.
unfoldable pub return_addresses : ℕ → (ℕ → ℕ) → ℕ → Option (List ℕ)
return_addresses zero words ebp = none
return_addresses (suc fuel) words ebp =
    let rest = return_addresses fuel words (words ebp) in
    if ebp == 0
    then some []
    else elim rest [ none ↦ none | some r ↦ some (words ((ebp + 4) % 2 ^ 32) ∷ r) ]
