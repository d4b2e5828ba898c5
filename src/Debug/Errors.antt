-- ===== src/Debug/Errors.antt =====
-- lib/debug.cpp: which of its ends `stab_data` comes to.
use arabos.Prelude.{ℕ, ◌≡◌}
use arabos.Debug.{Stab}
use arabos.Debug.Lines.{Located, no_file, no_method, no_line, outside, unfinished, located}

-- The names and the line are those of stabs.
pub record OfStabs (t : ℕ → Stab) (file function line : ℕ) : Type 0 where
  pub file_stab : ℕ
  pub function_stab : ℕ
  pub line_stab : ℕ
  pub file_name : file ≡ (t file_stab).n_strx
  pub function_name : function ≡ (t function_stab).n_strx
  pub line_number : line ≡ (t line_stab).n_desc

-- Names are printed, or memory outside of the table is read.
abbrev pub IsNamed : (ℕ → Stab) → Located → Type 0
IsNamed t no_file = ⊥
IsNamed t no_method = ⊥
IsNamed t no_line = ⊥
IsNamed t unfinished = ⊥
IsNamed t outside = Unit
IsNamed t (located file function line) = OfStabs t file function line
