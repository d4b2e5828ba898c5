-- ===== src/Monitor.antt =====
-- init/monitor.cpp: which command a line is, and what the commands do to the disk.
use arabos.Prelude.{
  ℕ, zero, suc, ◌+◌, ◌-◌, ◌*◌, ◌/◌, ◌%◌, ◌^◌, ◌≤◌, ◌<◌, min, bit_and, bit_or, bit_xor, ◌≡◌, refl,
  sym, ap, ap₂, ◌∙◌, fun_ext, ◌≢◌, ◌↔◌, ◌⊎◌, inl, inr, Bool, true, false, not, ◌&&◌, ◌||◌, Option,
  none, some, List, [], ◌∷◌, ◌++◌, map, arith, dec_lt, ℕ_discrete, ltb, leb, ◌==◌, if◌then◌else◌,
  Bool-cases, Option-cases, ==_iff, ltb→lt, lt→ltb, leb→le, le→leb, lt→leb_false, le→ltb_false,
  ne→==_false, length, get_elem?, set, get_or, get_or-append, take, drop, replicate, length-append,
  length-set, get_elem?-set_self, get_elem?-set_ne, length-take, length-drop, take-append-drop,
  take-prefix, take-all, take-append, drop-append,
}
use arabos.Prelude.Int.{ℤ, pos, negsuc}
use arabos.Text.Compare.{strncmp, strncmp_prefix}
use arabos.Fs.Types.{Views, Fs, Reply, returns, ◌>>=◌}
use arabos.Fs.Names.{split}
use arabos.Fs.Create.{sfs_create, sfs_link, sfs_symlink, sfs_mkdir}
use arabos.Fs.Attributes.{sfs_open}
use arabos.Fs.Content.{sfs_read, sfs_write}
use arabos.Fs.Remove.{sfs_unlink, sfs_rmdir, sfs_rename, clean}
pub mod Dispatch

-- The branches of the chain of tests in `monitor`, in its order.
pub data Command : Type 0 where
  page_command : Command
  help : Command
  stack_trace : Command
  quit : Command
  create : Command
  rename : Command
  hardlink : Command
  symlink : Command
  open_file : Command
  read : Command
  write : Command
  read_link : Command
  mkdir : Command
  list : Command
  rmdir : Command
  unlink : Command
  clean_disk : Command
  status : Command
  unrecognized : Command

abbrev is_zero : ℤ → Bool
is_zero (pos zero) = true
is_zero (pos (suc n)) = false
is_zero (negsuc n) = false

-- `!strncmp(cmd, text, len)`; the texts are other objects than `cmd`.
abbrev is_command : List ℕ → List ℕ → ℕ → Bool
is_command cmd text len = is_zero (strncmp false cmd text len)

-- `!strncmp_prefix(cmd, text)`
abbrev has_prefix : List ℕ → List ℕ → Bool
has_prefix cmd text = is_zero (strncmp_prefix false cmd text)

unfoldable pub dispatch : List ℕ → Command
dispatch cmd =
    if is_command cmd (b'a' ∷ b'l' ∷ b'l' ∷ b'o' ∷ b'c' ∷ b'_' ∷ b'p' ∷ b'a' ∷ b'g' ∷ b'e' ∷ []) 10
    then page_command
    else if is_command cmd (b'h' ∷ []) 1
    then help
    else if is_command cmd (b'p' ∷ b's' ∷ b't' ∷ []) 3
    then stack_trace
    else if is_command cmd (b'q' ∷ b'u' ∷ b'i' ∷ b't' ∷ []) 4
    then quit
    else if has_prefix cmd (b'c' ∷ b'r' ∷ b'e' ∷ b'a' ∷ b't' ∷ b'e' ∷ [])
    then create
    else if has_prefix cmd (b'r' ∷ b'e' ∷ b'n' ∷ b'a' ∷ b'm' ∷ b'e' ∷ [])
    then rename
    else if has_prefix cmd (b'h' ∷ b'a' ∷ b'r' ∷ b'd' ∷ b'l' ∷ b'i' ∷ b'n' ∷ b'k' ∷ [])
    then hardlink
    else if has_prefix cmd (b's' ∷ b'y' ∷ b'm' ∷ b'l' ∷ b'i' ∷ b'n' ∷ b'k' ∷ [])
    then symlink
    else if has_prefix cmd (b'o' ∷ b'p' ∷ b'e' ∷ b'n' ∷ [])
    then open_file
    else if has_prefix cmd (b'r' ∷ b'e' ∷ b'a' ∷ b'd' ∷ [])
    then read
    else if has_prefix cmd (b'w' ∷ b'r' ∷ b'i' ∷ b't' ∷ b'e' ∷ [])
    then write
    else if has_prefix cmd (b'r' ∷ b'l' ∷ b'i' ∷ b'n' ∷ b'k' ∷ [])
    then read_link
    else if has_prefix cmd (b'm' ∷ b'k' ∷ b'd' ∷ b'i' ∷ b'r' ∷ [])
    then mkdir
    else if has_prefix cmd (b'l' ∷ b's' ∷ [])
    then list
    else if has_prefix cmd (b'r' ∷ b'm' ∷ b'd' ∷ b'i' ∷ b'r' ∷ [])
    then rmdir
    else if has_prefix cmd (b'u' ∷ b'n' ∷ b'l' ∷ b'i' ∷ b'n' ∷ b'k' ∷ [])
    then unlink
    else if has_prefix cmd (b'c' ∷ b'l' ∷ b'e' ∷ b'a' ∷ b'n' ∷ [])
    then clean_disk
    else if has_prefix cmd (b's' ∷ b't' ∷ b'a' ∷ b't' ∷ b'u' ∷ b's' ∷ [])
    then status
    else unrecognized

-- `strs[i]` of `split(cmd," ")`: an element that is not there is an empty string.
abbrev argument : List (List ℕ) → ℕ → List ℕ
argument strs i = get_or strs i []

-- `bufwrite`: "TTT", and zeros up to 100 characters
abbrev bufwrite : List ℕ
bufwrite = b'T' ∷ b'T' ∷ b'T' ∷ replicate 97 0

module _ (w : Views) (beyond : List ℕ) (fuel : ℕ) where
  -- What a line does to the disk: the reply of the operation, or none for a command that leaves the disk
  -- alone. `fh` is the handle, and `beyond` and `fuel` are those of the operations.
  unfoldable pub run_command : Fs → ℕ → List ℕ → Option (Option Reply)
  run_command fs fh cmd = elim (dispatch cmd) [
    | create ↦ (do
      strs ← split cmd (b' ' ∷ [])
      reply ← sfs_create w fs (argument strs 1) 0o777
      some (some reply))
    | rename ↦ (do
      strs ← split cmd (b' ' ∷ [])
      reply ← sfs_rename w beyond fs (argument strs 1) (argument strs 2)
      some (some reply))
    | hardlink ↦ (do
      strs ← split cmd (b' ' ∷ [])
      reply ← sfs_link w beyond fs (argument strs 1) (argument strs 2)
      some (some reply))
    | symlink ↦ (do
      strs ← split cmd (b' ' ∷ [])
      reply ← sfs_symlink w beyond fs (argument strs 1) (argument strs 2)
      some (some reply))
    | open_file ↦ (do
      strs ← split cmd (b' ' ∷ [])
      reply ← sfs_open w fs (argument strs 1)
      some (some reply))
    | read ↦ (do answer ← sfs_read w fs.disk 1 0 fh; some (some (returns (answer.0) (answer.2))))
    | write ↦ (do reply ← sfs_write w fs.disk bufwrite 3 fh; some (some reply))
    | mkdir ↦ (do
      strs ← split cmd (b' ' ∷ [])
      reply ← sfs_mkdir w beyond fs (argument strs 1) 0o777
      some (some reply))
    | rmdir ↦ (do
      strs ← split cmd (b' ' ∷ [])
      reply ← sfs_rmdir w fuel beyond fs (argument strs 1)
      some (some reply))
    | unlink ↦ (do
      strs ← split cmd (b' ' ∷ [])
      reply ← sfs_unlink w beyond fs (argument strs 1)
      some (some reply))
    | clean_disk ↦ some (some (returns (pos 0) (clean w fs.disk)))
    | _ ↦ some none
  ]
