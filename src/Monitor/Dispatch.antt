-- ===== src/Monitor/Dispatch.antt =====
-- init/monitor.cpp: a line that starts with a command's name is that command.
use arabos.Prelude.{ℕ, ◌≡◌, refl, List, [], ◌∷◌, ◌++◌, map}
use arabos.Monitor.{
  Command, create, rename, hardlink, symlink, open_file, read, write, read_link, mkdir, list, rmdir,
  unlink, clean_disk, status, dispatch,
}
use arabos.Text.Compare.{compare_loop, strncmp, strncmp_prefix, prefix_loop, strnlen, char_diff}

-- A command that takes arguments, and its name.
pub record Named : Type 0 where
  pub name : List ℕ
  pub command : Command

abbrev pub named_commands : List Named
named_commands =
    record { name = b'c' ∷ b'r' ∷ b'e' ∷ b'a' ∷ b't' ∷ b'e' ∷ []; command = create }
    ∷ record { name = b'r' ∷ b'e' ∷ b'n' ∷ b'a' ∷ b'm' ∷ b'e' ∷ []; command = rename }
    ∷ record {
      name = b'h' ∷ b'a' ∷ b'r' ∷ b'd' ∷ b'l' ∷ b'i' ∷ b'n' ∷ b'k' ∷ [];
      command = hardlink;
    }
    ∷ record { name = b's' ∷ b'y' ∷ b'm' ∷ b'l' ∷ b'i' ∷ b'n' ∷ b'k' ∷ []; command = symlink }
    ∷ record { name = b'o' ∷ b'p' ∷ b'e' ∷ b'n' ∷ []; command = open_file }
    ∷ record { name = b'r' ∷ b'e' ∷ b'a' ∷ b'd' ∷ []; command = read }
    ∷ record { name = b'w' ∷ b'r' ∷ b'i' ∷ b't' ∷ b'e' ∷ []; command = write }
    ∷ record { name = b'r' ∷ b'l' ∷ b'i' ∷ b'n' ∷ b'k' ∷ []; command = read_link }
    ∷ record { name = b'm' ∷ b'k' ∷ b'd' ∷ b'i' ∷ b'r' ∷ []; command = mkdir }
    ∷ record { name = b'l' ∷ b's' ∷ []; command = list }
    ∷ record { name = b'r' ∷ b'm' ∷ b'd' ∷ b'i' ∷ b'r' ∷ []; command = rmdir }
    ∷ record { name = b'u' ∷ b'n' ∷ b'l' ∷ b'i' ∷ b'n' ∷ b'k' ∷ []; command = unlink }
    ∷ record { name = b'c' ∷ b'l' ∷ b'e' ∷ b'a' ∷ b'n' ∷ []; command = clean_disk }
    ∷ record { name = b's' ∷ b't' ∷ b'a' ∷ b't' ∷ b'u' ∷ b's' ∷ []; command = status }
    ∷ []

-- Whatever follows its name, `dispatch` finds each of the commands that are tested by their prefix: none
-- is hidden by a test before its own.
dispatch-named :
    (rest : List ℕ)
    → map (λ (n : Named). dispatch (n.name ++ rest)) named_commands
      ≡ map (λ (n : Named). n.command) named_commands
unfolding dispatch strncmp strncmp_prefix compare_loop prefix_loop strnlen char_diff
dispatch-named [] = refl
dispatch-named (x ∷ xs) = refl
