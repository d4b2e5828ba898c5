-- ===== src/Console/Screen.antt =====
-- console/console.cpp and include/console.h: the one terminal and the screen that shows it.
pub mod Cells
use arabos.Prelude.{
  ℕ, zero, suc, ◌+◌, ◌-◌, ◌*◌, ◌/◌, ◌%◌, ◌^◌, ◌≤◌, ◌<◌, min, bit_and, bit_or, bit_xor, ◌≡◌, refl,
  sym, ap, ap₂, ◌∙◌, fun_ext, ◌≢◌, ◌↔◌, ◌⊎◌, inl, inr, Bool, true, false, not, ◌&&◌, ◌||◌, Option,
  none, some, List, [], ◌∷◌, ◌++◌, map, arith, dec_lt, ℕ_discrete, ltb, leb, ◌==◌, if◌then◌else◌,
  Bool-cases, Option-cases, ==_iff, ltb→lt, lt→ltb, leb→le, le→leb, lt→leb_false, le→ltb_false,
  ne→==_false, length, get_elem?, set, get_or, get_or-append, take, drop, replicate, length-append,
  length-set, get_elem?-set_self, get_elem?-set_ne, length-take, length-drop, take-append-drop,
  take-prefix, take-all, take-append, drop-append,
}

abbrev pub columns : ℕ
columns = 80

abbrev pub lines : ℕ
lines = 25

pub record Tty : Type 0 where
  pub xpos : ℕ
  pub ypos : ℕ
  pub cells : List ℕ

-- The terminal, the words at VIDEO, what was sent to the ports, and the count of characters.
pub record Console : Type 0 where
  pub tty : Tty
  pub video : List ℕ
  pub ports : List (ℕ × ℕ)
  pub printed_chars : ℕ

-- The two block operations move the text up by a line, from the low addresses on, and clear the last line.
unfoldable pub scroll : Tty → Tty
scroll t = if ltb t.ypos lines then t else record {
  xpos = t.xpos;
  ypos = lines - 1;
  cells = take (columns * (lines - 1)) (drop columns t.cells) ++ replicate columns 0x0720;
}

-- The bytes that are sent to the controller's ports.
unfoldable pub cursor_bytes : Tty → List (ℕ × ℕ)
cursor_bytes t =
    let temp = t.ypos * columns + t.xpos in
    (0x3D4, 0x0F) ∷ (0x3D5, temp % 256) ∷ (0x3D4, 0x0E) ∷ (0x3D5, temp / 256 % 256) ∷ []

unfoldable pub update_cursor : Console → Console
unfolding cursor_bytes
update_cursor c = record c { ports = c.ports ++ cursor_bytes c.tty }

unfoldable pub flush_current_tty : Console → Console
flush_current_tty c = record c { video = take (columns * lines) c.tty.cells }

-- What `putchar` does with the character `c` before it looks at the edge.
unfoldable pub put : Tty → ℕ → ℕ → Tty
put t c attribute =
    if c == 8
    then record t { xpos = t.xpos - 1 }
    else if c == 9
    then record t { xpos = bit_and (t.xpos + 8) (2 ^ 32 - 8) }
    else if c == 13
    then record t { xpos = 0 }
    else if c == 10
    then record t { xpos = 0; ypos = t.ypos + 1 }
    else if leb 32 c
    then record t {
      xpos = t.xpos + 1;
      cells = set t.cells (t.ypos * columns + t.xpos) (bit_or c (attribute * 256));
    }
    else t

unfoldable pub wrap : Tty → Tty
wrap t = if leb columns t.xpos then record t { xpos = 0; ypos = t.ypos + 1 } else t

unfoldable pub putchar : Console → ℕ → Console
unfolding put wrap scroll update_cursor flush_current_tty
putchar k c =
    let given = c / 256 % 256 in
    let attribute = if given == 0 then 0x07 else given in
    flush_current_tty (
      update_cursor (record k {
        tty = scroll (wrap (put k.tty (c % 256) attribute));
        printed_chars = k.printed_chars + 1;
      }))

unfoldable pub cls : Console → Console
unfolding update_cursor flush_current_tty
cls k = flush_current_tty (
    update_cursor (record k {
      tty = record { xpos = 0; ypos = 0; cells = replicate (columns * lines) 0x0700 };
    }))

unfoldable pub init_video : Console → Console
unfolding update_cursor cls
init_video k = cls (update_cursor (record k { tty = record k.tty { xpos = 0; ypos = 0 } }))
