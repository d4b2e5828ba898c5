-- ===== src/Console/Screen/Cells.antt =====
-- console/console.cpp: the cursor stays on the screen, and what a character does to the cells.
use arabos.Prelude.{
  ℕ, ◌+◌, ◌-◌, ◌*◌, ◌/◌, ◌%◌, ◌^◌, ◌≤◌, ◌<◌, bit_or, ◌≡◌, refl, ap, ◌∙◌, ◌⊎◌, inl, inr, Bool, true,
  false, List, [], ◌∷◌, ◌++◌, arith, dec_lt, ltb, leb, ◌==◌, if◌then◌else◌, lt→ltb, le→leb,
  lt→leb_false, le→ltb_false, ne→==_false, length, set, take, drop, replicate, length-append,
  length-set, length-take, length-drop, take-all,
}
use arabos.Prelude.Bits.{bit_and-le}
use arabos.Console.Screen.{
  columns, Tty, Console, scroll, cursor_bytes, update_cursor, flush_current_tty, put, wrap, putchar,
  cls, init_video,
}

pub record OnScreen (t : Tty) : Type 0 where
  pub column : t.xpos < 80
  pub line : t.ypos < 25
  pub full : length t.cells ≡ 2000

-- The screen shows the terminal, and the last bytes that were sent put the hardware cursor at its
-- position, low byte first.
pub record IsShown (k : Console) : Type 0 where
  pub on_screen : OnScreen k.tty
  pub video : k.video ≡ k.tty.cells
  pub before : List (ℕ × ℕ)
  pub lo : ℕ
  pub hi : ℕ
  pub sent : k.ports ≡ before ++ (0x3D4, 0x0F) ∷ (0x3D5, lo) ∷ (0x3D4, 0x0E) ∷ (0x3D5, hi) ∷ []
  pub position : (lo < 256) × (lo + 256 * hi ≡ k.tty.ypos * 80 + k.tty.xpos)

shown : (k : Console) → OnScreen k.tty → IsShown (flush_current_tty (update_cursor k))
unfolding flush_current_tty update_cursor cursor_bytes
shown k v = record {
  on_screen = v;
  video = take-all 2000 k.tty.cells (omega (arith, v.full));
  before = k.ports;
  lo = (k.tty.ypos * 80 + k.tty.xpos) % 256;
  hi = (k.tty.ypos * 80 + k.tty.xpos) / 256 % 256;
  sent = refl;
  position = (omega arith, omega (arith, v.line, v.column));
}

-- What `put` leaves: the column may be one that `wrap` or the tab has to mend.
record Placed (t : Tty) : Type 0 where
  column : t.xpos < 88
  line : (t.ypos < 25) ⊎ ((t.ypos ≡ 25) × (t.xpos < 80))
  full : length t.cells ≡ 2000

if_all : {A : Type 0} (P : A → Type 0) (b : Bool) (x y : A) → P x → P y → P (if b then x else y)
if_all P true x y p q = p
if_all P false x y p q = q

next_line : (t : Tty) → OnScreen t → (t.ypos + 1 < 25) ⊎ ((t.ypos + 1 ≡ 25) × (0 < 80))
next_line t v = elim (dec_lt (t.ypos + 1) 25) [
  | yes h ↦ inl h
  | no h ↦ inr (omega (arith, v.line), omega arith)
]

put-Placed : (t : Tty) (c attribute : ℕ) → OnScreen t → Placed (put t c attribute)
unfolding put
put-Placed t c attribute v =
    if_all Placed (c == 8) _ _
      (record { column = omega (arith, v.column); line = inl v.line; full = v.full })
      (if_all Placed (c == 9) _ _
        (record {
          column = omega (arith, v.column, bit_and-le (t.xpos + 8) (2 ^ 32 - 8));
          line = inl v.line;
          full = v.full;
        })
        (if_all Placed (c == 13) _ _
          (record { column = omega arith; line = inl v.line; full = v.full })
          (if_all Placed (c == 10) _ _
            (record { column = omega arith; line = next_line t v; full = v.full })
            (if_all Placed (leb 32 c) _ _
              (record {
                column = omega (arith, v.column);
                line = inl v.line;
                full = length-set t.cells (t.ypos * columns + t.xpos) _ ∙ v.full;
              })
              (record { column = omega (arith, v.column); line = inl v.line; full = v.full })))))

-- The text of a terminal that scrolls.
scrolled-full :
    (cells : List ℕ)
    → length cells ≡ 2000
    → length (take 1920 (drop 80 cells) ++ replicate 80 0x0720) ≡ 2000
scrolled-full cells e =
    let kept : length (take 1920 (drop 80 cells)) ≡ 1920 =
      omega (arith, length-take 1920 (drop 80 cells), length-drop 80 cells) in
    length-append (take 1920 (drop 80 cells)) (replicate 80 0x0720) ∙ ap (λ (n : ℕ). n + 80) kept

scroll-OnScreen : (t : Tty) → t.xpos < 80 → length t.cells ≡ 2000 → OnScreen (scroll t)
unfolding scroll
scroll-OnScreen t x e = elim (dec_lt t.ypos 25) [
  | yes h ↦ rw (lt→ltb t.ypos 25 h) (record { column = x; line = h; full = e })
  | no h ↦
      rw (le→ltb_false t.ypos 25 (omega arith))
        (record { column = x; line = omega arith; full = scrolled-full t.cells e })
]

scroll-wrap-OnScreen : (t : Tty) → Placed t → OnScreen (scroll (wrap t))
unfolding wrap
scroll-wrap-OnScreen t v = elim (dec_lt t.xpos 80) [
  | yes h ↦ rw (lt→leb_false 80 t.xpos h) (scroll-OnScreen t h v.full)
  | no h ↦
      rw (le→leb 80 t.xpos (omega arith))
        (scroll-OnScreen (record t { xpos = 0; ypos = t.ypos + 1 }) (omega arith) v.full)
]

-- With the cursor on the screen, `putchar` keeps it there, and shows what it has done: the video
-- memory has the terminal's cells, and the hardware cursor is at its position.
pub putchar-IsShown : (k : Console) (c : ℕ) → OnScreen k.tty → IsShown (putchar k c)
unfolding putchar
putchar-IsShown k c v =
    let attribute = if c / 256 % 256 == 0 then 0x07 else c / 256 % 256 in
    let t = scroll (wrap (put k.tty (c % 256) attribute)) in
    let after : Console = record k { tty = t; printed_chars = k.printed_chars + 1 } in
    shown after (
      scroll-wrap-OnScreen (put k.tty (c % 256) attribute) (put-Placed k.tty (c % 256) attribute v))

init_video-IsShown : (k : Console) → IsShown (init_video k)
unfolding init_video cls
init_video-IsShown k =
    let blank : Tty = record { xpos = 0; ypos = 0; cells = replicate 2000 0x0700 } in
    let first : Console = update_cursor (record k { tty = record k.tty { xpos = 0; ypos = 0 } }) in
    let after : Console = record first { tty = blank } in
    shown after (record { column = omega arith; line = omega arith; full = refl })

-- The cell that a position names, counted from the upper left corner.
abbrev pub place : Tty → ℕ
place t = t.ypos * 80 + t.xpos

-- What a printable character leaves: it stands in its colour where the cursor was, and the cursor
-- is one place further; in the last place, all that stands one line higher, and the cursor is at the
-- start of the last line.
pub record Printed (before after : Tty) (c : ℕ) : Type 0 where
  pub cursor : place after ≡ (if ltb (place before) 1999 then place before + 1 else 1920)
  pub text : after.cells ≡ (
      let stored = set before.cells (place before) (bit_or (c % 256) (c / 256 * 256)) in
      if ltb (place before) 1999 then stored else drop 80 stored ++ replicate 80 0x0720)

put_printable :
    (t : Tty) (c attribute : ℕ)
    → 32 ≤ c
    → put t c attribute ≡ record {
      xpos = t.xpos + 1;
      ypos = t.ypos;
      cells = set t.cells (place t) (bit_or c (attribute * 256));
    }
unfolding put
put_printable t c attribute h =
    rw
      (
        ne→==_false c 8 (λ e. omega arith),
        ne→==_false c 9 (λ e. omega arith),
        ne→==_false c 13 (λ e. omega arith),
        ne→==_false c 10 (λ e. omega arith),
        le→leb 32 c h,
      )
      refl

-- With the cursor on the screen, a character from the space on, with a colour other than 0, is stored in its colour at the cursor,
-- which moves on by one place; in the last place of the screen the text then moves up by a line.
putchar-Printed :
    (k : Console) (c : ℕ)
    → OnScreen k.tty
    → 32 ≤ c % 256
    → 0 < c / 256
    → c < 2 ^ 16
    → Printed k.tty (putchar k c).tty c
unfolding putchar
putchar-Printed k c v h a small =
    let t = k.tty in
    let cells : List ℕ = set t.cells (place t) (bit_or (c % 256) (c / 256 * 256)) in
    let given : c / 256 % 256 ≡ c / 256 = omega arith in
    rw (given, ne→==_false (c / 256) 0 (λ e. omega arith), put_printable t (c % 256) (c / 256) h)
      (elim (dec_lt t.xpos 79) [
        | yes inside ↦
            rw (lt→leb_false 80 (t.xpos + 1) (omega arith), lt→ltb t.ypos 25 v.line)
              (record {
                cursor = let more : place t < 1999 = omega (arith, v.line) in ground (arith, more);
                text =
                    let more : place t < 1999 = omega (arith, v.line) in
                    rw (lt→ltb (place t) 1999 more) refl;
              })
        | no edge ↦ elim (dec_lt t.ypos 24) [
          | yes above ↦
              rw (le→leb 80 (t.xpos + 1) (omega arith), lt→ltb (t.ypos + 1) 25 (omega arith))
                (record {
                  cursor =
                      let more : place t < 1999 = omega (arith, v.column) in
                      ground (arith, more, v.column);
                  text =
                      let more : place t < 1999 = omega (arith, v.column) in
                      rw (lt→ltb (place t) 1999 more) refl;
                })
          | no last ↦
              let corner : place t ≡ 1999 = omega (arith, v.line, v.column) in
              let kept : length (drop 80 cells) ≡ 1920 = omega (
                arith,
                length-drop 80 cells,
                length-set t.cells (place t) (bit_or (c % 256) (c / 256 * 256)),
                v.full,
              ) in
              rw (le→leb 80 (t.xpos + 1) (omega arith), le→ltb_false (t.ypos + 1) 25 (omega arith))
                (record {
                  cursor = ground (arith, corner);
                  text = rw (le→ltb_false (place t) 1999 (omega arith)) (
                      ap (λ (l : List ℕ). l ++ replicate 80 0x0720)
                        (take-all 1920 (drop 80 cells) (omega arith)));
                })
        ]
      ])
