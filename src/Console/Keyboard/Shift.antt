-- ===== src/Console/Keyboard/Shift.antt =====
-- console/kb.cpp: which of the two tables is in use.
use arabos.Prelude.{
  ℕ, ◌%◌, ◌≤◌, ◌<◌, bit_and, ◌≡◌, refl, sym, ap, ◌∙◌, ◌≢◌, inl, inr, Bool, true, false, not, ◌&&◌,
  ◌||◌, List, [], ◌∷◌, arith, dec_lt, ltb, leb, ◌==◌, if◌then◌else◌, Bool-cases, ==_iff, lt→ltb,
  le→ltb_false, ne→==_false,
}
use mathlib.Core.Path.{subst}
use arabos.Prelude.Below.{holds_to, holds_to_lem}
use arabos.Console.Keyboard.{
  Keyboard, at_boot, key_of, is_shift, readline_handler, read_key, keyboard_handler,
}

-- The left and the right shift key, in both tables.
abbrev pub is_shift_code : ℕ → Bool
is_shift_code code = code == 42 || code == 54

agrees : Bool → ℕ → Bool
agrees shifted code =
    if is_shift (key_of shifted code) then is_shift_code code else not (is_shift_code code)

table_us : holds_to (agrees false) 127 ≡ true
unfolding holds_to agrees is_shift key_of
table_us = refl

table_shift : holds_to (agrees true) 127 ≡ true
unfolding holds_to agrees is_shift key_of
table_shift = refl

not-true : (b : Bool) → not b ≡ true → b ≡ false
not-true true h = cc
not-true false h = refl

from_agrees :
    (shifted : Bool) (code : ℕ)
    → agrees shifted code ≡ true
    → is_shift (key_of shifted code) ≡ is_shift_code code
unfolding agrees
from_agrees shifted code h = elim (Bool-cases (is_shift (key_of shifted code))) [
  | inl e ↦
      rw e
        (sym (subst (λ b. (if b then is_shift_code code else not (is_shift_code code)) ≡ true) e h))
  | inr e ↦ rw e (
      sym (
        not-true (is_shift_code code)
          (subst (λ b. (if b then is_shift_code code else not (is_shift_code code)) ≡ true) e h)))
]

is_shift-key_of :
    (shifted : Bool) (code : ℕ) → code < 128 → is_shift (key_of shifted code) ≡ is_shift_code code
is_shift-key_of false code h =
    from_agrees false code (holds_to_lem (agrees false) 127 code (omega arith) table_us)
is_shift-key_of true code h =
    from_agrees true code (holds_to_lem (agrees true) 127 code (omega arith) table_shift)

-- The state of the shift keys after a scancode, by the manual: a key sends its code when it is
-- pressed, and its code plus 128 when it is released.
abbrev pub held_after : Bool → ℕ → Bool
held_after held scancode = if is_shift_code (scancode % 128) then ltb scancode 128 else held

-- The two globals say the same.
pub record Shows (k : Keyboard) (held : Bool) : Type 0 where
  pub table : k.shifted ≡ held
  pub flag : k.shift ≡ (if held then 1 else 0)

readline_handler-shifted : (k : Keyboard) (c : ℕ) → (readline_handler k c).shifted ≡ k.shifted
unfolding readline_handler read_key
readline_handler-shifted k c = ground arith

readline_handler-shift : (k : Keyboard) (c : ℕ) → (readline_handler k c).shift ≡ k.shift
unfolding readline_handler read_key
readline_handler-shift k c = ground arith

-- The bit that says released, and the code without it.
splits : ℕ → Bool
splits scancode =
    (if bit_and scancode 128 == 0 then ltb scancode 128 else leb 128 scancode)
    && bit_and scancode 127 == scancode % 128

splits_table : holds_to splits 255 ≡ true
unfolding holds_to splits
splits_table = refl

pressed_lem : (x : ℕ) → x < 128 → bit_and x 128 ≡ 0
unfolding splits
pressed_lem x h = ground (arith, holds_to_lem splits 255 x (omega arith) splits_table)

released_lem : (x : ℕ) → 128 ≤ x → x < 256 → (bit_and x 128 ≢ 0) × (bit_and x 127 ≡ x % 128)
unfolding splits
released_lem x l h =
    let t = holds_to_lem splits 255 x (omega arith) splits_table in
    (ground (arith, t), ground (arith, t))

-- A status byte, and the scancode that goes with it.
pub record Scan : Type 0 where
  pub status : ℕ
  pub scancode : ℕ

-- The handler, once for each interrupt.
abbrev pub scans : Keyboard → List Scan → Keyboard
scans k [] = k
scans k (s ∷ rest) = scans (keyboard_handler k s.status s.scancode) rest

-- The state of the shift keys after the same interrupts, of which those without data do not count.
abbrev pub held_by : Bool → List Scan → Bool
held_by held [] = held
held_by held (s ∷ rest) =
    held_by (if bit_and s.status 1 == 0 then held else held_after held s.scancode) rest

abbrev pub all_bytes : List Scan → Bool
all_bytes [] = true
all_bytes (s ∷ rest) = ltb s.scancode 256 && all_bytes rest

keyboard_handler-pressed :
    (k : Keyboard) (status x : ℕ)
    → (bit_and status 1 == 0) ≡ false
    → x < 128
    → Shows k k.shifted
    → Shows (keyboard_handler k status x) (held_after k.shifted x)
unfolding keyboard_handler
keyboard_handler-pressed k status x d h s =
    let p = (==_iff (bit_and x 128) 0).1 (pressed_lem x h) in
    let m : x % 128 ≡ x = omega arith in
    let code = is_shift-key_of k.shifted x h in
    elim (Bool-cases (is_shift_code x)) [
      | inl e ↦ rw (d, p, code, m, e, lt→ltb x 128 h) (record { table = refl; flag = refl })
      | inr e ↦
          rw (d, p, code, m, e)
            (record {
              table = readline_handler-shifted k (key_of k.shifted x);
              flag = readline_handler-shift k (key_of k.shifted x) ∙ s.flag;
            })
    ]

keyboard_handler-released :
    (k : Keyboard) (status x : ℕ)
    → (bit_and status 1 == 0) ≡ false
    → 128 ≤ x
    → x < 256
    → Shows k k.shifted
    → Shows (keyboard_handler k status x) (held_after k.shifted x)
unfolding keyboard_handler
keyboard_handler-released k status x d l h s =
    let r = released_lem x l h in
    let p = ne→==_false (bit_and x 128) 0 r.0 in
    let code = is_shift-key_of k.shifted (x % 128) (omega arith) in
    elim (Bool-cases (is_shift_code (x % 128))) [
      | inl e ↦ rw (d, p, r.1, code, e, le→ltb_false x 128 l) (record { table = refl; flag = refl })
      | inr e ↦ rw (d, p, r.1, code, e) s
    ]

keyboard_handler-no_data :
    (k : Keyboard) (status x : ℕ) → (bit_and status 1 == 0) ≡ true → keyboard_handler k status x ≡ k
unfolding keyboard_handler
keyboard_handler-no_data k status x d = rw d refl

by_data :
    (k : Keyboard) (status x : ℕ)
    → x < 256
    → Shows k k.shifted
    → Shows
        (keyboard_handler k status x)
        (if bit_and status 1 == 0 then k.shifted else held_after k.shifted x)
by_data k status x h s = elim (Bool-cases (bit_and status 1 == 0)) [
  | inl e ↦ rw (keyboard_handler-no_data k status x e, e) s
  | inr e ↦ rw e (elim (dec_lt x 128) [
    | yes l ↦ keyboard_handler-pressed k status x e l s
    | no n ↦ keyboard_handler-released k status x e (omega arith) h s
  ])
]

keyboard_handler-Shows :
    (k : Keyboard) (held : Bool) (s : Scan)
    → s.scancode < 256
    → Shows k held
    → Shows
        (keyboard_handler k s.status s.scancode)
        (if bit_and s.status 1 == 0 then held else held_after held s.scancode)
keyboard_handler-Shows k held s h w =
    subst
      (λ b.
        Shows (keyboard_handler k s.status s.scancode)
          (if bit_and s.status 1 == 0 then b else held_after b s.scancode))
      w.table
      (by_data k s.status s.scancode h
        (record { table = refl; flag = w.flag ∙ ap (λ b. if b then 1 else 0) (sym w.table) }))

-- After any interrupts from the boot on, with scancodes that are bytes, `shift` and `currKB` both show
-- whether a shift key was pressed last, and not released since.
pub scans-Shows :
    (events : List Scan)
    → all_bytes events ≡ true
    → Shows (scans at_boot events) (held_by false events)
scans-Shows events h = from at_boot false events h (record { table = refl; flag = refl })
  where
    from :
        (k : Keyboard) (held : Bool) (events : List Scan)
        → all_bytes events ≡ true
        → Shows k held
        → Shows (scans k events) (held_by held events)
    from k held [] h s = s
    from k held (e ∷ rest) h s =
        from (keyboard_handler k e.status e.scancode)
          (if bit_and e.status 1 == 0 then held else held_after held e.scancode) rest
          (ground (arith, h)) (keyboard_handler-Shows k held e (ground (arith, h)) s)
