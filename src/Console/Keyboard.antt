-- ===== src/Console/Keyboard.antt =====
-- console/kb.cpp and include/kb.h: the keyboard's interrupt and the line that `readline` waits for.
use arabos.Prelude.{
  ℕ, zero, suc, ◌+◌, ◌-◌, ◌*◌, ◌/◌, ◌%◌, ◌^◌, ◌≤◌, ◌<◌, min, bit_and, bit_or, bit_xor, ◌≡◌, refl,
  sym, ap, ap₂, ◌∙◌, fun_ext, ◌≢◌, ◌↔◌, ◌⊎◌, inl, inr, Bool, true, false, not, ◌&&◌, ◌||◌, Option,
  none, some, List, [], ◌∷◌, ◌++◌, map, arith, dec_lt, ℕ_discrete, ltb, leb, ◌==◌, if◌then◌else◌,
  Bool-cases, Option-cases, ==_iff, ltb→lt, lt→ltb, leb→le, le→leb, lt→leb_false, le→ltb_false,
  ne→==_false, length, get_elem?, set, get_or, get_or-append, take, drop, replicate, length-append,
  length-set, get_elem?-set_self, get_elem?-set_ne, length-take, length-drop, take-append-drop,
  take-prefix, take-all, take-append, drop-append,
}
pub mod Line
pub mod Shift

-- VK_LSHIFT and VK_RSHIFT, of `KbSpecialKeys`
abbrev pub vk_lshift : ℕ
vk_lshift = 129

abbrev pub vk_rshift : ℕ
vk_rshift = 130

-- `KeyboardUs`; what is past the list is 0.
abbrev pub keyboard_us : List ℕ
keyboard_us =
    0 ∷ 27 ∷ 49 ∷ 50 ∷ 51 ∷ 52 ∷ 53 ∷ 54 ∷ 55 ∷ 56 ∷ 57 ∷ 48 ∷ 45 ∷ 61 ∷ 8 ∷ 9 ∷ 113 ∷ 119 ∷ 101
    ∷ 114 ∷ 116 ∷ 121 ∷ 117 ∷ 105 ∷ 111 ∷ 112 ∷ 91 ∷ 93 ∷ 10 ∷ 128 ∷ 97 ∷ 115 ∷ 100 ∷ 102 ∷ 103
    ∷ 104 ∷ 106 ∷ 107 ∷ 108 ∷ 59 ∷ 39 ∷ 96 ∷ 129 ∷ 92 ∷ 122 ∷ 120 ∷ 99 ∷ 118 ∷ 98 ∷ 110 ∷ 109 ∷ 44
    ∷ 46 ∷ 47 ∷ 130 ∷ 42 ∷ 131 ∷ 32 ∷ 132 ∷ 135 ∷ 136 ∷ 137 ∷ 138 ∷ 139 ∷ 140 ∷ 141 ∷ 142 ∷ 143
    ∷ 144 ∷ 133 ∷ 134 ∷ 147 ∷ 153 ∷ 150 ∷ 45 ∷ 154 ∷ 0 ∷ 155 ∷ 43 ∷ 148 ∷ 156 ∷ 149 ∷ 151 ∷ 152 ∷ 0
    ∷ 0 ∷ 0 ∷ 145 ∷ 146 ∷ 0 ∷ []

-- `shiftKeyboardUs`
abbrev pub shift_keyboard_us : List ℕ
shift_keyboard_us =
    0 ∷ 27 ∷ 33 ∷ 64 ∷ 35 ∷ 36 ∷ 37 ∷ 94 ∷ 38 ∷ 42 ∷ 40 ∷ 41 ∷ 95 ∷ 43 ∷ 8 ∷ 0 ∷ 81 ∷ 87 ∷ 69 ∷ 82
    ∷ 84 ∷ 89 ∷ 85 ∷ 73 ∷ 79 ∷ 80 ∷ 123 ∷ 125 ∷ 10 ∷ 128 ∷ 65 ∷ 83 ∷ 68 ∷ 70 ∷ 71 ∷ 72 ∷ 74 ∷ 75
    ∷ 76 ∷ 58 ∷ 34 ∷ 126 ∷ 129 ∷ 124 ∷ 90 ∷ 88 ∷ 67 ∷ 86 ∷ 66 ∷ 78 ∷ 77 ∷ 60 ∷ 62 ∷ 63 ∷ 130 ∷ 42
    ∷ 131 ∷ 32 ∷ 132 ∷ 135 ∷ 136 ∷ 137 ∷ 138 ∷ 139 ∷ 140 ∷ 141 ∷ 142 ∷ 143 ∷ 144 ∷ 133 ∷ 134 ∷ 147
    ∷ 153 ∷ 150 ∷ 45 ∷ 154 ∷ 0 ∷ 155 ∷ 43 ∷ 148 ∷ 156 ∷ 149 ∷ 151 ∷ 152 ∷ 0 ∷ 0 ∷ 0 ∷ 145 ∷ 146 ∷ 0
    ∷ []

-- The globals of the file. `shifted` tells whether `currKB` is `shiftKeyboardUs`; `input` is the
-- characters stored since `readline` set the pointer, or none while it is null; `echoed` is what
-- went to `putchar`.
pub record Keyboard : Type 0 where
  pub shift : ℕ
  pub shifted : Bool
  pub input : Option (List ℕ)
  pub cnt_read : ℕ
  pub newline_read : ℕ
  pub freeze : ℕ
  pub echoed : List ℕ

abbrev pub at_boot : Keyboard
at_boot = record {
  shift = 0;
  shifted = false;
  input = none;
  cnt_read = 0;
  newline_read = 0;
  freeze = 0;
  echoed = [];
}

-- `currKB[scancode]`
unfoldable pub key_of : Bool → ℕ → ℕ
key_of shifted scancode = get_or (if shifted then shift_keyboard_us else keyboard_us) scancode 0

-- A character for a line that is being read.
unfoldable pub read_key : Keyboard → List ℕ → ℕ → Keyboard
read_key k text c = record k {
  echoed = k.echoed ++ c ∷ [];
  newline_read = if c == 10 then 1 else k.newline_read;
  input = some (if c == 10 then text else if k.freeze == 0 then text ++ c ∷ [] else text);
  cnt_read = k.cnt_read + 1;
}

unfoldable pub readline_handler : Keyboard → ℕ → Keyboard
readline_handler k c = elim k.input [ none ↦ k | some text ↦ read_key k text c ]

unfoldable pub is_shift : ℕ → Bool
is_shift key = vk_lshift == key || vk_rshift == key

-- The handler, by the status byte of port 0x64 and the scancode of port 0x60. What it returns after a
-- scancode is not modelled: the function ends without a `return`.
unfoldable pub keyboard_handler : Keyboard → ℕ → ℕ → Keyboard
keyboard_handler k status scancode =
    if bit_and status 1 == 0
    then k
    else if bit_and scancode 128 == 0
    then if is_shift (key_of k.shifted scancode)
      then record k { shift = 1; shifted = true }
      else readline_handler k (key_of k.shifted scancode)
    else if is_shift (key_of k.shifted (bit_and scancode 127))
    then record k { shift = 0; shifted = false }
    else k

-- One turn of the loop in `readline` after `hlt`, when it does not break.
unfoldable pub wake : ℕ → Keyboard → Keyboard
wake max k = record k { freeze = if k.cnt_read == max then 1 else k.freeze }

-- The end of `readline`.
unfoldable pub reset : Keyboard → Keyboard
reset k = record k { input = none; cnt_read = 0; newline_read = 0; freeze = 0 }

-- An interrupt that ends a `hlt`: a key for `readline_handler`, or another one.
unfoldable pub interrupted : Keyboard → Option ℕ → Keyboard
interrupted k none = k
interrupted k (some c) = readline_handler k c

-- The loop, for interrupts that come one at a time: the text before the zero, and the globals after.
unfoldable pub readline_loop : ℕ → Keyboard → List (Option ℕ) → Option (List ℕ × Keyboard)
readline_loop max k [] = none
readline_loop max k (i ∷ is) =
    let k' = interrupted k i in
    let rest = readline_loop max (wake max k') is in
    if k'.newline_read == 0
    then rest
    else elim k'.input [ none ↦ none | some text ↦ some (text, reset k') ]

unfoldable pub readline : ℕ → Keyboard → List (Option ℕ) → Option (List ℕ × Keyboard)
readline max k interrupts = readline_loop max (record k { input = some [] }) interrupts
