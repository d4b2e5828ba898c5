-- ===== src/Text/Print.antt =====
-- lib/printf.cpp: `print0`, with what it sends to the screen and to the serial line. A format and a
-- text are lists of characters, as bytes, before the zero that ends them.
use arabos.Prelude.{
  ℕ, zero, suc, ◌+◌, ◌-◌, ◌*◌, ◌/◌, ◌%◌, ◌^◌, ◌≤◌, ◌<◌, min, bit_and, bit_or, bit_xor, ◌≡◌, refl,
  sym, ap, ap₂, ◌∙◌, fun_ext, ◌≢◌, ◌↔◌, ◌⊎◌, inl, inr, Bool, true, false, not, ◌&&◌, ◌||◌, Option,
  none, some, List, [], ◌∷◌, ◌++◌, map, arith, dec_lt, ℕ_discrete, ltb, leb, ◌==◌, if◌then◌else◌,
  Bool-cases, Option-cases, ==_iff, ltb→lt, lt→ltb, leb→le, le→leb, lt→leb_false, le→ltb_false,
  ne→==_false, length, get_elem?, set, get_or, get_or-append, take, drop, replicate, length-append,
  length-set, get_elem?-set_self, get_elem?-set_ne, length-take, length-drop, take-append-drop,
  take-prefix, take-all, take-append, drop-append,
}
use arabos.Prelude.Int.{ℤ, to_u32}
use arabos.Console.Screen.{Console, putchar, flush_current_tty}
use arabos.Console.Colour.{ecma48}
use arabos.Text.Itoa.{itoa}
pub mod Plain
pub mod Ends

-- The screen, and the characters that went to the serial line.
pub record Out : Type 0 where
  pub console : Console
  pub serial : List ℕ

-- An argument: a number, or a pointer to a text, which may be null.
pub data Arg : Type 0 where
  number : ℤ → Arg
  chars : Option (List ℕ) → Arg

-- How the loop ends: it prints, it reads what is not there or of another type, or its fuel runs out.
pub data Printed : Type 0 where
  printed : Out → Printed
  undefined : Printed
  unfinished : Printed

-- `MAX_CHARS`
abbrev pub max_chars : ℕ
max_chars = 1024

-- `MK_CH_ATT`
unfoldable pub mk_ch_att : ℕ → ℕ → ℕ
mk_ch_att c a = bit_or (c % 256) (a * 256)

-- `putchar (MK_CH_ATT(c,attribute))`
unfoldable pub to_screen : ℕ → ℕ → Out → Out
to_screen attribute c out = record out { console = putchar out.console (mk_ch_att c attribute) }

-- The same, and `write_serial(c)`.
unfoldable pub to_both : ℕ → ℕ → Out → Out
to_both attribute c out = record {
  console = putchar out.console (mk_ch_att c attribute);
  serial = out.serial ++ c ∷ [];
}

-- The loop over the text of a conversion.
unfoldable pub text_out : ℕ → List ℕ → Out → Out
text_out attribute [] out = out
text_out attribute (c ∷ text) out = text_out attribute text (to_both attribute c out)

-- What a character of the format is.
pub data Kind : Type 0 where
  plain : Kind
  escape : Kind
  percent : Kind

unfoldable pub kind_of : ℕ → Kind
kind_of c = if c == b'%' then percent else if c == 0x1B then escape else plain

-- What follows a '%': a number, a text, a character, a '%', or something else.
pub data Directive : Type 0 where
  a_number : Directive
  a_text : Directive
  a_char : Directive
  a_percent : Directive
  other : Directive

unfoldable pub directive_of : ℕ → Directive
directive_of c =
    if c == b'd' || c == b'i' || c == b'u' || c == b'x' || c == b'p'
    then a_number
    else if c == b's'
    then a_text
    else if c == b'c'
    then a_char
    else if c == b'%'
    then a_percent
    else other

-- The text of a number: 'p' puts "0x" in front.
unfoldable pub number_text : ℕ → ℤ → Option (List ℕ)
number_text c n = elim (itoa c n) [
  | none ↦ none
  | some text ↦ some (if c == b'p' then b'0' ∷ b'x' ∷ text else text)
]

-- A null pointer prints as "(null)".
unfoldable pub text_of : Option (List ℕ) → List ℕ
text_of none = b'(' ∷ b'n' ∷ b'u' ∷ b'l' ∷ b'l' ∷ b')' ∷ []
text_of (some text) = text

-- A zero ends the text of a character at once.
unfoldable pub char_text : ℕ → List ℕ
char_text c = if c == 0 then [] else c ∷ []

-- The text that a conversion prints, and what it does not send to the serial line.
pub data Converted : Type 0 where
  text : List ℕ → Converted
  only_screen : ℕ → Converted
  nothing : Converted

-- A conversion, by the first argument.
unfoldable pub convert_arg : Directive → ℕ → Arg → Converted
convert_arg a_number c (number n) = elim (number_text c n) [ none ↦ nothing | some t ↦ text t ]
convert_arg a_text c (chars p) = text (text_of p)
convert_arg a_char c (number n) = text (char_text (to_u32 n % 256))
convert_arg other c (number n) = only_screen (to_u32 n % 256)
convert_arg d c a = nothing

-- How the loop goes on: with the output, the attribute, and what is left of the format and arguments.
abbrev pub Loop : Type 0
Loop = Out → ℕ → List ℕ → List Arg → Printed

-- After an escape character: the colour code, whose characters also go to the serial line.
unfoldable pub after_escape : Loop → Out → List ℕ → List Arg → Option (ℕ × List ℕ) → Printed
after_escape loop out format args none = undefined
after_escape loop out format args (some (attribute, rest)) =
    loop (record out { serial = out.serial ++ 0x1B ∷ take (length format - length rest) format })
      attribute rest args

-- After a directive that takes an argument.
unfoldable pub after_convert : Loop → Out → ℕ → List ℕ → List Arg → Converted → Printed
after_convert loop out attribute rest args nothing = undefined
after_convert loop out attribute rest args (text t) =
    loop (text_out attribute t out) attribute rest args
after_convert loop out attribute rest args (only_screen b) =
    loop (to_screen attribute b out) attribute rest args

-- After a '%', by what the directive is.
unfoldable pub after_directive : Loop → Out → ℕ → ℕ → List ℕ → List Arg → Directive → Printed
after_directive loop out attribute d rest args a_percent =
    loop (to_screen attribute b'%' out) attribute rest args
after_directive loop out attribute d rest [] directive = undefined
after_directive loop out attribute d rest (a ∷ args) directive =
    after_convert loop out attribute rest args (convert_arg directive d a)

unfoldable pub after_percent : Loop → Out → ℕ → List ℕ → List Arg → Printed
after_percent loop out attribute [] args = undefined
after_percent loop out attribute (d ∷ rest) args =
    after_directive loop out attribute d rest args (directive_of d)

-- One round of the loop, by whether `MAX_CHARS` are printed and what the character is.
unfoldable pub print_round : Loop → Out → ℕ → ℕ → List ℕ → List Arg → Bool → Kind → Printed
print_round loop out attribute c format args true kind = printed out
print_round loop out attribute c format args false plain =
    loop (to_both attribute c out) attribute format args
print_round loop out attribute c format args false escape =
    after_escape loop out format args (ecma48 format)
print_round loop out attribute c format args false percent =
    after_percent loop out attribute format args

unfoldable pub print_loop : ℕ → Out → ℕ → List ℕ → List Arg → Printed
print_loop zero out attribute format args = unfinished
print_loop (suc fuel) out attribute [] args = printed out
print_loop (suc fuel) out attribute (c ∷ format) args =
    print_round (print_loop fuel) out attribute c format args
      (leb max_chars out.console.printed_chars) (kind_of c)

unfoldable pub start : Out → Out
start out = record out { console = record out.console { printed_chars = 0 } }

unfoldable pub flushed : Out → Out
flushed out = record out { console = flush_current_tty out.console }

-- The flush at the end.
unfoldable pub finish : Printed → Printed
finish (printed out) = printed (flushed out)
finish undefined = undefined
finish unfinished = unfinished

-- `print0`, but for the counter that blocks the timer: each round takes a character at least.
unfoldable pub print0 : Out → List ℕ → List Arg → Bool → Printed
print0 out format args ignore_first_char =
    let fmt = if ignore_first_char then drop 1 format else format in
    finish (print_loop (suc (length fmt)) (start out) 0x07 fmt args)

-- `NORMAL`, and what `printk` prints in front of a line of each level, from TRACE to SEVERE.
abbrev pub normal : List ℕ
normal = 0x1B ∷ b'[' ∷ b'0' ∷ b'm' ∷ []

-- ECMA_PREFIX ECMA_BACK_GND and a colour, in bold or not
unfoldable pub colour_code : ℕ → Bool → List ℕ
colour_code colour bold =
    0x1B ∷ b'[' ∷ b'3' ∷ colour ∷ (if bold then b';' ∷ b'1' ∷ b'm' ∷ [] else b'm' ∷ [])

unfoldable pub label : ℕ → List ℕ
label level =
    if level == 200
    then colour_code b'7' false ++ b'T' ∷ b'R' ∷ b'C' ∷ b':' ∷ b' ' ∷ []
    else if level == 201
    then colour_code b'2' false ++ b'D' ∷ b'B' ∷ b'G' ∷ b':' ∷ b' ' ∷ []
    else if level == 202
    then colour_code b'2' true ++ b'L' ∷ b'O' ∷ b'G' ∷ b':' ∷ b' ' ∷ []
    else if level == 203
    then colour_code b'5' false ++ b'W' ∷ b'R' ∷ b'N' ∷ b':' ∷ b' ' ∷ []
    else if level == 204
    then colour_code b'4' false ++ b'E' ∷ b'R' ∷ b'R' ∷ b':' ∷ b' ' ∷ []
    else colour_code b'4' true ++ b'S' ∷ b'V' ∷ b'R' ∷ b':' ∷ b' ' ∷ []

-- A print after another one.
unfoldable pub and_then : Printed → (Out → Printed) → Printed
and_then (printed out) f = f out
and_then undefined f = undefined
and_then unfinished f = unfinished

-- `format[0]`, which is the zero of an empty format
unfoldable pub level_of : List ℕ → ℕ
level_of format = get_or format 0 0

-- The levels are the bytes 200 to 205, which are in the same order as signed characters; each is at least
-- PRINTK_LEVEL, the lowest one.
unfoldable pub printk : Out → List ℕ → List Arg → Printed
printk out format args =
    if ltb (level_of format) 200 || ltb 205 (level_of format)
    then print0 out format args false
    else and_then (print0 out (label (level_of format)) [] false)
        (λ o. and_then (print0 o format args true) (λ o'. print0 o' normal [] false))
