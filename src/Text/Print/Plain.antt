-- ===== src/Text/Print/Plain.antt =====
-- lib/printf.cpp: what a format without directives prints.
use arabos.Prelude.{
  ℕ, zero, suc, ◌+◌, ◌≤◌, ◌<◌, ◌≡◌, refl, sym, ap, ◌∙◌, Bool, true, false, not, ◌&&◌, List, [], ◌∷◌,
  ◌++◌, arith, leb, ◌==◌, le→leb, lt→leb_false, length, take,
}
use mathlib.Core.List.{append_assoc, append-nil}
use arabos.Console.Screen.{putchar, flush_current_tty, update_cursor}
use arabos.Text.Print.{
  Out, Arg, Printed, printed, max_chars, to_both, text_out, Kind, plain, kind_of, print_round,
  print_loop, start, flushed, finish, print0,
}

abbrev pub is_plain : List ℕ → Bool
is_plain [] = true
is_plain (c ∷ cs) = (not (c == b'%') && not (c == 0x1B)) && is_plain cs

count_lem :
    (a c : ℕ) (out : Out) → (to_both a c out).console.printed_chars ≡ out.console.printed_chars + 1
unfolding to_both putchar update_cursor flush_current_tty
count_lem a c out = refl

text_out-serial : (a : ℕ) (t : List ℕ) (out : Out) → (text_out a t out).serial ≡ out.serial ++ t
unfolding text_out to_both
text_out-serial a [] out = sym (append-nil out.serial)
text_out-serial a (c ∷ t) out =
    text_out-serial a t (to_both a c out) ∙ append_assoc out.serial (c ∷ []) t

kind_of-plain : (c : ℕ) → (c == b'%') ≡ false → (c == 0x1B) ≡ false → kind_of c ≡ plain
unfolding kind_of
kind_of-plain c p e = rw (p, e) refl

round_lem :
    (fuel a c : ℕ) (out : Out) (fmt : List ℕ) (args : List Arg) (full : Bool) (kind : Kind)
    → full ≡ false
    → kind ≡ plain
    → print_round (print_loop fuel) out a c fmt args full kind
      ≡ print_loop fuel (to_both a c out) a fmt args
unfolding print_round
round_lem fuel a c out fmt args full kind f k = rw (f, k) refl

full_round :
    (fuel a c : ℕ) (out : Out) (fmt : List ℕ) (args : List Arg) (full : Bool) (kind : Kind)
    → full ≡ true
    → print_round (print_loop fuel) out a c fmt args full kind ≡ printed out
unfolding print_round
full_round fuel a c out fmt args full kind f = rw f refl

full_lem :
    (fuel a : ℕ) (out : Out) (fmt : List ℕ) (args : List Arg)
    → 1024 ≤ out.console.printed_chars
    → print_loop (suc fuel) out a fmt args ≡ printed out
unfolding print_loop
full_lem fuel a out [] args h = refl
full_lem fuel a out (c ∷ fmt) args h =
    full_round fuel a c out fmt args (leb max_chars out.console.printed_chars) (kind_of c)
      (le→leb 1024 out.console.printed_chars h)

turn_lem :
    (fuel a c : ℕ) (out : Out) (fmt : List ℕ) (args : List Arg)
    → out.console.printed_chars < 1024
    → (c == b'%') ≡ false
    → (c == 0x1B) ≡ false
    → print_loop (suc fuel) out a (c ∷ fmt) args ≡ print_loop fuel (to_both a c out) a fmt args
unfolding print_loop
turn_lem fuel a c out fmt args h p e =
    round_lem fuel a c out fmt args (leb max_chars out.console.printed_chars) (kind_of c)
      (lt→leb_false 1024 out.console.printed_chars h) (kind_of-plain c p e)

nil_lem :
    (fuel a : ℕ) (out : Out) (args : List Arg) → print_loop (suc fuel) out a [] args ≡ printed out
unfolding print_loop
nil_lem fuel a out args = refl

loop_lem :
    (fuel room a : ℕ) (out : Out) (fmt : List ℕ) (args : List Arg)
    → is_plain fmt ≡ true
    → length fmt < fuel
    → out.console.printed_chars + room ≡ 1024
    → print_loop fuel out a fmt args ≡ printed (text_out a (take room fmt) out)
unfolding text_out
loop_lem zero room a out fmt args p h r = absurd (omega arith)
loop_lem (suc fuel) zero a out fmt args p h r = full_lem fuel a out fmt args (omega arith)
loop_lem (suc fuel) (suc room) a out [] args p h r = nil_lem fuel a out args
loop_lem (suc fuel) (suc room) a out (c ∷ fmt) args p h r =
    turn_lem fuel a c out fmt args (omega arith) (ground (arith, p)) (ground (arith, p))
    ∙ loop_lem fuel room a (to_both a c out) fmt args (ground (arith, p)) (omega arith)
        (omega (arith, count_lem a c out))

-- What is printed, and what went to the serial line.
pub record Plain (out : Out) (format : List ℕ) (result : Printed) : Type 0 where
  pub after : Out
  pub done : result ≡ printed after
  pub on_screen : after ≡ flushed (text_out 0x07 (take 1024 format) (start out))
  pub on_line : after.serial ≡ out.serial ++ take 1024 format

flushed-serial : (o : Out) → (flushed o).serial ≡ o.serial
unfolding flushed
flushed-serial o = refl

start_lem : (o : Out) → ((start o).console.printed_chars ≡ 0) × ((start o).serial ≡ o.serial)
unfolding start
start_lem o = (refl, refl)

finish_lem : (o : Out) → finish (printed o) ≡ printed (flushed o)
unfolding finish
finish_lem o = refl

print0_lem :
    (out : Out) (format : List ℕ) (args : List Arg)
    → print0 out format args false
      ≡ finish (print_loop (suc (length format)) (start out) 0x07 format args)
unfolding print0
print0_lem out format args = refl

-- A format without '%' and escape codes is printed in the usual colour up to its first 1024
-- characters, which also go to the serial line.
pub print0-Plain :
    (out : Out) (format : List ℕ) (args : List Arg)
    → is_plain format ≡ true
    → Plain out format (print0 out format args false)
print0-Plain out format args p =
    let text = take 1024 format in
    let s = start_lem out in
    let loop =
      loop_lem (suc (length format)) 1024 0x07 (start out) format args p (omega arith)
        (omega (arith, s.0)) in
    record {
      after = flushed (text_out 0x07 text (start out));
      done =
          print0_lem out format args ∙ ap finish loop ∙ finish_lem (text_out 0x07 text (start out));
      on_screen = refl;
      on_line =
          flushed-serial (text_out 0x07 text (start out))
          ∙ text_out-serial 0x07 text (start out)
          ∙ ap (λ l. l ++ text) s.1;
    }
