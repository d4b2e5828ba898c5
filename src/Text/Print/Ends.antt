-- ===== src/Text/Print/Ends.antt =====
-- lib/printf.cpp: the loop of `print0` ends.
use arabos.Prelude.{
  ℕ, zero, suc, ◌≤◌, refl, ◌≢◌, Bool, true, false, ◌||◌, Option, none, some, List, [], ◌∷◌, arith,
  leb, ◌==◌, if◌then◌else◌, length, drop,
}
use arabos.Console.Colour.{codes, ecma48}
use arabos.Text.Print.{
  Out, Arg, Printed, printed, undefined, unfinished, Loop, Kind, plain, escape, percent, Directive,
  a_number, a_text, a_char, a_percent, other, Converted, text, only_screen, nothing, kind_of,
  directive_of, convert_arg, after_escape, after_convert, after_directive, after_percent,
  print_round, print_loop, start, finish, print0, max_chars,
}

-- What is left of a string has at most `n` characters.
IsWithin : ℕ → Option (ℕ × List ℕ) → Type 0
IsWithin n none = Unit
IsWithin n (some (a, fmt)) = length fmt ≤ n

if_IsWithin :
    (n : ℕ) (b : Bool) (x y : Option (ℕ × List ℕ))
    → IsWithin n x
    → IsWithin n y
    → IsWithin n (if b then x else y)
if_IsWithin n true x y p q = p
if_IsWithin n false x y p q = q

IsWithin-le : (m n : ℕ) (x : Option (ℕ × List ℕ)) → m ≤ n → IsWithin m x → IsWithin n x
unfolding IsWithin
IsWithin-le m n none h w = tt
IsWithin-le m n (some (a, fmt)) h w = omega (arith, w)

codes-IsWithin : (fmt : List ℕ) (a : ℕ) → IsWithin (length fmt) (codes fmt a)
unfolding codes IsWithin
codes-IsWithin [] a = omega arith
codes-IsWithin (c ∷ []) a = if_IsWithin 1 (c == b'm') _ _ (omega arith) (
    if_IsWithin 1 (c == b'3' || c == b'4') _ _ tt
      (if_IsWithin 1 (c == b'0' || c == b'1' || c == b';') _ _ (omega arith) (omega arith)))
codes-IsWithin (c ∷ d ∷ fmt) a =
    let n = suc (suc (length fmt)) in
    let two =
      λ (b : ℕ). IsWithin-le (length fmt) n (codes fmt b) (omega arith) (codes-IsWithin fmt b) in
    let one = λ (b : ℕ).
      IsWithin-le (suc (length fmt)) n (codes (d ∷ fmt) b) (omega arith)
        (codes-IsWithin (d ∷ fmt) b) in
    if_IsWithin n (c == b'm') _ _ (omega arith) (
      if_IsWithin n (c == b'3') _ _ (two _) (
        if_IsWithin n (c == b'4') _ _ (two _) (
          if_IsWithin n (c == b'0') _ _ (one _) (
            if_IsWithin n (c == b'1') _ _ (one _)
              (if_IsWithin n (c == b';') _ _ (one _) (omega arith))))))

ecma48-IsWithin : (fmt : List ℕ) → IsWithin (length fmt) (ecma48 fmt)
unfolding ecma48 IsWithin
ecma48-IsWithin [] = omega arith
ecma48-IsWithin (c ∷ fmt) =
    if_IsWithin (suc (length fmt)) (c == b'[') _ _
      (IsWithin-le (length fmt) (suc (length fmt)) (codes fmt 0x07) (omega arith)
        (codes-IsWithin fmt 0x07))
      (omega arith)

-- A way to go on that ends on formats of at most `n` characters.
Ends : ℕ → Loop → Type 0
Ends n loop =
    (out : Out) (a : ℕ) (fmt : List ℕ) (args : List Arg)
    → length fmt ≤ n
    → loop out a fmt args ≢ unfinished

module _ (n : ℕ) (loop : Loop) (ends : Ends n loop) where
  escape-Ends :
      (out : Out) (fmt : List ℕ) (args : List Arg) (o : Option (ℕ × List ℕ))
      → IsWithin n o
      → after_escape loop out fmt args o ≢ unfinished
  unfolding after_escape IsWithin Ends
  escape-Ends out fmt args none w = λ e. cc
  escape-Ends out fmt args (some (a, rest)) w = ends _ a rest args w

  convert-Ends :
      (out : Out) (a : ℕ) (rest : List ℕ) (args : List Arg) (c : Converted)
      → length rest ≤ n
      → after_convert loop out a rest args c ≢ unfinished
  unfolding after_convert Ends
  convert-Ends out a rest args nothing h = λ e. cc
  convert-Ends out a rest args (text t) h = ends _ a rest args h
  convert-Ends out a rest args (only_screen b) h = ends _ a rest args h

  taking-Ends :
      (out : Out) (a d : ℕ) (rest : List ℕ) (args : List Arg) (c : Directive)
      → length rest ≤ n
      → after_directive loop out a d rest args c ≢ unfinished
  unfolding after_directive Ends
  taking-Ends out a d rest args a_percent h = ends _ a rest args h
  taking-Ends out a d rest [] a_number h = λ e. cc
  taking-Ends out a d rest [] a_text h = λ e. cc
  taking-Ends out a d rest [] a_char h = λ e. cc
  taking-Ends out a d rest [] other h = λ e. cc
  taking-Ends out a d rest (x ∷ args) a_number h =
      convert-Ends out a rest args (convert_arg a_number d x) h
  taking-Ends out a d rest (x ∷ args) a_text h =
      convert-Ends out a rest args (convert_arg a_text d x) h
  taking-Ends out a d rest (x ∷ args) a_char h =
      convert-Ends out a rest args (convert_arg a_char d x) h
  taking-Ends out a d rest (x ∷ args) other h =
      convert-Ends out a rest args (convert_arg other d x) h

  percent-Ends :
      (out : Out) (a : ℕ) (fmt : List ℕ) (args : List Arg)
      → length fmt ≤ n
      → after_percent loop out a fmt args ≢ unfinished
  unfolding after_percent
  percent-Ends out a [] args h = λ e. cc
  percent-Ends out a (d ∷ rest) args h =
      taking-Ends out a d rest args (directive_of d) (omega arith)

  round-Ends :
      (out : Out) (a c : ℕ) (fmt : List ℕ) (args : List Arg) (full : Bool) (kind : Kind)
      → length fmt ≤ n
      → print_round loop out a c fmt args full kind ≢ unfinished
  unfolding print_round Ends
  round-Ends out a c fmt args true kind h = λ e. cc
  round-Ends out a c fmt args false plain h = ends _ a fmt args h
  round-Ends out a c fmt args false escape h =
      escape-Ends out fmt args (ecma48 fmt)
        (IsWithin-le (length fmt) n (ecma48 fmt) h (ecma48-IsWithin fmt))
  round-Ends out a c fmt args false percent h = percent-Ends out a fmt args h

loop-Ends : (n : ℕ) → Ends n (print_loop (suc n))
unfolding Ends print_loop
loop-Ends n out a [] args h = λ e. cc
loop-Ends zero out a (c ∷ fmt) args h = absurd (omega arith)
loop-Ends (suc n) out a (c ∷ fmt) args h =
    round-Ends n (print_loop (suc n)) (loop-Ends n) out a c fmt args
      (leb max_chars out.console.printed_chars) (kind_of c) (omega arith)

finish-Ends : (p : Printed) → p ≢ unfinished → finish p ≢ unfinished
unfolding finish
finish-Ends (printed out) h = λ e. cc
finish-Ends undefined h = λ e. cc
finish-Ends unfinished h = absurd (h refl)

-- `print0` ends, for any format and arguments: a round for each character and one more are enough.
-- A result that C++ leaves undefined counts as an end.
print0-Ends :
    (out : Out) (format : List ℕ) (args : List Arg) (ignore_first_char : Bool)
    → print0 out format args ignore_first_char ≢ unfinished
unfolding print0 Ends
print0-Ends out format args true =
    let fmt = drop 1 format in
    finish-Ends (print_loop (suc (length fmt)) (start out) 0x07 fmt args)
      (loop-Ends (length fmt) (start out) 0x07 fmt args (omega arith))
print0-Ends out format args false =
    finish-Ends (print_loop (suc (length format)) (start out) 0x07 format args)
      (loop-Ends (length format) (start out) 0x07 format args (omega arith))
