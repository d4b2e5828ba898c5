-- ===== src/Examples/Texts.antt =====
-- Numbers, texts and command lines, and what lib/string.cpp and init/monitor.cpp make of them.
use arabos.Prelude.{◌≡◌, refl, ◌↔◌, false, some, [], ◌∷◌, ◌++◌, arith, replicate}
use arabos.Prelude.Int.{pos, negsuc}
use arabos.Text.Itoa.{
  digit_char, put_digits, swap_chars, swap_loop, negated, with_sign, divisor_of, print_digits, itoa,
}
use arabos.Text.Itoa.RoundTrip.{Text, read_signed, itoa-signed}
use arabos.Text.Compare.{strncmp, seen, strncmp_iff}
use arabos.Text.Print.{Out, print0}
use arabos.Text.Print.Plain.{Plain, print0-Plain}

-- `itoa(buf, 'd', -2030)`
minus_2030 : itoa 100 (negsuc 2029) ≡ some (b'-' ∷ b'2' ∷ b'0' ∷ b'3' ∷ b'0' ∷ [])
unfolding itoa print_digits put_digits swap_loop swap_chars negated with_sign divisor_of digit_char
minus_2030 = refl

-- `itoa(buf, 'x', -2)`
minus_2_hex : itoa 120 (negsuc 1) ≡ some (replicate 7 b'f' ++ b'e' ∷ [])
unfolding itoa print_digits put_digits swap_loop swap_chars negated with_sign divisor_of digit_char
minus_2_hex = refl

itoa-signed_example : Text 11 read_signed (negsuc 2029) (itoa 100 (negsuc 2029))
itoa-signed_example = itoa-signed 100 (negsuc 2029) refl (omega arith)

-- `strncmp(cmd, "h", 1)`, for the line "hardlink"
strncmp_iff_example :
    (strncmp false (b'h' ∷ b'a' ∷ b'r' ∷ b'd' ∷ []) (b'h' ∷ []) 1 ≡ pos 0)
    ↔ (seen 1 (b'h' ∷ b'a' ∷ b'r' ∷ b'd' ∷ []) ≡ seen 1 (b'h' ∷ []))
strncmp_iff_example =
    strncmp_iff false (b'h' ∷ b'a' ∷ b'r' ∷ b'd' ∷ []) (b'h' ∷ []) 1 (λ e. cc) refl refl

abbrev out : Out
out = record {
  console = record {
    tty = record { xpos = 0; ypos = 0; cells = [] };
    video = [];
    ports = [];
    printed_chars = 0;
  };
  serial = [];
}

-- `printf("%d%%", 7)`

print0-Plain_example :
    Plain out
      (b'h' ∷ b'a' ∷ b'l' ∷ b't' ∷ [])
      (print0 out (b'h' ∷ b'a' ∷ b'l' ∷ b't' ∷ []) [] false)
print0-Plain_example = print0-Plain out (b'h' ∷ b'a' ∷ b'l' ∷ b't' ∷ []) [] refl
