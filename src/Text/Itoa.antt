-- ===== src/Text/Itoa.antt =====
-- lib/string.cpp, itoa: a number as text. A buffer is the list of the characters before the zero
-- that ends it, and a pointer into it is an index.
use arabos.Prelude.{
  ℕ, zero, suc, ◌+◌, ◌-◌, ◌*◌, ◌/◌, ◌%◌, ◌^◌, ◌≤◌, ◌<◌, min, bit_and, bit_or, bit_xor, ◌≡◌, refl,
  sym, ap, ap₂, ◌∙◌, fun_ext, ◌≢◌, ◌↔◌, ◌⊎◌, inl, inr, Bool, true, false, not, ◌&&◌, ◌||◌, Option,
  none, some, List, [], ◌∷◌, ◌++◌, map, arith, dec_lt, ℕ_discrete, ltb, leb, ◌==◌, if◌then◌else◌,
  Bool-cases, Option-cases, ==_iff, ltb→lt, lt→ltb, leb→le, le→leb, lt→leb_false, le→ltb_false,
  ne→==_false, length, get_elem?, set, get_or, get_or-append, take, drop, replicate, length-append,
  length-set, get_elem?-set_self, get_elem?-set_ne, length-take, length-drop, take-append-drop,
  take-prefix, take-all, take-append, drop-append,
}
use arabos.Prelude.Int.{ℤ, pos, negsuc, is_neg, to_u32}
use arabos.Fs.Types.{◌>>=◌}
mod Reverse
pub mod RoundTrip

-- `(remainder < 10) ? remainder + '0' : remainder + 'a' - 10`
unfoldable pub digit_char : ℕ → ℕ
digit_char remainder = if ltb remainder 10 then remainder + 48 else remainder + 97 - 10

-- The `do` loop, which stores at the end of the buffer; no result when the fuel runs out.
unfoldable pub put_digits : ℕ → ℕ → ℕ → List ℕ → Option (List ℕ)
put_digits zero divisor ud buf = none
put_digits (suc fuel) divisor ud buf =
    let stored = buf ++ digit_char (ud % divisor) ∷ [] in
    let rest = put_digits fuel divisor (ud / divisor) stored in
    if ud / divisor == 0 then some stored else rest

-- `tmp = *p1; *p1 = *p2; *p2 = tmp`
unfoldable pub swap_chars : List ℕ → ℕ → ℕ → List ℕ
swap_chars buf p1 p2 = set (set buf p1 (get_or buf p2 0)) p2 (get_or buf p1 0)

-- The loop that reverses what is between `p1` and `p2`.
unfoldable pub swap_loop : ℕ → List ℕ → ℕ → ℕ → Option (List ℕ)
swap_loop zero buf p1 p2 = none
swap_loop (suc fuel) buf p1 p2 =
    let rest = swap_loop fuel (swap_chars buf p1 p2) (p1 + 1) (p2 - 1) in
    if ltb p1 p2 then rest else some buf

-- `-d`, as an `unsigned long`
unfoldable pub negated : ℤ → ℕ
negated (pos n) = (2 ^ 32 - n % 2 ^ 32) % 2 ^ 32
negated (negsuc n) = (n + 1) % 2 ^ 32

-- The test for a minus sign: `base` is 'i' or 'd'.
unfoldable pub with_sign : ℕ → ℤ → Bool
with_sign base d = (base == 105 || base == 100) && is_neg d

-- 'x' and 'p' are hexadecimal.
unfoldable pub divisor_of : ℕ → ℤ → ℕ
divisor_of base d = if with_sign base d then 10 else if base == 120 || base == 112 then 16 else 10

-- What follows the minus sign: the digits are stored, then reversed. A 32-bit number has at most 32
-- digits.
unfoldable pub print_digits : List ℕ → ℕ → ℕ → Option (List ℕ)
print_digits sign divisor ud = do
  buf ← put_digits 32 divisor ud sign
  swap_loop (suc (length buf)) buf (length sign) (length buf - 1)

unfoldable pub itoa : ℕ → ℤ → Option (List ℕ)
itoa base d =
    if with_sign base d
    then print_digits (45 ∷ []) (divisor_of base d) (negated d)
    else print_digits [] (divisor_of base d) (to_u32 d)
