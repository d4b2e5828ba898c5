-- ===== src/Text/Itoa/RoundTrip.antt =====
-- lib/string.cpp, itoa: a reader of the text finds the number again, and the text fits.
use arabos.Prelude.{
  ℕ, zero, suc, ◌+◌, ◌-◌, ◌*◌, ◌/◌, ◌%◌, ◌^◌, ◌≤◌, ◌<◌, ◌≡◌, refl, sym, ap, ap₂, ◌∙◌, ◌≢◌, ◌⊎◌, inl,
  inr, Bool, true, false, ◌&&◌, ◌||◌, Option, some, List, [], ◌∷◌, ◌++◌, arith, ℕ_discrete, ltb,
  leb, ◌==◌, if◌then◌else◌, Bool-cases, ==_iff, ne→==_false, length, length-append,
}
use arabos.Prelude.Int.{ℤ, pos, negsuc, neg, is_neg, to_u32}
use arabos.Text.Itoa.{
  digit_char, put_digits, swap_loop, print_digits, with_sign, negated, divisor_of, itoa,
}
use arabos.Text.Itoa.Reverse.{flip, swap_loop_lem}
use native.Mathlib.Nat.{pow-suc}
use mathlib.Core.Path.{subst}
use mathlib.Core.List.{append_assoc, append-nil}

-- The number that a digit stands for.
abbrev pub digit_value : ℕ → ℕ
digit_value c = if ltb c 58 then c - 48 else c - 87

abbrev pub is_digit : ℕ → Bool
is_digit c = leb 48 c

abbrev pub all_digits : List ℕ → Bool
all_digits [] = true
all_digits (c ∷ cs) = is_digit c && all_digits cs

-- The number in base `base` that a text stands for, from its first digit on, after `acc`.
abbrev pub read_digits : ℕ → ℕ → List ℕ → ℕ
read_digits base acc [] = acc
read_digits base acc (c ∷ cs) = read_digits base (acc * base + digit_value c) cs

-- A decimal number with a minus sign or without.
abbrev pub read_signed : List ℕ → ℤ
read_signed [] = pos 0
read_signed (c ∷ cs) =
    if c == 45 then neg (read_digits 10 0 cs) else pos (read_digits 10 0 (c ∷ cs))

-- A base that `itoa` prints in.
abbrev IsBase : ℕ → Type 0
IsBase k = (k ≡ 10) ⊎ (k ≡ 16)

div_mod : (k n : ℕ) → IsBase k → n / k * k + n % k ≡ n
div_mod k n (inl e) = rw e (omega arith)
div_mod k n (inr e) = rw e (omega arith)

div_half : (k n m : ℕ) → IsBase k → n < 2 * m → n / k < m
div_half k n m (inl e) h = rw e (omega arith)
div_half k n m (inr e) h = rw e (omega arith)

div_pow : (k n j : ℕ) → IsBase k → n < k ^ suc j → n / k < k ^ j
div_pow k n j (inl e) h = rw e (omega (arith, pow-suc 10 j, subst (λ b. n < b ^ suc j) e h))
div_pow k n j (inr e) h = rw e (omega (arith, pow-suc 16 j, subst (λ b. n < b ^ suc j) e h))

div_small : (k n : ℕ) → IsBase k → n < k ^ 1 → n / k ≡ 0
div_small k n (inl e) h = rw e (omega (arith, subst (λ b. n < b ^ 1) e h))
div_small k n (inr e) h = rw e (omega (arith, subst (λ b. n < b ^ 1) e h))

digit_char-value : (k n : ℕ) → IsBase k → digit_value (digit_char (n % k)) ≡ n % k
unfolding digit_char
digit_char-value k n (inl e) = rw e (ground arith)
digit_char-value k n (inr e) = rw e (ground arith)

digit_char-is_digit : (r : ℕ) → is_digit (digit_char r) ≡ true
unfolding digit_char
digit_char-is_digit r = ground arith

-- The number that the digits stand for, the last one first.
abbrev value : ℕ → List ℕ → ℕ
value base [] = 0
value base (c ∷ cs) = value base cs * base + digit_value c

read_digits-append :
    (base acc : ℕ) (xs : List ℕ) (y : ℕ)
    → read_digits base acc (xs ++ y ∷ []) ≡ read_digits base acc xs * base + digit_value y
read_digits-append base acc [] y = refl
read_digits-append base acc (x ∷ xs) y = read_digits-append base (acc * base + digit_value x) xs y

read_digits-flip : (base : ℕ) (xs : List ℕ) → read_digits base 0 (flip xs) ≡ value base xs
read_digits-flip base [] = refl
read_digits-flip base (x ∷ xs) =
    read_digits-append base 0 (flip xs) x
    ∙ ap (λ (n : ℕ). n * base + digit_value x) (read_digits-flip base xs)

all_digits-append :
    (xs : List ℕ) (y : ℕ)
    → all_digits xs ≡ true
    → is_digit y ≡ true
    → all_digits (xs ++ y ∷ []) ≡ true
all_digits-append [] y h k = rw k refl
all_digits-append (x ∷ xs) y h k = grind (arith, all_digits-append xs y)

all_digits-flip : (xs : List ℕ) → all_digits xs ≡ true → all_digits (flip xs) ≡ true
all_digits-flip [] h = refl
all_digits-flip (x ∷ xs) h = grind (arith, all_digits-flip xs, all_digits-append (flip xs) x)

length-flip : (xs : List ℕ) → length (flip xs) ≡ length xs
length-flip [] = refl
length-flip (x ∷ xs) = omega (arith, length-append (flip xs) (x ∷ []), length-flip xs)

-- What the `do` loop stores after `buf`.
record Stored (fuel k ud : ℕ) (buf : List ℕ) : Type 0 where
  digits : List ℕ
  stored : put_digits fuel k ud buf ≡ some (buf ++ digits)
  meaning : value k digits ≡ ud
  valid : all_digits digits ≡ true
  some_digit : 0 < length digits
  short : (j : ℕ) → ud < k ^ suc j → length digits ≤ suc j

-- The loop ends here.
last_digit : (fuel k ud : ℕ) (buf : List ℕ) → IsBase k → ud / k ≡ 0 → Stored (suc fuel) k ud buf
unfolding put_digits
last_digit fuel k ud buf b e =
    let whole : 0 * k + ud % k ≡ ud = subst (λ q. q * k + ud % k ≡ ud) e (div_mod k ud b) in
    record {
      digits = digit_char (ud % k) ∷ [];
      stored = rw ((==_iff (ud / k) 0).1 e) refl;
      meaning = ap (λ d. 0 * k + d) (digit_char-value k ud b) ∙ whole;
      valid = rw (digit_char-is_digit (ud % k)) refl;
      some_digit = omega arith;
      short = λ j h. omega arith;
    }

-- The loop goes on.
next_digit :
    (fuel k ud : ℕ) (buf : List ℕ)
    → IsBase k
    → ud / k ≢ 0
    → Stored fuel k (ud / k) (buf ++ digit_char (ud % k) ∷ [])
    → Stored (suc fuel) k ud buf
unfolding put_digits
next_digit fuel k ud buf b ne rest = record {
  digits = digit_char (ud % k) ∷ rest.digits;
  stored =
      rw (ne→==_false (ud / k) 0 ne)
        (rest.stored ∙ ap some (append_assoc buf (digit_char (ud % k) ∷ []) rest.digits));
  meaning = ap₂ (λ q d. q * k + d) rest.meaning (digit_char-value k ud b) ∙ div_mod k ud b;
  valid = rw (digit_char-is_digit (ud % k)) rest.valid;
  some_digit = omega arith;
  short = λ j h. shorter j h;
}
  where
    shorter : (j : ℕ) → ud < k ^ suc j → suc (length rest.digits) ≤ suc j
    shorter zero h = absurd (ne (div_small k ud b h))
    shorter (suc j) h = omega (arith, rest.short j (div_pow k ud (suc j) b h))

put_digits_lem :
    (fuel k ud : ℕ) (buf : List ℕ) → IsBase k → ud < 2 ^ suc fuel → Stored (suc fuel) k ud buf
put_digits_lem zero k ud buf b h =
    last_digit zero k ud buf b (omega (arith, div_half k ud 1 b (omega arith)))
put_digits_lem (suc fuel) k ud buf b h = elim (ℕ_discrete (ud / k) 0) [
  | yes e ↦ last_digit (suc fuel) k ud buf b e
  | no ne ↦ next_digit (suc fuel) k ud buf b ne (
      put_digits_lem fuel k (ud / k) (buf ++ digit_char (ud % k) ∷ []) b
        (div_half k ud (2 ^ suc fuel) b (omega (arith, pow-suc 2 (suc fuel)))))
]

-- `itoa` without a sign: the digits of `ud` alone, from the first one on.
record Printed (sign : List ℕ) (k ud : ℕ) (text : Option (List ℕ)) : Type 0 where
  number : List ℕ
  printed : text ≡ some (sign ++ number)
  meaning : read_digits k 0 number ≡ ud
  valid : all_digits number ≡ true
  some_digit : 0 < length number
  short : (j : ℕ) → ud < k ^ suc j → length number ≤ suc j

print_lem :
    (k ud : ℕ) (sign : List ℕ) → IsBase k → ud < 2 ^ 32 → Printed sign k ud (print_digits sign k ud)
unfolding print_digits
print_lem k ud sign b h =
    let s = put_digits_lem 31 k ud sign b h in
    let text = sign ++ s.digits in
    let where_last : length text - 1 ≡ length sign + length s.digits - 1 =
      omega (arith, length-append sign s.digits) in
    let all : sign ++ (s.digits ++ []) ≡ text = ap (λ l. sign ++ l) (append-nil s.digits) in
    let reversed : swap_loop (suc (length text)) text (length sign) (length text - 1)
        ≡ some (sign ++ flip s.digits) =
      rw where_last (
        ap
          (λ (t : List ℕ).
            swap_loop (suc (length text)) t (length sign) (length sign + length s.digits - 1))
          (sym all)
        ∙ swap_loop_lem (suc (length text)) sign s.digits []
            (omega (arith, length-append sign s.digits))
        ∙ ap (λ (l : List ℕ). some (sign ++ l)) (append-nil (flip s.digits))) in
    record {
      number = flip s.digits;
      printed = rw s.stored reversed;
      meaning = read_digits-flip k s.digits ∙ s.meaning;
      valid = all_digits-flip s.digits s.valid;
      some_digit = omega (arith, length-flip s.digits, s.some_digit);
      short = λ j g. omega (arith, length-flip s.digits, s.short j g);
    }

-- An `int`.
abbrev pub IsInt : ℤ → Type 0
IsInt (pos n) = n < 2 ^ 31
IsInt (negsuc n) = n < 2 ^ 31

-- A text that `itoa` leaves, in at most `max` characters, and what a reader makes of it.
pub record Text {A : Type 0} (max : ℕ) (read : List ℕ → A) (a : A) (printed : Option (List ℕ))
    : Type 0 where
  pub text : List ℕ
  pub is_text : printed ≡ some text
  pub meaning : read text ≡ a
  pub fits : length text ≤ max

read_positive :
    (cs : List ℕ)
    → all_digits cs ≡ true
    → 0 < length cs
    → read_signed cs ≡ pos (read_digits 10 0 cs)
read_positive [] h k = absurd (omega arith)
read_positive (c ∷ cs) h k = ground arith

is_decimal : (base : ℕ) (d : ℤ) → (base == 105 || base == 100) ≡ true → divisor_of base d ≡ 10
unfolding divisor_of with_sign
is_decimal base d b = ground arith

sign_of : (base : ℕ) (d : ℤ) → (base == 105 || base == 100) ≡ true → with_sign base d ≡ is_neg d
unfolding with_sign
sign_of base d b = rw b refl

plain_of : (base : ℕ) (d : ℤ) → (base == 105 || base == 100) ≡ false → with_sign base d ≡ false
unfolding with_sign
plain_of base d b = rw b refl

divisor_of-IsBase : (base : ℕ) (d : ℤ) → IsBase (divisor_of base d)
unfolding divisor_of
divisor_of-IsBase base d = elim (Bool-cases (with_sign base d)) [
  | inl e ↦ rw e (inl refl)
  | inr e ↦ elim (Bool-cases (base == 120 || base == 112)) [
    | inl f ↦ rw (e, f) (inr refl)
    | inr f ↦ rw (e, f) (inl refl)
  ]
]

to_u32-lt : (d : ℤ) → to_u32 d < 2 ^ 32
to_u32-lt (pos n) = omega arith
to_u32-lt (negsuc n) = omega arith

ten_digits : (k n : ℕ) → IsBase k → n < 2 ^ 32 → n < k ^ 10
ten_digits k n (inl e) h = rw e (omega arith)
ten_digits k n (inr e) h = rw e (omega arith)

negated_lem : (n : ℕ) → n < 2 ^ 31 → negated (negsuc n) ≡ suc n
unfolding negated
negated_lem n h = omega arith

minus_sign :
    (base : ℕ) (d : ℤ) (ud : ℕ)
    → with_sign base d ≡ true
    → negated d ≡ ud
    → itoa base d ≡ print_digits (45 ∷ []) (divisor_of base d) ud
unfolding itoa
minus_sign base d ud e u = rw e (ap (print_digits (45 ∷ []) (divisor_of base d)) u)

no_sign :
    (base : ℕ) (d : ℤ) (ud : ℕ)
    → with_sign base d ≡ false
    → to_u32 d ≡ ud
    → itoa base d ≡ print_digits [] (divisor_of base d) ud
unfolding itoa
no_sign base d ud e u = rw e (ap (print_digits [] (divisor_of base d)) u)

print_positive :
    (base : ℕ) (d : ℤ) (n : ℕ)
    → n < 2 ^ 31
    → d ≡ pos n
    → itoa base d ≡ print_digits [] 10 n
    → Text 11 read_signed d (itoa base d)
print_positive base d n h e t =
    let p = print_lem 10 n [] (inl refl) (omega arith) in
    record {
      text = p.number;
      is_text = t ∙ p.printed;
      meaning = read_positive p.number p.valid p.some_digit ∙ ap pos p.meaning ∙ sym e;
      fits = omega (arith, p.short 9);
    }

neg-suc : (n : ℕ) → neg (suc n) ≡ negsuc n
neg-suc n = rw (ne→==_false (suc n) 0 (omega arith)) (ap negsuc (omega arith))

print_negative :
    (base : ℕ) (d : ℤ) (n : ℕ)
    → n < 2 ^ 31
    → d ≡ negsuc n
    → itoa base d ≡ print_digits (45 ∷ []) 10 (suc n)
    → Text 11 read_signed d (itoa base d)
print_negative base d n h e t =
    let p = print_lem 10 (suc n) (45 ∷ []) (inl refl) (omega arith) in
    record {
      text = 45 ∷ p.number;
      is_text = t ∙ p.printed;
      meaning = ap neg p.meaning ∙ neg-suc n ∙ sym e;
      fits = omega (arith, p.short 9);
    }

-- For 'd' and 'i', `itoa` ends with a text of at most 11 characters that a reader of signed decimals
-- takes for the `int` that was printed.
pub itoa-signed :
    (base : ℕ) (d : ℤ)
    → (base == 105 || base == 100) ≡ true
    → IsInt d
    → Text 11 read_signed d (itoa base d)
itoa-signed base (pos n) b h =
    let ten = is_decimal base (pos n) b in
    let same : n % 2 ^ 32 ≡ n = omega arith in
    print_positive base (pos n) n h refl
      (no_sign base (pos n) n (sign_of base (pos n) b) same ∙ ap (λ k. print_digits [] k n) ten)
itoa-signed base (negsuc n) b h =
    let ten = is_decimal base (negsuc n) b in
    print_negative base (negsuc n) n h refl (
      minus_sign base (negsuc n) (suc n) (sign_of base (negsuc n) b) (negated_lem n h)
      ∙ ap (λ k. print_digits (45 ∷ []) k (suc n)) ten)

-- For another `base`, `itoa` ends with a text of at most 10 characters: the digits, hexadecimal for
-- 'x' and 'p' and decimal otherwise, of the number as an unsigned 32-bit one.
itoa-unsigned :
    (base : ℕ) (d : ℤ)
    → (base == 105 || base == 100) ≡ false
    → Text 10 (read_digits (divisor_of base d) 0) (to_u32 d) (itoa base d)
itoa-unsigned base d b =
    let plain = plain_of base d b in
    let k = divisor_of-IsBase base d in
    let p = print_lem (divisor_of base d) (to_u32 d) [] k (to_u32-lt d) in
    record {
      text = p.number;
      is_text = no_sign base d (to_u32 d) plain refl ∙ p.printed;
      meaning = p.meaning;
      fits = p.short 9 (ten_digits (divisor_of base d) (to_u32 d) k (to_u32-lt d));
    }
