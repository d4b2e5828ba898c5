-- ===== src/Console/Colour.antt =====
-- console/console.cpp, ECMA48: the colour codes. The characters that are taken also go to the serial
-- port, as they are.
use arabos.Prelude.{
  ℕ, zero, suc, ◌+◌, ◌-◌, ◌*◌, ◌^◌, ◌<◌, bit_and, bit_or, ◌≡◌, refl, Bool, true, false, ◌||◌,
  Option, none, some, List, [], ◌∷◌, arith, ◌==◌, if◌then◌else◌,
}
use arabos.Prelude.Bits.{bit_or-lt, bit_and-le_right, bit_or_comm, bit_or_disjoint}

-- The loop up to `m`: the attribute, and what is left. A code for a colour takes the character that
-- follows, and reads past the string where there is none: `none`.
unfoldable pub codes : List ℕ → ℕ → Option (ℕ × List ℕ)
codes [] attribute = some (0, [])
codes (c ∷ []) attribute =
    if c == b'm'
    then some (attribute, [])
    else if c == b'3' || c == b'4'
    then none
    else if c == b'0' || c == b'1' || c == b';'
    then some (0, [])
    else some (0, c ∷ [])
codes (c ∷ d ∷ fmt) attribute =
    let front = codes fmt (bit_or (bit_and attribute 0xf0) (bit_and (d + 2 ^ 32 - b'0') 0xf)) in
    let back =
      codes fmt (bit_or (bit_and attribute 0x0f) (bit_and ((d + 2 ^ 32 - b'0') * 16) 0xf0)) in
    let reset = codes (d ∷ fmt) 0x07 in
    let bright = codes (d ∷ fmt) (bit_or attribute 0x08) in
    let next = codes (d ∷ fmt) attribute in
    if c == b'm'
    then some (attribute, d ∷ fmt)
    else if c == b'3'
    then front
    else if c == b'4'
    then back
    else if c == b'0'
    then reset
    else if c == b'1'
    then bright
    else if c == b';'
    then next
    else some (0, c ∷ d ∷ fmt)

unfoldable pub ecma48 : List ℕ → Option (ℕ × List ℕ)
unfolding codes
ecma48 [] = some (0x07, [])
ecma48 (c ∷ fmt) = if c == b'[' then codes fmt 0x07 else some (0x07, c ∷ fmt)

-- A byte, and what is left of a string.
abbrev pub IsByte : Option (ℕ × List ℕ) → Type 0
IsByte none = Unit
IsByte (some (a, fmt)) = a < 256

if_IsByte :
    (b : Bool) (x y : Option (ℕ × List ℕ)) → IsByte x → IsByte y → IsByte (if b then x else y)
if_IsByte true x y p q = p
if_IsByte false x y p q = q

-- The attribute that is parsed is a byte, whatever the string is.
codes-IsByte : (fmt : List ℕ) (attribute : ℕ) → attribute < 256 → IsByte (codes fmt attribute)
unfolding codes
codes-IsByte [] attribute h = omega arith
codes-IsByte (c ∷ []) attribute h = if_IsByte (c == b'm') _ _ h (
    if_IsByte (c == b'3' || c == b'4') _ _ tt
      (if_IsByte (c == b'0' || c == b'1' || c == b';') _ _ (omega arith) (omega arith)))
codes-IsByte (c ∷ d ∷ fmt) attribute h = if_IsByte (c == b'm') _ _ h (
    if_IsByte (c == b'3') _ _
      (codes-IsByte fmt _ (
        bit_or-lt 8 _ _ (omega (arith, bit_and-le_right attribute 0xf0))
          (omega (arith, bit_and-le_right (d + 2 ^ 32 - b'0') 0xf))))
      (if_IsByte (c == b'4') _ _
        (codes-IsByte fmt _ (
          bit_or-lt 8 _ _ (omega (arith, bit_and-le_right attribute 0x0f))
            (omega (arith, bit_and-le_right ((d + 2 ^ 32 - b'0') * 16) 0xf0))))
        (if_IsByte (c == b'0') _ _ (codes-IsByte (d ∷ fmt) 0x07 (omega arith)) (
          if_IsByte (c == b'1') _ _
            (codes-IsByte (d ∷ fmt) _ (bit_or-lt 8 attribute 0x08 (omega arith) (omega arith)))
            (if_IsByte (c == b';') _ _ (codes-IsByte (d ∷ fmt) attribute h) (omega arith))))))

-- If `ECMA48` returns, the attribute is a byte, whatever the string is.
pub ecma48-IsByte : (fmt : List ℕ) → IsByte (ecma48 fmt)
unfolding ecma48
ecma48-IsByte [] = omega arith
ecma48-IsByte (c ∷ fmt) =
    if_IsByte (c == b'[') _ _ (codes-IsByte fmt 0x07 (omega arith)) (omega arith)

-- The colour that a digit sets in the foreground, and in the background.
front_lem : (x : ℕ) → x < 8 → bit_and (bit_or 0 (bit_and (b'0' + x + 2 ^ 32 - b'0') 0xf)) 0xf ≡ x
front_lem zero h = refl
front_lem (suc zero) h = refl
front_lem (suc (suc zero)) h = refl
front_lem (suc (suc (suc zero))) h = refl
front_lem (suc (suc (suc (suc zero)))) h = refl
front_lem (suc (suc (suc (suc (suc zero))))) h = refl
front_lem (suc (suc (suc (suc (suc (suc zero)))))) h = refl
front_lem (suc (suc (suc (suc (suc (suc (suc zero))))))) h = refl
front_lem (suc (suc (suc (suc (suc (suc (suc (suc n)))))))) h = absurd (omega arith)

back_lem : (y : ℕ) → y < 8 → bit_and ((b'0' + y + 2 ^ 32 - b'0') * 16) 0xf0 ≡ y * 16
back_lem zero h = refl
back_lem (suc zero) h = refl
back_lem (suc (suc zero)) h = refl
back_lem (suc (suc (suc zero))) h = refl
back_lem (suc (suc (suc (suc zero)))) h = refl
back_lem (suc (suc (suc (suc (suc zero))))) h = refl
back_lem (suc (suc (suc (suc (suc (suc zero)))))) h = refl
back_lem (suc (suc (suc (suc (suc (suc (suc zero))))))) h = refl
back_lem (suc (suc (suc (suc (suc (suc (suc (suc n)))))))) h = absurd (omega arith)

joined_lem : (x y : ℕ) → x < 8 → y < 8 → bit_or x (y * 16) ≡ x + 16 * y
joined_lem x y h k = omega (arith, bit_or_comm x (y * 16), bit_or_disjoint 4 y x (omega arith))

codes-m : (rest : List ℕ) (attribute : ℕ) → codes (b'm' ∷ rest) attribute ≡ some (attribute, rest)
unfolding codes
codes-m [] attribute = refl
codes-m (c ∷ rest) attribute = refl

-- For digits x and y below 8, `ESC [ 3 x ; 4 y m` sets the foreground and the background, and leaves what follows it.
ecma48-colours :
    (x y : ℕ) (rest : List ℕ)
    → x < 8
    → y < 8
    → ecma48 (b'[' ∷ b'3' ∷ (b'0' + x) ∷ b';' ∷ b'4' ∷ (b'0' + y) ∷ b'm' ∷ rest)
      ≡ some (x + 16 * y, rest)
unfolding ecma48 codes
ecma48-colours x y rest h k =
    rw (front_lem x h, back_lem y k, joined_lem x y h k) (codes-m rest (x + 16 * y))
