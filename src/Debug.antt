-- ===== src/Debug.antt =====
-- lib/debug.cpp, as it is built with DBG_STABS: the search for an address in the table of debugging
-- symbols. The table is a function of the index, what stands behind it in memory included; addresses
-- and values are ints, as 32-bit words, and the indices are too small to overflow.
use arabos.Prelude.{
  ℕ, zero, suc, ◌+◌, ◌-◌, ◌*◌, ◌/◌, ◌%◌, ◌^◌, ◌≤◌, ◌<◌, min, bit_and, bit_or, bit_xor, ◌≡◌, refl,
  sym, ap, ap₂, ◌∙◌, fun_ext, ◌≢◌, ◌↔◌, ◌⊎◌, inl, inr, Bool, true, false, not, ◌&&◌, ◌||◌, Option,
  none, some, List, [], ◌∷◌, ◌++◌, map, arith, dec_lt, ℕ_discrete, ltb, leb, ◌==◌, if◌then◌else◌,
  Bool-cases, Option-cases, ==_iff, ltb→lt, lt→ltb, leb→le, le→leb, lt→leb_false, le→ltb_false,
  ne→==_false, length, get_elem?, set, get_or, get_or-append, take, drop, replicate, length-append,
  length-set, get_elem?-set_self, get_elem?-set_ne, length-take, length-drop, take-append-drop,
  take-prefix, take-all, take-append, drop-append,
}
pub mod Lines
pub mod Scan
pub mod Ends
pub mod Exact
pub mod Missed
pub mod Errors

pub record Stab : Type 0 where
  pub n_strx : ℕ
  pub n_type : ℕ
  pub n_other : ℕ
  pub n_desc : ℕ
  pub n_value : ℕ

-- The place of an int, by its word, in the order of the ints.
unfoldable pub rank : ℕ → ℕ
rank w = (w + 2 ^ 31) % 2 ^ 32

-- How a round of the loop ends: with another round, by a `break` or the loop's test, or by a `return`.
pub data Round : Type 0 where
  again : (low high : ℕ) → Round
  broken : (low high : ℕ) → Round
  returned : (low high : ℕ) → Round

-- `low` and `high` when `seek` returns, where `none` is -1.
pub record Range : Type 0 where
  pub low : Option ℕ
  pub high : ℕ

module _ (t : ℕ → Stab) (type : ℕ) where
  -- `tmp--` from below `n` on, while the stab is of another type; `none` is a `tmp` below `low`.
  unfoldable pub last_before : ℕ → ℕ → Option ℕ
  last_before low zero = none
  last_before low (suc n) =
      let rest = last_before low n in
      if leb low n then (if (t n).n_type == type then some n else rest) else none

  -- `tmp++` for `n` stabs, while they are of another type; `none` is a `tmp` behind them.
  unfoldable pub first_from : ℕ → ℕ → Option ℕ
  first_from tmp zero = none
  first_from tmp (suc n) =
      let rest = first_from (tmp + 1) n in if (t tmp).n_type == type then some tmp else rest

  -- The stab of the type that is nearest to the middle: before it, or else behind it.
  unfoldable pub middle : ℕ → ℕ → Option ℕ
  middle low high =
      let m = (high + low) / 2 in
      elim (last_before low (m + 1)) [ some tmp ↦ some tmp | none ↦ first_from m (high + 1 - m) ]

  -- The stab is below the address: what comes of the next one.
  unfoldable pub go_up : ℕ → ℕ → ℕ → Option ℕ → Round
  go_up addr high old none = broken old high
  go_up addr high old (some tmp) =
      if leb (rank (t tmp).n_value) (rank addr) then again tmp high else broken old high

  -- The stab is above the address: what comes of the one before it.
  unfoldable pub go_down : ℕ → ℕ → ℕ → Option ℕ → Round
  go_down addr low old none = broken low old
  go_down addr low old (some tmp) =
      if leb (rank addr) (rank (t tmp).n_value) then again low tmp else broken low old

  unfoldable pub compare_with : ℕ → ℕ → ℕ → Option ℕ → Round
  compare_with addr low high none = returned low high
  compare_with addr low high (some tmp) =
      if ltb (rank (t tmp).n_value) (rank addr)
      then go_up addr high tmp (first_from (tmp + 1) (high - tmp))
      else if ltb (rank addr) (rank (t tmp).n_value)
      then go_down addr low tmp (last_before low tmp)
      else returned tmp high

  unfoldable pub round : ℕ → ℕ → ℕ → Round
  round addr low high =
      if ltb low high then compare_with addr low high (middle low high) else broken low high

  -- `while(high > low)`; no result when the fuel runs out.
  unfoldable pub seek_loop : ℕ → ℕ → ℕ → ℕ → Option Round
  seek_loop zero addr low high = none
  seek_loop (suc fuel) addr low high = elim (round addr low high) [
    | again low' high' ↦ seek_loop fuel addr low' high'
    | broken low' high' ↦ some (broken low' high')
    | returned low' high' ↦ some (returned low' high')
  ]

  abbrev pub or_behind : ℕ → Option ℕ → ℕ
  or_behind orig_high none = orig_high + 1
  or_behind orig_high (some tmp) = tmp

  abbrev pub or_before : ℕ → Option ℕ → Option ℕ
  or_before zero none = none
  or_before (suc n) none = some n
  or_before orig_low (some tmp) = some tmp

  -- What follows the loop.
  unfoldable pub finish : ℕ → ℕ → ℕ → ℕ → ℕ → Range
  finish addr orig_low orig_high low high =
      if (t low).n_type == type && ltb (rank (t low).n_value) (rank addr)
      then record {
        low = some low;
        high = or_behind orig_high (first_from (low + 1) (orig_high - low));
      }
      else if (t high).n_type == type && ltb (rank addr) (rank (t high).n_value)
      then record { low = or_before orig_low (last_before orig_low high); high = high }
      else record { low = some low; high = high }

  abbrev pub after_loop : ℕ → ℕ → ℕ → Round → Range
  after_loop addr orig_low orig_high (returned low high) = record { low = some low; high = high }
  after_loop addr orig_low orig_high (broken low high) = finish addr orig_low orig_high low high
  after_loop addr orig_low orig_high (again low high) = finish addr orig_low orig_high low high

  unfoldable pub seek : ℕ → ℕ → ℕ → ℕ → Option Range
  seek fuel addr low high = elim (seek_loop fuel addr low high) [
    | none ↦ none
    | some r ↦ some (after_loop addr low high r)
  ]
