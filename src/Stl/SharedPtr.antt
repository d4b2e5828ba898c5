-- ===== src/Stl/SharedPtr.antt =====
-- include/stl/bits/shared_ptr.hh: pointers that share an object and a count of its uses. An object and
-- its count have one number, by which a pointer names both, and a null pointer names none.
use arabos.Prelude.{
  ℕ, zero, suc, ◌+◌, ◌-◌, ◌*◌, ◌/◌, ◌%◌, ◌^◌, ◌≤◌, ◌<◌, min, bit_and, bit_or, bit_xor, ◌≡◌, refl,
  sym, ap, ap₂, ◌∙◌, fun_ext, ◌≢◌, ◌↔◌, ◌⊎◌, inl, inr, Bool, true, false, not, ◌&&◌, ◌||◌, Option,
  none, some, List, [], ◌∷◌, ◌++◌, map, arith, dec_lt, ℕ_discrete, ltb, leb, ◌==◌, if◌then◌else◌,
  Bool-cases, Option-cases, ==_iff, ltb→lt, lt→ltb, leb→le, le→leb, lt→leb_false, le→ltb_false,
  ne→==_false, length, get_elem?, set, get_or, get_or-append, take, drop, replicate, length-append,
  length-set, get_elem?-set_self, get_elem?-set_ne, length-take, length-drop, take-append-drop,
  take-prefix, take-all, take-append, drop-append,
}
use arabos.Stl.Cells.{stored_at}
pub mod Holders
pub mod Safe

-- The counts, which objects there are, the number of the next one, and the pointers by variable. A
-- variable whose life has ended holds none.
pub record Pointers : Type 0 where
  pub use_count : ℕ → ℕ
  pub live : ℕ → Bool
  pub fresh : ℕ
  pub vars : ℕ → Option ℕ

-- `atomic_inc` and `atomic_dec` of a count
unfoldable pub inc : ℕ → ℕ
inc n = (n + 1) % 2 ^ 32

unfoldable pub dec : ℕ → ℕ
dec n = (n + 2 ^ 32 - 1) % 2 ^ 32

-- `explicit shared_ptr(T* p)`, for a new object.
unfoldable pub construct : Pointers → ℕ → Pointers
construct s i = record {
  use_count = stored_at s.use_count s.fresh 1;
  live = stored_at s.live s.fresh true;
  fresh = s.fresh + 1;
  vars = stored_at s.vars i (some s.fresh);
}

-- One use more, of the object that variable `i` names from now on.
unfoldable pub share : Pointers → ℕ → ℕ → Pointers
share s i p = record s {
  use_count = stored_at s.use_count p (inc (s.use_count p));
  vars = stored_at s.vars i (some p);
}

-- `shared_ptr(shared_ptr const &sp)`: the count of a null pointer is at address 0.
unfoldable pub copy_construct : Pointers → ℕ → ℕ → Option Pointers
copy_construct s i sp = elim (s.vars sp) [ none ↦ none | some p ↦ some (share s i p) ]

-- `operator=(shared_ptr const &sp)`: the object that the variable named keeps its use.
unfoldable pub copy_assign : Pointers → ℕ → ℕ → Option Pointers
copy_assign s i sp = elim (s.vars sp) [ none ↦ none | some p ↦ some (share s i p) ]

-- `shared_ptr(shared_ptr &&sp)` and `operator=(shared_ptr &&sp)`
unfoldable pub move_from : Pointers → ℕ → ℕ → Pointers
move_from s i sp = record s { vars = stored_at (stored_at s.vars i (s.vars sp)) sp none }

-- `~shared_ptr()` for a pointer that is not null.
unfoldable pub release : Pointers → ℕ → ℕ → Pointers
release s i p = record s {
  use_count = stored_at s.use_count p (dec (s.use_count p));
  live = if dec (s.use_count p) == 0 then stored_at s.live p false else s.live;
  vars = stored_at s.vars i none;
}

unfoldable pub destruct : Pointers → ℕ → Pointers
destruct s i = elim (s.vars i) [ none ↦ s | some p ↦ release s i p ]
