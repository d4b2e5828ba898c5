-- ===== src/Semaphore.antt =====
-- lib/semaphore.cpp, with `cmpxchg` and `fetch_and_add` of include/asm.h. A semaphore is an `int`,
-- as a 32-bit word, and a thread takes one access to it at a time.
use arabos.Prelude.{
  ℕ, zero, suc, ◌+◌, ◌-◌, ◌*◌, ◌/◌, ◌%◌, ◌^◌, ◌≤◌, ◌<◌, min, bit_and, bit_or, bit_xor, ◌≡◌, refl,
  sym, ap, ap₂, ◌∙◌, fun_ext, ◌≢◌, ◌↔◌, ◌⊎◌, inl, inr, Bool, true, false, not, ◌&&◌, ◌||◌, Option,
  none, some, List, [], ◌∷◌, ◌++◌, map, arith, dec_lt, ℕ_discrete, ltb, leb, ◌==◌, if◌then◌else◌,
  Bool-cases, Option-cases, ==_iff, ltb→lt, lt→ltb, leb→le, le→leb, lt→leb_false, le→ltb_false,
  ne→==_false, length, get_elem?, set, get_or, get_or-append, take, drop, replicate, length-append,
  length-set, get_elem?-set_self, get_elem?-set_ne, length-take, length-drop, take-append-drop,
  take-prefix, take-all, take-append, drop-append,
}
pub mod Alone
pub mod Together

-- `> 0`, for a word that stands for an `int`.
unfoldable pub is_positive : ℕ → Bool
is_positive w = ltb 0 w && ltb w (2 ^ 31)

-- What an atomic instruction answers, and the word that it leaves.
pub record Answer : Type 0 where
  pub ret : ℕ
  pub word : ℕ

-- `lock; cmpxchgl`: eax holds what the word was, whether it is exchanged or not.
unfoldable pub cmpxchg : ℕ → ℕ → ℕ → Answer
cmpxchg word old new = record { ret = word; word = if word == old then new else word }

unfoldable pub fetch_and_add : ℕ → ℕ → Answer
fetch_and_add word value = record { ret = word; word = (word + value) % 2 ^ 32 }

-- Where a thread stands.
pub data Pc : Type 0 where
  idle : Pc
  polling : Pc  -- `while(*sem <= 0);`
  loading : Pc  -- `old_value = *sem`
  trying : (old_value : ℕ) → Pc  -- `while(cmpxchg(sem, old_value, old_value-1));`
  inside : Pc  -- after `wait`

unfoldable pub after_load : ℕ → Pc
after_load w = if is_positive w then trying w else polling

unfoldable pub after_cmpxchg : Answer → Pc → Pc
after_cmpxchg a again = if a.ret == 0 then inside else again

-- The next access of a thread: the word that it leaves, and where the thread stands then. A thread
-- that is inside calls `signal`.
unfoldable pub word_after : Pc → ℕ → ℕ
word_after idle w = w
word_after polling w = w
word_after loading w = w
word_after (trying old) w = (cmpxchg w old (old - 1)).word
word_after inside w = (fetch_and_add w 1).word

unfoldable pub pc_after : Pc → ℕ → Pc
pc_after idle w = polling
pc_after polling w = if is_positive w then loading else polling
pc_after loading w = after_load w
pc_after (trying old) w = after_cmpxchg (cmpxchg w old (old - 1)) (trying old)
pc_after inside w = idle
