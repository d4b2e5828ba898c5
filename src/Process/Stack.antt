-- ===== src/Process/Stack.antt =====
-- kernel/fork.cpp: the stack of a forked process.
use arabos.Prelude.{
  ℕ, zero, suc, ◌+◌, ◌*◌, ◌%◌, ◌^◌, ◌≤◌, ◌<◌, ◌≡◌, refl, sym, ap, ◌∙◌, ◌≢◌, ◌⊎◌, inl, inr, true,
  some, arith, ℕ_discrete, ◌==◌, Bool-cases, Option-cases, ==_iff, ne→==_false,
}
use arabos.Process.Switch.{Frame, Kernel}
use mathlib.Core.Path.{subst}
use arabos.Paging.Frames.{Memory, page, alloc_page}
use arabos.Process.Spawn.{poke, find_slot}
use arabos.Process.Fork.{
  Twin, Frames, last, more, Forked, made, copy_words, moved, move_frames, cut_frames, child_stack,
  fork_handler, with_forked, twin_lem, Frames-same, poke-above, move_frames-ends,
}

poke_at : (at v : ℕ) (words : ℕ → ℕ) → poke at v words at ≡ v
poke_at at v words = rw ((==_iff at at).1 refl) refl

poke_off : (at v : ℕ) (words : ℕ → ℕ) (a : ℕ) → a ≢ at → poke at v words a ≡ words a
poke_off at v words a ne = rw (ne→==_false a at ne) refl

-- Two ranges of `n` words have no byte in common.
abbrev pub Disjoint : ℕ → ℕ → ℕ → Type 0
Disjoint dst src n = (dst + 4 * n ≤ src) ⊎ (src + 4 * n ≤ dst)

Disjoint-ne : (dst src n i j : ℕ) → Disjoint dst src n → i < n → j < n → src + 4 * i ≢ dst + 4 * j
Disjoint-ne dst src n i j (inl h) k l = λ e. omega (arith, h, e)
Disjoint-ne dst src n i j (inr h) k l = λ e. omega (arith, h, e)

-- `memcpy` of `m` words, in ranges of `n`.
copied_source :
    (words : ℕ → ℕ) (dst src n m i : ℕ)
    → Disjoint dst src n
    → m ≤ n
    → i < n
    → copy_words words dst src m (src + 4 * i) ≡ words (src + 4 * i)
unfolding copy_words
copied_source words dst src n zero i d h k = refl
copied_source words dst src n (suc m) i d h k =
    poke_off (dst + 4 * m) (copy_words words dst src m (src + 4 * m)) (copy_words words dst src m)
      (src + 4 * i) (Disjoint-ne dst src n i m d k (omega arith))
    ∙ copied_source words dst src n m i d (omega arith) k

pub copied_words :
    (words : ℕ → ℕ) (dst src n m i : ℕ)
    → Disjoint dst src n
    → m ≤ n
    → i < m
    → copy_words words dst src m (dst + 4 * i) ≡ words (src + 4 * i)
unfolding copy_words
copied_words words dst src n zero i d h k = absurd (omega arith)
copied_words words dst src n (suc m) i d h k =
    let before = copy_words words dst src m in
    let v = before (src + 4 * m) in
    elim (ℕ_discrete i m) [
      | yes e ↦ rw e (
          poke_at (dst + 4 * m) v before
          ∙ copied_source words dst src n m m d (omega arith) (omega arith))
      | no ne ↦
          poke_off (dst + 4 * m) v before (dst + 4 * i) (λ e. omega (arith, ne, e))
          ∙ copied_words words dst src n m i d (omega arith) (omega arith)
    ]

-- What the loop over a chain of saved frames leaves.
record Relinked (words words' : ℕ → ℕ) (stack esp at : ℕ) : Type 0 where
  pub below : (a : ℕ) → a < at → words' a ≡ words a
  pub linked : words' at ≡ moved stack esp (words at)
  pub upward : at < moved stack esp (words at)

module _ (words : ℕ → ℕ) (stack esp at : ℕ) where
  abbrev next : ℕ
  next = moved stack esp (words at)

  once : at < next → Relinked words (poke at next words) stack esp at
  once up = record {
    below = λ a h. poke_off at next words a (λ e. omega (arith, e));
    linked = poke_at at next words;
    upward = up;
  }

  then_more :
      (words' : ℕ → ℕ)
      → at < next
      → Relinked (poke at next words) words' stack esp next
      → Relinked words words' stack esp at
  then_more words' up r = record {
    below = λ a h. r.below a (omega (arith, up)) ∙ poke_off at next words a (λ e. omega (arith, e));
    linked = r.below at up ∙ poke_at at next words;
    upward = up;
  }

move_frames-Relinked :
    (fuel n : ℕ) (words words' : ℕ → ℕ) (stack esp at : ℕ)
    → Frames words stack esp at n
    → move_frames fuel words stack esp at ≡ some words'
    → Relinked words words' stack esp at
unfolding move_frames
move_frames-Relinked zero n words words' stack esp at f e = absurd (cc e)
move_frames-Relinked (suc fuel) zero words words' stack esp at f e = elim f [ ]
move_frames-Relinked (suc fuel) (suc zero) words words' stack esp at (last up z) e =
    let w1 = poke at (next words stack esp at) words in
    let ends : (w1 (next words stack esp at) == 0) ≡ true =
      (==_iff (w1 (next words stack esp at)) 0).1
        (poke-above at (next words stack esp at) words (next words stack esp at) up ∙ z) in
    let stops : move_frames (suc fuel) words stack esp at ≡ some w1 = rw ends refl in
    let same : w1 ≡ words' = cc (e, stops) in
    subst (λ w. Relinked words w stack esp at) same (once words stack esp at up)
move_frames-Relinked (suc fuel) (suc n) words words' stack esp at (more up f) e =
    let w1 = poke at (next words stack esp at) words in
    elim (Bool-cases (w1 (next words stack esp at) == 0)) [
      | inl ends ↦
          let stops : move_frames (suc fuel) words stack esp at ≡ some w1 = rw ends refl in
          let same : w1 ≡ words' = cc (e, stops) in
          subst (λ w. Relinked words w stack esp at) same (once words stack esp at up)
      | inr goes ↦
          let f' =
            Frames-same
              (λ a l. poke-above at (next words stack esp at) words a (omega (arith, up, l))) f in
          let rest : move_frames (suc fuel) words stack esp at
              ≡ move_frames fuel w1 stack esp (next words stack esp at) =
            rw goes refl in
          then_more words stack esp at words' up (
            move_frames-Relinked fuel n w1 words' stack esp (next words stack esp at) f'
              (sym rest ∙ e))
    ]

-- What `fork_handler` leaves of a parent whose saved `ebp` is `j` words up its stack: its stack is at
-- `base + 2096`.
pub record ForkedStack (taskend : ℕ) (k : Kernel) (m : Memory) (r : Frame) (base j : ℕ)
    (m' : Memory) (o : Forked) : Type 0 where
  pub after : Kernel
  pub done : o ≡ made (record r { eax = 0 }) after m'
  pub twin : Twin k m r (record r { eax = 0 }) after m'
  -- below the saved `ebp`, the parent's words
  pub copied : (i : ℕ) → i < j → after.words (base + 2096 + 4 * i) ≡ k.words (r.esp + 4 * i)
  -- the saved `ebp`, moved, leads to the last frame, which returns to `taskend`
  pub caller : ℕ
  pub saved : caller ≡ moved (base + 2096) r.esp (k.words (r.esp + 4 * j))
  pub linked : after.words (base + 2096 + 4 * j) ≡ caller
  pub last_frame : after.words caller ≡ 0
  pub returns_to : after.words (caller + 4) ≡ taskend

module _ (words : ℕ → ℕ) (taskend stack esp at : ℕ) (before : ℕ → ℕ)
    (r : Relinked before words stack esp at)
    (inside : moved stack esp (before at) + 4 < 2 ^ 32) where
  abbrev caller_of : ℕ
  caller_of = moved stack esp (before at)

  cut_lem : cut_frames words taskend at ≡ poke caller_of 0 (poke (caller_of + 4) taskend words)
  unfolding cut_frames
  cut_lem =
      let e : (caller_of + 4) % 2 ^ 32 ≡ caller_of + 4 = omega (arith, inside) in
      rw (r.linked, e) refl

  cut-below : (a : ℕ) → a ≤ at → cut_frames words taskend at a ≡ words a
  cut-below a h = rw cut_lem (
      poke_off caller_of 0 (poke (caller_of + 4) taskend words) a (λ e. omega (arith, r.upward, e))
      ∙ poke_off (caller_of + 4) taskend words a (λ e. omega (arith, r.upward, e)))

  cut-caller : cut_frames words taskend at caller_of ≡ 0
  cut-caller = rw cut_lem (poke_at caller_of 0 (poke (caller_of + 4) taskend words))

  cut-return : cut_frames words taskend at (caller_of + 4) ≡ taskend
  cut-return = rw cut_lem (
      poke_off caller_of 0 (poke (caller_of + 4) taskend words) (caller_of + 4)
        (λ e. omega (arith, e))
      ∙ poke_at (caller_of + 4) taskend words)

moved_word :
    (stack esp j : ℕ) → stack + 4 * j < 2 ^ 32 → moved stack esp (esp + 4 * j) ≡ stack + 4 * j
unfolding moved
moved_word stack esp j h = omega arith

-- With a free slot and a page for the stack, whose last 500 words have no byte in common with the 500 words
-- from the parent's `esp` up, a saved `ebp` among these, and a chain of saved frames in the copy of
-- no more frames than there is fuel, that goes up and whose second frame is below 4 GB:
-- `fork_handler` returns 0 and makes the twin of the parent in a slot, whose stack holds the parent's words
-- below the saved `ebp`, and there the address of the caller's frame, moved; that frame is the last one, and
-- returns to `taskend`.
pub fork_handler-ForkedStack :
    (fuel taskend : ℕ) (k : Kernel) (m : Memory) (r : Frame) (slot base j n : ℕ) (m' : Memory)
    → find_slot k.processes 8 0 ≡ some slot
    → alloc_page m ≡ page base m'
    → Disjoint (base + 2096) r.esp 500
    → j < 500
    → r.ebp ≡ r.esp + 4 * j
    → base + 4096 ≤ 2 ^ 32
    → Frames
        (copy_words k.words (base + 2096) r.esp 500)
        (base + 2096)
        r.esp
        (base + 2096 + 4 * j)
        n
    → n ≤ fuel
    → moved (base + 2096) r.esp (k.words (r.esp + 4 * j)) + 4 < 2 ^ 32
    → ForkedStack taskend k m r base j m' (fork_handler fuel taskend k m r)
unfolding fork_handler child_stack
fork_handler-ForkedStack fuel taskend k m r slot base j n m' found paged apart h ebp top chain f
      inside =
    let stack = base + 2096 in
    let at = stack + 4 * j in
    let copy = copy_words k.words stack r.esp 500 in
    let here : moved stack r.esp r.ebp ≡ at =
      ap (moved stack r.esp) ebp ∙ moved_word stack r.esp j (omega arith) in
    let source : copy at ≡ k.words (r.esp + 4 * j) =
      copied_words k.words stack r.esp 500 500 j apart (omega arith) h in
    elim (Option-cases (move_frames fuel copy stack r.esp at)) [
      | inl none_left ↦ absurd (move_frames-ends fuel n copy stack r.esp at chain f none_left)
      | inr (words, e) ↦
          let rel = move_frames-Relinked fuel n copy words stack r.esp at chain e in
          let low : moved stack r.esp (copy at) + 4 < 2 ^ 32 = rw source inside in
          let result : child_stack fuel k.words r base ≡ some words =
            rw (child_stack, here, e) refl in
          record {
            after = with_forked taskend k r slot base words;
            done = rw (fork_handler, found, paged, result) refl;
            twin = twin_lem taskend k m r slot base words m' found paged;
            copied = λ i l.
                let up : stack + 4 * i < at = omega arith in
                rw here (
                  cut-below words taskend stack r.esp at copy rel low (stack + 4 * i) (omega arith)
                  ∙ rel.below (stack + 4 * i) up
                  ∙ copied_words k.words stack r.esp 500 500 i apart (omega arith) (omega arith));
            caller = moved stack r.esp (copy at);
            saved = ap (moved stack r.esp) source;
            linked =
                rw here (
                  cut-below words taskend stack r.esp at copy rel low at (omega arith)
                  ∙ rel.linked);
            last_frame = rw here (cut-caller words taskend stack r.esp at copy rel low);
            returns_to = rw here (cut-return words taskend stack r.esp at copy rel low);
          }
    ]
