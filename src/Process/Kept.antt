-- ===== src/Process/Kept.antt =====
-- kernel/fork.cpp: what a switch of `schedule` keeps.
use arabos.Prelude.{
  ℕ, ◌+◌, ◌≤◌, ◌<◌, ◌≡◌, refl, sym, ap, ◌∙◌, ◌≢◌, inl, inr, true, false, some, arith, ℕ_discrete,
  ◌==◌, if◌then◌else◌, Bool-cases, ==_iff, le→leb, le→ltb_false, ne→==_false,
}
use arabos.Process.Switch.{
  Frame, Process, Kernel, Scheduled, refused, resumes, hangs, is_current, next_process, save,
  schedule,
}
use arabos.Process.Turns.{Turn, next_process_lem, not_passed}

-- What a switch from process `c`, interrupted in the frame `r`, did.
pub record Switched (k : Kernel) (r : Frame) (c : ℕ) (f : Frame) (k' : Kernel) : Type 0 where
  pub next : ℕ
  pub other : (next < 8) × (next ≢ c)
  pub ready : (k.processes next).valid ≡ true
  pub now_current : k'.current ≡ some next
  -- it goes on where it was interrupted, with its return address on its stack
  pub resumed : f ≡ (k.processes next).frame
  pub returns_to : k'.words (f.esp + 8) ≡ f.eip
  -- the frame of `c` is kept for its next turn, and the other processes as they were
  pub kept : (k'.processes c).frame ≡ r
  pub others : (p : ℕ) → p ≢ c → k'.processes p ≡ k.processes p
  pub as_valid : (p : ℕ) → (k'.processes p).valid ≡ (k.processes p).valid

abbrev pub Outcome : Kernel → Frame → ℕ → Scheduled → Type 0
Outcome k r c refused = (p : ℕ) → p < 8 → p ≢ c → (k.processes p).valid ≡ false
Outcome k r c (resumes f k') = Switched k r c f k'
Outcome k r c hangs = ⊥

module _ (k : Kernel) (r : Frame) (c : ℕ) (cur : k.current ≡ some c)
    (valid : (k.processes c).valid ≡ true) (own : 0x300000 ≤ r.esp) where
  save_self : save k r c ≡ record (k.processes c) { frame = r }
  unfolding save
  save_self = rw (cur, le→leb 0x260000 r.esp (omega arith), (==_iff c c).1 refl, valid) refl

  save_other : (p : ℕ) → p ≢ c → save k r p ≡ k.processes p
  unfolding save
  save_other p ne =
      rw (cur, le→leb 0x260000 r.esp (omega arith), ne→==_false c p (λ e. ne (sym e))) refl

  save-valid : (p : ℕ) → (save k r p).valid ≡ (k.processes p).valid
  save-valid p = elim (ℕ_discrete p c) [
    | yes e ↦ rw (e, save_self) refl
    | no ne ↦ rw (save_other p ne) refl
  ]

  abbrev switched : ℕ → Kernel
  switched n = record {
    processes = save k r;
    current = some n;
    words = λ a. if a == (save k r n).frame.esp + 8 then (save k r n).frame.eip else k.words a;
  }

  schedule_found :
      (n : ℕ)
      → next_process k.processes k.current ≡ some n
      → schedule k r
        ≡ (if is_current k.current n then refused else resumes (save k r n).frame (switched n))
  unfolding schedule
  schedule_found n e = rw (e, le→ltb_false r.esp 0x300000 own) refl

  went_on :
      (n : ℕ)
      → n ≢ c
      → n < 8
      → (k.processes n).valid ≡ true
      → Switched k r c (save k r n).frame (switched n)
  went_on n ne h ready = record {
    next = n;
    other = (h, ne);
    ready = ready;
    now_current = refl;
    resumed = ap (λ (p : Process). p.frame) (save_other n ne);
    returns_to =
        rw ((==_iff ((save k r n).frame.esp + 8) ((save k r n).frame.esp + 8)).1 refl) refl;
    kept = ap (λ (p : Process). p.frame) save_self;
    others = save_other;
    as_valid = save-valid;
  }

ready_one :
    (k : Kernel) (c n : ℕ) (turn : Turn k.processes c n) → n ≢ c → (k.processes n).valid ≡ true
ready_one k c n turn ne = elim turn.ready [ inl ready ↦ ready | inr same ↦ absurd (ne same) ]

-- If the turn is the current process's own, no other one is ready.
idle :
    (k : Kernel) (c p : ℕ) {n : ℕ} (turn : Turn k.processes c n)
    → n ≡ c
    → c < 8
    → p < 8
    → p ≢ c
    → (k.processes p).valid ≡ false
idle k c p {n = n} turn same hc hp ne = elim (Bool-cases (k.processes p).valid) [
  | inr is_idle ↦ is_idle
  | inl ready ↦
      absurd
        (omega (arith, not_passed k.processes c p n turn hc hp ne ready, turn.at, turn.range, same))
]

-- For a ready current process whose stack is its own, `schedule` does not hang; it refuses only if
-- no other process is ready; and a switch goes on with a ready one in the frame of its last
-- interruption, keeps the frame of the current one, and changes no other process.
pub schedule_lem :
    (k : Kernel) (r : Frame) (c : ℕ)
    → c < 8
    → k.current ≡ some c
    → (k.processes c).valid ≡ true
    → 0x300000 ≤ r.esp
    → Outcome k r c (schedule k r)
schedule_lem k r c h cur valid own =
    let (n, found, turn) = next_process_lem k.processes c h in
    let small : n < 8 = omega (arith, turn.at) in
    let runs = schedule_found k r c cur valid own n (rw cur found) in
    elim (ℕ_discrete n c) [
      | yes same ↦
          let stays : schedule k r ≡ refused = runs ∙ rw (same, cur, (==_iff c c).1 refl) refl in
          rw stays (λ p hp ne. idle k c p turn same h hp ne)
      | no ne ↦
          let goes : schedule k r ≡ resumes (save k r n).frame (switched k r c cur valid own n) =
            runs
            ∙ (let other : is_current k.current n ≡ false =
                  rw cur (ne→==_false c n (λ e. ne (sym e))) in
                rw other refl) in
          rw goes (went_on k r c cur valid own n ne small (ready_one k c n turn ne))
    ]
