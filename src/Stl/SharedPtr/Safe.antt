-- ===== src/Stl/SharedPtr/Safe.antt =====
-- include/stl/bits/shared_ptr.hh: an object is there as long as a variable names it.
use arabos.Prelude.{
  ℕ, zero, suc, ◌+◌, ◌-◌, ◌%◌, ◌^◌, ◌≤◌, ◌<◌, ◌≡◌, refl, ap, ◌∙◌, ◌≢◌, Bool, true, false, ◌&&◌,
  Option, none, some, arith, ℕ_discrete, ltb, ◌==◌, if◌then◌else◌, ==_iff, ltb→lt, lt→ltb,
  ne→==_false,
}
use arabos.Stl.SharedPtr.Holders.{names, holders, holders-stored_at, holders-pos, no_holders}
use mathlib.Core.Path.{subst}
use arabos.Stl.Cells.{stored_at}
use arabos.Stl.SharedPtr.{
  Pointers, inc, dec, construct, share, copy_construct, copy_assign, move_from, release, destruct,
}

-- One member function on variables.
pub data Use : Type 0 where
  constructing : ℕ → Use
  copying : (i sp : ℕ) → Use
  assigning : (i sp : ℕ) → Use
  moving : (i sp : ℕ) → Use
  destructing : ℕ → Use

abbrev pub use_once : Use → Pointers → Option Pointers
use_once (constructing i) s = some (construct s i)
use_once (copying i sp) s = copy_construct s i sp
use_once (assigning i sp) s = copy_assign s i sp
use_once (moving i sp) s = some (move_from s i sp)
use_once (destructing i) s = some (destruct s i)

abbrev pub in_range : ℕ → Use → Bool
in_range n (constructing i) = ltb i n
in_range n (copying i sp) = ltb i n && ltb sp n
in_range n (assigning i sp) = ltb i n && ltb sp n
in_range n (moving i sp) = ltb i n && ltb sp n
in_range n (destructing i) = ltb i n

-- States that `n` variables come to after `k` uses.
pub data Reached (n : ℕ) : ℕ → Pointers → Type 0 where
  nothing_yet :
      Reached n 0 (record { use_count = λ p. 0; live = λ p. false; fresh = 0; vars = λ i. none })
  used :
      {k : ℕ} {s s' : Pointers} (u : Use)
      → in_range n u ≡ true
      → Reached n k s
      → use_once u s ≡ some s'
      → Reached n (suc k) s'

-- After `k` uses: no object has fewer uses than variables that name it, and it is there as long as it
-- has a use; an object that is not made yet has none.
record IsShared (n k : ℕ) (s : Pointers) : Type 0 where
  counted : (p : ℕ) → holders n s.vars p ≤ s.use_count p
  alive : (p : ℕ) → s.live p ≡ ltb 0 (s.use_count p)
  unmade : (p : ℕ) → s.fresh ≤ p → s.use_count p ≡ 0
  few : (p : ℕ) → s.use_count p ≤ k

none-IsShared :
    (n : ℕ)
    → IsShared n 0 (record { use_count = λ p. 0; live = λ p. false; fresh = 0; vars = λ i. none })
none-IsShared n = record {
  counted = λ p. no_holders n p;
  alive = λ p. refl;
  unmade = λ p h. refl;
  few = λ p. omega arith;
}

module _ (n k : ℕ) (s : Pointers) (w : IsShared n k s) (small : k < 2 ^ 32 - 1) where
  construct-IsShared : (i : ℕ) → i < n → IsShared n (suc k) (construct s i)
  unfolding construct
  construct-IsShared i h = record {
    counted = λ p.
        let moved = holders-stored_at n s.vars i (some s.fresh) p h in
        let before = w.counted p in
        let none_yet = w.unmade s.fresh (omega arith) in
        elim (ℕ_discrete p s.fresh) [
          | yes e ↦ ground (arith, moved, before, none_yet, e)
          | no ne ↦ ground (arith, moved, before, ne)
        ];
    alive = λ p. elim (ℕ_discrete p s.fresh) [
      | yes e ↦ rw ((==_iff p s.fresh).1 e) refl
      | no ne ↦ rw (ne→==_false p s.fresh ne) (w.alive p)
    ];
    unmade = λ p l.
        rw (ne→==_false p s.fresh (λ e. omega (arith, e, l))) (w.unmade p (omega (arith, l)));
    few = λ p. elim (ℕ_discrete p s.fresh) [
      | yes e ↦ rw ((==_iff p s.fresh).1 e) (omega arith)
      | no ne ↦ rw (ne→==_false p s.fresh ne) (omega (arith, w.few p))
    ];
  }

  share-IsShared :
      (i j q : ℕ) → i < n → j < n → s.vars j ≡ some q → IsShared n (suc k) (share s i q)
  unfolding share inc
  share-IsShared i j q h l e =
      let has = holders-pos n s.vars j q l e in
      let more : (s.use_count q + 1) % 2 ^ 32 ≡ s.use_count q + 1 = omega (arith, w.few q) in
      record {
        counted = λ p.
            let moved = holders-stored_at n s.vars i (some q) p h in
            let before = w.counted p in
            elim (ℕ_discrete p q) [
              | yes at ↦ rw ((==_iff p q).1 at, more) (ground (arith, moved, before, at))
              | no ne ↦ rw (ne→==_false p q ne) (ground (arith, moved, before, ne))
            ];
        alive = λ p. elim (ℕ_discrete p q) [
          | yes at ↦ rw ((==_iff p q).1 at, more) (ground (arith, w.alive p, w.counted p, has, at))
          | no ne ↦ rw (ne→==_false p q ne) (w.alive p)
        ];
        unmade = λ p g. elim (ℕ_discrete p q) [
          | yes at ↦ absurd (ground (arith, w.unmade p g, w.counted p, has, at))
          | no ne ↦ rw (ne→==_false p q ne) (w.unmade p g)
        ];
        few = λ p. elim (ℕ_discrete p q) [
          | yes at ↦ rw ((==_iff p q).1 at, more) (ground (arith, w.few p, w.few q))
          | no ne ↦ rw (ne→==_false p q ne) (omega (arith, w.few p))
        ];
      }

  move-IsShared : (i j : ℕ) → i < n → j < n → IsShared n (suc k) (move_from s i j)
  unfolding move_from
  move-IsShared i j h l = record {
    counted = λ p.
        let first = holders-stored_at n s.vars i (s.vars j) p h in
        let second = holders-stored_at n (stored_at s.vars i (s.vars j)) j none p l in
        let same : stored_at s.vars i (s.vars j) j ≡ s.vars j = stored j in
        omega (arith, first, second, ap (λ v. names v p) same, w.counted p);
    alive = w.alive;
    unmade = w.unmade;
    few = λ p. omega (arith, w.few p);
  }
    where
      stored : (j : ℕ) → stored_at s.vars i (s.vars j) j ≡ s.vars j
      stored j = elim (ℕ_discrete j i) [
        | yes e ↦ rw ((==_iff j i).1 e) refl
        | no ne ↦ rw (ne→==_false j i ne) refl
      ]

  release-IsShared : (i q : ℕ) → i < n → s.vars i ≡ some q → IsShared n (suc k) (release s i q)
  unfolding release dec
  release-IsShared i q h e =
      let has = holders-pos n s.vars i q h e in
      let less : (s.use_count q + 2 ^ 32 - 1) % 2 ^ 32 ≡ s.use_count q - 1 =
        omega (arith, w.few q, w.counted q, has) in
      record {
        counted = λ p.
            let moved = holders-stored_at n s.vars i none p h in
            let named = ap (λ v. names v p) e in
            let before = w.counted p in
            elim (ℕ_discrete p q) [
              | yes at ↦ rw ((==_iff p q).1 at, less) (ground (arith, moved, before, named, at))
              | no ne ↦ rw (ne→==_false p q ne) (ground (arith, moved, before, ne))
            ];
        alive = λ p. elim (ℕ_discrete p q) [
          | yes at ↦ rw (less, (==_iff p q).1 at) (last_use p (s.use_count q - 1) at)
          | no ne ↦ rw (less, ne→==_false p q ne) (other_use p (s.use_count q - 1) ne)
        ];
        unmade = λ p g. elim (ℕ_discrete p q) [
          | yes at ↦ absurd (ground (arith, w.unmade p g, w.counted p, has, at))
          | no ne ↦ rw (ne→==_false p q ne) (w.unmade p g)
        ];
        few = λ p. elim (ℕ_discrete p q) [
          | yes at ↦ rw ((==_iff p q).1 at, less) (ground (arith, w.few p, w.few q))
          | no ne ↦ rw (ne→==_false p q ne) (omega (arith, w.few p))
        ];
      }
    where
      last_use :
          (p uses : ℕ)
          → p ≡ q
          → (if uses == 0 then stored_at s.live q false else s.live) p ≡ ltb 0 uses
      last_use p zero at = rw ((==_iff p q).1 at) refl
      last_use p (suc u) at =
          let has = holders-pos n s.vars i q h e in
          let uses : 0 < s.use_count p = omega (arith, ap s.use_count at, w.counted q, has) in
          rw (ne→==_false (suc u) 0 (λ z. omega (arith, z)), lt→ltb 0 (suc u) (omega arith))
            (w.alive p ∙ lt→ltb 0 (s.use_count p) uses)

      other_use :
          (p uses : ℕ)
          → p ≢ q
          → (if uses == 0 then stored_at s.live q false else s.live) p ≡ ltb 0 (s.use_count p)
      other_use p zero ne = rw (ne→==_false p q ne) (w.alive p)
      other_use p (suc u) ne = rw (ne→==_false (suc u) 0 (λ z. omega (arith, z))) (w.alive p)

  copied-IsShared :
      (s' : Pointers) (i j : ℕ) (v : Option ℕ)
      → i < n
      → j < n
      → s.vars j ≡ v
      → (elim v [ none ↦ none | some p ↦ some (share s i p) ]) ≡ some s'
      → IsShared n (suc k) s'
  copied-IsShared s' i j none h l at e = absurd (cc e)
  copied-IsShared s' i j (some q) h l at e =
      subst (IsShared n (suc k)) (cc e) (share-IsShared i j q h l at)

  kept-IsShared : IsShared n (suc k) s
  kept-IsShared = record {
    counted = w.counted;
    alive = w.alive;
    unmade = w.unmade;
    few = λ p. omega (arith, w.few p);
  }

  ended-IsShared :
      (i : ℕ) (v : Option ℕ)
      → i < n
      → s.vars i ≡ v
      → IsShared n (suc k) (elim v [ none ↦ s | some p ↦ release s i p ])
  ended-IsShared i none h at = kept-IsShared
  ended-IsShared i (some q) h at = release-IsShared i q h at

  use-IsShared :
      (s' : Pointers) (u : Use)
      → in_range n u ≡ true
      → use_once u s ≡ some s'
      → IsShared n (suc k) s'
  unfolding copy_construct copy_assign destruct
  use-IsShared s' (constructing i) r e =
      subst (IsShared n (suc k)) (cc e) (construct-IsShared i (ltb→lt i n r))
  use-IsShared s' (copying i j) r e =
      copied-IsShared s' i j (s.vars j) (ground (arith, r)) (ground (arith, r)) refl e
  use-IsShared s' (assigning i j) r e =
      copied-IsShared s' i j (s.vars j) (ground (arith, r)) (ground (arith, r)) refl e
  use-IsShared s' (moving i j) r e =
      subst (IsShared n (suc k)) (cc e) (move-IsShared i j (ground (arith, r)) (ground (arith, r)))
  use-IsShared s' (destructing i) r e =
      subst (IsShared n (suc k)) (cc e) (ended-IsShared i (s.vars i) (ltb→lt i n r) refl)

Reached-IsShared : {n k : ℕ} {s : Pointers} → Reached n k s → k < 2 ^ 32 → IsShared n k s
Reached-IsShared nothing_yet b = none-IsShared _
Reached-IsShared {n} (used {k} {s} {s'} u r before runs) b =
    use-IsShared n k s (Reached-IsShared before (omega arith)) (omega arith) s' u r runs

-- Among at most 2^32 - 1 uses of `n` variables, which begin null and each only construct a pointer for
-- a new object, copy, assign, move or end the life of a pointer, an object that a variable names in
-- the end has not been deleted.
pub named-live :
    {n k : ℕ} {s : Pointers} (i p : ℕ)
    → Reached n k s
    → k < 2 ^ 32
    → i < n
    → s.vars i ≡ some p
    → s.live p ≡ true
named-live {n} {k} {s} i p reached b h e =
    let w = Reached-IsShared reached b in
    let has = holders-pos n s.vars i p h e in
    w.alive p ∙ lt→ltb 0 (s.use_count p) (omega (arith, w.counted p, has))
