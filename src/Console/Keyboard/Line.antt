-- ===== src/Console/Keyboard/Line.antt =====
-- console/kb.cpp: what `readline` answers, and how many characters it stores.
use arabos.Prelude.{
  ℕ, ◌<◌, ◌≡◌, refl, sym, ap, ◌∙◌, ◌≢◌, Bool, true, not, ◌&&◌, Option, none, some, List, [], ◌∷◌,
  ◌++◌, arith, dec_lt, ltb, ◌==◌, if◌then◌else◌, lt→ltb, le→ltb_false, ne→==_false, length, take,
  length-append, take-prefix, take-all,
}
use arabos.Console.Keyboard.{
  Keyboard, readline_handler, read_key, wake, reset, interrupted, readline_loop, readline,
}
use mathlib.Core.List.{append_assoc, append-nil}

-- The globals as a `readline` leaves them for the next one.
pub record IsReset (k : Keyboard) : Type 0 where
  pub none_read : k.cnt_read ≡ 0
  pub no_newline : k.newline_read ≡ 0
  pub not_frozen : k.freeze ≡ 0

-- The keys among the interrupts.
abbrev pub keys : List (Option ℕ) → List ℕ
keys [] = []
keys (none ∷ is) = keys is
keys (some c ∷ is) = c ∷ keys is

abbrev pub no_newline : List ℕ → Bool
no_newline [] = true
no_newline (c ∷ cs) = not (c == 10) && no_newline cs

-- A line of which the keys `typed` have come.
record IsReading (max : ℕ) (k : Keyboard) (typed : List ℕ) : Type 0 where
  stored : k.input ≡ some (take max typed)
  counted : k.cnt_read ≡ length typed
  waiting : k.newline_read ≡ 0
  frozen : k.freeze ≡ (if ltb (length typed) max then 0 else 1)

take-room :
    (n : ℕ) (xs : List ℕ) (x : ℕ) → length xs < n → take n (xs ++ x ∷ []) ≡ take n xs ++ x ∷ []
take-room n xs x h =
    rw (take-all n xs (omega arith))
      (take-all n (xs ++ x ∷ []) (omega (arith, length-append xs (x ∷ []))))

read_key_lem :
    (k : Keyboard) (text : List ℕ) (c : ℕ)
    → k.input ≡ some text
    → readline_handler k c ≡ read_key k text c
unfolding readline_handler
read_key_lem k text c e = ground (arith, e)

-- A key other than the newline, and the turn of the loop after it.
key-IsReading :
    (max : ℕ) (k : Keyboard) (typed : List ℕ) (c : ℕ)
    → c ≢ 10
    → IsReading max k typed
    → IsReading max (wake max (readline_handler k c)) (typed ++ c ∷ [])
unfolding wake read_key
key-IsReading max k typed c ne r =
    let grown = length-append typed (c ∷ []) in
    let other = ne→==_false c 10 ne in
    rw (read_key_lem k (take max typed) c r.stored) (record {
      stored = elim (dec_lt (length typed) max) [
        | yes room ↦
            rw (other, r.frozen, lt→ltb (length typed) max room)
              (ap some (sym (take-room max typed c room)))
        | no full ↦
            rw (other, r.frozen, le→ltb_false (length typed) max (omega arith))
              (ap some (sym (take-prefix max typed (c ∷ []) (omega arith))))
      ];
      counted = omega (arith, r.counted, grown);
      waiting = rw other r.waiting;
      frozen = ground (arith, r.counted, r.frozen, grown);
    })

-- Another interrupt.
wake-IsReading :
    (max : ℕ) (k : Keyboard) (typed : List ℕ)
    → IsReading max k typed
    → IsReading max (wake max k) typed
unfolding wake
wake-IsReading max k typed r = record {
  stored = r.stored;
  counted = r.counted;
  waiting = r.waiting;
  frozen = ground (arith, r.counted, r.frozen);
}

-- What a turn of the loop does after its interrupt.
turn : ℕ → List (Option ℕ) → Keyboard → Option (List ℕ × Keyboard)
turn max is k =
    let rest = readline_loop max (wake max k) is in
    if k.newline_read == 0
    then rest
    else elim k.input [ none ↦ none | some text ↦ some (text, reset k) ]

loop_turn :
    (max : ℕ) (k : Keyboard) (i : Option ℕ) (is : List (Option ℕ))
    → readline_loop max k (i ∷ is) ≡ turn max is (interrupted k i)
unfolding readline_loop turn
loop_turn max k i is = refl

turn-waiting :
    (max : ℕ) (is : List (Option ℕ)) (k : Keyboard)
    → k.newline_read ≡ 0
    → turn max is k ≡ readline_loop max (wake max k) is
unfolding turn
turn-waiting max is k e = rw e refl

turn-newline :
    (max : ℕ) (is : List (Option ℕ)) (k : Keyboard) (text : List ℕ)
    → turn max is (read_key k text 10) ≡ some (text, reset (read_key k text 10))
unfolding turn read_key
turn-newline max is k text = refl

reset-IsReset : (k : Keyboard) → IsReset (reset k)
unfolding reset
reset-IsReset k = record { none_read = refl; no_newline = refl; not_frozen = refl }

-- A line that is answered, and the globals after it.
pub record Answered (max : ℕ) (typed : List ℕ) (answer : Option (List ℕ × Keyboard)) : Type 0 where
  pub after : Keyboard
  pub line : answer ≡ some (take max typed, after)
  pub again : IsReset after

loop_lem :
    (max : ℕ) (k : Keyboard) (typed : List ℕ) (before after : List (Option ℕ))
    → no_newline (keys before) ≡ true
    → IsReading max k typed
    → Answered max (typed ++ keys before) (readline_loop max k (before ++ some 10 ∷ after))
unfolding interrupted wake
loop_lem max k typed [] after h r =
    let last = read_key k (take max typed) 10 in
    record {
      after = reset last;
      line =
          loop_turn max k (some 10) after
          ∙ ap (turn max after) (read_key_lem k (take max typed) 10 r.stored)
          ∙ turn-newline max after k (take max typed)
          ∙ ap (λ t. some (take max t, reset last)) (sym (append-nil typed));
      again = reset-IsReset last;
    }
loop_lem max k typed (none ∷ before) after h r =
    let is = before ++ some 10 ∷ after in
    let ih = loop_lem max (wake max k) typed before after h (wake-IsReading max k typed r) in
    record {
      after = ih.after;
      line = loop_turn max k none is ∙ turn-waiting max is k r.waiting ∙ ih.line;
      again = ih.again;
    }
loop_lem max k typed (some c ∷ before) after h r =
    let is = before ++ some 10 ∷ after in
    let next = key-IsReading max k typed c (ground (arith, h)) r in
    let ih =
      loop_lem max (wake max (readline_handler k c)) (typed ++ c ∷ []) before after
        (ground (arith, h)) next in
    record {
      after = ih.after;
      line =
          loop_turn max k (some c) is
          ∙ turn-waiting max is (readline_handler k c) next.waiting
          ∙ ih.line
          ∙ ap (λ t. some (take max t, ih.after)) (append_assoc typed (c ∷ []) (keys before));
      again = ih.again;
    }

-- `readline` with room for one character at least, on globals that are reset and interrupts that come
-- one at a time, up to a newline: it answers the first `max` keys before the newline, and resets.
pub readline-line :
    (max : ℕ) (k : Keyboard) (before after : List (Option ℕ))
    → 0 < max
    → IsReset k
    → no_newline (keys before) ≡ true
    → Answered max (keys before) (readline max k (before ++ some 10 ∷ after))
unfolding readline
readline-line max k before after m r h =
    loop_lem max (record k { input = some [] }) [] before after h
      (record {
        stored = ap some (sym (take-all max [] (omega arith)));
        counted = r.none_read;
        waiting = r.no_newline;
        frozen = rw (lt→ltb 0 max m) r.not_frozen;
      })
