-- ===== src/Stl/Vector/Refine.antt =====
-- include/stl/bits/vector.hh: any operations on a new vector do to its elements what they do to a list.
use arabos.Prelude.{
  ℕ, ◌-◌, zero, suc, ◌+◌, ◌^◌, ◌≤◌, ◌<◌, ◌≡◌, refl, ap, ◌∙◌, List, [], ◌∷◌, ◌++◌, arith, dec_lt,
  ltb, leb, if◌then◌else◌, lt→ltb, le→leb, lt→leb_false, le→ltb_false, length, take, drop,
  length-append,
}
use mathlib.Core.Path.{subst}
use arabos.Stl.StaticVector.{remove_at, insert_at}
use arabos.Stl.Vector.{
  Vector, Outcome, ok, empty_vector, next, push_back, insert, place, erase, clear,
}
use arabos.Stl.Vector.Growth.{IsVector, Holds, one_more}

-- One call of a member function.
pub data Call (A : Type 0) : Type 0 where
  pushing : A → Call A
  inserting : ℕ → A → Call A
  erasing : ℕ → Call A
  clearing : Call A

module _ {A : Type 0} where
  -- The calls, from the first one on.
  abbrev pub calls : List (Call A) → Vector A → Outcome A
  calls [] v = ok v
  calls (pushing x ∷ cs) v = next (push_back v x) (calls cs)
  calls (inserting pos x ∷ cs) v = next (insert v pos x) (calls cs)
  calls (erasing it ∷ cs) v = calls cs (erase v it)
  calls (clearing ∷ cs) v = calls cs (clear v)

  -- A call, as a list has it: an element at a place that is not there is neither put in nor taken out,
  -- and one for a place behind the begin goes in one place earlier.
  abbrev pub on_list : Call A → List A → List A
  on_list (pushing x) xs = xs ++ x ∷ []
  on_list (inserting pos x) xs =
      if ltb (length xs) pos then xs else take (pos - 1) xs ++ x ∷ drop (pos - 1) xs
  on_list (erasing it) xs = if leb (length xs) it then xs else take it xs ++ drop (suc it) xs
  on_list clearing xs = []

  abbrev pub all_on_list : List (Call A) → List A → List A
  all_on_list [] xs = xs
  all_on_list (c ∷ cs) xs = all_on_list cs (on_list c xs)

  insert_at_lem :
      (xs : List A) (pos : ℕ) (x : A)
      → pos ≤ length xs
      → (insert_at xs pos x ≡ take pos xs ++ x ∷ drop pos xs)
        × (length (insert_at xs pos x) ≡ length xs + 1)
  unfolding insert_at
  insert_at_lem xs zero x h = (refl, omega arith)
  insert_at_lem [] (suc pos) x h = absurd (omega arith)
  insert_at_lem (y ∷ xs) (suc pos) x h =
      let ih = insert_at_lem xs pos x (omega arith) in (ap (λ l. y ∷ l) ih.0, omega (arith, ih.1))

  remove_at_lem :
      (xs : List A) (it : ℕ)
      → it < length xs
      → (remove_at xs it ≡ take it xs ++ drop (suc it) xs)
        × (length (remove_at xs it) + 1 ≡ length xs)
  unfolding remove_at
  remove_at_lem [] it h = absurd (omega arith)
  remove_at_lem (y ∷ xs) zero h = (refl, omega arith)
  remove_at_lem (y ∷ xs) (suc it) h =
      let ih = remove_at_lem xs it (omega arith) in (ap (λ l. y ∷ l) ih.0, omega (arith, ih.1))

  -- A vector of the elements `xs`, after at most `most` calls.
  pub record At (xs : List A) (most : ℕ) (v : Vector A) : Type 0 where
    pub elements : v.elements ≡ xs
    pub valid : IsVector v
    pub few : length v.elements ≤ most

  -- What a call comes to.
  pub record Goes (xs : List A) (most : ℕ) (o : Outcome A) : Type 0 where
    pub vector : Vector A
    pub done : o ≡ ok vector
    pub at : At xs most vector

  from_Holds :
      {xs : List A} {old small most : ℕ} {o : Outcome A}
      → length xs ≤ most
      → Holds xs old small o
      → Goes xs most o
  from_Holds h g = record {
    vector = g.vector;
    done = g.done;
    at = record {
      elements = g.elements;
      valid = g.valid;
      few = omega (arith, ap length g.elements);
    };
  }

  push_back-Goes :
      (v : Vector A) (x : A) (most : ℕ)
      → IsVector v
      → length v.elements ≤ most
      → most < 2 ^ 30
      → Goes (on_list (pushing x) v.elements) (suc most) (push_back v x)
  unfolding push_back
  push_back-Goes v x most w few small =
      let l = length-append v.elements (x ∷ []) in
      from_Holds (omega (arith, l)) (one_more v (v.elements ++ x ∷ []) w (omega arith) l)

  insert-Goes :
      (v : Vector A) (pos : ℕ) (x : A) (most : ℕ)
      → IsVector v
      → length v.elements ≤ most
      → most < 2 ^ 30
      → Goes (on_list (inserting pos x) v.elements) (suc most) (insert v pos x)
  unfolding insert place
  insert-Goes v pos x most w few small = elim (dec_lt (length v.elements) pos) [
    | yes out ↦ rw (lt→ltb (length v.elements) pos out) (record {
      vector = v;
      done = refl;
      at = record { elements = refl; valid = w; few = omega arith };
    })
    | no inside ↦
        let i = insert_at_lem v.elements (pos - 1) x (omega arith) in
        rw (le→ltb_false (length v.elements) pos (omega arith), ← i.0)
          (from_Holds (omega (arith, i.1))
            (one_more v (insert_at v.elements (pos - 1) x) w (omega arith) i.1))
  ]

  erase-At :
      (v : Vector A) (it most : ℕ)
      → IsVector v
      → length v.elements ≤ most
      → At (on_list (erasing it) v.elements) (suc most) (erase v it)
  unfolding erase
  erase-At v it most w few = elim (dec_lt it (length v.elements)) [
    | no out ↦
        rw (le→leb (length v.elements) it (omega arith))
          (record { elements = refl; valid = w; few = omega arith })
    | yes inside ↦
        let r = remove_at_lem v.elements it inside in
        rw (lt→leb_false (length v.elements) it inside) (record {
          elements = r.0;
          valid = record { some_room = w.some_room; in_array = omega (arith, r.1, w.in_array) };
          few = omega (arith, r.1);
        })
  ]

  clear-At : (v : Vector A) (most : ℕ) → IsVector v → At [] (suc most) (clear v)
  unfolding clear
  clear-At v most w = record {
    elements = refl;
    valid = record { some_room = w.some_room; in_array = omega arith };
    few = omega arith;
  }

  call_then :
      (cs : List (Call A)) (total most : ℕ) {xs : List A} {o : Outcome A} (g : Goes xs most o)
      → Goes (all_on_list cs g.vector.elements) total (calls cs g.vector)
      → Goes (all_on_list cs xs) total (next o (calls cs))
  unfolding next
  call_then cs total most g rest = record {
    vector = rest.vector;
    done = ap (λ q. next q (calls cs)) g.done ∙ rest.done;
    at = subst (λ l. At (all_on_list cs l) total rest.vector) g.at.elements rest.at;
  }

  pub calls_lem :
      (cs : List (Call A)) (v : Vector A) (most total : ℕ)
      → IsVector v
      → length v.elements ≤ most
      → most + length cs ≤ total
      → total < 2 ^ 30
      → Goes (all_on_list cs v.elements) total (calls cs v)
  unfolding next
  calls_lem [] v most total w few t small = record {
    vector = v;
    done = refl;
    at = record { elements = refl; valid = w; few = omega arith };
  }
  calls_lem (pushing x ∷ cs) v most total w few t small =
      let g = push_back-Goes v x most w few (omega arith) in
      call_then cs total (suc most) g
        (calls_lem cs g.vector (suc most) total g.at.valid g.at.few (omega arith) small)
  calls_lem (inserting pos x ∷ cs) v most total w few t small =
      let g = insert-Goes v pos x most w few (omega arith) in
      call_then cs total (suc most) g
        (calls_lem cs g.vector (suc most) total g.at.valid g.at.few (omega arith) small)
  calls_lem (erasing it ∷ cs) v most total w few t small =
      let a = erase-At v it most w few in
      call_then cs total (suc most) (record { vector = erase v it; done = refl; at = a })
        (calls_lem cs (erase v it) (suc most) total a.valid a.few (omega arith) small)
  calls_lem (clearing ∷ cs) v most total w few t small =
      let a = clear-At v most w in
      call_then cs total (suc most) (record { vector = clear v; done = refl; at = a })
        (calls_lem cs (clear v) (suc most) total a.valid a.few (omega arith) small)

  -- Fewer than 2^30 calls of `push_back`, `insert`, `erase` and `clear` on a new vector neither panic nor
  -- store past the array, and leave the elements that a list has after the same calls, where an `insert`
  -- behind the begin of a list puts the element one place before the one that is named.
  pub calls-refine :
      (cs : List (Call A))
      → length cs < 2 ^ 30
      → Goes (all_on_list cs []) (length cs) (calls cs empty_vector)
  unfolding empty_vector
  calls-refine cs h =
      calls_lem cs empty_vector 0 (length cs)
        (record { some_room = omega arith; in_array = omega arith }) (omega arith) (omega arith) h
