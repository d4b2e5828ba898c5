-- ===== src/Stl/Cells/Refine.antt =====
-- include/stl/bits/static_vector.hh: the array's operations do to its elements what those on lists do.
use arabos.Prelude.{
  ℕ, suc, ◌+◌, ◌-◌, ◌%◌, ◌^◌, ◌≤◌, ◌<◌, ◌≡◌, refl, ap, ap₂, ◌∙◌, List, [], ◌∷◌, ◌++◌, arith, dec_lt,
  lt→ltb, le→leb, lt→leb_false, le→ltb_false,
}
use arabos.Stl.StaticVector
use arabos.Stl.StaticVector.{remove_at, insert_at}
use arabos.Stl.Vector.Refine.{Call, pushing, inserting, erasing, clearing}
use arabos.Stl.Cells.{
  Cells, stored_at, move_range, move_backward, guarantee_capacity, push_back, insert, erase, clear,
  elements_from, elements,
}
use arabos.Stl.Cells.Elements.{
  length-elements_from, elements_from-snoc, elements_from-insert_at, elements_from-remove_at,
  elements_from-eq,
}
use arabos.Stl.Cells.Moves.{
  stored_at_self, stored_at_other, move_range-MovedDown, MovedUp, move_backward-MovedUp,
}

module _ {A : Type 0} where
  -- The array of `n` cells holds `xs` then, and nothing behind the array has changed.
  pub record Does (n : ℕ) (v v' : Cells A) (xs : List A) : Type 0 where
    pub contents : elements v' ≡ xs
    pub fits : v'.m_size ≤ n
    pub kept : (i : ℕ) → n ≤ i → v'.m_array i ≡ v.m_array i

  module _ (n : ℕ) (v : Cells A) (fits : v.m_size ≤ n) (small : n < 2 ^ 32 - 1) where
    same : Does n v v (elements v)
    same = record { contents = refl; fits = fits; kept = λ i h. refl }

    pushed :
        (x : A)
        → elements_from (stored_at v.m_array v.m_size x) 0 (v.m_size + 1) ≡ elements v ++ x ∷ []
    pushed x =
        let g = stored_at v.m_array v.m_size x in
        let one : v.m_size + 1 ≡ suc v.m_size = omega arith in
        let at : 0 + v.m_size ≡ v.m_size = omega arith in
        ap (elements_from g 0) one
        ∙ elements_from-snoc g 0 v.m_size
        ∙ ap₂ (λ xs y. xs ++ y ∷ [])
            (elements_from-eq g v.m_array 0 0 v.m_size
              (λ i l. stored_at_other v.m_array v.m_size (0 + i) x (λ e. omega (arith, e, l))))
            (ap g at ∙ stored_at_self v.m_array v.m_size x)

    push_back-Does : (x : A) → Does n v (push_back n v x) (StaticVector.push_back n (elements v) x)
    unfolding push_back StaticVector.push_back guarantee_capacity
    push_back-Does x =
        let size = length-elements_from v.m_array 0 v.m_size in
        let wrap : (v.m_size + 1) % 2 ^ 32 ≡ v.m_size + 1 = omega arith in
        elim (dec_lt v.m_size n) [
          | yes room ↦
              rw (size, wrap, le→leb (v.m_size + 1) n (omega arith))
                (record {
                  contents = pushed x;
                  fits = omega arith;
                  kept = λ i h. stored_at_other v.m_array v.m_size i x (λ e. omega (arith, e));
                })
          | no full ↦ rw (size, wrap, lt→leb_false (v.m_size + 1) n (omega arith)) same
        ]

    -- The array after `move_backward` and the value.
    module _ (z x : A) (pos : ℕ) (inside : pos ≤ v.m_size) (room : v.m_size < n) where
      abbrev first : ℕ → A
      first = stored_at v.m_array v.m_size z

      abbrev opened : ℕ → A
      opened = move_backward first (v.m_size - pos) v.m_size (v.m_size + 1)

      opened-MovedUp : MovedUp first opened (v.m_size - pos) v.m_size
      opened-MovedUp = move_backward-MovedUp first (v.m_size - pos) v.m_size (omega arith)

      inserted-Does :
          Does n v
            (record { m_array = stored_at opened pos x; m_size = v.m_size + 1 })
            (insert_at (elements v) pos x)
      inserted-Does =
          let up = opened-MovedUp in
          let one : v.m_size + 1 ≡ suc v.m_size = omega arith in
          record {
            contents =
                ap (elements_from (stored_at opened pos x) 0) one
                ∙ elements_from-insert_at v.m_array (stored_at opened pos x) 0 v.m_size pos x inside
                    (λ i l.
                      stored_at_other opened pos i x (λ e. omega (arith, e, l))
                      ∙ up.before i (omega arith)
                      ∙ stored_at_other v.m_array v.m_size i z (λ e. omega (arith, e, l)))
                    (ap (stored_at opened pos x) (omega arith) ∙ stored_at_self opened pos x)
                    (λ i k l.
                      stored_at_other opened pos (i + 1) x (λ e. omega (arith, e, k))
                      ∙ up.moved i (omega arith) (omega arith)
                      ∙ stored_at_other v.m_array v.m_size i z (λ e. omega (arith, e, l)));
            fits = omega arith;
            kept = λ i h.
                stored_at_other opened pos i x (λ e. omega (arith, e, h))
                ∙ up.behind i (omega arith)
                ∙ stored_at_other v.m_array v.m_size i z (λ e. omega (arith, e, h));
          }

    insert-Does :
        (z x : A) (pos : ℕ)
        → Does n v (insert z n v pos x).0 (StaticVector.insert n (elements v) pos x)
    unfolding insert StaticVector.insert guarantee_capacity
    insert-Does z x pos =
        let size = length-elements_from v.m_array 0 v.m_size in
        let wrap : (v.m_size + 1) % 2 ^ 32 ≡ v.m_size + 1 = omega arith in
        elim (dec_lt v.m_size pos) [
          | yes out ↦ rw (size, lt→ltb v.m_size pos out) same
          | no inside ↦ elim (dec_lt v.m_size n) [
            | yes room ↦
                rw
                  (
                    size,
                    wrap,
                    le→ltb_false v.m_size pos (omega arith),
                    le→leb (v.m_size + 1) n (omega arith),
                  )
                  (inserted-Does z x pos (omega arith) room)
            | no full ↦
                rw
                  (
                    size,
                    wrap,
                    le→ltb_false v.m_size pos (omega arith),
                    lt→leb_false (v.m_size + 1) n (omega arith),
                  )
                  same
          ]
        ]

    erase-Does : (it : ℕ) → Does n v (erase v it).0 (StaticVector.erase (elements v) it)
    unfolding erase StaticVector.erase
    erase-Does it =
        let size = length-elements_from v.m_array 0 v.m_size in
        elim (dec_lt it v.m_size) [
          | no out ↦ rw (size, le→leb v.m_size it (omega arith)) same
          | yes inside ↦
              let down = move_range-MovedDown v.m_array (v.m_size - (it + 1)) it in
              let g = move_range v.m_array (v.m_size - (it + 1)) (it + 1) it in
              let one : suc (v.m_size - 1) ≡ v.m_size = omega arith in
              rw (size, lt→leb_false v.m_size it inside)
                (record {
                  contents =
                      elements_from-remove_at v.m_array g 0 (v.m_size - 1) it (omega arith)
                        (λ i l. down.before i (omega arith))
                        (λ i k l. down.moved i (omega arith) (omega arith))
                      ∙ ap (λ m. remove_at (elements_from v.m_array 0 m) it) one;
                  fits = omega arith;
                  kept = λ i h. down.behind i (omega arith);
                })
        ]

  -- A call, on the array and on a list.
  abbrev pub on_cells : A → ℕ → Call A → Cells A → Cells A
  on_cells z n (pushing x) v = push_back n v x
  on_cells z n (inserting pos x) v = (insert z n v pos x).0
  on_cells z n (erasing it) v = (erase v it).0
  on_cells z n clearing v = clear v

  abbrev pub on_elements : ℕ → Call A → List A → List A
  on_elements n (pushing x) xs = StaticVector.push_back n xs x
  on_elements n (inserting pos x) xs = StaticVector.insert n xs pos x
  on_elements n (erasing it) xs = StaticVector.erase xs it
  on_elements n clearing xs = []

  abbrev pub all_on_cells : A → ℕ → List (Call A) → Cells A → Cells A
  all_on_cells z n [] v = v
  all_on_cells z n (c ∷ cs) v = all_on_cells z n cs (on_cells z n c v)

  abbrev pub all_on_elements : ℕ → List (Call A) → List A → List A
  all_on_elements n [] xs = xs
  all_on_elements n (c ∷ cs) xs = all_on_elements n cs (on_elements n c xs)

  on_cells-Does :
      (z : A) (n : ℕ) (c : Call A) (v : Cells A)
      → v.m_size ≤ n
      → n < 2 ^ 32 - 1
      → Does n v (on_cells z n c v) (on_elements n c (elements v))
  unfolding clear
  on_cells-Does z n (pushing x) v f s = push_back-Does n v f s x
  on_cells-Does z n (inserting pos x) v f s = insert-Does n v f s z x pos
  on_cells-Does z n (erasing it) v f s = erase-Does n v f s it
  on_cells-Does z n clearing v f s = record {
    contents = refl;
    fits = omega arith;
    kept = λ i h. refl;
  }

  -- On an array of fewer than 2^32 - 1 cells, any calls of `push_back`, `insert`, `erase` and `clear`
  -- leave the elements that the same calls leave of a list, no more of them than there are cells, and
  -- store nothing behind the array.
  pub all_on_cells-Does :
      (z : A) (n : ℕ) (cs : List (Call A)) (v : Cells A)
      → v.m_size ≤ n
      → n < 2 ^ 32 - 1
      → Does n v (all_on_cells z n cs v) (all_on_elements n cs (elements v))
  all_on_cells-Does z n [] v f s = same n v f s
  all_on_cells-Does z n (c ∷ cs) v f s =
      let once = on_cells-Does z n c v f s in
      let rest = all_on_cells-Does z n cs (on_cells z n c v) once.fits s in
      record {
        contents = rest.contents ∙ ap (all_on_elements n cs) once.contents;
        fits = rest.fits;
        kept = λ i h. rest.kept i h ∙ once.kept i h;
      }
