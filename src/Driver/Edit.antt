-- ===== src/Driver/Edit.antt =====
-- redit() of acq400_SOE.cpp and of acq400_FMT_sim.cpp: their loop over the rows of a table, with
-- what it does to a row as an argument.
use acq400_xrm.Prelude.{
  ℕ, zero, suc, ◌+◌, ◌≤◌, ◌<◌, ◌≡◌, ◌≢◌, refl, ap, sym, ◌∙◌, Option, none, some, List, [], ◌∷◌, ◌⊎◌,
  inl, inr, length, get_elem?, set, arith, length-set, get_elem?-set_self, get_elem?-set_ne,
}
use acq400_xrm.Prelude.Int.{ℤ, pos, negsuc, ◌+ℤ◌}

module _ {A : Type 0} where
  -- table[i] = f(table[i]); `none` is an index outside the table.
  unfoldable pub edit_at : ℤ → (A → A) → List A → Option (List A)
  edit_at (negsuc n) f lut = none
  edit_at (pos i) f lut = elim (get_elem? lut i) [ none ↦ none | some l ↦ some (set lut i (f l)) ]

  -- The loop from round `rn` over the rounds left.
  unfoldable pub edit_rows : ℤ → (ℕ → A → A) → ℕ → ℕ → List A → Option (List A)
  edit_rows at_row f zero rn lut = some lut
  edit_rows at_row f (suc left) rn lut = elim (edit_at (at_row +ℤ pos rn) (f rn) lut) [
    | none ↦ none
    | some next ↦ edit_rows at_row f left (suc rn) next
  ]

  get_elem?_inside : (lut : List A) (i : ℕ) → i < length lut → (l : A) × (get_elem? lut i ≡ some l)
  get_elem?_inside [] i h = absurd (omega arith)
  get_elem?_inside (l ∷ ls) zero h = (l, refl)
  get_elem?_inside (l ∷ ls) (suc i) h = get_elem?_inside ls i (omega arith)

  -- What the rows are to be: those from `row` + `rn` on, as many as are left, edited, and the
  -- others kept.
  pub record AreEdited (f : ℕ → A → A) (row rn left : ℕ) (lut next : List A) : Type 0 where
    pub size : length next ≡ length lut
    pub edited :
        (j : ℕ) (l : A)
        → j < left
        → get_elem? lut (row + rn + j) ≡ some l
        → get_elem? next (row + rn + j) ≡ some (f (rn + j) l)
    pub kept : (i : ℕ) → (i < row + rn) ⊎ (row + rn + left ≤ i) → get_elem? next i ≡ get_elem? lut i

  edit_step :
      (at_row : ℤ) (f : ℕ → A → A) (row rn : ℕ) (lut : List A) (l : A)
      → at_row ≡ pos row
      → get_elem? lut (row + rn) ≡ some l
      → edit_at (at_row +ℤ pos rn) (f rn) lut ≡ some (set lut (row + rn) (f rn l))
  unfolding edit_at ◌+ℤ◌
  edit_step at_row f row rn lut l e h =
      let z : at_row +ℤ pos rn ≡ pos (row + rn) = rw e (ground arith) in rw (z, edit_at, h) refl

  -- Round `rn` and the rounds after it, together.
  edited_after :
      (f : ℕ → A → A) (row rn left : ℕ) (lut final : List A) (l : A)
      → get_elem? lut (row + rn) ≡ some l
      → row + rn < length lut
      → AreEdited f row (suc rn) left (set lut (row + rn) (f rn l)) final
      → (j : ℕ) (l' : A) → j < suc left
      → get_elem? lut (row + rn + j) ≡ some l'
      → get_elem? final (row + rn + j) ≡ some (f (rn + j) l')
  edited_after f row rn left lut final l at fit r zero l' a b =
      let here : row + rn + 0 ≡ row + rn = omega arith in
      let same : l ≡ l' = cc in
      let zeroth : rn + 0 ≡ rn = omega arith in
      rw (here, zeroth, ← same)
        (r.kept (row + rn) (inl (omega arith)) ∙ get_elem?-set_self lut (row + rn) (f rn l) fit)
  edited_after f row rn left lut final l at fit r (suc j) l' a b =
      let place : row + rn + suc j ≡ row + suc rn + j = omega arith in
      let round : rn + suc j ≡ suc rn + j = omega arith in
      let other : row + rn ≢ row + suc rn + j = λ q. absurd (omega arith) in
      let b' : get_elem? lut (row + suc rn + j) ≡ some l' = ap (get_elem? lut) (sym place) ∙ b in
      rw (place, round) (r.edited j l' (omega arith) (get_elem?-set_ne lut (f rn l) other ∙ b'))

  pub edit_rows-AreEdited :
      (at_row : ℤ) (f : ℕ → A → A) (row left rn : ℕ) (lut : List A)
      → at_row ≡ pos row
      → row + rn + left ≤ length lut
      → (next : List A) × (edit_rows at_row f left rn lut ≡ some next)
        × AreEdited f row rn left lut next
  unfolding edit_rows
  edit_rows-AreEdited at_row f row zero rn lut e h = (
    lut,
    refl,
    record { size = refl; edited = λ j l a b. absurd (omega arith); kept = λ i a. refl },
  )
  edit_rows-AreEdited at_row f row (suc left) rn lut e h =
      let at = get_elem?_inside lut (row + rn) (omega arith) in
      let l = at.0 in
      let next = set lut (row + rn) (f rn l) in
      let len = length-set lut (row + rn) (f rn l) in
      let rest = edit_rows-AreEdited at_row f row left (suc rn) next e (omega (arith, len)) in
      (
        rest.0,
        rw (edit_rows, edit_step at_row f row rn lut l e at.1, rest.1) refl,
        record {
          size = rest.2.size ∙ len;
          edited = λ j l' a b.
              edited_after f row rn left lut (rest.0) l at.1 (omega arith) rest.2 j l' a b;
          kept = λ i a.
              rest.2.kept i (elim a [ inl b ↦ inl (omega arith) | inr b ↦ inr (omega arith) ])
              ∙ get_elem?-set_ne lut (f rn l)
                  (λ same. elim a [ inl b ↦ absurd (omega arith) | inr b ↦ absurd (omega arith) ]);
        },
      )
