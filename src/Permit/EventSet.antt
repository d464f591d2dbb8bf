-- ===== src/Permit/EventSet.antt =====
-- The set of events of acq400_PermitLut.cpp against its rows.
use acq400_xrm.Prelude.{
  ℕ, zero, suc, ◌+◌, ◌≤◌, ◌<◌, ◌^◌, ◌≡◌, ◌≢◌, ◌⊎◌, inl, inr, refl, sym, ap, ◌∙◌, true, false, some,
  List, [], ◌∷◌, if◌then◌else◌, arith, lt_cases, Bool-cases,
}
use acq400_xrm.Prelude.Int.{ℤ, pos, to_bits, eqb_ℤ}
use acq400_xrm.Prelude.Memory.{Mem, update, update_self, update_ne}
use acq400_xrm.Permit.Selection.{set_col}
use acq400_xrm.Permit.Lut.{
  PrmtLutRow, PermitLut, erase, contains, insert, write_event, find_row, max_rows,
}

contains-erase_self : (e : ℕ) (xs : List ℕ) → contains e (erase e xs) ≡ false
unfolding contains erase
contains-erase_self e [] = refl
contains-erase_self e (x ∷ xs) = let rest = contains-erase_self e xs in ground arith

contains-erase : (e d : ℕ) (xs : List ℕ) → contains d (erase e xs) ≡ true → contains d xs ≡ true
unfolding contains erase
contains-erase e d [] h = h
contains-erase e d (x ∷ xs) h = let rest = contains-erase e d xs in ground arith

contains-erase_ne :
    (e d : ℕ) (xs : List ℕ) → d ≢ e → contains d xs ≡ true → contains d (erase e xs) ≡ true
unfolding contains erase
contains-erase_ne e d [] n h = h
contains-erase_ne e d (x ∷ xs) n h = let rest = contains-erase_ne e d xs n in ground arith

contains-insert_self : (e : ℕ) (xs : List ℕ) → contains e (insert e xs) ≡ true
unfolding contains insert
contains-insert_self e xs = ground arith

contains-insert :
    (e d : ℕ) (xs : List ℕ) → contains d (insert e xs) ≡ true → (d ≡ e) ⊎ (contains d xs ≡ true)
unfolding contains insert
contains-insert e d xs h = ground arith

-- Every event of the set is the event of a row.
abbrev pub IsOwned : PermitLut → Type 0
IsOwned lut =
    (e : ℕ)
    → contains e lut.event_set ≡ true
    → (i : ℕ) × (i < max_rows) × ((lut.lut_rows i).event ≡ e)

eqb_ℤ-true : (n : ℕ) (z : ℤ) → eqb_ℤ (pos n) z ≡ true → z ≡ pos n
eqb_ℤ-true n (pos m) h = ap pos (ground arith)
eqb_ℤ-true n (ℤ.negsuc m) h = absurd (ground arith)

bits16 : (n : ℕ) (z : ℤ) → n < 2 ^ 16 → eqb_ℤ (pos n) z ≡ true → to_bits 16 z ≡ n
bits16 n z b h = ap (to_bits 16) (eqb_ℤ-true n z h) ∙ (omega arith)

-- The set that the new event is put into.
abbrev erased : PermitLut → ℕ → ℤ → List ℕ
erased lut addr value =
    if eqb_ℤ (pos (lut.lut_rows addr).event) value
    then lut.event_set
    else erase (lut.lut_rows addr).event lut.event_set

-- An event that stays in the set is that of another row, or the new event.
still_owned :
    (lut : PermitLut) (addr : ℕ) (value : ℤ) (e : ℕ)
    → (lut.lut_rows addr).event < 2 ^ 16
    → IsOwned lut
    → contains e (erased lut addr value) ≡ true
    → (e ≡ to_bits 16 value)
      ⊎ ((i : ℕ) × (i < max_rows) × (i ≢ addr) × ((lut.lut_rows i).event ≡ e))
still_owned lut addr value e short owned h =
    elim (Bool-cases (eqb_ℤ (pos (lut.lut_rows addr).event) value)) [
      | inl same ↦
          let kept : contains e lut.event_set ≡ true = ground arith in
          let o = owned e kept in
          elim (lt_cases (o.0) addr) [
            | inl lt ↦ inr (o.0, o.1, omega arith, o.2)
            | inr (inl gt) ↦ inr (o.0, o.1, omega arith, o.2)
            | inr (inr eq) ↦ inl (
                sym o.2
                ∙ ap (λ i. (lut.lut_rows i).event) eq
                ∙ sym (bits16 (lut.lut_rows addr).event value short same))
          ]
      | inr changed ↦
          let kept : contains e (erase (lut.lut_rows addr).event lut.event_set) ≡ true =
            ground arith in
          let o = owned e (contains-erase (lut.lut_rows addr).event e lut.event_set kept) in
          inr (
            o.0,
            o.1,
            (λ q.
                let gone = contains-erase_self e lut.event_set in
                let old : (lut.lut_rows addr).event ≡ e =
                  ap (λ i. (lut.lut_rows i).event) (sym q) ∙ o.2 in
                let kept' : contains e (erase e lut.event_set) ≡ true =
                  ap (λ d. contains e (erase d lut.event_set)) (sym old) ∙ kept in
                ground arith),
            o.2,
          )
    ]

-- A write of a row's event, in range, succeeds and keeps the set sound: every event of the
-- set is then still the event of a row, and the new event, cut to 16 bits, is in it.
pub write_event-IsOwned :
    (lut : PermitLut) (addr : ℕ) (value : ℤ)
    → addr < max_rows
    → (lut.lut_rows addr).event < 2 ^ 16
    → IsOwned lut
    → (t : PermitLut) × (write_event addr value lut ≡ some t)
      × ((t.lut_rows addr).event ≡ to_bits 16 value)
      × (contains (to_bits 16 value) t.event_set ≡ true)
      × IsOwned t
unfolding write_event
write_event-IsOwned lut addr value b short owned =
    let event = to_bits 16 value in
    let row = record (lut.lut_rows addr) { event = event } in
    let t : PermitLut = record lut {
      lut_rows = update lut.lut_rows addr row;
      event_set = insert event (erased lut addr value);
      cols = set_col 0 addr (to_bits 32 value) lut.cols;
      dirty = true;
    } in
    let new_row : (t.lut_rows addr).event ≡ event =
      ap (λ (r : PrmtLutRow). r.event) (update_self lut.lut_rows addr row) in
    let owner : (e : ℕ)
        → (e ≡ event) ⊎ ((i : ℕ) × (i < max_rows) × (i ≢ addr) × ((lut.lut_rows i).event ≡ e))
        → (i : ℕ) × (i < max_rows) × ((t.lut_rows i).event ≡ e) =
      λ e o. elim o [
        | inl new ↦ (addr, b, new_row ∙ sym new)
        | inr old ↦ (
          old.0,
          old.1,
          ap (λ (r : PrmtLutRow). r.event) (update_ne lut.lut_rows addr row (old.0) old.2) ∙ old.3,
        )
      ] in
    (
      t,
      ground arith,
      new_row,
      contains-insert_self event (erased lut addr value),
      (λ e h. elim (contains-insert event e (erased lut addr value) h) [
        | inl new ↦ owner e (inl new)
        | inr kept ↦ owner e (still_owned lut addr value e short owned kept)
      ]),
    )

find_row-found :
    (rows : Mem PrmtLutRow) (left row i e : ℕ)
    → row ≤ i
    → i < row + left
    → (rows i).event ≡ e
    → (k : ℕ) × (find_row rows left row (pos e) ≡ some k) × (k ≤ i) × ((rows k).event ≡ e)
unfolding find_row
find_row-found rows zero row i e a b h = absurd (omega arith)
find_row-found rows (suc left) row i e a b h =
    elim (Bool-cases (eqb_ℤ (pos (rows row).event) (pos e))) [
      | inl hit ↦ (row, rw hit refl, a, ground arith)
      | inr miss ↦
          let apart : row ≢ i =
            λ q. let h' : (rows row).event ≡ e = ap (λ j. (rows j).event) q ∙ h in ground arith in
          let r = find_row-found rows left (row + 1) i e (omega arith) (omega arith) h in
          (r.0, rw (miss) r.1, r.2, r.3)
    ]

-- Whenever the set of events, kept sound, says that an event has a row, the search of the
-- rows finds one with that event.
pub find_row_of_contains :
    (lut : PermitLut) (e : ℕ)
    → IsOwned lut
    → contains e lut.event_set ≡ true
    → (k : ℕ) × (find_row lut.lut_rows max_rows 0 (pos e) ≡ some k) × ((lut.lut_rows k).event ≡ e)
find_row_of_contains lut e owned h =
    let o = owned e h in
    let r = find_row-found lut.lut_rows 16 0 (o.0) e (omega arith) (omega (arith, o.1)) o.2 in
    (r.0, r.1, r.3)
