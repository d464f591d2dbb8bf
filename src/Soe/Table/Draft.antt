-- ===== src/Soe/Table/Draft.antt =====
-- What build_hold_entry() leaves in a cleared table, one match after the other.
use acq400_xrm.Prelude.{
  ℕ, ◌+◌, ◌*◌, ◌≤◌, ◌<◌, ◌≡◌, refl, ◌∙◌, ◌⊎◌, inl, inr, List, [], ◌∷◌, length, arith,
}
use acq400_xrm.Prelude.Memory.{WordMem}
use acq400_xrm.Structs.{load_header}
use acq400_xrm.Structs.Layout.{load_header-store_header, load_header_agree}
use acq400_xrm.SamplePrams.{SamplePrams}
use acq400_xrm.Soe.Strategy.{build_hold_entry}
use acq400_xrm.Soe.Table.{Match, header_for, IsDrafted}
use acq400_xrm.Soe.Table.Copy.{AllFit, Fits, header_for-InRange, store_header_outside}

-- The entries of the matches, from row `row` on.
unfoldable pub draft : SamplePrams → List Match → ℕ → WordMem → WordMem
draft p [] row ht = ht
draft p (e ∷ es) row ht = draft p es (row + 1) (build_hold_entry p e.fmt_row e.lut_row e.bsi ht row)

-- Words of the header area that clearHold() has set to 0, from row `row` on.
abbrev pub IsClear : WordMem → ℕ → Type 0
IsClear ht row = (j : ℕ) → row * 8 ≤ j → j < 520 → ht j ≡ 0

module _ (p : SamplePrams) where
  build_hold_entry_outside :
      (e : Match) (ht : WordMem) (row j : ℕ)
      → (j < row * 8) ⊎ (row * 8 + 8 ≤ j)
      → build_hold_entry p e.fmt_row e.lut_row e.bsi ht row j ≡ ht j
  unfolding build_hold_entry
  build_hold_entry_outside e ht row j o = store_header_outside ht row _ j o

  cleared_fields :
      (ht : WordMem) (row : ℕ)
      → row ≤ 64
      → IsClear ht row
      → ((load_header ht row).data_offset ≡ 0)
        × ((load_header ht row).unused ≡ 0)
        × ((load_header ht row).lut_row.pv_id ≡ 0)
  unfolding load_header
  cleared_fields ht row h c = (
    omega (arith, c (row * 8 + 6) (omega arith) (omega arith)),
    omega (arith, c (row * 8 + 7) (omega arith) (omega arith)),
    c (row * 8 + 1) (omega arith) (omega arith),
  )

  build_hold_entry_header :
      (e : Match) (ht : WordMem) (row : ℕ)
      → Fits e
      → row ≤ 64
      → IsClear ht row
      → load_header (build_hold_entry p e.fmt_row e.lut_row e.bsi ht row) row ≡ header_for p e 0
  unfolding build_hold_entry
  build_hold_entry_header e ht row f h c =
      let zero = cleared_fields ht row h c in
      rw (zero.0, zero.1)
        (load_header-store_header ht row (header_for p e 0) (header_for-InRange p e 0 f))

  pub draft_frame :
      (es : List Match) (row : ℕ) (ht : WordMem) (j : ℕ)
      → (j < row * 8) ⊎ ((row + length es) * 8 ≤ j)
      → draft p es row ht j ≡ ht j
  unfolding draft
  draft_frame [] row ht j o = refl
  draft_frame (e ∷ es) row ht j o =
      draft_frame es (row + 1) (build_hold_entry p e.fmt_row e.lut_row e.bsi ht row) j (omega arith)
      ∙ build_hold_entry_outside e ht row j (omega arith)

  -- In a cleared table with room for the headers and the delimiter.
  pub draft-IsDrafted :
      (es : List Match) (row : ℕ) (ht : WordMem)
      → AllFit es
      → row + length es ≤ 64
      → IsClear ht row
      → IsDrafted p (draft p es row ht) row es
  unfolding draft
  draft-IsDrafted [] row ht f h c = (cleared_fields ht row (omega arith) c).2
  draft-IsDrafted (e ∷ es) row ht f h c =
      let next = build_hold_entry p e.fmt_row e.lut_row e.bsi ht row in
      (
        load_header_agree (draft p es (row + 1) next) next row
              (λ j s t. draft_frame es (row + 1) next j (inl (omega arith)))
            ∙ build_hold_entry_header e ht row f.0 (omega arith) c,
        draft-IsDrafted es (row + 1) next f.1 (omega arith) (λ j s t.
            build_hold_entry_outside e ht row j (inr (omega arith)) ∙ c j (omega arith) t),
      )
