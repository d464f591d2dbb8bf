-- ===== src/Permit/Columns.antt =====
-- What a selection column of acq400_PermitLut.cpp says of its channels.
pub mod Scan
use mathlib.Core.Path.{subst}
use native.Mathlib.Nat.{pow-suc, div-div-eq-div-mul}
use acq400_xrm.Prelude.{
  length, some, ℕ, zero, suc, ◌+◌, ◌-◌, ◌*◌, ◌/◌, ◌%◌, ◌^◌, ◌≤◌, ◌<◌, ◌≡◌, ◌≢◌, ◌⊎◌, inl, inr, refl,
  sym, ap, ◌∙◌, Bool, true, false, List, ◌==◌, if◌then◌else◌, arith, Bool-cases, lt_cases, get_or,
}
use acq400_xrm.Prelude.Memory.{update, update_self, update_ne}
use acq400_xrm.Permit.Selection.{
  Cols, set_col, set_di_sites, in_bounds, set_di_selection_col, Selection, no_selection, mark,
  ai_active, scan_ai, scan_di, selection_code,
}
use acq400_xrm.Permit.Columns.Scan.{
  count, IsSelection, no_selection-IsSelection, bit, scan_di-IsSelection,
}

-- The code's fields, in decimal.
decode :
    (s : Selection) (n : ℕ) (active : ℕ → Bool)
    → n ≤ 32
    → IsSelection active n s
    → (selection_code s / 10000 ≡ s.nactive)
      × (selection_code s / 100 % 100 ≡ s.last)
      × (s.nactive ≢ 0 → selection_code s % 100 ≡ s.first)
unfolding selection_code
decode s n active h r = (
  ground (arith, r.bounded, r.last_range, r.first_range, r.unset),
  ground (arith, r.bounded, r.last_range, r.first_range, r.unset),
  (λ nz. ground (arith, r.bounded, r.last_range, r.first_range nz, r.unset)),
)

-- The last two decimal pairs of a code name the last and the first active one of 32 channels,
-- which count from 1.
pub record Spans (active : ℕ → Bool) (code : ℕ) : Type 0 where
  pub first : (1 ≤ code % 100) × (active (code % 100 - 1) ≡ true)
  pub first_least : (j : ℕ) → j < 32 → j + 1 < code % 100 → active j ≡ false
  pub last : (1 ≤ code / 100 % 100) × (active (code / 100 % 100 - 1) ≡ true)
  pub last_greatest : (j : ℕ) → j < 32 → code / 100 % 100 ≤ j → active j ≡ false

-- What a column's code says of the 32 channels of a site: how many are active, and, unless the
-- code is 0 for none, the last and the first.
pub record Describes (active : ℕ → Bool) (code : ℕ) : Type 0 where
  pub size : code / 10000 ≡ count active 32
  pub span : ((count active 32 ≡ 0) × (code ≡ 0)) ⊎ Spans active code

selection_code-zero : (s : Selection) → s.nactive ≡ 0 → s.last ≡ 0 → selection_code s ≡ 0
unfolding selection_code
selection_code-zero s h l = ground arith

selection_code-Spans :
    (s : Selection) (active : ℕ → Bool)
    → IsSelection active 32 s
    → s.nactive ≢ 0
    → Spans active (selection_code s)
selection_code-Spans s active r nz =
    let d = decode s 32 active (omega arith) r in
    let f = d.2 nz in
    record {
      first = (omega (arith, f, (r.first_range nz).0), rw f (r.first_active nz));
      first_least = λ j h l. r.first_least j h (omega (arith, f));
      last = (omega (arith, d.1, (r.last_active nz).0), rw (d.1) ((r.last_active nz).1));
      last_greatest = λ j h l. r.last_greatest j h (omega (arith, d.1));
    }

selection_code-Describes :
    (s : Selection) (active : ℕ → Bool)
    → IsSelection active 32 s
    → Describes active (selection_code s)
selection_code-Describes s active r =
    let d = decode s 32 active (omega arith) r in
    record {
      size = omega (arith, d.0, r.size);
      span = elim (lt_cases 0 s.nactive) [
        | inl more ↦ inr (selection_code-Spans s active r (omega arith))
        | inr (inl bad) ↦ absurd (omega arith)
        | inr (inr zero_active) ↦
            inl (
              omega (arith, r.size),
              selection_code-zero s (omega arith) ((r.unset (omega arith)).1),
            )
      ];
    }

set_col_self : (site addr v : ℕ) (cols : Cols) → set_col site addr v cols site addr ≡ v
unfolding set_col
set_col_self site addr v cols =
    ap (λ f. f addr) (update_self cols site (update (cols site) addr v))
    ∙ update_self (cols site) addr v

set_col_other :
    (site site' addr v : ℕ) (cols : Cols)
    → site' ≢ site
    → set_col site addr v cols site' addr ≡ cols site' addr
unfolding set_col
set_col_other site site' addr v cols h =
    ap (λ f. f addr) (update_ne cols site (update (cols site) addr v) site' h)

set_di_sites_before :
    (left n k addr : ℕ) (l : List ℕ) (cols : Cols)
    → k < n
    → set_di_sites left n addr l cols (5 + k) addr ≡ cols (5 + k) addr
unfolding set_di_sites
set_di_sites_before zero n k addr l cols h = refl
set_di_sites_before (suc left) n k addr l cols h =
    set_di_sites_before left (n + 1) k addr l _ (omega arith)
    ∙ set_col_other (5 + n) (5 + k) addr _ cols (omega arith)

set_di_sites_at :
    (left n k addr : ℕ) (l : List ℕ) (cols : Cols)
    → n ≤ k
    → k < n + left
    → set_di_sites left n addr l cols (5 + k) addr
      ≡ selection_code (scan_di 32 (get_or l (k * 2 + 1) 0) 0 no_selection)
unfolding set_di_sites
set_di_sites_at zero n k addr l cols h b = absurd (omega arith)
set_di_sites_at (suc left) n k addr l cols h b = elim (lt_cases n k) [
  | inl lt ↦ set_di_sites_at left (n + 1) k addr l _ (omega arith) (omega arith)
  | inr (inl gt) ↦ absurd (omega arith)
  | inr (inr eq) ↦
      rw (← eq) (
        set_di_sites_before left (n + 1) n addr l _ (omega arith)
        ∙ set_col_self (5 + n) addr _ cols)
]

scan_word : (w : ℕ) → Describes (bit w) (selection_code (scan_di 32 w 0 no_selection))
scan_word w =
    let whole : w / 2 ^ 0 ≡ w = omega arith in
    subst (λ x. Describes (bit w) (selection_code (scan_di 32 x 0 no_selection))) whole
      (selection_code-Describes _ (bit w)
        (scan_di-IsSelection w 32 0 no_selection (omega arith) (no_selection-IsSelection (bit w))))

-- Where a row of the table has the pairs of at most two sites, as long a list as it reads, no
-- access is out of bounds, and the column of each of these DI sites describes the bits of the
-- ACTIVE word of the site's pair: how many are set, the last and the first, counted from 1.
pub set_di_selection_col-Describes :
    (addr : ℕ) (di_pairs : List ℕ) (npairs : ℕ) (cols : Cols) (k : ℕ)
    → addr < 16
    → npairs ≤ 2
    → npairs * 2 ≤ length di_pairs
    → k < npairs
    → (next : Cols) × (set_di_selection_col addr di_pairs npairs cols ≡ some next)
      × Describes (bit (get_or di_pairs (k * 2 + 1) 0)) (next (5 + k) addr)
unfolding set_di_selection_col in_bounds
set_di_selection_col-Describes addr l npairs cols k room sites words h = (
  set_di_sites npairs 0 addr l cols,
  ground arith,
  rw (set_di_sites_at npairs 0 k addr l cols (omega arith) (omega arith))
      (scan_word (get_or l (k * 2 + 1) 0)),
)
