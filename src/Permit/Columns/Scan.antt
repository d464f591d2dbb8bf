-- ===== src/Permit/Columns/Scan.antt =====
-- The scans over the channels of a site in acq400_PermitLut.cpp.
use native.Mathlib.Nat.{pow-suc, div-div-eq-div-mul}
use acq400_xrm.Prelude.{
  ℕ, zero, suc, ◌+◌, ◌-◌, ◌/◌, ◌%◌, ◌^◌, ◌≤◌, ◌<◌, ◌≡◌, ◌≢◌, ◌⊎◌, inl, inr, refl, sym, ap, ◌∙◌,
  Bool, true, false, List, ◌==◌, if◌then◌else◌, arith, Bool-cases, lt_cases,
}
use acq400_xrm.Permit.Selection.{Selection, no_selection, mark, ai_active, scan_ai, scan_di}

-- How many of the channels 0 to n - 1 are active.
abbrev pub count : (ℕ → Bool) → ℕ → ℕ
count active zero = 0
count active (suc n) = if active n then suc (count active n) else count active n

-- The selection of the channels 0 to n - 1: `first` and `last` count from 1.
pub record IsSelection (active : ℕ → Bool) (n : ℕ) (s : Selection) : Type 0 where
  pub size : s.nactive ≡ count active n
  pub bounded : s.nactive ≤ n
  pub first_range : s.nactive ≢ 0 → (1 ≤ s.first) × (s.first ≤ n)
  pub first_active : s.nactive ≢ 0 → active (s.first - 1) ≡ true
  pub first_least : (j : ℕ) → j < n → j + 1 < s.first → active j ≡ false
  pub last_range : s.last ≤ n
  pub last_active : s.nactive ≢ 0 → (1 ≤ s.last) × (active (s.last - 1) ≡ true)
  pub last_greatest : (j : ℕ) → j < n → s.last ≤ j → active j ≡ false
  pub unset : s.nactive ≡ 0 → (s.first ≡ 33) × (s.last ≡ 0)

pub no_selection-IsSelection : (active : ℕ → Bool) → IsSelection active 0 no_selection
unfolding no_selection
no_selection-IsSelection active = record {
  size = refl;
  bounded = omega arith;
  first_range = λ h. absurd (h refl);
  first_active = λ h. absurd (h refl);
  first_least = λ j h. absurd (omega arith);
  last_range = omega arith;
  last_active = λ h. absurd (h refl);
  last_greatest = λ j h. absurd (omega arith);
  unset = λ h. (refl, refl);
}

-- What holds below n and at n holds below n + 1.
up_to :
    (active : ℕ → Bool) (n j : ℕ)
    → j < suc n
    → (j < n → active j ≡ false)
    → (j ≡ n → active n ≡ false)
    → active j ≡ false
up_to active n j h below at = elim (lt_cases j n) [
  | inl lt ↦ below lt
  | inr (inl gt) ↦ absurd (omega arith)
  | inr (inr eq) ↦ ap active eq ∙ at eq
]

step_inactive :
    (active : ℕ → Bool) (n : ℕ) (s : Selection)
    → active n ≡ false
    → IsSelection active n s
    → IsSelection active (suc n) s
step_inactive active n s e r = record {
  size = rw e r.size;
  bounded = omega (arith, r.bounded);
  first_range = λ h. ((r.first_range h).0, omega (arith, (r.first_range h).1));
  first_active = r.first_active;
  first_least = λ j h l. up_to active n j h (λ b. r.first_least j b l) (λ q. e);
  last_range = omega (arith, r.last_range);
  last_active = r.last_active;
  last_greatest = λ j h l. up_to active n j h (λ b. r.last_greatest j b l) (λ q. e);
  unset = r.unset;
}

-- Where nothing was active, the channel is the first.
first_case :
    (active : ℕ → Bool) (n : ℕ) (s : Selection)
    → n < 32
    → IsSelection active n s
    → ((s.nactive ≡ 0) × ((mark n s).first ≡ n + 1))
      ⊎ ((s.nactive ≢ 0) × ((mark n s).first ≡ s.first))
unfolding mark
first_case active n s b r = elim (lt_cases 0 s.nactive) [
  | inl some_active ↦ inr (omega arith, ground (arith, r.first_range (omega arith)))
  | inr (inl bad) ↦ absurd (omega arith)
  | inr (inr none_active) ↦ inl (omega arith, ground (arith, (r.unset (omega arith)).0))
]

marked_last :
    (active : ℕ → Bool) (n : ℕ) (s : Selection) → IsSelection active n s → (mark n s).last ≡ n + 1
unfolding mark
marked_last active n s r = ground (arith, r.last_range)

marked_size : (n : ℕ) (s : Selection) → (mark n s).nactive ≡ s.nactive + 1
unfolding mark
marked_size n s = refl

step_active :
    (active : ℕ → Bool) (n : ℕ) (s : Selection)
    → n < 32
    → active n ≡ true
    → IsSelection active n s
    → IsSelection active (suc n) (mark n s)
step_active active n s b e r =
    let ml = marked_last active n s r in
    let size = marked_size n s in
    let fc = first_case active n s b r in
    let back : n + 1 - 1 ≡ n = omega arith in
    record {
      size = rw e (omega (arith, r.size, size));
      bounded = omega (arith, r.bounded, size);
      first_range = λ h. elim fc [
        | inl f ↦ (omega (arith, f.1), omega (arith, f.1))
        | inr f ↦ (
          omega (arith, f.1, (r.first_range (f.0)).0),
          omega (arith, f.1, (r.first_range (f.0)).1),
        )
      ];
      first_active =
          λ h. elim fc [ inl f ↦ rw (f.1, back) e | inr f ↦ rw (f.1) (r.first_active (f.0)) ];
      first_least = λ j h l. elim fc [
        | inl f ↦ r.first_least j (omega (arith, f.1)) (omega (arith, (r.unset (f.0)).0, f.1))
        | inr f ↦
            up_to active n j h (λ below. r.first_least j below (omega (arith, f.1)))
              (λ q. absurd (omega (arith, f.1, (r.first_range (f.0)).1)))
      ];
      last_range = omega (arith, ml);
      last_active = λ h. (omega (arith, ml), rw (ml, back) e);
      last_greatest = λ j h l. absurd (omega (arith, ml));
      unset = λ h. absurd (omega (arith, size));
    }

-- The loop over an AI site's 32 pairs: a channel is active where its thresholds differ.
pub scan_ai-IsSelection :
    (l : List ℕ) (left n : ℕ) (s : Selection)
    → left + n ≡ 32
    → IsSelection (ai_active l) n s
    → IsSelection (ai_active l) 32 (scan_ai l left n s)
unfolding scan_ai
scan_ai-IsSelection l zero n s h r = let e : n ≡ 32 = omega arith in rw (← e) r
scan_ai-IsSelection l (suc left) n s h r =
    let up : n + 1 ≡ suc n = omega arith in
    elim (Bool-cases (ai_active l n)) [
      | inl yes_active ↦
          rw (yes_active, up)
            (scan_ai-IsSelection l left (suc n) (mark n s) (omega arith)
              (step_active (ai_active l) n s (omega arith) yes_active r))
      | inr not_active ↦
          rw (not_active, up)
            (scan_ai-IsSelection l left (suc n) s (omega arith)
              (step_inactive (ai_active l) n s not_active r))
    ]

-- Bit `ic` of a word.
abbrev pub bit : ℕ → ℕ → Bool
bit w ic = w / 2 ^ ic % 2 == 1

shift_more : (w dx : ℕ) → w / 2 ^ suc dx ≡ w / 2 ^ dx / 2
shift_more w dx = ap (λ t. w / t) (pow-suc 2 dx) ∙ sym (div-div-eq-div-mul w (2 ^ dx) 2)

-- Behind the top bit nothing is active.
scan_rest :
    (w left n : ℕ) (s : Selection)
    → left + n ≡ 32
    → w / 2 ^ n ≡ 0
    → IsSelection (bit w) n s
    → IsSelection (bit w) 32 s
scan_rest w zero n s h z r = let e : n ≡ 32 = omega arith in rw (← e) r
scan_rest w (suc left) n s h z r =
    scan_rest w left (suc n) s (omega arith) (omega (arith, shift_more w n))
      (step_inactive (bit w) n s (rw z refl) r)

-- The loop over the bits of a DI site's word.
pub scan_di-IsSelection :
    (w left n : ℕ) (s : Selection)
    → left + n ≡ 32
    → IsSelection (bit w) n s
    → IsSelection (bit w) 32 (scan_di left (w / 2 ^ n) n s)
unfolding scan_di
scan_di-IsSelection w zero n s h r = let e : n ≡ 32 = omega arith in rw (← e) r
scan_di-IsSelection w (suc left) n s h r =
    let up : n + 1 ≡ suc n = omega arith in
    let next : (t : Selection)
        → IsSelection (bit w) (suc n) t
        → IsSelection (bit w) 32 (scan_di left (w / 2 ^ n / 2) (n + 1) t) =
      λ t q. rw (up, ← shift_more w n) (scan_di-IsSelection w left (suc n) t (omega arith) q) in
    elim (Bool-cases (w / 2 ^ n == 0)) [
      | inl gone ↦ rw gone (scan_rest w (suc left) n s h (ground arith) r)
      | inr more ↦ elim (Bool-cases (bit w n)) [
        | inl set_bit ↦
            rw (more, set_bit) (next (mark n s) (step_active (bit w) n s (omega arith) set_bit r))
        | inr clear_bit ↦ rw (more, clear_bit) (next s (step_inactive (bit w) n s clear_bit r))
      ]
    ]
