-- ===== src/Permit/Mirror.antt =====
-- refresh_shadow() of acq400_Permit.cpp: what the shadow says of the DSP.
use mathlib.Core.Path.{subst}
use acq400_xrm.Prelude.{
  ℕ, zero, suc, ◌+◌, ◌-◌, ◌≤◌, ◌<◌, ◌≡◌, ◌≢◌, refl, ap, sym, ◌∙◌, ◌⊎◌, inl, inr, arith, ◌==◌,
  if◌then◌else◌, true, false, Bool,
}
use acq400_xrm.Prelude.Memory.{
  Mem, WordMem, write_words, read_words, write_words-read_words, write_words_outside,
  read_words-length,
}
use acq400_xrm.Permit.{
  PermitDsp, SiteDef, refresh_shadow_element, refresh_sites, refresh_shadow, get_permit_latch,
  get_permit_live, ptlat, ptliv, th_base, max_sites, reg_modid, reg_picr, reg_ptsite,
}

-- The shadow agrees with the DSP at a word.
abbrev pub Agrees : PermitDsp → ℕ → Type 0
Agrees dsp j = dsp.shadow j ≡ dsp.fpga j

-- What a refresh does to the shadow: a word that agrees does so still, and nothing else changes.
pub record IsRefresh (dsp next : PermitDsp) : Type 0 where
  pub same_fpga : next.fpga ≡ dsp.fpga
  pub same_sites : next.sites ≡ dsp.sites
  pub kept : (j : ℕ) → Agrees dsp j → Agrees next j

element-Agrees :
    (off lenw : ℕ) (dsp : PermitDsp) (j : ℕ)
    → (off ≤ j) × (j < off + lenw)
    → Agrees (refresh_shadow_element off lenw dsp) j
unfolding refresh_shadow_element
element-Agrees off lenw dsp j h =
    let split : off + (j - off) ≡ j = omega arith in
    ap (write_words dsp.shadow off (read_words dsp.fpga off lenw)) (sym split)
    ∙ write_words-read_words dsp.shadow off dsp.fpga off lenw (j - off) (omega arith)
    ∙ ap dsp.fpga split

place : (off lenw j : ℕ) → ((off ≤ j) × (j < off + lenw)) ⊎ ((j < off) ⊎ (off + lenw ≤ j))
place off lenw j = grind arith

element-IsRefresh :
    (off lenw : ℕ) (dsp : PermitDsp) → IsRefresh dsp (refresh_shadow_element off lenw dsp)
unfolding refresh_shadow_element
element-IsRefresh off lenw dsp = record {
  same_fpga = refl;
  same_sites = refl;
  kept = λ j a. elim (place off lenw j) [
    | inl h ↦ element-Agrees off lenw dsp j h
    | inr h ↦
        write_words_outside dsp.shadow off (read_words dsp.fpga off lenw) j
          (rw (read_words-length dsp.fpga off lenw) h)
        ∙ a
  ];
}

and_then : (a b c : PermitDsp) → IsRefresh a b → IsRefresh b c → IsRefresh a c
and_then a b c r s = record {
  same_fpga = s.same_fpga ∙ r.same_fpga;
  same_sites = s.same_sites ∙ r.same_sites;
  kept = λ j h. s.kept j (r.kept j h);
}

-- The body of the loop over the sites.
abbrev one_site : ℕ → PermitDsp → PermitDsp
one_site site dsp =
    refresh_shadow_element (th_base site) (dsp.sites site).nelem
      (refresh_shadow_element (ptlat site) 2 dsp)

one_site-IsRefresh : (site : ℕ) (dsp : PermitDsp) → IsRefresh dsp (one_site site dsp)
one_site-IsRefresh site dsp =
    and_then dsp (refresh_shadow_element (ptlat site) 2 dsp) (one_site site dsp)
      (element-IsRefresh (ptlat site) 2 dsp)
      (element-IsRefresh (th_base site) (dsp.sites site).nelem
        (refresh_shadow_element (ptlat site) 2 dsp))

-- The words of a site: its latch and live registers, and its thresholds.
abbrev pub OfSite : PermitDsp → ℕ → ℕ → Type 0
OfSite dsp site j =
    ((ptlat site ≤ j) × (j < ptlat site + 2))
    ⊎ ((th_base site ≤ j) × (j < th_base site + (dsp.sites site).nelem))

one_site-Agrees :
    (site : ℕ) (dsp : PermitDsp) (j : ℕ) → OfSite dsp site j → Agrees (one_site site dsp) j
one_site-Agrees site dsp j h =
    let latched = refresh_shadow_element (ptlat site) 2 dsp in
    elim h [
      | inl a ↦
          (element-IsRefresh (th_base site) (dsp.sites site).nelem latched).kept j
            (element-Agrees (ptlat site) 2 dsp j a)
      | inr a ↦ element-Agrees (th_base site) (dsp.sites site).nelem latched j a
    ]

step-IsRefresh :
    (b : Bool) (site : ℕ) (dsp : PermitDsp) → IsRefresh dsp (if b then dsp else one_site site dsp)
step-IsRefresh true site dsp = record { same_fpga = refl; same_sites = refl; kept = λ j h. h }
step-IsRefresh false site dsp = one_site-IsRefresh site dsp

-- The loop refreshes, and each active site that it reaches agrees afterwards.
record AreMirrored (left site : ℕ) (dsp next : PermitDsp) : Type 0 where
  refreshed : IsRefresh dsp next
  mirrored :
      (k j : ℕ)
      → (site ≤ k) × (k < site + left)
      → (dsp.sites k).site ≢ 0
      → OfSite dsp k j
      → Agrees next j

if_false-Agrees :
    (b : Bool) (x y : PermitDsp) (j : ℕ) → b ≡ false → Agrees y j → Agrees (if b then x else y) j
if_false-Agrees true x y j e h = absurd cc
if_false-Agrees false x y j e h = h

step-Agrees :
    (site k : ℕ) (dsp : PermitDsp) (j : ℕ)
    → k ≡ site
    → (dsp.sites k).site ≢ 0
    → OfSite dsp k j
    → Agrees (if (dsp.sites site).site == 0 then dsp else one_site site dsp) j
step-Agrees site k dsp j e a b =
    let active : (dsp.sites k).site ≢ 0 = a in
    subst (λ (i : ℕ). Agrees (if (dsp.sites i).site == 0 then dsp else one_site i dsp) j) e
      (if_false-Agrees ((dsp.sites k).site == 0) dsp (one_site k dsp) j (ground arith)
        (one_site-Agrees k dsp j b))

first_or_later :
    (site k left : ℕ)
    → (site ≤ k) × (k < site + suc left)
    → (k ≡ site) ⊎ ((site + 1 ≤ k) × (k < site + 1 + left))
first_or_later site k left h = grind arith

refresh_sites-AreMirrored :
    (left site : ℕ) (dsp : PermitDsp) → AreMirrored left site dsp (refresh_sites left site dsp)
unfolding refresh_sites
refresh_sites-AreMirrored zero site dsp = record {
  refreshed = record { same_fpga = refl; same_sites = refl; kept = λ j h. h };
  mirrored = λ k j h a b. absurd (omega arith);
}
refresh_sites-AreMirrored (suc left) site dsp =
    let idle = (dsp.sites site).site == 0 in
    let next = if idle then dsp else one_site site dsp in
    let step = step-IsRefresh idle site dsp in
    let rest = refresh_sites-AreMirrored left (site + 1) next in
    record {
      refreshed = and_then dsp next (refresh_sites left (site + 1) next) step rest.refreshed;
      mirrored = λ k j h a b. elim (first_or_later site k left h) [
        | inl same ↦ rest.refreshed.kept j (step-Agrees site k dsp j same a b)
        | inr later ↦
            rest.mirrored k j later
              (λ e. a (ap (λ (m : Mem SiteDef). (m k).site) (sym step.same_sites) ∙ e))
              (subst
                (λ (m : Mem SiteDef).
                  ((ptlat k ≤ j) × (j < ptlat k + 2))
                  ⊎ ((th_base k ≤ j) × (j < th_base k + (m k).nelem)))
                (sym step.same_sites) b)
      ];
    }

-- A refresh of the shadow leaves the DSP and the site definitions alone, keeps every word that
-- agreed with the DSP so, and makes each word of each active site agree: the latch and the live
-- status that the peers are told, and the thresholds, are those of the DSP.
pub refresh_shadow-Agrees :
    (dsp : PermitDsp) (site j : ℕ)
    → (1 ≤ site) × (site ≤ max_sites)
    → (dsp.sites site).site ≢ 0
    → OfSite dsp site j
    → IsRefresh dsp (refresh_shadow dsp)
      × Agrees (refresh_shadow dsp) j
      × (get_permit_latch (refresh_shadow dsp) site ≡ dsp.fpga (ptlat site))
      × (get_permit_live (refresh_shadow dsp) site ≡ dsp.fpga (ptliv site))
unfolding refresh_shadow refresh_shadow_element get_permit_latch get_permit_live
refresh_shadow-Agrees dsp site j h a b =
    let first = refresh_shadow_element reg_modid 2 dsp in
    let second = refresh_shadow_element reg_picr 1 first in
    let third = refresh_shadow_element reg_ptsite 1 second in
    let before =
      and_then dsp second third
        (and_then dsp first second (element-IsRefresh reg_modid 2 dsp)
          (element-IsRefresh reg_picr 1 first))
        (element-IsRefresh reg_ptsite 1 second) in
    let loop = refresh_sites-AreMirrored max_sites 1 third in
    let range : (1 ≤ site) × (site < 1 + max_sites) = (h.0, omega arith) in
    let at_word : (i : ℕ) → OfSite dsp site i → Agrees (refresh_sites max_sites 1 third) i =
      λ i c. loop.mirrored site i range a c in
    let fpga_at : (i : ℕ) → (refresh_sites max_sites 1 third).fpga i ≡ dsp.fpga i =
      λ i. ap (λ (m : WordMem). m i) (loop.refreshed.same_fpga) in
    (
      and_then dsp third (refresh_sites max_sites 1 third) before loop.refreshed,
      at_word j b,
      at_word (ptlat site) (inl (omega arith, omega arith)) ∙ fpga_at (ptlat site),
      at_word (ptliv site) (inl (omega arith, omega arith)) ∙ fpga_at (ptliv site),
    )
