-- ===== src/Permit/Loading.antt =====
-- What full_load() of acq400_Permit.cpp leaves in the threshold memory.
use acq400_xrm.Prelude.{
  ℕ, zero, suc, ◌+◌, ◌-◌, ◌≤◌, ◌<◌, ◌≡◌, ◌≢◌, ◌⊎◌, inl, refl, ap, ◌∙◌, Bool, true, false, ◌==◌,
  if◌then◌else◌, arith,
}
use acq400_xrm.Prelude.Memory.{Mem, WordMem, update, update_self, update_ne}
use acq400_xrm.Permit.{
  SiteDef, PermitDsp, Load, load_site, load_one, load_sites, full_load, th_base, max_sites,
}

load_site_outside :
    (fpga : WordMem) (dst : ℕ) (src : WordMem) (psrc nu j : ℕ)
    → (j < dst) ⊎ (dst + nu ≤ j)
    → (load_site fpga dst src psrc nu).0 j ≡ fpga j
unfolding load_site
load_site_outside fpga dst src psrc zero j h = refl
load_site_outside fpga dst src psrc (suc nu) j h =
    load_site_outside (update fpga dst (src psrc)) (dst + 1) src (psrc + 1) nu j (omega arith)
    ∙ update_ne fpga dst (src psrc) j (omega arith)

load_site_inside :
    (fpga : WordMem) (dst : ℕ) (src : WordMem) (psrc nu e : ℕ)
    → e < nu
    → (load_site fpga dst src psrc nu).0 (dst + e) ≡ src (psrc + e)
unfolding load_site
load_site_inside fpga dst src psrc zero e h = absurd (omega arith)
load_site_inside fpga dst src psrc (suc nu) zero h =
    ap (λ i. (load_site (update fpga dst (src psrc)) (dst + 1) src (psrc + 1) nu).0 i) (omega arith)
    ∙ load_site_outside (update fpga dst (src psrc)) (dst + 1) src (psrc + 1) nu dst
        (inl (omega arith))
    ∙ update_self fpga dst (src psrc)
    ∙ ap src (omega arith)
load_site_inside fpga dst src psrc (suc nu) (suc e) h =
    ap (λ i. (load_site (update fpga dst (src psrc)) (dst + 1) src (psrc + 1) nu).0 i) (omega arith)
    ∙ load_site_inside (update fpga dst (src psrc)) (dst + 1) src (psrc + 1) nu e (omega arith)
    ∙ ap src (omega arith)

load_site_pointer :
    (fpga : WordMem) (dst : ℕ) (src : WordMem) (psrc nu : ℕ)
    → (load_site fpga dst src psrc nu).1 ≡ psrc + nu
unfolding load_site
load_site_pointer fpga dst src psrc zero = omega arith
load_site_pointer fpga dst src psrc (suc nu) =
    omega (arith, load_site_pointer (update fpga dst (src psrc)) (dst + 1) src (psrc + 1) nu)

-- The words that a site takes from the pairs of one kind.
abbrev pub share : Mem SiteDef → Bool → ℕ → ℕ
share sites ai site =
    if (sites site).site == 0
    then 0
    else if (sites site).is_ai
    then (if ai then (sites site).nelem else 0)
    else (if ai then 0 else (sites site).nelem)

-- What the first `n` sites from `site` on take together.
abbrev pub taken : Mem SiteDef → Bool → ℕ → ℕ → ℕ
taken sites ai site zero = 0
taken sites ai site (suc n) = share sites ai site + taken sites ai (site + 1) n

-- The pairs of a kind, and where they are read from.
abbrev pub pairs : Bool → WordMem → WordMem → WordMem
pairs ai a d = if ai then a else d

abbrev pointer : Bool → Load → ℕ
pointer ai s = if ai then s.ai_th_ch else s.di_th_ch

module _ (sites : Mem SiteDef) (ai di : WordMem) where
  load_one_outside :
      (site : ℕ) (s : Load) (j : ℕ)
      → (j < th_base site) ⊎ (th_base site + (sites site).nelem ≤ j)
      → (load_one sites ai di site s).fpga j ≡ s.fpga j
  unfolding load_one
  load_one_outside site s j h = ground (
    arith,
    load_site_outside s.fpga (th_base site) ai s.ai_th_ch (sites site).nelem j h,
    load_site_outside s.fpga (th_base site) di s.di_th_ch (sites site).nelem j h,
  )

  pointer-load_one :
      (k : Bool) (site : ℕ) (s : Load)
      → pointer k (load_one sites ai di site s) ≡ pointer k s + share sites k site
  unfolding load_one
  pointer-load_one true site s =
      ground (arith, load_site_pointer s.fpga (th_base site) ai s.ai_th_ch (sites site).nelem)
  pointer-load_one false site s =
      ground (arith, load_site_pointer s.fpga (th_base site) di s.di_th_ch (sites site).nelem)

  load_one_inside :
      (site : ℕ) (s : Load) (e : ℕ)
      → (sites site).site ≢ 0
      → e < (sites site).nelem
      → (load_one sites ai di site s).fpga (th_base site + e)
        ≡ pairs (sites site).is_ai ai di (pointer (sites site).is_ai s + e)
  unfolding load_one
  load_one_inside site s e nz h = ground (
    arith,
    load_site_inside s.fpga (th_base site) ai s.ai_th_ch (sites site).nelem e h,
    load_site_inside s.fpga (th_base site) di s.di_th_ch (sites site).nelem e h,
  )

  load_sites_below :
      (left site : ℕ) (s : Load) (j : ℕ)
      → 1 ≤ site
      → j < th_base site
      → (load_sites sites ai di left site s).fpga j ≡ s.fpga j
  unfolding load_sites
  load_sites_below zero site s j p h = refl
  load_sites_below (suc left) site s j p h =
      load_sites_below left (site + 1) (load_one sites ai di site s) j (omega arith) (omega arith)
      ∙ load_one_outside site s j (inl h)

  load_sites_slot :
      (left site : ℕ) (s : Load) (n k e : ℕ)
      → 1 ≤ site
      → site + n ≡ k
      → n < left
      → (sites k).site ≢ 0
      → e < (sites k).nelem
      → (sites k).nelem ≤ 32
      → (load_sites sites ai di left site s).fpga (th_base k + e)
        ≡ pairs
            (sites k).is_ai
            ai
            di
            (pointer (sites k).is_ai s + taken sites (sites k).is_ai site n + e)
  unfolding load_sites
  load_sites_slot zero site s n k e p q l nz h fits = absurd (omega arith)
  load_sites_slot (suc left) site s zero k e p q l nz h fits =
      let here : site ≡ k = omega arith in
      load_sites_below left (site + 1) (load_one sites ai di site s) (th_base k + e) (omega arith)
        (omega arith)
      ∙ ap (λ t. (load_one sites ai di t s).fpga (th_base k + e)) here
      ∙ load_one_inside k s e nz h
      ∙ ap (pairs (sites k).is_ai ai di) (omega arith)
  load_sites_slot (suc left) site s (suc n) k e p q l nz h fits =
      load_sites_slot left (site + 1) (load_one sites ai di site s) n k e (omega arith)
        (omega arith) (omega arith) nz h fits
      ∙ ap (pairs (sites k).is_ai ai di) (omega (arith, pointer-load_one (sites k).is_ai site s))

  load_sites_outside :
      (left site : ℕ) (s : Load) (j : ℕ)
      → 1 ≤ site
      → ((k : ℕ) → site ≤ k → k < site + left → (j < th_base k) ⊎ (th_base k + (sites k).nelem ≤ j))
      → (load_sites sites ai di left site s).fpga j ≡ s.fpga j
  unfolding load_sites
  load_sites_outside zero site s j p h = refl
  load_sites_outside (suc left) site s j p h =
      load_sites_outside left (site + 1) (load_one sites ai di site s) j (omega arith)
        (λ k a b. h k (omega arith) (omega arith))
      ∙ load_one_outside site s j (h site (omega arith) (omega arith))

-- After full_load() the threshold memory of each defined site 1 to 6, of 32 elements at most,
-- holds its share of the row's pairs: those of its kind (AI or DI), from behind what the
-- defined sites of that kind before it take.
pub full_load_slot :
    (ai di : WordMem) (dsp : PermitDsp) (k e : ℕ)
    → 1 ≤ k
    → k ≤ max_sites
    → (dsp.sites k).site ≢ 0
    → (dsp.sites k).nelem ≤ 32
    → e < (dsp.sites k).nelem
    → (full_load ai di dsp).fpga (th_base k + e)
      ≡ pairs (dsp.sites k).is_ai ai di (taken dsp.sites (dsp.sites k).is_ai 1 (k - 1) + e)
unfolding full_load
full_load_slot ai di dsp k e a b nz fits h =
    let start : Load = record { fpga = dsp.fpga; ai_th_ch = 0; di_th_ch = 0 } in
    load_sites_slot dsp.sites ai di 6 1 start (k - 1) k e (omega arith) (omega arith) (omega arith)
      nz h fits
    ∙ ap (pairs (dsp.sites k).is_ai ai di) (ground arith)

-- full_load() writes nothing outside the threshold memory of the sites.
pub full_load_outside :
    (ai di : WordMem) (dsp : PermitDsp) (j : ℕ)
    → ((k : ℕ) → 1 ≤ k → k ≤ max_sites → (j < th_base k) ⊎ (th_base k + (dsp.sites k).nelem ≤ j))
    → (full_load ai di dsp).fpga j ≡ dsp.fpga j
unfolding full_load
full_load_outside ai di dsp j h =
    load_sites_outside dsp.sites ai di 6 1 (record { fpga = dsp.fpga; ai_th_ch = 0; di_th_ch = 0 })
      j (omega arith) (λ k a b. h k a (omega arith))
