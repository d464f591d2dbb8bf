-- ===== src/Proxy.antt =====
-- xrmIocApp/src/acq400_Proxy.{h,cpp}: get_sample_dimensions(), on the 32-bit ARM target, where
-- sizeof(long) is 4. What the parameter library holds for the sites of SMPL_AGG_SITES, in
-- order, is an argument, as are the calls' effects in order; split2() is not modelled.
pub mod Geometry
pub mod Cal
pub mod Task
pub mod Examples
use acq400_xrm.Prelude.{
  ℕ, ◌+◌, ◌-◌, ◌/◌, Bool, true, false, Option, none, some, List, [], ◌∷◌, ◌++◌, leb, if◌then◌else◌,
  not, ◌&&◌,
}
use acq400_xrm.Prelude.Int.{ℤ, pos}
use acq400_xrm.SamplePrams.{SamplePrams, validate, store}
use acq400_xrm.Driver.{
  Effect, set_integer, call_param_callbacks, p_smpl_ai_count, p_smpl_di_index, p_smpl_di_count,
  p_smpl_sp_index, p_smpl_sp_count,
}

-- SMPL_SITE_IS_ADC and SMPL_SITE_SSB of a site, bytes per sample.
pub record Site : Type 0 where
  pub is_adc : Bool
  pub ssb : ℕ

-- The variables of the loop over the sites.
pub record Totals : Type 0 where
  pub modules_ssb_total : ℕ
  pub first_di : Bool
  pub modules_ai_ssb : ℕ
  pub modules_di_ssb : ℕ
  pub effects : List Effect

unfoldable pub add_site : Site → Totals → Totals
add_site site t =
    let di_found = not site.is_adc && t.first_di in
    let index = set_integer 0 p_smpl_di_index (pos (t.modules_ssb_total / 2)) in
    record {
      modules_ssb_total = t.modules_ssb_total + site.ssb;
      first_di = if di_found then false else t.first_di;
      modules_ai_ssb = if site.is_adc then t.modules_ai_ssb + site.ssb else t.modules_ai_ssb;
      modules_di_ssb = if site.is_adc then t.modules_di_ssb else t.modules_di_ssb + site.ssb;
      effects = if di_found then t.effects ++ index ∷ [] else t.effects;
    }

unfoldable pub add_sites : List Site → Totals → Totals
add_sites [] t = t
add_sites (s ∷ ss) t = add_sites ss (add_site s t)

abbrev pub no_totals : Totals
no_totals = record {
  modules_ssb_total = 0;
  first_di = true;
  modules_ai_ssb = 0;
  modules_di_ssb = 0;
  effects = [];
}

-- get_sample_dimensions(): `ssb` is SMPL_SITE_SSB of site 0, `nsam` is SMPL_NSAM. `none` is
-- the failed assert on a sample smaller than its modules. Behind the calls of the parameter
-- library, with the dimensions, comes the file that store() writes, where it writes one: `opens`
-- and `rc` are what fopen() and fwrite() give it there.
unfoldable pub get_sample_dimensions :
    Bool
    → ℤ
    → List Site
    → ℕ
    → ℕ
    → SamplePrams
    → Option (SamplePrams × List Effect × Option SamplePrams)
get_sample_dimensions opens rc sites ssb nsam prams =
    let t = add_sites sites no_totals in
    let modules_ssl = t.modules_ssb_total / 4 in
    let agg_ssl = ssb / 4 in
    let dims = record prams {
      ssb = ssb;
      nsam = nsam;
      ai_index = 0;
      ai_count = t.modules_ai_ssb / 2;
      di_index = t.modules_ai_ssb / 4;
      di_count = t.modules_di_ssb / 4;
      sp_index = modules_ssl;
      sp_count = agg_ssl - modules_ssl;
    } in
    if leb modules_ssl agg_ssl
    then some (
      validate dims,
      t.effects
          ++ set_integer 0 p_smpl_ai_count (pos dims.ai_count)
            ∷ set_integer 0 p_smpl_di_index (pos dims.di_index)
            ∷ set_integer 0 p_smpl_di_count (pos dims.di_count)
            ∷ set_integer 0 p_smpl_sp_index (pos dims.sp_index)
            ∷ set_integer 0 p_smpl_sp_count (pos dims.sp_count)
            ∷ call_param_callbacks
            ∷ [],
      (store opens rc (validate dims)).1,
    )
    else none
