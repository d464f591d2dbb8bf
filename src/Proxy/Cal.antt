-- ===== src/Proxy/Cal.antt =====
-- xrmIocApp/src/acq400_Proxy.cpp: the calibration of the analog sites, and the write handlers.
-- A float is an item of a type that is a parameter; `of_size` converts an array's length.
use acq400_xrm.Prelude.{
  ℕ, zero, suc, ◌+◌, ◌-◌, Option, none, some, List, [], ◌∷◌, ◌++◌, ◌>>=◌, ltb, leb, ◌==◌,
  if◌then◌else◌, ◌&&◌, ◌||◌, length, take, drop,
}
use acq400_xrm.Prelude.Int.{ℤ, pos, eqb_ℤ}
use acq400_xrm.Prelude.Memory.{Mem, update, write_words}
use acq400_xrm.Driver.{Effect, Param, set_integer, call_param_callbacks, signal_event, p_runstop}

-- P_AI_CAL_ESLO and P_AI_CAL_EOFF, or any other array parameter.
pub data CalParam : Type 0 where
  p_ai_cal_eslo p_ai_cal_eoff p_other_array : CalParam

-- The source arrays by site, null at first, and their lengths; the two arrays that they are
-- collected in exist when ai_site_lengths[0] is not 0.
pub record Cal (F : Type 0) : Type 0 where
  pub eslo_src : Mem (Option (List F))
  pub eoff_src : Mem (Option (List F))
  pub ai_site_lengths : Mem ℕ
  pub eslo_dst : Mem F
  pub eoff_dst : Mem F

-- writeInt32(): the handler changes no member.
unfoldable pub write_int32 : Param → ℕ → ℤ → List Effect
write_int32 p_runstop addr value =
    set_integer addr p_runstop value ∷ (if eqb_ℤ value (pos 1) then signal_event ∷ [] else [])
    ++ call_param_callbacks ∷ []
write_int32 p addr value = set_integer addr p value ∷ call_param_callbacks ∷ []

-- The source array of a site and the length on record, after a write: a first write allocates
-- the array, and `none` is a failed assert or a write behind the array's end.
unfoldable pub write_src : {F : Type 0} → Option (List F) → ℕ → List F → Option (List F × ℕ)
write_src none len value =
    if (len == 0) || (len == length value) then some (value, length value) else none
write_src (some old) len value =
    if leb (length value) (length old) then some (value ++ drop (length value) old, len) else none

-- writeFloat32Array(), with the value of P_RUNSTOP.
unfoldable pub write_float32_array :
    {F : Type 0} → CalParam → ℕ → List F → ℤ → Cal F → Option (Cal F × List Effect)
write_float32_array p_other_array addr value runstop cal = some (cal, [])
write_float32_array p_ai_cal_eslo addr value runstop cal =
    let effects = if eqb_ℤ runstop (pos 1) then signal_event ∷ [] else [] in
    let written = write_src (cal.eslo_src addr) (cal.ai_site_lengths addr) value >>= λ r. some (
      record cal {
        eslo_src = update cal.eslo_src addr (some (r.0));
        ai_site_lengths = update cal.ai_site_lengths addr (r.1);
      },
      effects,
    ) in
    if leb 1 addr && leb addr 6 then written else none
write_float32_array p_ai_cal_eoff addr value runstop cal =
    let effects = if eqb_ℤ runstop (pos 1) then signal_event ∷ [] else [] in
    let written = write_src (cal.eoff_src addr) (cal.ai_site_lengths addr) value >>= λ r. some (
      record cal {
        eoff_src = update cal.eoff_src addr (some (r.0));
        ai_site_lengths = update cal.ai_site_lengths addr (r.1);
      },
      effects,
    ) in
    if leb 1 addr && leb addr 6 then written else none

-- The first loop of get_cal(): the channels of the sites from `site` on.
unfoldable pub channels : Mem ℕ → ℕ → ℕ → ℕ
channels lengths zero site = 0
channels lengths (suc left) site =
    let rest = channels lengths left (site + 1) in
    if ltb 1 (lengths site) then lengths site - 1 + rest else rest

-- src[site] + 1, for n items; `none` is a null pointer, or a read behind the array's end.
unfoldable pub src_items : {F : Type 0} → Option (List F) → ℕ → Option (List F)
src_items none n = none
src_items (some xs) n = if ltb n (length xs) then some (take n (drop 1 xs)) else none

-- The second loop, with `ito`: the arrays, and where the copy ends, or no such place where the
-- code gives up without callbacks.
unfoldable pub collect : {F : Type 0} → ℕ → ℕ → ℕ → Cal F → Option (Cal F × Option ℕ)
collect zero site ito cal = some (cal, some ito)
collect (suc left) site ito cal =
    let len = cal.ai_site_lengths site in
    let site_n = len - 1 in
    let skip = collect left (site + 1) ito cal in
    let copied = src_items (cal.eslo_src site) site_n >>= λ eslo.
    src_items (cal.eoff_src site) site_n >>= λ eoff.
    collect left (site + 1) (ito + site_n) (record cal {
      eslo_dst = write_words cal.eslo_dst ito eslo;
      eoff_dst = write_words cal.eoff_dst ito eoff;
    }) in
    if len == 0
    then skip
    else if site_n == 0
    then skip
    else if leb (ito + site_n) (cal.ai_site_lengths 0)
    then copied
    else some (cal, none)

-- get_cal(): the state, and how many items go out in the two array callbacks, if they do.
unfoldable pub get_cal : {F : Type 0} → (ℕ → F) → Cal F → Option (Cal F × Option ℕ)
get_cal of_size cal =
    let n = channels cal.ai_site_lengths 6 1 in
    let agglen = n + 1 in
    let allocated = record cal {
      ai_site_lengths = update cal.ai_site_lengths 0 agglen;
      eslo_dst = update cal.eslo_dst 0 (of_size agglen);
      eoff_dst = update cal.eoff_dst 0 (of_size agglen);
    } in
    let first = collect 6 1 1 allocated in
    let again = collect 6 1 1 cal in
    if n == 0
    then some (cal, none)
    else if cal.ai_site_lengths 0 == 0
    then first
    else if cal.ai_site_lengths 0 == agglen
    then again
    else some (cal, none)
