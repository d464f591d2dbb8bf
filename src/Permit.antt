-- ===== src/Permit.antt =====
-- xrmIocApp/src/acq400_Permit.{h,cpp}: PermitDSP, the registers and threshold memory of the
-- DSP, and its shadow. Both mappings are arrays of 32-bit words: the word at byte offset b has
-- index b / 4. All offsets that the code uses are multiples of four.
pub mod Lut
pub mod Selection
pub mod Caches
pub mod Peers
pub mod Task
pub mod Mirror
pub mod Loading
pub mod Columns
pub mod EventSet
pub mod Examples
use acq400_xrm.Prelude.{
  ℕ, zero, suc, ◌+◌, ◌-◌, ◌*◌, ◌/◌, ◌%◌, ◌^◌, bit_and, bit_or, Bool, true, false, Option, none,
  some, List, [], ◌∷◌, ◌>>=◌, ltb, ◌==◌, if◌then◌else◌, not, leb, ◌&&◌,
}
use acq400_xrm.Prelude.Memory.{Mem, WordMem, update, write_words, read_words}

abbrev pub max_sites : ℕ
max_sites = 6

-- PermitDSP::SITE_DEF
pub record SiteDef : Type 0 where
  pub is_ai : Bool
  pub site : ℕ
  pub nelem : ℕ

abbrev pub no_site : SiteDef
no_site = record { is_ai = false; site = 0; nelem = 0 }

-- PermitDSP
pub record PermitDsp : Type 0 where
  pub fpga : WordMem
  pub shadow : WordMem
  pub sites : Mem SiteDef

-- REGS, element_offset() and th_base(), as word indexes.
abbrev pub reg_modid : ℕ
reg_modid = 0

abbrev pub reg_picr : ℕ
reg_picr = 24 / 4

abbrev pub reg_ptsite : ℕ
reg_ptsite = 112 / 4

abbrev pub ptlat : ℕ → ℕ
ptlat site = (256 + (site - 1) * 16) / 4

abbrev pub ptliv : ℕ → ℕ
ptliv site = (260 + (site - 1) * 16) / 4

-- DSP_TH_BASE + element_offset(site)
abbrev pub th_base : ℕ → ℕ
th_base site = (57344 + (site - 1) * 128) / 4

-- MAP_LEN / sizeof(unsigned)
abbrev pub map_words : ℕ
map_words = 65536 / 4

-- defineSite(): `none` is the failed assert on a site that is defined already, or a site behind
-- the end of the array.
unfoldable pub define_site : ℕ → Bool → ℕ → PermitDsp → Option PermitDsp
define_site site is_ai nelem dsp =
    if leb site max_sites && (dsp.sites site).site == 0
    then some (record dsp {
      sites =
          update dsp.sites site
            (record { is_ai = is_ai; site = site % 2 ^ 8; nelem = nelem % 2 ^ 8 });
    })
    else none

-- isActiveSite()
unfoldable pub is_active_site : PermitDsp → ℕ → Bool
is_active_site dsp site = not ((dsp.sites site).site == 0)

-- load_site(): nu words from the source pointer to dst, and the pointer behind them.
unfoldable pub load_site : WordMem → ℕ → WordMem → ℕ → ℕ → WordMem × ℕ
load_site fpga dst src psrc zero = (fpga, psrc)
load_site fpga dst src psrc (suc nu) =
    load_site (update fpga dst (src psrc)) (dst + 1) src (psrc + 1) nu

-- The variables of full_load(): the mapping, and the two source pointers.
pub record Load : Type 0 where
  pub fpga : WordMem
  pub ai_th_ch : ℕ
  pub di_th_ch : ℕ

-- The body of its loop: an active site takes its words from the pointer of its kind.
unfoldable pub load_one : Mem SiteDef → WordMem → WordMem → ℕ → Load → Load
load_one sites ai di site s =
    let def = sites site in
    let from_ai = load_site s.fpga (th_base site) ai s.ai_th_ch def.nelem in
    let from_di = load_site s.fpga (th_base site) di s.di_th_ch def.nelem in
    if def.site == 0
    then s
    else if def.is_ai
    then record s { fpga = from_ai.0; ai_th_ch = from_ai.1 }
    else record s { fpga = from_di.0; di_th_ch = from_di.1 }

-- for (int site ...), with `left` sites left.
unfoldable pub load_sites : Mem SiteDef → WordMem → WordMem → ℕ → ℕ → Load → Load
load_sites sites ai di zero site s = s
load_sites sites ai di (suc left) site s =
    load_sites sites ai di left (site + 1) (load_one sites ai di site s)

-- full_load(): the pairs of a row as words, two 16-bit thresholds each, or one 32-bit value.
unfoldable pub full_load : WordMem → WordMem → PermitDsp → PermitDsp
full_load ai_th_pairs di_pairs dsp =
    let start : Load = record { fpga = dsp.fpga; ai_th_ch = 0; di_th_ch = 0 } in
    record dsp { fpga = (load_sites dsp.sites ai_th_pairs di_pairs max_sites 1 start).fpga }

-- _get_regp(), get(), set(), set_bits() and clr_bits(), with `reg` a word index.
unfoldable pub get : PermitDsp → ℕ → ℕ
get dsp reg = dsp.fpga reg

unfoldable pub set : PermitDsp → ℕ → ℕ → PermitDsp
set dsp reg value = record dsp { fpga = update dsp.fpga reg value }

unfoldable pub set_bits : PermitDsp → ℕ → ℕ → PermitDsp
set_bits dsp reg mask = record dsp { fpga = update dsp.fpga reg (bit_or (dsp.fpga reg) mask) }

-- rv & ~mask, on 32 bits.
unfoldable pub clr_bits : PermitDsp → ℕ → ℕ → PermitDsp
clr_bits dsp reg mask = record dsp {
  fpga = update dsp.fpga reg (bit_and (dsp.fpga reg) (2 ^ 32 - 1 - mask % 2 ^ 32));
}

-- _refresh_shadow_element(): lenw words.
unfoldable pub refresh_shadow_element : ℕ → ℕ → PermitDsp → PermitDsp
refresh_shadow_element offset lenw dsp = record dsp {
  shadow = write_words dsp.shadow offset (read_words dsp.fpga offset lenw);
}

-- fill_shadow()
unfoldable pub fill_shadow : PermitDsp → PermitDsp
fill_shadow dsp = refresh_shadow_element 0 map_words dsp

-- The loop of refresh_shadow().
unfoldable pub refresh_sites : ℕ → ℕ → PermitDsp → PermitDsp
refresh_sites zero site dsp = dsp
refresh_sites (suc left) site dsp =
    let def = dsp.sites site in
    let refreshed =
      refresh_shadow_element (th_base site) def.nelem (refresh_shadow_element (ptlat site) 2 dsp) in
    refresh_sites left (site + 1) (if def.site == 0 then dsp else refreshed)

unfoldable pub refresh_shadow : PermitDsp → PermitDsp
refresh_shadow dsp = refresh_sites max_sites 1 (
    refresh_shadow_element reg_ptsite 1
      (refresh_shadow_element reg_picr 1 (refresh_shadow_element reg_modid 2 dsp)))

-- get_permit_latch(), get_permit_live() and clear_permit_latch()
unfoldable pub get_permit_latch : PermitDsp → ℕ → ℕ
get_permit_latch dsp site = dsp.shadow (ptlat site)

unfoldable pub get_permit_live : PermitDsp → ℕ → ℕ
get_permit_live dsp site = dsp.shadow (ptliv site)

unfoldable pub clear_permit_latch : ℕ → ℕ → PermitDsp → PermitDsp
clear_permit_latch site mask dsp = record dsp { fpga = update dsp.fpga (ptlat site) mask }

-- acq400_Permit::writeUInt32Digital(), where `trg_stat` says that the function is
-- P_PERMIT_TRG_STAT; the latch is a set/clear register, so nothing is kept.
unfoldable pub write_uint32_digital : Bool → ℕ → ℕ → PermitDsp → PermitDsp
write_uint32_digital trg_stat addr value dsp =
    if trg_stat then clear_permit_latch addr value dsp else dsp
