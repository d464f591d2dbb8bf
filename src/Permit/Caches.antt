-- ===== src/Permit/Caches.antt =====
-- acq400_Permit.{h,cpp}: the caches between the records of the permit sites and the DSP. A peer is
-- the port driver of a site. Voltages are of any type; what scales one to a raw level is an
-- argument. `none` is an access behind an array or a failed assert.
use acq400_xrm.Prelude.{
  ℕ, zero, suc, ◌+◌, ◌*◌, ◌/◌, ◌%◌, ◌^◌, bit_or, Bool, Option, none, some, ◌>>=◌, ltb, ◌==◌,
  if◌then◌else◌, get_elem?,
}
use acq400_xrm.Prelude.Int.{ℤ, pos}
use acq400_xrm.Prelude.Memory.{Mem, WordMem, update}
use acq400_xrm.AnaTrg.{threshold, commands}
use acq400_xrm.Permit.{max_sites, th_base}

-- struct ATD; the mode is a number of the enumeration.
pub record Atd (F : Type 0) : Type 0 where
  pub atd_mode : ℕ
  pub atd_v1 : F
  pub atd_v2 : F
  pub atd_hysteresis_pc : ℕ

-- struct DTD
pub record Dtd : Type 0 where
  pub dtd_active : ℕ
  pub dtd_value : ℕ

-- acq400_Permit with the members of its two subclasses.
pub record Peer (F : Type 0) : Type 0 where
  pub site : ℕ
  pub is_ai : Bool
  pub nchan : ℕ
  pub dirty_l_cache : ℕ
  pub mrl_param : ℤ
  pub atd : Mem (Atd F)
  pub dtd : Dtd

-- R_cache and R_cache_map, which has an element for sites 0 to 5.
pub record RCache : Type 0 where
  pub r_cache : WordMem
  pub r_cache_map : Mem ℕ

-- setElement(): the statement on R_cache reads an element, and drops it.
unfoldable pub set_element : ℕ → ℕ → ℕ → RCache → Option RCache
set_element site ch_off element c =
    if ltb site max_sites
    then some (record c {
      r_cache_map = update c.r_cache_map site (bit_or (c.r_cache_map site) (2 ^ ch_off % 2 ^ 32));
    })
    else none

-- for (ii = 0; dirty; ii++, dirty >>= 1), with the bits of a word as fuel, at word pth[site].
unfoldable pub commit_bits : WordMem → ℕ → ℕ → ℕ → ℕ → WordMem → WordMem
commit_bits r_cache zero ii dirty at fpga = fpga
commit_bits r_cache (suc left) ii dirty at fpga =
    let written = if dirty % 2 == 1 then update fpga at (r_cache ii) else fpga in
    let rest = commit_bits r_cache left (ii + 1) (dirty / 2) at written in
    if dirty == 0 then fpga else rest

-- for (site = 1; site < MAX_SITES; ++site), over the sites left.
unfoldable pub commit_sites : ℕ → ℕ → RCache × WordMem → RCache × WordMem
commit_sites zero site s = s
commit_sites (suc left) site s =
    let dirty = (s.0).r_cache_map site in
    let done : RCache × WordMem =
      (if dirty == 0 then s else (
        record (s.0) { r_cache_map = update (s.0).r_cache_map site 0 },
        commit_bits (s.0).r_cache 32 0 dirty (th_base site + site) s.1,
      )) in
    commit_sites left (site + 1) done

-- commit()
unfoldable pub commit : RCache × WordMem → RCache × WordMem
commit s = commit_sites 5 1 s

module _ {F : Type 0} (level : ℕ → ℕ → F → ℤ) where
  -- The loop of acq400_Permit_AI::flush_L_CACHE(), over the bits of a word.
  unfoldable pub flush_bits : Peer F → ℕ → ℕ → ℕ → RCache → Option RCache
  flush_bits q zero ic l_cache c = some c
  flush_bits q (suc left) ic l_cache c =
      let a = q.atd ic in
      let hyst = pos (a.atd_hysteresis_pc * 256 / 100) in
      let l1 = level q.site ic a.atd_v1 in
      let l2 = level q.site ic a.atd_v2 in
      let flushed : Option RCache =
        (if l_cache % 2 == 1
          then (get_elem? commands a.atd_mode >>= λ command.
              set_element q.site ic (threshold command l1 l2 hyst) c)
          else some c) in
      let rest = flushed >>= λ d. flush_bits q left (ic + 1) (l_cache / 2) d in
      if l_cache == 0 then some c else rest

  -- flush_L_CACHE() of the subclass of the peer.
  unfoldable pub flush_l_cache : Peer F → RCache → Option (Peer F × RCache)
  flush_l_cache q c =
      let clean : Peer F = record q { dirty_l_cache = 0 } in
      let from_ai : Option RCache = flush_bits q 32 0 q.dirty_l_cache c in
      let from_di : Option RCache =
        set_element q.site 0 q.dtd.dtd_active c >>= λ d. set_element q.site 1 q.dtd.dtd_value d in
      if q.dirty_l_cache == 0
      then some (q, c)
      else ((if q.is_ai then from_ai else from_di) >>= λ d. some (clean, d))
