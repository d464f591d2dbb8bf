-- ===== src/Permit/Peers.antt =====
-- acq400_Permit.cpp: the map of the peers, what is flushed and told to them, the handlers, and the
-- making of a peer.
use acq400_xrm.Prelude.{
  ℕ, zero, suc, ◌+◌, Bool, false, Option, none, some, List, [], ◌∷◌, ◌++◌, ◌>>=◌, leb,
  if◌then◌else◌,
}
use acq400_xrm.Prelude.Int.{ℤ, pos, negsuc, to_bits, eqb_ℤ}
use acq400_xrm.Prelude.Memory.{Mem, update}
use acq400_xrm.Driver.{
  Effect, Param, set_integer, signal_event, p_runstop, p_mon_rl, p_permit_commit, p_permit_trg_stat,
  p_permit_trg_live, p_permit_di_ch_active, p_permit_di_ch_value, p_permit_atd_mode,
}
use acq400_xrm.Permit.{
  define_site, PermitDsp, max_sites, is_active_site, clear_permit_latch, get_permit_latch,
  get_permit_live, refresh_shadow,
}
use acq400_xrm.Permit.Caches.{Dtd, Peer, RCache, commit, flush_l_cache}

-- What std::map holds for a key: no entry, or a pointer, which may be null.
pub data PeerEntry {ℓ} (A : Type ℓ) : Type ℓ where
  absent null : PeerEntry A
  points : A → PeerEntry A

module _ {F : Type 0} where
  -- The constructors: `dirty` is what dirty_L_CACHE holds in new memory, `dtd` what the record of
  -- a digital site holds there; `zero_v` is 0.0.
  unfoldable pub new_peer : ℕ → F → Dtd → ℕ → Bool → ℕ → Peer F
  new_peer dirty zero_v dtd site is_ai nchan = record {
    site = site;
    is_ai = is_ai;
    nchan = if is_ai then nchan else 2;
    dirty_l_cache = dirty;
    mrl_param = pos 5;
    atd = λ ic. record { atd_mode = 0; atd_v1 = zero_v; atd_v2 = zero_v; atd_hysteresis_pc = 0 };
    dtd = dtd;
  }

module _ {F : Type 0} (level : ℕ → ℕ → F → ℤ) where
  -- The peers, by site, with the caches and the DSP.
  pub record Permits : Type 0 where
    pub peers : Mem (PeerEntry (Peer F))
    pub cache : RCache
    pub dsp : PermitDsp

  -- create_instance(), with the peer that `new` would make: its constructor defines the site in the
  -- DSP, and then the pointer is stored.
  unfoldable pub create_instance : ℕ → Peer F → Permits → Option Permits
  create_instance site made s =
      let created = define_site site made.is_ai made.nchan s.dsp >>= λ dsp.
      some (record s { peers = update s.peers site (points made); dsp = dsp }) in
      elim (s.peers site) [ absent ↦ created | null ↦ some s | points q ↦ some s ]

  -- The body of the loop of flush(): peers[site] makes an entry where there is none.
  unfoldable pub flush_peer : PeerEntry (Peer F) → ℕ → Permits → Option Permits
  flush_peer absent site s = some (record s { peers = update s.peers site null })
  flush_peer null site s = some s
  flush_peer (points q) site s = flush_l_cache level q s.cache >>= λ r.
      some (record s { peers = update s.peers site (points (r.0)); cache = r.1 })

  -- for (site = 1; site <= MAX_SITES; ++site), over the sites left.
  unfoldable pub flush_peers : ℕ → ℕ → Permits → Option Permits
  flush_peers zero site s = some s
  flush_peers (suc left) site s =
      flush_peer (s.peers site) site s >>= λ t. flush_peers left (site + 1) t

  -- flush(): nothing happens where another thread holds the lock.
  unfoldable pub flush : Bool → Permits → Option Permits
  flush locked s =
      let done = commit (s.cache, s.dsp.fpga) in
      let committed : Permits = record s {
        cache = done.0;
        dsp = record (s.dsp) { fpga = done.1 };
      } in
      if locked then some s else flush_peers max_sites 1 committed

  -- acq400_Permit::writeInt32() of a peer at an address.
  unfoldable pub write_permit :
      ℕ → Param → ℤ → Peer F → Permits → Option (Peer F × Permits × List Effect)
  write_permit addr p_runstop value q s = some (
    q,
    s,
    if eqb_ℤ value (pos 1)
        then signal_event ∷ set_integer addr p_runstop value ∷ []
        else set_integer addr p_runstop value ∷ [],
  )
  write_permit addr p_mon_rl value q s =
      some (record q { mrl_param = value }, s, set_integer addr p_mon_rl value ∷ [])
  write_permit addr p_permit_commit value q s =
      flush false s >>= λ t. some (q, t, set_integer addr p_permit_commit value ∷ [])
  write_permit addr p_permit_trg_stat value q s = some (
    q,
    record s { dsp = clear_permit_latch addr (to_bits 32 value) s.dsp },
    set_integer addr p_permit_trg_stat value ∷ [],
  )
  write_permit addr p value q s = some (q, s, set_integer addr p value ∷ [])

  -- acq400_Permit_DI::writeInt32()
  unfoldable pub write_di :
      ℕ → Param → ℤ → Peer F → Permits → Option (Peer F × Permits × List Effect)
  write_di addr p_permit_di_ch_active value q s =
      write_permit addr p_permit_di_ch_active value
        (record q { dtd = record (q.dtd) { dtd_active = to_bits 32 value } }) s
  write_di addr p_permit_di_ch_value value q s =
      write_permit addr p_permit_di_ch_value value
        (record q { dtd = record (q.dtd) { dtd_value = to_bits 32 value } }) s
  write_di addr p value q s = write_permit addr p value q s

  -- acq400_Permit_AI::writeInt32(): the modes are 0 to 4.
  unfoldable pub write_ai :
      ℕ → Param → ℤ → Peer F → Permits → Option (Peer F × Permits × List Effect)
  write_ai addr p_permit_atd_mode value q s = elim value [
    | negsuc n ↦ none
    | pos n ↦
        let moded = update q.atd addr (record (q.atd addr) { atd_mode = n }) in
        let wrote = write_permit addr p_permit_atd_mode (pos n) (record q { atd = moded }) s in
        if leb n 4 then wrote else none
  ]
  write_ai addr p value q s = write_permit addr p value q s

  -- acq400_Permit_AI::writeFloat64(), for the first level or the second.
  unfoldable pub write_float64 : ℕ → Bool → F → Peer F → Peer F
  write_float64 addr first_level value q = record q {
    atd = update q.atd addr (
        if first_level
        then record (q.atd addr) { atd_v1 = value }
        else record (q.atd addr) { atd_v2 = value });
  }

  -- The body of the loop of shadow_task() for an active site; `none` follows a null pointer.
  unfoldable pub tell_peer : PeerEntry (Peer F) → ℕ → PermitDsp → Option (List (ℕ × Param × ℕ))
  tell_peer absent site dsp = some []
  tell_peer null site dsp = none
  tell_peer (points q) site dsp = some (
      (site, p_permit_trg_stat, get_permit_latch dsp site)
      ∷ (site, p_permit_trg_live, get_permit_live dsp site)
      ∷ [])

  -- for (site = 1; site <= MAX_SITES; ++site), over the sites left.
  unfoldable pub tell_peers : ℕ → ℕ → Permits → Option (List (ℕ × Param × ℕ))
  tell_peers zero site s = some []
  tell_peers (suc left) site s = do
    told ← if is_active_site s.dsp site then tell_peer (s.peers site) site s.dsp else some []
    rest ← tell_peers left (site + 1) s
    some (told ++ rest)

  -- shadow_task(), a round of its loop.
  unfoldable pub shadow_round : Permits → Option (Permits × List (ℕ × Param × ℕ))
  shadow_round s = do
    let fresh : Permits = record s { dsp = refresh_shadow s.dsp }
    told ← tell_peers max_sites 1 fresh
    some (fresh, told)
