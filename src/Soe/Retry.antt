-- ===== src/Soe/Retry.antt =====
-- LutFmtStrategy2 of acq400_SOE_Strategy.cpp ends, and says which table it worked on.
use acq400_xrm.Prelude.{
  ℕ, zero, suc, ◌+◌, ◌<◌, ◌≡◌, refl, Bool, true, false, Option, none, some, ◌⊎◌, inl, inr, not,
  if◌then◌else◌, arith,
}
use acq400_xrm.Prelude.Int.{ℤ, ltb_ℤ, eqb_ℤ, s64, ◌-ℤ◌, ◌+ℤ◌}
use acq400_xrm.Prelude.Memory.{WordMem}
use acq400_xrm.Prelude.Returns.{Returns, Returns-bind, Returns-if}
use acq400_xrm.Structs.{Fmt}
use acq400_xrm.Soe.Strategy.{
  SoeDims, Rc, rc_of, ErrCode, soe_success, e_timeout, e_fmt_ts_too_early_for_kb,
  e_fmt_ts_too_late_for_kb, e_fmt_no_events_found, e_fmt_undefined, fmt_cur, fmt_pre, fmt_wait,
  soe_lut_lookup,
}
use acq400_xrm.Soe.Cycle.{
  Attempt, first_row, is_null, timestamp_in_buf, dead_band_us, lookup_on_success, retry_loop,
  strategy2,
}
use acq400_xrm.Soe.Lookup.{IsReady, IsCycle, soe_lut_lookup-IsCycle}

-- The table that the result is about: none, and the hold table is left alone, or one of those
-- that the receiver showed, from which the hold table and the counts come.
abbrev pub IsFrom : SoeDims → WordMem → (Fmt → Type 0) → WordMem × Rc → Type 0
IsFrom soe ht Shown r =
    (r.0 ≡ ht) ⊎ ((latest : Fmt) × (rc : Rc) × Shown latest × IsCycle soe latest rc r)

on_status :
    (P : WordMem × Rc → Type 0) (e : ErrCode) (x : Option (WordMem × Rc)) (y : WordMem × Rc)
    → Returns P x
    → Returns P (some y)
    → Returns P (elim e [ soe_success ↦ x | _ ↦ some y ])
on_status P soe_success x y a b = a
on_status P e_timeout x y a b = b
on_status P e_fmt_ts_too_early_for_kb x y a b = b
on_status P e_fmt_ts_too_late_for_kb x y a b = b
on_status P e_fmt_no_events_found x y a b = b
on_status P e_fmt_undefined x y a b = b

-- The results that the check of a timestamp has.
abbrev is_check : ErrCode → Bool
is_check soe_success = true
is_check e_timeout = false
is_check e_fmt_ts_too_early_for_kb = true
is_check e_fmt_ts_too_late_for_kb = true
is_check e_fmt_no_events_found = false
is_check e_fmt_undefined = false

of_two_tests :
    (a b : Bool) (x y z : Rc)
    → is_check x.status ≡ true
    → is_check y.status ≡ true
    → is_check z.status ≡ true
    → is_check ((if a then x else if b then y else z).status) ≡ true
of_two_tests true b x y z p q r = p
of_two_tests false true x y z p q r = q
of_two_tests false false x y z p q r = r

timestamp_in_buf-is_check :
    (cycle_ms : ℕ) (soe : SoeDims) (ts : ℤ)
    → is_check (timestamp_in_buf cycle_ms soe ts).status ≡ true
unfolding timestamp_in_buf
timestamp_in_buf-is_check cycle_ms soe ts =
    of_two_tests (ltb_ℤ ts (s64 (soe.kbuf.wrt0 -ℤ dead_band_us cycle_ms)))
      (ltb_ℤ (s64 (soe.kbuf.wrt1 +ℤ dead_band_us cycle_ms)) ts)
      (rc_of e_fmt_ts_too_late_for_kb (s64 (soe.kbuf.wrt0 -ℤ ts)))
      (rc_of e_fmt_ts_too_early_for_kb (s64 (ts -ℤ soe.kbuf.wrt1)))
      (rc_of soe_success (s64 (ts -ℤ soe.kbuf.wrt0))) refl refl refl

on_check :
    (P : WordMem × Rc → Type 0) (e : ErrCode) (x y z : Option (WordMem × Rc)) (w : WordMem × Rc)
    → is_check e ≡ true
    → Returns P x
    → Returns P y
    → Returns P z
    → Returns P (elim e [
      | soe_success ↦ x
      | e_fmt_ts_too_early_for_kb ↦ y
      | e_fmt_ts_too_late_for_kb ↦ z
      | e_timeout ↦ none
      | e_fmt_no_events_found ↦ none
      | e_fmt_undefined ↦ some w
    ])
on_check P soe_success x y z w c a b d = a
on_check P e_timeout x y z w c a b d = absurd cc
on_check P e_fmt_ts_too_early_for_kb x y z w c a b d = b
on_check P e_fmt_ts_too_late_for_kb x y z w c a b d = d
on_check P e_fmt_no_events_found x y z w c a b d = absurd cc
on_check P e_fmt_undefined x y z w c a b d = absurd cc

module _ (soe : SoeDims) (ht : WordMem) (Shown : Fmt → Type 0)
    (ready : (latest : Fmt) → Shown latest → IsReady soe latest ht) where
  looked :
      (latest : Fmt) (rc : Rc)
      → Shown latest
      → Returns (IsFrom soe ht Shown) (soe_lut_lookup soe latest ht rc)
  looked latest rc s =
      let r = soe_lut_lookup-IsCycle soe latest ht rc (ready latest s) in
      (r.0, r.1, inr (latest, rc, s, r.2))

  -- A field that the strategy sets afterwards does not matter.
  marked :
      (r : WordMem × Rc) (retry : ℕ)
      → IsFrom soe ht Shown r
      → IsFrom soe ht Shown (r.0, record (r.1) { fmt_num = fmt_wait; next_retry = retry })
  marked r retry q = elim q [
    | inl same ↦ inl same
    | inr c ↦ inr (
      c.0,
      c.1,
      c.2,
      record {
        table = c.3.table;
        delimiter = c.3.delimiter;
        size = c.3.size;
        accepted = c.3.accepted;
        missed = c.3.missed;
        same_status = c.3.same_status;
      },
    )
  ]

  by_status :
      (latest : Fmt) (rc : Rc)
      → Shown latest
      → Returns (IsFrom soe ht Shown) (lookup_on_success soe latest ht rc)
  unfolding lookup_on_success
  by_status latest rc s =
      on_status (IsFrom soe ht Shown) rc.status _ _ (looked latest rc s) (_, refl, inl refl)

  retry_loop-IsFrom :
      (cycle_ms : ℕ) (fmt_ts : ℤ) (rc : Rc) (attempts : ℕ → Attempt) (left retry : ℕ)
      → ((i : ℕ) → i < retry + left → Shown (attempts i).latest)
      → Returns (IsFrom soe ht Shown) (retry_loop cycle_ms soe fmt_ts rc ht attempts left retry)
  unfolding retry_loop
  retry_loop-IsFrom cycle_ms fmt_ts rc attempts zero retry s = (_, refl, inl refl)
  retry_loop-IsFrom cycle_ms fmt_ts rc attempts (suc left) retry s =
      let again =
        retry_loop-IsFrom cycle_ms fmt_ts rc attempts left (retry + 1) (λ i h. s i (omega arith)) in
      let latest = (attempts retry).latest in
      let ts = (first_row latest).timestamp in
      Returns-if (not (attempts retry).in_time) again (
        Returns-if (is_null latest) (_, refl, inl refl)
          (Returns-if (eqb_ℤ ts fmt_ts) again (
            Returns-bind (looked latest (timestamp_in_buf cycle_ms soe ts) (s retry (omega arith)))
              (λ r q. (_, refl, marked r retry q)))))

-- The tables that the receiver shows to a cycle of the second strategy.
abbrev pub ShownIn : Fmt → Fmt → (ℕ → Attempt) → Fmt → Type 0
ShownIn fmt fmt_m1 attempts latest =
    (latest ≡ fmt) ⊎ ((latest ≡ fmt_m1) ⊎ ((i : ℕ) × (i < 5) × (latest ≡ (attempts i).latest)))

-- The second strategy always ends, after five retries at most, and neither of its asserts fails:
-- if a cycle is ready for every table that the receiver may show, the result is about one of
-- these tables, whose matches and counts it has, or the hold table is left alone.
pub strategy2-IsFrom :
    (cycle_ms : ℕ) (fmt fmt_m1 : Fmt) (attempts : ℕ → Attempt) (soe : SoeDims) (ht : WordMem)
    → ((latest : Fmt) → ShownIn fmt fmt_m1 attempts latest → IsReady soe latest ht)
    → Returns
        (IsFrom soe ht (ShownIn fmt fmt_m1 attempts))
        (strategy2 cycle_ms fmt fmt_m1 attempts soe ht)
unfolding strategy2
strategy2-IsFrom cycle_ms fmt fmt_m1 attempts soe ht ready =
    let Shown = ShownIn fmt fmt_m1 attempts in
    let ts = (first_row fmt).timestamp in
    let rc = timestamp_in_buf cycle_ms soe ts in
    let rc_m1 = timestamp_in_buf cycle_ms soe (first_row fmt_m1).timestamp in
    Returns-if (is_null fmt) (_, refl, inl refl)
      (on_check (IsFrom soe ht Shown) rc.status _ _ _ _ (timestamp_in_buf-is_check cycle_ms soe ts)
        (looked soe ht Shown ready fmt (record rc { fmt_num = fmt_cur }) (inl refl))
        (Returns-if (is_null fmt_m1) (_, refl, inl refl)
          (by_status soe ht Shown ready fmt_m1 (record rc_m1 { fmt_num = fmt_pre })
            (inr (inl refl))))
        (retry_loop-IsFrom soe ht Shown ready cycle_ms ts rc attempts 5 0
          (λ i h. inr (inr (i, omega arith, refl)))))
