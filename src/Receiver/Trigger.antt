-- ===== src/Receiver/Trigger.antt =====
-- What a table that arrives sets off: process_fmt() of acq400_FMT_rx.cpp.
use acq400_xrm.Prelude.{
  ℕ, ◌≡◌, ◌≢◌, refl, sym, ◌⊎◌, inl, inr, true, List, [], ◌∷◌, arith, lt_cases, Bool-cases,
}
use acq400_xrm.Prelude.Int.{pos, to_bits}
use acq400_xrm.Structs.{Fmt, FmtRow}
use acq400_xrm.Driver.{set_integer, call_param_callbacks, signal_rx_event, p_fmt_pm_trg_evt_action}
use acq400_xrm.Receiver.{FmtRx, any_event, on_pm_trg_evt, process_fmt}

-- A row of the table has the event.
pub data Occurs (v : ℕ) : List FmtRow → Type 0 where
  here : {r : FmtRow} {rs : List FmtRow} → v ≡ r.event → Occurs v (r ∷ rs)
  there : {r : FmtRow} {rs : List FmtRow} → Occurs v rs → Occurs v (r ∷ rs)

any_event-Occurs : (v : ℕ) (fmt : List FmtRow) → any_event v fmt ≡ true → Occurs v fmt
unfolding any_event
any_event-Occurs v [] h = absurd (ground arith)
any_event-Occurs v (r ∷ rs) h = elim (lt_cases v r.event) [
  | inl lt ↦ there (any_event-Occurs v rs (ground arith))
  | inr (inl gt) ↦ there (any_event-Occurs v rs (ground arith))
  | inr (inr eq) ↦ here eq
]

Occurs-any_event : (v : ℕ) (fmt : List FmtRow) → Occurs v fmt → any_event v fmt ≡ true
unfolding any_event
Occurs-any_event v [] o = elim o [ ]
Occurs-any_event v (r ∷ rs) (here e) = ground arith
Occurs-any_event v (r ∷ rs) (there o) = let rest = Occurs-any_event v rs o in ground arith

-- Every table wakes the clients that wait for one, before anything else. Either an event is
-- selected and a row has it, and the trigger action goes to 1 with callbacks; or none is, or no
-- row has it, and the trigger action goes to 0.
pub process_fmt_cases :
    (rx : FmtRx) (fmt : Fmt)
    → ((to_bits 32 rx.fmt_pm_trg_evt ≢ 0)
        × Occurs (to_bits 16 rx.fmt_pm_trg_evt) fmt
        × (process_fmt rx fmt
            ≡ signal_rx_event
              ∷ set_integer 0 p_fmt_pm_trg_evt_action (pos 1)
              ∷ call_param_callbacks
              ∷ []))
      ⊎ (((to_bits 32 rx.fmt_pm_trg_evt ≡ 0) ⊎ (¬ Occurs (to_bits 16 rx.fmt_pm_trg_evt) fmt))
          × (process_fmt rx fmt
              ≡ signal_rx_event ∷ set_integer 0 p_fmt_pm_trg_evt_action (pos 0) ∷ []))
unfolding process_fmt on_pm_trg_evt
process_fmt_cases rx fmt =
    let v = to_bits 16 rx.fmt_pm_trg_evt in
    elim (lt_cases 0 (to_bits 32 rx.fmt_pm_trg_evt)) [
      | inl selected ↦ elim (Bool-cases (any_event v fmt)) [
        | inl found ↦ inl (omega arith, any_event-Occurs v fmt found, rw found (ground arith))
        | inr lost ↦ inr (
          inr (λ o. let found = Occurs-any_event v fmt o in ground arith),
          rw lost (ground arith),
        )
      ]
      | inr (inl bad) ↦ absurd (omega arith)
      | inr (inr off) ↦ inr (inl (sym off), rw (← off) refl)
    ]
