-- ===== src/Inst/Alive.antt =====
-- Which processes run, as the effects of acq400_INST::task() tell.
use acq400_xrm.Prelude.{◌≡◌, refl, Bool, true, false, List, [], ◌∷◌, ◌++◌, arith, if◌then◌else◌}
use acq400_xrm.Prelude.Int.{ℤ, pos, ◌≤ℤ◌, ltb_ℤ, eqb_ℤ}
use acq400_xrm.Driver.{call_param_callbacks}
use acq400_xrm.Inst.{ChildProcessInfo}
use acq400_xrm.Inst.Task.{
  Inst, InstEffect, asyn, set_text, started, sent, hung_up, killed, send_number,
}

-- The processes that run behind effects, from those that ran before.
unfoldable pub without : ℤ → List ℤ → List ℤ
without p [] = []
without p (q ∷ qs) = if eqb_ℤ p q then qs else q ∷ without p qs

unfoldable pub alive : List ℤ → List InstEffect → List ℤ
alive l [] = l
alive l (started _ c ∷ es) = alive (c.pid ∷ l) es
alive l (killed p ∷ es) = alive (without p l) es
alive l (asyn _ ∷ es) = alive l es
alive l (set_text _ _ ∷ es) = alive l es
alive l (sent _ _ ∷ es) = alive l es
alive l (hung_up _ ∷ es) = alive l es

pub alive-append :
    (l : List ℤ) (es fs : List InstEffect) → alive l (es ++ fs) ≡ alive (alive l es) fs
unfolding alive
alive-append l [] fs = refl
alive-append l (started _ c ∷ es) fs = alive-append (c.pid ∷ l) es fs
alive-append l (killed p ∷ es) fs = alive-append (without p l) es fs
alive-append l (asyn _ ∷ es) fs = alive-append l es fs
alive-append l (set_text _ _ ∷ es) fs = alive-append l es fs
alive-append l (sent _ _ ∷ es) fs = alive-append l es fs
alive-append l (hung_up _ ∷ es) fs = alive-append l es fs

pub without_self : (p : ℤ) → without p (p ∷ []) ≡ []
unfolding without
without_self p = ground arith

-- The child that the driver knows.
abbrev pub children : ChildProcessInfo → List ℤ
children c = if ltb_ℤ (pos 0) c.pid then c.pid ∷ [] else []

pub children-pid : (c : ChildProcessInfo) → pos 1 ≤ℤ c.pid → children c ≡ c.pid ∷ []
children-pid c h = ground arith

pub send_number-alive : (l : List ℤ) (s : Inst) → alive l (send_number s) ≡ l
unfolding send_number alive
send_number-alive l s = ground arith

-- The effects of the stages of a round, with the callbacks in between.
pub alive_chain :
    (l0 l1 l2 l3 : List ℤ) (d r t : List InstEffect) (b : Bool)
    → alive l0 d ≡ l1
    → alive l1 r ≡ l2
    → alive l2 t ≡ l3
    → alive l0 (d ++ (r ++ ((if b then asyn call_param_callbacks ∷ [] else []) ++ t))) ≡ l3
unfolding alive
alive_chain l0 l1 l2 l3 d r t true e f g = simp (alive-append, e, f, g)
alive_chain l0 l1 l2 l3 d r t false e f g = simp (alive-append, e, f, g)
