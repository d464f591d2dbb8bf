-- ===== src/Inst/Stages.antt =====
-- The stages of a round of acq400_INST::task(): what each keeps, and which processes run.
use acq400_xrm.Prelude.{
  ℕ, zero, suc, ◌+◌, ◌≤◌, ◌<◌, ◌≡◌, ◌≢◌, refl, sym, ap, ◌∙◌, true, List, [], ◌∷◌, ◌⊎◌, inl, inr,
  length, length-set, arith, get_elem?, Option-cases, none, ◌%◌, ◌^◌,
}
use acq400_xrm.Prelude.Int.{ℤ, pos, ◌≤ℤ◌, ltb_ℤ, eqb_ℤ}
use acq400_xrm.Prelude.Returns.{Returns, Returns-bind, Returns-if}
use acq400_xrm.Prelude.Text.{Text}
use acq400_xrm.Driver.RateLimit.{mrl_of, unknown}
use acq400_xrm.Inst.{ChildProcessInfo, no_child}
use acq400_xrm.Inst.Env.Laws.{IsEnv}
use acq400_xrm.Inst.Launch.{prepare_launch-IsLaunch}
use acq400_xrm.Inst.Message.{take_message-some}
use acq400_xrm.Inst.Alive.{
  alive, without_self, alive-append, children, children-pid, send_number-alive,
}
use acq400_xrm.Inst.Task.{
  Inst, InstEffect, Try, Arrival, start_child, send_number, drive_child, try_read, count_read,
  read_child, stop_child,
}

abbrev pub IsRunstop : ℤ → Type 0
IsRunstop z = (z ≡ pos 0) ⊎ (z ≡ pos 1)

-- RUNSTOP is a binary record, fork() succeeds, messages fit ipc_buffer, and the environment is
-- an array that a null pointer ends.
pub record IsArrival (a : Arrival) : Type 0 where
  pub bit : IsRunstop a.runstop
  pub forks : pos 1 ≤ℤ a.child.pid
  pub fits0 : length a.try0.bytes < 128
  pub fits1 : length a.try1.bytes < 128
  pub entries : List Text
  pub short : length entries < a.machine.fuel
  pub ended : IsEnv a.machine.environ 0 entries

abbrev pub AllArrive : List Arrival → Type 0
AllArrive [] = Unit {0}
AllArrive (a ∷ later) = IsArrival a × AllArrive later

-- A limit of the menu, the three counts, and a child while the driver runs.
abbrev pub IsLife : ℤ → ChildProcessInfo → Type 0
IsLife running c = ((running ≡ pos 0) × (c ≡ no_child)) ⊎ ((running ≡ pos 1) × (pos 1 ≤ℤ c.pid))

pub record IsInst (s : Inst) : Type 0 where
  pub limit : mrl_of s.mrl_param ≢ unknown
  pub counts : length s.read_backlog ≡ 3
  pub life : IsLife s.runstop0 s.cpi

-- A stage of a round keeps the first two, and tells truly which processes run.
pub record IsStage (l : List ℤ) (r : Inst × List InstEffect) : Type 0 where
  pub limit : mrl_of r.0.mrl_param ≢ unknown
  pub counts : length r.0.read_backlog ≡ 3
  pub runs : alive l r.1 ≡ children r.0.cpi

-- Between the start and the end of a round there is a child if the driver runs or ran.
abbrev pub IsOpen : Arrival → Inst → Type 0
IsOpen a s =
    ((a.runstop ≡ pos 0) × (s.runstop0 ≡ pos 0) × (s.cpi ≡ no_child))
    ⊎ ((pos 1 ≤ℤ s.cpi.pid) × ((a.runstop ≡ pos 1) ⊎ ((a.runstop ≡ pos 0) × (s.runstop0 ≡ pos 1))))

start_child-IsStage :
    (a : Arrival) (s : Inst)
    → IsArrival a
    → mrl_of s.mrl_param ≢ unknown
    → Returns
        (λ (r : Inst × List InstEffect).
          IsStage [] r × (r.0.cpi ≡ a.child) × (r.0.runstop0 ≡ s.runstop0))
        (start_child a s)
unfolding start_child alive
start_child-IsStage a s h lim =
    Returns-bind
      (prepare_launch-IsLaunch a.machine a.text_param a.sample_prams h.entries h.short h.ended)
      (λ launch u. (
        _,
        refl,
        (
          record { limit = lim; counts = refl; runs = sym (children-pid a.child h.forks) },
          refl,
          refl,
        ),
      ))

sends_on : (l : List ℤ) (s : Inst) → IsInst s → l ≡ children s.cpi → IsStage l (s, send_number s)
sends_on l s k e = record { limit = k.limit; counts = k.counts; runs = send_number-alive l s ∙ e }

pub drive_child-IsStage :
    (a : Arrival) (s : Inst)
    → IsArrival a
    → IsInst s
    → Returns
        (λ (r : Inst × List InstEffect). IsStage (children s.cpi) r × IsOpen a (r.0))
        (drive_child a s)
unfolding drive_child alive
drive_child-IsStage a s h k = elim k.life [
  | inl (q, e) ↦ elim h.bit [
    | inl b ↦
        simp (b, q)
          (_, refl, (record { limit = k.limit; counts = k.counts; runs = refl }, inl (refl, q, e)))
    | inr b ↦
        simp (b, q, e)
          (Returns-bind (start_child-IsStage a s h k.limit) (λ r t. (
            _,
            refl,
            (
              record {
                limit = t.0.limit;
                counts = t.0.counts;
                runs =
                    alive-append [] (r.1) (send_number (r.0))
                    ∙ ap (λ l. alive l (send_number (r.0))) t.0.runs
                    ∙ send_number-alive (children r.0.cpi) (r.0);
              },
              inr (rw (t.1) h.forks, inl refl),
            ),
          )))
  ]
  | inr (q, p) ↦ elim h.bit [
    | inl b ↦ simp (b, q) (_, refl, (sends_on (children s.cpi) s k refl, inr (p, inr (refl, q))))
    | inr b ↦ simp (b, q) (_, refl, (sends_on (children s.cpi) s k refl, inr (p, inl refl)))
  ]
]

try_read-some :
    (l : List ℤ) (t : Try) (count n : ℕ)
    → length t.bytes < 128
    → Returns
        (λ (r : (ℕ × ℕ) × List InstEffect). (alive l r.1 ≡ l) × ((r.0).1 ≤ suc n))
        (try_read t count n)
unfolding try_read alive
try_read-some l t count n h =
    Returns-if _
      (Returns-bind (take_message-some t.bytes h) (λ m u. (_, refl, (refl, omega arith))))
      (_, refl, (refl, omega arith))

get_elem?-lt : (xs : List ℕ) (i : ℕ) → i < length xs → get_elem? xs i ≢ none
get_elem?-lt [] i h e = absurd (omega arith)
get_elem?-lt (x ∷ xs) zero h e = cc
get_elem?-lt (x ∷ xs) (suc i) h e = get_elem?-lt xs i (omega arith) e

count_read-some :
    (backlog : List ℕ) (n : ℕ)
    → n < length backlog
    → Returns (λ (r : List ℕ). length r ≡ length backlog) (count_read backlog n)
unfolding count_read
count_read-some backlog n h = elim (Option-cases (get_elem? backlog n)) [
  | inl e ↦ absurd (get_elem?-lt backlog n h e)
  | inr (c, e) ↦ rw (e, count_read) (_, refl, length-set backlog n ((c + 1) % 2 ^ 32))
]

pub read_child-IsStage :
    (a : Arrival) (s : Inst) (l : List ℤ)
    → IsArrival a
    → mrl_of s.mrl_param ≢ unknown
    → length s.read_backlog ≡ 3
    → IsOpen a s
    → l ≡ children s.cpi
    → Returns (λ (r : Inst × List InstEffect). IsStage l r × IsOpen a (r.0)) (read_child a s)
unfolding read_child alive
read_child-IsStage a s l h lim n o e =
    Returns-if (eqb_ℤ s.cpi.fd (pos 0)) (_, refl, (record { limit = lim; counts = n; runs = e }, o))
      (Returns-bind (try_read-some l a.try0 s.redis_bcount 0 h.fits0) (λ r0 t0.
        Returns-bind (try_read-some l a.try1 (r0.0).0 (r0.0).1 h.fits1) (λ r1 t1.
          Returns-bind (count_read-some s.read_backlog (r1.0).1 (omega (arith, t0.1, t1.1)))
            (λ backlog t. (
              _,
              refl,
              (
                record {
                  limit = lim;
                  counts = t ∙ n;
                  runs = alive-append l (r0.1) (r1.1) ∙ ap (λ x. alive x (r1.1)) t0.0 ∙ t1.0 ∙ e;
                },
                o,
              ),
            )))))

-- The end of a round.
pub stop_child-IsStage :
    (a : Arrival) (s : Inst)
    → mrl_of s.mrl_param ≢ unknown
    → length s.read_backlog ≡ 3
    → IsOpen a s
    → Returns
        (λ (r : Inst × List InstEffect). IsStage (children s.cpi) r × IsLife a.runstop r.0.cpi)
        (stop_child a s)
unfolding stop_child alive
stop_child-IsStage a s lim n o = elim o [
  | inl (b, q, e) ↦
      simp (b, q) (_, refl, (record { limit = lim; counts = n; runs = refl }, inl (refl, e)))
  | inr (p, inl b) ↦
      simp b (_, refl, (record { limit = lim; counts = n; runs = refl }, inr (refl, p)))
  | inr (p, inr (b, q)) ↦
      let lives : ltb_ℤ (pos 0) s.cpi.pid ≡ true = ground arith in
      simp (b, q, lives)
        (
          _,
          refl,
          (record { limit = lim; counts = n; runs = without_self s.cpi.pid }, inl (refl, refl)),
        )
]
