-- ===== src/Inst/Env/Laws.antt =====
-- An EnvBuilder holds the entries that it copied and those that it was given, in order, ended
-- by a null pointer as soon as it was given one.
use acq400_xrm.Prelude.{
  ℕ, zero, suc, ◌+◌, ◌≤◌, ◌<◌, ◌≡◌, ◌≢◌, refl, sym, ap, ◌∙◌, Option, none, some, List, [], ◌∷◌,
  ◌++◌, arith, length, length-append, map, lt→ltb,
}
use mathlib.Core.Path.{subst}
use mathlib.Core.List.{append_assoc, append-nil}
use acq400_xrm.Prelude.Memory.{update, update_self, update_ne, read_words}
use acq400_xrm.Prelude.Returns.{Returns, Returns-bind}
use acq400_xrm.Prelude.Text.{Text}
use acq400_xrm.Inst.Env.{
  Pointers, EnvBuilder, env_count, put, copy_env, new_builder, add, deleted, add_each,
}

-- The entries from ii on.
abbrev pub HasEntries : Pointers → ℕ → List Text → Type 0
HasEntries m ii [] = Unit {0}
HasEntries m ii (e ∷ es) = (m ii ≡ some e) × HasEntries m (ii + 1) es

-- The entries from ii on, and the null pointer behind them.
abbrev pub IsEnv : Pointers → ℕ → List Text → Type 0
IsEnv m ii es = HasEntries m ii es × (m (ii + length es) ≡ none)

pub record IsBuilder (max_new : ℕ) (old new : List Text) (b : EnvBuilder) : Type 0 where
  pub starts : b.new_start ≡ length old
  pub size : b.max_elements ≡ max_new + 1 + length old
  pub cursor : b.new_cursor ≡ length old + length new
  pub entries : HasEntries b.env 0 (old ++ new)
  pub ended : new ≢ [] → b.env b.new_cursor ≡ none

IsEnv-tail :
    (m : Pointers) (ii : ℕ) (e : Text) (es : List Text) → IsEnv m ii (e ∷ es) → IsEnv m (ii + 1) es
IsEnv-tail m ii e es h = (h.0.1, ap m (omega arith) ∙ h.1)

HasEntries-update :
    (m : Pointers) (ii j : ℕ) (p : Option Text) (es : List Text)
    → ii + length es ≤ j
    → HasEntries m ii es
    → HasEntries (update m j p) ii es
HasEntries-update m ii j p [] h s = tt
HasEntries-update m ii j p (e ∷ es) h s =
    (update_ne m j p ii (omega arith) ∙ s.0, HasEntries-update m (ii + 1) j p es (omega arith) s.1)

HasEntries-snoc :
    (m : Pointers) (ii : ℕ) (e : Text) (es : List Text)
    → HasEntries m ii es
    → m (ii + length es) ≡ some e
    → HasEntries m ii (es ++ e ∷ [])
HasEntries-snoc m ii e [] s h = (ap m (omega arith) ∙ h, tt)
HasEntries-snoc m ii e (x ∷ es) s h =
    (s.0, HasEntries-snoc m (ii + 1) e es s.1 (ap m (omega arith) ∙ h))

env_count-IsEnv :
    (fuel ii : ℕ) (m : Pointers) (es : List Text)
    → length es < fuel
    → IsEnv m ii es
    → env_count fuel m ii ≡ some (ii + length es)
unfolding env_count
env_count-IsEnv zero ii m es h s = absurd (omega arith)
env_count-IsEnv (suc fuel) ii m [] h s = ground (arith, s.1)
env_count-IsEnv (suc fuel) ii m (e ∷ es) h s =
    ground (arith, s.0.0, env_count-IsEnv fuel (ii + 1) m es (omega arith) (IsEnv-tail m ii e es s))

put-some :
    (size : ℕ) (m : Pointers) (ii : ℕ) (p : Option Text)
    → ii < size
    → put size m ii p ≡ some (update m ii p)
unfolding put
put-some size m ii p h = ground arith

-- An entry goes behind those before it.
put-Entry :
    (size : ℕ) (m : Pointers) (ii : ℕ) (e : Text) (es : List Text)
    → ii < size
    → ii ≡ length es
    → HasEntries m 0 es
    → Returns (λ (r : Pointers). HasEntries r 0 (es ++ e ∷ [])) (put size m ii (some e))
put-Entry size m ii e es h q s = (
  update m ii (some e),
  put-some size m ii (some e) h,
  HasEntries-snoc (update m ii (some e)) 0 e es
      (HasEntries-update m 0 ii (some e) es (omega arith) s)
      (ap (update m ii (some e)) (omega arith) ∙ update_self m ii (some e)),
)

-- What copy_env() has copied when it is at entry ii.
copy_env-IsEnv :
    (fuel size : ℕ) (new old : Pointers) (ii : ℕ) (before es : List Text)
    → length es < fuel
    → ii + length es ≤ size
    → ii ≡ length before
    → HasEntries new 0 before
    → IsEnv old ii es
    → Returns
        (λ (r : Pointers × ℕ). HasEntries (r.0) 0 (before ++ es))
        (copy_env fuel size new old ii)
unfolding copy_env
copy_env-IsEnv zero size new old ii before es h b q s t = absurd (omega arith)
copy_env-IsEnv (suc fuel) size new old ii before [] h b q s t =
    let ended : old ii ≡ none = ap old (omega arith) ∙ t.1 in
    rw (ended, copy_env) ((new, ii), refl, rw (append-nil before) s)
copy_env-IsEnv (suc fuel) size new old ii before (e ∷ es) h b q s t =
    rw (t.0.0, copy_env)
      (Returns-bind (put-Entry size new ii e before (omega arith) q s) (λ m k.
        rw (sym (append_assoc before (e ∷ []) es)) (
          copy_env-IsEnv fuel size m old (ii + 1) (before ++ e ∷ []) es (omega arith) (omega arith)
            (omega (arith, length-append before (e ∷ []))) k (IsEnv-tail old ii e es t))))

-- The constructor, on an environment of entries that the fuel is enough for, and on none.
pub new_builder-IsBuilder :
    (fuel max_new : ℕ) (envp heap : Pointers) (es : List Text)
    → length es < fuel
    → IsEnv envp 0 es
    → Returns (IsBuilder max_new es []) (new_builder fuel max_new (some envp) heap)
unfolding new_builder
new_builder-IsBuilder fuel max_new envp heap es h s =
    let start : 0 + length es ≡ length es = omega arith in
    let counted : env_count fuel envp 0 ≡ some (length es) =
      env_count-IsEnv fuel 0 envp es h s ∙ ap some start in
    rw counted (
      Returns-bind
        (copy_env-IsEnv fuel (max_new + 1 + length es) heap envp 0 [] es h (omega arith) refl tt s)
        (λ r k. (
          _,
          refl,
          record {
            starts = omega arith;
            size = omega arith;
            cursor = omega arith;
            entries = rw (append-nil es) k;
            ended = λ n. absurd (n refl);
          },
        )))

pub new_builder-null :
    (fuel max_new : ℕ) (heap : Pointers)
    → Returns (IsBuilder max_new [] []) (new_builder fuel max_new none heap)
unfolding new_builder
new_builder-null fuel max_new heap = (
  _,
  refl,
  record {
    starts = refl;
    size = omega arith;
    cursor = refl;
    entries = tt;
    ended = λ n. absurd (n refl);
  },
)

-- While there is room, the assert of add() holds and both writes are in the array.
pub add-IsBuilder :
    (max_new : ℕ) (old new : List Text) (kev : Text) (b : EnvBuilder)
    → length new < max_new
    → IsBuilder max_new old new b
    → Returns (IsBuilder max_new old (new ++ kev ∷ [])) (add kev b)
unfolding add
add-IsBuilder max_new old new kev b h k =
    rw (lt→ltb (b.new_cursor + 1) b.max_elements (omega (arith, k.size, k.cursor))) (
      Returns-bind
        (put-Entry b.max_elements b.env b.new_cursor kev (old ++ new)
          (omega (arith, k.size, k.cursor)) (omega (arith, k.cursor, length-append old new))
          k.entries)
        (λ m s.
          Returns-bind {P = λ (r : Pointers). r ≡ update m (b.new_cursor + 1) none}
            (
              _,
              put-some b.max_elements m (b.new_cursor + 1) none (omega (arith, k.size, k.cursor)),
              refl,
            )
            (λ t e. (
              _,
              refl,
              record {
                starts = k.starts;
                size = k.size;
                cursor = omega (arith, k.cursor, length-append new (kev ∷ []));
                entries = rw e (
                    HasEntries-update m 0 (b.new_cursor + 1) none (old ++ (new ++ kev ∷ []))
                      (omega (
                        arith,
                        k.cursor,
                        length-append old (new ++ kev ∷ []),
                        length-append new (kev ∷ []),
                      ))
                      (rw (sym (append_assoc old new (kev ∷ []))) s));
                ended = λ n. rw e (update_self m (b.new_cursor + 1) none);
              },
            ))))

pub add_each-IsBuilder :
    (max_new : ℕ) (old new kevs : List Text) (b : EnvBuilder)
    → length new + length kevs ≤ max_new
    → IsBuilder max_new old new b
    → Returns (IsBuilder max_new old (new ++ kevs)) (add_each (map (λ kev. some kev) kevs) b)
unfolding add_each
add_each-IsBuilder max_new old new [] b h k = (b, refl, rw (append-nil new) k)
add_each-IsBuilder max_new old new (kev ∷ kevs) b h k =
    Returns-bind (add-IsBuilder max_new old new kev b (omega arith) k) (λ next l.
      rw (sym (append_assoc new (kev ∷ []) kevs)) (
        add_each-IsBuilder max_new old (new ++ kev ∷ []) kevs next
          (omega (arith, length-append new (kev ∷ []))) l))

read_words-HasEntries :
    (m : Pointers) (ii : ℕ) (es : List Text)
    → HasEntries m ii es
    → read_words m ii (length es) ≡ map (λ e. some e) es
unfolding read_words
read_words-HasEntries m ii [] s = refl
read_words-HasEntries m ii (e ∷ es) s = cc (s.0, read_words-HasEntries m (ii + 1) es s.1)

HasEntries-append :
    (m : Pointers) (ii : ℕ) (old new : List Text)
    → HasEntries m ii (old ++ new)
    → HasEntries m (ii + length old) new
HasEntries-append m ii [] new s = subst (λ j. HasEntries m j new) (omega arith) s
HasEntries-append m ii (e ∷ old) new s =
    subst (λ j. HasEntries m j new) (omega arith) (HasEntries-append m (ii + 1) old new s.1)

-- The destructor deletes each text that was added, once, and none that was copied.
pub deleted-IsBuilder :
    (max_new : ℕ) (old new : List Text) (b : EnvBuilder)
    → IsBuilder max_new old new b
    → deleted b ≡ map (λ e. some e) new
unfolding deleted
deleted-IsBuilder max_new old new b k =
    ap (λ n. read_words b.env b.new_start n) (omega (arith, k.cursor, k.starts))
    ∙ read_words-HasEntries b.env b.new_start new (
        subst (λ j. HasEntries b.env j new) (omega (arith, k.starts))
          (HasEntries-append b.env 0 old new k.entries))

-- What a builder holds when it was given an entry is an environment of its texts.
pub IsBuilder-IsEnv :
    (max_new : ℕ) (old new : List Text) (b : EnvBuilder)
    → new ≢ []
    → IsBuilder max_new old new b
    → IsEnv b.env 0 (old ++ new)
IsBuilder-IsEnv max_new old new b n k =
    (k.entries, ap b.env (omega (arith, k.cursor, length-append old new)) ∙ k.ended n)
