-- ===== src/Funcs/Luns/Refine.antt =====
-- Creating and removing LUNs as operations on a set of numbers.
use libusbgx.Base.{
  ℕ, ◌<◌, ◌≡◌, refl, sym, Bool, true, false, not, List, [], ◌∷◌, ◌∙◌, arith, ◌==◌, if◌then◌else◌,
  none, ap, subst, ltb, ltb→lt, Bool-cases, inl, inr,
}
use libusbgx.Base.Int.{pos}
use libusbgx.Funcs.Luns.{set_lun, lun_of, create_lun, rm_lun}
use libusbgx.Funcs.Luns.Mask.{IsMs, with_lun, with_lun-IsMs, lun_of-set_lun}
use libusbgx.Heap.{Ptr, Heap, Function, Mem}
use libusbgx.Heap.Keeps.{mem_at}
use libusbgx.Heap.Monad.{M, Run, returned, raised, fault, return, ◌>>=◌}
use libusbgx.Heap.Post.{Post, returns, raises, Post-mono, Post-bind}
use libusbgx.Objects.{max_luns}
use libusbgx.Os.{Os}
use libusbgx.Funcs.Luns.Change.{create_lun-Post, rm_lun-Post, create_lun-refused, rm_lun-refused}

-- What a mass storage promises: a set of LUNs, and two operations on it, which can be refused. A
-- negative number is no call of this contract: the code uses it as an index.
pub data Call : Type 0 where
  create remove : ℕ → Call

abbrev pub LunSet : Type 0
LunSet = ℕ → Bool

abbrev changed : LunSet → ℕ → Bool → LunSet
changed s id b j = if id == j then b else s j

-- The flag is whether the call succeeds.
pub data Step (s : LunSet) : Call → Bool → LunSet → Type 0 where
  created : {id : ℕ} → id < max_luns → s id ≡ false → Step s (create id) true (changed s id true)
  removed : {id : ℕ} → id < max_luns → s id ≡ true → Step s (remove id) true (changed s id false)
  refused : {k : Call} → Step s k false s

pub data Steps : LunSet → List Call → List Bool → LunSet → Type 0 where
  none_left : {s : LunSet} → Steps s [] [] s
  and_then :
      {s : LunSet} {k : Call} {ks : List Call} {b : Bool} {bs : List Bool} {t u : LunSet}
      → Step s k b t
      → Steps t ks bs u
      → Steps s (k ∷ ks) (b ∷ bs) u

-- The set that a mass storage stands for.
pub record Stands (h : Heap) (mf : Ptr) (s : LunSet) : Type 0 where
  pub func : Function
  pub ms : IsMs h mf func
  pub same : (j : ℕ) → lun_of func.luns j ≡ s j

-- The calls of the library.
abbrev pub run_call : ⦃os : Os⦄ → Ptr → Call → M (Unit {0})
run_call mf (create id) = create_lun mf (pos id) none
run_call mf (remove id) = rm_lun mf (pos id)

not-true : {b : Bool} → not b ≡ true → b ≡ false
not-true {b = true} h = ground arith
not-true {b = false} h = refl

Stands-at : {h h' : Heap} {mf : Ptr} {s : LunSet} → h' ≡ h → Stands h mf s → Stands h' mf s
Stands-at {mf = mf} {s = s} e st = subst (λ h. Stands h mf s) (sym e) st

module _ ⦃os : Os⦄ where
  abbrev settled : Run (Mem os) (Unit {0}) → Run (Mem os) Bool
  settled (returned _ m) = returned true m
  settled (raised _ m) = returned false m
  settled fault = fault

  -- A client that makes calls, goes on after errors, and keeps which succeeded.
  unfoldable pub run_calls : Ptr → List Call → M (List Bool)
  run_calls mf [] = return []
  run_calls mf (k ∷ ks) =
      (λ m. settled (run_call mf k m)) >>= λ b. (run_calls mf ks >>= λ bs. return (b ∷ bs))

  module _ (mf : Ptr) where
    with_lun-Stands :
        {h : Heap} {s : LunSet} (st : Stands h mf s) (w : os.World) (id : ℕ) (b : Bool)
        → id < max_luns
        → Stands (with_lun st.ms w id b) mf (changed s id b)
    with_lun-Stands {h} {s} st w id b l = record {
      func = record st.func { luns = set_lun id b st.func.luns };
      ms = with_lun-IsMs st.ms w id b;
      same = λ j.
          lun_of-set_lun id j b st.func.luns (omega (arith, l, st.ms.sized))
          ∙ ap (λ x. if id == j then b else x) (st.same j);
    }

    Reaches : LunSet → Call → Bool → Mem os → Type 0
    Reaches s k b n = (t : LunSet) × Step s k b t × Stands n.heap mf t

    run_call-Refines :
        {h : Heap} {s : LunSet} (w : os.World) (k : Call)
        → Stands h mf s
        → Post (λ _ n. Reaches s k true n) (λ _ n. Reaches s k false n) (run_call mf k (mem_at h w))
    unfolding Reaches
    run_call-Refines {h} {s} w (create id) st = elim (Bool-cases (ltb id max_luns)) [
      | inl l ↦
          let small = ltb→lt id max_luns l in
          Post-mono (create_lun-Post st.ms w id none small)
            (λ _ n (free, e). (
              changed s id true,
              created small (sym (st.same id) ∙ not-true free),
              Stands-at e (with_lun-Stands st w id true small),
            ))
            (λ _ n e. (s, refused, Stands-at e st))
      | inr l ↦ rw (create_lun-refused mf id (mem_at h w) l none) (raises (s, refused, st))
    ]
    run_call-Refines {h} {s} w (remove id) st = elim (Bool-cases (ltb id max_luns)) [
      | inl l ↦
          let small = ltb→lt id max_luns l in
          Post-mono (rm_lun-Post st.ms w id small)
            (λ _ n (there, e). (
              changed s id false,
              removed small (sym (st.same id) ∙ there),
              Stands-at e (with_lun-Stands st w id false small),
            ))
            (λ _ n e. (s, refused, Stands-at e st))
      | inr l ↦ rw (rm_lun-refused mf id (mem_at h w) l) (raises (s, refused, st))
    ]

    settled-Refines :
        (s : LunSet) (k : Call) {r : Run (Mem os) (Unit {0})}
        → Post (λ _ n. Reaches s k true n) (λ _ n. Reaches s k false n) r
        → Post (λ b n. Reaches s k b n) (λ _ _. ⊥) (settled r)
    settled-Refines s k (returns p) = returns p
    settled-Refines s k (raises q) = returns q

    -- Any sequence of calls of `usbg_f_ms_create_lun` (without attributes) and `usbg_f_ms_rm_lun`
    -- with numbers that are not negative, on a live mass storage function, whose array of LUNs
    -- has been filled and stands for a set of numbers, runs without a fault, and is a sequence of
    -- steps of that set: a call that succeeds adds a number below 16 that was not in the set, or
    -- removes one that was, a call that fails leaves the set as it was, and in the end the array
    -- stands for the last set.
    pub run_calls-Refines :
        {h : Heap} {s : LunSet} (w : os.World) (ks : List Call)
        → Stands h mf s
        → Post
            (λ bs n. (t : LunSet) × Steps s ks bs t × Stands n.heap mf t)
            (λ _ _. ⊥)
            (run_calls mf ks (mem_at h w))
    unfolding run_calls Reaches
    run_calls-Refines {s = s} w [] st = returns (s, none_left, st)
    run_calls-Refines {h = h} {s = s} w (k ∷ ks) st =
        Post-bind {f = λ b. run_calls mf ks >>= λ bs. return (b ∷ bs)}
          (settled-Refines s k (run_call-Refines w k st))
          (λ b n (t, step, stands).
            Post-bind {f = λ bs. return (b ∷ bs)}
              (run_calls-Refines {h = n.heap} {s = t} n.world ks stands)
              (λ bs n (u, steps, stands). returns (u, and_then step steps, stands)))
