-- ===== src/Funcs/Luns/Names.antt =====
-- The names of the directories of LUNs.
use libusbgx.Base.{
  ℕ, ◌<◌, ◌≡◌, refl, ◌∙◌, Bool, true, false, ◌||◌, List, [], ◌∷◌, ◌++◌, map, All, length, arith,
  ◌==◌, lt→ltb, if◌then◌else◌,
}
use libusbgx.Base.Int.{pos}
use libusbgx.CStr.{CString, c}
use libusbgx.Funcs.Luns.{scan_lun, set_lun, lun_of, mark_luns}
use libusbgx.Funcs.Luns.Mask.{lun_of-set_lun, length-set_lun}
use libusbgx.Funcs.Scan.{matched, scan_behind}
use libusbgx.Funcs.Scan.RoundTrip.{scan_behind-print_int}
use libusbgx.Heap.{Mem}
use libusbgx.Heap.Monad.{returned}
use libusbgx.Num.{print_int}
use libusbgx.Objects.{max_luns}
use libusbgx.Os.{Os}

abbrev pub lun_name : ℕ → CString
lun_name id = c "lun." ++ print_int (pos id)

scan_lun-lun_name : (id : ℕ) → id < max_luns → scan_lun (lun_name id) ≡ matched (pos id)
unfolding scan_lun
scan_lun-lun_name id h = scan_behind-print_int (c "lun.") id (omega arith)

abbrev pub among : ℕ → List ℕ → Bool
among j [] = false
among j (id ∷ ids) = id == j || among j ids

either : (a b c : Bool) → (b || (if a then true else c)) ≡ ((a || b) || c)
either true true c = refl
either true false c = refl
either false b c = refl

mark_luns-step :
    ⦃os : Os⦄ (n : CString) (ns : List CString) {id : ℕ} (luns : List Bool) (m : Mem os)
    → scan_lun n ≡ matched (pos id)
    → id < max_luns
    → mark_luns (n ∷ ns) luns m ≡ mark_luns ns (set_lun id true luns) m
unfolding mark_luns scan_lun set_lun scan_behind
mark_luns-step n ns {id} luns m e h = rw (e, lt→ltb id max_luns h) refl

-- The array that the directory's names give.
pub record Marked (ids : List ℕ) (luns marked : List Bool) : Type 0 where
  pub same : (j : ℕ) → lun_of marked j ≡ (among j ids || lun_of luns j)
  pub sized : length marked ≡ length luns

-- The loop of `init_luns` over the names "lun.<id>" of the directories of any LUNs with numbers
-- below 16, in any order, ends without a fault, and marks these LUNs in the array and no others:
-- a LUN is marked afterwards exactly if it is one of them or was marked before.
pub mark_luns-Marked :
    ⦃os : Os⦄ (ids : List ℕ) (luns : List Bool) (m : Mem os)
    → length luns ≡ max_luns
    → All (λ id. id < max_luns) ids
    → (marked : List Bool) × (mark_luns (map lun_name ids) luns m ≡ returned marked m)
      × Marked ids luns marked
unfolding mark_luns
mark_luns-Marked [] luns m sized small = (luns, refl, record { same = λ j. refl; sized = refl })
mark_luns-Marked (id ∷ ids) luns m sized (h, small) =
    let next = set_lun id true luns in
    let (marked, run, rest) =
      mark_luns-Marked ids next m (length-set_lun id true luns ∙ sized) small in
    (
      marked,
      mark_luns-step (lun_name id) (map lun_name ids) luns m (scan_lun-lun_name id h) h ∙ run,
      record {
        same = λ j.
            rest.same j
            ∙ (rw (lun_of-set_lun id j true luns (omega (arith, h, sized)))
                (either (id == j) (among j ids) (lun_of luns j)));
        sized = rest.sized ∙ length-set_lun id true luns;
      },
    )
