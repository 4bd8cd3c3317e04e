-- ===== src/Live/Tests.antt =====
-- Liveness of a loop: 0 defines 5, 1 counts 5 down and reads 8, 2 returns 7.
use seahorn.Prelude.{
  Distinct, ℕ, ◌≡◌, ◌<◌, refl, true, false, Option, none, some, List, [], ◌∷◌, map, ◌==◌,
  if◌then◌else◌, arith, ℕ_discrete,
}
use seahorn.Live.{
  LiveMap, Function, Semantics, insert, sort, set_difference, merge, add_live, local_edge, extras,
  before_global, global_pass, run,
}
use seahorn.Live.Sorted.{copies}
use seahorn.Live.Pass.{SortedMap}
use seahorn.Live.Progress.{SuccsKnown}
use seahorn.Live.Fixpoint.{sum_over, joined, room, Outcome, global_pass_correct}
use seahorn.Live.Correct.{IsLiveness, EntryLive, run_correct, started}

abbrev countdown : Function
countdown = record {
  rtopo = 2 ∷ 1 ∷ 0 ∷ [];
  entry = 0;
  succs = λ b. if b == 0 then 1 ∷ [] else if b == 1 then 1 ∷ 2 ∷ [] else [];
  is_main = false;
  is_return = λ b. b == 2;
  is_extra = λ v. v == 8;
}

abbrev effects : Semantics
effects = record {
  exec = λ b.
      if b == 0
      then record { uses = []; defs = 5 ∷ [] }
      else if b == 1
      then record { uses = 8 ∷ 5 ∷ []; defs = 6 ∷ 7 ∷ [] }
      else record { uses = 7 ∷ []; defs = [] };
  exec_phi = λ b d.
      if (b == 1)
      then (if d == 1
          then record { uses = 6 ∷ []; defs = 5 ∷ [] }
          else record { uses = []; defs = [] })
      else record { uses = 9 ∷ []; defs = [] };
}

abbrev lives : Option LiveMap → Option (List (List ℕ))
lives o = elim o [ none ↦ none | some m ↦ some (map (λ b. (m b).live) (0 ∷ 1 ∷ 2 ∷ [])) ]

countdown-run :
    lives (run 3 effects countdown) ≡ some ((8 ∷ 9 ∷ []) ∷ (5 ∷ 8 ∷ 9 ∷ []) ∷ (7 ∷ 8 ∷ 9 ∷ []) ∷ [])
unfolding run ℕ_discrete add_live extras local_edge set_difference sort insert merge
countdown-run = refl

countdown_known : SuccsKnown countdown
countdown_known src h = ground arith

countdown-Distinct : Distinct (countdown.rtopo)
countdown-Distinct = ground arith

enough :
    room countdown
      (joined (before_global effects countdown) (countdown.rtopo))
      (before_global effects countdown)
    < 40
unfolding before_global sum_over joined add_live extras local_edge set_difference sort insert merge
    copies
enough = omega arith

run_correct_example :
    (m : LiveMap) × (run 40 effects countdown ≡ some m)
    × IsLiveness effects countdown m
    × EntryLive countdown m
run_correct_example = run_correct 40 effects countdown countdown-Distinct countdown_known enough

-- A function of one block that reads the global 8: patchArgsAndGlobals makes it live a second time.
abbrev one_block : Function
one_block = record countdown { rtopo = 0 ∷ []; succs = λ b. []; is_return = λ b. true }

abbrev reads : Semantics
reads = record effects { exec = λ b. record { uses = 8 ∷ []; defs = [] } }

-- A symbol that is live already is added again, and stands twice.
one_block-run : lives (run 3 reads one_block) ≡ some ((8 ∷ 8 ∷ []) ∷ [] ∷ [] ∷ [])
unfolding run ℕ_discrete add_live extras local_edge set_difference sort insert merge
one_block-run = refl

sorted_before : SortedMap (before_global effects countdown)
sorted_before = (started effects countdown countdown-Distinct countdown_known).1

global_pass_correct_example :
    (m : LiveMap) × (global_pass 40 countdown (before_global effects countdown) ≡ some m)
    × Outcome countdown (before_global effects countdown) m
global_pass_correct_example =
    global_pass_correct 40 countdown (before_global effects countdown) sorted_before countdown_known
      enough
