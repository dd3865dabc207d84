-- ===== src/Runner.antt =====
-- src/coalescingRunner.ts: a run of work that is kicked again while it runs is followed by one more run.
-- The steps of the state are the calls of `kick`, the end of a run that `drain` waits for, and the
-- callbacks of the promise once `drain` is done. `runOnce` may succeed or fail, and when it does is left
-- open; it is taken not to kick the runner before it first waits.
pub mod Kicks
use charterion.Prelude.{ℕ, zero, suc, ◌≡◌, Bool, true, false, if◌then◌else◌}

-- Where the promise `running` is: not there; in `drain`, waiting for a run; settled, with its callbacks
-- to come.
pub data RunnerPhase : Type 0 where
  resting awaiting settled : RunnerPhase

-- `started` counts the runs.
pub record CoalescingRunner : Type 0 where
  pub phase : RunnerPhase
  pub pending : Bool
  pub started : ℕ

abbrev pub new_runner : CoalescingRunner
new_runner = record { phase = resting; pending = false; started = 0 }

-- The `while` loop of `drain`, from its test on.
unfoldable pub drain : CoalescingRunner → CoalescingRunner
drain r =
    if r.pending
    then record { phase = awaiting; pending = false; started = suc r.started }
    else record r { phase = settled }

unfoldable pub kick : CoalescingRunner → CoalescingRunner
kick r = elim r.phase [
  | resting ↦ drain (record r { pending = true })
  | _ ↦ record r { pending = true }
]

-- The end of a run: `drain` goes on, or fails.
unfoldable pub end_run : Bool → CoalescingRunner → CoalescingRunner
end_run failed r = if failed then record r { phase = settled } else drain r

-- The callback of `finally`.
unfoldable pub finish : CoalescingRunner → CoalescingRunner
finish r = let free = record r { phase = resting } in if r.pending then kick free else free

-- What happens to a runner from one state to another, with the number of the steps that are not kicks.
pub data Trace : CoalescingRunner → ℕ → CoalescingRunner → Type 0 where
  here : (r : CoalescingRunner) → Trace r 0 r
  kicked : (r : CoalescingRunner) {n : ℕ} {t : CoalescingRunner} → Trace (kick r) n t → Trace r n t
  ended :
      (r : CoalescingRunner) (failed : Bool) {n : ℕ} {t : CoalescingRunner}
      → r.phase ≡ awaiting
      → Trace (end_run failed r) n t
      → Trace r (suc n) t
  finished :
      (r : CoalescingRunner) {n : ℕ} {t : CoalescingRunner}
      → r.phase ≡ settled
      → Trace (finish r) n t
      → Trace r (suc n) t
