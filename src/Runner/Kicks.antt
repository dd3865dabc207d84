-- ===== src/Runner/Kicks.antt =====
-- src/coalescingRunner.ts: no kick is lost.
use charterion.Prelude.{ℕ, suc, ◌+◌, ◌≤◌, ◌<◌, ◌≡◌, ◌⊎◌, Bool, true, false, arith, inl, inr}
use charterion.Runner.{
  CoalescingRunner, RunnerPhase, resting, awaiting, settled, drain, kick, end_run, finish, Trace,
  here, kicked, ended, finished,
}

-- How many steps may pass before a run starts that was asked for.
abbrev steps_left : RunnerPhase → ℕ
steps_left resting = 0
steps_left awaiting = 2
steps_left settled = 1

abbrev is_resting : RunnerPhase → Bool
is_resting resting = true
is_resting _ = false

-- A run was started since, or it is still asked for and comes after the steps that are left.
abbrev IsOwed : ℕ → ℕ → CoalescingRunner → Type 0
IsOwed before n r =
    (before < r.started)
    ⊎ ((r.pending ≡ true)
        × (before ≤ r.started)
        × (is_resting r.phase ≡ false)
        × (steps_left r.phase ≤ n))

kick-IsOwed : (before n : ℕ) (r : CoalescingRunner) → IsOwed before n r → IsOwed before n (kick r)
unfolding kick drain
kick-IsOwed before n r h = ground arith

end_run-IsOwed :
    (before n : ℕ) (failed : Bool) (r : CoalescingRunner)
    → r.phase ≡ awaiting
    → IsOwed before (suc n) r
    → IsOwed before n (end_run failed r)
unfolding end_run drain
end_run-IsOwed before n failed r e h = ground arith

finish-IsOwed :
    (before n : ℕ) (r : CoalescingRunner)
    → r.phase ≡ settled
    → IsOwed before (suc n) r
    → IsOwed before n (finish r)
unfolding finish kick drain
finish-IsOwed before n r e h = ground arith

Trace-IsOwed :
    {r t : CoalescingRunner} {n : ℕ} (before k : ℕ)
    → Trace r n t
    → IsOwed before (k + n) r
    → IsOwed before k t
Trace-IsOwed before k (here r) h = ground arith
Trace-IsOwed before k (kicked r {n} trace) h =
    Trace-IsOwed before k trace (kick-IsOwed before (k + n) r h)
Trace-IsOwed before k (ended r failed {n} e trace) h =
    Trace-IsOwed before k trace (end_run-IsOwed before (k + n) failed r e (ground arith))
Trace-IsOwed before k (finished r {n} e trace) h =
    Trace-IsOwed before k trace (finish-IsOwed before (k + n) r e (ground arith))

new_kick-IsOwed : (r : CoalescingRunner) (n : ℕ) → 2 ≤ n → IsOwed r.started n (kick r)
unfolding kick drain
new_kick-IsOwed r n h = ground arith

-- No kick is lost: after a kick a run starts within two further steps, whatever is kicked in between and
-- whether the run under way fails; and no runner that was kicked is at rest before it started one.
pub kick-starts :
    (r t : CoalescingRunner) (n : ℕ)
    → Trace (kick r) n t
    → (2 ≤ n) ⊎ (t.phase ≡ resting)
    → r.started < t.started
kick-starts r t n trace (inl enough) =
    let owed = Trace-IsOwed r.started 0 trace (new_kick-IsOwed r (0 + n) (omega arith)) in
    ground arith
kick-starts r t n trace (inr at_rest) =
    let owed = Trace-IsOwed r.started 2 trace (new_kick-IsOwed r (2 + n) (omega arith)) in
    ground arith
