-- ===== src/Manager/Cancelling.antt =====
-- When a wait of the checker task ends, and when its cancellation is heard (_wait_for_checker_event of
-- src/leasepool/manager.py).
use leasepool.Base.{Bool, true, false, List, [], ◌∷◌, ◌++◌, ◌≡◌, refl, if◌then◌else◌}
use leasepool.Manager.Waiting.{
  Waiting, sleeps_once, awaits, drains, past, stopped, crashed, WaitEvent, is_set, times_out,
  resumes, is_cancelled, wait_on, wait_for_all,
}

abbrev pub in_wait : Waiting → Bool
in_wait sleeps_once = true
in_wait (awaits d) = true
in_wait (drains raising) = true
in_wait w = false

-- Not in the `finally` after a timeout.
abbrev pub hears : Waiting → Bool
hears (drains raising) = raising
hears w = true

stopped-stays : (es : List WaitEvent) → wait_for_all es stopped ≡ stopped
unfolding wait_on
stopped-stays [] = refl
stopped-stays (is_set ∷ es) = stopped-stays es
stopped-stays (times_out ∷ es) = stopped-stays es
stopped-stays (resumes ∷ es) = stopped-stays es
stopped-stays (is_cancelled ∷ es) = stopped-stays es

past-stays : (es : List WaitEvent) → wait_for_all es past ≡ past
unfolding wait_on
past-stays [] = refl
past-stays (is_set ∷ es) = past-stays es
past-stays (times_out ∷ es) = past-stays es
past-stays (resumes ∷ es) = past-stays es
past-stays (is_cancelled ∷ es) = past-stays es

drains-ends :
    (raising : Bool) (es : List WaitEvent)
    → wait_for_all (es ++ resumes ∷ []) (drains raising) ≡ (if raising then stopped else past)
unfolding wait_on
drains-ends true [] = refl
drains-ends false [] = refl
drains-ends true (resumes ∷ es) = stopped-stays (es ++ resumes ∷ [])
drains-ends false (resumes ∷ es) = past-stays (es ++ resumes ∷ [])
drains-ends raising (is_set ∷ es) = drains-ends raising es
drains-ends raising (times_out ∷ es) = drains-ends raising es
drains-ends raising (is_cancelled ∷ es) = drains-ends raising es

-- A cancellation that reaches the checker task in its wait ends the task, once it goes on and
-- whatever else happens meanwhile; but one that comes when the timeout has run out, and the task
-- awaits the wait_task that it has itself cancelled, is lost: the task goes on to its next round.
pub wait_on-cancelled :
    (w : Waiting) (es : List WaitEvent)
    → in_wait w ≡ true
    → wait_for_all (is_cancelled ∷ es ++ resumes ∷ []) w ≡ (if hears w then stopped else past)
unfolding wait_on
wait_on-cancelled sleeps_once es h = stopped-stays (es ++ resumes ∷ [])
wait_on-cancelled (awaits true) es h = stopped-stays (es ++ resumes ∷ [])
wait_on-cancelled (awaits false) es h = drains-ends true es
wait_on-cancelled (drains raising) es h = drains-ends raising es
wait_on-cancelled past es h = cc
wait_on-cancelled stopped es h = cc
wait_on-cancelled crashed es h = cc

crashed-stays : (es : List WaitEvent) → wait_for_all es crashed ≡ crashed
unfolding wait_on
crashed-stays [] = refl
crashed-stays (is_set ∷ es) = crashed-stays es
crashed-stays (times_out ∷ es) = crashed-stays es
crashed-stays (resumes ∷ es) = crashed-stays es
crashed-stays (is_cancelled ∷ es) = crashed-stays es

sleeps_once-ends :
    (es : List WaitEvent) → in_wait (wait_for_all (es ++ resumes ∷ []) sleeps_once) ≡ false
unfolding wait_on
sleeps_once-ends [] = refl
sleeps_once-ends (is_set ∷ es) = sleeps_once-ends es
sleeps_once-ends (times_out ∷ es) = sleeps_once-ends es
sleeps_once-ends (resumes ∷ es) = rw (past-stays (es ++ resumes ∷ [])) refl
sleeps_once-ends (is_cancelled ∷ es) = rw (stopped-stays (es ++ resumes ∷ [])) refl

in_wait-last :
    (raising : Bool) (es : List WaitEvent)
    → in_wait (wait_for_all (es ++ resumes ∷ []) (drains raising)) ≡ false
in_wait-last true es = rw (drains-ends true es) refl
in_wait-last false es = rw (drains-ends false es) refl

timed_out-ends :
    (w : Waiting) (es : List WaitEvent)
    → in_wait (wait_for_all (es ++ resumes ∷ []) (wait_on times_out w)) ≡ false
unfolding wait_on
timed_out-ends sleeps_once es = sleeps_once-ends es
timed_out-ends (awaits true) es = rw (past-stays (es ++ resumes ∷ [])) refl
timed_out-ends (awaits false) es = in_wait-last false es
timed_out-ends (drains raising) es = in_wait-last raising es
timed_out-ends past es = rw (past-stays (es ++ resumes ∷ [])) refl
timed_out-ends stopped es = rw (stopped-stays (es ++ resumes ∷ [])) refl
timed_out-ends crashed es = rw (crashed-stays (es ++ resumes ∷ [])) refl

-- A wait of the checker task, of any length, is over when its time has run out and the task has gone
-- on after that, whatever else happens before, between and after.
pub wait_for_all-times_out :
    (w : Waiting) (before between : List WaitEvent)
    → in_wait (wait_for_all (before ++ times_out ∷ between ++ resumes ∷ []) w) ≡ false
wait_for_all-times_out w [] between = timed_out-ends w between
wait_for_all-times_out w (e ∷ before) between = wait_for_all-times_out (wait_on e w) before between
