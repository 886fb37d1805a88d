-- ===== src/Tests/Parking.antt =====
-- Two escalated payments: one is approved, the other runs out.
use agentct.Base.{pos, ◌+◌, ◌≤◌, text_eq, codes, any, true, none, some, ◌≡◌, refl}
use agentct.Approvals.{Queue, no_approvals, enqueue, resolve, time_out}
use agentct.Approvals.Answers.{waiting, armed, answered, is_timer, Step, Steps, Steps-once}
use agentct.Tests.Samples.{alice, bob, payment, blocking}

abbrev first_parked : Queue
first_parked =
    enqueue none (codes "a") (payment (pos 60) alice) blocking (some 30) 1000 no_approvals

abbrev both_parked : Queue
both_parked = enqueue none (codes "b") (payment (pos 70) bob) blocking none 2000 first_parked

abbrev approved_one : Queue
approved_one = (resolve (codes "a") true both_parked).1

abbrev over : Queue
over = time_out (codes "b") approved_one

unused_id : waiting (codes "b") first_parked + answered (codes "b") first_parked ≡ 0
unfolding enqueue text_eq
unused_id = refl

still_set : any (is_timer (codes "b")) approved_one.timers ≡ true
unfolding enqueue resolve text_eq
still_set = refl

abbrev steps_over : Steps no_approvals over
steps_over =
    Steps.then_step
      (Steps.then_step
        (Steps.then_step
          (Steps.then_step Steps.start
            (Step.parks none (codes "a") (payment (pos 60) alice) blocking (some 30) 1000 refl))
          (Step.parks none (codes "b") (payment (pos 70) bob) blocking none 2000 unused_id))
        (Step.answers (codes "a") true))
      (Step.runs_out (codes "b") still_set)

Steps-once_example :
    (waiting (codes "b") over + answered (codes "b") over ≤ 1)
    × (armed (codes "b") over ≡ waiting (codes "b") over)
Steps-once_example = Steps-once steps_over (codes "b")
