-- ===== src/Tests/Timers.antt =====
-- stream/src/client/timer.rs on a timer with three tasks: 1 is a second old, 2 was sent in this
-- second, and 3 is in the channel.
use razor_rpc.Prelude.{◌-◌, ◌≡◌, refl, [], ◌∷◌, some, leb, false, length, arith, if◌then◌else◌}
use razor_rpc.Timer.{Timer, pending, ready, drain, take_task, reg_task, adjust_task_queue}
use razor_rpc.Timer.Order.{tasks, Inv, lookup_seq, erase_seq}
use razor_rpc.Timer.Drain.{count-drain}
use razor_rpc.Timer.Find.{newest, take_task_lem}
use razor_rpc.Timer.Expire.{Adjusted, adjust_lem}
use razor_rpc.Tests.Sample.{Sample, sample, sample_task}

abbrev pub timer : Timer Sample
timer = record {
  pending = sample 3 ∷ [];
  capacity = 8;
  pending_task_count = 1;
  sent_tasks = record { key = 2; value = sample 2 } ∷ [];
  delay_tasks_queue = (record { key = 1; value = sample 1 } ∷ []) ∷ [];
  min_delay_seq = 1;
  task_timeout = 1;
  processed_seq = 2;
  reg_stopped_flag = false;
}

pub timer-Inv : Inv sample_task timer
timer-Inv = record {
  ordered = (omega arith, (omega arith, (omega arith, tt)));
  keyed_sent = (refl, tt);
  keyed_delay = ((refl, tt), tt);
  seen = (omega arith, tt);
  seen_delay = ((omega arith, tt), tt);
  past = omega arith;
  fresh = (omega arith, tt);
  bounded = omega arith;
  counted = omega arith;
  count_fits = omega arith;
}

count-drain_example :
    (drain sample_task timer).pending_task_count ≡ timer.pending_task_count - length timer.pending
count-drain_example = count-drain sample_task timer timer-Inv

take_task_lem_example :
    let known = leb 3 (newest sample_task timer) in
    ((take_task sample_task timer 3).poll
      ≡ (if known then ready (lookup_seq sample_task 3 (tasks timer)) else pending))
    × (tasks (take_task sample_task timer 3).timer
        ≡ (if known then erase_seq sample_task 3 (tasks timer) else tasks timer))
take_task_lem_example = take_task_lem sample_task timer 3 timer-Inv refl

adjust_lem_example : Adjusted sample_task timer (adjust_task_queue sample_task timer)
adjust_lem_example = adjust_lem sample_task timer timer-Inv

-- The timer whose counter has counted a task that is on its way.
abbrev counting : Timer Sample
counting = record timer { pending_task_count = 2 }

counting-Inv : Inv sample_task counting
counting-Inv = record {
  ordered = (omega arith, (omega arith, (omega arith, tt)));
  keyed_sent = (refl, tt);
  keyed_delay = ((refl, tt), tt);
  seen = (omega arith, tt);
  seen_delay = ((omega arith, tt), tt);
  past = omega arith;
  fresh = (omega arith, tt);
  bounded = omega arith;
  counted = omega arith;
  count_fits = omega arith;
}

abbrev registered : Timer Sample
registered = record counting { pending = sample 3 ∷ sample 4 ∷ [] }

reg_four : reg_task counting (sample 4) ≡ some registered
unfolding reg_task
reg_four = refl
