-- ===== src/Panel/Tests.antt =====
-- A run of the shared snapshot.
use zero_agent.Base.{◌≤◌, ◌≡◌, refl, [], ◌∷◌, ◌++◌, false, String, leb, length, select, count_where}
use zero_agent.Panel.Snapshot.{
  Snapshot, new_snapshot, is_running, pending, fresh_value, join, get, sampled, sample_failed,
  close, Reachable, start, further, gets, samples, closes, reaps, reaped,
}
use zero_agent.Panel.Flights.{Reachable-pending}

program : Unit {0}
unfolding select count_where is_running pending fresh_value join get sampled sample_failed close
    reaped
program = tt

-- two callers, the end of their sample, a third caller after it, a fourth once it is old, and the end
abbrev first : Snapshot String
first = (get 5 101 (get 5 100 new_snapshot).1).1

abbrev second : Snapshot String
second = (get 5 110 (get 5 103 (sampled 0 "sample" 102 first)).1).1

one_sample : first.running ≡ 0 ∷ []
unfolding program
one_sample = refl

new_sample : second.running ≡ 1 ∷ []
unfolding program
new_sample = refl

second_Reachable : Reachable String 5 second
unfolding program
second_Reachable =
    further
      (further
        (further
          (further (further start (gets 100 new_snapshot)) (gets 101 (get 5 100 new_snapshot).1))
          (samples 0 "sample" 102 first refl))
        (gets 103 (sampled 0 "sample" 102 first)))
      (gets 110 (get 5 103 (sampled 0 "sample" 102 first)).1)

-- a caller that comes while a `close` waits for the task that it cancelled
abbrev third : Snapshot String
third = (get 5 111 (close second)).1

two_at_once : third.running ++ third.stopping ≡ 2 ∷ 1 ∷ []
unfolding program
two_at_once = refl

closed_is_pending : pending (close second) ≡ false
unfolding program
closed_is_pending = refl

Reachable-pending_example :
    (length (reaped 1 third).running ≤ 1)
    × (pending (reaped 1 third) ≡ leb 1 (length (reaped 1 third).running))
unfolding program
Reachable-pending_example = Reachable-pending 5 (reaped 1 third) (
    further (further (further second_Reachable (closes second)) (gets 111 (close second)))
      (reaps 1 third refl))
