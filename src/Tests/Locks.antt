-- ===== src/Tests/Locks.antt =====
-- Two CPUs at one lock.
use baremetal_crt.Common.{refl, ◌==◌, if◌then◌else◌, pos}
use baremetal_crt.Lock.{released, held_by}
use baremetal_crt.Lock.Race.{
  Race, trying, holding, outside, move, exchange, Reach, here, next, enter, try, idle, IsSafe,
  Reach-IsSafe,
}

-- CPU 0 and CPU 1 enter, and CPU 1 exchanges first.
abbrev contended : Race
contended =
    exchange (record { lock = released; phase = move (move (λ _. outside) 0 trying) 1 trying }) 1

contended-Reach : Reach idle contended
contended-Reach = next (next (next here (enter 0 refl)) (enter 1 refl)) (try 1 refl)

Reach-IsSafe_example : IsSafe contended
Reach-IsSafe_example = Reach-IsSafe contended-Reach

abbrev waited : Race
waited = record { lock = held_by (pos 0); phase = λ i. if i == 0 then holding else trying }
