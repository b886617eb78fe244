-- ===== src/Wifi/Examples.antt =====
-- The theorems of the semaphore at the counting one.
use ikt104_eksamen_oppgave.Base.{List, refl, pos, true, [], ◌∷◌, ◌++◌}
use ikt104_eksamen_oppgave.Wifi.{
  Event, other_event, info, step, ask_to_connect, sem_take, take_outcome, set_place, enqueue, wifi,
  news, connect_result, addr_add, connects, takes, runs_out, gives, at_start, place, steps,
}
use ikt104_eksamen_oppgave.Wifi.Counting.{counting}
use ikt104_eksamen_oppgave.Wifi.Address.{HasNot, no_address-HasNot}
use ikt104_eksamen_oppgave.Wifi.Tokens.{IsPaidFor, steps-IsPaidFor}
use ikt104_eksamen_oppgave.Wifi.Race.{AllPass, steps-AllPass}
use ikt104_eksamen_oppgave.Wifi.TooEarly.{OnlyOne, steps-OnlyOne}

no_address-HasNot_example : HasNot (
    place counting news (
      steps counting
        (takes news ∷ connect_result (pos 0) ∷ runs_out news ∷ [])
        (at_start counting)))
no_address-HasNot_example =
    no_address-HasNot counting (takes news ∷ connect_result (pos 0) ∷ runs_out news ∷ [])
      (tt, (tt, (tt, tt))) news

-- `wifi_connect` sleeps at first, so that the network threads wait before it.
abbrev sleepy : List Event
sleepy = takes news ∷ takes info ∷ connects true (pos 0) ∷ other_event ∷ takes wifi ∷ []

steps-AllPass_example : AllPass (
    steps counting
      (sleepy ++ (addr_add ∷ ((addr_add ∷ connect_result (pos 0) ∷ []) ++ gives ∷ [])))
      (at_start counting))
unfolding steps step ask_to_connect sem_take place take_outcome set_place at_start enqueue
steps-AllPass_example =
    steps-AllPass counting sleepy (addr_add ∷ connect_result (pos 0) ∷ [])
      (tt, (tt, (tt, (tt, (tt, tt))))) (tt, (tt, tt)) refl refl refl

-- The address comes while `t_wifi` has not come to its wait.
abbrev hasty : List Event
hasty = takes news ∷ takes info ∷ connects true (pos 0) ∷ []

steps-OnlyOne_example :
    OnlyOne
      (steps counting (hasty ++ addr_add ∷ []) (at_start counting))
      (steps counting (hasty ++ addr_add ∷ takes wifi ∷ gives ∷ addr_add ∷ []) (at_start counting))
unfolding steps step ask_to_connect sem_take place take_outcome set_place at_start enqueue
steps-OnlyOne_example =
    steps-OnlyOne counting hasty (takes wifi ∷ gives ∷ addr_add ∷ []) (tt, (tt, (tt, tt))) (λ e. cc)
      refl refl

steps-IsPaidFor_example : IsPaidFor (
    steps counting
      (connects true (pos 0) ∷ takes news ∷ takes wifi ∷ addr_add ∷ gives ∷ [])
      (at_start counting))
steps-IsPaidFor_example =
    steps-IsPaidFor counting
      (connects true (pos 0) ∷ takes news ∷ takes wifi ∷ addr_add ∷ gives ∷ [])
