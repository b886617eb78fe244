-- ===== src/Locks/Examples.antt =====
-- A run in which the thread for /info waits for the one for /news.
use ikt104_eksamen_oppgave.Base.{◌+◌, ◌≡◌, refl, ◌⊎◌, true, List, [], ◌∷◌}
use ikt104_eksamen_oppgave.Locks.{
  http_mutex, info_mutex, news_mutex, acquire, release, received, Thread, starting, threads,
  info_round_ops, news_round_ops, snapshot_ops, all_ops, IsFree, Mutexes, holds, acquires, here,
  there, Reaches, stays, goes_on,
}
use ikt104_eksamen_oppgave.Locks.Progress.{IsFinished, CanStep, left, moves_of, threads-CanStep}

-- A kernel in which the mutex is taken at once when it is free.
abbrev kernel : Mutexes
kernel = record { MayTake = IsFree; free_may_take = λ m ts h. h }

abbrev info_thread : Thread
info_thread =
    starting
      (acquire http_mutex ∷ acquire info_mutex ∷ release info_mutex ∷ release http_mutex ∷ [])

abbrev screen_thread : Thread
screen_thread = starting (acquire info_mutex ∷ release info_mutex ∷ [])

-- The thread for /news has taken http_mutex.
abbrev connecting : List Thread
connecting =
    info_thread
    ∷ record {
      held = http_mutex ∷ [];
      ops = release http_mutex ∷ acquire news_mutex ∷ release news_mutex ∷ [];
    }
    ∷ screen_thread
    ∷ []

connected : Reaches kernel (threads (true ∷ []) (received true ∷ []) (true ∷ [])) connecting
unfolding threads info_round_ops news_round_ops snapshot_ops all_ops holds
connected =
    goes_on _ connecting connecting
      (there info_thread _ _ (
        here _ _ _ (
          acquires http_mutex [] (release http_mutex ∷ acquire news_mutex ∷ release news_mutex ∷ [])
            (refl, (refl, (refl, tt))))))
      (stays connecting)

threads-CanStep_example :
    (IsFinished connecting ⊎ CanStep kernel connecting)
    × (moves_of connected + left connecting
        ≡ left (threads (true ∷ []) (received true ∷ []) (true ∷ [])))
threads-CanStep_example =
    threads-CanStep kernel (true ∷ []) (received true ∷ []) (true ∷ []) connecting connected
