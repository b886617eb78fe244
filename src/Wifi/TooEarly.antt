-- ===== src/Wifi/TooEarly.antt =====
-- The address comes when `t_wifi` does not wait yet: one network thread never gets the semaphore.
use mathlib.Core.Path.{subst}
use ikt104_eksamen_oppgave.Base.{
  ◌≡◌, ◌≢◌, refl, sym, ap, ◌∙◌, arith, true, false, List, [], ◌∷◌, ◌++◌, All, ◌⊎◌, inl, inr,
}
use ikt104_eksamen_oppgave.Wifi.{
  Thread, wifi, info, news, same_thread, Semaphore, Place, starts, before, waits, passed, timed_out,
  returned, given, Event, addr_add, System, at_start, set_place, place, woken, sem_give,
  handle_addr_add, step, steps,
}
use ikt104_eksamen_oppgave.Wifi.Counting.{counting}
use ikt104_eksamen_oppgave.Wifi.Queue.{in_queue}
use ikt104_eksamen_oppgave.Wifi.Address.{HasNot, NotAddress}
use ikt104_eksamen_oppgave.Wifi.View.{view, view_of_run}
use ikt104_eksamen_oppgave.Wifi.Stuck.{IsStuck, steps_later}
use ikt104_eksamen_oppgave.Wifi.First.{no_address-IsEarly, two_queued}
use ikt104_eksamen_oppgave.Wifi.Race.{steps-append, counted, early, early_state}

-- The threads but one.
abbrev But : Thread → Thread → Type 0
But t t' = same_thread t t' ≡ false

not_queued : (p : Place) → p ≢ waits → in_queue p ≡ 0
not_queued waits h = absurd (h refl)
not_queued starts h = refl
not_queued before h = refl
not_queued passed h = refl
not_queued timed_out h = refl
not_queued returned h = refl
not_queued given h = refl

-- The address wakes the first of the two, and the others are stuck.
info_first-IsStuck :
    (p : Place)
    → HasNot p
    → IsStuck counting
        (But info)
        refl
        true
        (step counting addr_add (early p waits waits (info ∷ news ∷ [])))
unfolding step handle_addr_add sem_give woken set_place place
info_first-IsStuck p h = (refl, record { counts = refl; has_not = has_not })
  where
    has_not :
        (t : Thread)
        → But info t
        → HasNot
            (place counting t (step counting addr_add (early p waits waits (info ∷ news ∷ []))))
    has_not wifi w = h
    has_not info w = ground arith
    has_not news w = tt

news_first-IsStuck :
    (p : Place)
    → HasNot p
    → IsStuck counting
        (But news)
        refl
        true
        (step counting addr_add (early p waits waits (news ∷ info ∷ [])))
unfolding step handle_addr_add sem_give woken set_place place
news_first-IsStuck p h = (refl, record { counts = refl; has_not = has_not })
  where
    has_not :
        (t : Thread)
        → But news t
        → HasNot
            (place counting t (step counting addr_add (early p waits waits (news ∷ info ∷ []))))
    has_not wifi w = h
    has_not info w = tt
    has_not news w = ground arith

-- One of the two network threads has the semaphore, and in the end neither `t_wifi` nor the other
-- has it.
abbrev pub OnlyOne : {k : Semaphore} → System k → System k → Type 0
OnlyOne s s' =
    ((s.info_at ≡ passed) × HasNot s'.wifi_at × HasNot s'.news_at)
    ⊎ ((s.news_at ≡ passed) × HasNot s'.wifi_at × HasNot s'.info_at)

early-OnlyOne :
    (later : List Event) (p : Place) (ts : List Thread)
    → HasNot p
    → (ts ≡ info ∷ news ∷ []) ⊎ (ts ≡ news ∷ info ∷ [])
    → OnlyOne
        (step counting addr_add (early p waits waits ts))
        (steps counting later (step counting addr_add (early p waits waits ts)))
unfolding place
early-OnlyOne later p ts h (inl e) =
    let first = steps_later counting (But info) refl later _ (info_first-IsStuck p h) in
    rw e (
      inl (
        unfold step handle_addr_add sem_give woken set_place in refl,
        first.1.has_not wifi refl,
        first.1.has_not news refl,
      ))
early-OnlyOne later p ts h (inr e) =
    let first = steps_later counting (But news) refl later _ (news_first-IsStuck p h) in
    rw e (
      inr (
        unfold step handle_addr_add sem_give woken set_place in refl,
        first.1.has_not wifi refl,
        first.1.has_not info refl,
      ))

ran-OnlyOne :
    (es later : List Event) (t : System counting)
    → counted es ≡ t
    → OnlyOne (step counting addr_add t) (steps counting later (step counting addr_add t))
    → OnlyOne (counted (es ++ addr_add ∷ [])) (counted (es ++ addr_add ∷ later))
unfolding steps
ran-OnlyOne es later t e o =
    let run : (xs : List Event)
        → counted (es ++ addr_add ∷ xs) ≡ steps counting xs (step counting addr_add t) =
      λ xs.
        steps-append counting es (addr_add ∷ xs) (at_start counting)
        ∙ ap (λ x. steps counting xs (step counting addr_add x)) e in
    subst (λ (x : System counting). OnlyOne x (counted (es ++ addr_add ∷ later))) (sym (run []))
      (subst (λ (x : System counting). OnlyOne (step counting addr_add t) x) (sym (run later)) o)

counted-OnlyOne :
    (es later : List Event)
    → All NotAddress es
    → (counted es).wifi_at ≢ waits
    → (counted es).info_at ≡ waits
    → (counted es).news_at ≡ waits
    → OnlyOne (counted (es ++ addr_add ∷ [])) (counted (es ++ addr_add ∷ later))
unfolding place
counted-OnlyOne es later n a b c =
    let s = counted es in
    let h = no_address-IsEarly es n in
    ran-OnlyOne es later (early s.wifi_at waits waits s.sem.waiting)
      (early_state s s.wifi_at waits waits s.sem.waiting h refl b c refl)
      (early-OnlyOne later s.wifi_at s.sem.waiting (h.stuck.1.has_not wifi tt) (
        two_queued s.sem.waiting (h.accounted.wifi_queued ∙ not_queued s.wifi_at a)
          (h.accounted.info_queued ∙ ap in_queue b) (h.accounted.news_queued ∙ ap in_queue c)))

-- If, after any events but that of an address, the threads for /info and /news wait, in whatever
-- order they came, and `t_wifi` does not wait, then behind the address one of the two has the
-- semaphore, and whatever comes after that, the other one and `t_wifi` never get it: the handler
-- gives once, and `t_wifi`, which would give twice, waits for it in vain.
pub steps-OnlyOne :
    (k : Semaphore) (es later : List Event)
    → All NotAddress es
    → (steps k es (at_start k)).wifi_at ≢ waits
    → (steps k es (at_start k)).info_at ≡ waits
    → (steps k es (at_start k)).news_at ≡ waits
    → OnlyOne
        (steps k (es ++ addr_add ∷ []) (at_start k))
        (steps k (es ++ addr_add ∷ later) (at_start k))
steps-OnlyOne k es later n a b c =
    let v = view_of_run k es in
    let at_wifi = ap (λ (s : System counting). s.wifi_at) v in
    subst
      (λ (s : System counting). OnlyOne s (view k (steps k (es ++ addr_add ∷ later) (at_start k))))
      (sym (view_of_run k (es ++ addr_add ∷ [])))
      (subst (λ (s : System counting). OnlyOne (counted (es ++ addr_add ∷ [])) s)
        (sym (view_of_run k (es ++ addr_add ∷ later)))
        (counted-OnlyOne es later n (λ e. a (at_wifi ∙ e))
          (sym (ap (λ (s : System counting). s.info_at) v) ∙ b)
          (sym (ap (λ (s : System counting). s.news_at) v) ∙ c)))
