-- ===== src/Wifi/Race.antt =====
-- All three threads wait when the address comes: both network threads get the semaphore.
use mathlib.Core.Path.{subst}
use ikt104_eksamen_oppgave.Base.{
  ◌≡◌, refl, sym, ap, ◌∙◌, true, false, List, [], ◌∷◌, ◌++◌, All, ◌⊎◌, inl, inr,
}
use ikt104_eksamen_oppgave.Wifi.{
  Thread, wifi, info, news, Semaphore, Place, waits, passed, given, Event, connect_result, addr_add,
  other_event, connects, takes, runs_out, gives, System, at_start, set_place, place, woken,
  sem_give, handle_addr_add, sem_take, give_twice, ask_to_connect, step, steps,
}
use ikt104_eksamen_oppgave.Wifi.Counting.{counting}
use ikt104_eksamen_oppgave.Wifi.Queue.{in_queue}
use ikt104_eksamen_oppgave.Wifi.Address.{NotAddress}
use ikt104_eksamen_oppgave.Wifi.View.{view_of_run}
use ikt104_eksamen_oppgave.Wifi.First.{IsEarly, no_address-IsEarly, three_queued}

-- An event behind the address that is neither the end of a wait nor that of `wifi_connect`.
abbrev pub IsQuiet : Event → Type 0
IsQuiet (runs_out t) = ⊥
IsQuiet gives = ⊥
IsQuiet _ = Unit

-- `t_wifi` has given the semaphore twice, and the other two have it.
abbrev pub AllPass : {k : Semaphore} → System k → Type 0
AllPass s = (s.wifi_at ≡ given) × (s.info_at ≡ passed) × (s.news_at ≡ passed)

pub steps-append :
    (k : Semaphore) (xs ys : List Event) (s : System k)
    → steps k (xs ++ ys) s ≡ steps k ys (steps k xs s)
unfolding steps
steps-append k [] ys s = refl
steps-append k (x ∷ xs) ys s = steps-append k xs ys (step k x s)

abbrev pub counted : List Event → System counting
counted es = steps counting es (at_start counting)

-- A state without an address, whose threads and queue are known.
abbrev pub early : Place → Place → Place → List Thread → System counting
early p q r ts = record {
  ip_handled = false;
  sem = record { count = 0; waiting = ts };
  wifi_at = p;
  info_at = q;
  news_at = r;
}

pub early_state :
    (s : System counting) (p q r : Place) (ts : List Thread)
    → IsEarly s
    → s.wifi_at ≡ p
    → s.info_at ≡ q
    → s.news_at ≡ r
    → s.sem.waiting ≡ ts
    → s ≡ early p q r ts
early_state s p q r ts h a b c e = λ i. record {
  ip_handled = h.stuck.0 i;
  sem = record { count = h.stuck.1.counts i; waiting = e i };
  wifi_at = a i;
  info_at = b i;
  news_at = c i;
}

-- Behind the address, with `t_wifi` served first.
abbrev served : List Thread → System counting
served ts = record {
  ip_handled = true;
  sem = record { count = 0; waiting = ts };
  wifi_at = passed;
  info_at = waits;
  news_at = waits;
}

quiet_steps :
    (es : List Event) (ts : List Thread)
    → All IsQuiet es
    → steps counting es (served ts) ≡ served ts
unfolding steps step handle_addr_add ask_to_connect sem_take place
quiet_steps [] ts n = refl
quiet_steps (connect_result status ∷ es) ts (n, ns) = quiet_steps es ts ns
quiet_steps (other_event ∷ es) ts (n, ns) = quiet_steps es ts ns
quiet_steps (addr_add ∷ es) ts (n, ns) = quiet_steps es ts ns
quiet_steps (connects iface ret ∷ es) ts (n, ns) = quiet_steps es ts ns
quiet_steps (takes wifi ∷ es) ts (n, ns) = quiet_steps es ts ns
quiet_steps (takes info ∷ es) ts (n, ns) = quiet_steps es ts ns
quiet_steps (takes news ∷ es) ts (n, ns) = quiet_steps es ts ns
quiet_steps (runs_out t ∷ es) ts (n, ns) = elim n [ ]
quiet_steps (gives ∷ es) ts (n, ns) = elim n [ ]

address_served :
    (ts : List Thread) → step counting addr_add (early waits waits waits (wifi ∷ ts)) ≡ served ts
unfolding step handle_addr_add sem_give woken set_place
address_served ts = refl

given_both :
    (ts : List Thread)
    → (ts ≡ info ∷ news ∷ []) ⊎ (ts ≡ news ∷ info ∷ [])
    → AllPass (steps counting (gives ∷ []) (served ts))
unfolding steps step give_twice sem_give woken set_place
given_both ts (inl e) = rw e (refl, refl, refl)
given_both ts (inr e) = rw e (refl, refl, refl)

behind_address-AllPass :
    (quiet : List Event) (ts : List Thread)
    → All IsQuiet quiet
    → (ts ≡ info ∷ news ∷ []) ⊎ (ts ≡ news ∷ info ∷ [])
    → AllPass
        (steps counting (addr_add ∷ (quiet ++ gives ∷ [])) (early waits waits waits (wifi ∷ ts)))
unfolding steps
behind_address-AllPass quiet ts n h =
    subst (λ (s : System counting). AllPass s)
      (sym (
        ap (steps counting (quiet ++ gives ∷ [])) (address_served ts)
        ∙ steps-append counting quiet (gives ∷ []) (served ts)
        ∙ ap (steps counting (gives ∷ [])) (quiet_steps quiet ts n)))
      (given_both ts h)

abbrev WaitAll : {k : Semaphore} → System k → Type 0
WaitAll s = (s.wifi_at ≡ waits) × (s.info_at ≡ waits) × (s.news_at ≡ waits)

queue_of_waiting :
    (es : List Event)
    → All NotAddress es
    → WaitAll (counted es)
    → ((counted es).sem.waiting ≡ wifi ∷ info ∷ news ∷ [])
      ⊎ ((counted es).sem.waiting ≡ wifi ∷ news ∷ info ∷ [])
queue_of_waiting es n (a, b, c) =
    let h = no_address-IsEarly es n in
    three_queued (counted es).sem.waiting h.first (h.accounted.wifi_queued ∙ ap in_queue a)
      (h.accounted.info_queued ∙ ap in_queue b) (h.accounted.news_queued ∙ ap in_queue c)

counted-AllPass :
    (es quiet : List Event)
    → All NotAddress es
    → All IsQuiet quiet
    → WaitAll (counted es)
    → AllPass (counted (es ++ (addr_add ∷ (quiet ++ gives ∷ []))))
counted-AllPass es quiet n m (a, b, c) =
    let rest = addr_add ∷ (quiet ++ gives ∷ []) in
    let h = no_address-IsEarly es n in
    let ends : (ts : List Thread)
        → (counted es).sem.waiting ≡ wifi ∷ ts
        → (ts ≡ info ∷ news ∷ []) ⊎ (ts ≡ news ∷ info ∷ [])
        → AllPass (counted (es ++ rest)) =
      λ ts e o.
        subst (λ (s : System counting). AllPass s)
          (sym (
            steps-append counting es rest (at_start counting)
            ∙ ap (steps counting rest)
                (early_state (counted es) waits waits waits (wifi ∷ ts) h a b c e)))
          (behind_address-AllPass quiet ts m o) in
    elim (queue_of_waiting es n (a, b, c)) [
      | inl e ↦ ends (info ∷ news ∷ []) e (inl refl)
      | inr e ↦ ends (news ∷ info ∷ []) e (inr refl)
    ]

-- If, after any events but that of an address, all three threads wait, in whatever order they came,
-- then behind the address and the two calls of `k_sem_give` at the end of `wifi_connect` the
-- threads for /info and /news both have the semaphore; between the address and these calls any
-- events may come but the end of a thread's time.
pub steps-AllPass :
    (k : Semaphore) (es quiet : List Event)
    → All NotAddress es
    → All IsQuiet quiet
    → (steps k es (at_start k)).wifi_at ≡ waits
    → (steps k es (at_start k)).info_at ≡ waits
    → (steps k es (at_start k)).news_at ≡ waits
    → AllPass (steps k (es ++ (addr_add ∷ (quiet ++ gives ∷ []))) (at_start k))
steps-AllPass k es quiet n m a b c =
    let v = sym (view_of_run k es) in
    subst (λ (s : System counting). AllPass s)
      (sym (view_of_run k (es ++ (addr_add ∷ (quiet ++ gives ∷ [])))))
      (counted-AllPass es quiet n m (
        ap (λ (s : System counting). s.wifi_at) v ∙ a,
        ap (λ (s : System counting). s.info_at) v ∙ b,
        ap (λ (s : System counting). s.news_at) v ∙ c,
      ))
