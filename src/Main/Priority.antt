-- ===== src/Main/Priority.antt =====
-- The order in which the three network threads wait for the semaphore, from the priorities of
-- exsamene/src/main.c.
use ikt104_eksamen_oppgave.Base.{
  ℤ, leb_ℤ, ◌≡◌, refl, ap, arith, false, List, [], ◌∷◌, if◌then◌else◌, All,
}
use ikt104_eksamen_oppgave.Wifi.{Thread, wifi, info, news, same_thread, enqueue}
use ikt104_eksamen_oppgave.Main.{t_wifi, t_info_web, t_news_web}

abbrev pub prio_of : Thread → ℤ
prio_of wifi = t_wifi.prio
prio_of info = t_info_web.prio
prio_of news = t_news_web.prio

-- The kernel's rule: a thread waits behind those of its own or a higher priority, which has the
-- smaller number, and in front of the others.
unfoldable pub insert_by_priority : Thread → List Thread → List Thread
insert_by_priority t [] = t ∷ []
insert_by_priority t (t' ∷ ts) =
    let rest = insert_by_priority t ts in
    if leb_ℤ (prio_of t') (prio_of t) then t' ∷ rest else t ∷ (t' ∷ ts)

abbrev pub IsNot : Thread → Thread → Type 0
IsNot t t' = same_thread t t' ≡ false

-- With the priorities of main.c, a thread that does not wait yet joins the queue of the model of
-- the semaphore where the kernel's rule puts it: `t_wifi` in front of all, the threads for /info
-- and /news at the end.
pub enqueue-insert_by_priority :
    (t : Thread) (ts : List Thread) → All (IsNot t) ts → enqueue t ts ≡ insert_by_priority t ts
unfolding enqueue insert_by_priority
enqueue-insert_by_priority wifi [] h = refl
enqueue-insert_by_priority wifi (wifi ∷ ts) (h, hs) = ground arith
enqueue-insert_by_priority wifi (info ∷ ts) h = refl
enqueue-insert_by_priority wifi (news ∷ ts) h = refl
enqueue-insert_by_priority info [] h = refl
enqueue-insert_by_priority info (wifi ∷ ts) (h, hs) =
    ap (◌∷◌ wifi) (enqueue-insert_by_priority info ts hs)
enqueue-insert_by_priority info (info ∷ ts) (h, hs) =
    ap (◌∷◌ info) (enqueue-insert_by_priority info ts hs)
enqueue-insert_by_priority info (news ∷ ts) (h, hs) =
    ap (◌∷◌ news) (enqueue-insert_by_priority info ts hs)
enqueue-insert_by_priority news [] h = refl
enqueue-insert_by_priority news (wifi ∷ ts) (h, hs) =
    ap (◌∷◌ wifi) (enqueue-insert_by_priority news ts hs)
enqueue-insert_by_priority news (info ∷ ts) (h, hs) =
    ap (◌∷◌ info) (enqueue-insert_by_priority news ts hs)
enqueue-insert_by_priority news (news ∷ ts) (h, hs) =
    ap (◌∷◌ news) (enqueue-insert_by_priority news ts hs)
