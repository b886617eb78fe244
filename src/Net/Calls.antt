-- ===== src/Net/Calls.antt =====
-- The order of a request's calls: the mutex and the socket are given back on every path.
use ikt104_eksamen_oppgave.Base.{
  ℤ, ◌≡◌, refl, ap, ◌∙◌, Bool, true, false, not, ◌&&◌, ◌||◌, Option-cases, Bool-cases, OnSome,
  OnSome-of_eq, inl, inr, Option, none, some, List, [], ◌∷◌, ◌++◌, if◌then◌else◌, Bytes, codes,
}
use ikt104_eksamen_oppgave.Info.{InfoData}
use ikt104_eksamen_oppgave.News.{NewsData}
use ikt104_eksamen_oppgave.Net.{
  Recv, Next, break, again, past_end, int_overflow, Network, Call, lock, unlock, open_socket,
  close_socket, receive, send, Setup, bad_address, no_socket, not_connected, not_sent, requested,
  set_up,
}
use ikt104_eksamen_oppgave.Net.InfoRequest.{
  InfoResult, info_finish, info_received, info_after, info_request, network_config_round,
  under_mutex, network_config_rounds,
}
use ikt104_eksamen_oppgave.Net.NewsRequest.{
  NewsResult, news_result, news_finish, news_after, news_received, news_request, news_rounds,
  is_fetched, NewsThread,
}

-- What is held: `http_mutex`, and a socket.
pub record Holds : Type 0 where
  pub mutex : Bool
  pub socket : Bool

abbrev pub nothing : Holds
nothing = record { mutex = false; socket = false }

abbrev pub check : Bool → Holds → Option Holds
check b h = if b then some h else none

-- A call, where it is allowed: nothing is taken twice or given back twice, a socket is opened and
-- sent to under the mutex, and is received from with the mutex only if `locked_receive`.
unfoldable pub allowed : Bool → Call → Holds → Option Holds
allowed locked_receive lock h = check (not h.mutex) (record h { mutex = true })
allowed locked_receive unlock h = check h.mutex (record h { mutex = false })
allowed locked_receive open_socket h = check (h.mutex && not h.socket) (record h { socket = true })
allowed locked_receive close_socket h = check h.socket (record h { socket = false })
allowed locked_receive receive h = check (h.socket && (not h.mutex || locked_receive)) h
allowed locked_receive (send text) h = check (h.mutex && h.socket) h

unfoldable pub follow : Bool → List Call → Holds → Option Holds
unfolding allowed
follow locked_receive [] h = some h
follow locked_receive (c ∷ calls) h = elim (allowed locked_receive c h) [
  | none ↦ none
  | some h' ↦ follow locked_receive calls h'
]

abbrev then_follow : Bool → List Call → Option Holds → Option Holds
then_follow b calls none = none
then_follow b calls (some h) = follow b calls h

follow-append :
    (b : Bool) (xs ys : List Call) (h : Holds)
    → follow b (xs ++ ys) h ≡ then_follow b ys (follow b xs h)
unfolding follow
follow-append b [] ys h = refl
follow-append b (x ∷ xs) ys h = elim (Option-cases (allowed b x h)) [
  | inl e ↦ rw (e, follow) refl
  | inr (h', e) ↦ rw (e, follow) (follow-append b xs ys h')
]

-- The calls are allowed, and leave held what was held before.
Kept : Bool → Holds → List Call → Type 0
Kept b h calls = follow b calls h ≡ some h

Kept-append :
    (b : Bool) (h : Holds) (xs ys : List Call) → Kept b h xs → Kept b h ys → Kept b h (xs ++ ys)
unfolding Kept
Kept-append b h xs ys ex ey = follow-append b xs ys h ∙ ap (then_follow b ys) ex ∙ ey

-- The same of what a request comes to, unless that is undefined.
Keeps : {A : Type 0} → (A → List Call) → Bool → Holds → Option A → Type 0
Keeps calls b h o = OnSome (λ r. Kept b h (calls r)) o

Keeps-some :
    {A : Type 0} (calls : A → List Call) (b : Bool) (h : Holds) (r : A)
    → Kept b h (calls r)
    → Keeps calls b h (some r)
unfolding Keeps
Keeps-some calls b h r e = e

abbrev info_calls : InfoResult → List Call
info_calls r = r.calls

abbrev calls_of_news : NewsResult → List Call
calls_of_news r = r.calls

abbrev locked : Holds
locked = record { mutex = true; socket = false }

info_finish-Keeps :
    (path : Bytes) (s : Recv) (o : Option Bytes) (g : InfoData)
    → Keeps info_calls true locked (info_finish path s o g)
unfolding info_finish Keeps Kept follow
info_finish-Keeps path s none g = tt
info_finish-Keeps path s (some raw) g = refl

info_received-Keeps :
    (path : Bytes) (o : Next) (g : InfoData) → Keeps info_calls true locked (info_received path o g)
unfolding info_received Keeps
info_received-Keeps path (break s) g = info_finish-Keeps path s _ g
info_received-Keeps path (again s) g = tt
info_received-Keeps path past_end g = tt
info_received-Keeps path int_overflow g = tt

news_result-Keeps :
    (path : Bytes) (code : Option ℤ) (o : Option NewsData)
    → Keeps calls_of_news false nothing (news_result path code o)
unfolding news_result Keeps Kept follow
news_result-Keeps path none o = tt
news_result-Keeps path (some code) none = tt
news_result-Keeps path (some code) (some g) = refl

news_finish-Keeps :
    (path : Bytes) (s : Recv) (o : Option Bytes) (g : NewsData)
    → Keeps calls_of_news false nothing (news_finish path s o g)
unfolding news_finish Keeps
news_finish-Keeps path s none g = tt
news_finish-Keeps path s (some raw) g = news_result-Keeps path _ _

news_received-Keeps :
    (path : Bytes) (o : Next) (g : NewsData)
    → Keeps calls_of_news false nothing (news_received path o g)
unfolding news_received Keeps
news_received-Keeps path (break s) g = news_finish-Keeps path s _ g
news_received-Keeps path (again s) g = tt
news_received-Keeps path past_end g = tt
news_received-Keeps path int_overflow g = tt

info_after-Keeps :
    (o : Setup) (path : Bytes) (n : Network) (g : InfoData)
    → Keeps info_calls true locked (info_after o path n g)
unfolding info_after Keeps Kept follow
info_after-Keeps bad_address path n g = refl
info_after-Keeps no_socket path n g = refl
info_after-Keeps not_connected path n g = refl
info_after-Keeps not_sent path n g = refl
info_after-Keeps requested path n g = info_received-Keeps path _ g

news_after-Keeps :
    (o : Setup) (path : Bytes) (n : Network) (g : NewsData)
    → Keeps calls_of_news false nothing (news_after o path n g)
unfolding news_after Keeps Kept follow
news_after-Keeps bad_address path n g = refl
news_after-Keeps no_socket path n g = refl
news_after-Keeps not_connected path n g = refl
news_after-Keeps not_sent path n g = refl
news_after-Keeps requested path n g = news_received-Keeps path _ g

-- A round between the lock and the unlock of the mutex.
under_lock :
    (calls : List Call) → Kept true locked calls → Kept true nothing (lock ∷ (calls ++ unlock ∷ []))
unfolding Kept follow
under_lock calls e =
    follow-append true calls (unlock ∷ []) locked ∙ ap (then_follow true (unlock ∷ [])) e

under_mutex-Keeps :
    (o : Option InfoResult)
    → Keeps info_calls true locked o
    → Keeps info_calls true nothing (under_mutex o)
unfolding Keeps
under_mutex-Keeps none h = tt
under_mutex-Keeps (some r) h = under_lock r.calls h

network_config_round-Keeps :
    (n : Network) (g : InfoData) → Keeps info_calls true nothing (network_config_round n g)
unfolding network_config_round
network_config_round-Keeps n g =
    under_mutex-Keeps _ (unfold info_request in info_after-Keeps (set_up n) (codes "/info") n g)

-- In all rounds of the thread for /info, and whatever the kernel returns, the mutex and the sockets
-- are given back as often as they are taken, in an order that is allowed, and neither is held at
-- the end; a run that meets behaviour which the language leaves undefined is not spoken of.
pub network_config_rounds-calls :
    (ns : List Network) (g : InfoData)
    → OnSome
        (λ (r : List Call × InfoData). follow true r.0 nothing ≡ some nothing)
        (network_config_rounds ns g)
unfolding network_config_rounds Keeps Kept follow
network_config_rounds-calls [] g = refl
network_config_rounds-calls (n ∷ ns) g = elim (Option-cases (network_config_round n g)) [
  | inl e ↦ rw (e, network_config_rounds) tt
  | inr (r, e) ↦ elim (Option-cases (network_config_rounds ns r.info)) [
    | inl e' ↦ rw (e, e', network_config_rounds) tt
    | inr (rest, e') ↦
        rw (e, e', network_config_rounds)
          (Kept-append true nothing r.calls rest.0
            (OnSome-of_eq _ _ r (network_config_round-Keeps n g) e)
            (OnSome-of_eq _ _ rest (network_config_rounds-calls ns r.info) e'))
  ]
]

news_request-Keeps :
    (path : Bytes) (n : Network) (g : NewsData)
    → Keeps calls_of_news false nothing (news_request path n g)
unfolding news_request
news_request-Keeps path n g = news_after-Keeps (set_up n) path n g

-- In all rounds of the thread for /news, and whatever the kernel returns, the mutex and the sockets
-- are given back as often as they are taken, in an order that is allowed; neither is held at the
-- end, and nothing is received while the mutex is held; a run that meets behaviour which the
-- language leaves undefined is not spoken of.
pub news_rounds-calls :
    (ns : List Network) (g : NewsData)
    → OnSome
        (λ (r : List Call × NewsData × NewsThread). follow false r.0 nothing ≡ some nothing)
        (news_rounds ns g)
unfolding news_rounds Keeps Kept follow
news_rounds-calls [] g = refl
news_rounds-calls (n ∷ ns) g = elim (Option-cases (news_request (codes "/news") n g)) [
  | inl e ↦ rw (e, news_rounds) tt
  | inr (r, e) ↦
      let own : Kept false nothing r.calls =
        OnSome-of_eq _ _ r (news_request-Keeps (codes "/news") n g) e in
      elim (Bool-cases (is_fetched r)) [
        | inl fetched ↦ rw (e, fetched, news_rounds) own
        | inr not_yet ↦ elim (Option-cases (news_rounds ns r.news)) [
          | inl e' ↦ rw (e, not_yet, e', news_rounds) tt
          | inr (rest, e') ↦
              rw (e, not_yet, e', news_rounds)
                (Kept-append false nothing r.calls rest.0 own
                  (OnSome-of_eq _ _ rest (news_rounds-calls ns r.news) e'))
        ]
      ]
]
