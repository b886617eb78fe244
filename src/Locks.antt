-- ===== src/Locks.antt =====
-- The mutexes of exsamene/src/wifi_connect.c (http_mutex), network_config.c (info_mutex) and
-- networking_config_news.c (news_mutex): what the threads for /info and /news and the screen's
-- thread lock and unlock in each round, and the steps that they make in some order.
pub mod Order
pub mod Progress
mod Examples
use ikt104_eksamen_oppgave.Base.{ℕ, ◌≡◌, if◌then◌else◌, Bool, true, false, List, [], ◌∷◌, ◌++◌, All}

pub data Mutex : Type 0 where
  http_mutex info_mutex news_mutex : Mutex

pub data Op : Type 0 where
  acquire : Mutex → Op
  release : Mutex → Op

-- `parse_info` and `parse_news_titles`, which are called if there is a body.
abbrev pub parse_info_ops : Bool → List Op
parse_info_ops true = acquire info_mutex ∷ release info_mutex ∷ []
parse_info_ops false = []

abbrev pub parse_news_ops : Bool → List Op
parse_news_ops true = acquire news_mutex ∷ release news_mutex ∷ []
parse_news_ops false = []

-- A round of the loop of `network_config`: the request stands between lock and unlock.
unfoldable pub info_round_ops : Bool → List Op
info_round_ops body = acquire http_mutex ∷ (parse_info_ops body ++ release http_mutex ∷ [])

-- How a request for /news goes: a bad address, a failure of the socket, or a response, which has a
-- body or has not.
pub data NewsRound : Type 0 where
  returned_early : NewsRound
  failed : NewsRound
  received : Bool → NewsRound

unfoldable pub news_round_ops : NewsRound → List Op
news_round_ops returned_early = []
news_round_ops failed = acquire http_mutex ∷ release http_mutex ∷ []
news_round_ops (received body) = acquire http_mutex ∷ release http_mutex ∷ parse_news_ops body

-- `get_info_snapshot`, which gives up after a time.
unfoldable pub snapshot_ops : Bool → List Op
snapshot_ops true = acquire info_mutex ∷ release info_mutex ∷ []
snapshot_ops false = []

-- The rounds, or the snapshots, of a thread one behind the other.
unfoldable pub all_ops : {A : Type 0} → (A → List Op) → List A → List Op
all_ops f [] = []
all_ops f (x ∷ xs) = f x ++ all_ops f xs

-- What a thread holds, the last mutex first, and what it is still to do.
pub record Thread : Type 0 where
  pub held : List Mutex
  pub ops : List Op

abbrev pub starting : List Op → Thread
starting ops = record { held = []; ops = ops }

-- The three threads, for some rounds of each.
unfoldable pub threads : List Bool → List NewsRound → List Bool → List Thread
unfolding info_round_ops news_round_ops snapshot_ops
threads infos news snapshots =
    starting (all_ops info_round_ops infos)
    ∷ starting (all_ops news_round_ops news)
    ∷ starting (all_ops snapshot_ops snapshots)
    ∷ []

abbrev pub same_mutex : Mutex → Mutex → Bool
same_mutex http_mutex http_mutex = true
same_mutex info_mutex info_mutex = true
same_mutex news_mutex news_mutex = true
same_mutex _ _ = false

unfoldable pub holds : Mutex → List Mutex → Bool
holds m [] = false
holds m (m' ∷ ms) = let rest = holds m ms in if same_mutex m m' then true else rest

-- No thread holds it.
abbrev pub IsFree : Mutex → List Thread → Type 0
IsFree m ts = All (λ t. holds m t.held ≡ false) ts

-- What the kernel documents of `k_mutex_lock`: it can return when no thread holds the mutex.
-- `MayTake` says when it can.
pub record Mutexes : Type 1 where
  pub MayTake : Mutex → List Thread → Type 0
  pub free_may_take : (m : Mutex) (ts : List Thread) → IsFree m ts → MayTake m ts

pub data Moves (k : Mutexes) (ts : List Thread) : Thread → Thread → Type 0 where
  acquires :
      (m : Mutex) (held : List Mutex) (ops : List Op)
      → k.MayTake m ts
      → Moves k ts
          (record { held = held; ops = acquire m ∷ ops })
          (record { held = m ∷ held; ops = ops })
  releases :
      (m : Mutex) (held : List Mutex) (ops : List Op)
      → Moves k ts
          (record { held = m ∷ held; ops = release m ∷ ops })
          (record { held = held; ops = ops })

-- One of the threads of a list moves, among all of them.
pub data StepIn (k : Mutexes) (all : List Thread) : List Thread → List Thread → Type 0 where
  here : (t t' : Thread) (ts : List Thread) → Moves k all t t' → StepIn k all (t ∷ ts) (t' ∷ ts)
  there :
      (t : Thread) (ts ts' : List Thread) → StepIn k all ts ts' → StepIn k all (t ∷ ts) (t ∷ ts')

pub data Reaches (k : Mutexes) : List Thread → List Thread → Type 0 where
  stays : (ts : List Thread) → Reaches k ts ts
  goes_on :
      (ts ts' ts'' : List Thread) → StepIn k ts ts ts' → Reaches k ts' ts'' → Reaches k ts ts''
