-- ===== src/Main.antt =====
-- exsamene/src/main.c: the threads of the program, and `main`, which starts three of them by the
-- wrapper of `k_thread_create`. Addresses are arguments.
pub mod Start
pub mod Priority
mod Examples
use ikt104_eksamen_oppgave.Base.{ℕ, ◌*◌, ℤ, pos, negsuc, List, [], ◌∷◌}
use ikt104_eksamen_oppgave.Lcd.{Io, ◌>>=◌, ◌>>◌, returns}
use ikt104_eksamen_oppgave.Syscalls.{Kernel}
use ikt104_eksamen_oppgave.Syscalls.KernelCalls.{k_thread_create}
use ikt104_eksamen_oppgave.Wifi.{Thread}

abbrev pub stacksize : ℕ
stacksize = 1024

abbrev pub stacksize_network : ℕ
stacksize_network = 3072

abbrev pub stacksize_screen : ℕ
stacksize_screen = 2048

abbrev pub stacksize_alarm : ℕ
stacksize_alarm = 2048

abbrev pub priority_high : ℤ
priority_high = pos 3

abbrev pub priority : ℤ
priority = pos 2

abbrev pub start_first_request : ℕ
start_first_request = 0

abbrev pub start_second_request : ℕ
start_second_request = 0

-- `NULL`, and `K_NO_WAIT`.
abbrev pub null : ℕ
null = 0

abbrev pub k_no_wait : ℤ
k_no_wait = pos 0

-- The addresses of the static objects and of the functions.
pub record Objects : Type 0 where
  pub t1 : ℕ
  pub t2 : ℕ
  pub alarm_thread : ℕ
  pub stack_1 : ℕ
  pub stack_2 : ℕ
  pub alarm_stack : ℕ
  pub screen_thread_entry : ℕ
  pub alarm_thread_entry : ℕ
  pub temp_hum_thread_entry : ℕ

-- `K_THREAD_DEFINE`: the thread that the build sets up; the delay is in milliseconds.
pub record StaticThread : Type 0 where
  pub name : Thread
  pub stack_size : ℕ
  pub prio : ℤ
  pub delay : ℕ

abbrev pub t_wifi : StaticThread
t_wifi = record { name = Thread.wifi; stack_size = stacksize_network; prio = pos 1; delay = 0 }

abbrev pub t_info_web : StaticThread
t_info_web = record {
  name = Thread.info;
  stack_size = stacksize_network;
  prio = priority;
  delay = start_first_request;
}

abbrev pub t_news_web : StaticThread
t_news_web = record {
  name = Thread.news;
  stack_size = stacksize_network;
  prio = priority;
  delay = start_second_request;
}

module _ {S : Type 0} (k : Kernel S) (o : Objects) where
  unfoldable pub main : Io S ℤ
  main = do
    k_thread_create k o.t1 o.stack_1 stacksize_screen o.screen_thread_entry null null null priority
        0 k_no_wait
    k_thread_create k o.alarm_thread o.alarm_stack stacksize_alarm o.alarm_thread_entry null null
        null priority_high 0 k_no_wait
    k_thread_create k o.t2 o.stack_2 stacksize o.temp_hum_thread_entry null null null priority 0
        k_no_wait
    returns (pos 0)
