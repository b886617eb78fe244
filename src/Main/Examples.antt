-- ===== src/Main/Examples.antt =====
-- The start of the program with the example kernel.
use ikt104_eksamen_oppgave.Base.{pos, ◌≡◌, refl, [], ◌++◌}
use ikt104_eksamen_oppgave.Syscalls.Sample.{built_kernel, kernel_traces}
use ikt104_eksamen_oppgave.Main.{Objects, main}
use ikt104_eksamen_oppgave.Main.Start.{creations, main-creations}

abbrev objects : Objects
objects = record {
  t1 = 1000;
  t2 = 1200;
  alarm_thread = 1400;
  stack_1 = 10000;
  stack_2 = 20000;
  alarm_stack = 30000;
  screen_thread_entry = 500;
  alarm_thread_entry = 600;
  temp_hum_thread_entry = 700;
}

main-creations_example :
    let (z, s') = main built_kernel objects [] in (z ≡ pos 0) × (s' ≡ creations objects ++ [])
main-creations_example = main-creations built_kernel refl kernel_traces objects []
