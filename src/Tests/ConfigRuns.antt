-- ===== src/Tests/ConfigRuns.antt =====
-- Configurations of a scheduler: include/marl/scheduler.hpp.
use mini_marl.Base.{ℕ, ◌≡◌, ◌≤◌, ◌<◌, ◌⊎◌, refl, Option, none, some, arith, ok, undefined}
use mini_marl.Worker.State.{Worker}
use mini_marl.Scheduler.{make}
use mini_marl.Scheduler.Config.{
  pos, negsuc, Config, default_config, set_worker_thread_count, set_config_defaults, all_cores,
  max_worker_threads, construct, to_int, num_logical_cpus,
}
use mini_marl.Scheduler.Config.Limit.{construct-make}

abbrev three : Config
three = set_worker_thread_count (pos 3) (default_config 64)

eight_cores : (all_cores 64 (some 8)).count ≡ pos 8
unfolding all_cores to_int num_logical_cpus
eight_cores = refl

unknown_cores : (all_cores 64 none).count ≡ negsuc 0
unfolding all_cores to_int num_logical_cpus
unknown_cores = refl

construct-make_example :
    ((array : ℕ → Option Worker) × (construct (some 4) three
        ≡ ok (set_config_defaults (some 4) three, array))
      × ((i : ℕ) → i < 3 → array i ≡ some ((make 3).worker_threads i))
      × (3 ≤ max_worker_threads))
    ⊎ ((construct (some 4) three ≡ undefined) × (max_worker_threads < 3))
construct-make_example =
    construct-make (some 4) three 3 refl (omega arith) (λ policy e. absurd (cc))
