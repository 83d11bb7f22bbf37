-- ===== src/Runner/Docker.antt =====
-- benchmark/runner.py: the commands that `DockerRunner` issues, and what it keeps of their outcome.
-- What runs outside, docker and the other threads, is the parameter `World`: it answers by the
-- events so far.
use csharp_llm_benchmark.Prelude.{
  ℕ, String, Option, none, some, List, [], ◌∷◌, ◌++◌, select, Bool, true, false, not, ◌==◌,
  string_eq, nat_eq, mem, any, if◌then◌else◌,
}
use csharp_llm_benchmark.Prelude.Int.{ℤ, pos, int_eq}
use csharp_llm_benchmark.Runner.Result.{CommandResult}

-- benchmark/config.py: `DockerConfig`. `pids_limit` is the text of the number.
pub record DockerConfig : Type 0 where
  pub image : String
  pub timeout_seconds : ℕ
  pub memory_limit : String
  pub cpus : String
  pub pids_limit : String
  pub network : String
  pub read_only : Bool
  pub cap_drop : List String

pub data Event : Type 0 where
  -- A subprocess, by its arguments and its time limit.
  run : List String → Option ℕ → Event
  -- A log file that is written, by its name.
  write_log : String → Event

-- How a subprocess ends: by itself, at its time limit, or as one that could not start.
pub data Process : Type 0 where
  completed : ℤ → String → String → Process
  timed_out : String → String → Process
  os_error : String → Process

-- One element of a test result file: whether it is a `UnitTestResult`, and its attributes.
pub record TrxElement : Type 0 where
  pub is_unit_test_result : Bool
  pub test_name : Option String
  pub test_id : Option String
  pub outcome : Option String

pub record World : Type 0 where
  pub process : List Event → List String → Process
  -- Whether another thread has called `cancel`.
  pub cancelled : List Event → Bool
  -- The names in the archive of the results, `none` for one that cannot be read.
  pub archive : List Event → Option (List String)
  -- Whether a name leaves the directory that the archive is extracted to.
  pub escapes : String → Bool
  -- The result files below a directory, `none` for one that cannot be parsed.
  pub result_files : List Event → String → List (Option (List TrxElement))

-- The runner's state, and the events so far, the last one first.
pub record Machine : Type 0 where
  pub active : List String
  pub events : List Event

abbrev pub log : Machine → Event → Machine
log m e = record m { events = e ∷ m.events }

unfoldable pub register_container : String → Machine → Machine
register_container name m = record m {
  active = if mem name m.active then m.active else name ∷ m.active;
}

unfoldable pub unregister_container : String → Machine → Machine
unregister_container name m = record m { active = select (λ n. not (n == name)) m.active }

unfoldable pub command_result : Process → CommandResult
command_result (completed code out err) = record {
  exit_code = code;
  stdout = out;
  stderr = err;
  timed_out = false;
}
command_result (timed_out out err) = record {
  exit_code = pos 124;
  stdout = out;
  stderr = err;
  timed_out = true;
}
command_result (os_error message) = record {
  exit_code = pos 127;
  stdout = "";
  stderr = message;
  timed_out = false;
}

abbrev pub succeeded : CommandResult → Bool
succeeded r = r.exit_code == pos 0

-- `exit_code in {125, 126, 127}`
abbrev pub is_docker_failure : CommandResult → Bool
is_docker_failure r = mem r.exit_code (pos 125 ∷ pos 126 ∷ pos 127 ∷ [])

abbrev pub Reply : Type 0
Reply = CommandResult × Machine

abbrev pub cap_drops : List String → List String
cap_drops [] = []
cap_drops (capability ∷ rest) = "--cap-drop" ∷ capability ∷ cap_drops rest

unfoldable pub create_command : DockerConfig → String → List String
create_command config name =
    ("docker" ∷ "create" ∷ "--name" ∷ name ∷ "--network" ∷ config.network ∷ [])
    ++ ((if config.read_only then "--read-only" ∷ [] else [])
        ++ (cap_drops config.cap_drop
            ++ ("--pids-limit" ∷ config.pids_limit ∷ "--memory" ∷ config.memory_limit ∷ "--cpus"
                ∷ config.cpus ∷ "--tmpfs" ∷ "/tmp:rw,noexec,nosuid,size=64m,mode=1777" ∷ "--tmpfs"
                ∷ "/workspace:rw,exec,nosuid,nodev,size=256m,mode=1777" ∷ "--env"
                ∷ "DOTNET_CLI_HOME=/tmp" ∷ "--env" ∷ "NUGET_PACKAGES=/nuget/packages" ∷ "--workdir"
                ∷ "/workspace" ∷ config.image ∷ "/bin/sh" ∷ "-lc" ∷ "sleep infinity" ∷ [])))

abbrev pub failed_copy : CommandResult
failed_copy = record { exit_code = pos 1; stdout = ""; stderr = ""; timed_out = false }

module _ (w : World) where
  -- An output that cannot be decoded as text, a UnicodeDecodeError, is left out.
  unfoldable pub run_docker_command : List String → Option ℕ → Machine → Reply
  unfolding command_result
  run_docker_command command timeout m =
      (command_result (w.process m.events command), log m (run command timeout))

  unfoldable pub remove_container : String → Machine → Machine
  unfolding run_docker_command
  remove_container name m = (run_docker_command ("docker" ∷ "rm" ∷ "-f" ∷ name ∷ []) (some 10) m).1

  unfoldable pub remove_containers : List String → Machine → Machine
  unfolding remove_container
  remove_containers [] m = m
  remove_containers (name ∷ names) m = remove_containers names (remove_container name m)

  -- The flag that `cancel` sets is the answer of `cancelled`; here it removes the containers.
  unfoldable pub cancel : Machine → Machine
  unfolding remove_containers
  cancel m = remove_containers m.active m

  unfoldable pub create_container : DockerConfig → String → Machine → Reply
  unfolding run_docker_command
  create_container config name m =
      let (create, m') = run_docker_command (create_command config name) none m in
      if not (succeeded create)
      then (create, m')
      else run_docker_command ("docker" ∷ "start" ∷ name ∷ []) none m'

  unfoldable pub copy_workspace_to_container : String → String → Machine → Reply
  unfolding run_docker_command
  copy_workspace_to_container name workdir m =
      let (copy, m') =
        run_docker_command
          ("docker" ∷ "exec" ∷ "-i" ∷ "--user" ∷ "root" ∷ "--workdir" ∷ "/workspace" ∷ name ∷ "tar"
            ∷ "-xf" ∷ "-" ∷ "--no-same-owner" ∷ "-C" ∷ "/workspace" ∷ [])
          none m in
      if not (succeeded copy)
      then (copy, m')
      else run_docker_command
          ("docker" ∷ "exec" ∷ "--user" ∷ "root" ∷ name ∷ "chmod" ∷ "-R" ∷ "a+rwX" ∷ workdir ∷ [])
          none m'

  unfoldable pub exec_in_container : DockerConfig → String → String → String → Machine → Reply
  unfolding run_docker_command
  exec_in_container config name workdir command m =
      run_docker_command
        ("docker" ∷ "exec" ∷ "--user" ∷ "benchmark" ∷ "--workdir" ∷ workdir ∷ name ∷ "/bin/sh"
          ∷ "-lc" ∷ command ∷ [])
        (some config.timeout_seconds) m

  -- `none` for an exception: this subprocess is not run by `_run_docker_command`, and neither its
  -- time limit nor a failure to start is caught. The texts of the errors are not kept.
  unfoldable pub copy_results_from_container :
      String → String → Machine → Option CommandResult × Machine
  unfolding command_result
  copy_results_from_container name workdir m =
      let command =
        "docker" ∷ "exec" ∷ "--user" ∷ "benchmark" ∷ "--workdir" ∷ workdir ∷ name ∷ "tar" ∷ "-cf"
        ∷ "-" ∷ "TestResults" ∷ [] in
      let m' = log m (run command (some 10)) in
      let extracted : CommandResult = elim (w.archive m'.events) [
        | none ↦ failed_copy
        | some members ↦
            if any w.escapes members
            then failed_copy
            else record { exit_code = pos 0; stdout = ""; stderr = ""; timed_out = false }
      ] in
      elim (w.process m.events command) [
        | completed code out err ↦ (
          some (if not (code == pos 0) then command_result (completed code out err) else extracted),
          m',
        )
        | timed_out out err ↦ (none, m')
        | os_error message ↦ (none, m')
      ]
