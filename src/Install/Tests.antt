-- ===== src/Install/Tests.antt =====
-- scripts/install_dependencies.py: the script where one command fails.
use up_tck.Base.{String, ◌≡◌, refl, Bool, true, not, List, [], ◌∷◌, ◌==◌, string_eq}
use up_tck.Base.Exec.{raise, system_exit}
use up_tck.Install.{Shell, main, run_command, chdir, chdir_up}

abbrev start : Shell
start = record { directory = []; commands = [] }

-- Compiling the protos fails.
abbrev runs : List String → String → Bool
runs directory command = not (command == "python pull_and_compile_protos.py")

main_run :
    let out = main runs (λ directory name. true) start in
    (out.1.commands
      ≡ ([], "git clone -b main https://github.com/eclipse-uprotocol/up-python.git")
        ∷ ("up-python" ∷ [], "pip install .")
        ∷ ("scripts" ∷ "up-python" ∷ [], "python pull_and_compile_protos.py")
        ∷ [])
    × (out.0 ≡ raise system_exit)
unfolding string_eq main run_command chdir chdir_up
main_run = (refl, refl)
