-- ===== src/Install.antt =====
-- scripts/install_dependencies.py: the commands that fetch and install the dependencies. `runs` says
-- whether a command succeeds in a directory and `enters` whether a directory can be entered; a
-- directory is the path from where the script starts.
mod Tests
use up_tck.Base.{
  ℕ, String, Bool, true, false, Option, none, some, List, [], ◌∷◌, ◌++◌, if◌then◌else◌,
}
use up_tck.Base.Text.{append}
use up_tck.Base.Exec.{
  Exec, Exception, os_error, system_exit, Result, ok, raise, pure, gets, modify, ◌>>=◌, ◌>>◌,
}

-- The innermost directory comes first. `commands` records what ran, with the directory it ran in.
pub record Shell : Type 0 where
  pub directory : List String
  pub commands : List (List String × String)

module _ (runs : List String → String → Bool) (enters : List String → String → Bool) where
  -- `run_command`: a command that fails ends the script with the status 1.
  unfoldable pub run_command : String → Exec Shell Unit
  run_command command s =
      let s' = record s { commands = s.commands ++ (s.directory, command) ∷ [] } in
      (if runs s.directory command then ok tt else raise system_exit, s')

  -- `os.chdir(name)` into a directory below.
  unfoldable pub chdir : String → Exec Shell Unit
  chdir name s =
      if enters s.directory name
      then (ok tt, record s { directory = name ∷ s.directory })
      else (raise os_error, s)

  -- `os.chdir(os.pardir)`
  unfoldable pub chdir_up : Exec Shell Unit
  chdir_up s = elim s.directory [
    | [] ↦ (ok tt, s)
    | name ∷ above ↦ (ok tt, record s { directory = above })
  ]

  -- `main`
  unfoldable pub main : Exec Shell Unit
  unfolding run_command chdir chdir_up
  main = do
    run_command "git clone -b main https://github.com/eclipse-uprotocol/up-python.git"
    chdir "up-python"
    run_command "pip install ."
    chdir "scripts"
    run_command "python pull_and_compile_protos.py"
    chdir_up
    run_command "pip install ."
    chdir_up
    run_command "pip install -r requirements.txt"
