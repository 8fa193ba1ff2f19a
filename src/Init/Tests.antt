-- ===== src/Init/Tests.antt =====
-- Two scripts of the ready stage, run.
use localstack_bb.Base.{ℕ, ◌+◌, ◌≡◌, refl, String, true, false, none, List, [], ◌∷◌}
use localstack_bb.Base.Dict
use localstack_bb.Base.Dict.{Dict}
use localstack_bb.Base.Text.{contains}
use localstack_bb.Init.{
  State, unknown, running, successful, error, Stage, boot, start, ready, shutdown, Script,
  ScriptRunner, Environ, InitScriptManager, run_stage, run_scripts, run_script, get_script_runner,
  should_run, ends_with, restore,
}
use localstack_bb.Init.Restore.{run_stage_keeps}

abbrev script : String → Script
script path = record { path = path; stage = ready; state = unknown }

abbrev scripts_of : Stage → List Script
scripts_of ready = script "a.sh" ∷ script "b.py" ∷ []
scripts_of _ = []

-- The shell scripts set a profile, and no runner takes the others.
abbrev manager : InitScriptManager ℕ String
manager = record {
  scripts = scripts_of;
  stage_completed = λ _. false;
  runners =
      record {
        suffixes = ".sh" ∷ [];
        run = λ _ w. (none, (w.0 + 1, Dict.insert "AWS_PROFILE" "test" w.1));
      }
      ∷ [];
}

abbrev world : ℕ × Environ
world = (0, ("HOME", "/root") ∷ [])

ran :
    (run_stage ready manager world).0
    ≡ record (script "a.sh") { state = successful } ∷ record (script "b.py") { state = error } ∷ []
unfolding run_stage run_scripts run_script get_script_runner should_run ends_with restore
    Dict.insert Dict.lookup Dict.remove
ran = refl

is_kept : contains "AWS_PROFILE" localstack_bb.Init.kept_variables ≡ true
unfolding contains
is_kept = refl

run_stage_keeps_example :
    Dict.lookup "AWS_PROFILE" (run_stage ready manager world).1.1.1
    ≡ Dict.lookup "AWS_PROFILE" world.1
run_stage_keeps_example = run_stage_keeps "AWS_PROFILE" ready manager world is_kept
