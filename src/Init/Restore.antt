-- ===== src/Init/Restore.antt =====
-- What a script leaves of the environment.
use localstack_bb.Base.{
  String, ◌≡◌, ◌∙◌, refl, true, Option, none, some, List, [], ◌∷◌, arith, eq_iff, str_eq, inl, inr,
  Bool-cases, if◌then◌else◌,
}
use localstack_bb.Base.Dict
use localstack_bb.Base.Dict.{lookup-insert, lookup-remove}
use localstack_bb.Base.Text.{contains}
use localstack_bb.Init.{
  Environ, Script, ScriptRunner, InitScriptManager, Stage, kept_variables, restore, restore_one,
  run_with, run_script, run_scripts, run_stage, get_script_runner,
}

restore_one-lookup :
    (name k : String) (o : Option String) (env : Environ)
    → Dict.lookup k (restore_one name o env) ≡ (if str_eq name k then o else Dict.lookup k env)
restore_one-lookup name k none env = lookup-remove name k env
restore_one-lookup name k (some v) env = lookup-insert name k v env

restore-lookup :
    (names : List String) (k : String) (original env : Environ)
    → Dict.lookup k (restore names original env)
      ≡ (if contains k names then Dict.lookup k original else Dict.lookup k env)
unfolding restore contains
restore-lookup [] k original env = refl
restore-lookup (n ∷ names) k original env = ground (
  arith,
  restore-lookup names k original (restore_one n (Dict.lookup n original) env),
  restore_one-lookup n k (Dict.lookup n original) env,
  eq_iff k n,
  eq_iff n k,
)

module _ {W E : Type 0} (k : String) (kept : contains k kept_variables ≡ true) where
  run_script-keeps :
      (rs : List (ScriptRunner W E)) (s : Script) (w : W × Environ)
      → Dict.lookup k (run_script rs s w).1.1 ≡ Dict.lookup k w.1
  unfolding run_script
  run_script-keeps rs s w =
      let after = (run_with (get_script_runner rs s.path) s.path w).1 in
      rw (restore-lookup kept_variables k w.1 after.1) (rw kept refl)

  run_scripts-keeps :
      (rs : List (ScriptRunner W E)) (ss : List Script) (w : W × Environ)
      → Dict.lookup k (run_scripts rs ss w).1.1 ≡ Dict.lookup k w.1
  unfolding run_scripts
  run_scripts-keeps rs [] w = refl
  run_scripts-keeps rs (s ∷ ss) w =
      run_scripts-keeps rs ss (run_script rs s w).1 ∙ run_script-keeps rs s w

-- Whatever the scripts of a stage do to the environment, and whether they raise or not, the AWS
-- credentials, region and profile are after the stage what they were before.
pub run_stage_keeps :
    {W E : Type 0} (k : String) (stage : Stage) (m : InitScriptManager W E) (w : W × Environ)
    → contains k kept_variables ≡ true
    → Dict.lookup k (run_stage stage m w).1.1.1 ≡ Dict.lookup k w.1
unfolding run_stage
run_stage_keeps k stage m w kept = elim (Bool-cases (m.stage_completed stage)) [
  | inl e ↦ rw e refl
  | inr e ↦ rw e (run_scripts-keeps k kept m.runners (m.scripts stage) w)
]
