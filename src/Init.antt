-- ===== src/Init.antt =====
-- localstack-core/localstack/runtime/init.py: the init scripts of the four stages. A runner and what
-- a script does to the outside world `W` and to the environment variables are parameters.
pub mod Stages
pub mod Restore
mod Tests
use Prim.Native.String
use localstack_bb.Base.{
  ℕ, String, Bool, true, false, ◌&&◌, ◌||◌, not, Option, none, some, List, [], ◌∷◌, if◌then◌else◌,
  str_eq, any,
}
use localstack_bb.Base.Dict
use localstack_bb.Base.Dict.{Dict}

pub data State : Type 0 where
  unknown running successful error : State

pub data Stage : Type 0 where
  boot start ready shutdown : Stage

abbrev pub same_stage : Stage → Stage → Bool
same_stage boot boot = true
same_stage start start = true
same_stage ready ready = true
same_stage shutdown shutdown = true
same_stage _ _ = false

pub record Script : Type 0 where
  pub path : String
  pub stage : Stage
  pub state : State

abbrev pub Environ : Type 0
Environ = Dict String

-- A runner: the suffixes that it takes, and its run, which raises or not.
pub record ScriptRunner (W E : Type 0) : Type 0 where
  pub suffixes : List String
  pub run : String → W × Environ → Option E × (W × Environ)

pub record InitScriptManager (W E : Type 0) : Type 0 where
  pub scripts : Stage → List Script
  pub stage_completed : Stage → Bool
  pub runners : List (ScriptRunner W E)

-- `s.endswith(suffix)`
unfoldable pub ends_with : String → String → Bool
ends_with suffix String.[] = str_eq suffix ""
ends_with suffix (String.◌∷◌ c s) = str_eq suffix (String.◌∷◌ c s) || ends_with suffix s

-- The variables that a script may not change for the others.
abbrev pub kept_variables : List String
kept_variables =
    "AWS_ACCESS_KEY_ID" ∷ "AWS_SECRET_ACCESS_KEY" ∷ "AWS_SESSION_TOKEN" ∷ "AWS_DEFAULT_REGION"
    ∷ "AWS_PROFILE" ∷ "AWS_REGION" ∷ []

abbrev pub restore_one : String → Option String → Environ → Environ
restore_one name none environ = Dict.remove name environ
restore_one name (some value) environ = Dict.insert name value environ

-- The `finally` block of a script.
unfoldable pub restore : List String → Environ → Environ → Environ
restore [] env_original environ = environ
restore (name ∷ names) env_original environ =
    restore names env_original (restore_one name (Dict.lookup name env_original) environ)

-- The state of a script whose run raised or did not.
abbrev pub after_run : {E : Type 0} → Option E → State
after_run none = successful
after_run (some e) = error

module _ {W E : Type 0} where
  -- `should_run`
  unfoldable pub should_run : ScriptRunner W E → String → Bool
  should_run r path = any (λ suffix. ends_with suffix path) r.suffixes

  -- `get_script_runner`
  unfoldable pub get_script_runner : List (ScriptRunner W E) → String → Option (ScriptRunner W E)
  get_script_runner [] path = none
  get_script_runner (r ∷ rs) path =
      let rest = get_script_runner rs path in if should_run r path then some r else rest

  unfoldable pub has_script_runner : List (ScriptRunner W E) → String → Bool
  has_script_runner rs path = elim (get_script_runner rs path) [ none ↦ false | some _ ↦ true ]

  -- The `try` of a script: without a runner, `None.run` raises.
  abbrev pub run_with : Option (ScriptRunner W E) → String → W × Environ → State × (W × Environ)
  run_with none path w = (error, w)
  run_with (some r) path w = let (e, w') = r.run path w in (after_run e, w')

  -- The loop body of `run_stage`.
  unfoldable pub run_script :
      List (ScriptRunner W E) → Script → W × Environ → Script × (W × Environ)
  run_script rs s (w, environ) =
      let (state, after) = run_with (get_script_runner rs s.path) s.path (w, environ) in
      (record s { state = state }, (after.0, restore kept_variables environ after.1))

  unfoldable pub run_scripts :
      List (ScriptRunner W E) → List Script → W × Environ → List Script × (W × Environ)
  run_scripts rs [] w = ([], w)
  run_scripts rs (s ∷ ss) w =
      let (s', w') = run_script rs s w in let (ss', w'') = run_scripts rs ss w' in (s' ∷ ss', w'')

  abbrev pub completed : Stage → List Script → InitScriptManager W E → InitScriptManager W E
  completed stage scripts m = record m {
    scripts = λ g. if same_stage stage g then scripts else m.scripts g;
    stage_completed = λ g. if same_stage stage g then true else m.stage_completed g;
  }

  -- `run_stage`
  unfoldable pub run_stage :
      Stage
      → InitScriptManager W E
      → W × Environ
      → List Script × (InitScriptManager W E × (W × Environ))
  run_stage stage m w =
      let (scripts, w') = run_scripts m.runners (m.scripts stage) w in
      if m.stage_completed stage
      then (m.scripts stage, (m, w))
      else (scripts, (completed stage scripts m, w'))

  -- `_run_init_scripts_on_start`: the boot scripts ran in another process, or never.
  unfoldable pub run_init_scripts_on_start :
      InitScriptManager W E → W × Environ → InitScriptManager W E × (W × Environ)
  run_init_scripts_on_start m w = (run_stage start (completed boot (m.scripts boot) m) w).1
