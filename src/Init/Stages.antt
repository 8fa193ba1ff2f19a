-- ===== src/Init/Stages.antt =====
-- What running a stage does to its scripts.
use localstack_bb.Base.{
  String, ◌≡◌, refl, true, false, none, some, List, [], ◌∷◌, arith, inl, any, Bool, inr, Bool-cases,
}
use localstack_bb.Init.{
  Environ, Script, successful, error, ScriptRunner, InitScriptManager, Stage, boot, start, ready,
  shutdown, same_stage, ends_with, restore, kept_variables, run_stage,
}

same_stage_self : (g : Stage) → same_stage g g ≡ true
same_stage_self boot = refl
same_stage_self start = refl
same_stage_self ready = refl
same_stage_self shutdown = refl

module _ {W E : Type 0} where
  abbrev pub takes : ScriptRunner W E → String → Bool
  takes r path = any (λ suffix. ends_with suffix path) r.suffixes

  -- The runner is the first that takes the path.
  pub data IsFirst (path : String) (r : ScriptRunner W E) : List (ScriptRunner W E) → Type 0 where
    here : {rs : List (ScriptRunner W E)} → takes r path ≡ true → IsFirst path r (r ∷ rs)
    later :
        {q : ScriptRunner W E} {rs : List (ScriptRunner W E)}
        → takes q path ≡ false
        → IsFirst path r rs
        → IsFirst path r (q ∷ rs)

  -- What running a script makes of it, of the world and of the environment: its runner was run and
  -- returned, or raised, or there is none.
  pub data RunOf (rs : List (ScriptRunner W E)) (s : Script) (w : W) (environ : Environ)
      : Script × (W × Environ) → Type 0 where
    succeeded :
        (r : ScriptRunner W E) (w' : W) (environ' : Environ)
        → IsFirst s.path r rs
        → r.run s.path (w, environ) ≡ (none, (w', environ'))
        → RunOf rs s w environ
            (record s { state = successful }, (w', restore kept_variables environ environ'))
    failed :
        (r : ScriptRunner W E) (e : E) (w' : W) (environ' : Environ)
        → IsFirst s.path r rs
        → r.run s.path (w, environ) ≡ (some e, (w', environ'))
        → RunOf rs s w environ
            (record s { state = error }, (w', restore kept_variables environ environ'))
    no_runner :
        any (λ r. takes r s.path) rs ≡ false
        → RunOf rs s w environ
            (record s { state = error }, (w, restore kept_variables environ environ))

  -- The scripts run one after another, each in the world that the one before has left.
  pub data Runs (rs : List (ScriptRunner W E))
      : List Script → W × Environ → List Script × (W × Environ) → Type 0 where
    done : {w : W × Environ} → Runs rs [] w ([], w)
    next :
        {s s' : Script} {ss ss' : List Script} {w w' : W} {environ environ' : Environ}
        {end : W × Environ}
        → RunOf rs s w environ (s', (w', environ'))
        → Runs rs ss (w', environ') (ss', end)
        → Runs rs (s ∷ ss) (w, environ) (s' ∷ ss', end)

  -- A stage runs once: a second run returns the scripts with the states of the first, and changes
  -- neither the manager nor the world.
  pub run_stage_once :
      (stage : Stage) (m : InitScriptManager W E) (w : W × Environ)
      → run_stage stage (run_stage stage m w).1.0 (run_stage stage m w).1.1 ≡ run_stage stage m w
  unfolding run_stage
  run_stage_once stage m w = elim (Bool-cases (m.stage_completed stage)) [
    | inl e ↦ ground arith
    | inr e ↦ ground (arith, same_stage_self stage)
  ]

  -- Running one stage leaves the scripts and the completion of every other as they were.
  pub run_stage_other :
      (stage other : Stage) (m : InitScriptManager W E) (w : W × Environ)
      → same_stage stage other ≡ false
      → ((run_stage stage m w).1.0.scripts other ≡ m.scripts other)
        × ((run_stage stage m w).1.0.stage_completed other ≡ m.stage_completed other)
  unfolding run_stage
  run_stage_other stage other m w n = elim (Bool-cases (m.stage_completed stage)) [
    | inl e ↦ rw e (refl, refl)
    | inr e ↦ rw (e, n) (refl, refl)
  ]
