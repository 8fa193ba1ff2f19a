-- ===== src/Services/Manager/Checks.antt =====
-- What a check of all services finds.
use localstack_bb.Base.{
  String, ◌≡◌, ◌≢◌, inl, inr, Bool, true, false, ◌||◌, Option, none, some, List, [], ◌∷◌, arith,
  eq_iff, refl, any, Option-cases, Bool-cases, str_eq_self,
}
use localstack_bb.Base.Dict
use localstack_bb.Base.Dict.{lookup-insert}
use localstack_bb.Base.Text.{contains}
use localstack_bb.Services.{ServiceContainer, running, check_container}
use localstack_bb.Services.Lifecycle.{Outcome, success, failure, check_container-Outcome}
use localstack_bb.Services.Manager.{
  Services, get_state, is_running, is_state_running, check, check_names, check_all, any_or,
}

abbrev is_success : Option Bool → Bool
is_success (some true) = true
is_success _ = false

any-contains :
    (p : String → Bool) (names : List String) (j : String)
    → contains j names ≡ true
    → any p names ≡ false
    → p j ≡ false
unfolding contains
any-contains p [] j h a = cc
any-contains p (name ∷ names) j h a = ground (arith, any-contains p names j, eq_iff j name)

module _ {W E K : Type 0} where
  Outcome-runs :
      {c c' : ServiceContainer W E K} {b : Bool}
      → Outcome c running b c'
      → is_state_running (some c'.state) ≡ b
  Outcome-runs success = refl
  Outcome-runs (failure e) = refl

  -- A check succeeds just where it leaves the service running.
  check-is_running :
      (name : String) (d : Services W E K) (w : W)
      → is_running name (check name d w).1 ≡ is_success (check name d w).0
  unfolding check is_running get_state
  check-is_running name d w = elim (Option-cases (Dict.lookup name d)) [
    | inl h ↦ ground arith
    | inr (c, h) ↦
        let o = Outcome-runs (check_container-Outcome c w) in
        ground (arith, lookup-insert name name (check_container c w).1 d, str_eq_self name)
  ]

  check-other :
      (name j : String) (d : Services W E K) (w : W)
      → j ≢ name
      → Dict.lookup j (check name d w).1 ≡ Dict.lookup j d
  unfolding check
  check-other name j d w n = elim (Option-cases (Dict.lookup name d)) [
    | inl h ↦ ground arith
    | inr (c, h) ↦ ground (arith, lookup-insert name j (check_container c w).1 d, eq_iff name j)
  ]

  check_names-other :
      (names : List String) (j : String) (d : Services W E K) (w : W)
      → contains j names ≡ false
      → Dict.lookup j (check_names names d w).1 ≡ Dict.lookup j d
  unfolding check_names contains
  check_names-other [] j d w h = refl
  check_names-other (name ∷ names) j d w h = ground (
    arith,
    check_names-other names j (check name d w).1 (check name d w).2,
    check-other name j d w,
    eq_iff j name,
  )

  -- A name that the rest does not check keeps its state through it.
  check_names-is_running :
      (names : List String) (j : String) (d : Services W E K) (w : W)
      → contains j names ≡ false
      → is_running j (check_names names d w).1 ≡ is_running j d
  unfolding is_running get_state
  check_names-is_running names j d w h = ground (arith, check_names-other names j d w h)

  -- Where the head's check fails, it is running in the end only if the rest checks it again.
  rest-any :
      (name : String) (names : List String) (d : Services W E K) (w : W)
      → is_running name d ≡ false
      → (check_names names d w).0 ≡ any (λ n. is_running n (check_names names d w).1) names
      → (check_names names d w).0 ≡ (
          is_running name (check_names names d w).1
          || any (λ n. is_running n (check_names names d w).1) names)
  rest-any name names d w h ih =
      let found = any-contains (λ n. is_running n (check_names names d w).1) names name in
      let kept = check_names-is_running names name d w in
      elim (Bool-cases (contains name names)) [
        | inl e ↦ ground (arith, found e)
        | inr e ↦ ground (arith, kept e)
      ]

  any_or-any :
      (r : Option Bool × Services W E K × W) (name : String) (names : List String)
      → is_running name r.1 ≡ is_success r.0
      → (check_names names r.1 r.2).0 ≡ any (λ n. is_running n (check_names names r.1 r.2).1) names
      → (any_or r (check_names names)).0
        ≡ any (λ n. is_running n (any_or r (check_names names)).1) (name ∷ names)
  any_or-any (some true, d, w) name names h ih = rw h
  any_or-any (some false, d, w) name names h ih = rest-any name names d w h ih
  any_or-any (none, d, w) name names h ih = rest-any name names d w h ih

  check_names-any :
      (names : List String) (d : Services W E K) (w : W)
      → (check_names names d w).0 ≡ any (λ n. is_running n (check_names names d w).1) names
  unfolding check_names
  check_names-any [] d w = refl
  check_names-any (name ∷ names) d w =
      any_or-any (check name d w) name names (check-is_running name d w)
        (check_names-any names (check name d w).1 (check name d w).2)

  -- A check of all services succeeds just where it leaves a service running.
  pub check_all-any :
      (d : Services W E K) (w : W)
      → (check_all d w).0 ≡ any (λ n. is_running n (check_all d w).1) (Dict.keys d)
  unfolding check_all
  check_all-any d w = check_names-any (Dict.keys d) d w
