-- ===== src/App/Main.antt =====
-- main.go: the process, from `NewApp` to its exit.
use demo_redis.Prelude.{
  ℕ, String, ◌≡◌, ◌⊎◌, inl, inr, Option, none, some, Option-cases, Action, pure, ◌>>=◌, arith,
}
use demo_redis.Book.{Error}
use demo_redis.Service.{World}
use demo_redis.App.{AppError}
use demo_redis.App.New.{Outside, App, new_app}
use demo_redis.App.New.Ready.{IsReady, new_app-IsReady}

-- The line that is printed last: "app failed: %v" or "app exited: %v".
pub data Line : Type 0 where
  app_failed : Error → Line
  app_exited : AppError → Line

-- How the process ends.
pub record Exit : Type 0 where
  pub status : ℕ
  pub line : Option Line

-- the end of `main`, given what `Run` returns; `log.Printf` only prints
abbrev pub exit_of : Option AppError → Exit
exit_of none = record { status = 0; line = none }
exit_of (some e) = record { status = 0; line = some (app_exited e) }

-- `main`, given `NewApp` and `Run`; `log.Fatalf` ends the process with status 1
unfoldable pub main :
    {W A : Type 0}
    → Action W (Option A × Option Error)
    → (A → Action W (Option AppError))
    → Action W (Option Exit)
main new_app run = do
  (app, err) ← new_app
  elim err [
    | some e ↦ pure (some (record { status = 1; line = some (app_failed e) }))
    | none ↦ elim app [
      -- `Run` of a nil application, a panic
      | none ↦ pure none
      | some app' ↦ do err' ← run app'; pure (some (exit_of err'))
    ]
  ]

module _ {V R B T E F : Type 0} (outside : Outside V R B T E F) where
  -- The process ends with status 1 exactly if `NewApp` returns an error, which it prints. Else it runs
  -- an application that is ready to run, never a nil one, and ends with status 0 whatever `Run` returns,
  -- of which it prints the error.
  pub main_exit :
      (git_commit git_tag build_time : String)
      (run : App R B E F → Action (World R B E) (Option AppError)) (w : World R B E)
      → let made = new_app outside git_commit git_tag build_time in
        ((e : Error) × ((made w).0.1 ≡ some e)
          × (main made run w
              ≡ (some (record { status = 1; line = some (app_failed e) }), (made w).1)))
        ⊎ ((app : App R B E F) × ((made w).0 ≡ (some app, none))
            × IsReady outside app
            × (main made run w ≡ (some (exit_of (run app (made w).1).0), (run app (made w).1).1)))
  unfolding main
  main_exit git_commit git_tag build_time run w =
      let made = new_app outside git_commit git_tag build_time in
      elim (Option-cases (made w).0.1) [
        | inr (e, failed) ↦ inl (e, failed, ground arith)
        | inl ok ↦
            let (app, is_app, ready) = new_app-IsReady outside git_commit git_tag build_time w ok in
            inr (app, ground arith, ready, ground arith)
      ]
