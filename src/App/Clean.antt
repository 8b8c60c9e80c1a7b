-- ===== src/App/Clean.antt =====
-- `Clean` and the end of `Run` in app.server.go: every cleanup runs, and every error is reported.
use demo_redis.Prelude.{◌≡◌, refl, sym, ap, ◌∙◌, Option, none, some, List, [], ◌∷◌, ◌++◌, Action}
use demo_redis.Book.{Error}
use demo_redis.App.{AppError, of, only, both, join, app_error, clean_from, clean, finish_run}
use mathlib.Core.List.{append-nil, append_assoc}

abbrev listed : Option Error → List Error
listed none = []
listed (some e) = e ∷ []

-- The errors that were joined, in their order.
abbrev pub leaves : AppError → List Error
leaves (of e) = e ∷ []
leaves (only e) = leaves e
leaves (both e e') = leaves e ++ leaves e'

abbrev pub errors_of : Option AppError → List Error
errors_of none = []
errors_of (some e) = leaves e

errors_of-join : (a b : Option AppError) → errors_of (join a b) ≡ errors_of a ++ errors_of b
errors_of-join none none = refl
errors_of-join none (some e) = refl
errors_of-join (some e) none = sym (append-nil _)
errors_of-join (some e) (some e') = refl

errors_of-app_error : (o : Option Error) → errors_of (app_error o) ≡ listed o
errors_of-app_error none = refl
errors_of-app_error (some e) = refl

module _ {W : Type 0} where
  -- All the functions one after the other, whatever they return, and the errors that they return.
  abbrev pub each : List (Action W (Option Error)) → W → List Error × W
  each [] w = ([], w)
  each (f ∷ fs) w = let (err, w') = f w in let (errs, w2) = each fs w' in (listed err ++ errs, w2)

  clean_from-each :
      (fs : List (Action W (Option Error))) (errs : Option AppError) (w : W)
      → (errors_of (clean_from fs errs w).0 ≡ errors_of errs ++ (each fs w).0)
        × ((clean_from fs errs w).1 ≡ (each fs w).1)
  unfolding clean_from
  clean_from-each [] errs w = (sym (append-nil _), refl)
  clean_from-each (f ∷ fs) errs w =
      let (err, w') = f w in
      let (e, s) = clean_from-each fs (join errs (app_error err)) w' in
      (
        e
            ∙ ap (λ l. l ++ (each fs w').0) (errors_of-join errs (app_error err))
            ∙ ap (λ l. (errors_of errs ++ l) ++ (each fs w').0) (errors_of-app_error err)
            ∙ append_assoc (errors_of errs) (listed err) (each fs w').0,
        s,
      )

  -- At the end of `Run` every cleanup runs once, in its order and whatever the others return, and the
  -- error that `Run` returns joins exactly the group's error, if there is one, and the cleanups'
  -- errors, in their order.
  pub finish_run-each :
      (fs : List (Action W (Option Error))) (err : Option Error) (w : W)
      → (errors_of (finish_run fs err w).0 ≡ listed err ++ (each fs w).0)
        × ((finish_run fs err w).1 ≡ (each fs w).1)
  unfolding finish_run clean
  finish_run-each fs err w =
      let (e, s) = clean_from-each fs none w in
      (
        errors_of-join (app_error err) _
            ∙ ap (λ l. l ++ errors_of (clean_from fs none w).0) (errors_of-app_error err)
            ∙ ap (λ l. listed err ++ l) e,
        s,
      )
