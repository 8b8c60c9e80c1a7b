-- ===== src/Service/Clear/Outcome.antt =====
-- `BookService.DeleteAll` of api.services.go returns when its storage has returned, and not before.
use demo_redis.Prelude.{
  ℕ, String, true, false, ◌≡◌, refl, ap, ◌∙◌, Option, none, some, List, [], ◌∷◌, ◌++◌, arith, All,
  Bool,
}
use demo_redis.Book.{Error}
use demo_redis.Service.Clear.{
  Event, timed_out, ticked, finished, Line, timeout, still_running, line_of, watch, ops_context,
  delete_all,
}
use demo_redis.Context.{Context}
use demo_redis.Service.{World, BookService}
use mathlib.Core.List.{append-nil}

-- The events other than the result.
abbrev pub IsInterruption : Event → Type 0
IsInterruption timed_out = Unit
IsInterruption ticked = Unit
IsInterruption (finished err) = ⊥

abbrev pub noted : Event → Line
noted timed_out = timeout
noted ticked = still_running
noted (finished err) = line_of err

abbrev pub notes : List Event → List Line
notes [] = []
notes (e ∷ es) = noted e ∷ notes es

-- The loop logs a line for each event that is no result, and returns with the first result.
pub watch_outcome :
    (events later : List Event) (err : Option Error)
    → All IsInterruption events
    → (watch events ≡ (notes events, false))
      × (watch (events ++ finished err ∷ later) ≡ (notes events ++ line_of err ∷ [], true))
unfolding watch
watch_outcome [] later err no_more = (refl, refl)
watch_outcome (timed_out ∷ es) later err (_, more) =
    let (waits, ends) = watch_outcome es later err more in
    (ground (arith, waits), ground (arith, ends))
watch_outcome (ticked ∷ es) later err (_, more) =
    let (waits, ends) = watch_outcome es later err more in
    (ground (arith, waits), ground (arith, ends))
watch_outcome (finished e ∷ es) later err (no_result, _) = elim no_result [ ]

module _ {R B E : Type 0} (bs : BookService R B E) where
  -- However many ticks come, and however often the end of its context is taken, `DeleteAll` logs a line for
  -- each, in their order, and the one on its result last. It returns exactly if the storage's `DeleteAll`,
  -- which is called once and with the context of ten minutes, returns; a storage whose calls fail once
  -- that context is done is one that returns an error, which is then the last line. Nothing but
  -- redis is touched, and the request's context and id change nothing.
  pub delete_all_outcome :
      (rounds : ℕ) (events : List Event) (ctx : Context) (rid : String) (w : World R B E)
      → All IsInterruption events
      → let (result, redis) = bs.pstorage.delete_all rounds ops_context w.redis in
        let ((lines, returned), w') = delete_all bs rounds events ctx rid w in
        (w' ≡ record w { redis = redis })
        × (result ≡ none → (lines ≡ notes events) × (returned ≡ false))
        × ((err : Option Error)
            → result ≡ some err
            → (lines ≡ notes events ++ line_of err ∷ []) × (returned ≡ true))
  unfolding delete_all
  delete_all_outcome rounds events ctx rid w no_result = (
    refl,
    (λ e. rw e (
        let (waits, _) = watch_outcome events [] none no_result in
        (
          ap (λ (o : List Line × Bool). o.0) (ap watch (append-nil events) ∙ waits),
          ap (λ (o : List Line × Bool). o.1) (ap watch (append-nil events) ∙ waits),
        ))),
    (λ err e. rw e (
        let (_, ends) = watch_outcome events [] err no_result in
        (ap (λ (o : List Line × Bool). o.0) ends, ap (λ (o : List Line × Bool). o.1) ends))),
  )
