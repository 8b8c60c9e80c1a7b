-- ===== src/System/Clearing.antt =====
-- `DeleteAll` of the service as `NewApp` puts it together.
use demo_redis.Prelude.{ℕ, String, true, ◌≡◌, refl, none, List, [], ◌∷◌, ◌++◌, All}
use demo_redis.Context.{Context}
use demo_redis.Redis.{Json, RedisClient, RedisLaws, Keyspace}
use demo_redis.Redis.Scan.{ScanLaws}
use demo_redis.Service.{World}
use demo_redis.Service.Clear.{Event, completed, ops_context, delete_all}
use demo_redis.Store.Redis.{h_books}
use demo_redis.Store.Redis.Fields.{Answers}
use demo_redis.Store.Redis.Clear.{delete_all-empties}
use demo_redis.Service.Clear.Outcome.{IsInterruption, notes, watch_outcome}
use demo_redis.System.{book_service}
use demo_redis.Bolt.{BoltClient}
use demo_redis.Clock.{Clocker, Time}

module _ {V R B T E : Type 0} (json : Json V) (c : RedisClient V R) (db : BoltClient V B T)
    (bucket_name : String) (contents : R → Keyspace V) (rounds : R → ℕ)
    (laws : RedisLaws c contents) (scans : ScanLaws c contents rounds)
    (up : Answers c ops_context) where
  -- Where redis answers every call, `DeleteAll` returns with the line that
  -- it completed, whatever events came before: no book is left in the hash, and the queues, the
  -- database and the environment are as they were.
  pub delete_all_completes :
      (clock : Clocker E) (time_string : Time → String) (events : List Event) (ctx : Context)
      (rid : String) (w : World R B E)
      → All IsInterruption events
      → let (seen, w') =
          delete_all
            (book_service json c db bucket_name clock time_string)
            (rounds w.redis)
            events
            ctx
            rid
            w in
        (seen ≡ (notes events ++ completed ∷ [], true))
        × ((id : String) → (contents w'.redis).hash h_books id ≡ none)
        × ((contents w'.redis).list ≡ (contents w.redis).list)
        × (w'.bolt ≡ w.bolt)
        × (w'.env ≡ w.env)
  unfolding delete_all
  delete_all_completes clock time_string events ctx rid w are =
      let (result, gone, lists) =
        delete_all-empties json c contents rounds laws scans ops_context up w.redis in
      let (_, ends) = watch_outcome events [] none are in (rw result ends, gone, lists, refl, refl)
