-- ===== src/Tests/Losses.antt =====
-- A book that is added while redis refuses a push, over the server and the database in memory.
use demo_redis.Prelude.{ℕ, ◌≡◌, refl, none, some, arith}
use demo_redis.Book.{canceled}
use demo_redis.Context.{background}
use demo_redis.Store.Redis
use demo_redis.Queue.{Queuer, new_redis_queue}
use demo_redis.Queue.Contract.{AreApart}
use demo_redis.Replica.Sync.{InSync, drained}
use demo_redis.Service.{BookService, add}
use demo_redis.Service.Abstract.{replica_of}
use demo_redis.System.Losses.{unpushed_lost}
use demo_redis.Tests.Memory.{plain_json, Server, Entries, server}
use demo_redis.Tests.Storage.{ulysses}
use demo_redis.Tests.Service.{service, pview, bview, queued, primary_laws, apart_laws, empty}

-- A queue that refuses every push.
abbrev no_push : Queuer Server
no_push = record (new_redis_queue plain_json server) { push = λ ctx qid b s. (some canceled, s) }

abbrev unlucky : BookService Server Entries ℕ
unlucky = record service { queue = no_push }

still_apart : AreApart unlucky.pstorage unlucky.queue pview queued
still_apart = record {
  view-push = λ ctx qid b s. refl;
  view-pop = apart_laws.view-pop;
  queued-add = apart_laws.queued-add;
  queued-get_one = apart_laws.queued-get_one;
  queued-delete = apart_laws.queued-delete;
  queued-update = apart_laws.queued-update;
}

unpushed_lost_example :
    let (answer, w) = add unlucky background "b:1" ulysses empty in
    let after = replica_of pview bview queued w in
    (answer ≡ none)
    × (after.primary "b:1" ≡ some ulysses)
    × (drained after ≡ drained (replica_of pview bview queued empty))
    × ¬ InSync after
unfolding Redis.add
unpushed_lost_example =
    unpushed_lost unlucky pview bview queued primary_laws still_apart background ulysses empty
      canceled refl refl refl (ground arith)
