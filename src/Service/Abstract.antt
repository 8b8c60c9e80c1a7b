-- ===== src/Service/Abstract.antt =====
-- The abstract view of the state that api.services.go and infra.consumers.go work on.
use demo_redis.Store.{Books}
use demo_redis.Queue.Contract.{Queues}
use demo_redis.Replica.{Replica}
use demo_redis.Service.{World}

abbrev pub replica_of :
    {R B E : Type 0} → (R → Books) → (B → Books) → (R → Queues) → World R B E → Replica
replica_of pview bview queued w = record {
  primary = pview w.redis;
  backup = bview w.bolt;
  queued = queued w.redis;
}
