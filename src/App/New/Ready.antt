-- ===== src/App/New/Ready.antt =====
-- What `NewApp` of app.server.go returns where it returns no error.
use demo_redis.Prelude.{
  [], ◌∷◌, ℕ, String, Bool-cases, true, ◌≡◌, refl, ap, eq_iff, ◌∙◌, inl, inr, Option, none, some,
  Option-cases, arith,
}
use demo_redis.Book.{Error}
use demo_redis.Clock.{new_clock, new_tick_clock}
use demo_redis.Config.{Config, RedisConfig, BoltDbConfig, load_and_init_configs}
use demo_redis.Config.Laws.{HasAddresses, load_and_init_configs-HasAddresses}
use demo_redis.Log.{close}
use demo_redis.Log.Setup.{setup_logging}
use demo_redis.Redis.{RedisClient}
use demo_redis.Bolt.{BoltClient}
use demo_redis.Service.{World}
use demo_redis.System.{bolt_db_consumer}
use demo_redis.Api.Routes.{setup_routes}
use demo_redis.Api.Routes.Stacks.{stacks}
use demo_redis.App.Connect.{
  RedisLibrary, BoltLibrary, address, is_pong, redis_options, set_up_bucket, new_redis_client,
  get_bolt_db_client,
}
use demo_redis.App.New.{
  is_app_running_in_docker, Outside, App, new_api_handler, assemble, connect, new_app,
}

pong_lem : (x : String × Option Error) → is_pong x ≡ true → x ≡ ("PONG", none)
pong_lem (pong, none) e = ap (λ p. (p, none)) ((eq_iff pong "PONG").0 e)
pong_lem (pong, some err) e = cc

-- `NewRedisClient` returns no error only with a client that answered PONG.
pub new_redis_client_ok :
    {V R : Type 0} (redis : RedisLibrary V R) (config : RedisConfig ℕ) (r : R)
    → (new_redis_client redis config r).0.1 ≡ none
    → (client : RedisClient V R) × ((new_redis_client redis config r).0.0 ≡ some client)
      × ((redis.ping client r).0 ≡ ("PONG", none))
unfolding new_redis_client
new_redis_client_ok redis config r ok =
    let client = redis.new_client (redis_options config) in
    let (answer, _) = redis.ping client r in
    elim (Bool-cases (is_pong answer)) [
      | inl is ↦ (client, ground arith, pong_lem answer is)
      | inr not ↦ let bad : ⊥ = ground arith in elim bad [ ]
    ]

pub get_bolt_db_client_ok :
    {V B T : Type 0} (bolt : BoltLibrary V B T) (config : BoltDbConfig ℕ) (b : B)
    → (get_bolt_db_client bolt config b).0.1 ≡ none
    → (db : BoltClient V B T) × ((get_bolt_db_client bolt config b).0.0 ≡ some db)
unfolding get_bolt_db_client
get_bolt_db_client_ok bolt config b ok =
    let ((db, err), b') = bolt.open_db config.file_path config.timeout b in
    elim (Option-cases err) [
      | inr (e, failed) ↦ let bad : ⊥ = ground arith in elim bad [ ]
      | inl opened ↦
          let (err', _) = db.update (set_up_bucket bolt db config.bucket_name) b' in
          elim (Option-cases err') [
            | inr (e, failed) ↦ let bad : ⊥ = ground arith in elim bad [ ]
            | inl set_up ↦ (db, ground arith)
          ]
    ]

module _ {V R B T E F : Type 0} (outside : Outside V R B T E F) where
  -- An application that is ready to run: both servers of its configuration have a host and a port,
  -- redis has answered PONG to the client and the bucket of the database is set up, the consumer is over
  -- that client and that database, the server's routes are those of the configuration's handler, and
  -- the cleanups flush the logs and close their file.
  pub record IsReady (app : App R B E F) : Type 0 where
    pub addresses : HasAddresses app.config
    pub client : RedisClient V R
    pub ponged : (r : R) × ((outside.redis.ping client r).0 ≡ ("PONG", none))
    pub db : BoltClient V B T
    pub set_up :
        (b : B) × ((get_bolt_db_client outside.bolt app.config.bolt_db b).0 ≡ (some db, none))
    pub consumes :
        app.consumer
        ≡ bolt_db_consumer outside.json client db app.config.bolt_db.bucket_name outside.ctx_err
    pub configured : app.api.config ≡ app.config
    pub routed : app.routes ≡ setup_routes app.api outside.packages (stacks app.api)
    pub cleaned :
        app.cleanups
        ≡ (setup_logging outside.stdout outside.logger_sync app.config
            (new_tick_clock (new_clock outside.time_now app.config.is_production))).1
          ∷ close outside.os
          ∷ []
    pub addressed : app.addr ≡ address app.config.server.host app.config.server.port

  connect-IsReady :
      (config : Config String ℕ) (w : World R B E)
      → HasAddresses config
      → (connect outside config w).0.1 ≡ none
      → (app : App R B E F) × ((connect outside config w).0.0 ≡ some app) × IsReady app
  unfolding connect assemble new_api_handler
  connect-IsReady config w has ok =
      let ((c, err), r) = new_redis_client outside.redis config.redis w.redis in
      elim (Option-cases err) [
        | inr (e, failed) ↦ let bad : ⊥ = ground arith in elim bad [ ]
        | inl connected ↦
            let (client, is_client, pong) =
              new_redis_client_ok outside.redis config.redis w.redis connected in
            let ((d, err'), b) = get_bolt_db_client outside.bolt config.bolt_db w.bolt in
            elim (Option-cases err') [
              | inr (e, failed) ↦ let bad : ⊥ = ground arith in elim bad [ ]
              | inl opened ↦
                  let (db, is_db) =
                    get_bolt_db_client_ok outside.bolt config.bolt_db w.bolt opened in
                  let (in_docker, e1) = is_app_running_in_docker outside.stat_dockerenv w.env in
                  let (now, _) = (new_clock outside.time_now config.is_production).now e1 in
                  (
                    assemble outside config client db in_docker now,
                    ground arith,
                    record {
                      addresses = has;
                      client = client;
                      ponged = (w.redis, pong);
                      db = db;
                      set_up = (
                        w.bolt,
                        ap (λ (o : Option (BoltClient V B T)). (o, err')) is_db
                            ∙ ap (λ (o : Option Error). (some db, o)) opened,
                      );
                      consumes = refl;
                      configured = refl;
                      routed = refl;
                      cleaned = refl;
                      addressed = refl;
                    },
                  )
            ]
      ]

  -- Where `NewApp` returns no error, it returns an application that is ready to run: both servers of
  -- its configuration have a host and a port, redis answered PONG to its client and the bucket of its
  -- database is set up, its consumer is over that client and that database, its routes and its address
  -- are those of its configuration, and its cleanups flush the logs and close their file.
  pub new_app-IsReady :
      (git_commit git_tag build_time : String) (w : World R B E)
      → (new_app outside git_commit git_tag build_time w).0.1 ≡ none
      → (app : App R B E F) × ((new_app outside git_commit git_tag build_time w).0.0 ≡ some app)
        × IsReady app
  unfolding new_app
  new_app-IsReady git_commit git_tag build_time w ok =
      let ((loaded, err), e1) =
        load_and_init_configs outside.sources git_commit git_tag build_time w.env in
      elim (Option-cases err) [
        | inr (e, failed) ↦ let bad : ⊥ = ground arith in elim bad [ ]
        | inl read ↦
            let (_, _, config, _, _, is_config, has, _, _, _) =
              load_and_init_configs-HasAddresses outside.sources git_commit git_tag build_time w.env
                read in
            let (err', e2) = outside.mkdir_all config.log_folder e1 in
            elim (Option-cases err') [
              | inr (e, failed) ↦ let bad : ⊥ = ground arith in elim bad [ ]
              | inl made ↦
                  let (app, is_app, ready) =
                    connect-IsReady config (record w { env = e2 }) has (ground arith) in
                  (app, ground arith, ready)
            ]
      ]
