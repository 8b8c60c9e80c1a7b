-- ===== src/Log/Setup.antt =====
-- `SetupLogging` of helpers.logging.go, and the standard output that it hands to zap. zap is a
-- parameter: a logger is recorded as what its constructors are called with, and `sync` is its `Sync`.
use demo_redis.Prelude.{
  ℕ, String, Bool, true, false, ◌≡◌, ◌↔◌, sym, ap, ◌∙◌, if◌then◌else◌, Option, none, some,
  Option-cases, inl, inr, List, [], ◌∷◌, Action, pure, arith,
}
use demo_redis.Book.{Error}
use demo_redis.Clock.{Clocker}
use demo_redis.Config.{Config}
use demo_redis.Log.{Bytes, Os, State, flush_logs, sync}

-- `SyncWrite`, with `os.Stdout`
pub record SyncWrite (F : Type 0) : Type 0 where
  pub out : F

-- `SyncWrite.Sync`, which does nothing
unfoldable pub sync_write_sync : {F O : Type 0} → SyncWrite F → Action (State F O) (Option Error)
sync_write_sync sw = pure none

-- `SyncWrite.Write`
unfoldable pub sync_write_write :
    {F O : Type 0} → Os F O → SyncWrite F → Bytes → Action (State F O) (ℕ × Option Error)
sync_write_write os sw p (rsw, o) = let (result, o') = os.write sw.out p o in (result, (rsw, o'))

-- `zapcore.EncoderConfig`: what it starts from, and the fields that are set
pub data Defaults : Type 0 where
  production : Defaults
  development : Defaults

pub record EncoderConfig : Type 0 where
  pub defaults : Defaults
  pub time_key : String
  pub encode_time : String
  pub level_key : String
  pub name_key : String
  pub message_key : String
  pub caller_key : String
  pub stacktrace_key : String

pub data Encoder : Type 0 where
  json_encoder : EncoderConfig → Encoder
  console_encoder : EncoderConfig → Encoder

-- where a core writes to: the rotating writer, or the standard output under a lock
pub data Sink (F : Type 0) : Type 0 where
  rsync_write : Sink F
  locked : SyncWrite F → Sink F

pub record Core (L F : Type 0) : Type 0 where
  pub encoder : Encoder
  pub sink : Sink F
  pub level : L

-- `zap.New` over a tee of cores, with its options and fields
pub record Logger (L F O : Type 0) : Type 0 where
  pub cores : List (Core L F)
  pub add_caller : Bool
  pub add_stacktrace : String
  pub clock : Clocker O
  pub fields : List (String × String)

-- the keys that both environments set
unfoldable pub encoder_config : Defaults → EncoderConfig
encoder_config defaults = record {
  defaults = defaults;
  time_key = "ts";
  encode_time = "ISO8601";
  level_key = "lvl";
  name_key = "name";
  message_key = "msg";
  caller_key = "caller";
  stacktrace_key = "skt";
}

module _ {L F : Type 0} (stdout : F) where
  -- the cores of the tee
  unfoldable pub tee : Bool → L → List (Core L F)
  unfolding encoder_config
  tee is_production level =
      if is_production
      then (let file_encoder = json_encoder (encoder_config production) in
          record { encoder = file_encoder; sink = rsync_write; level = level } ∷ [])
      else let zap_config = encoder_config development in
        record { encoder = json_encoder zap_config; sink = rsync_write; level = level }
        ∷ record {
          encoder = console_encoder zap_config;
          sink = locked (record { out = stdout });
          level = level;
        }
        ∷ []

  -- `SetupLogging`, which returns the logger and the flusher of Log.antt
  unfoldable pub setup_logging :
      {N O : Type 0}
      → (Logger L F O → Action (State F O) (Option Error))
      → Config L N
      → Clocker O
      → Logger L F O × Action (State F O) (Option Error)
  unfolding tee
  setup_logging {O = O} logger_sync config clock =
      let logger : Logger L F O = record {
        cores = tee config.is_production config.log_level;
        add_caller = true;
        add_stacktrace = "fatal";
        clock = clock;
        fields =
            ("app.commit", config.git_commit)
            ∷ ("app.tag", config.git_tag)
            ∷ ("app.built", config.build_time)
            ∷ [];
      } in
      (logger, flush_logs (logger_sync logger))

abbrev pub sink_sync : {F O : Type 0} → Os F O → Sink F → Action (State F O) (Option Error)
sink_sync os rsync_write = sync os
sink_sync os (locked sw) = sync_write_sync sw

module _ {S : Type 0} (m : Action S (Option Error)) (s : S) where
  flush_logs-none : ((flush_logs m s).0 ≡ none) ↔ ((m s).0 ≡ none)
  unfolding flush_logs
  flush_logs-none = elim (Option-cases (m s).0) [
    | inl e ↦ (λ _. e, λ _. ground arith)
    | inr (err, e) ↦ (λ h. ground arith, λ h. ground arith)
  ]

  flush_logs-state : (flush_logs m s).1 ≡ (m s).1
  unfolding flush_logs
  flush_logs-state = elim (Option-cases (m s).0) [
    | inl e ↦ ground arith
    | inr (err, e) ↦ ground arith
  ]

module _ {L F O : Type 0} (os : Os F O) where
  -- every sink is synced, in order; the first error that came up, if one did
  abbrev pub sync_each : List (Core L F) → Action (State F O) (Option Error)
  sync_each [] s = (none, s)
  sync_each (c ∷ cores) s =
      let (err, s') = sink_sync os c.sink s in
      let (rest, s'') = sync_each cores s' in (elim err [ some e ↦ some e | none ↦ rest ], s'')

  -- What zap says of the `Sync` of a logger over a tee: it syncs every core, and has an error exactly if
  -- one of them has.
  pub record SyncsEach (logger_sync : Logger L F O → Action (State F O) (Option Error))
      : Type 0 where
    pub state :
        (logger : Logger L F O) (s : State F O)
        → (logger_sync logger s).1 ≡ (sync_each logger.cores s).1
    pub fails :
        (logger : Logger L F O) (s : State F O)
        → ((logger_sync logger s).0 ≡ none) ↔ ((sync_each logger.cores s).0 ≡ none)

  sync_each-tee :
      (stdout : F) (is_production : Bool) (level : L) (s : State F O)
      → sync_each (tee stdout is_production level) s ≡ sync os s
  unfolding tee sync_write_sync
  sync_each-tee stdout true level s = elim (Option-cases (sync os s).0) [
    | inl e ↦ ground arith
    | inr (e, h) ↦ ground arith
  ]
  sync_each-tee stdout false level s = elim (Option-cases (sync os s).0) [
    | inl e ↦ ground arith
    | inr (e, h) ↦ ground arith
  ]

  -- The flusher that `SetupLogging` returns has an error exactly where the `Sync` of the log file has,
  -- in production as in development, and does nothing else: the standard output is never synced.
  -- zap's `Sync` is what it says of a tee.
  pub flusher-sync :
      {N : Type 0} (logger_sync : Logger L F O → Action (State F O) (Option Error))
      → SyncsEach logger_sync
      → (stdout : F) (config : Config L N) (clock : Clocker O) (s : State F O)
      → let flusher = (setup_logging stdout logger_sync config clock).1 in
        (((flusher s).0 ≡ none) ↔ ((sync os s).0 ≡ none)) × ((flusher s).1 ≡ (sync os s).1)
  unfolding setup_logging flush_logs
  flusher-sync logger_sync zap stdout config clock s =
      let logger = (setup_logging stdout logger_sync config clock).0 in
      let both = sync_each-tee stdout config.is_production config.log_level s in
      let (to, from) = flush_logs-none (logger_sync logger) s in
      let (to', from') = zap.fails logger s in
      (
        (
          λ h. sym (ap (λ (r : Option Error × State F O). r.0) both) ∙ to' (to h),
          λ h. from (from' (ap (λ (r : Option Error × State F O). r.0) both ∙ h)),
        ),
        flush_logs-state (logger_sync logger) s
            ∙ zap.state logger s
            ∙ ap (λ (r : Option Error × State F O). r.1) both,
      )
