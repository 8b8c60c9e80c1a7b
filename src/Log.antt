-- ===== src/Log.antt =====
-- helpers.logging.go: the rotating log file. `F` is the type of `*os.File`, `O` the state of the
-- operating system, which also tells the time.
pub mod Laws
pub mod Branches
pub mod Bounds
pub mod Stuck
pub mod SameSecond
pub mod Locked
pub mod Setup
use demo_redis.Prelude.{
  ℕ, ◌+◌, String, Bool, true, false, ◌||◌, if◌then◌else◌, Option, none, some, List, Action, pure,
  ◌>>=◌, length, int64_add, int64_mul, int64_lt,
}
use demo_redis.Book.{Error, new, wrap}
use demo_redis.Clock.{Time, Clocker}
use Prim.Native.String

abbrev pub Bytes : Type 0
Bytes = List ℕ

-- Package os, and what fmt and filepath print.
pub record Os (F O : Type 0) : Type 0 where
  -- OpenFile(path, O_CREATE|O_APPEND|O_WRONLY, 0o644)
  pub open_file : String → Action O (F × Option Error)
  pub write : F → Bytes → Action O (ℕ × Option Error)
  pub close : F → Action O (Option Error)
  -- a nil file has an answer too
  pub sync : Option F → Action O (Option Error)
  -- "%d"
  pub decimal : ℕ → String
  -- the date and the time of day to the second, "%02d%02d%02d.%02d%02d%02d"
  pub stamp : Time → String
  -- filepath.Join
  pub join : String → String → String

-- `RSyncWrite`, without its mutex; `none` is a nil file.
pub record RSyncWrite (F O : Type 0) : Type 0 where
  pub clock : Clocker O
  pub file : Option F
  pub folder : String
  pub max : ℕ
  pub size : ℕ
  pub is_prod : Bool

-- `NewRSyncWriter`, given the fields of the configuration that it reads
abbrev pub new_rsync_writer : {F O : Type 0} → String → ℕ → Bool → Clocker O → RSyncWrite F O
new_rsync_writer log_folder log_max_size is_production clock = record {
  clock = clock;
  file = none;
  folder = log_folder;
  max = log_max_size;
  size = 0;
  is_prod = is_production;
}

-- The writer and the operating system.
abbrev pub State : Type 0 → Type 0 → Type 0
State F O = RSyncWrite F O × O

abbrev pub mebibyte : ℕ
mebibyte = 1048576

-- the flusher that `SetupLogging` returns, given the logger's `Sync`
unfoldable pub flush_logs : {S : Type 0} → Action S (Option Error) → Action S (Option Error)
flush_logs logger_sync = do
  err ← logger_sync
  elim err [ some e ↦ pure (some (wrap "[flush logs]: " e)) | none ↦ pure none ]

module _ {F O : Type 0} (os : Os F O) where
  -- `CreateLogFilePath`
  unfoldable pub create_log_file_path : String → Bool → Time → String
  create_log_file_path folder is_prod t =
      let env_key = if is_prod then "prod" else "dev" in
      os.join folder (String.◌++◌ (os.stamp t) (String.◌++◌ "." (String.◌++◌ env_key ".log")))

  -- the end of `Write`: the write to the file and the count of its size
  unfoldable pub append : F → Bytes → Action (State F O) (ℕ × Option Error)
  append f p (rsw, o) =
      let (result, o') = os.write f p o in
      (result, (record rsw { size = int64_add rsw.size (length p) }, o'))

  -- the path that a rotation now would open, and the state after the clock was asked
  unfoldable pub next_path : RSyncWrite F O → Action O String
  next_path rsw o =
      let (now, o') = rsw.clock.now o in (create_log_file_path rsw.folder rsw.is_prod now, o')

  -- the opening of the next file, and the write to it
  unfoldable pub reopen : Bytes → Action (State F O) (ℕ × Option Error)
  unfolding append next_path
  reopen p (rsw, o) =
      let (path, o1) = next_path rsw o in
      let ((file, err), o2) = os.open_file path o1 in
      elim err [
        | some e ↦ ((0, some e), (rsw, o2))
        | none ↦ append file p (record rsw { file = some file; size = 0 }, o2)
      ]

  -- the rotation: the close of the current file, if there is one
  unfoldable pub rotate : Bytes → Action (State F O) (ℕ × Option Error)
  unfolding reopen
  rotate p (rsw, o) = elim rsw.file [
    | none ↦ reopen p (rsw, o)
    | some f ↦
        let (err, o') = os.close f o in
        elim err [ some e ↦ ((0, some e), (rsw, o')) | none ↦ reopen p (rsw, o') ]
  ]

  -- the file cannot take so many more bytes
  abbrev pub is_full : RSyncWrite F O → Bytes → Bool
  is_full rsw p = int64_lt (int64_mul rsw.max mebibyte) (int64_add (length p) rsw.size)

  -- `RSyncWrite.Write`, which rotates where the file is full or nil
  unfoldable pub write : Bytes → Action (State F O) (ℕ × Option Error)
  unfolding rotate append
  write p (rsw, o) =
      if int64_lt (int64_mul rsw.max mebibyte) (length p)
      then (
        (
          0,
          some (
              new (
                String.◌++◌ "logging: log size " (
                  String.◌++◌ (os.decimal (length p))
                    (String.◌++◌ " exceeds max file size " (os.decimal rsw.max))))),
        ),
        (rsw, o),
      )
      else elim rsw.file [
        | none ↦ rotate p (rsw, o)
        | some f ↦ if is_full rsw p then rotate p (rsw, o) else append f p (rsw, o)
      ]

  -- `RSyncWrite.Close`
  unfoldable pub close : Action (State F O) (Option Error)
  close (rsw, o) = elim rsw.file [
    | none ↦ (none, (rsw, o))
    | some f ↦ let (err, o') = os.close f o in (err, (rsw, o'))
  ]

  -- `RSyncWrite.Sync`
  unfoldable pub sync : Action (State F O) (Option Error)
  sync (rsw, o) = let (err, o') = os.sync rsw.file o in (err, (rsw, o'))
