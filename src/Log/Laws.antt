-- ===== src/Log/Laws.antt =====
-- What package os promises of the files of helpers.logging.go. `content` is the number of bytes of the
-- file at a path, 0 where there is none; `IsClosed` says that a file was closed.
use demo_redis.Prelude.{ℕ, ◌+◌, ◌≤◌, String, ◌≡◌, ◌≢◌, none, length}
use demo_redis.Clock.{Clocker}
use demo_redis.Log.{Bytes, Os}

pub record OsLaws {F O : Type 0} (os : Os F O) (clock : Clocker O) (content : O → String → ℕ)
    (path_of : F → String) (IsClosed : O → F → Type 0) : Type 0 where
  -- An opened file is as it was, or new and empty.
  pub open_keeps : (path : String) (o : O) → content (os.open_file path o).1 ≡ content o
  pub open_path :
      (path : String) (o : O)
      → (os.open_file path o).0.1 ≡ none
      → path_of (os.open_file path o).0.0 ≡ path
  pub write_ok :
      (f : F) (p : Bytes) (o : O)
      → (os.write f p o).0.1 ≡ none
      → content (os.write f p o).1 (path_of f) ≡ content o (path_of f) + length p
  -- A write that fails may have written a part.
  pub write_any :
      (f : F) (p : Bytes) (o : O)
      → content (os.write f p o).1 (path_of f) ≤ content o (path_of f) + length p
  pub write_other :
      (f : F) (p : Bytes) (o : O) (path : String)
      → path_of f ≢ path
      → content (os.write f p o).1 path ≡ content o path
  pub close_keeps : (f : F) (o : O) → content (os.close f o).1 ≡ content o
  pub clock_keeps : (o : O) → content (clock.now o).1 ≡ content o
  -- A closed file stays closed, and every use of it fails.
  pub close_ok : (f : F) (o : O) → (os.close f o).0 ≡ none → IsClosed (os.close f o).1 f
  pub close_closed :
      (f : F) (o : O) → IsClosed o f → ((os.close f o).0 ≢ none) × IsClosed (os.close f o).1 f
  pub write_closed :
      (f : F) (p : Bytes) (o : O)
      → IsClosed o f
      → ((os.write f p o).0.1 ≢ none)
        × (content (os.write f p o).1 ≡ content o)
        × IsClosed (os.write f p o).1 f
  pub open_closed :
      (path : String) (o : O) (f : F)
      → IsClosed o f
      → (os.open_file path o).0.1 ≢ none
      → IsClosed (os.open_file path o).1 f
  pub clock_closed : (o : O) (f : F) → IsClosed o f → IsClosed (clock.now o).1 f
