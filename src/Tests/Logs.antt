-- ===== src/Tests/Logs.antt =====
-- The log file on a disk in memory.
use demo_redis.Prelude.{
  some-ne-none, ◌*◌, ◌<◌, ◌≡◌, ◌≢◌, refl, inl, inr, true, false, none, some, [], ◌∷◌, arith,
}
use demo_redis.Log.{RSyncWrite, write, mebibyte, create_log_file_path, next_path, new_rsync_writer}
use demo_redis.Log.Stuck.{writes, write_after_failed_open}
use demo_redis.Log.SameSecond.{same_second-overflows}
use demo_redis.Log.Bounds.{IsSmall, Session, begun, wrote, log_files_bounded}
use demo_redis.Clock.{new_clock}
use demo_redis.Tests.Disk.{Disk, Handle, disk, watch, bytes_at, path_of, IsShut, disk-laws}

abbrev blank : Disk
blank = record { bytes = λ j. 0; shut = λ j. false; next = 1; is_full = false }

abbrev fresh : RSyncWrite Handle Disk
fresh = new_rsync_writer "logs" 1 true watch

session :
    Session disk watch bytes_at path_of IsShut disk-laws 1 blank
      (fresh, blank)
      (write disk (7 ∷ 8 ∷ []) (write disk (1 ∷ 2 ∷ 3 ∷ []) (fresh, blank)).1).1
unfolding write new_clock
session =
    wrote (wrote begun (1 ∷ 2 ∷ 3 ∷ []) (omega arith) (inr refl)) (7 ∷ 8 ∷ []) (omega arith)
      (inl (_, refl, refl))

log_files_bounded_example :
    IsSmall disk watch bytes_at path_of IsShut disk-laws 1 blank
      (write disk (7 ∷ 8 ∷ []) (write disk (1 ∷ 2 ∷ 3 ∷ []) (fresh, blank)).1).1.1
      "logs/20240229.120000.prod.log"
log_files_bounded_example =
    log_files_bounded disk watch bytes_at path_of IsShut disk-laws 1 blank "logs" true _
      (omega arith) session "logs/20240229.120000.prod.log"

-- A writer whose file is full, in the second of its opening, and on a disk where nothing opens.
abbrev full_writer : RSyncWrite Handle Disk
full_writer = record fresh { file = some (0, "logs/20240229.120000.prod.log"); size = mebibyte }

abbrev loaded : Disk
loaded = record blank { bytes = λ j. mebibyte }

abbrev no_space : Disk
no_space = record loaded { is_full = true }

same_second-overflows_example :
    (1 * mebibyte
      < bytes_at (write disk (9 ∷ []) (full_writer, loaded)).1.1 "logs/20240229.120000.prod.log")
    × ((write disk (9 ∷ []) (full_writer, loaded)).1.0.size ≡ 1)
unfolding next_path create_log_file_path new_clock
same_second-overflows_example =
    same_second-overflows disk watch bytes_at path_of IsShut disk-laws (9 ∷ []) full_writer loaded
      (0, "logs/20240229.120000.prod.log") refl refl (omega arith) (omega arith) (omega arith)
      (omega arith) refl refl refl refl refl

write_after_failed_open_example :
    ((write disk (5 ∷ []) (
        writes disk watch bytes_at path_of IsShut disk-laws
          ((9 ∷ []) ∷ [])
          (full_writer, no_space))).0.1
      ≢ none)
    × (bytes_at
          (write disk (5 ∷ []) (
            writes disk watch bytes_at path_of IsShut disk-laws
              ((9 ∷ []) ∷ [])
              (full_writer, no_space))).1.1
        ≡ bytes_at no_space)
unfolding next_path create_log_file_path new_clock
write_after_failed_open_example =
    write_after_failed_open disk watch bytes_at path_of IsShut disk-laws (9 ∷ []) [] (5 ∷ [])
      full_writer no_space (0, "logs/20240229.120000.prod.log") refl refl refl refl refl
      (λ e. some-ne-none e)
