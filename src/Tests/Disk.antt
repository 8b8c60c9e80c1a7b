-- ===== src/Tests/Disk.antt =====
-- A disk in memory, which keeps the promises of Log/Laws.antt.
use demo_redis.Prelude.{
  ℕ, ◌+◌, String, String-cases, ◌==◌, ◌≡◌, refl, inl, inr, if◌then◌else◌, Bool, true, false, Option,
  none, some, Action, arith, length, nat_eq, eq_refl,
}
use demo_redis.Book.{Error, foreign}
use demo_redis.Clock.{Clocker, new_clock}
use demo_redis.Log.{Bytes, Os}
use demo_redis.Log.Laws.{OsLaws}
use Prim.Native.String

-- The sizes of the files by path, the handles that were closed, the number of the next handle, and
-- whether nothing can be opened.
pub record Disk : Type 0 where
  pub bytes : String → ℕ
  pub shut : ℕ → Bool
  pub next : ℕ
  pub is_full : Bool

-- A handle has a number and a path.
abbrev pub Handle : Type 0
Handle = ℕ × String

abbrev open_on : Bool → String → Action Disk (Handle × Option Error)
open_on true path d = (((0, path), some (foreign "no space left on device")), d)
open_on false path d = (((d.next, path), none), record d { next = d.next + 1 })

abbrev write_on : Bool → Handle → Bytes → Action Disk (ℕ × Option Error)
write_on true f p d = ((0, some (foreign "file already closed")), d)
write_on false f p d = (
  (length p, none),
  record d { bytes = λ j. if f.1 == j then d.bytes j + length p else d.bytes j },
)

abbrev close_on : Bool → Handle → Action Disk (Option Error)
close_on true f d = (some (foreign "file already closed"), d)
close_on false f d = (none, record d { shut = λ j. if nat_eq f.0 j then true else d.shut j })

-- Every date is the same second.
abbrev pub disk : Os Handle Disk
disk = record {
  open_file = λ path d. open_on d.is_full path d;
  write = λ f p d. write_on (d.shut f.0) f p d;
  close = λ f d. close_on (d.shut f.0) f d;
  sync = λ f d. (none, d);
  decimal = λ n. "many";
  stamp = λ t. "20240229.120000";
  join = λ a b. String.◌++◌ a (String.◌++◌ "/" b);
}

abbrev pub watch : Clocker Disk
watch = new_clock (λ d. (0, d)) true

abbrev pub bytes_at : Disk → String → ℕ
bytes_at d = d.bytes

abbrev pub path_of : Handle → String
path_of f = f.1

abbrev pub IsShut : Disk → Handle → Type 0
IsShut d f = d.shut f.0 ≡ true

pub disk-laws : OsLaws disk watch bytes_at path_of IsShut
unfolding new_clock
disk-laws = record {
  open_keeps = λ path d. ground arith;
  open_path = λ path d e. ground arith;
  write_ok = λ f p d e. ground (arith, eq_refl f.1);
  write_any = λ f p d. ground (arith, eq_refl f.1);
  write_other = λ f p d path other. elim (String-cases f.1 path) [
    | inl (_, same) ↦ absurd (other same)
    | inr (differ, _) ↦ ground arith
  ];
  close_keeps = λ f d. ground arith;
  clock_keeps = λ d. refl;
  close_ok = λ f d e. ground arith;
  close_closed = λ f d k. (ground arith, ground arith);
  write_closed = λ f p d k. (ground arith, ground arith, ground arith);
  open_closed = λ path d f k e. ground arith;
  clock_closed = λ d f k. k;
}
