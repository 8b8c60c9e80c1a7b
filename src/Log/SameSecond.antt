-- ===== src/Log/SameSecond.antt =====
-- A rotation of helpers.logging.go within the second in which the current file was opened: the path of
-- the next file is the path of the current one.
use demo_redis.Prelude.{
  ℕ, ◌+◌, ◌*◌, ◌≤◌, ◌<◌, ◌^◌, String, ◌≡◌, ap, ◌∙◌, true, false, some, none, arith, length,
  int64_mul, int64_lt, int64_lt-ltb,
}
use demo_redis.Clock.{Clocker}
use demo_redis.Log.{Bytes, Os, RSyncWrite, mebibyte, next_path, append, write, is_full}
use demo_redis.Log.Laws.{OsLaws}
use demo_redis.Log.Branches.{write-rotate, rotate-reopen, reopen-ok, opened}
use demo_redis.Log.Stuck.{next_path-kept}
use mathlib.Core.Path.{subst}

is_int64_lt : (l n : ℕ) → l < 2 ^ 63 → n < 2 ^ 63 → int64_lt l n ≡ true → l < n
is_int64_lt l n hl hn h = ground (arith, int64_lt-ltb l n)

module _ {F O : Type 0} (os : Os F O) (clock : Clocker O) (content : O → String → ℕ)
    (path_of : F → String) (IsClosed : O → F → Type 0)
    (laws : OsLaws os clock content path_of IsClosed) where
  -- Where a write that would overflow the file finds the clock still in the second that named the
  -- file, and every call of the operating system succeeds, the rotation opens the same file again:
  -- it grows beyond the maximal size, and the writer counts the bytes of the last write only. The
  -- maximal size in bytes is below 2 ^ 62, and the file holds the bytes that were counted.
  pub same_second-overflows :
      (p : Bytes) (rsw : RSyncWrite F O) (o : O) (f : F)
      → rsw.clock ≡ clock
      → rsw.file ≡ some f
      → rsw.max * mebibyte < 2 ^ 62
      → length p ≤ rsw.max * mebibyte
      → rsw.size ≤ rsw.max * mebibyte
      → rsw.max * mebibyte < length p + rsw.size
      → content o (path_of f) ≡ rsw.size
      → (os.close f o).0 ≡ none
      → (next_path os rsw (os.close f o).1).0 ≡ path_of f
      → (opened os p rsw (os.close f o).1).0.1 ≡ none
      → (os.write (opened os p rsw (os.close f o).1).0.0 p (opened os p rsw (os.close f o).1).1).0.1
        ≡ none
      → (rsw.max * mebibyte < content (write os p (rsw, o)).1.1 (path_of f))
        × ((write os p (rsw, o)).1.0.size ≡ length p)
  unfolding append
  same_second-overflows p rsw o f c h fits room counted full held shut same open_ok write_ok =
      let big : int64_lt (int64_mul rsw.max mebibyte) (length p) ≡ false = ground arith in
      let over : is_full os rsw p ≡ true = ground arith in
      let whole =
        write-rotate os p rsw o f h big over
        ∙ rotate-reopen os p rsw o f h shut
        ∙ reopen-ok os p rsw (os.close f o).1 open_ok in
      let path = (next_path os rsw (os.close f o).1).0 in
      let file = (opened os p rsw (os.close f o).1).0.0 in
      let named : path_of file ≡ path_of f = laws.open_path path _ open_ok ∙ same in
      let (_, kept) =
        next_path-kept os clock content path_of IsClosed laws rsw (os.close f o).1 f c
          (laws.close_ok f o shut) in
      let before : content (opened os p rsw (os.close f o).1).1 (path_of f) ≡ rsw.size =
        ap (λ (k : String → ℕ). k (path_of f))
          (laws.open_keeps path _ ∙ kept ∙ laws.close_keeps f o)
        ∙ held in
      let at_file : content (opened os p rsw (os.close f o).1).1 (path_of file) ≡ rsw.size =
        ap (content (opened os p rsw (os.close f o).1).1) named ∙ before in
      let limited : length p < 2 ^ 62 = omega arith in
      let grown = laws.write_ok file p (opened os p rsw (os.close f o).1).1 write_ok in
      rw whole (
        subst
            (λ (x : String).
              rsw.max * mebibyte
              < content (os.write file p (opened os p rsw (os.close f o).1).1).1 x)
            named (omega (arith, grown, at_file)),
        omega (arith, limited),
      )
