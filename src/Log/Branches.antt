-- ===== src/Log/Branches.antt =====
-- The branches of `Write` of helpers.logging.go, as equations.
use demo_redis.Prelude.{
  ◌≡◌, ◌≢◌, true, false, Option, none, some, arith, length, int64_mul, int64_lt,
}
use demo_redis.Book.{Error}
use demo_redis.Log.{
  Bytes, Os, RSyncWrite, mebibyte, next_path, append, reopen, rotate, write, is_full,
}

module _ {F O : Type 0} (os : Os F O) (p : Bytes) (rsw : RSyncWrite F O) (o : O) where
  pub write-refused :
      int64_lt (int64_mul rsw.max mebibyte) (length p) ≡ true
      → ((write os p (rsw, o)).0.1 ≢ none) × ((write os p (rsw, o)).1 ≡ (rsw, o))
  unfolding write
  write-refused h = ground arith

  pub write-first :
      int64_lt (int64_mul rsw.max mebibyte) (length p) ≡ false
      → rsw.file ≡ none
      → write os p (rsw, o) ≡ rotate os p (rsw, o)
  unfolding write
  write-first h e = ground arith

  module _ (f : F) (held : rsw.file ≡ some f) where
    pub write-rotate :
        int64_lt (int64_mul rsw.max mebibyte) (length p) ≡ false
        → is_full os rsw p ≡ true
        → write os p (rsw, o) ≡ rotate os p (rsw, o)
    unfolding write
    write-rotate h full = ground arith

    pub write-append :
        int64_lt (int64_mul rsw.max mebibyte) (length p) ≡ false
        → is_full os rsw p ≡ false
        → write os p (rsw, o) ≡ append os f p (rsw, o)
    unfolding write
    write-append h room = ground arith

    pub rotate-reopen :
        (os.close f o).0 ≡ none → rotate os p (rsw, o) ≡ reopen os p (rsw, (os.close f o).1)
    unfolding rotate
    rotate-reopen e = ground arith

    pub rotate-failed :
        (e : Error)
        → (os.close f o).0 ≡ some e
        → rotate os p (rsw, o) ≡ ((0, some e), (rsw, (os.close f o).1))
    unfolding rotate
    rotate-failed e q = ground arith

  pub rotate-first : rsw.file ≡ none → rotate os p (rsw, o) ≡ reopen os p (rsw, o)
  unfolding rotate
  rotate-first e = ground arith

  -- The state after the clock was asked, and what the opening of the next file answers.
  abbrev pub opened : (F × Option Error) × O
  opened = os.open_file (next_path os rsw o).0 (next_path os rsw o).1

  pub reopen-failed :
      (e : Error) → opened.0.1 ≡ some e → reopen os p (rsw, o) ≡ ((0, some e), (rsw, opened.1))
  unfolding reopen
  reopen-failed e q = ground arith

  pub reopen-ok :
      opened.0.1 ≡ none
      → reopen os p (rsw, o)
        ≡ append os opened.0.0 p (record rsw { file = some opened.0.0; size = 0 }, opened.1)
  unfolding reopen
  reopen-ok q = ground arith
