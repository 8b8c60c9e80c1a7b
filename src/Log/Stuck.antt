-- ===== src/Log/Stuck.antt =====
-- A rotation of helpers.logging.go that closes its file and cannot open the next leaves a writer that
-- never writes again.
use demo_redis.Prelude.{
  ℕ, String, ◌≡◌, ◌≢◌, refl, sym, ap, ◌∙◌, inl, inr, Bool-cases, true, false, Option, none, some,
  Option-cases, some-ne-none, length, int64_mul, int64_lt, List, [], ◌∷◌,
}
use demo_redis.Book.{Error}
use demo_redis.Clock.{Clocker}
use demo_redis.Log.{
  Bytes, Os, RSyncWrite, State, mebibyte, next_path, append, rotate, write, is_full,
}
use demo_redis.Log.Laws.{OsLaws}
use demo_redis.Log.Branches.{
  write-refused, write-rotate, write-append, rotate-reopen, rotate-failed, reopen-failed, opened,
}
use mathlib.Core.Path.{subst}

-- The writer holds a closed file.
pub record IsStuck {F O : Type 0} (clock : Clocker O) (IsClosed : O → F → Type 0) (s : State F O)
    : Type 0 where
  pub held : F
  pub holds : s.0.file ≡ some held
  pub asks : s.0.clock ≡ clock
  pub is_closed : IsClosed s.1 held

module _ {F O : Type 0} (os : Os F O) (clock : Clocker O) (content : O → String → ℕ)
    (path_of : F → String) (IsClosed : O → F → Type 0)
    (laws : OsLaws os clock content path_of IsClosed) where
  -- A write that failed and wrote nothing, and left a stuck writer.
  record Lost (s : State F O) (r : (ℕ × Option Error) × State F O) : Type 0 where
    fails : r.0.1 ≢ none
    same : content r.1.1 ≡ content s.1
    stuck : IsStuck clock IsClosed r.1

  append-Lost :
      (p : Bytes) (rsw : RSyncWrite F O) (o : O) (f : F)
      → rsw.file ≡ some f
      → rsw.clock ≡ clock
      → IsClosed o f
      → Lost (rsw, o) (append os f p (rsw, o))
  unfolding append
  append-Lost p rsw o f h c k =
      let (fails, same, closed) = laws.write_closed f p o k in
      record {
        fails = fails;
        same = same;
        stuck = record { held = f; holds = h; asks = c; is_closed = closed };
      }

  rotate-Lost :
      (p : Bytes) (rsw : RSyncWrite F O) (o : O) (f : F)
      → rsw.file ≡ some f
      → rsw.clock ≡ clock
      → IsClosed o f
      → Lost (rsw, o) (rotate os p (rsw, o))
  rotate-Lost p rsw o f h c k =
      let (fails, closed) = laws.close_closed f o k in
      elim (Option-cases (os.close f o).0) [
        | inl e ↦ absurd (fails e)
        | inr (e, q) ↦ subst (Lost (rsw, o)) (sym (rotate-failed os p rsw o f h e q)) (record {
          fails = λ z. some-ne-none z;
          same = laws.close_keeps f o;
          stuck = record { held = f; holds = h; asks = c; is_closed = closed };
        })
      ]

  write-Lost :
      (p : Bytes) (rsw : RSyncWrite F O) (o : O) (f : F)
      → rsw.file ≡ some f
      → rsw.clock ≡ clock
      → IsClosed o f
      → Lost (rsw, o) (write os p (rsw, o))
  write-Lost p rsw o f h c k =
      elim (Bool-cases (int64_lt (int64_mul rsw.max mebibyte) (length p))) [
        | inl e ↦
            let (fails, same) = write-refused os p rsw o e in
            record {
              fails = fails;
              same = ap (λ (s : State F O). content s.1) same;
              stuck =
                  subst (IsStuck clock IsClosed) (sym same)
                    (record { held = f; holds = h; asks = c; is_closed = k });
            }
        | inr e ↦ elim (Bool-cases (is_full os rsw p)) [
          | inl full ↦
              subst (Lost (rsw, o)) (sym (write-rotate os p rsw o f h e full))
                (rotate-Lost p rsw o f h c k)
          | inr room ↦
              subst (Lost (rsw, o)) (sym (write-append os p rsw o f h e room))
                (append-Lost p rsw o f h c k)
        ]
      ]

  abbrev pub writes : List Bytes → State F O → State F O
  writes [] s = s
  writes (p ∷ ps) s = writes ps (write os p s).1

  writes-IsStuck :
      (ps : List Bytes) (s : State F O)
      → IsStuck clock IsClosed s
      → IsStuck clock IsClosed (writes ps s) × (content (writes ps s).1 ≡ content s.1)
  writes-IsStuck [] s k = (k, refl)
  writes-IsStuck (p ∷ ps) s k =
      let lost = write-Lost p s.0 s.1 k.held k.holds k.asks k.is_closed in
      let (still, same) = writes-IsStuck ps (write os p s).1 lost.stuck in (still, same ∙ lost.same)

  pub next_path-kept :
      (rsw : RSyncWrite F O) (o : O) (f : F)
      → rsw.clock ≡ clock
      → IsClosed o f
      → IsClosed (next_path os rsw o).1 f × (content (next_path os rsw o).1 ≡ content o)
  unfolding next_path
  next_path-kept rsw o f c k =
      subst (λ (t : Clocker O). IsClosed (t.now o).1 f × (content (t.now o).1 ≡ content o)) (sym c)
        (laws.clock_closed o f k, laws.clock_keeps o)

  -- Once a write had to rotate, closed the file, and could not open the next one, no later write
  -- succeeds and none writes a byte to any file, whatever is written and however often.
  pub write_after_failed_open :
      (p : Bytes) (ps : List Bytes) (q : Bytes) (rsw : RSyncWrite F O) (o : O) (f : F)
      → rsw.clock ≡ clock
      → rsw.file ≡ some f
      → int64_lt (int64_mul rsw.max mebibyte) (length p) ≡ false
      → is_full os rsw p ≡ true
      → (os.close f o).0 ≡ none
      → (opened os p rsw (os.close f o).1).0.1 ≢ none
      → ((write os q (writes (p ∷ ps) (rsw, o))).0.1 ≢ none)
        × (content (write os q (writes (p ∷ ps) (rsw, o))).1.1 ≡ content o)
  write_after_failed_open p ps q rsw o f c h fits full shut failed =
      elim (Option-cases (opened os p rsw (os.close f o).1).0.1) [
        | inl e ↦ absurd (failed e)
        | inr (err, e) ↦
            let whole =
              write-rotate os p rsw o f h fits full
              ∙ rotate-reopen os p rsw o f h shut
              ∙ reopen-failed os p rsw (os.close f o).1 err e in
            let (closed, kept) = next_path-kept rsw (os.close f o).1 f c (laws.close_ok f o shut) in
            let path = (next_path os rsw (os.close f o).1).0 in
            let after : IsStuck clock IsClosed (rsw, (opened os p rsw (os.close f o).1).1) =
              record {
                held = f;
                holds = h;
                asks = c;
                is_closed = laws.open_closed path _ f closed failed;
              } in
            let stuck : IsStuck clock IsClosed (write os p (rsw, o)).1 = rw whole after in
            let (still, same) = writes-IsStuck ps (write os p (rsw, o)).1 stuck in
            let lost = write-Lost q _ _ still.held still.holds still.asks still.is_closed in
            (
              lost.fails,
              lost.same
                  ∙ same
                  ∙ ap (λ (r : (ℕ × Option Error) × State F O). content r.1.1) whole
                  ∙ laws.open_keeps path _
                  ∙ kept
                  ∙ laws.close_keeps f o,
            )
      ]
