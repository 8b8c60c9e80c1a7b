-- ===== src/Log/Locked.antt =====
-- `Write` and `Close` of helpers.logging.go, called by many goroutines at once: what they do under the
-- lock of the writer, one access to the writer or to the operating system at a time.
use demo_redis.Prelude.{
  ℕ, ◌≡◌, refl, sym, ap, ◌∙◌, if◌then◌else◌, Option, none, some, Option-cases, inl, inr, List, [],
  ◌∷◌, ◌++◌, Action, arith, length, int64_add, int64_mul, int64_lt,
}
use demo_redis.Book.{Error, new}
use demo_redis.Log.{
  Bytes, Os, RSyncWrite, State, mebibyte, next_path, append, reopen, rotate, is_full, write, close,
}
use demo_redis.Mutex.{Section, done, act, call, run, Shared, Steps, at_first, run_all}
use demo_redis.Mutex.Serial.{Steps-run_all, Steps-can_finish, Steps-append}
use mathlib.Core.List.{Perm, append-nil}
use mathlib.Core.Path.{subst}
use Prim.Native.String

-- A call of the writer, and what it returns.
pub data Call : Type 0 where
  write_call : Bytes → Call
  close_call : Call

pub data Answer : Type 0 where
  wrote : ℕ × Option Error → Answer
  closed : Option Error → Answer

module _ {F O : Type 0} (os : Os F O) where
  abbrev Part : Type 0
  Part = Section (State F O) Answer

  abbrev on_os : {A : Type 0} → Action O A → Action (State F O) A
  on_os m (rsw, o) = let (a, o') = m o in (a, (rsw, o'))

  abbrev look : Action (State F O) (RSyncWrite F O)
  look (rsw, o) = (rsw, (rsw, o))

  -- the end of `Write`: the write to the file, then the count of its size
  unfoldable pub append_section : F → Bytes → Part
  append_section f p = call (on_os (os.write f p)) λ result.
      act (λ s. let rsw = s.0 in (record rsw { size = int64_add rsw.size (length p) }, s.1))
        (λ _. done (wrote result))

  -- the clock, the opening of the next file, and the two fields that it changes
  unfoldable pub reopen_section : Bytes → Part
  unfolding append_section
  reopen_section p =
      call (λ s. let (path, o) = next_path os s.0 s.1 in (path, (s.0, o)))
        λ path. call (on_os (os.open_file path)) λ opened. elim opened.1 [
          | some e ↦ done (wrote (0, some e))
          | none ↦
              act (λ s. let rsw = s.0 in (record rsw { file = some opened.0 }, s.1))
                λ _.
                  act (λ s. let rsw = s.0 in (record rsw { size = 0 }, s.1))
                    λ _. append_section opened.0 p
        ]

  -- the rotation, which first closes the file at hand
  unfoldable pub rotate_section : Bytes → Part
  unfolding reopen_section
  rotate_section p = call look λ rsw. elim rsw.file [
    | none ↦ reopen_section p
    | some f ↦
        call (on_os (os.close f))
          λ err. elim err [ some e ↦ done (wrote (0, some e)) | none ↦ reopen_section p ]
  ]

  -- `RSyncWrite.Write` between `Lock` and `Unlock`
  unfoldable pub write_section : Bytes → Part
  unfolding rotate_section append_section
  write_section p = call look λ rsw.
      if int64_lt (int64_mul rsw.max mebibyte) (length p)
      then done (
          wrote (
            0,
            some (
                new (
                  String.◌++◌ "logging: log size " (
                    String.◌++◌ (os.decimal (length p))
                      (String.◌++◌ " exceeds max file size " (os.decimal rsw.max))))),
          ))
      else elim rsw.file [
        | none ↦ rotate_section p
        | some f ↦ if is_full os rsw p then rotate_section p else append_section f p
      ]

  -- `RSyncWrite.Close` between `Lock` and `Unlock`
  unfoldable pub close_section : Part
  close_section = call look λ rsw. elim rsw.file [
    | none ↦ done (closed none)
    | some f ↦ call (on_os (os.close f)) λ err. done (closed err)
  ]

  unfoldable pub section : Call → Part
  unfolding write_section close_section
  section (write_call p) = write_section p
  section close_call = close_section

  -- The whole call, as the one-threaded writer makes it.
  abbrev pub whole : Call → Action (State F O) Answer
  whole (write_call p) s = let (r, s') = write os p s in (wrote r, s')
  whole close_call s = let (r, s') = close os s in (closed r, s')

  abbrev pub whole_all : List Call → Action (State F O) (List Answer)
  whole_all [] s = ([], s)
  whole_all (c ∷ cs) s =
      let (r, s') = whole c s in let (rest, s'') = whole_all cs s' in (r ∷ rest, s'')

  abbrev as_wrote : (ℕ × Option Error) × State F O → Answer × State F O
  as_wrote (r, s) = (wrote r, s)

  run-append_section :
      (f : F) (p : Bytes) (s : State F O) → run (append_section f p) s ≡ as_wrote (append os f p s)
  unfolding append_section append
  run-append_section f p (rsw, o) = refl

  run-reopen_section :
      (p : Bytes) (s : State F O) → run (reopen_section p) s ≡ as_wrote (reopen os p s)
  unfolding reopen_section reopen append append_section
  run-reopen_section p (rsw, o) = ground arith

  run-rotate_section :
      (p : Bytes) (s : State F O) → run (rotate_section p) s ≡ as_wrote (rotate os p s)
  unfolding rotate_section rotate
  run-rotate_section p (rsw, o) = ground (arith, run-reopen_section p)

  run-section : (c : Call) (s : State F O) → run (section c) s ≡ whole c s
  unfolding section write_section write close_section close
  run-section (write_call p) (rsw, o) = elim (Option-cases rsw.file) [
    | inl e ↦ ground (arith, run-rotate_section p (rsw, o))
    | inr (f, h) ↦ ground (arith, run-rotate_section p (rsw, o), run-append_section f p (rsw, o))
  ]
  run-section close_call (rsw, o) = ground arith

  run_all-section : (cs : List Call) (s : State F O) → run_all section cs s ≡ whole_all cs s
  run_all-section [] s = refl
  run_all-section (c ∷ cs) s = ground (arith, run-section c s, run_all-section cs (whole c s).1)

  -- Whenever the lock is free, the writer has served whole calls.
  in_order :
      (calls : List Call) (s : State F O) (x : Shared Call (State F O) Answer)
      → Steps section (at_first section calls s) x
      → x.holder ≡ none
      → (order : List Call) × (whole_all order s ≡ (x.answers, x.state))
        × Perm (order ++ x.waiting) calls
  in_order calls s x path free =
      let (order, same, perm) = Steps-run_all section calls s x path free in
      (order, sym (run_all-section order s) ∙ same, perm)

  -- Under the lock that `Write` and `Close` take: however the accesses of many goroutines that call `Write` and `Close` are
  -- interleaved, whenever its lock is free, the writer, the operating system and the answers are
  -- those of some of the calls, made one after the other as a whole, while the rest of the calls wait;
  -- and from there all the calls can come to their ends, in some order of all of them.
  pub concurrent_writes :
      (calls : List Call) (s : State F O) (x : Shared Call (State F O) Answer)
      → Steps section (at_first section calls s) x
      → x.holder ≡ none
      → ((order : List Call) × (whole_all order s ≡ (x.answers, x.state))
          × Perm (order ++ x.waiting) calls)
        × ((y : Shared Call (State F O) Answer) × (order : List Call) × Steps section x y
            × (whole_all order s ≡ (y.answers, y.state))
            × Perm order calls)
  concurrent_writes calls s x path free =
      let (y, later, free', over) = Steps-can_finish section x in
      let (order, same, perm) = in_order calls s y (Steps-append section path later) free' in
      (
        in_order calls s x path free,
        (
          y,
          order,
          later,
          same,
          subst (λ (w : List Call). Perm w calls)
              (ap (λ (w : List Call). order ++ w) over ∙ append-nil order) perm,
        ),
      )
