-- ===== src/Log/Bounds.antt =====
-- How large the log files of helpers.logging.go become.
use demo_redis.Prelude.{
  ℕ, ◌+◌, ◌*◌, ◌≤◌, ◌<◌, ◌^◌, String, String-cases, ◌≡◌, refl, sym, ap, ◌∙◌, ◌⊎◌, inl, inr, Bool,
  false, Bool-cases, Option, none, some, Option-cases, arith, length, int64_add, int64_mul,
  int64_lt, int64_lt-ltb,
}
use demo_redis.Book.{Error}
use demo_redis.Clock.{Clocker}
use demo_redis.Log.{
  Bytes, Os, RSyncWrite, State, new_rsync_writer, mebibyte, next_path, append, reopen, rotate,
  write, close, is_full,
}
use demo_redis.Log.Laws.{OsLaws}
use demo_redis.Log.Branches.{
  write-refused, write-first, write-rotate, write-append, rotate-reopen, rotate-failed,
  rotate-first, reopen-failed, reopen-ok, opened,
}
use mathlib.Core.Path.{subst}

not-int64_lt : (l n : ℕ) → l < 2 ^ 63 → n < 2 ^ 63 → int64_lt l n ≡ false → n ≤ l
not-int64_lt l n hl hn h = ground (arith, int64_lt-ltb l n)

-- The state after the close that a rotation begins with.
abbrev pub shut : {F O : Type 0} → Os F O → State F O → O
shut os (rsw, o) = elim rsw.file [ none ↦ o | some f ↦ (os.close f o).1 ]

module _ {F O : Type 0} (os : Os F O) (clock : Clocker O) (content : O → String → ℕ)
    (path_of : F → String) (IsClosed : O → F → Type 0)
    (laws : OsLaws os clock content path_of IsClosed) (max : ℕ) (start : O) where
  abbrev pub limit : ℕ
  limit = max * mebibyte

  -- No file was written beyond the limit.
  abbrev pub IsSmall : O → String → Type 0
  IsSmall o path = (content o path ≤ limit) ⊎ (content o path ≡ content start path)

  -- The file holds no more than was counted, and the count is within the limit.
  record Counted (s : State F O) : Type 0 where
    asks : s.0.clock ≡ clock
    same_max : s.0.max ≡ max
    size_le : s.0.size ≤ limit
    held : (f : F) → s.0.file ≡ some f → content s.1 (path_of f) ≤ s.0.size
    small : (path : String) → IsSmall s.1 path

  -- A rotation now would open a new file, or one that is empty.
  abbrev pub IsFresh : State F O → Type 0
  IsFresh s = content (shut os s) (next_path os s.0 (shut os s)).0 ≡ 0

  -- A file is held that can take the bytes.
  abbrev pub Stays : State F O → Bytes → Type 0
  Stays s p = (f : F) × (s.0.file ≡ some f) × (is_full os s.0 p ≡ false)

  after : {r r' : (ℕ × Option Error) × State F O} → r ≡ r' → Counted r'.1 → Counted r.1
  after e k = subst (λ (t : (ℕ × Option Error) × State F O). Counted t.1) (sym e) k

  shut_lem :
      (rsw : RSyncWrite F O) (o o' : O)
      → shut os (rsw, o) ≡ o'
      → IsFresh (rsw, o)
      → content o' (next_path os rsw o').0 ≡ 0
  shut_lem rsw o o' e fresh = subst (λ (x : O). content x (next_path os rsw x).0 ≡ 0) e fresh

  moved :
      (rsw : RSyncWrite F O) (o o' : O)
      → content o' ≡ content o
      → Counted (rsw, o)
      → Counted (rsw, o')
  moved rsw o o' e k = record {
    asks = k.asks;
    same_max = k.same_max;
    size_le = k.size_le;
    held = λ f h. rw e (k.held f h);
    small = λ path. rw e (k.small path);
  }

  module _ (fits : limit < 2 ^ 62) where
    append-Counted :
        (p : Bytes) (rsw : RSyncWrite F O) (o : O) (f : F)
        → rsw.file ≡ some f
        → Counted (rsw, o)
        → length p + rsw.size ≤ limit
        → Counted (append os f p (rsw, o)).1
    unfolding append
    append-Counted p rsw o f h k room =
        let own = laws.write_any f p o in
        let before = k.held f h in
        let sum : int64_add rsw.size (length p) ≡ rsw.size + length p = omega arith in
        record {
          asks = k.asks;
          same_max = k.same_max;
          size_le = rw sum (omega arith);
          held = λ g e.
              let same : f ≡ g = cc in
              subst
                (λ (x : F). content (os.write f p o).1 (path_of x) ≤ int64_add rsw.size (length p))
                same (rw sum (omega arith));
          small = λ path. elim (String-cases (path_of f) path) [
            | inl (_, here) ↦ inl (rw (sym here) (omega arith))
            | inr (_, other) ↦ rw (laws.write_other f p o path other) (k.small path)
          ];
        }

    next_path-same :
        (rsw : RSyncWrite F O) (o : O)
        → rsw.clock ≡ clock
        → content (next_path os rsw o).1 ≡ content o
    unfolding next_path
    next_path-same rsw o c =
        subst (λ (t : Clocker O). content (t.now o).1 ≡ content o) (sym c) (laws.clock_keeps o)

    reopen-Counted :
        (p : Bytes) (rsw : RSyncWrite F O) (o : O)
        → Counted (rsw, o)
        → length p ≤ limit
        → content o (next_path os rsw o).0 ≡ 0
        → Counted (reopen os p (rsw, o)).1
    reopen-Counted p rsw o k room fresh =
        let path = (next_path os rsw o).0 in
        let kept = laws.open_keeps path (next_path os rsw o).1 ∙ next_path-same rsw o k.asks in
        elim (Option-cases (opened os p rsw o).0.1) [
          | inr (e, q) ↦ after ((reopen-failed os p rsw o e q)) (moved rsw o _ kept k)
          | inl q ↦
              let file = (opened os p rsw o).0.0 in
              let named = laws.open_path path (next_path os rsw o).1 q in
              let empty : content (opened os p rsw o).1 (path_of file) ≡ 0 =
                ap (λ (c : String → ℕ). c (path_of file)) kept ∙ ap (content o) named ∙ fresh in
              after ((reopen-ok os p rsw o q)) (
                append-Counted p _ _ file refl
                  (record {
                    asks = k.asks;
                    same_max = k.same_max;
                    size_le = omega arith;
                    held = λ g e.
                        let same : file ≡ g = cc in
                        subst (λ (x : F). content (opened os p rsw o).1 (path_of x) ≤ 0) same
                          (omega (arith, empty));
                    small = λ other. rw kept (k.small other);
                  })
                  (omega arith))
        ]

    -- Through all the branches of `Write`.
    rotate-Counted :
        (p : Bytes) (rsw : RSyncWrite F O) (o : O)
        → Counted (rsw, o)
        → length p ≤ limit
        → IsFresh (rsw, o)
        → Counted (rotate os p (rsw, o)).1
    rotate-Counted p rsw o k room fresh = elim (Option-cases rsw.file) [
      | inl e ↦
          after ((rotate-first os p rsw o e))
            (reopen-Counted p rsw o k room (shut_lem rsw o o (rw e) fresh))
      | inr (f, h) ↦
          let kept = moved rsw o (os.close f o).1 (laws.close_keeps f o) k in
          elim (Option-cases (os.close f o).0) [
            | inr (e, q) ↦ after ((rotate-failed os p rsw o f h e q)) kept
            | inl q ↦ after ((rotate-reopen os p rsw o f h q)) (
                reopen-Counted p rsw (os.close f o).1 kept room
                  (shut_lem rsw o (os.close f o).1 (rw h) fresh))
          ]
    ]

    has_room :
        (rsw : RSyncWrite F O) (o : O) (p : Bytes)
        → Counted (rsw, o)
        → length p < 2 ^ 63
        → int64_lt (int64_mul rsw.max mebibyte) (length p) ≡ false
        → (length p ≤ limit) × (is_full os rsw p ≡ false → length p + rsw.size ≤ limit)
    has_room rsw o p k small_slice fits_file =
        let max' : int64_mul rsw.max mebibyte ≡ limit = rw (k.same_max) (omega arith) in
        let room = not-int64_lt limit (length p) (omega arith) small_slice (rw max' at fits_file) in
        (
          room,
          λ free.
              let sum : int64_add (length p) rsw.size ≡ length p + rsw.size =
                omega (arith, k.size_le) in
              not-int64_lt limit (length p + rsw.size) (omega (arith, k.size_le))
                (omega (arith, k.size_le)) (rw (max', sum) at free),
        )

    fresh-Counted :
        (p : Bytes) (rsw : RSyncWrite F O) (o : O)
        → Counted (rsw, o)
        → length p < 2 ^ 63
        → int64_lt (int64_mul rsw.max mebibyte) (length p) ≡ false
        → IsFresh (rsw, o)
        → Counted (write os p (rsw, o)).1
    fresh-Counted p rsw o k short fits_file fresh =
        let (room, more) = has_room rsw o p k short fits_file in
        elim (Option-cases rsw.file) [
          | inl e ↦ after (write-first os p rsw o fits_file e) (rotate-Counted p rsw o k room fresh)
          | inr (f, h) ↦ elim (Bool-cases (is_full os rsw p)) [
            | inl full ↦
                after (write-rotate os p rsw o f h fits_file full)
                  (rotate-Counted p rsw o k room fresh)
            | inr free ↦
                after (write-append os p rsw o f h fits_file free)
                  (append-Counted p rsw o f h k (more free))
          ]
        ]

    write-Counted :
        (p : Bytes) (rsw : RSyncWrite F O) (o : O)
        → Counted (rsw, o)
        → length p < 2 ^ 63
        → Stays (rsw, o) p ⊎ IsFresh (rsw, o)
        → Counted (write os p (rsw, o)).1
    write-Counted p rsw o k short way =
        elim (Bool-cases (int64_lt (int64_mul rsw.max mebibyte) (length p))) [
          | inl big ↦ subst Counted (sym (write-refused os p rsw o big).1) k
          | inr fits_file ↦
              let (room, more) = has_room rsw o p k short fits_file in
              elim way [
                | inl (f, h, free) ↦
                    after (write-append os p rsw o f h fits_file free)
                      (append-Counted p rsw o f h k (more free))
                | inr fresh ↦ fresh-Counted p rsw o k short fits_file fresh
              ]
        ]

    close-Counted :
        (rsw : RSyncWrite F O) (o : O) → Counted (rsw, o) → Counted (close os (rsw, o)).1
    unfolding close
    close-Counted rsw o k = elim (Option-cases rsw.file) [
      | inl e ↦
          let idle : (close os (rsw, o)).1 ≡ (rsw, o) = ground arith in subst Counted (sym idle) k
      | inr (f, h) ↦
          let done : (close os (rsw, o)).1 ≡ (rsw, (os.close f o).1) = ground arith in
          subst Counted (sym done) (moved rsw o (os.close f o).1 (laws.close_keeps f o) k)
    ]

  -- A writer in use: writes that stay in the file at hand or open a file that is empty, and closes.
  pub data Session (s : State F O) : State F O → Type 0 where
    begun : Session s s
    wrote :
        {t : State F O}
        → Session s t
        → (p : Bytes) → length p < 2 ^ 63
        → Stays t p ⊎ IsFresh t
        → Session s (write os p t).1
    closed : {t : State F O} → Session s t → Session s (close os t).1

  Session-Counted : limit < 2 ^ 62 → {s t : State F O} → Session s t → Counted s → Counted t
  Session-Counted fits begun k = k
  Session-Counted fits (wrote {t} path p short way) k =
      write-Counted fits p t.0 t.1 (Session-Counted fits path k) short way
  Session-Counted fits (closed {t} path) k =
      close-Counted fits t.0 t.1 (Session-Counted fits path k)

  -- Whatever is written through a new writer, in any order with closes and with any failures of the
  -- operating system: as long as each file that it opens is empty, no file grows beyond the maximal
  -- size, but for files that it never wrote to. The size in bytes is below 2 ^ 62.
  pub log_files_bounded :
      (folder : String) (is_prod : Bool) (s : State F O)
      → limit < 2 ^ 62
      → Session (new_rsync_writer folder max is_prod clock, start) s
      → (path : String) → IsSmall s.1 path
  log_files_bounded folder is_prod s fits path =
      let k = Session-Counted fits path (record {
        asks = refl;
        same_max = refl;
        size_le = omega arith;
        held = λ f e. cc;
        small = λ path. inr refl;
      }) in
      k.small
