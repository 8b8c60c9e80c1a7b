-- ===== src/Mutex/Serial.antt =====
-- However the goroutines at a mutex are interleaved, they act as whole calls one after the other.
use demo_redis.Prelude.{
  ◌≡◌, refl, sym, ap, ◌∙◌, Option, none, some, List, [], ◌∷◌, ◌++◌, Option-cases, inl, inr,
}
use demo_redis.Mutex.{
  Section, done, act, run, Shared, Step, lock, access, unlock, Steps, start, more, at_first,
  run_all,
}
use mathlib.Core.List.{Perm, perm_middle, append_assoc}
use mathlib.Core.List.Perm
use mathlib.Core.Path.{subst}

module _ {J S A : Type 0} (section : J → Section S A) where
  -- One more call at the end of a run.
  run_all-last :
      (js : List J) (j : J) (s t : S) (rs : List A)
      → run_all section js s ≡ (rs, t)
      → run_all section (js ++ j ∷ []) s ≡ (rs ++ (run (section j) t).0 ∷ [], (run (section j) t).1)
  run_all-last [] j s t rs e = cc
  run_all-last (i ∷ js) j s t rs e =
      let last = run_all-last js j (run (section i) s).1 _ _ refl in cc

  module _ (jobs : List J) (s : S) where
    -- The calls that are over ran one after the other; the one that holds the lock, if there is one,
    -- will end as if it had run at once after them.
    Current : List J → S → List J → S → Option (Section S A) → Type 0
    Current gone between waiting state none = (state ≡ between) × Perm (gone ++ waiting) jobs
    Current gone between waiting state (some c) =
        (j : J) × (run (section j) between ≡ run c state) × Perm (gone ++ j ∷ waiting) jobs

    record Serial (x : Shared J S A) : Type 0 where
      gone : List J
      between : S
      ran : run_all section gone s ≡ (x.answers, between)
      current : Current gone between x.waiting x.state x.holder

    Step-Serial : {x y : Shared J S A} → Step section x y → Serial x → Serial y
    unfolding Current
    Step-Serial {x} (lock front back j free e) inv =
        let (same, perm) =
          subst (Current inv.gone inv.between x.waiting x.state) free inv.current in
        record {
          gone = inv.gone;
          between = inv.between;
          ran = inv.ran;
          current = (
            j,
            ap (run (section j)) (sym same),
            Perm.trans
                (Perm.append_left inv.gone (
                  subst (λ (w : List J). Perm (j ∷ (front ++ back)) w) (sym e)
                    (Perm.symm (perm_middle front back))))
                perm,
          );
        }
    Step-Serial {x} (access f k e) inv =
        let (j, same, perm) =
          subst (Current inv.gone inv.between x.waiting x.state) e inv.current in
        record { gone = inv.gone; between = inv.between; ran = inv.ran; current = (j, same, perm) }
    Step-Serial {x} (unlock a e) inv =
        let (j, same, perm) =
          subst (Current inv.gone inv.between x.waiting x.state) e inv.current in
        record {
          gone = inv.gone ++ j ∷ [];
          between = x.state;
          ran =
              run_all-last inv.gone j s inv.between x.answers inv.ran
              ∙ ap (λ (r : A × S). (x.answers ++ r.0 ∷ [], r.1)) same;
          current = (refl, rw (append_assoc inv.gone (j ∷ []) x.waiting) perm);
        }

    Steps-Serial : {x y : Shared J S A} → Steps section x y → Serial x → Serial y
    Steps-Serial start inv = inv
    Steps-Serial (more path step) inv = Step-Serial step (Steps-Serial path inv)

    at_first-Serial : Serial (at_first section jobs s)
    unfolding Current
    at_first-Serial = record { gone = []; between = s; ran = refl; current = (refl, Perm.rfl) }

    -- Whenever the lock is free, the goroutines have acted as some of the calls, one after the other
    -- in the order in which they answered; the rest of the calls wait.
    pub Steps-run_all :
        (x : Shared J S A)
        → Steps section (at_first section jobs s) x
        → x.holder ≡ none
        → (gone : List J) × (run_all section gone s ≡ (x.answers, x.state))
          × Perm (gone ++ x.waiting) jobs
    unfolding Current
    Steps-run_all x path free =
        let inv = Steps-Serial path at_first-Serial in
        let (same, perm) =
          subst (Current inv.gone inv.between x.waiting x.state) free inv.current in
        (inv.gone, inv.ran ∙ ap (λ (t : S). (x.answers, t)) (sym same), perm)

  -- No schedule is stuck: the one that holds the lock, and after it those that wait, come to their ends.
  pub Steps-append :
      {x y z : Shared J S A} → Steps section x y → Steps section y z → Steps section x z
  Steps-append p start = p
  Steps-append p (more q step) = more (Steps-append p q) step

  -- The holder gives the lock back, and everybody that waits still waits.
  release :
      (c : Section S A) (x : Shared J S A)
      → x.holder ≡ some c
      → (y : Shared J S A) × Steps section x y × (y.holder ≡ none) × (y.waiting ≡ x.waiting)
  release (done a) x e = (_, more start (unlock a e), refl, refl)
  release (act f k) x e =
      let (y, path, free, same) = release (k x.state) _ refl in
      (y, Steps-append (more start (access f k e)) path, free, same)

  finish :
      (w : List J) (x : Shared J S A)
      → x.holder ≡ none
      → x.waiting ≡ w
      → (y : Shared J S A) × Steps section x y × (y.holder ≡ none) × (y.waiting ≡ [])
  finish [] x free e = (x, start, free, e)
  finish (j ∷ w) x free e =
      let (y, path, free', same) = release (section j) _ refl in
      let (z, path', free'', none_left) = finish w y free' same in
      (
        z,
        Steps-append (Steps-append (more start (lock [] w j free e)) path) path',
        free'',
        none_left,
      )

  pub Steps-can_finish :
      (x : Shared J S A)
      → (y : Shared J S A) × Steps section x y × (y.holder ≡ none) × (y.waiting ≡ [])
  Steps-can_finish x = elim (Option-cases x.holder) [
    | inl free ↦ finish x.waiting x free refl
    | inr (c, e) ↦
        let (y, path, free, same) = release c x e in
        let (z, path', free', none_left) = finish y.waiting y free refl in
        (z, Steps-append path path', free', none_left)
  ]
