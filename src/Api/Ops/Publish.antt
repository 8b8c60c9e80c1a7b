-- ===== src/Api/Ops/Publish.antt =====
-- The three fields of the maintenance mode, which `Maintenance` of api.handlers.ops.go writes one after
-- the other and without a lock, while every other request may read them in between.
use demo_redis.Prelude.{ℕ, zero, suc, String, Bool, true, false, ◌≡◌, refl, List, [], ◌∷◌, ◌++◌}
use demo_redis.Clock.{Time}
use demo_redis.Api.{ApiHandler, Request, Exchange, Maintenance, by_name}
use demo_redis.Api.Ops.{switch_mode}

-- One write to the mode.
pub data Access : Type 0 where
  set_reason : String → Access
  set_started : Time → Access
  set_enabled : Bool → Access

abbrev pub perform : Access → Maintenance → Maintenance
perform (set_reason s) m = record m { reason = s }
perform (set_started t) m = record m { started = t }
perform (set_enabled b) m = record m { enabled = b }

abbrev pub perform_all : List Access → Maintenance → Maintenance
perform_all [] m = m
perform_all (a ∷ rest) m = perform_all rest (perform a m)

-- the writes of `case "enable"`, given the message and the time of the clock, in their order
unfoldable pub enable_accesses : String → Time → List Access
enable_accesses msg now = set_reason msg ∷ set_started now ∷ set_enabled true ∷ []

-- the writes of `case "disable"`, given the zero time, in their order
unfoldable pub disable_accesses : Time → List Access
disable_accesses zero_time = set_enabled false ∷ set_started zero_time ∷ set_reason "" ∷ []

-- Without another request in between, the writes make the mode that the handler is modelled with.
module _ {W : Type 0} (api : ApiHandler W) (r : Request) (x : Exchange W) where
  switch_mode-enable :
      (switch_mode api "enable" r x).1.mode
      ≡ perform_all (enable_accesses (by_name "msg" r.query) (api.clock.now x.world).0) x.mode
  unfolding switch_mode enable_accesses
  switch_mode-enable = refl

  switch_mode-disable :
      (switch_mode api "disable" r x).1.mode ≡ perform_all (disable_accesses api.clock.zero) x.mode
  unfolding switch_mode disable_accesses
  switch_mode-disable = refl

-- Maintenances, one after the other: each is announced with a message and a time, and ends.
abbrev pub all_accesses : Time → List (String × Time) → List Access
all_accesses zero_time [] = []
all_accesses zero_time ((msg, now) ∷ rounds) =
    enable_accesses msg now ++ (disable_accesses zero_time ++ all_accesses zero_time rounds)

-- The mode after so many of the writes.
abbrev pub after : ℕ → List Access → Maintenance → Maintenance
after zero accesses m = m
after (suc n) [] m = m
after (suc n) (a ∷ accesses) m = after n accesses (perform a m)

-- The message and the time are those of the maintenance that is under way after so many writes, six
-- for each maintenance.
abbrev pub IsCurrent : ℕ → List (String × Time) → Maintenance → Type 0
IsCurrent n [] m = ⊥
IsCurrent (suc (suc (suc (suc (suc (suc n)))))) (_ ∷ rounds) m = IsCurrent n rounds m
IsCurrent n ((msg, now) ∷ rounds) m = (m.reason ≡ msg) × (m.started ≡ now)

-- While nobody else writes the mode, its three fields, taken together at one moment, are never on with
-- fields that were not written yet or are being reset; a request that reads them one after another can
-- find those of different moments. From a mode that is off, after any number of the single writes of any
-- maintenances that are enabled and disabled one after the other, a mode that is on has the message and
-- the time of the maintenance under way.
pub on-IsCurrent :
    (zero_time : Time) (rounds : List (String × Time)) (m : Maintenance) (n : ℕ)
    → m.enabled ≡ false
    → (after n (all_accesses zero_time rounds) m).enabled ≡ true
    → IsCurrent n rounds (after n (all_accesses zero_time rounds) m)
unfolding enable_accesses disable_accesses
on-IsCurrent zero_time rounds m zero off on = cc
on-IsCurrent zero_time [] m (suc n) off on = cc
on-IsCurrent zero_time (round ∷ rounds) m (suc zero) off on = cc
on-IsCurrent zero_time (round ∷ rounds) m (suc (suc zero)) off on = cc
on-IsCurrent zero_time (round ∷ rounds) m (suc (suc (suc zero))) off on = (refl, refl)
on-IsCurrent zero_time (round ∷ rounds) m (suc (suc (suc (suc zero)))) off on = cc
on-IsCurrent zero_time (round ∷ rounds) m (suc (suc (suc (suc (suc zero))))) off on = cc
on-IsCurrent zero_time (round ∷ rounds) m (suc (suc (suc (suc (suc (suc n)))))) off on =
    on-IsCurrent zero_time rounds _ n refl on

-- Two lists of writes, interleaved.
pub data Interleaved : List Access → List Access → List Access → Type 0 where
  over : Interleaved [] [] []
  left :
      {a : Access} {l r both : List Access}
      → Interleaved l r both
      → Interleaved (a ∷ l) r (a ∷ both)
  right :
      {a : Access} {l r both : List Access}
      → Interleaved l r both
      → Interleaved l (a ∷ r) (a ∷ both)

-- Two requests that enable and disable the mode at once can leave it on without a message and without a
-- time, which neither leaves when it runs after the other: enabling last, it has the message and the
-- time, and disabling last, it is off.
pub racing_calls_torn :
    (zero_time now : Time) (msg : String) (m : Maintenance)
    → ((both : List Access) × Interleaved
          (enable_accesses msg now)
          (disable_accesses zero_time)
          both
        × (perform_all both m ≡ record { enabled = true; reason = ""; started = zero_time }))
      × (perform_all (disable_accesses zero_time ++ enable_accesses msg now) m
          ≡ record { enabled = true; reason = msg; started = now })
      × (perform_all (enable_accesses msg now ++ disable_accesses zero_time) m
          ≡ record { enabled = false; reason = ""; started = zero_time })
unfolding enable_accesses disable_accesses
racing_calls_torn zero_time now msg m =
    ((_, left (left (right (right (right (left over))))), refl), refl, refl)
