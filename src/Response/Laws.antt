-- ===== src/Response/Laws.antt =====
-- The writers of helpers.response.go.
use demo_redis.Prelude.{
  ℕ, ◌+◌, ◌≡◌, refl, ◌∙◌, ◌⊎◌, inl, inr, true, false, Bool-cases, none, some, List, [], ◌∷◌, ◌++◌,
  arith,
}
use demo_redis.Book.{new}
use demo_redis.Response.{
  Body, BaseWriter, CustomWriter, is_aborted, custom_write_header, custom_write, new_custom_writer,
}

-- The calls that a handler makes of its writer.
pub data Call : Type 0 where
  status : ℕ → Call
  send : Body → Call

module _ (size : Body → ℕ) where
  abbrev pub call : Call → CustomWriter → CustomWriter
  call (status code) cw = custom_write_header code cw
  call (send b) cw = (custom_write size b cw).1

  abbrev pub calls : List Call → CustomWriter → CustomWriter
  calls [] cw = cw
  calls (c ∷ cs) cw = calls cs (call c cw)

  abbrev pub total : List Body → ℕ
  total [] = 0
  total (b ∷ bs) = size b + total bs

  total-append : (bs : List Body) (b : Body) → total (bs ++ b ∷ []) ≡ total bs + size b
  total-append [] b = omega arith
  total-append (c ∷ bs) b = omega (arith, total-append bs b)

  -- What the wrapper has recorded is what was sent.
  pub record Tracks (cw : CustomWriter) : Type 0 where
    pub open_still : is_aborted cw.base ≡ false
    pub unsent : cw.wrote ≡ false → (cw.base.sent ≡ none) × (cw.code ≡ 200)
    pub sent : cw.wrote ≡ true → cw.base.sent ≡ some cw.code
    pub counted : cw.bytes ≡ total cw.base.written

  Tracks-call : (c : Call) (cw : CustomWriter) → Tracks cw → Tracks (call c cw)
  unfolding custom_write_header custom_write
  Tracks-call (status code) cw t = ground arith
  Tracks-call (send b) cw t = ground (arith, total-append cw.base.written b)

  Tracks-calls : (cs : List Call) (cw : CustomWriter) → Tracks cw → Tracks (calls cs cw)
  Tracks-calls [] cw t = t
  Tracks-calls (c ∷ cs) cw t = Tracks-calls cs (call c cw) (Tracks-call c cw t)

  -- Over a fresh writer that was not aborted, whatever calls a handler makes, the recorded status is
  -- the status that was sent, or 200 while none was sent, and the recorded bytes are those written.
  pub calls_tracked :
      (cs : List Call) (base : BaseWriter) (conn : ℕ)
      → is_aborted base ≡ false
      → base.sent ≡ none
      → base.written ≡ []
      → (((calls cs (new_custom_writer base conn)).base.sent
            ≡ some (calls cs (new_custom_writer base conn)).code)
          ⊎ ((calls cs (new_custom_writer base conn)).base.sent ≡ none)
            × ((calls cs (new_custom_writer base conn)).code ≡ 200))
        × ((calls cs (new_custom_writer base conn)).bytes
            ≡ total (calls cs (new_custom_writer base conn)).base.written)
  unfolding new_custom_writer
  calls_tracked cs base conn live unsent empty =
      let fresh : Tracks (new_custom_writer base conn) = record {
        open_still = live;
        unsent = λ _. (unsent, refl);
        sent = λ e. cc;
        counted = rw empty;
      } in
      let t = Tracks-calls cs (new_custom_writer base conn) fresh in
      (
        elim (Bool-cases (calls cs (new_custom_writer base conn)).wrote) [
          | inl w ↦ inl (t.sent w)
          | inr w ↦ inr (t.unsent w)
        ],
        t.counted,
      )

  call-sent :
      (c : Call) (cw : CustomWriter) (code : ℕ)
      → cw.base.sent ≡ some code
      → (call c cw).base.sent ≡ some code
  unfolding custom_write_header custom_write
  call-sent (status k) cw code h = ground arith
  call-sent (send b) cw code h = ground arith

  -- Once a status was sent it stays the one that was sent, whatever calls a handler makes later.
  pub calls-sent :
      (cs : List Call) (cw : CustomWriter) (code : ℕ)
      → cw.base.sent ≡ some code
      → (calls cs cw).base.sent ≡ some code
  calls-sent [] cw code h = h
  calls-sent (c ∷ cs) cw code h = calls-sent cs (call c cw) code (call-sent c cw code h)

  pub call-aborted :
      (c : Call) (cw : CustomWriter) → is_aborted cw.base ≡ true → (call c cw).base ≡ cw.base
  unfolding custom_write_header custom_write
  call-aborted (status k) cw h = ground arith
  call-aborted (send b) cw h = ground arith

  -- Once the timeout middleware has marked the response as aborted, no call of the handler changes what
  -- the client gets, and each of its writes fails.
  pub calls-aborted :
      (cs : List Call) (cw : CustomWriter) (b : Body)
      → is_aborted cw.base ≡ true
      → ((calls cs cw).base ≡ cw.base)
        × ((custom_write size b (calls cs cw)).0
            ≡ (0, some (new "handler: request timed out or cancelled")))
  unfolding custom_write
  calls-aborted [] cw b h = (refl, ground arith)
  calls-aborted (c ∷ cs) cw b h =
      let same = call-aborted c cw h in
      let (kept, fails) = calls-aborted cs (call c cw) b (rw same h) in (kept ∙ same, fails)
