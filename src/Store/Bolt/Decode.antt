-- ===== src/Store/Bolt/Decode.antt =====
-- The decoding loop of `GetAll` in repo.bolt.go is the one of repo.redis.go over the values.
use demo_redis.Prelude.{String, ◌≡◌, refl, inl, inr, Option-cases, List, [], ◌∷◌, ◌++◌}
use demo_redis.Book.{Book}
use demo_redis.Redis.{Json}
use demo_redis.Store.Bolt.{decode_entries}
use demo_redis.Store.Redis.{decode_all}
use mathlib.Core.List.{map}

abbrev pub value_of : {V : Type 0} → String × V → V
value_of (k, v) = v

pub decode_entries-eq :
    {V : Type 0} (json : Json V) (entries : List (String × V)) (acc : List Book)
    → decode_entries json entries acc ≡ decode_all json (map value_of entries) acc
unfolding decode_entries decode_all
decode_entries-eq json [] acc = refl
decode_entries-eq json ((k, v) ∷ entries) acc = elim (Option-cases (json.unmarshal v).1) [
  | inl p ↦
      rw (p, decode_entries, decode_all)
        (decode_entries-eq json entries (acc ++ (json.unmarshal v).0 ∷ []))
  | inr (e, p) ↦ rw (p, decode_entries, decode_all)
]
