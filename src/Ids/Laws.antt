-- ===== src/Ids/Laws.antt =====
-- Generated identifiers are valid under their prefix (helpers.uuid.go).
use demo_redis.Prelude.{String, ◌≡◌, refl, sym, not, some, arith}
use demo_redis.Ids.{Uuid, strip, trim_prefix, generate, is_valid}
use Prim.Native.String
use text.Mathlib.TextLemmas.{nil-append, cons-append, append_assoc}

strip-append : (p t : String) → strip p (String.◌++◌ p t) ≡ some t
unfolding strip
strip-append String.[] t = rw (nil-append t) refl
strip-append (String.◌∷◌ c p) t = rw (cons-append c p t) (ground (arith, strip-append p t))

trim-append :
    (p t : String) → trim_prefix (String.◌++◌ p (String.◌++◌ ":" t)) (String.◌++◌ p ":") ≡ t
unfolding trim_prefix
trim-append p t =
    rw (sym (append_assoc p ":" t), trim_prefix, strip-append (String.◌++◌ p ":") t) refl

module _ {U E : Type 0} (uuid : Uuid U E) where
  -- An identifier that `Generate` makes for a prefix is valid under that prefix exactly unless the uuid
  -- that was drawn is the nil uuid, which it is where drawing one failed. Reading the text of a uuid
  -- gives the uuid.
  pub generate-is_valid :
      ((u : U) → uuid.from_string_or_nil (uuid.to_text u) ≡ u)
      → (prefix : String) (e : E)
      → is_valid uuid (generate uuid prefix e).0 prefix ≡ not (uuid.is_nil (uuid.new_v4 e).0.0)
  unfolding generate is_valid trim_prefix
  generate-is_valid read prefix e =
      rw (trim-append prefix (uuid.to_text (uuid.new_v4 e).0.0), read (uuid.new_v4 e).0.0)
        (ground arith)
