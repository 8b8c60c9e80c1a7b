-- ===== src/Ids.antt =====
-- helpers.uuid.go: identifiers. The uuid package is a parameter.
pub mod Laws
use demo_redis.Prelude.{
  String, Bool, true, false, Option, none, some, Action, pure, ◌>>=◌, if◌then◌else◌, nat_eq,
}
use demo_redis.Book.{Error}
use Prim.Native.Char.{code}
use Prim.Native.String

-- `BookIDPrefix` and `RequestIDPrefix`
abbrev pub book_id_prefix : String
book_id_prefix = "b"

abbrev pub request_id_prefix : String
request_id_prefix = "r"

-- gofrs/uuid: `NewV4`, `UUID.String`, `FromStringOrNil`, and the comparison with `uuid.Nil`
pub record Uuid (U E : Type 0) : Type 0 where
  pub new_v4 : Action E (U × Option Error)
  pub to_text : U → String
  pub from_string_or_nil : String → U
  pub is_nil : U → Bool

-- `UIDHandler`
pub record UidHandler (E : Type 0) : Type 0 where
  pub generate : String → Action E String
  pub is_valid : String → String → Bool

-- `strings.TrimPrefix`
unfoldable pub strip : String → String → Option String
strip String.[] s = some s
strip (String.◌∷◌ c p) String.[] = none
strip (String.◌∷◌ c p) (String.◌∷◌ d s) =
    let rest = strip p s in if nat_eq (code c) (code d) then rest else none

unfoldable pub trim_prefix : String → String → String
unfolding strip
trim_prefix s p = elim (strip p s) [ some rest ↦ rest | none ↦ s ]

module _ {U E : Type 0} (uuid : Uuid U E) where
  -- `IDsHandler.Generate`
  unfoldable pub generate : String → Action E String
  generate prefix = do
    (id, _) ← uuid.new_v4
    pure (String.◌++◌ prefix (String.◌++◌ ":" (uuid.to_text id)))

  -- `IDsHandler.IsValid`
  unfoldable pub is_valid : String → String → Bool
  is_valid id prefix =
      let u = uuid.from_string_or_nil (trim_prefix id (String.◌++◌ prefix ":")) in
      if uuid.is_nil u then false else true

  -- `NewIDsHandler`
  abbrev pub new_ids_handler : UidHandler E
  new_ids_handler = record { generate = generate; is_valid = is_valid }
