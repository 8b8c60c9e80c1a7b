-- ===== src/Api/SourceIp.antt =====
-- `GetRequestSourceIP` of helpers.common.go: where the address comes from.
use demo_redis.Prelude.{
  String, Bool-cases, true, false, ◌≡◌, ◌⊎◌, inl, inr, refl, sym, ◌∙◌, Option, none, some,
  Option-cases, some-ne-none, List, [], ◌∷◌, if◌then◌else◌, nat_eq, arith, All,
}
use demo_redis.Response.{get}
use demo_redis.Api.{ApiHandler, Request}
use Prim.Native.Char.{Char, code}

-- a character before the first of some parts
abbrev prepend : Char → List String → List String
prepend c [] = String.◌∷◌ c "" ∷ []
prepend c (t ∷ ts) = String.◌∷◌ c t ∷ ts

-- `strings.Split` at commas
unfoldable pub split_commas : String → List String
split_commas String.[] = "" ∷ []
split_commas (String.◌∷◌ c s) =
    let rest = split_commas s in if nat_eq (code c) 44 then "" ∷ rest else prepend c rest

module _ {W : Type 0} (api : ApiHandler W) where
  -- the loop over the parts of X-FORWARDED-FOR
  unfoldable pub first_ip : List String → Option String
  first_ip [] = none
  first_ip (ip ∷ ips) = let rest = first_ip ips in if api.parse_ip ip then some ip else rest

  -- `GetRequestSourceIP`; net/http keeps the two headers under their canonical keys
  unfoldable pub get_request_source_ip : Request → String
  get_request_source_ip r =
      let ip = get "X-Real-Ip" r.header in
      if api.parse_ip ip
      then ip
      else elim (first_ip (split_commas (get "X-Forwarded-For" r.header))) [
        | some ip ↦ ip
        | none ↦ elim (api.split_host_port r.remote_addr) [
          | none ↦ ""
          | some ip ↦ if api.parse_ip ip then ip else ""
        ]
      ]

  first_ip-some :
      (ips : List String) (ip : String) → first_ip ips ≡ some ip → api.parse_ip ip ≡ true
  unfolding first_ip
  first_ip-some [] ip e = cc
  first_ip-some (i ∷ ips) ip e = elim (Bool-cases (api.parse_ip i)) [
    | inl is ↦ ground arith
    | inr not ↦ let ih = first_ip-some ips ip in ground arith
  ]

  first_ip-none :
      (ips : List String) → first_ip ips ≡ none → All (λ ip. api.parse_ip ip ≡ false) ips
  unfolding first_ip
  first_ip-none [] e = tt
  first_ip-none (i ∷ ips) e = elim (Bool-cases (api.parse_ip i)) [
    | inl is ↦ let bad : ⊥ = ground arith in elim bad [ ]
    | inr not ↦ (not, first_ip-none ips (ground arith))
  ]

  -- What `GetRequestSourceIP` returns is an address, or it is the empty string, and then neither the
  -- header X-REAL-IP nor a part of X-FORWARDED-FOR nor the remote address holds one.
  pub source_ip_outcome :
      (r : Request)
      → (api.parse_ip (get_request_source_ip r) ≡ true)
        ⊎ (get_request_source_ip r ≡ "")
          × (api.parse_ip (get "X-Real-Ip" r.header) ≡ false)
          × All (λ ip. api.parse_ip ip ≡ false) (split_commas (get "X-Forwarded-For" r.header))
          × ((ip : String) → api.split_host_port r.remote_addr ≡ some ip → api.parse_ip ip ≡ false)
  unfolding get_request_source_ip
  source_ip_outcome r =
      let forwarded = split_commas (get "X-Forwarded-For" r.header) in
      elim (Bool-cases (api.parse_ip (get "X-Real-Ip" r.header))) [
        | inl is ↦ inl (rw (is) is)
        | inr no_real ↦ elim (Option-cases (first_ip forwarded)) [
          | inr (ip, e) ↦ inl (rw (no_real, e) (first_ip-some forwarded ip e))
          | inl no_forwarded ↦
              let none_of = first_ip-none forwarded no_forwarded in
              elim (Option-cases (api.split_host_port r.remote_addr)) [
                | inl failed ↦ inr (
                  rw (no_real, no_forwarded, failed) refl,
                  no_real,
                  none_of,
                  λ ip q. elim (some-ne-none (sym q ∙ failed)) [ ],
                )
                | inr (ip, e) ↦ elim (Bool-cases (api.parse_ip ip)) [
                  | inl is ↦ inl (rw (no_real, no_forwarded, e, is) is)
                  | inr not ↦
                      inr (rw (no_real, no_forwarded, e, not) refl, no_real, none_of, λ i q. cc)
                ]
              ]
        ]
      ]
