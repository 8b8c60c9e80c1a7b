-- ===== src/Api/Routes/Tables.antt =====
-- The tables of routes of api.router.*.go under each configuration.
use demo_redis.Prelude.{
  ℕ, ◌+◌, String, Bool, Bool-cases, true, false, not, ◌==◌, ◌&&◌, ◌||◌, ◌≡◌, refl, inl, inr, List,
  [], ◌∷◌, if◌then◌else◌,
}
use demo_redis.Ids.{strip}
use demo_redis.Api.{ApiHandler}
use demo_redis.Api.Ops.Runtime.{Packages}
use demo_redis.Api.Routes.{
  Route, MiddlewareMap, setup_book_routes, setup_profiler_routes, setup_ops_routes, setup_routes,
}
use demo_redis.Api.Routes.Stacks.{under_ops}

-- The method and the path of each route.
abbrev pub keys : {W : Type 0} → List (Route W) → List (String × String)
keys [] = []
keys (r ∷ rs) = (r.method, r.path) ∷ keys rs

abbrev pub occurs : String × String → List (String × String) → Bool
occurs k [] = false
occurs (k, p) ((k', p') ∷ ks) = (k == k' && p == p') || occurs (k, p) ks

abbrev pub are_distinct : List (String × String) → Bool
are_distinct [] = true
are_distinct (k ∷ ks) = not (occurs k ks) && are_distinct ks

abbrev pub count_ops : List (String × String) → ℕ
count_ops [] = 0
count_ops ((k, p) ∷ ks) = (if under_ops p then 1 else 0) + count_ops ks

module _ {W : Type 0} (api : ApiHandler W) (packages : Packages W) (m : MiddlewareMap W) where
  -- No method and path are registered twice, which httprouter would answer with a panic, and the number
  -- of routes under /ops/ is 0 where the operations are disabled, 7 where they are enabled without the
  -- profiler, and 18 with it.
  pub routes_distinct :
      (are_distinct (keys (setup_routes api packages m)) ≡ true)
      × (count_ops (keys (setup_routes api packages m)) ≡ (
          if api.config.ops_endpoints_enable
          then (if api.config.profiler_endpoints_enable then 18 else 7)
          else 0))
  unfolding setup_routes setup_book_routes setup_ops_routes setup_profiler_routes strip under_ops
  routes_distinct = elim (Bool-cases api.config.ops_endpoints_enable) [
    | inr disabled ↦ rw disabled (refl, refl)
    | inl enabled ↦ elim (Bool-cases api.config.profiler_endpoints_enable) [
      | inl profiler ↦ rw (enabled, profiler) (refl, refl)
      | inr without ↦ rw (enabled, without) (refl, refl)
    ]
  ]
