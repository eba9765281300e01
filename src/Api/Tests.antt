-- ===== src/Api/Tests.antt =====
-- The routes' patterns, and paths of the Swagger handler.
use internal_developer_platf.Shared.{String, ◌≡◌, refl, true, ◌++◌, map, if◌then◌else◌}
use internal_developer_platf.Text.{ends_with, codes}
use internal_developer_platf.Tracing.Handover.{IsUnique}
use internal_developer_platf.Api.{RouterConfig, routes, metrics_route, Endpoint}
use internal_developer_platf.Api.Swagger.{
  swagger_ui, swagger_file, library_path, routed_path_unchanged,
}

-- No pattern is registered twice, which the mux would refuse with a panic.
patterns_differ :
    {Raw : Type 0} (config : RouterConfig Raw)
    → IsUnique (
        map
          (λ (route : String × Endpoint). route.0)
          (routes (record config { has_metrics_handler = true })))
unfolding routes metrics_route
patterns_differ config = (refl, (refl, (refl, (refl, (refl, (refl, (refl, (refl, tt))))))))

routed_path_unchanged_example :
    (swagger_ui (codes "/v1/swagger" ++ codes "/index.html") ≡ (
      if ends_with (codes "swagger.yaml") (codes "/v1/swagger" ++ codes "/index.html")
      then swagger_file
      else library_path (codes "/v1/swagger" ++ codes "/index.html")))
    × (swagger_ui (codes "/v1/swagger") ≡ library_path (codes "/v1/swagger"))
    × (swagger_ui (codes "/swagger") ≡ library_path (codes "/index.html"))
routed_path_unchanged_example = routed_path_unchanged (codes "/index.html")
