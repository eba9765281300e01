-- ===== src/Api/Swagger.antt =====
-- services/api/internal/adapters/inbound/http/swagger_handler.go: the path that SwaggerUI hands on.
use internal_developer_platf.Shared.{◌≡◌, refl, [], ◌++◌, drop, if◌then◌else◌}
use internal_developer_platf.Text.{Text, codes, text_eq, ends_with}
use internal_developer_platf.Config.{starts_with}

-- What SwaggerUI does: it serves its file, or hands a request with a path on to the library.
pub data Target : Type 0 where
  swagger_file : Target
  library_path : Text → Target

-- "/" for the empty path.
or_root : Text → Text
or_root path = if text_eq path [] then codes "/" else path

-- A path without the prefix "/swagger".
strip_swagger : Text → Text
strip_swagger path =
    let full = if text_eq path (codes "/swagger") then codes "/swagger/" else path in
    if starts_with (codes "/swagger") full then or_root (drop 8 full) else full

index_for_root : Text → Text
index_for_root path = if text_eq path (codes "/") then codes "/index.html" else path

target_of : Text → Target
target_of path = if ends_with (codes "swagger.yaml") path then swagger_file else library_path path

-- SwaggerUI
pub swagger_ui : Text → Target
swagger_ui path = target_of (index_for_root (strip_swagger path))

-- A path under /v1/swagger, where the router registers the handler, is not normalised: the prefix is
-- not stripped and the root is not replaced by the index. Unless it ends with swagger.yaml, the
-- library is handed the whole path, as for /v1/swagger itself; under /swagger alone the handler
-- would hand on the index.
pub routed_path_unchanged :
    (rest : Text)
    → (swagger_ui (codes "/v1/swagger" ++ rest) ≡ (
        if ends_with (codes "swagger.yaml") (codes "/v1/swagger" ++ rest)
        then swagger_file
        else library_path (codes "/v1/swagger" ++ rest)))
      × (swagger_ui (codes "/v1/swagger") ≡ library_path (codes "/v1/swagger"))
      × (swagger_ui (codes "/swagger") ≡ library_path (codes "/index.html"))
unfolding swagger_ui target_of index_for_root strip_swagger or_root ends_with text_eq starts_with
routed_path_unchanged rest = (refl, refl, refl)
