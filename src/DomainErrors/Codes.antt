-- ===== src/DomainErrors/Codes.antt =====
-- services/api/internal/domain/errors/errors.go: the codes of domain errors.
use internal_developer_platf.Shared.{String}

abbrev pub err_code_resource_not_found : String
err_code_resource_not_found = "RESOURCE_NOT_FOUND"

abbrev pub err_code_resource_already_exists : String
err_code_resource_already_exists = "RESOURCE_ALREADY_EXISTS"

abbrev pub err_code_auth_failed : String
err_code_auth_failed = "AUTH_FAILED"

abbrev pub err_code_user_already_exists : String
err_code_user_already_exists = "USER_ALREADY_EXISTS"

abbrev pub err_code_invalid_credentials : String
err_code_invalid_credentials = "INVALID_CREDENTIALS"

abbrev pub err_code_invalid_confirmation_code : String
err_code_invalid_confirmation_code = "INVALID_CONFIRMATION_CODE"

abbrev pub err_code_validation_failed : String
err_code_validation_failed = "VALIDATION_FAILED"

abbrev pub err_code_external_service : String
err_code_external_service = "EXTERNAL_SERVICE_ERROR"

abbrev pub err_code_queue_error : String
err_code_queue_error = "QUEUE_ERROR"
