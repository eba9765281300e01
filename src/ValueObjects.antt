-- ===== src/ValueObjects.antt =====
-- services/api/internal/domain/valueobjects/valueobjects.go: constructors that normalise and check
-- a text. A value is its text; an error is its message.
pub mod Accepts
pub mod Email
mod Tests
use internal_developer_platf.Shared.{
  ℕ, Bool, true, false, ◌||◌, Result, ok, err, List, [], ◌∷◌, ◌++◌, ltb, if◌then◌else◌,
}
use internal_developer_platf.Text.{
  Text, codes, text_eq, len, trim_space, CaseTables, to_lower, to_upper,
}

-- A switch whose cases are the texts of a list.
unfoldable pub is_one_of : List Text → Text → Bool
is_one_of [] s = false
is_one_of (t ∷ ts) s = text_eq s t || is_one_of ts s

abbrev pub cloud_provider_aws : Text
cloud_provider_aws = codes "AWS"

abbrev pub cloud_provider_azure : Text
cloud_provider_azure = codes "AZURE"

abbrev pub cloud_provider_gcp : Text
cloud_provider_gcp = codes "GCP"

-- ValidCloudProviders
abbrev pub valid_cloud_providers : List Text
valid_cloud_providers = cloud_provider_aws ∷ cloud_provider_azure ∷ cloud_provider_gcp ∷ []

-- NewCloudProvider
unfoldable pub new_cloud_provider : CaseTables → Text → Result Text Text
new_cloud_provider tables value =
    let upper = to_upper tables (trim_space value) in
    if text_eq upper cloud_provider_aws
    then ok cloud_provider_aws
    else if text_eq upper cloud_provider_azure
    then ok cloud_provider_azure
    else if text_eq upper cloud_provider_gcp
    then ok cloud_provider_gcp
    else err (codes "invalid cloud provider: " ++ (value ++ codes " (valid: AWS, Azure, GCP)"))

-- CloudProvider.IsValid
unfoldable pub cloud_provider_is_valid : Text → Bool
cloud_provider_is_valid c = is_one_of valid_cloud_providers c

-- ValidResourceTypes
abbrev pub valid_resource_types : List Text
valid_resource_types =
    codes "VM" ∷ codes "RDS" ∷ codes "S3" ∷ codes "Lambda" ∷ codes "VPC" ∷ codes "ELB" ∷ []

-- NewResourceType
unfoldable pub new_resource_type : Text → Result Text Text
new_resource_type value =
    let normalized = trim_space value in
    if is_one_of valid_resource_types normalized
    then ok normalized
    else err (codes "invalid resource type: " ++ value)

-- ResourceType.IsValid
unfoldable pub resource_type_is_valid : Text → Bool
resource_type_is_valid r = is_one_of valid_resource_types r

abbrev pub status_pending : Text
status_pending = codes "pending"

abbrev pub status_in_progress : Text
status_in_progress = codes "in_progress"

abbrev pub status_completed : Text
status_completed = codes "completed"

abbrev pub status_failed : Text
status_failed = codes "failed"

abbrev pub valid_statuses : List Text
valid_statuses = status_pending ∷ status_in_progress ∷ status_completed ∷ status_failed ∷ []

-- NewProvisioningStatus
unfoldable pub new_provisioning_status : CaseTables → Text → Result Text Text
new_provisioning_status tables value =
    let normalized = to_lower tables (trim_space value) in
    if is_one_of valid_statuses normalized
    then ok normalized
    else err (codes "invalid provisioning status: " ++ value)

-- ProvisioningStatus.IsValid
unfoldable pub status_is_valid : Text → Bool
status_is_valid s = is_one_of valid_statuses s

-- ProvisioningStatus.IsFinal
unfoldable pub status_is_final : Text → Bool
status_is_final s = text_eq s status_completed || text_eq s status_failed

-- NewResourceID; a ResourceID is its value.
unfoldable pub new_resource_id : Text → Result Text Text
new_resource_id value =
    let trimmed = trim_space value in
    if text_eq trimmed []
    then err (codes "resource ID cannot be empty")
    else if ltb 100 (len trimmed)
    then err (codes "resource ID cannot exceed 100 characters")
    else ok trimmed

-- NewSpecification; a Specification is its value.
unfoldable pub new_specification : Text → Result Text Text
new_specification value =
    let trimmed = trim_space value in
    if text_eq trimmed []
    then err (codes "specification cannot be empty")
    else if ltb 1000 (len trimmed)
    then err (codes "specification cannot exceed 1000 characters")
    else ok trimmed
