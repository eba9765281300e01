-- ===== src/ValueObjects/Accepts.antt =====
-- valueobjects.go: which texts the constructors accept, and what they make of them.
use internal_developer_platf.Shared.{
  ◌≤◌, ◌≡◌, refl, sym, ap, ◌∙◌, ◌↔◌, ◌≢◌, inl, inr, true, Result, ok, List, [], ◌∷◌, Bool-cases,
  arith, All,
}
use internal_developer_platf.Text.{
  Text, text_eq, len, trim_space, CaseTables, to_lower, to_upper, trim, trim_left, trim_right,
  is_space, lower_rune, upper_rune,
}
use internal_developer_platf.Text.Trim.{text_eq_sound, text_eq_iff, trim_space_idem}
use internal_developer_platf.ValueObjects.{
  is_one_of, cloud_provider_aws, cloud_provider_azure, cloud_provider_gcp, new_cloud_provider,
  cloud_provider_is_valid, valid_cloud_providers, valid_resource_types, new_resource_type,
  resource_type_is_valid, valid_statuses, new_provisioning_status, status_is_valid, new_resource_id,
  new_specification,
}

-- NewResourceType accepts a text exactly when, trimmed, it is one of the six types that IsValid
-- accepts, and returns it trimmed.
pub new_resource_type_iff :
    (value r : Text)
    → (new_resource_type value ≡ ok r)
      ↔ ((r ≡ trim_space value) × (resource_type_is_valid r ≡ true))
unfolding new_resource_type resource_type_is_valid
new_resource_type_iff value r = ground arith

-- NewResourceID accepts a text exactly when, trimmed, it is not empty and has at most 100 bytes, and
-- returns it trimmed.
pub new_resource_id_iff :
    (value r : Text)
    → (new_resource_id value ≡ ok r) ↔ ((r ≡ trim_space value) × (r ≢ []) × (len r ≤ 100))
unfolding new_resource_id
new_resource_id_iff value r = ground (arith, text_eq_iff (trim_space value) [])

-- NewSpecification accepts a text exactly when, trimmed, it is not empty and has at most 1000 bytes,
-- and returns it trimmed.
pub new_specification_iff :
    (value r : Text)
    → (new_specification value ≡ ok r) ↔ ((r ≡ trim_space value) × (r ≢ []) × (len r ≤ 1000))
unfolding new_specification
new_specification_iff value r = ground (arith, text_eq_iff (trim_space value) [])

-- NewProvisioningStatus accepts a text exactly when, trimmed and in lower case, it is one of the
-- four statuses that IsValid accepts, and returns it so.
pub new_provisioning_status_iff :
    (tables : CaseTables) (value s : Text)
    → (new_provisioning_status tables value ≡ ok s)
      ↔ ((s ≡ to_lower tables (trim_space value)) × (status_is_valid s ≡ true))
unfolding new_provisioning_status status_is_valid
new_provisioning_status_iff tables value s = ground arith

-- NewCloudProvider accepts a text exactly when, trimmed and in upper case, it is one of the three
-- providers that IsValid accepts, and returns it so.
pub new_cloud_provider_iff :
    (tables : CaseTables) (value c : Text)
    → (new_cloud_provider tables value ≡ ok c)
      ↔ ((c ≡ to_upper tables (trim_space value)) × (cloud_provider_is_valid c ≡ true))
unfolding new_cloud_provider cloud_provider_is_valid is_one_of
new_cloud_provider_iff tables value c =
    let upper = to_upper tables (trim_space value) in
    ground (
      arith,
      text_eq_iff upper cloud_provider_aws,
      text_eq_iff upper cloud_provider_azure,
      text_eq_iff upper cloud_provider_gcp,
    )

-- What holds of each text of a list holds of any text that is one of them.
is_one_of-elim :
    (P : Text → Type 0) (ts : List Text) (s : Text) → All P ts → is_one_of ts s ≡ true → P s
unfolding is_one_of
is_one_of-elim P [] s all h = cc
is_one_of-elim P (t ∷ ts) s (p, all) h = elim (Bool-cases (text_eq s t)) [
  | inl same ↦ rw (text_eq_sound s t same) p
  | inr other ↦ is_one_of-elim P ts s all (rw other at h)
]

retrimmed : (value result : Text) → result ≡ trim_space value → result ≡ trim_space result
retrimmed value result same = same ∙ sym (trim_space_idem value) ∙ ap trim_space (sym same)

-- The constructors, by the value that they make.
pub data Kind : Type 0 where
  cloud_provider resource_type provisioning_status resource_id specification : Kind

abbrev pub construct : CaseTables → Kind → Text → Result Text Text
construct tables cloud_provider value = new_cloud_provider tables value
construct tables resource_type value = new_resource_type value
construct tables provisioning_status value = new_provisioning_status tables value
construct tables resource_id value = new_resource_id value
construct tables specification value = new_specification value

abbrev Trims : Text → Type 0
Trims s = trim_space s ≡ s

valid-Trims : All Trims valid_resource_types
unfolding trim_space trim trim_left trim_right is_space
valid-Trims = (refl, (refl, (refl, (refl, (refl, (refl, tt))))))

statuses-lower :
    (tables : CaseTables) → All (λ s. s ≡ to_lower tables (trim_space s)) valid_statuses
unfolding trim_space trim trim_left trim_right is_space to_lower lower_rune
statuses-lower tables = (refl, (refl, (refl, (refl, tt))))

providers-upper :
    (tables : CaseTables) → All (λ s. s ≡ to_upper tables (trim_space s)) valid_cloud_providers
unfolding trim_space trim trim_left trim_right is_space to_upper upper_rune
providers-upper tables = (refl, (refl, (refl, tt)))

-- The text of a value that NewCloudProvider, NewResourceType, NewProvisioningStatus, NewResourceID or
-- NewSpecification made is accepted again by it, as the same value.
pub construct_reaccepts :
    (tables : CaseTables) (kind : Kind) (value result : Text)
    → construct tables kind value ≡ ok result
    → construct tables kind result ≡ ok result
unfolding resource_type_is_valid status_is_valid cloud_provider_is_valid
construct_reaccepts tables cloud_provider value result h =
    let (_, valid) = (new_cloud_provider_iff tables value result).0 h in
    (new_cloud_provider_iff tables result result).1 (
      is_one_of-elim (λ s. s ≡ to_upper tables (trim_space s)) valid_cloud_providers result
          (providers-upper tables) valid,
      valid,
    )
construct_reaccepts tables resource_type value result h =
    let (_, valid) = (new_resource_type_iff value result).0 h in
    (new_resource_type_iff result result).1
      (sym (is_one_of-elim Trims valid_resource_types result valid-Trims valid), valid)
construct_reaccepts tables provisioning_status value result h =
    let (_, valid) = (new_provisioning_status_iff tables value result).0 h in
    (new_provisioning_status_iff tables result result).1 (
      is_one_of-elim (λ s. s ≡ to_lower tables (trim_space s)) valid_statuses result
          (statuses-lower tables) valid,
      valid,
    )
construct_reaccepts tables resource_id value result h =
    let (same, given, short) = (new_resource_id_iff value result).0 h in
    (new_resource_id_iff result result).1 (retrimmed value result same, given, short)
construct_reaccepts tables specification value result h =
    let (same, given, short) = (new_specification_iff value result).0 h in
    (new_specification_iff result result).1 (retrimmed value result same, given, short)
