-- ===== src/DomainErrors/Tests.antt =====
-- The theorems on domain errors, at concrete chains.
use internal_developer_platf.Shared.{◌≡◌, refl}
use internal_developer_platf.Text.{codes}
use internal_developer_platf.DomainErrors.{
  GoError, error_text, is_nil, not_found, internal, new_domain_error,
}

abbrev missing : GoError
missing = not_found (codes "VM") (codes "vm-1")

wrapped_text :
    error_text (internal (codes "lookup") missing)
    ≡ codes
        "EXTERNAL_SERVICE_ERROR: lookup: RESOURCE_NOT_FOUND: VM with id 'vm-1' not found: resource not found"
unfolding error_text is_nil internal not_found new_domain_error
wrapped_text = refl
