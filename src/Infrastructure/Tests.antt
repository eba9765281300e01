-- ===== src/Infrastructure/Tests.antt =====
-- Runs of the Parameter Store's functions.
use internal_developer_platf.Shared.{◌≡◌, refl, none, some, List, [], ◌∷◌, ok}
use internal_developer_platf.Text.{Text, codes}
use internal_developer_platf.Infrastructure.{SsmClient, Parameter, get_parameter}

abbrev url : Text
url = codes "https://queue"

abbrev two_of_one : List Parameter
two_of_one =
    record { name = some (codes "/a"); value = some (codes "1") }
    ∷ record { name = some (codes "/b"); value = none }
    ∷ record { name = some (codes "/a"); value = some (codes "2") }
    ∷ []

abbrev store : SsmClient
store = record {
  get_parameter = λ decrypted name. ok (some (record { name = some name; value = some url }));
  get_parameters = λ names. ok two_of_one;
}

finds_url : get_parameter store (codes "/queue") ≡ ok url
unfolding get_parameter
finds_url = refl
