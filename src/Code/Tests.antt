-- ===== src/Code/Tests.antt =====
-- The publish natives and the policies at concrete states.
use aip_aptos_agent_framewor.Prelude.{ℕ, ◌≤◌, [], ◌∷◌, ◌≡◌, refl, length, some}
use aip_aptos_agent_framewor.Native.{Session, ok, err, ◌>>=◌, abort, charge}
use aip_aptos_agent_framewor.Native.Rules.{countdown}
use aip_aptos_agent_framewor.Code.{
  NativeCodeContext, PublishArgs, CodeGas, new, request_publish, collect_code,
  collect_optional_deps, collect_names, store_request, extract_publish_request, e_already_requested,
}
use aip_aptos_agent_framewor.Code.Deps.{is_vacant}
use aip_aptos_agent_framewor.Code.Publish.{Granted, request_publish-err, request_publish-Granted}
use aip_aptos_agent_framewor.Code.Once.{request, extract, extracted, extracted_once}
use aip_aptos_agent_framewor.Code.Policy.{
  UpgradePolicy, compat, from_str, fmt, immutable, fmt-from_str, from_str-fmt,
}

abbrev gas : CodeGas
gas = record { request_publish_base = 1; request_publish_per_byte = 1 }

-- One module named `m`, which may depend on module `d` of account 5.
abbrev args : PublishArgs
args = record {
  destination = 9;
  expected_modules = (109 ∷ []) ∷ [];
  allowed_deps = some ((5, 100 ∷ []) ∷ []);
  code = (1 ∷ 2 ∷ 3 ∷ []) ∷ [];
  policy = 1;
}

abbrev session : Session ℕ NativeCodeContext
session = record { gas = 100; ctx = new }

request_publish_example : (request_publish countdown gas args session).0 ≡ ok tt
unfolding request_publish ◌>>=◌ charge collect_code collect_optional_deps is_vacant collect_names
    store_request
request_publish_example = refl

second_request_example :
    (request_publish countdown gas args (request_publish countdown gas args session).1).0
    ≡ err (abort e_already_requested)
unfolding request_publish ◌>>=◌ charge collect_code collect_optional_deps is_vacant collect_names
    store_request
second_request_example = refl

Granted_example : Granted args new (request_publish countdown gas args session).1.ctx
Granted_example = request_publish-Granted countdown gas args session request_publish_example

abbrev requested : Session ℕ NativeCodeContext
requested = (request_publish countdown gas args session).1

request_publish-err_example : (request_publish countdown gas args requested).1.ctx ≡ requested.ctx
request_publish-err_example =
    request_publish-err countdown gas args requested second_request_example

extracted_example :
    length (extracted countdown gas (request args ∷ extract ∷ request args ∷ extract ∷ []) session)
    ≤ 1
extracted_example =
    extracted_once countdown gas (request args ∷ extract ∷ request args ∷ extract ∷ []) session

one_extracted_example :
    length (extracted countdown gas (request args ∷ extract ∷ request args ∷ extract ∷ []) session)
    ≡ 1
unfolding extracted extract_publish_request request_publish ◌>>=◌ charge collect_code
    collect_optional_deps is_vacant collect_names store_request
one_extracted_example = refl

compat_read : from_str "compatible" ≡ some compat
unfolding from_str
compat_read = refl

fmt-from_str_example : (fmt compat ≡ "compatible") × (UpgradePolicy.policy compat ≤ 2)
fmt-from_str_example = fmt-from_str "compatible" compat compat_read

from_str-fmt_example : from_str (fmt (record { policy = 9 })) ≡ some immutable
from_str-fmt_example = from_str-fmt (record { policy = 9 })
