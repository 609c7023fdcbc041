-- ===== src/Env/Tests.antt =====
-- The environments on concrete constants.
use sideswapclient.Prelude.{◌≡◌, refl}
use sideswapclient.Prelude.Key.{codes}
use sideswapclient.Env.{
  Elements, AddressParams, liquid_testnet, data_of, env_elements_params, network_elements_params,
  prod, local_testnet, base_server_url,
}
use sideswapclient.Env.Agreement.{env_elements_params-network_elements_params}

abbrev params : AddressParams
params = record {
  p2pkh_prefix = 57;
  p2sh_prefix = 39;
  blinded_prefix = 12;
  bech_hrp = codes "ex";
  blech_hrp = codes "lq";
}

abbrev elements : Elements
elements = record {
  liquid_params = params;
  liquid_testnet_params = liquid_testnet;
  elements_params = params;
}

prod-url :
    base_server_url (λ port. codes "443") (data_of prod) ≡ codes "https://api.sideswap.io:443"
unfolding data_of
prod-url = refl

env_elements_params-network_elements_params_example :
    env_elements_params elements local_testnet
    ≡ network_elements_params elements (data_of local_testnet).network
env_elements_params-network_elements_params_example =
    env_elements_params-network_elements_params elements local_testnet refl
