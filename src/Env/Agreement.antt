-- ===== src/Env/Agreement.antt =====
-- The environments agree with their networks.
use sideswapclient.Prelude.{◌≡◌, refl, sym}
use sideswapclient.Env.{
  Env, prod, staging, testnet, regtest, local, local_liquid, local_testnet, Elements,
  liquid_testnet, data_of, env_elements_params, network_elements_params,
}

-- Both lookups of the address parameters of an environment, directly and by its network, agree, if
-- the copy of the testnet's parameters in this repository is that of `elements`.
pub env_elements_params-network_elements_params :
    (elements : Elements) (env : Env)
    → elements.liquid_testnet_params ≡ liquid_testnet
    → env_elements_params elements env ≡ network_elements_params elements (data_of env).network
unfolding env_elements_params network_elements_params data_of
env_elements_params-network_elements_params elements prod h = refl
env_elements_params-network_elements_params elements staging h = refl
env_elements_params-network_elements_params elements testnet h = sym h
env_elements_params-network_elements_params elements regtest h = refl
env_elements_params-network_elements_params elements local h = refl
env_elements_params-network_elements_params elements local_liquid h = refl
env_elements_params-network_elements_params elements local_testnet h = sym h
