-- ===== src/Env.antt =====
-- The environments and the networks: rust/sideswap_common/src/env.rs. Texts are lists of bytes.
pub mod Agreement
mod Tests
use sideswapclient.Prelude.{
  ℕ, Bool, true, false, if◌then◌else◌, Option, none, some, List, [], ◌∷◌, ◌++◌,
}
use sideswapclient.Prelude.Key.{Text, codes}

pub data Env : Type 0 where
  prod staging testnet regtest local local_liquid local_testnet : Env

pub data Network : Type 0 where
  net_mainnet net_testnet net_regtest net_local : Network

-- `elements::AddressParams`
pub record AddressParams : Type 0 where
  pub p2pkh_prefix : ℕ
  pub p2sh_prefix : ℕ
  pub blinded_prefix : ℕ
  pub bech_hrp : Text
  pub blech_hrp : Text

pub data BitcoinNetwork : Type 0 where
  bitcoin bitcoin_testnet bitcoin_regtest : BitcoinNetwork

pub record EnvData : Type 0 where
  pub host : Text
  pub port : ℕ
  pub use_tls : Bool
  pub name : Text
  pub mainnet : Bool
  pub development : Bool
  pub policy_asset : Text
  pub electum_network : Text
  pub electrum_url : Text
  pub electrum_tls : Bool
  pub asset_registry_url : Text
  pub tx_explorer_url : Text
  pub address_explorer_url : Text
  pub network : Network

abbrev pub env_prod : EnvData
env_prod = record {
  host = codes "api.sideswap.io";
  port = 443;
  use_tls = true;
  name = codes "prod";
  mainnet = true;
  development = false;
  policy_asset = codes "6f0279e9ed041c3d710a9f57d0c02928416460c4b722ae3457a11eec381c526d";
  electum_network = codes "liquid-electrum-mainnet";
  electrum_url = codes "blockstream.info:995";
  electrum_tls = true;
  asset_registry_url = codes "https://assets.blockstream.info";
  tx_explorer_url = codes "https://blockstream.info/liquid/tx/";
  address_explorer_url = codes "https://blockstream.info/address/";
  network = net_mainnet;
}

abbrev pub env_staging : EnvData
env_staging = record {
  host = codes "api-test.sideswap.io";
  port = 443;
  use_tls = true;
  name = codes "staging";
  mainnet = true;
  development = true;
  policy_asset = codes "6f0279e9ed041c3d710a9f57d0c02928416460c4b722ae3457a11eec381c526d";
  electum_network = codes "liquid-electrum-mainnet";
  electrum_url = codes "blockstream.info:995";
  electrum_tls = true;
  asset_registry_url = codes "https://assets.blockstream.info";
  tx_explorer_url = codes "https://blockstream.info/liquid/tx/";
  address_explorer_url = codes "https://blockstream.info/address/";
  network = net_mainnet;
}

abbrev pub env_testnet : EnvData
env_testnet = record {
  host = codes "api-testnet.sideswap.io";
  port = 443;
  use_tls = true;
  name = codes "testnet";
  mainnet = false;
  development = false;
  policy_asset = codes "144c654344aa716d6f3abcc1ca90e5641e4e2a7f633bc09fe3baf64585819a49";
  electum_network = codes "electrum-testnet-liquid";
  electrum_url = codes "blockstream.info:465";
  electrum_tls = true;
  asset_registry_url = codes "https://assets-testnet.blockstream.info";
  tx_explorer_url = codes "https://blockstream.info/liquidtestnet/liquidtestnet/tx/";
  address_explorer_url = codes "https://blockstream.info/liquidtestnet/address/";
  network = net_testnet;
}

abbrev pub env_regtest : EnvData
env_regtest = record {
  host = codes "api-regtest.sideswap.io";
  port = 443;
  use_tls = true;
  name = codes "regtest";
  mainnet = false;
  development = true;
  policy_asset = codes "2e16b12daf1244332a438e829ca7ce209195f8e1c54199770cd8b327710a8ab2";
  electum_network = codes "electrum-regtest-liquid";
  electrum_url = codes "api.sideswap.io:10402";
  electrum_tls = false;
  asset_registry_url = codes "https://staging.sideswap.io/assets";
  tx_explorer_url = codes "";
  address_explorer_url = codes "";
  network = net_regtest;
}

abbrev pub env_local : EnvData
env_local = record {
  host = codes "192.168.71.50";
  port = 4001;
  use_tls = false;
  name = codes "local";
  mainnet = false;
  development = true;
  policy_asset = codes "2684bbac0fa7ad544ec8eee43c35156346e5d641d24a4b9d5d8f183e3f2d8fb9";
  electum_network = codes "electrum-local-liquid";
  electrum_url = codes "192.168.71.50:51401";
  electrum_tls = false;
  asset_registry_url = codes "http://192.168.71.50/assets";
  tx_explorer_url = codes "";
  address_explorer_url = codes "";
  network = net_local;
}

abbrev pub env_local_liquid : EnvData
env_local_liquid = record {
  host = codes "192.168.71.50";
  port = 5001;
  use_tls = false;
  name = codes "local_liquid";
  mainnet = true;
  development = false;
  policy_asset = codes "6f0279e9ed041c3d710a9f57d0c02928416460c4b722ae3457a11eec381c526d";
  electum_network = codes "liquid-electrum-mainnet";
  electrum_url = codes "blockstream.info:995";
  electrum_tls = true;
  asset_registry_url = codes "https://assets.blockstream.info";
  tx_explorer_url = codes "https://blockstream.info/liquid/tx/";
  address_explorer_url = codes "https://blockstream.info/address/";
  network = net_mainnet;
}

abbrev pub env_local_testnet : EnvData
env_local_testnet = record {
  host = codes "192.168.71.50";
  port = 6001;
  use_tls = false;
  name = codes "local_testnet";
  mainnet = false;
  development = false;
  policy_asset = codes "144c654344aa716d6f3abcc1ca90e5641e4e2a7f633bc09fe3baf64585819a49";
  electum_network = codes "electrum-testnet-liquid";
  electrum_url = codes "blockstream.info:465";
  electrum_tls = true;
  asset_registry_url = codes "https://assets-testnet.blockstream.info";
  tx_explorer_url = codes "https://blockstream.info/liquidtestnet/liquidtestnet/tx/";
  address_explorer_url = codes "https://blockstream.info/liquidtestnet/address/";
  network = net_testnet;
}

unfoldable pub data_of : Env → EnvData
data_of prod = env_prod
data_of staging = env_staging
data_of testnet = env_testnet
data_of regtest = env_regtest
data_of local = env_local
data_of local_liquid = env_local_liquid
data_of local_testnet = env_local_testnet

abbrev pub liquid_testnet : AddressParams
liquid_testnet = record {
  p2pkh_prefix = 36;
  p2sh_prefix = 19;
  blinded_prefix = 23;
  bech_hrp = codes "tex";
  blech_hrp = codes "tlq";
}

-- The constants of `elements::AddressParams`, which are not in the repository.
pub record Elements : Type 0 where
  pub liquid_params : AddressParams
  pub liquid_testnet_params : AddressParams
  pub elements_params : AddressParams

unfoldable pub env_elements_params : Elements → Env → AddressParams
env_elements_params elements prod = elements.liquid_params
env_elements_params elements staging = elements.liquid_params
env_elements_params elements local_liquid = elements.liquid_params
env_elements_params elements testnet = liquid_testnet
env_elements_params elements local_testnet = liquid_testnet
env_elements_params elements regtest = elements.elements_params
env_elements_params elements local = elements.elements_params

-- `format!("{}://{}:{}", ..)`, with the digits of the port.
abbrev pub base_server_url : (ℕ → Text) → EnvData → Text
base_server_url to_string env_data =
    (if env_data.use_tls then codes "https" else codes "http")
    ++ codes "://"
    ++ env_data.host
    ++ codes ":"
    ++ to_string env_data.port

unfoldable pub network_elements_params : Elements → Network → AddressParams
network_elements_params elements net_mainnet = elements.liquid_params
network_elements_params elements net_testnet = elements.liquid_testnet_params
network_elements_params elements net_regtest = elements.elements_params
network_elements_params elements net_local = elements.elements_params

unfoldable pub bitcoin_network : Network → BitcoinNetwork
bitcoin_network net_mainnet = bitcoin
bitcoin_network net_testnet = bitcoin_testnet
bitcoin_network net_regtest = bitcoin_regtest
bitcoin_network net_local = bitcoin_regtest

unfoldable pub single_sig_account_path : Network → List ℕ
single_sig_account_path net_mainnet = 2_147_483_697 ∷ 2_147_485_424 ∷ 2_147_483_648 ∷ []
single_sig_account_path _ = 2_147_483_697 ∷ 2_147_483_649 ∷ 2_147_483_648 ∷ []

unfoldable pub usdt_asset_id : Network → Text
usdt_asset_id net_mainnet = codes "ce091c998b83c78bb71a632313ba3760f1763d9cfcffae02258ffa9865a37bd2"
usdt_asset_id net_testnet = codes "b612eb46313a2cd6ebabd8b7a8eed5696e29898b87a43bff41c94f51acef9d73"
usdt_asset_id net_regtest = codes "a0682b2b1493596f93cea5f4582df6a900b5e1a491d5ac39dea4bb39d0a45bbf"
usdt_asset_id net_local = codes "ac1775bb717c60a9a4adc3587bd166350e016938b1e34f4b8e2e490dfd03817a"

unfoldable pub eurx_asset_id : Network → Text
eurx_asset_id net_mainnet = codes "18729918ab4bca843656f08d4dd877bed6641fbd596a0a963abbf199cfeb3cec"
eurx_asset_id net_testnet = codes "58af36e1b529b42f3e4ccce812924380058cae18b2ad26c89805813a9db25980"
eurx_asset_id net_regtest = codes "6d15498e26ec311dc6e9962dd05f6e7024c7fe4989cc09d426822ea540f048a2"
eurx_asset_id net_local = codes "92e71c513e2d1b2e421200beb1dabb231c12b5d2c53438648e09859909c0f9b7"

unfoldable pub mex_asset_id : Network → Option Text
mex_asset_id net_mainnet =
    some (codes "26ac924263ba547b706251635550a8649545ee5c074fe5db8d7140557baaf32e")
mex_asset_id net_testnet =
    some (codes "485ff8a902ad063bd8886ef8cfc0d22a068d14dcbe6ae06cf3f904dc581fbd2b")
mex_asset_id net_regtest = none
mex_asset_id net_local = none
