-- ===== src/Transactions/Gas.antt =====
-- src/transaction/gas_estimator.cpp, include/transaction/gas_estimator.h,
-- src/provider/data/networkconfig.cpp and include/provider/data/networkconfig.h. The minimal gas limit
-- is a uint32_t, so the sum of it and of an `int` constant wraps at 2 ^ 32; the other sums and products
-- are those of uint64_t.
pub mod Bounds
use mx_sdk_cpp.Common.{ℕ, ◌+◌, ◌*◌, ◌%◌, ◌^◌, Bool, ◌&&◌, Bytes, bytes_eq, ◌==◌, codes, not}

pub record NetworkConfig : Type 0 where
  pub chain_id : Bytes
  pub gas_per_data_byte : ℕ
  pub min_gas_limit : ℕ
  pub min_gas_price : ℕ

-- operator==
pub equal : NetworkConfig → NetworkConfig → Bool
equal l r =
    bytes_eq l.chain_id r.chain_id
    && ((l.gas_per_data_byte == r.gas_per_data_byte)
        && ((l.min_gas_limit == r.min_gas_limit) && (l.min_gas_price == r.min_gas_price)))

-- operator!=
pub differ : NetworkConfig → NetworkConfig → Bool
unfolding equal
differ l r = not (equal l r)

abbrev pub default_mainnet : NetworkConfig
default_mainnet = record {
  chain_id = codes "1";
  gas_per_data_byte = 1500;
  min_gas_limit = 50000;
  min_gas_price = 1000000000;
}

abbrev pub default_testnet : NetworkConfig
default_testnet = record {
  chain_id = codes "T";
  gas_per_data_byte = 1500;
  min_gas_limit = 50000;
  min_gas_price = 1000000000;
}

abbrev pub additional_gas_for_esdt_transfer : ℕ
additional_gas_for_esdt_transfer = 100000

abbrev pub additional_gas_for_esdt_nft_transfer : ℕ
additional_gas_for_esdt_nft_transfer = 800000

abbrev pub gas_cost_esdt_transfer : ℕ
gas_cost_esdt_transfer = 200000

abbrev pub gas_cost_esdt_nft_transfer : ℕ
gas_cost_esdt_nft_transfer = 200000

abbrev pub gas_cost_esdt_nft_multi_transfer : ℕ
gas_cost_esdt_nft_multi_transfer = 200000

abbrev u32 : ℕ → ℕ
u32 n = n % 2 ^ 32

abbrev u64 : ℕ → ℕ
u64 n = n % 2 ^ 64

-- m_networkConfig
pub record GasEstimator : Type 0 where
  pub network_config : NetworkConfig

module _ (g : GasEstimator) where
  open g use {network_config}

  pub for_egld_transfer : ℕ → ℕ
  for_egld_transfer data_length =
      u64 (network_config.min_gas_limit + u64 (network_config.gas_per_data_byte * data_length))

  unfoldable pub for_esdt_transfer : ℕ → ℕ
  for_esdt_transfer data_length = u64 (
      u64 (
        u32 (network_config.min_gas_limit + gas_cost_esdt_transfer)
        + u64 (network_config.gas_per_data_byte * data_length))
      + additional_gas_for_esdt_transfer)

  pub for_esdt_nft_transfer : ℕ → ℕ
  for_esdt_nft_transfer data_length = u64 (
      u64 (
        u32 (network_config.min_gas_limit + gas_cost_esdt_nft_transfer)
        + u64 (network_config.gas_per_data_byte * data_length))
      + additional_gas_for_esdt_nft_transfer)

  pub for_multi_esdt_nft_transfer : ℕ → ℕ → ℕ
  for_multi_esdt_nft_transfer data_length num_transfers = u64 (
      u64 (
        network_config.min_gas_limit
        + u64 (
            (gas_cost_esdt_nft_multi_transfer + additional_gas_for_esdt_nft_transfer)
            * num_transfers))
      + u64 (network_config.gas_per_data_byte * data_length))
