-- ===== src/Transactions/Gas/Bounds.antt =====
-- The estimates against the sums that they stand for.
use mx_sdk_cpp.Common.{ℕ, ◌+◌, ◌*◌, ◌^◌, ◌≤◌, ◌<◌, ◌≡◌, arith}
use mx_sdk_cpp.Transactions.Gas.{
  GasEstimator, for_egld_transfer, for_esdt_transfer, for_esdt_nft_transfer,
  for_multi_esdt_nft_transfer,
}

module _ (g : GasEstimator) (data_length : ℕ) where
  abbrev data_gas : ℕ
  data_gas = g.network_config.gas_per_data_byte * data_length

  abbrev min_gas : ℕ
  min_gas = g.network_config.min_gas_limit

  -- Where the minimal gas limit leaves room for the cost of a transfer in 32 bits and the sum fits
  -- in 64 bits, each estimate is the sum of its parts.
  pub estimates_exact :
      (num_transfers : ℕ)
      → min_gas + 200000 < 2 ^ 32
      → min_gas + data_gas + 1000000 * num_transfers + 1000000 < 2 ^ 64
      → (for_egld_transfer g data_length ≡ min_gas + data_gas)
        × (for_esdt_transfer g data_length ≡ min_gas + data_gas + 300000)
        × (for_esdt_nft_transfer g data_length ≡ min_gas + data_gas + 1000000)
        × (for_multi_esdt_nft_transfer g data_length num_transfers
            ≡ min_gas + data_gas + 1000000 * num_transfers)
  unfolding for_egld_transfer for_esdt_transfer for_esdt_nft_transfer for_multi_esdt_nft_transfer
  estimates_exact num_transfers h k = (omega arith, omega arith, omega arith, omega arith)

  -- Where a minimal gas limit of 32 bits is within 200000 of 2 ^ 32 and the gas for the data
  -- leaves room in 64 bits, the estimates of both single token transfers are below the estimate of
  -- a transfer without tokens.
  pub esdt_estimates_wrap :
      min_gas < 2 ^ 32
      → 2 ^ 32 ≤ min_gas + 200000
      → data_gas + 2 ^ 33 < 2 ^ 64
      → (for_esdt_transfer g data_length < for_egld_transfer g data_length)
        × (for_esdt_nft_transfer g data_length < for_egld_transfer g data_length)
  unfolding for_egld_transfer for_esdt_transfer for_esdt_nft_transfer
  esdt_estimates_wrap h k l = (omega arith, omega arith)
