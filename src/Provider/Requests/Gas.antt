-- ===== src/Provider/Requests/Gas.antt =====
-- What `ProxyProvider::getNetworkConfig` reads of the data of a successful answer.
use mx_sdk_cpp.Common.{◌<◌, ◌^◌, ◌≡◌, [], ◌∷◌, codes, some, ok}
use mx_sdk_cpp.Libraries.JsonTree.{JsonTreeLib, JsonTreeLaws, Tree, number, text}
use mx_sdk_cpp.Libraries.Http.{HttpLib}
use mx_sdk_cpp.Wrappers.Http
use mx_sdk_cpp.Wrappers.JsonPaths.{
  lookup_path, text_at-lookup_path, number_at-lookup_path, number64_at-lookup_path,
}
use mx_sdk_cpp.Transactions.Gas.{NetworkConfig}
use mx_sdk_cpp.Provider.{ProxyProvider, get_network_config}
use mx_sdk_cpp.Provider.Requests.{IsAnswer, get_pay_load-IsAnswer, require_outer, require_in-found}

module _ (json : JsonTreeLib) (laws : JsonTreeLaws json) (http : HttpLib) (p : ProxyProvider) where
  pub get_network_config-IsAnswer :
      (d : Tree) (c : NetworkConfig)
      → IsAnswer json laws (Http.get http p.url (codes "/network/config")) d
      → lookup_path d (codes "config" ∷ codes "erd_chain_id" ∷ []) ≡ some (text c.chain_id)
      → lookup_path d (codes "config" ∷ codes "erd_gas_per_data_byte" ∷ [])
        ≡ some (number c.gas_per_data_byte)
      → lookup_path d (codes "config" ∷ codes "erd_min_gas_limit" ∷ [])
        ≡ some (number c.min_gas_limit)
      → lookup_path d (codes "config" ∷ codes "erd_min_gas_price" ∷ [])
        ≡ some (number c.min_gas_price)
      → c.gas_per_data_byte < 2 ^ 32
      → c.min_gas_limit < 2 ^ 32
      → c.min_gas_price < 2 ^ 64
      → get_network_config json http p ≡ ok c
  unfolding get_network_config
  get_network_config-IsAnswer d c a has1 has2 has3 has4 small2 small3 small4 =
      let (j, reached, viewed) = get_pay_load-IsAnswer json laws _ d a in
      let h1 : lookup_path (laws.view j) (codes "config" ∷ codes "erd_chain_id" ∷ [])
          ≡ some (text c.chain_id) =
        rw viewed has1 in
      let h2 : lookup_path (laws.view j) (codes "config" ∷ codes "erd_gas_per_data_byte" ∷ [])
          ≡ some (number c.gas_per_data_byte) =
        rw viewed has2 in
      let h3 : lookup_path (laws.view j) (codes "config" ∷ codes "erd_min_gas_limit" ∷ [])
          ≡ some (number c.min_gas_limit) =
        rw viewed has3 in
      let h4 : lookup_path (laws.view j) (codes "config" ∷ codes "erd_min_gas_price" ∷ [])
          ≡ some (number c.min_gas_price) =
        rw viewed has4 in
      rw (
        reached,
        require_outer json laws j (codes "config") (codes "erd_chain_id") _ h1,
        require_in-found json laws j (codes "config") (codes "erd_chain_id") _ h1,
        require_in-found json laws j (codes "config") (codes "erd_gas_per_data_byte") _ h2,
        require_in-found json laws j (codes "config") (codes "erd_min_gas_limit") _ h3,
        require_in-found json laws j (codes "config") (codes "erd_min_gas_price") _ h4,
        text_at-lookup_path json laws j (codes "config" ∷ codes "erd_chain_id" ∷ []) c.chain_id h1,
        number_at-lookup_path json laws j (codes "config" ∷ codes "erd_gas_per_data_byte" ∷ [])
            c.gas_per_data_byte small2 h2,
        number_at-lookup_path json laws j (codes "config" ∷ codes "erd_min_gas_limit" ∷ [])
            c.min_gas_limit small3 h3,
        number64_at-lookup_path json laws j (codes "config" ∷ codes "erd_min_gas_price" ∷ [])
            c.min_gas_price small4 h4,
      )
