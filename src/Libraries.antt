-- ===== src/Libraries.antt =====
-- What the program takes from code outside its own sources, as interfaces: the operations that it
-- calls, and apart from them the laws that it relies on.
pub mod Integers
pub mod Bech32
pub mod Json
pub mod JsonTree
pub mod Crypto
pub mod Http
pub mod Toml
pub mod OptionParser
