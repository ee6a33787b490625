-- ===== src/Wrappers.antt =====
-- src/wrappers: the layers over the cryptographic and the JSON library.
pub mod Crypto
pub mod OrderedJson
pub mod JsonPaths
pub mod Http
