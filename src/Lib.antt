-- ===== src/Lib.antt =====
-- The SDK: what it takes to build, encode, sign and read a transaction of the network, to read a key
-- from a file, to ask the network over its proxy, and to do this from the command line.
--
-- The parts, from the bottom up, and the file of each:
-- * Utils/Base64 (src/utils/base64.cpp), Utils/Hex (src/utils/hex.cpp), Utils/ConvertBits
--   (src/utils/bits.cpp): the encodings. `int` and `unsigned int` keep their 32 bits, written out.
-- * BigUInt (src/internal/biguint.cpp): natural numbers as decimal text.
-- * Account/Address (src/account/address.cpp): a public key and its bech32 text.
--   Account/State (src/account/account.cpp): an account with its nonce.
-- * SmartContracts (src/smartcontracts/): arguments and calls, joined with `@` into a data field.
-- * Transactions/TokenPayment (src/transaction/token_payment.cpp): amounts with decimals.
-- * Transactions/Payload (src/transaction/payload_builder.cpp, src/transaction/esdt.cpp): the data
--   fields of token transfers and of an issue.
-- * Transactions/Gas (src/transaction/gas_estimator.cpp, src/provider/data/networkconfig.cpp).
-- * Wrappers/OrderedJson (src/wrappers/jsonwrapper.h), Wrappers/Crypto
--   (src/wrappers/cryptosignwrapper.cpp).
-- * Transactions/Signer (src/transaction/signer.cpp, src/transaction/messagesigner.cpp).
-- * Transactions/Transaction (src/transaction/transaction.cpp): the state; Serialize, Deserialize and
--   Sign are its members.
-- * Transactions/Builders (src/transaction/transaction_builders.cpp,
--   src/transaction/itransaction_builder.cpp) and Builders/Factory
--   (src/transaction/transaction_factory.cpp): a builder asks the payload builder for the data, the gas
--   estimator for the limit, and a signer for the signature.
-- * FileHandler (src/filehandler/): the checks of a path and of parameters, FileHandler/Pem
--   (pemreader.cpp) and FileHandler/KeyFile (keyfilereader.cpp), which give a seed and an address.
-- * Provider (src/provider/proxyprovider.cpp), Provider/Response (src/provider/apiresponse.h),
--   Provider/Status (src/provider/data/transactionstatus.cpp), Provider/BalanceMap (the map of
--   `getAllESDTBalances`), with Wrappers/Http (src/wrappers/httpwrapper.h) and Wrappers/JsonPaths
--   (what the readers ask of a parsed JSON value): a request, the checks of its answer, and what is
--   read of its data.
-- * Cli (cli/): Cli/Options and Cli/ArgHandler read the command line, Cli/Input and Cli/SecretKey the
--   arguments of a request, Cli/Config the configuration file, Cli/Requests asks the network and the
--   builders, and Cli/Handlers writes the result to a file or sends it.
--
-- A class is a record of its members, a member function a function with the object as an argument and
-- the changed object in its result. A function that throws returns a `Result`, with the class of the
-- exception and its message. A text and a byte string are the list of the values of their bytes. A
-- pointer that may be null is an `Option`. `deserialize` assigns member after member, so it returns the
-- transaction beside the outcome. C++ names are written in snake_case.
--
-- The file system is a function from a path to the content, where there is a file, and a handler that
-- writes returns the changed function; a parameter says which paths open for writing. The network is a function from a request to an answer. The
-- command line's code can also dereference a null pointer: its outcome has a third case for this.
-- Text files are cut into lines as `std::getline` does, and `std::map` is a list in the order of its
-- keys, in which `emplace` keeps an entry that is there.
--
-- Third-party code is a parameter: Libraries/Integers (external/bigint), Libraries/Bech32
-- (external/bech32), Libraries/Json and Libraries/JsonTree (external/json), Libraries/Crypto
-- (libsodium, external/keccak, external/aes_128_ctr), Libraries/Http
-- (external/http), Libraries/Toml (external/toml), Libraries/OptionParser (external/cliparser). Each is
-- a record of functions, and where theorems rely on it a second record states what the documentation
-- promises of them. Tests has a concrete instance of each with its laws proved.
--
-- Loops over a text or a list are structural recursion. The loops that take bits out of a word run on
-- fuel, one step for each bit at hand, and a step takes more than one bit; the padding of base 64
-- takes three steps at most and has four.
--
-- Not modelled: the libraries that are copied under external/; `getCanonicalRootPath`, which asks the
-- operating system for the program's path (the configuration file's path is a parameter here); the
-- warning that is printed of a missing configuration; the build files; the examples and the tests.
pub mod Common
pub mod Utils
pub mod Libraries
pub mod BigUInt
pub mod Account
pub mod Wrappers
pub mod SmartContracts
pub mod Transactions
pub mod FileHandler
pub mod Provider
pub mod Cli
pub mod Tests
