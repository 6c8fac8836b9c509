-- ===== src/Lib.antt =====
-- Casper JavaScript SDK: the byte and JSON formats of types, numbers, strings, values, keys and the
-- parts of transactions and deploys, their making, signing and validation, the blocks, and what the
-- clients send and are told; from the sources in src/types, src/rpc and src/sse.
--
-- The program's parts. A transaction is a tree of tables. Each part of it (when it may run, what it
-- calls, ...) writes its fields into a `CalltableSerialization`, whose bytes are then a field of the
-- table of the whole. The fields are numbers, strings and hashes, written by ByteConverters.ts and
-- the CLValue classes. A CLValue carries its type, which has bytes and JSON of its own, and may be a
-- key of global state or be made of other values; the arguments of a transaction are named CLValues,
-- each written with its type. A deploy, the older form of a transaction, is hashed and signed over
-- its bytes. A builder gathers the fields of either, and a `Transaction` holds the one that it was
-- made from. The RPC client sends it, asks until it was executed, or is told by the event stream.
--
-- Which file models what:
--   Prelude           names of the library, tests, lists, errors, integers, words of bytes, and the
--                     outcome of code that may throw: `Result`, with one error for each `throw`
--   Ethers            the parameter for @ethersproject/bignumber and @ethersproject/bytes: the
--                     operations that the sources call, with their documented laws; Ethers.Model is
--                     an instance that runs
--   ByteConverters    src/types/ByteConverters.ts: toBytesNumber and its instances, toBytesArrayU8,
--                     parseU16, parseU32, fromBytesU64
--   Numeric           src/types/clvalue/Numeric and UintBig.ts: fromBytes of the numeric CLValues
--   ClType            src/types/clvalue/cltype: the classes of types and toBytes; ClType.Parser is
--                     matchBytesToCLType and ClType.Json is toJSON and fromInterface
--   Calltable         src/types/CalltableSerialization.ts, every operation
--   Text              src/types/clvalue/String.ts, and toBytesString
--   Hash              src/types/key/Hash.ts: the constructor and fromBytes
--   Transaction       Transaction.Scheduling is src/types/TransactionScheduling.ts,
--                     Transaction.EntryPoint is src/types/TransactionEntryPoint.ts,
--                     Transaction.Target is src/types/TransactionTarget.ts,
--                     Transaction.PricingMode is src/types/PricingMode.ts, and Transaction.Payload
--                     is src/types/TransactionV1Payload.ts and InitiatorAddr.ts; Transaction.V1 and
--                     Transaction.Origin are the classes of src/types/Transaction.ts
--   Key               src/types/key: Key.ts, URef.ts (Key.Reference), EntityAddr.ts, MessageAddr.ts,
--                     NewNamedKeyAddr.ts and EntryPointAddr.ts (Key.Entity), ByteCode.ts,
--                     BlockGlobalAddr.ts, BalanceHoldAddr.ts and Era.ts (Key.Addresses), BidAddr.ts
--                     (Key.Bid): bytes, both ways
--   ClValue           src/types/clvalue: the values and their bytes; ClValue.Parser is Parser.ts with
--                     the readers of the classes, ClValue.Texts is toString, and ClValue.Keypair is
--                     src/types/keypair/PublicKey.ts
--   Args              src/types/Args.ts: named arguments and their bytes; Args.Buffered is
--                     toBytesWithNamedArg, and ByteConverters.Buffer the buffer that it writes into
--   Deploy            src/types/Deploy.ts: header, makeDeploy, validate and sign; Deploy.Item is
--                     src/types/ExecutableDeployItem.ts. The hash function and the check of a
--                     signature are the parameter `Deploy.Crypto`
--   Hex               hexadecimal texts: src/types/HexBytes.ts, key/Contract.ts and those of Hash.ts
--   Builder           src/types/TransactionBuilder.ts: the abstract class; Builder.Transfer,
--                     Builder.Auction and Builder.Call are its subclasses
--   EraEnd            src/types/EraEnd.ts: the end of an era, in both versions
--   Block             src/types/Block.ts: blocks of both versions and the block made from either;
--                     Block.Header is the same for headers, Block.Json the transactions in JSON
--   Conversions       src/types/Conversions.ts: amounts in motes and in CSPR
--   Rpc               src/rpc/request.ts and rpc_client.ts: what each method sends, with the outcomes
--                     of the node as a parameter; Rpc.Confirmation is waitForConfirmation
--   Sse               src/sse/client.ts and event_parser.ts: subscriptions and what they are told
--   Examples          runs at concrete inputs
--
-- How state and operations correspond. A function of the sources in camelCase is a definition in
-- snake_case (`matchBytesToCLType` is `match_bytes_to_cl_type`). A byte array is the list of its
-- bytes. A BigNumber is the integer that it stands for; a JavaScript number becomes one by
-- `from_number`, which refuses 2 ^ 53 - 1 and more, as BigNumber.from does. A method that changes its object, such as
-- addField, takes the object and returns the changed one. `fromBytes` returns the value and the
-- bytes behind it. A JavaScript string is the list of its code points, or a string of the library
-- where it is a name that is only compared.
--
-- Bounds and fuel. matchBytesToCLType recurses on what follows a tag; the model calls it with the
-- number of bytes and one more as fuel, which is enough since each call takes one byte at least. The
-- loops of fromBytes of a table, of lists, of maps and of arguments are recursion on the number that
-- the header gives. fromBytesByType is recursion on the type. The loop of expandBuffer takes the
-- required size as fuel, which is enough for a buffer that is not empty. The loop of
-- waitForConfirmation takes a round for each millisecond of the timeout, and one more,
-- which is enough since it sleeps 400 milliseconds at least in each round, and a timer is not early. The
-- digits of a number take the number and one as fuel, which is enough since each digit divides it.
--
-- Not modelled. The algorithms of keys are left out, and so are the texts of keys and the JSON of
-- values; the handlers of HTTP, the event source, and the conversions of answers between versions,
-- but those of blocks; the classes that are only declarations for typedjson have no logic. The
-- decoder of UTF-8, `Buffer.toString`, is a parameter (`Text.Decoder`), of which the model only knows
-- that it reads UTF-8 back. The reader of a map compares the texts of its keys by the interface
-- `ClValue.Parser.KeyTexts`, whose law is that the text of a large number is that of its value;
-- ClValue.Texts has toString of the values and fills the interface with it, where the prefixed texts
-- of keys and `TextDecoder` are parameters. NamedArg.fromBytes and Args.fromBytes look at the buffer of
-- their bytes without the offset in it; the model has them on arrays that fill their buffers.
-- getSimpleTypeByName is modelled on the names of its table, without those that an object inherits.
pub mod Prelude
pub mod Ethers
pub mod ByteConverters
pub mod Numeric
pub mod ClType
pub mod Calltable
pub mod Text
pub mod Hash
pub mod Hex
pub mod Transaction
pub mod Key
pub mod ClValue
pub mod Args
pub mod Deploy
pub mod Builder
pub mod EraEnd
pub mod Block
pub mod Conversions
pub mod Rpc
pub mod Sse
pub mod Examples
