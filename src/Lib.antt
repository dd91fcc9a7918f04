-- ===== src/Lib.antt =====
-- mnemos: a model of a Redis-compatible server in C++, with the theorems that make its parts
-- correct.
--
-- The server reads RESP requests from a socket (src/net/resp.cpp), looks the command up and runs it
-- on one of its numbered databases (src/server/db.cpp). A database is a hash table from keys to
-- values and another one from keys to deadlines (src/core/dict.h); a value is a string in one of
-- three encodings or a collection (src/core/object.cpp, src/core/encoding.cpp), and a set of
-- integers is a sorted array (src/core/intset.cpp). Small collections are kept in a listpack, one
-- buffer of encoded entries (src/core/listpack.cpp). The handlers of the string commands
-- (src/server/commands/string_commands.cpp) look keys up in the database, change it, count the
-- changes and append a reply; KEYS, SCAN and PSUBSCRIBE match names by the glob matcher of
-- src/core/strings.cpp. Clients also subscribe to channels, whose
-- subscribers the server keeps in maps (src/server/pubsub.cpp).
--
-- Which file models which part:
--   Prelude      shared names, lists measured by native numbers, signed integers, decimal text as
--                `std::to_string` writes it, byte strings
--   Core/Encoding   `stringToInt64` of src/core/encoding.cpp
--   Core/Object     the string arm of `Value` of src/core/object.cpp: `makeString`, `stringValue`,
--                   `asInt`, `makeMutable`, `appendString`, `stringLength`
--   Core/Dict       `Dict` of src/core/dict.h: the table with incremental rehashing. Links has one
--                   chain and Buckets one table; Valid has the invariant and the map that a state
--                   stands for; Random has `randomEntry`, with what the generator draws as a
--                   parameter, and Scan the cursor of `scan`
--   Core/IntSet     `IntSet` of src/core/intset.cpp with its serialisation
--   Core/Listpack   `Listpack` of src/core/listpack.cpp: the codec of one entry; Buffer has the
--                   header and the walks, Edits the operations that change the buffer and `fromBytes`,
--                   Layout what a buffer looks like, Entry and Backlen the codec's round trips,
--                   Reads, Search, Writes, Erase and Places each operation on a list of entries,
--                   Accepts `fromBytes`, and Strings the listpack as a list of strings
--   Core/Glob       `globMatch` of src/core/strings.cpp: Language says what a unit of a pattern means,
--                   Matching what a pattern matches; Pieces, Classes and OneByte have the class loop
--                   and the other branches for one byte against that, Units what they leave of the
--                   pattern, Loop the loop with its backtracking, Plain patterns without a special byte
--   Net/Resp        src/net/resp.cpp without the parser of replies: Text has the helpers on lines and
--                   numbers, SplitArgs `splitArgs` as a state machine, Request `RequestParser`
--                   and `encodeCommand`, Reply `ReplyWriter`
--   Server/Db       `Database` of src/server/db.cpp, over two dictionaries: Lookup has the lazy
--                   expiry, Methods the writes, Expiry the active cycle
--   Server/Notify   the event classes of src/server/notify.cpp
--   Server/PubSub   `PubSub` of src/server/pubsub.cpp
--   Server/Transactions   MULTI, EXEC, DISCARD, WATCH and UNWATCH of
--                   src/server/commands/transaction_commands.cpp over a server state, with the
--                   functions of src/server/server.cpp that they call: Watches has the index of the
--                   watchers, Signals what a change of a key reaches, Exec the end of a transaction,
--                   Sessions SELECT and RESET of src/server/commands/connection.cpp, Reachable the
--                   steps of a server. The handlers of the queued commands are a parameter
--   Server/Command  the context of a command handler, and the handlers. Those of
--                   src/server/commands/string_commands.cpp: Options has the options of SET and GETEX,
--                   Strings, Numbers, Many and Ranges the rest; Increment, Counters, Writing, Extend,
--                   Bounds and Deadlines are about them. Those of src/server/commands/keyspace_commands.cpp:
--                   Keyspace has DEL, EXISTS, TYPE, TOUCH, KEYS and RENAME, Expiring the commands on
--                   deadlines; Renames, Lifetimes and Expirations are about them. Keys has what a
--                   lookup finds
--   Server/Dispatch `dispatch` of src/server/server.cpp with the lookup of
--                   src/server/command_table.cpp; Queueing has what a client sends inside MULTI
--   Kafka/Wire      the reader and the writer of src/kafka/wire.cpp, which the Kafka front end uses
--   Tests           runs on concrete inputs
--
-- Correspondence. A method that changes its object is a function that returns the new object beside
-- the result; a pointer that a search returns is the optional value, and a write through it is a
-- write at the key. A byte string is the list of its bytes. Unsigned words keep their wrap-around
-- (`hash`, `append_le`); int64 values are integers with a range where a theorem needs one, and a sum
-- that the code does not test keeps the wrap-around of the hardware (`wrap_i64`). Sizes and
-- indices are numbers without a bound. A handler that ends in an exception, which nothing in the
-- server catches, is `none`. A char is signed. The callbacks of a database are the list of their calls.
-- A `std::set<int>` is an ascending list and a map the list of its entries.
--
-- Fuel. The digit loops of `decimal` and `stringLength` take the number itself, as each round
-- divides by ten. `next_power_of_two n` takes n rounds, as each doubles. `split_args` takes a number
-- of rounds computed from the line; it answers `none` where these are not enough, and the theorems
-- on it say when that is so and that then no number is enough. A zigzag number has at most ten
-- groups of seven bits, for both directions. The walks over a listpack take the length of the buffer,
-- as an entry has at least two bytes; the class loop of the glob matcher takes what is left of the
-- pattern, and its main loop (length of the target + 1) * (length of the pattern + 1) rounds, which
-- the theorem on it shows to be enough. The other loops follow a list, a
-- count or the iteration limit of the code.
--
-- Not modelled: sockets, files, processes and the event loop; memory use and capacities; the four
-- collections behind `Value`, skip lists and floating point text; the parser of replies; INCRBYFLOAT,
-- SCAN, RANDOMKEY, COPY, the command handlers on other types than strings, the delivery of
-- messages and notifications, and persistence;
-- the records, the log and the broker of the Kafka front end, the MCP front end and the client. The
-- order in which an unordered map is walked is not that of its list in the model.
pub mod Core
pub mod Kafka
pub mod Net
pub mod Prelude
pub mod Server
pub mod Tests
