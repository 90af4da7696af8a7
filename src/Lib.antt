-- ===== src/Lib.antt =====
-- AnuDB, an embedded document database over RocksDB. A Database holds a StorageEngine and Collection
-- objects; a Collection stores Documents in a column family of its name, as MessagePack, and keeps one
-- more family `<collection>__index__<field>` for each index, with keys `<value>#<identifier>`.
--
-- The parts, by file and source (paths from the repository's root):
--   Status          src/Status.h: codes and messages.
--   Keys            src/Collection.cpp encodeIntKey, decodeIntKey, encodeDoubleKey, decodeDoubleKey and
--                   src/storage_engine/StorageEngine.h DecodeIntKey.
--   Engine          src/storage_engine/StorageEngine.cpp: the record Engine has db_, columnFamilies_ and
--                   ownedHandles_; the operations are functions of it. Engine/Names reads the names of
--                   the families, Engine/Scan has the four fetches and getAll.
--   Engine/Export   src/storage_engine/StorageEngine.cpp exportAllToJson, over what the file system does.
--   Document        src/Document.cpp: applyUpdate (Document/Update, Document/Paths), MessagePack.
--   Cursor          src/Cursor.cpp: an iterator with its flag.
--   Collection      src/Collection.cpp: Documents (create, read, delete, update), Indexes (createIndex,
--                   readAllDocuments, the destructor), Find (findDocument), Import, Exporting (the
--                   export in a thread). Documents/Edits and Find/Queries have what updates and
--                   queries mean on a map of documents, without the code.
--   Database        src/Database.cpp: the engine with the names that have a collection object.
--   Mqtt            mqtt/AnuDBMqttClient.cpp. Session has what requests change: the database, collMap_ with
--                   its pointers, the response and what was sent; Handlers and Handlers/Collections have
--                   the handler of each command, Requests has handle_request, Worker client_cb, Client
--                   start and stop, Client/System the steps of the client with its workers, Sending
--                   send_response, Arguments the arguments of main(), FileLoader loadfile.
--   Demo            src/main.cpp, the demonstration program, over the database: Products and Filling make
--                   its documents and indexes, Queries and Updates are the middle parts of main(), and
--                   Main is main() with the rest.
--   Base, Exec      texts, lists, maps and the monad of functions that may throw, crash or run out of
--                   fuel.
--   Tests           instances of the parameters, and each theorem at a concrete input.
--
-- RocksDB and the JSON library are parameters: the records RocksDb and Json hold their calls, and
-- RocksDb/Contract and Json/Contract what their documentation promises of them: a family is a table
-- sorted by the bytewise comparator, an iterator walks the table as it was when it was made, a write
-- with an OK status changes one entry of one table, and a JSON object is a map that MessagePack keeps up
-- to an equal value. The families are opened with default options, so no prefix extractor limits Seek().
--
-- A loop over an iterator takes fuel, and one more than the entries of the table is enough; a run out of
-- fuel is a result of its own. The loops of applyUpdate, of imports and of queries are recursions over
-- lists. A C++ exception is a result, and so is what C++ leaves undefined: a null pointer, an end
-- iterator, a scan past the end of a key. Signed overflow in encodeIntKey is the exception: the sum is
-- taken modulo 2 ^ 64, as compilers make it. Functions under a mutex are one step. The unordered sets and
-- maps of the code are kept in an order of their own, which no theorem reads. Time and rand() are
-- arguments, and so is the text of an imported file. Output to the console is left out, but for the
-- demonstration program, whose state has the texts of std::cout and std::cerr; its literals of doubles
-- are 64-bit patterns, and its import reads the file that its export has left.
--
-- The MQTT client takes requests by nng, whose results are arguments. A pointer of collMap_ is live,
-- dangling or null, and a call through one that is not live crashes. handle_request holds a mutex, so a
-- request is one step; a response that is sent while it runs is recorded, and the loop that sends one has
-- fuel for its four rounds. The loop of loadfile takes fuel, and one more than the bytes of the file is
-- enough. stop() takes no mutex, and is one step here, with no request while it runs. The thread of an
-- export runs as one step, over the engine that the collection has then: as soon as it is started, or
-- when it is waited for, as an argument says.
--
-- Not modelled: a stop of the client while a request runs, and the freeing of its certificates; the
-- options that tune RocksDB, which no result depends on; connect_cb and
-- init_dialer_tls, which only call nng; the loop of the client's main() that waits for a signal; what
-- the destructors of the demonstration program's objects do when its main() has returned; the examples,
-- which call the database and print.
pub mod Base
pub mod Status
pub mod Exec
pub mod Keys
pub mod Json
pub mod RocksDb
pub mod Engine
pub mod Document
pub mod Cursor
pub mod Collection
pub mod Database
pub mod Mqtt
pub mod Demo
mod Tests
