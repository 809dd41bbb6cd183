-- ===== src/Lib.antt =====
-- A verification library for the Rust driver of MongoDB in mongodb-cwal-rs-master: its core logic, translated from
-- the source into functions and proved correct, with no input or output.
--
-- The parts of the program and how they interact. A client keeps a topology: the servers that it knows of, each with a
-- description that a monitor updates from the server's isMaster answers, and with a pool of connections. A monitor's
-- update of a description is followed by an update of the topology, which adds and removes servers and decides what
-- kind of topology this is. An operation on a collection selects a server by its read preference (or the primary for a
-- write), takes a connection from that server's pool, sends a message of the wire protocol and reads the reply. A bulk
-- write sorts its requests into batches, sends one command for each and collects the results and the errors.
--
-- Which file models which part:
--   Pool        pool.rs. `Pool/Defs` has the pool's state and each operation under its lock (`acquire_stream` is one
--               round of the loop for each time that the thread runs), `Pool/System` the threads that use one pool: the
--               streams they hold, how many are blocked and how many were woken. An instant is a number of
--               nanoseconds.
--   Connstring  connstring.rs: `Connstring/Host` and `Data` are hosts and what a connection string is parsed into, `Find` the
--               operations of `str` that the parser uses, `Options` and `Parse` the parser, `Print` and `Pairs` the texts that are
--               put together from parts. A panic is `none`. The lookup of service records is a parameter.
--   Topology    `Topology/Server` is topology/server.rs with the isMaster result of topology/monitor.rs, `Answer` the parsing of
--               that result and `Monitor` the updates of a monitor; `State` and `Update` are topology/mod.rs, the updates of
--               a topology; `Selection` and the modules below it are server selection there, with the read modes of
--               common.rs; `Handle` is the topology that a client holds, with the loop that retries a selection. A
--               description is shared between a monitor and the topology, so it is a cell of a heap. A hash map is the list
--               of its entries, in any order.
--   Bson        the values of the bson crate, as far as the source takes them apart.
--   Coll        `Coll/Models` is coll/batch.rs and the batching in coll/mod.rs, `Results` is coll/error.rs, `Writes`,
--               `Bulk` and `Single` are the writes of coll/mod.rs with coll/results.rs. The server and the maker of object ids are
--               parameters, functions of a state of the outside world.
--   Wire        wire_protocol: `Wire/Header` is header.rs, `Wire/Size` and `Wire/Message` are operations.rs: the sizes of
--               documents, the requests and their writing; `Wire/Reply` is the reading of replies there. The
--               byteorder, bitflags and bson crates are parameters.
--   Cursor      cursor.rs: `Cursor/Defs` has the buffer of a cursor and the reading from it. A round trip to the server
--               is a parameter, a function of a state of the outside world.
--   Gridfs      gridfs/file.rs: `Gridfs/Gfs` is a file's document, `File` an open file and the threads that insert its
--               chunks, `Write`, `Close` and `Read` the operations on it. What the threads do is a schedule, a list of
--               the threads that end in each wait for the condition variable, each with what `insert_one` gave it.
--   Auth        auth.rs: `Auth/Defs` has each message of the exchange and `auth` as a whole, `Bytes` the operators on bytes.
--               The cryptographic crates, `scan_fmt!`, the maker of nonces and a query's answer are parameters.
--   Prelude     lists, texts as bytes, and integers, shared by all.
--   Error       the errors of error.rs that the modelled code makes, and `Result`.
-- The paths are below mongodb-cwal-rs-master/src. `Examples` in each part runs the definitions and applies the theorems to
-- concrete values.
--
-- Bounds and fuel. Machine integers are numbers with their wrap-around written out where the code adds them, but for the
-- two counts of a pool: its number of connections stays within the sizes that it had, and its iteration is taken not to come
-- to 2 ^ 64. The loop that draws hosts at random takes as many rounds as there are hosts, since each round removes one. The
-- loop that reads the documents of a reply takes a round for each byte and one more, since each document takes bytes. The
-- loop that writes chunks takes a round for each byte and one more, and so does the loop that reads them, enough if the
-- chunk size is positive (with a chunk size of 0 the source writes for ever). The waits of a file are recursions on the
-- schedule, and the selection of a server is one on the list of its rounds. The loop that ends an authentication takes as
-- many rounds as its fuel, enough if the server comes to an end. All other loops are recursions on the data.
--
-- What is not modelled: sockets, TLS, threads and clocks; the loop of a monitor; the queries that make cursors; databases,
-- the reads of collections and indexes; command monitoring; the panic of `BulkUpdateResult::new` on an empty array
-- `upserted`, which gives no id in the model. The copies of the hmac, pbkdf2 and crypto-mac libraries are other projects'
-- code.
pub mod Prelude
pub mod Error
pub mod Pool
pub mod Bson
pub mod Connstring
pub mod Topology
pub mod Coll
pub mod Wire
pub mod Cursor
pub mod Gridfs
pub mod Auth
