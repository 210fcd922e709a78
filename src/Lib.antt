-- ===== src/Lib.antt =====
-- traccoon, a BitTorrent tracker with a bencode library and two command line tools.
--
-- Parts. The main thread accepts connections into a queue and names a worker for each
-- (traccoon.c). A worker takes its connections from the queue, reads requests from them and closes
-- them (thread.c, comm.c); it decodes the parameters (encoding.c), looks peers up in a database
-- (db.c) and answers in bencode (track.c). The tools getpeers and torrentinfo read torrent files
-- and answers of trackers with the bencode reader (benc/benc.c) and write hashes for a URL with the
-- encoders (encoding.c).
--
-- Files.
--   Prelude    numbers, bytes and lists; the laws that the other files share
--   Memory     a C object as a list of bytes: an access outside it is the result `fault`, a loop
--              that ran out of fuel `out_of_fuel`
--   CLib       strncpy, memcpy, strncmp, strlen, strchr, strstr, strcmp, strtol and strtoul
--   Encoding   encoding.c: CharIndex is `charIndex`, Hex `destructiveHexDecode` and
--              `hashEncodeHex`, Url `destructiveURLDecode` and `hashEncodeURL`, Chain the pairs
--   Benc       benc/benc.c: Scan has the functions that scan one entity, Length
--              `benc_entity_length`, Offset the functions that look up an item or a key, Value the
--              format
--   Db         db.c: Calls has SQLite as a parameter, which answers a call by any function of the
--              calls before it; Db itself the functions; Open the statements that are open after a
--              history of calls, and rules for the calls; Balance and Update the functions' proofs;
--              Create `createEmptyDatabase`
--   Worker     thread.c: Worker itself has the parts of a round, Thread `workerthread` from its start
--              to its end; PickUp is on what it takes from the queue, Serve on what it closes, Drain
--              on rounds without a new connection, Shutdown on the end of a worker, Closings, Watched
--              and Conserved on the whole life of one
--   Threads    the main thread and the workers over one queue, as steps in any order; Owned is on
--              where a connection stands
--   Neth       neth.c: the functions on request strings; Bounds is on the lengths of parameters, Keys
--              and Query on the search for one in a query string
--   Comm       comm.c: Params has two parameters, Request the parsing of a request string, Socket
--              `parseSocket`; Scans and Safe are on the reads of the parsing, Flags and Values on what
--              is read of a request
--   Track      track.c: Track itself the compact reply, Announce `track` and `scrape`, which compose
--              Encoding, Db and the replies; Compact and Replies are on the replies as values of
--              Benc's format, Hash on the conversion of the hash, Balance on the use of the database
--   Torrent    getpeers/file.c: `read_torrentfile`
--   TorrentInfo torrentinfo/torrentinfo.c: the options and the search for the root node, Node
--              `handle_bencoded_node`, Program `main`; Resolve is on the search, Strings and Listed on
--              strings in the listing
--   GetPeers   getpeers/getpeers.c: Options, Request the way to the request, Reply the listing of
--              the answer, Program `main`; Compact is on lists of peers, Hash on the hash that is asked for,
--              Delivered, Query and Values on the parameters of a request, Announced and Asked on
--              the whole request, from the options of getpeers over net.c and comm.c to `track`,
--              Packed, Dictionary and Listing on the reply, from the rows of `track` to what getpeers
--              prints
--   NetLib     getpeers/net.c and string.c: Merge is on `string_merge`, Url on
--              `parse_url_destructive`, Http `http_get`
--   Main       traccoon.c: Options, System with what the main thread asks and keeps, Serving with
--              the accept loop, Server with the rest of `main`; Accept is on a pass over the queue,
--              Sets and Last on the options, Ledger on what is held, Stores, Rounds, Settled and Exit
--              on what is held to the end
--
-- Fuel. A decoder gets the length of its object and one round more: its index grows in each round.
-- The reader of bencode takes fuel as an argument, which bounds depth and number of items alike;
-- the length of the encoding is enough. `updatePeer` calls itself after an insertion; a fuel of two
-- calls is enough for a database that finds what was inserted. The loops of `main` go on until the
-- system ends them: more rounds than the calls after which it does so are enough.
--
-- Integers. Where an `int` or an `unsigned` index is written as a natural number, the theorems bound
-- what is read below 2^31, or it is bounded by the buffers of the program (1024 bytes for a request,
-- 61 for a hash). encoding.c's decoders, `string_merge` and the response of `http_get` have their
-- conversions and wrap-around in the definitions.
--
-- Not modelled: output for debugging and most messages, the overflow of `int` offsets in bencode
-- and in the scans of a request, what the tables of the database hold, the network, and the
-- threads' memory model (a thread sees what others do between its passes over the queue). In the
-- steps of Threads, a worker whose realloc fails does not return (Worker has that end), and main
-- does not close the strays of the queue (Main has it).
-- The callbacks of callbacks.c print only. What sigint_handler does to the flag is a parameter of
-- `main`; that it closes the socket as well is left out.
pub mod Prelude
pub mod Memory
pub mod CLib
pub mod Benc
pub mod Comm
pub mod Db
pub mod Encoding
pub mod GetPeers
pub mod Main
pub mod NetLib
pub mod Neth
pub mod Threads
pub mod Torrent
pub mod TorrentInfo
pub mod Track
pub mod Worker
