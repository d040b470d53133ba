-- ===== src/Lib.antt =====
-- DSearch, a node of a distributed search engine (Rust).
--
-- The parts that are modelled, and where their code stands:
--   Model            the data model (src/model.rs): records, announcements, jobs, enumerations.
--   Storage          the local store (src/storage): Table (the interface of the redb tables), Db (the
--                    database, errors, size), Records (insert, get, list, delete, pin), Announcements,
--                    Sweep (expiry), Migrations (the version of the schema), Quota (eviction), Index
--                    (the inverted index of tags) and Tier2Limiter (the rate limit of announcements).
--                    Records and announcements are stored as JSON texts; the store reads them back on
--                    every access. Store is the facade (src/storage/mod.rs): it signs, inserts,
--                    indexes, and searches.
--   Sanitize         what is removed from a record, and refused, before it is stored
--                    (src/sanitize.rs).
--   Search           src/search: Cache, the results of earlier searches; and the query language
--                    (src/search/query.rs), in Tokens, Dates, Query, Matching and Scoring.
--   Scraper          src/scraper: Scheduler, the loop that runs the scraper's jobs, Job, the record of
--                    a page, Feed, Answers and Providers (src/scraper/discovery: html_scrape.rs,
--                    api.rs, providers.rs), what feeds, interfaces and search providers give, and
--                    Transforms of scraped content (src/scraper/sandbox.rs).
--   Api              src/api: Request, the parser of HTTP requests; Response; Keys, the keys of the
--                    gateway and their rate limit; Gateway, a connection of the gateway; Local, the
--                    handlers of the local interface; Platform, the libraries that they are given.
--   Bootstrap        the peers that a node starts from, and queries of DNS for them (src/bootstrap).
--   Config           the configuration, setting a value of it, and its file (src/config).
--   Node             src/node: Dht (the routing table), Relay (bandwidth of relayed peers), Stun
--                    (answers of STUN servers), Roles, Payloads, Handshakes (the first frames of a
--                    connection) and Messages (the loop over the messages of a peer), both with
--                    src/node/announce.rs and src/scraper/replicate.rs, and Accept (the pool of
--                    connections, as steps of its tasks).
--   Proto            the wire protocol (src/proto): MsgType and Frame.
--   Trust            src/trust: Sign (canonical encoding, signatures, record ids), Normalize (source
--                    URLs in the form that is hashed), Verify, Pow.
--   Base             texts, lists, maps, words and results that the parts share.
--   Tests            a concrete table and codec, runs and instances.
--
-- A text is a list of Unicode scalar values, and its size is that of its UTF-8 encoding. Numbers are
-- natural numbers; sums of `u64` and cuts to `u32` are written out modulo 2 ^ 64 and 2 ^ 32. A method
-- that writes returns its result beside the state that it leaves. A write transaction that is not
-- committed leaves the database as it was.
--
-- Parameters stand for what the program does not implement: the tables of redb, the codec of
-- serde_json, the stream of quinn, the scheme and the signature bytes of ed25519_dalek, the digest of
-- blake3, the hexadecimal digits of hex, floating-point numbers and the upper and lower case of
-- Unicode. What is relied on is stated in IsRedb, IsSerde, IsKeyCodec, IsRecvStream, IsEd25519,
-- IsSignatureBytes, IsDigest, IsJson and IsOrdered. Input and output errors of redb and of files are not
-- modelled; the clock is an argument.
--
-- Bounds: every loop is a recursion on the list that it walks or on its count of rounds; mining tries
-- max_nonce nonces as the code does. The eviction of the search cache has as many rounds as there are
-- entries, which is enough since each removes one. A name of DNS is read with one round for each byte
-- of the packet and 50 for its pointers: a round without a jump goes forward, and 21 jumps end it.
--
-- Not modelled: networking, the fetching of pages, the user interface, the
-- command line, service installation and certificates, which are input and output around libraries.
pub mod Api
pub mod Base
pub mod Bootstrap
pub mod Config
pub mod Model
pub mod Proto
pub mod Trust
pub mod Storage
pub mod Node
pub mod Sanitize
pub mod Search
pub mod Scraper
mod Tests
