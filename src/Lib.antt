-- ===== src/Lib.antt =====
-- S3Prism is a proxy that stores the objects of an S3 service on several S3 sites, as replicas or
-- as the chunks of a Reed-Solomon code. A request passes the decoder of `aws-chunked` bodies, the
-- handlers place the chunks on the sites through the fan-out, the metadata store records them, and
-- a deleted object leaves its chunks to the purge reaper.
--
-- Which file models which part:
--   Base, Slice, Fault      shared: native numbers, texts as lists of bytes, 64-bit words, slices,
--                           and the errors, with `panicked` for a panic.
--   Erasure.Encoder         src/erasure_coding/encoder.rs: `encode`; its three loops are
--                           `original_shards`, `data_shards` and `parity_shards`.
--   Erasure.Decoder         src/erasure_coding/decoder.rs: `decode`; `gather` and `assemble` are its
--                           loops.
--   Erasure.Streaming       src/erasure_coding/streaming.rs: `encode_blocks` and `decode_blocks`.
--   Startup                 src/main.rs: the clients and the shared state, made from the database,
--                           and what the servers are started with.
--   Router                  src/api/router.rs: the dispatchers and the table of routes. axum matches
--                           the path and reads the query.
--   Erasure.Codec           the crate reed_solomon_simd as an interface; its laws say that
--                           encoding succeeds on supported counts, and that any `data_chunks`
--                           different shards restore the others.
--   Chunked                 src/api/chunked.rs: `decode_aws_chunked` with the number parsers.
--   Config                  src/config.rs: the types, the defaults, `is_configured` and
--                           `load_bootstrap`.
--   Metadata.Models         src/metadata/models.rs: the records.
--   Metadata.Rocks          the crates rocksdb and serde_json as interfaces: what a family holds,
--                           atomic batches of writes, iterators in the order of the keys.
--   Metadata.Keys, Objects, Listing, Buckets, Stats, Queue, Uploads
--                           src/metadata/rocksdb_backend.rs: the operations of the store, each a
--                           function from a database to a result; the new UUID and the clock are
--                           arguments. The error of a missing column family is left out, since
--                           `open` creates all of them.
--   Metadata.Spec           the store as two maps, of the objects and of the purge queue.
--   Purge                   src/metadata/purge_queue.rs: `process_batch`, `drain` and `run`. A call
--                           of a site's client is a function argument, and what ends a wait a
--                           list of signals.
--   Fanout                  src/backend/fanout.rs: the receive loops, over the answers in the order
--                           of their arrival.
--   Objects                 src/api/handlers/object.rs: the placement of an object's chunks on the
--                           sites (`put_replicated`, `put_erasure_coded`) and the reads, with
--                           lemmas in Apart, Reading and Shards. The
--                           shuffle of the sites, the UUIDs and the sites' answers are arguments.
--   Errors, Xml             src/api/error.rs and src/api/xml.rs: the responses, the escape and the
--                           parser of a batch deletion. The format of a time is an argument.
--   Client                  src/backend/client.rs: the requests and the reading of the responses.
--                           The HTTP client with the signer is the argument `send`.
--   Handlers, Handlers.Objects
--                           src/api/handlers/object.rs: the handlers of an object. The record
--                           `Services` holds the configuration, the sites' answers, the digests, the
--                           UUIDs and the clock.
--   Handlers.Responses      the responses of both, and the list of the uploads.
--   Handlers.Buckets        src/api/handlers/bucket.rs and src/api/handlers/list.rs. A handler that
--                           talks to the sites has the calls that it makes in its outcome.
--   Handlers.Multipart      src/api/handlers/multipart.rs: the life of an upload. Reading has the
--                           body of a completion as a client writes it.
--   Mgmt, with Sites, Settings, Users, Auth, Requests, Views, Ping
--                           src/web/api.rs and src/web/auth.rs: the requests of the management
--                           interface on the shared configuration and the database, and the check
--                           of a request's token. SHA-256 and the clock are arguments.
--   Metadata.Memory, Metadata.Shelf, Metadata.Formats
--                           instances of the interfaces, for the tests.
--
-- Machine integers: a `usize` or `u64` is a native number, and a sum, difference or product that
-- may pass 64 bits is taken modulo 2 ^ 64, as in a release build. Loops without a bound of their
-- own run on fuel: `decode_aws_chunked` and `encode_blocks` on the length of the body plus one, as
-- every round takes at least one byte, and the batch deletion on the number of its keys. `drain`
-- takes its fuel from outside, for it need not end.
--
-- Not modelled: logging, waiting and cancellation; the network client and its signatures; running
-- out of memory. A failed request of a site is an error value. The command line, TLS and the servers
-- are not part of this library. A handler that fails returns the error only, so what it wrote before
-- does not show, except in Mgmt, in `drain` and, for the calls to the sites, in Handlers.Buckets.
pub mod Base
pub mod Fault
pub mod Slice
pub mod Erasure
pub mod Chunked
pub mod Config
pub mod Metadata
pub mod Purge
pub mod Fanout
pub mod Objects
pub mod Mgmt
pub mod Xml
pub mod Errors
pub mod Client
pub mod Handlers
pub mod Router
pub mod Startup
