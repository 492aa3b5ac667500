-- ===== src/Lib.antt =====
-- Verification of the collaboration core of shape.ai: the code by which clients and the server
-- agree on one canvas.
--
-- The program keeps a canvas as a scene of objects. Every edit is an operation; applying it to the
-- scene returns the inverse operation, which the undo stacks keep. Objects are painted in the order
-- of fractional keys, which both sides mint with the same code. A client applies its own edits at
-- once, keeps them in an outbox until the server acknowledges them, and holds back remote edits of
-- the properties that it still owns. The server has one actor for each canvas, which applies
-- operations in the order of its sequence numbers behind a last-writer-wins gate for each property,
-- writes the objects to a store of records, keeps a journal, answers replayed operations from a
-- dedup table, and sends what it applied to the subscribers. A lease on the canvas keeps a second
-- server away.
--
-- Files and the code they model:
-- - Common and its children: the library names passed on, Boolean tests on the native numbers,
--   lists, strings as bytes, signed integers, results, maps as association lists, decimals.
-- - Fractional, with Midpoint, Integer, Key, Generate and Several, and Kernel/Order for the
--   functions that read a scene: crates/scene-core/src/fractional.rs. A
--   function of the source has the same name here; the parts of midpoint and
--   generate_key_between that are definitions of their own are named for what they do.
-- - Kernel/Model and Kernel/Op: crates/scene-core/src/object/kernel/model.rs and op.rs.
-- - Lww: crates/scene-core/src/lww.rs, over any type of values.
-- - Kernel/Path, with Format and Tokens: the module path_string of model.rs; Kernel/Validate:
--   validate.rs beside it.
-- - Kernel/Edit, Kernel/Split, Kernel/Merge and Kernel/Apply: apply.rs beside it. Edit has the
--   handlers of single objects, one function for each operation; Apply puts all together and adds
--   the gate. The two functions of crates/scene-core/src/object/binding/affine.rs that
--   canonicalize calls compute with f64 and are the record Affine.
-- - Kernel/Selection: crates/scene-core/src/object/kernel/selection.rs.
-- - Kernel/Undo: crates/scene-core/src/object/kernel/undo.rs. A panic is an error of the model;
--   the argument `debug` of undo and redo says whether the build has debug assertions.
-- - Server/Dedup: the DedupTable of crates/server/src/sync.rs. The bound of 4096 is a parameter of
--   the definitions that record uses.
-- - Server/Store, with Records: crates/server/src/object_store.rs, the scenes over a store of records.
--   The JSON of serde_json and the extents of object_region_key, which compute with f64, are the
--   record Codec.
-- - Server/Actor: crates/server/src/canvas_actor.rs. A command is one step of the actor; what the
--   source sends on its broadcast channel is a list in the result, and a panic is the result none.
--   Recover has the start of an actor: the journal, the replay of its tail and the rebuilt table.
--   A feature request stands for the operations that it was lowered to.
-- - Storage/Record and Storage/Adapter: record.rs, error.rs, spatial.rs, adapter.rs and
--   adapters/memory.rs of crates/storage-core/src. The trait StorageAdapter, with the indexed write
--   of SpatialStore, is a record of operations that the server takes as a parameter; AdapterLaws and
--   Reliable say what a store does, and the store in memory meets both.
-- - Storage/Base64: the text of a payload in record.rs; Storage/Morton: morton.rs beside it, with the
--   keys of the region index.
-- - Client/Wire: the envelope of crates/scene-core/src/wire.rs. Client/Outbox:
--   crates/client-runtime/src/outbox.rs, the trait as a record of operations with OutboxLaws, and the
--   outbox in memory. Client/Engine, with Keys for the keys of fields:
--   crates/client-runtime/src/sync_engine.rs over any outbox; what goes to the transport is a list of
--   frames, and serde_json is the record Serde. Client/Peers: crates/client-runtime/src/peers.rs; the
--   clock is an argument of each call.
-- - Coordination, with Leases, Lost and Presence: crates/coordination/src/inmem.rs. The clock is an
--   argument of each call.
-- A module below that of a part is about that part: Laws and the modules named for a property
-- hold lemmas and theorems. Kernel/Apply has Restores for inverses, Gate for the last-writer-wins
-- gate, Writes for the fields that an operation of one object changes, Ids and Unique for object
-- ids, Rest for what is no object, Local for the objects that an operation does not name, both by
-- Ends, and Forest for parents; Server/Store/Durable is about what is stored;
-- Fractional/Integer/Step has the functions of integer parts. Server/Actor has Level for the gate
-- and the table, Step for one operation, Runs for any commands, Once for a resent envelope, and
-- Spawn for the start. Client/Engine has Ownership and Books for the keys that are owned, Events
-- for any calls, History for the operations without an answer as told from the calls, Waiting for
-- what is in the outbox, and Remote for the edits of others. Modules named Examples hold tests
-- and the theorems at concrete inputs.
--
-- Representation. A Rust string is its list of bytes, so `<` is the byte order of `str`. The
-- errors of fallible functions are data; their message texts are not kept. An f64 is its bit
-- pattern and is never computed with; an i64 or i32 is an unbounded integer, except that the path
-- codec wraps an i32 as a release build does and that saturating additions saturate. The sequence
-- number of an actor is below 2^63 where a theorem needs it, and the theorem says so. A list of
-- objects with indices is edited at the first object with the id, which is where the index points.
--
-- Fuel. midpoint recurs with the length of its lower bound plus three rounds of fuel: each round
-- but the first two shortens the lower bound. That the fuel is enough is part of the theorem about
-- midpoint. subdivide has one round more than the keys asked for, and a half asks for fewer.
-- parse_loop has a round for each token, and each command takes a token. would_cycle has the guard
-- of the source. validate_no_parent_cycle has two rounds more than there are objects: each round
-- meets an id that was not met before, and all of them but the last belong to objects.
--
-- Not modelled: rendering, the user interface, the stores on disk and the portable shard format, the
-- transports, the lowering of feature requests, region queries, and the geometry that computes with
-- floating-point numbers.
pub mod Common
pub mod Fractional
pub mod Lww
pub mod Kernel
pub mod Storage
pub mod Server
pub mod Client
pub mod Coordination
