-- ===== src/Lib.antt =====
-- nexuspouch: a storage node that keeps files of several devices, gives the devices of one owner
-- access to them, and mirrors them between nodes of which one is the master.
--
-- The parts and how they interact. A peer is connected by a socket (src/peer/ws.rs); each of its
-- messages becomes a `Frame` and reaches `Local::handle` of src/store/mod.rs. The access check
-- `check_acl` of src/protocol.rs comes first, then for writing operations the fence
-- `require_master`, then the handler: uploads (src/store/write.rs), imports of private spaces
-- (src/store/import.rs), cursors (src/store/cursors.rs), the master pointer (src/store/master.rs),
-- browsing, deleting and the recycle bin (src/store/browse.rs). The administration interface
-- (src/admin) sends messages of the node itself to the same `handle`, and calls maintenance
-- (src/store/maintenance.rs) and garbage collection (src/store/gc.rs). Paired devices and the
-- pairing of new ones are in src/peer.
--
-- Which file models what:
--   Protocol: src/protocol.rs. Protocol/Acl has the theorem on `check_acl`, Protocol/Path and
--     Protocol/Path/Again those on `normalize_path`.
--   Store/Local: the state of the node, `Local` of src/store/mod.rs, and what an operation takes
--     from its moment: clocks, the date and random text.
--   Store/Dispatch: `handle`. Dispatch/Guards is about its guards, Dispatch/Kept about the
--     cursors that an operation keeps, Dispatch/Refines about runs of messages.
--   Store/Master: src/store/master.rs and `require_master` of src/store/mod.rs.
--   Store/Cursors: src/store/cursors.rs.
--   Store/ImportAuth and Store/Import: src/store/import.rs, the files and the handlers.
--   Store/Seeds: `authorize_seed` and `is_seed_authorized` of src/store/mod.rs.
--   Store/Paths: `resolve_path` and `move_to_recycle` of src/store/browse.rs,
--     `reject_symlink_under` of src/store/write.rs. Paths/Inside and Paths/Moved are about them.
--   Store/Browse: the rest of src/store/browse.rs: Read (`meta`, `read`), Walk (`list`,
--     `admin_list`), Size (`stats`), Recycle (`recycle_list`, `recycle_empty`), Prune, Delete and
--     Restore (`recycle_restore`), each with child modules for its theorems.
--   Store/Write: src/store/write.rs, with a child module for `write_begin`, `write_chunk` and
--     `commit` each, and below these the theorems on them.
--   Store/Maintenance: src/store/maintenance.rs and `open` of src/store/mod.rs.
--   Store/Gc: src/store/gc.rs. Gc/Bin is about the recycle bin.
--   Store/Externals: what the store takes from crates and from the system, as parameters.
--   Peer/Peers: src/peer/peers.rs. Peer/Pairing: src/peer/pairing.rs.
--   Peer/Sessions: src/peer/sessions.rs, its messages and in Sessions/Registry its registry.
--   Peer/Transport: what src/peer/ws.rs does with a decrypted message. Peer/Connect: how a connection
--     begins there; Connect/Runs puts connections and the user together.
--   Peer/Advertise: src/peer/advertise.rs.
--   Admin/Auth: src/admin/auth.rs, and `auth_json` and `store_handler` of src/admin/mod.rs.
--   Admin/Handlers: src/admin/handler.rs, as far as it is about the store.
--   Noise/Envelope: src/noise/envelope.rs. Noise/Session: src/noise/session.rs.
--   Files: the file system that `std::fs` gives. Base: JSON, f64, i64, maps, texts and lists.
--   Result: results, and `OpError` of src/store/mod.rs.
--   Tests: each theorem with hypotheses at a concrete input.
--
-- How state and operations correspond to the code. A JSON file under .system is a value of
-- `Stored`, absent, not decodable or holding its content, and an operation takes the file and
-- returns it beside its result. These files are kept beside the tree of the other files. Operations
-- that hold a lock run as one step, and so does a whole message. Clocks and random ids are
-- arguments. Numbers in messages are read through f64 as the code does, with the rounding of
-- Base/Float; i64 sums wrap around as in a release build. Loops over lists, directories and the
-- entries of a tree are structural recursion, so no fuel is needed; the client that downloads a
-- file counts its calls, and how many are enough is part of the theorem. The entries of a directory
-- come in the order of the tree, while `read_dir` promises none. One `read` fills the buffer as far
-- as the file reaches.
--
-- Parameters stand for the Noise protocol of the crate snow, SHA-256, base64, the JSON of staging
-- files, `str::parse` of f64, the canonical form of a path, the reading of dates, the length and time
-- of a link, and in Gc the times of directories.
--
-- Not modelled: faults of the disk and permissions; links are leaves that are never followed;
-- a path that ends in "." is not told from the one without it where it is renamed;
-- sockets and tasks (src/peer/ws.rs), keys (src/noise/identity.rs), the text of QR codes,
-- the routes and the page of the administration interface with its handlers on pairing and peers
-- (src/admin), the threads that collect garbage, and the command line (src/main.rs).
pub mod Base
pub mod Result
pub mod Protocol
pub mod Store
pub mod Files
pub mod Peer
pub mod Tests
pub mod Noise
pub mod Admin
