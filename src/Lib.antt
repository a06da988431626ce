-- ===== src/Lib.antt =====
-- A verification library for the native host of the Flutter shell, the Rust crate
-- `native/agentos_flutter_host`. The crate keeps a process-wide table of virtual machines, offers a C
-- interface to the application, and connects each machine's kernel to the outside by a relay: the
-- guest's requests become events, the application pulls them as frames and answers them by handle, and
-- the guest polls and reads the answers.
--
-- How the parts interact. The kernel calls capabilities (relay.rs, `FlutterNet`,
-- `FlutterHostCall`, `FlutterPersist`, `FlutterToolApprover`), each of which locks the relay's state,
-- allocates a handle, inserts a slot and queues an event. The application's `aos_vm_relay_next` pops
-- an event and encodes it; its answers find the slot by the handle and fill it. Table and relay are
-- behind locks, so each call is one step on the state.
--
-- Files, with the paths in native/agentos_flutter_host/src that they model:
--   Common, Error, Lock   helpers: lists, maps as association lists, machine integers, errors, locks
--   Utf8                  `str::from_utf8` and `String::from_utf8_lossy` of the standard library
--   Buf, Buf/Env          buf.rs: `aos_buf_t`, `aos_bytes_t`, the environment blob
--   Relay/State           table.rs: `RelayState`, the slots, the events, `alloc_handle`
--   Relay/Net, WebSocket, HostCall, Persist   relay.rs: the capabilities that the guest calls
--   Relay/Wire            relay.rs: frames, dispatch, the two pops
--   Relay/Respond         relay.rs: the locked bodies of the answers
--   Relay/Approval        relay.rs: approvals, with the channels of `std::sync::mpsc` as a list
--   Relay/Step            all of these as steps of one relay, the guest's behind its lock
--   Table                 table.rs, error.rs, and `aos_vm_close` of boot.rs
--   Host                  what the entry points share: C strings, argument tests, the call of the host
--   Tty, Tty/Take         tty.rs: ticks, input, output, status
--   Fs, Fs/Listing        fs.rs: files, services, and the text of a listing
--   Debug                 `{:?}` of a text, as the standard library prints it
--   Snapshot              snapshot.rs: snapshots and layers
--   Perf                  perf.rs: the counters of a command
--   Exec, Exec/Options, Exec/Jobs, Exec/Complete   exec.rs: commands, their options, jobs, completion
--   Json                  what catalog.rs and relay.rs use of the crate `json`
--   Hex                   catalog.rs: `decode_hex`, with `str::trim` of the standard library
--   Catalog, Catalog/Read catalog.rs: the parser of the blob, and the entry point
--   Caps, Caps/Blobs      relay.rs: `apply_boot_caps`, and the blobs of connections and policies
--   Boot                  boot.rs: the boot options, the plan, the run to the prompt
--   Boot/Sinks            boot.rs: `TeeSink` and `with_capture`
--   Boot/Start            boot.rs: `build_host`, `finish_boot`, and the boot and restore entry points
--   RelayApi              relay.rs: the `aos_vm_relay_*` entry points
--   Isolation/Calls       the entry points that call the host, over one host and one set of arguments
--   Tests                 runs of the theorems at concrete inputs
-- The other files hold proofs about the module that they stand below.
--
-- Correspondence. A struct is a record with its fields, an enum a data type with its variants, a
-- function keeps its name. Words that the language reserves are renamed: the field `open` of `WsSlot`
-- is `is_open`, `data` of a frame is `payload`. A `HashMap` is an association list, a `VecDeque` or
-- `Vec` a list, a byte a natural number, a `String` the list of its bytes. `i32` and `i64` are
-- integers; `as i32`, `wrapping_add` and `% 2 ^ 64` are written out. A pointer is `none` when null, and
-- otherwise the bytes it points to. An error text is a constructor that carries what the text is
-- formatted from.
--
-- Parameters: the kernel host, by a record of its methods for each file that calls it, from the state
-- of a host to what the call gives and the state afterwards; its builder, registry and real network;
-- the crate `json`; the codec of the frames (`ctl_rust::RelayEvent::encode`); the allocator's answer;
-- the number of bits of a `usize`; and how `{:?}` prints a character outside of ASCII. No property
-- assumes anything of them but what it states as its hypotheses. Those say what one call gives, or, for
-- the two about starting a machine, that the builder's methods set the sink of their own stream only
-- and that a host keeps the sinks of its builder.
--
-- Bounds and fuel. The UTF-8 readers, the reader of the environment blob, `trim` and the printer of
-- `{:?}` take the number of bytes as fuel, of which each round uses at least one. Handles are
-- positive `i32`s; after 2^31 - 1 the counter starts again at 1.
--
-- Not modelled: the strings of `aos_version` and `aos_last_error` in error.rs, the Dart, C++ and web
-- code, and the crates that are parameters. What the host writes to the sinks during a later call is
-- not part of the call's step. Nor is the time during which `approve` blocks, in which the kernel's tick
-- holds the lock of the table. A map with an order, as the environment of a command is, is an
-- association list too.
pub mod Common
pub mod Error
pub mod Lock
pub mod Utf8
pub mod Buf
pub mod Relay
pub mod Table
pub mod Debug
pub mod Host
pub mod Tty
pub mod Fs
pub mod Snapshot
pub mod Perf
pub mod Exec
pub mod Json
pub mod Hex
pub mod Catalog
pub mod Caps
pub mod Boot
pub mod RelayApi
pub mod Isolation
pub mod Tests
