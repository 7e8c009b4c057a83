-- ===== src/Lib.antt =====
-- libshdata: sections of shared memory in which one producer publishes dated samples that consumers
-- search and copy, without locks.
--
-- A section is a header, the metadata of its blobs, and a ring of slots. A producer takes the next
-- slot, writes a sample and publishes its index. A consumer looks for a reference sample by date,
-- places a window of samples around it, copies them, and then checks that no write reached the
-- window. Write counts in the slots and a revision number in the header are what it checks.
--
-- Files, with the sources that they model:
--   Common, Common/*     the shared names: tests, lists by native indices, the C integer types
--   Ring, Ring/Laws      src/shd_utils.h: indices and intervals of the ring
--   Types, Errno         the structures of the headers, the error codes
--   Layout, Layout/Bounds  the byte layout: src/shd_section.c get_offsets and
--                        shd_section_get_total_size, shd_sample_get_size, shd_data_get_total_size
--   Sync, Sync/*         src/shd_sync.c: write and read sessions, revisions
--   TimeTools            the functions of futils/timetools.h, as an interface with laws
--   Sample               src/shd_sample.c
--   Search, Search/*     src/shd_search.c: View sees the slots by age, Depth, Naive, Binary and Methods
--                        hold the proofs of the functions of these names, Rounds counts the probes of
--                        the binary search
--   Window, Window/*     src/shd_window.c: Place where a window lies, Overwrite its loss to a producer,
--                        Same reads of it in two sections, Hints what the search hint changes
--   Memory               what the functions below work on: mapped section, context, heap
--   Data, Data/*         src/shd_data.c: Producer is the state between two writes, Consumer the end of
--                        a read session
--   Header, Header/Laws  src/shd_hdr.c and src/shd_mdata_hdr.c
--   Api, Api/*           src/shd.c, the functions for a producer: Write is a whole write, Parts one of
--                        several quantities, Log a run of writes, Torn a read during one, Single a section
--                        of one slot
--   Reading              src/shd.c, the functions for a consumer
--   Reading/*            Sessions: what a selection returns; Ending: how a session ends; Interleaved,
--                        Latest and Overrun: sessions while a producer goes on; Unwritten: more samples
--                        than were written; Recreated: another creation meanwhile; Quantities:
--                        what is copied out of one sample; Twice: a second session in a context
--   Creation, Creation/*  src/shd.c, what shd_create does to a section that is mapped: Start for its
--                        producer, Headers for the consumers that read its headers
--   Data/Steps, Data/Phases, Data/Consistency, Data/Unchanged  a producer's calls as steps that a
--                        consumer may fall between, and what they keep
--   Resources            what a process holds: allocations, descriptors, mappings
--   Backend              struct shd_section_backend of src/shd_section.h, with its laws
--   Backend/Uses         every order in which the library may call a back-end
--   Backend/Os, Backend/Mapped  the system calls, and what an open section holds of them
--   Backend/Shm, Backend/DevMem, Backend/Baremetal  the files of src/backend
--   Lookup, Lookup/Laws  src/lookup
--   Section              src/shd_section.c but for the layout
--   Context              src/shd_ctx.c
--   Lifecycle            src/shd.c: shd_create, shd_open, shd_close
--   Lifecycle/*          Holds, Mapping and Parts: what a context holds; Opening, Creating and
--                        Producing: what shd_open and shd_create leave; Enough, Sharing and Joining: when
--                        nothing fails; Published and Delivery: from a creation to a consumer's read;
--                        Faults: what is freed twice
--   Tests, Tests/*       runs on small sections
--
-- A function of the sources keeps its name without the prefix shd_ and that of its file. A function
-- that writes through a pointer returns the new structure behind its return value. Errors are
-- negative numbers. `int` is a type of positive and negative numbers with its conversions to and
-- from uint32_t written out; sizes are numbers modulo 2^64.
--
-- Shared memory is one value between two steps. Where another process may write between the steps of
-- a function, it takes the memory at each of them: a search takes the memory when it starts and when
-- it ends. The primitive add_and_fetch, the comparison and the difference of times, and whether an
-- allocation succeeds are arguments; their laws are hypotheses.
--
-- Bounds: a section has at most 2^30 slots and at most 2^30 writes, so that no int overflows. Loops
-- of the sources are recursion on the number of their rounds. The binary search runs on fuel, the
-- search depth, and the proofs show that its loop ends before, after a number of rounds that is
-- logarithmic in the depth. A quantity has a signed offset; a negative one leaves the blob, which
-- is a fault. Theorems on slots that have room for a blob and no more leave out the up to three
-- bytes that the alignment adds to a slot.
--
-- The functions that set sections up and take them down return `none` for a fault, a second free or
-- close, and their state lists what the process holds. A back-end is an interface: a record of
-- operations on a state of its own, with laws that the back-ends for shared and physical memory and
-- for bare metal fill. These stand on the answers of the system calls, which are arguments: each call
-- answers the same for the same arguments, errno is positive after an error, and no mapping is at
-- NULL. The offsets of the platform X1 are arguments, too.
--
-- Not modelled: shd_root, which the sources do not use, the log, the test hooks, the private
-- definitions, which are macros of the log, the tests and the examples. Reads and writes through a
-- mapping are those of one Memory beside the back-end; that the mappings of two processes share it is
-- what shared memory is for, and is not proved.
pub mod Common
pub mod Ring
pub mod Types
pub mod Errno
pub mod Layout
pub mod Sync
pub mod TimeTools
pub mod Sample
pub mod Search
pub mod Window
pub mod Memory
pub mod Data
pub mod Header
pub mod Api
pub mod Reading
pub mod Creation
pub mod Resources
pub mod Backend
pub mod Section
pub mod Context
pub mod Lifecycle
pub mod Lookup
pub mod Tests
