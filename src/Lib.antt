-- ===== src/Lib.antt =====
-- K2HASH is a key value store in a memory mapped file (lib/). This is a development of the data
-- structures that it keeps there, and of the operations on them.
--
-- How the program works, and which file models which part:
--
-- * A key has two hashes (lib/k2hashfunc.cc): Hash.antt has the built-in functions, for a char with a
--   sign, with the wrap of a 64-bit word written out.
-- * The main hash leads to a key index. The file's head keeps an array of pointers to arrays of key
--   indexes, one for each bit of the current mask (lib/k2hshm.cc `GetKIndexPos`, `GetReservedKIndex`,
--   `GetKIndex`). Mask.antt has the masks and the position of a hash, KeyIndex.antt the head, how
--   `InitializeFile` of lib/k2hshminit.cc fills it, and how `CheckExpandingKeyArea` and
--   `ExpandKIndexArea` add an array when the elements of one index are too many. Bits.antt has the
--   arithmetic of `&` and `|` on masks.
-- * A key index leads to collision key indexes, each with a binary tree of elements by the second hash;
--   elements of one second hash form a list. Elements.antt has the tree in a store, a function from
--   offsets to elements with 0 for NULL: `GetElementList`, `GetElement`, `InsertElement`. The children
--   have `TakeOffElement` (Elements/TakeOff.antt), `MoveElementToUpperMask` (Elements/Move.antt), and
--   the free elements (Elements/Free.antt: `ReserveElement`, `PutBackElement`,
--   `InitializeElementArray`). What a tree holds is a list of elements for each second hash
--   (Elements/Holds.antt), the view that the operations are compared with.
-- * A value comes with subkeys and attributes, vectors sorted by key with a binary form: SubKeys.antt is
--   lib/k2hsubkeys.cc and Attrs.antt is lib/k2hattrs.cc. Search.antt is the binary search of both, and
--   Search/Sorted.antt the finite map that such a vector stands for. Bytes.antt has byte strings, their
--   comparison, and sizes in memory.
-- * Keys and values stand in chains of pages. Pages.antt has the list of free pages: `PutBackPages`,
--   `ReservePages`, `InitializePageArray`; Pages/Loaded.antt has the data in memory of lib/k2hpage.cc,
--   Pages/Data.antt how lib/k2hpagemem.cc writes and reads it over a chain of pages, and
--   Pages/Give.antt how it cuts, stretches and frees such a chain.
-- * A replaced value may stay under a history key (`MakeHistoryKey`, `ParseHistoryKey`): History.antt.
-- * Above the elements, the operations of lib/k2hshm.cc on keys are those of Shm.antt: `Get`,
--   `GetSubKeys`, `Set`, `Remove` with all subkeys, `ReplaceSubkeys`, `AddSubkey`, on the list of keys
--   with their values, subkeys and attributes, which is what the trees and pages hold.
-- * A queue is a chain of keys from a marker (lib/k2hshmque.cc): Marker.antt has the marker's memory and
--   its bytes, Queue.antt reading a queue and the marker alone, Queue/Add.antt `AddFifoQueue` and
--   `AddLifoQueue`, Queue/Take.antt `PopQueueEx` and `PopQueue`, Queue/Strip.antt `RemoveQueue`, and
--   Queue/Object.antt the classes and the key names of lib/k2hqueue.cc. Queue/Chain.antt says what it
--   means that a queue holds a list of keys, with which the operations are compared.
-- * An archive is a list of commands: Command.antt has the commands of lib/k2hcommand.cc, and
--   Command/Replay.antt loads them as lib/k2harchive.cc does.
-- * Util.antt has the comparison and the appending of byte strings of lib/k2hutil.cc.
--
-- Base.antt passes on the names of the libraries that all modules share, with lists, tests and lemmas
-- over the native numbers. Tests.antt and its children run the definitions and apply the theorems to
-- concrete values.
--
-- Bounds: words have 64 bits, and the wrap of an addition or a shift is written out where the code may
-- meet it. `GetKIndexPos` gets 65 rounds and `GetKIndex` 65 masks, which are enough for every word; the
-- binary search gets one round more than the vector has elements, since every round shrinks what is
-- searched. The recursions over trees take fuel: one step for each level, and one for each element of
-- a list, is enough. The walk over free pages needs as many steps as there are free pages, and so
-- do writing and reading over a chain of pages.
-- A key that is removed with its subkeys has no more levels under it than the store has keys, so that
-- many rounds are given. The loops over a queue take fuel, or one entry for each round of what other
-- processes do; one more than the queue has keys is enough, and one round where nobody else acts. An
-- archive takes one round more than it has commands.
--
-- Parameters: `malloc` says which sizes can be allocated; whether the file can be expanded, where the
-- new area is, and whether an element's pages hold a key are arguments; so is
-- `AddPages`. The manager of attributes and the room in the areas are the record `Host` of Shm.antt, and
-- a theorem that relies on them names what it needs. Other processes act on the store between two locks
-- of a queue operation, by functions of the record `Others` of Queue.antt. The store that an archive is
-- loaded into is the record `Target`.
--
-- Not modelled: locks (each operation of the data structures runs on the state that its locks protect,
-- and `CheckExpandingKeyArea` sees two states because it lets go of its lock in between), that the trees
-- hold the list of keys of Shm.antt, keys with history, failures of memory above the elements, the
-- retry of `Set` when another process makes the same key, renaming and the iterator, direct access, the
-- queue and the threads of transactions, saving an archive, the built-in attributes, encryption, mapping
-- and monitoring of files, and printing. These are later steps, or calls of other libraries and of the
-- system.
pub mod Base
pub mod Bytes
pub mod Search
pub mod SubKeys
pub mod Attrs
pub mod Bits
pub mod Mask
pub mod KeyIndex
pub mod Elements
pub mod History
pub mod Marker
pub mod Pages
pub mod Hash
pub mod Util
pub mod Shm
pub mod Queue
pub mod Command
mod Tests
