-- ===== src/Lib.antt =====
-- A verification library of go-git, which implements Git in Go. It models the parts that others
-- stand on: the integers of Git's formats, the deltas of packfiles, the modes of tree entries, the
-- packet lines of its protocols, the names of references, the refspecs that map them and the stores
-- that hold them, and the patterns of ignore files.
--
-- How the parts interact, and where they are:
--
-- VarInt: utils/binary/read.go and write.go. ReadVariableWidthInt and WriteVariableWidthInt, the
--   offset integers that point from a delta to its base in a packfile.
-- Leb128: plumbing/format/packfile/util/util.go, and entryHead of
--   plumbing/format/packfile/encoder.go. EncodeLEB128, DecodeLEB128, DecodeLEB128FromReader,
--   VariableLengthSize and ObjectType: the sizes in a delta's header and the head of an entry.
-- Delta: plumbing/format/packfile/patch_delta.go, and the encoders of one operation in
--   plumbing/format/packfile/diff_delta.go. PatchDelta and patchDelta apply a delta once
--   validateDeltaOps has passed over it; ReaderFromDelta (Delta/Stream.antt) applies it piece by
--   piece to a base that is read from a cursor. patchDeltaWriter
--   (Delta/Writer.antt) reads it at offsets. The sizes are those of Leb128.
-- DeltaIndex: plumbing/format/packfile/delta_index.go. The blocks of a base by their hash, with the
--   tables T and len8tab (DeltaIndex/HashTable.antt); DeltaIndex/Build.antt makes the index.
-- DiffDelta: diffDelta of plumbing/format/packfile/diff_delta.go, which searches an index and writes
--   the operations of Delta. A panic of Go is `none`.
-- FileMode: plumbing/filemode/filemode.go. A mode as text, canonical, and in a file system.
-- Pktline: plumbing/format/pktline. Write, Read, ReadLine, PeekLine, ErrorLine, and the Scanner
--   (Pktline/Scanner.antt) over a series of packets.
-- RefName: plumbing/reference.go. Validate, IsSafe, IsRoot and the names of new branches and tags.
-- References: plumbing/storer/reference.go, storage/memory/storage.go and
--   storage/transactional/reference.go. ReferenceStorer is the interface, as operations and the
--   laws that a client relies on; References/Memory.antt is an implementation, and
--   References/Transaction.antt, References/Iter.antt and References/Resolve.antt are clients of any.
--   References/Iterators.antt has the iterators of references: any is a state with Next and Close.
-- RefSpec: config/refspec.go. Validate, Match, Dst and Reverse of the mappings from remote to local
--   names; a panic of Go is `none`.
-- Cache: plumbing/cache/object_lru.go. ObjectLRU, the objects kept by their hash with the least
--   recent dropped first. Its list and its map share elements, which are numbers here; a FileSize is
--   the residue of an int64. Cache/Keep.antt has the plain list that it is compared with.
-- Sideband: plumbing/protocol/packp/sideband. A Muxer puts pack data and messages into packet lines
--   and a Demuxer takes them apart over the Scanner of Pktline; sanitize is what a terminal gets.
-- Gitignore: plumbing/format/gitignore/pattern.go and matcher.go. The port of wildmatch.c: the sets
--   of bytes of brackets (Gitignore/BracketSet.antt), how a bracket is read and kept
--   (Gitignore/ReadBracket.antt, Gitignore/BracketCache.antt), dowild (Gitignore/Wildmatch.antt), and
--   the patterns over them (Gitignore/Pattern.antt). `none` is a panic or out of fuel.
-- IdxFile: plumbing/format/idxfile/idxfile.go. The lookups of a MemoryIndex by a hash: a table of
--   first bytes, then a binary search. A panic of Go is `none`.
-- Prelude: what the parts share. Results, lists measured by native numbers, the digits of
--   `bit_and` and `bit_or`, and strings as lists of bytes.
--
-- A Go function is a function of the same name in snake_case. A reader is the list of the bytes
-- that are left, a buffer that is written is the list of what is in it, and a pair of a value and
-- an error is a Result. An object that is changed in place is passed in and returned. Machine
-- integers are natural numbers with their wrap-around written out where the source can reach it.
--
-- Loops run on their list, on accessibility of what is left, or on fuel. The loops over a delta
-- have its length and one as fuel, since a round takes a byte at least; the loops over the
-- bytes of a number have 64 bits over seven; resolveReference has the 1025 steps that
-- its test against MaxResolveRecursion allows; Put of the cache has a round for every element and one; the
-- Demuxer's Read has the bytes asked for, those of its reader, and one; diffDelta has the
-- length of the target, and a chain of its index 64 entries; the search of a bucket has the
-- number of its names; dowild has a round for every byte of its pattern and one, and a bracket the
-- bytes of the pattern; a filtered iterator and ForEach have fuel of any amount, and enough is one
-- round more than the references. ReadFull and the reader of a base end at the end of their bytes and fail
-- in no other way; a writer takes every byte, but the one for progress may fail.
--
-- Not modelled: everything of the repository that is not named above, among it files, locks,
-- sockets and goroutines, the scanner and parser of packfiles, objects and their graph, the index,
-- the worktree and the transports. Of the parts above: tracing and pools of buffers, writers and
-- storers that fail.
pub mod Prelude
pub mod Cache
pub mod Delta
pub mod DeltaIndex
pub mod DiffDelta
pub mod FileMode
pub mod Gitignore
pub mod IdxFile
pub mod Leb128
pub mod Pktline
pub mod RefName
pub mod RefSpec
pub mod References
pub mod Sideband
pub mod VarInt
