-- ===== src/Lib.antt =====
-- layerlens compares two container images: it indexes their layers, folds the layers of each image
-- into a tree, and compares the two trees.
--
-- - Base: tests, lists, byte strings, sorting, results and machine integers. A Go string is a list of
--   bytes. An int or int64 is its two's complement pattern, and sums wrap at 2 ^ 64. A Go map is an
--   association list; a nil map reads like an empty one. sort.Slice is a stable insertion sort, and a
--   hash.Hash is the bytes that it was fed; sha256 is a parameter.
-- - Domain: internal/domain. Digest models digest.go (ParseDigest, Validate, Hex, DigestFromBytes),
--   Entry entry.go, Image image.go, and Tree the two trees of tree.go.
-- - Analyze: internal/analyze. Fields models fields.go and the writers of changeset.go, Changeset the
--   digest of changeset.go, Trunk trunk.go and chainid.go, Edges edges.go, History history.go, Squash
--   squash.go, Diff diff.go and sort.go, and Sanitize sanitize.go with path.Clean by the segments of
--   its argument. Indexer models indexer.go: reserveEntry, warn, put, putMarker, kindOf and
--   entryFrom, Layer add, finish and IndexLayer, Media decompressor and classifyMediaType. A reader
--   is the bytes that it yields and the error behind them. What gzip and zstd make of one, the
--   members that archive/tar reads from it and the number of bytes that it reads for them, ToLower,
--   TrimSpace and the text of a warning are arguments; a member comes with what reading its body
--   gives. The two maps of the state are keyed by paths, the one of the markers by the kind and the
--   path. In Squash a pointer into the tree is the list of the path segments that lead to the node,
--   and a write through it is a function on the node.
-- - Server: internal/server. Paging models pagination.go and the page that handleDiffTree of
--   handlers_diff.go cuts (filterRows, pageStart, encodeCursor, decodeCursor); JSON and base64 are a
--   record of functions, CursorCodec, with the laws that the walk needs. Comparisons models
--   comparison.go: the two sections of get under the lock are functions on the cache, and Reached is
--   what sequences of them by any callers lead to; assembly is over a function that loads an index.
--   Rows models findNode, joinPath and maxSiblingBytes of handlers_diff.go.
-- - Cachestore: internal/cachestore. State is the tables of the store and its transactions, which are
--   named by their place; a transaction that is not done is in the set inflight. Layout models
--   layout.go. Lru models lru.go: reserve, release, reserveCeiling and eviction. Txn models Begin,
--   UseLayer, overBudget and writeStagedLimit with the budget writer, Put PutLayer and commitLayer,
--   Commit Commit, finish and Abort, Records the reads, Rewrite writeRecord, UpgradeProvenance and
--   Touch, Sweep Open and the sweep. What the file system and the clock answer are arguments. In
--   Steps the sections that run under the lock of the store are the steps of a relation, Reached, in
--   any interleaving, and the operations are runs of them; two puts of one layer are kept apart by
--   its mutex, so that the second finds the layer, and a put that finds it at the end gives its bytes
--   back.
-- - Imgref: internal/imgref/imgref.go, the allowlist of registries and Parse; the parser of
--   go-containerregistry, ToLower and TrimSpace are arguments. An allowlist is its patterns.
-- - Safehttp: internal/safehttp/safehttp.go. The predicates of netip are written out over the bits of
--   an address; ScreenAddr stands with them, and in Dial stand screenedAddrs, bodyLimit, the
--   redirects and limitedBody. The resolver and the parser of addresses are arguments.
-- - Tests: runs at concrete inputs.
--
-- Indexer makes the members of a layer its entries. These flow through Changeset for its digest and
-- through Squash into the tree; the graph of the layers is Trunk and Edges over the layers of the two
-- images. Diff compares two squashed trees, Comparisons keeps the result, and Paging serves it by
-- directories. The indexes that Comparisons loads and the records that it reads are kept by
-- Cachestore. Imgref decides which registry a reference may name, and Safehttp which addresses a pull
-- may then connect to. All loops are structural recursion, but for three on fuel: sort.Search, with
-- as many rounds as there are rows, each of which narrows the interval; the walk of a client over the
-- pages, with more requests than there are rows, each of which shows one at least; and the loop that
-- makes room in the cache, with as many rounds as there are images, each of which evicts one or ends
-- the loop.
--
-- Not modelled: the reading of tar, gzip and zstd, the files of the cache and their formats, pulling
-- and dialing, the timers of the stall guard, the HTTP server and the web assets, which are I/O for
-- the most part.
pub mod Analyze
pub mod Base
pub mod Cachestore
pub mod Domain
pub mod Imgref
pub mod Safehttp
pub mod Server
pub mod Tests
