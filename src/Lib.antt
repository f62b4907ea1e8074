-- ===== src/Lib.antt =====
-- ocifuse: a FUSE file system that shows OCI images as directories.
--
-- A path below the mount point names a registry, a repository and a tag or a digest, and a path in
-- the image. cmd/ocifuse makes the caches and mounts the file system of internal/mount. This one
-- takes the names apart with internal/fspath, and answers a tag with a symlink to its digest. For
-- a digest it has the manifest from internal/oci, over a transport that keeps manifests and
-- configs in the disk cache of internal/cache. internal/layer indexes the layers of the image,
-- with the indexes in the disk cache, and reads ranges of their compressed bytes through a cache
-- of chunks. internal/merge puts the entries of the layers together, with the whiteouts of the OCI
-- image specification. The nodes of internal/mount show the merged tree, and a directory /@@meta
-- with the digests and the raw tree of each layer.
--
-- Which file models what:
--   Prelude, Strings, SlashPath: shared types and lemmas (Go strings as bytes, maps as
--     association lists, sort, int, results), and what the program uses of the packages strings,
--     bytes and path.
--   Merge: internal/merge/merge.go. Tree, Entry, canon, deleteSubtree, deleteChildren, applyLayer
--     (`action` decides on an entry, `perform` acts on it), synthesizeParents, Merge, LayerTree,
--     Get and Children; the steps of Merge that follow the layers are in Merge/Build.
--   ChunkCache and LayerView: internal/layer/chunkcache.go. The cache (get, put, and the loop of
--     put as `evict`), and the reader of a layer (fetchChunk, ReadAt).
--   DiskCache: internal/cache/cache.go. New, rescan, Open, Has, Write and evict over a disk,
--     which is a map from paths to files. A record of faults says which calls of package os fail.
--   Indexer: internal/layer/layer.go. loadCached, and in Indexer/Opening Open (`open_layer`),
--     with the part that builds an index as `build_layer`, over the DiskCache; the helpers named
--     after what was done before are what follows each call that can fail.
--   Fspath: internal/fspath/parse.go. Parse and the functions that it calls.
--   Transport: internal/oci/transport.go. RoundTrip, the entries on disk, and itoa. It uses
--     DiskCache as the source does.
--   Oci: internal/oci/oci.go. Resolve, ResolveDigestAndPlatforms and ResolveDigest over an index
--     manifest, imageFromIndex, and BlobURL; buildTransport is in Oci/Connect.
--   Mount: internal/mount/mount.go and meta.go. The nodes are one data type. Mount/Attrs has
--     setAttrFromHeader, Mount/Images resolveImage, resolveTagDigest and openLayers over the map
--     of images, Mount/Segments classifySegment and the symlinks of tags and platforms,
--     Mount/Prefixes the lookups above the images, Mount/Dirs and Mount/Files the directories and
--     files of an image, Mount/Meta the nodes of meta.go, Mount/Mounting the method Mount.
--     Mount/Shown is the relation of a node to the lookups that find it, from the mount point on.
--     Mount/Indexed has the file system call the Indexer.
--   CommandLine: parseBytes and resolveCacheDir of cmd/ocifuse/main.go; CommandLine/Start has
--     run, and CommandLine/Start/Life the states of the disk cache from then on.
--   Tests: runs of these on concrete inputs, and the theorems at concrete data.
--
-- Loops whose end is not seen from their arguments run on fuel. The eviction of the chunk cache has
-- the length of its list, since a round removes an entry. A read of a layer has the number of bytes
-- to copy, since a round copies one at least. The search for missing parents has the length of the
-- path, since a directory is shorter. itoa has the 20 bytes of its buffer. Theorems show that this
-- is enough, or their statements say what they need.
--
-- Numbers are natural numbers without a bound where the source has int64 for sizes and offsets of
-- files; where it compares with a negative number, or may hold one, they are integers. The
-- attributes of files have the widths of go-fuse's fields, with wrap-around. A method that holds a
-- mutex is one step. Where the order of a range loop over a map or the choices of an unstable sort
-- could be seen, the model fixes one. singleflight shares a call of resolveImage among those who
-- ask for the same at the same time; here a call is its own, and calls meet in the map of images,
-- which Mount/Images/Shared lets them fill in any order.
--
-- Parameters, since their code is elsewhere: name.ParseReference (its two kinds of references are
-- a data type), v1.ParsePlatform and v1.NewHash, ranger, gsip, tarfs and encoding/json, the HTTP
-- transport below the cache, remote.Get, remote.Image and the keychain, envconfig, floating-point
-- numbers, and the Mount of go-fuse, whose EntryOut, Attr, DirEntry and error numbers are modelled
-- as far as the nodes fill them. Mount takes oci.Resolve and the indexer's Open as operations of
-- one record.
--
-- Not modelled: in cmd/ocifuse, logging, the goroutine that unmounts on a signal, the wait for the
-- server, and main, which prints the error; in internal/cache and internal/layer, the accessors of
-- sizes.
pub mod Prelude
pub mod Strings
pub mod SlashPath
pub mod Merge
pub mod ChunkCache
pub mod LayerView
pub mod Fspath
pub mod DiskCache
pub mod Transport
pub mod Oci
pub mod CommandLine
pub mod Indexer
pub mod Mount
mod Tests
