-- ===== src/Lib.antt =====
-- filecache: a service of webOS that keeps files and directories of applications in a cache on
-- disk. An application defines a type, inserts objects under it, subscribes to them to write or
-- read their files, and the service expires what was used least when space runs out.
--
-- The parts, from the bottom up, and the files that model them:
--
-- ObjectId (src/CacheBase.cpp): an id is 54 bits; nine characters of 6 bits stand for it in a
--   path name. BuildPathname is `build_pathname`, GetObjectIdFromPath is
--   `get_object_id_from_path`. A call of mkdir is a function that is passed in. Where the source
--   reads in front of the path name, or shifts by a negative number, the reading is `none`.
--   ObjectId/Codec and ObjectId/TypeName hold the round trips, ObjectId/Depth the levels of path
--   names.
--
-- BlockSize (src/CacheBase.cpp): GetFilesystemFileSize, the space that a file takes on disk.
--
-- Os: the answers of the operating system and of boost::filesystem, which the source calls. One
--   value of `Os` holds the answers during one call of an operation, so a file that changes
--   during a call is outside the model.
--
-- Object (src/CacheObject.cpp): CCacheObject, one cached file or directory. Object/Validate is
--   the check of its size on disk, with the sum of a directory's files. The methods are
--   functions from the object to a result and the new object. Attributes and permissions of
--   files are answers of `Os`, not state.
--
-- Cache (src/FileCache.cpp): CFileCache, the objects of one type with counters and m_cacheList,
--   the list in the order of use. Cache/Accounting has the counters, Cache/Cleans what a cleanup
--   may change.
--
-- Config (src/FileCache.cpp, src/CacheBase.h.in): the parameters of a type, and the file that
--   keeps them, as a list of labels and values.
--
-- Sequence (src/FileCacheSet.cpp): sequence numbers, their file, and new ids. Random numbers are
--   a list that is passed in, one for each round of the loop.
--
-- CacheSet (src/FileCacheSet.cpp, src/FileCache.cpp): CFileCacheSet. CacheSet/State has the map
--   of types, the id map and the methods that pass a call on to a cache; CacheSet/Cleanup makes
--   room; CacheSet/Types defines and changes types; CacheSet/Objects inserts and resizes. The
--   source lets a CFileCache call back into its set. Here such methods (CleanupCache, Cleanup,
--   Resize, CleanupDirType) are functions on the set, and name the cache by its type.
--   CacheSet/Cleans, Ends, Rounds, Space, Room, Filed, Inserted and Subscribed hold the proofs
--   on space. CacheSet/Counts says how an operation may change subscription counts and keys,
--   with its children and CacheSet/Timers for the single operations.
--
-- Bus (src/CategoryHandler.cpp, src/FileCacheError.h): CategoryHandler, the handlers of the bus
--   methods. A handler takes the fields of a call, the answers of the system and the service,
--   which is the set with the path names of m_subscribers; it gives the reply and the new
--   service, or `none` where the code reads in front of a path name, reads a variable that was
--   not set, uses a deleted object, or the random numbers run out. Bus/Types, Objects, Queries
--   and Copy are the handlers, Bus/Schema the descriptions of the calls, Bus/Copier the end of a
--   copy (src/AsyncFileCopier.cpp) and CallerID, Bus/Runs their runs as events in any order.
--   Bus/Refines has the abstract view of the service, a bag of subscriptions that forgets their
--   order and the path names. Bus/Balance states how the counts of the objects agree with the
--   subscriptions, Bus/Handled, Granted, Released, Expires, Answers, Copied, Accepted, Defined,
--   Deleted, Inserted and Slashed hold the proofs.
--
-- Walk (src/FileCacheSet.cpp, src/FileCacheServiceApp.cpp): the start of the service. Walk.antt
--   has ProcessFiles for one path name, Walk/Tree the recursion of WalkDirTree over a tree of
--   listings, Walk/App the constructors of the set and the service with CleanupAtStartup, and
--   its open and close over the answers of the framework. Walk/Started, Opened, Found, Inside,
--   Restart and Restart/Stored hold the proofs.
--
-- Machine numbers: cacheSize_t and paramValue_t are 32-bit signed integers, modelled by their
-- bit patterns below 2^32 with the wrap-around written out (Base/Word); signed overflow wraps.
-- Ids and times are numbers with `% 2 ^ 64` where the source computes them. Strings are lists of
-- bytes. A std::map is an association list in the order of its keys (Base/Map). A pointer to a
-- cache, by which one map is ordered, is the number `address`.
--
-- Fuel: CleanupCache gets the length of the type's list, the loop of Cleanup one more than this
-- length, since each round takes an id off the list. The loop of CleanupAllTypes gets 2^32
-- rounds for each id of the id map and 2^32 more, since a round takes an id out of the id map or
-- adds 8192 to the cleaned size. The other loops are structural.
--
-- Not modelled: the configuration file of the whole service, the framework's check of a call
-- against its description (a parameter), the text of errors, the copy of a file itself, which
-- GIO does, the event loop of the framework, logging, and what the removals do to the disk
-- (Object/Removal and Cache/Removal say which path names they are of). An exception of boost is
-- taken to have an error code that is not zero. A division by zero in GetCacheCost and the use
-- of a deleted object in Resize are results `none`; SelectCandidateToExpire skips a candidate
-- whose cost divides by zero.
pub mod Base
pub mod Os
pub mod ObjectId
pub mod BlockSize
pub mod Object
pub mod Cache
pub mod Config
pub mod Sequence
pub mod CacheSet
pub mod Bus
pub mod Walk
