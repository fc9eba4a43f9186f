-- ===== src/Walk/Tree.antt =====
-- `FileTreeWalk` and `WalkDirTree` of src/FileCacheSet.cpp, over what the directory iterators
-- give. The second loop over a directory reads it again, after files of it may have been deleted.
use filecache.Base.{Bool, true, false, Option, none, some, List, [], ◌∷◌, if◌then◌else◌, Bytes}
use filecache.Walk.{Disk, Walk, process_files}

-- A directory: its iterator cannot be made, or it gives the entries of the first loop and, in the
-- second, the directories.
mutual
  pub data Listing : Type 0 where
    throws : Listing
    lists : List Bytes → Listings → Listing

  pub data Listings : Type 0 where
    empty : Listings
    more : Listing → Listings → Listings

-- An exception leaves the function, or it returns.
pub data Walked : Type 0 where
  thrown : Walked
  returned : Bool → Walked

-- The first loop.
unfoldable pub process_all : Disk → List Bytes → Walk → Option (Bool × Walk)
process_all disk [] w = some (true, w)
process_all disk (path ∷ paths) w = elim (process_files disk path w) [
  | none ↦ none
  | some (ok, w') ↦ let rest = process_all disk paths w' in if ok then rest else some (false, w')
]

-- The second loop goes on after an exception in a directory below.
unfoldable mutual
  pub file_tree_walk : Disk → Listing → Walk → Option (Walked × Walk)
  file_tree_walk disk Listing.throws w = some (Walked.thrown, w)
  file_tree_walk disk (Listing.lists paths dirs) w = elim (process_all disk paths w) [
    | none ↦ none
    | some (ok, w') ↦
        let below = walk_below disk dirs w' in
        if ok then below else some (Walked.returned false, w')
  ]

  pub walk_below : Disk → Listings → Walk → Option (Walked × Walk)
  walk_below disk Listings.empty w = some (Walked.returned true, w)
  walk_below disk (Listings.more dir dirs) w = elim (file_tree_walk disk dir w) [
    | none ↦ none
    | some (Walked.thrown, w') ↦ walk_below disk dirs w'
    | some (Walked.returned true, w') ↦ walk_below disk dirs w'
    | some (Walked.returned false, w') ↦ some (Walked.returned false, w')
  ]

-- Whether the walk was completed.
unfoldable pub walk_dir_tree : Disk → Listing → Walk → Option (Bool × Walk)
walk_dir_tree disk listing w = elim (file_tree_walk disk listing w) [
  | none ↦ none
  | some (Walked.thrown, w') ↦ some (false, w')
  | some (Walked.returned ok, w') ↦ some (ok, w')
]
