-- ===== src/Object/Removal.antt =====
-- What `Expire` and the destructor of src/CacheObject.cpp remove from the disk, in this order.
use filecache.Base.{
  ℕ, ◌<◌, ◌+◌, ◌++◌, ◌^◌, ◌≡◌, ◌≢◌, ◌⊎◌, ◌∙◌, sym, Bool, true, false, some, List, [], ◌∷◌, arith,
  if◌then◌else◌, Bytes, All, ap,
}
use filecache.Base.Word.{lt32}
use filecache.ObjectId.{
  slash, is_empty, get_file_extension, get_object_id_from_path, get_directory_from_path,
}
use filecache.ObjectId.Codec.{has_dot, get_object_id-build_pathname}
use filecache.ObjectId.Codec.Built.{build_pathname-is_empty}
use filecache.ObjectId.TypeName.{has_slash}
use filecache.ObjectId.Depth.{
  depth, depth_below, depth-build_pathname, depth-get_directory_from_path,
}
use filecache.Os.{Os}
use filecache.Object.{CacheObject, Place, get_pathname, is_there}

-- `unlink`, `CleanupDir` and `rmdir` of a path name. Only an empty directory is removed by `rmdir`.
pub data Removal : Type 0 where
  unlink : Bytes → Removal
  cleanup_dir : Bytes → Removal
  rmdir : Bytes → Removal

-- The first step removes the file or the directory of an object.
abbrev remove_own : Bytes → Bool → Removal
remove_own pathname dir_type = if dir_type then cleanup_dir pathname else unlink pathname

unfoldable pub expire_removals : Os → Place → CacheObject → List Removal
expire_removals os pl o =
    let pathname = get_pathname os pl o false in
    if lt32 0 o.subscription_count
    then []
    else if is_empty o.filename
    then []
    else remove_own pathname o.dir_type ∷ rmdir (get_directory_from_path pathname) ∷ []

-- `unlinked`: `unlink` ends well, or there is no such file.
unfoldable pub destroy : Os → (Bytes → Bool) → Place → CacheObject → List Removal
destroy os unlinked pl o =
    let pathname = get_pathname os pl o false in
    let leave = if unlinked pathname then rmdir (get_directory_from_path pathname) ∷ [] else [] in
    if is_empty pathname
    then []
    else if o.dir_type
    then cleanup_dir pathname ∷ []
    else unlink pathname ∷ leave

-- The path name stands below the directory.
abbrev pub IsBelow : Bytes → Bytes → Type 0
IsBelow path dir = (rest : Bytes) × (path ≡ dir ++ slash ∷ rest)

-- The step does not remove what this path name stands for. `CleanupDir` removes all that is below
-- its directory, `rmdir` an empty directory only.
abbrev pub Spares : Bytes → Removal → Type 0
Spares path (unlink p) = p ≢ path
Spares path (cleanup_dir p) = (p ≢ path) × (IsBelow path p → ⊥)
Spares path (rmdir p) = p ≢ path

-- The id can be read from the path name of an object, and its type has a plain directory.
pub record IsReadable (pl : Place) (o : CacheObject) : Type 0 where
  pub positive : 0 < o.id
  pub small : o.id < 2 ^ 54
  pub whole : has_slash pl.cache_type ≡ false
  pub dots :
      (get_file_extension o.filename ≢ [])
      ⊎ ((has_dot pl.base_dir_name ≡ false) × (has_dot pl.cache_type ≡ false))

full_pathname :
    (os : Os) (pl : Place) (o : CacheObject)
    → IsReadable pl o
    → is_empty (get_pathname os pl o false) ≡ false
unfolding get_pathname
full_pathname os pl o r =
    let positive = r.positive in
    rw
      (build_pathname-is_empty (λ p. is_there (os.mkdir p)) o.id pl.base_dir_name pl.cache_type
        o.filename false)
      (ground (arith, positive))

read_pathname :
    (os : Os) (pl : Place) (o : CacheObject)
    → IsReadable pl o
    → get_object_id_from_path (get_pathname os pl o false) ≡ some o.id
unfolding get_pathname
read_pathname os pl o r =
    get_object_id-build_pathname (λ p. is_there (os.mkdir p)) o.id pl.base_dir_name pl.cache_type
      o.filename false r.small (full_pathname os pl o r) r.dots

depth-get_pathname :
    (os : Os) (pl : Place) (o : CacheObject)
    → IsReadable pl o
    → depth (get_pathname os pl o false) ≡ depth pl.base_dir_name + 3
unfolding get_pathname
depth-get_pathname os pl o r =
    depth-build_pathname (λ p. is_there (os.mkdir p)) o.id pl.base_dir_name pl.cache_type o.filename
      (full_pathname os pl o r) r.whole

some_id : {i j : ℕ} → some i ≡ some j → i ≡ j
some_id h = cc

-- Two objects with different ids have different path names.
distinct_pathnames :
    (os os' : Os) (pl pl' : Place) (o o' : CacheObject)
    → IsReadable pl o
    → IsReadable pl' o'
    → o.id ≢ o'.id
    → get_pathname os pl o false ≢ get_pathname os' pl' o' false
distinct_pathnames os os' pl pl' o o' r r' differ same = differ (
    some_id (
      sym (read_pathname os pl o r)
      ∙ ap get_object_id_from_path same
      ∙ read_pathname os' pl' o' r'))

All-if :
    {A : Type 0} (P : A → Type 0) (b : Bool) (xs ys : List A)
    → All P xs
    → All P ys
    → All P (if b then xs else ys)
All-if P true xs ys h k = h
All-if P false xs ys h k = k

-- Path names that differ, with as many separators.
record Apart (p other : Bytes) : Type 0 where
  pub differ : p ≢ other
  pub level : depth other ≡ depth p
  pub below_root : 0 < depth p

not_below : (p other : Bytes) → Apart p other → IsBelow other p → ⊥
not_below p other a (rest, e) =
    let deeper = depth_below p other rest e in let level = a.level in absurd (omega arith)

not_directory : (p other : Bytes) → Apart p other → get_directory_from_path p ≢ other
not_directory p other a e =
    let higher = depth-get_directory_from_path p a.below_root in
    let same = ap depth e in let level = a.level in absurd (omega arith)

own-Spares : (p q : Bytes) (dir_type : Bool) → Apart p q → Spares q (remove_own p dir_type)
own-Spares p q true h = (h.differ, not_below p q h)
own-Spares p q false h = h.differ

expire_removals-Spares :
    (os : Os) (pl : Place) (o : CacheObject) (other : Bytes)
    → Apart (get_pathname os pl o false) other
    → All (Spares other) (expire_removals os pl o)
unfolding expire_removals
expire_removals-Spares os pl o other h =
    All-if (Spares other) (lt32 0 o.subscription_count) _ _ tt (
      All-if (Spares other) (is_empty o.filename) _ _ tt (
        own-Spares (get_pathname os pl o false) other o.dir_type h,
        (not_directory (get_pathname os pl o false) other h, tt),
      ))

destroy-Spares :
    (os : Os) (unlinked : Bytes → Bool) (pl : Place) (o : CacheObject) (other : Bytes)
    → Apart (get_pathname os pl o false) other
    → All (Spares other) (destroy os unlinked pl o)
unfolding destroy
destroy-Spares os unlinked pl o other h =
    let path = get_pathname os pl o false in
    All-if (Spares other) (is_empty path) _ _ tt (
      All-if (Spares other) o.dir_type _ _ ((h.differ, not_below path other h), tt)
        (h.differ, All-if (Spares other) (unlinked path) _ _ (not_directory path other h, tt) tt))

-- Neither `Expire` nor the destructor of an object removes the file or the directory of another
-- object in the same base directory with a different id, be it by its path name, with a directory
-- that it is below, or as an empty directory: where both ids are positive and below 2^54, neither
-- type name has a slash, and for each of the two objects the file name has an extension, or
-- neither the base directory nor its type has a dot.
pub removals-Spares :
    (os os' : Os) (unlinked : Bytes → Bool) (pl pl' : Place) (o o' : CacheObject)
    → IsReadable pl o
    → IsReadable pl' o'
    → pl'.base_dir_name ≡ pl.base_dir_name
    → o.id ≢ o'.id
    → let other = get_pathname os' pl' o' false in
      All (Spares other) (expire_removals os pl o) × All (Spares other) (destroy os unlinked pl o)
removals-Spares os os' unlinked pl pl' o o' r r' base differ =
    let other = get_pathname os' pl' o' false in
    let apart : Apart (get_pathname os pl o false) other = record {
      differ = distinct_pathnames os os' pl pl' o o' r r' differ;
      level =
          depth-get_pathname os' pl' o' r'
          ∙ ap (λ b. depth b + 3) base
          ∙ sym (depth-get_pathname os pl o r);
      below_root = (let levels = depth-get_pathname os pl o r in omega arith);
    } in
    (expire_removals-Spares os pl o other apart, destroy-Spares os unlinked pl o other apart)
