-- ===== src/Walk/Restart/Stored.antt =====
-- All the files of a type that the service wrote before a restart, in the loop of `FileTreeWalk` of
-- src/FileCacheSet.cpp.
use filecache.Base.{
  ℕ, ◌<◌, ◌^◌, ◌≡◌, refl, ◌∙◌, inl, inr, Bool, true, false, Option, none, some, List, [], ◌∷◌, map,
  arith, ◌==◌, if◌then◌else◌, Bool-cases, Bytes, All,
}
use filecache.Base.Map
use filecache.Base.Map.{ℕ_key, bytes_key}
use filecache.Base.Word.{lt32}
use filecache.ObjectId.{is_empty, get_type_name_from_path}
use filecache.ObjectId.Codec.{has_dot}
use filecache.ObjectId.TypeName.{ReadsBack, built-ReadsBack}
use filecache.Os.{Os}
use filecache.Object
use filecache.Object.{CacheObject, get_pathname, max_cost}
use filecache.Cache
use filecache.Cache.{FileCache}
use filecache.CacheSet.Objects.{Request, insert_with_id}
use filecache.CacheSet.State.{FileCacheSet, get_file_cache_for_type}
use filecache.CacheSet.Counts.{IsPlain}
use filecache.Walk.{
  Disk, Walk, Mode, contains_name, occurs, process_files, seq_num_filename, type_config_filename,
}
use filecache.Walk.Tree.{process_all}
use filecache.Walk.Found.{IsFinished, process_files_finished, with_object, inserted_cache}

-- What is recorded of an object on the disk.
abbrev pub recorded : CacheObject → Request
recorded o = record { filename = o.filename; size = o.size; cost = o.cost; lifetime = o.lifetime }

-- The object after a restart.
abbrev restored : Os → Bool → CacheObject → CacheObject
restored os dir_type o = record o {
  subscription_count = 0;
  written = true;
  expired = false;
  dir_type = dir_type;
  creation_time = os.now;
  last_access_time = os.now;
}

make-restored :
    (os : Os) (dir_type : Bool) (o : CacheObject)
    → lt32 max_cost o.cost ≡ false
    → lt32 o.lifetime 1 ≡ false
    → Object.make os o.id o.filename o.size o.cost o.lifetime true dir_type ≡ restored os dir_type o
unfolding Object.make
make-restored os dir_type o h k = rw (h, k) refl

-- `GetPathname` of an object in the directory of a type.
abbrev pub path_of : Disk → Bytes → Bytes → CacheObject → Bytes
path_of disk base name o =
    get_pathname disk.os (record { base_dir_name = base; cache_type = name }) o false

-- The file of the object is on the disk: regular, written in full, with its attributes, which are
-- in bounds, and no special file by its name.
pub record IsStored (disk : Disk) (base name : Bytes) (o : CacheObject) : Type 0 where
  pub st_size : ℕ
  pub built : is_empty (path_of disk base name o) ≡ false
  pub small : o.id < 2 ^ 54
  pub cost : lt32 max_cost o.cost ≡ false
  pub lifetime : lt32 o.lifetime 1 ≡ false
  pub no_config : occurs type_config_filename (path_of disk base name o) ≡ false
  pub no_number : occurs seq_num_filename (path_of disk base name o) ≡ false
  pub stat : disk.fstat (path_of disk base name o) ≡ some (Mode.regular, st_size)
  pub finished : IsFinished disk (path_of disk base name o) st_size (recorded o)

-- The walk has made the cache of the type, and is in no directory object.
pub record IsReady (base name : Bytes) (w : Walk) (c : FileCache) : Type 0 where
  pub same_base : w.set.base_dir_name ≡ base
  pub met : contains_name name w.types ≡ true
  pub cache : get_file_cache_for_type w.set name ≡ some c
  pub outside : is_empty w.dir_type_dir ≡ true

-- What the cache has under an id after the walk over the files of the objects.
abbrev pub after_restart :
    Os → Bool → List CacheObject → ℕ → Option CacheObject → Option CacheObject
after_restart os dir_type [] j old = old
after_restart os dir_type (o ∷ os') j old =
    if o.id == j then some (restored os dir_type o) else after_restart os dir_type os' j old

-- No two of the objects have the same id.
abbrev pub HaveDistinctIds : List CacheObject → Type 0
HaveDistinctIds [] = Unit
HaveDistinctIds (o ∷ os) = All (λ p. (o.id == p.id) ≡ false) os × HaveDistinctIds os

inserted_objects :
    (os : Os) (c : FileCache) (o : CacheObject) (j : ℕ)
    → lt32 max_cost o.cost ≡ false
    → lt32 o.lifetime 1 ≡ false
    → Map.find o.id c.cached_objects ≡ none
    → let made = Object.make os o.id o.filename o.size o.cost o.lifetime true c.dir_type in
      Map.find j (Cache.insert c made).1.cached_objects
      ≡ (if o.id == j then some (restored os c.dir_type o) else Map.find j c.cached_objects)
unfolding Cache.insert
inserted_objects os c o j cost lifetime e =
    rw
      (
        make-restored os c.dir_type o cost lifetime,
        Map.insert-place o.id (restored os c.dir_type o) c.cached_objects e,
      )
      (Map.find-place o.id j (restored os c.dir_type o) c.cached_objects e)

missing_after :
    (c c' : FileCache) (o : CacheObject) (os : List CacheObject) (made : Option CacheObject)
    → ((j : ℕ)
        → Map.find j c'.cached_objects ≡ (if o.id == j then made else Map.find j c.cached_objects))
    → All (λ p. (o.id == p.id) ≡ false) os
    → All (λ p. Map.find p.id c.cached_objects ≡ none) os
    → All (λ p. Map.find p.id c'.cached_objects ≡ none) os
missing_after c c' o [] made found d e = tt
missing_after c c' o (p ∷ ps) made found d e =
    (found p.id ∙ rw (d.0) e.0, missing_after c c' o ps made found d.1 e.1)

after_restart-first :
    (os : Os) (dir_type : Bool) (o : CacheObject) (ps : List CacheObject) (j : ℕ)
    (old : Option CacheObject)
    → All (λ p. (o.id == p.id) ≡ false) ps
    → after_restart os dir_type ps j (if o.id == j then some (restored os dir_type o) else old)
      ≡ after_restart os dir_type (o ∷ ps) j old
after_restart-first os dir_type o [] j old d = refl
after_restart-first os dir_type o (p ∷ ps) j old d =
    let ih = after_restart-first os dir_type o ps j old d.1 in
    let apart = d.0 in
    elim (Bool-cases (p.id == j)) [
      | inl h ↦ elim (Bool-cases (o.id == j)) [
        | inl k ↦ ground (arith, apart)
        | inr k ↦ rw (h, k) refl
      ]
      | inr h ↦ rw (h) ih
    ]

insert_with_id-base :
    (os : Os) (s : FileCacheSet) (name : Bytes) (i : ℕ) (r : Request) (written is_new : Bool)
    → (insert_with_id os s name i r written is_new).2.base_dir_name ≡ s.base_dir_name
unfolding insert_with_id
insert_with_id-base os s name i r written is_new = ground arith

module _ (disk : Disk) (base name : Bytes) (dot : has_dot base ≡ false) (plain : IsPlain name) where
  -- The outcome of the walk over some files.
  abbrev pub Restored : Walk → FileCache → List CacheObject → Option (Bool × Walk) → Type 0
  Restored w c os r =
      (w' : Walk) × (c' : FileCache) × (r ≡ some (true, w'))
      × IsReady base name w' c'
      × (c'.dir_type ≡ c.dir_type)
      × ((j : ℕ)
          → Map.find j c'.cached_objects
            ≡ after_restart disk.os c.dir_type os j (Map.find j c.cached_objects))

  process_files_stored :
      (w : Walk) (c : FileCache) (o : CacheObject)
      → IsReady base name w c
      → IsStored disk base name o
      → Map.find o.id c.cached_objects ≡ none
      → Restored w c (o ∷ []) (process_files disk (path_of disk base name o) w)
  unfolding get_pathname Cache.insert
  process_files_stored w c o k s e =
      let back : ReadsBack base name o.id (path_of disk base name o) =
        built-ReadsBack _ base name o.filename o.id dot plain.no_dot plain.no_slash s.small
          s.built in
      let typed : get_type_name_from_path w.set.base_dir_name (path_of disk base name o) ≡ name =
        rw (k.same_base) back.typed in
      let done =
        process_files_finished disk (path_of disk base name o) w o.id s.st_size (recorded o)
          back.read back.positive (rw (typed) k.met) k.outside s.no_config s.no_number s.stat
          s.finished in
      let made = Object.make disk.os o.id o.filename o.size o.cost o.lifetime true c.dir_type in
      (
        with_object disk w name o.id (recorded o),
        (Cache.insert c made).1,
        rw (typed) at done,
        record {
          same_base =
              insert_with_id-base disk.os w.set name o.id (recorded o) true false ∙ k.same_base;
          met = k.met;
          cache = inserted_cache disk.os w.set name c o.id (recorded o) k.cache;
          outside = k.outside;
        },
        refl,
        λ j. inserted_objects disk.os c o j s.cost s.lifetime e,
      )

  -- The loop over the files of stored objects of a type with distinct ids, in a walk that has made
  -- the cache of the type without them, where the base directory has no dot and the type name
  -- is plain: it goes through, and then the cache has each of the objects under its id, written
  -- and without subscriptions, and under every other id what it had.
  pub process_all_stored :
      (w : Walk) (c : FileCache) (os : List CacheObject)
      → IsReady base name w c
      → All (IsStored disk base name) os
      → All (λ o. Map.find o.id c.cached_objects ≡ none) os
      → HaveDistinctIds os
      → Restored w c os (process_all disk (map (path_of disk base name) os) w)
  unfolding process_all
  process_all_stored w c [] k s e d = (w, c, refl, k, refl, λ j. refl)
  process_all_stored w c (o ∷ os) k s e d =
      let (w1, c1, done, ready, same, found) = process_files_stored w c o k s.0 e.0 in
      let missing = missing_after c c1 o os _ found d.0 e.1 in
      let (w2, c2, rest, ready2, same2, found2) =
        process_all_stored w1 c1 os ready s.1 missing d.1 in
      (
        w2,
        c2,
        rw (done, process_all) rest,
        ready2,
        same2 ∙ same,
        λ j. found2 j ∙ rw (same, found j) (after_restart-first disk.os c.dir_type o os j _ d.0),
      )
