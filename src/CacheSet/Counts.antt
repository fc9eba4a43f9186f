-- ===== src/CacheSet/Counts.antt =====
-- The subscription counts of the set of caches (src/FileCacheSet.cpp), by type and id: which
-- methods leave them, and which set one of them.
pub mod Kept
pub mod Inserts
pub mod Defined
pub mod Moved
use filecache.Base.{
  ℕ, ◌+◌, ◌<◌, ◌≡◌, refl, ◌∙◌, sym, inl, inr, true, false, ◌&&◌, Option, none, some, List, [],
  arith, ◌==◌, if◌then◌else◌, Bool-cases, Option-cases, Bytes,
}
use filecache.Base.Word.{sign_bit}
use filecache.Base.Map
use filecache.Base.Map.{Map, ℕ_key, bytes_key}
use filecache.ObjectId.Codec.{has_dot}
use filecache.ObjectId.TypeName.{has_slash}
use filecache.Object.{CacheObject}
use filecache.Cache.{FileCache}
use filecache.Cache.Counts.{count_of, count_at, SameCounts, IsTidy, put-IsTidy}
use filecache.Cache.Cleans.{Cleans}
use filecache.CacheSet.State.{FileCacheSet, get_file_cache_for_type, with_cache}
use filecache.CacheSet.Cleans.{CleansAt, CleansSet}

abbrev pub cache_count : Option FileCache → ℕ → ℕ
cache_count none i = 0
cache_count (some c) i = count_at c i

-- The count of an object, 0 for one that is not there.
abbrev pub count_in : FileCacheSet → Bytes → ℕ → ℕ
count_in s name i = cache_count (get_file_cache_for_type s name) i

-- A type name from which path names can be read back.
pub record IsPlain (name : Bytes) : Type 0 where
  pub no_dot : has_dot name ≡ false
  pub no_slash : has_slash name ≡ false

abbrev pub DistinctAt : Bytes → Option FileCache → Type 0
DistinctAt name none = Unit
DistinctAt name (some c) = IsTidy c.cached_objects × (c.cache_type ≡ name) × IsPlain name

-- No key occurs twice, in the map of the caches and in each map of objects; a cache has the name of
-- its key, which is plain, and an object the id of its key.
pub record IsDistinctSet (s : FileCacheSet) : Type 0 where
  pub keys : Map.IsDistinct s.cache_set
  pub objects : (name : Bytes) → DistinctAt name (get_file_cache_for_type s name)

pub record SetCounts (s s' : FileCacheSet) : Type 0 where
  pub base : s'.base_dir_name ≡ s.base_dir_name
  pub distinct : IsDistinctSet s → IsDistinctSet s'
  pub same :
      IsDistinctSet s
      → (name : Bytes) (i : ℕ) → count_in s name i < sign_bit
      → count_in s' name i ≡ count_in s name i

pub SetCounts-refl : (s : FileCacheSet) → SetCounts s s
SetCounts-refl s = record { base = refl; distinct = λ d. d; same = λ d name i b. refl }

pub SetCounts-trans : {s t u : FileCacheSet} → SetCounts s t → SetCounts t u → SetCounts s u
SetCounts-trans {s} {t} {u} h k = record {
  base = k.base ∙ h.base;
  distinct = λ d. k.distinct (h.distinct d);
  same = λ d name i b. k.same (h.distinct d) name i (rw (h.same d name i b) b) ∙ h.same d name i b;
}

cleans_distinct :
    (name : Bytes) (o o' : Option FileCache)
    → CleansAt o o'
    → DistinctAt name o
    → DistinctAt name o'
cleans_distinct name none none h d = d
cleans_distinct name none (some c) h d = absurd h
cleans_distinct name (some c) none h d = absurd h
cleans_distinct name (some c) (some c') h d = (h.counts.distinct d.0, h.cache_type ∙ d.1, d.2)

cleans_same :
    (name : Bytes) (o o' : Option FileCache) (i : ℕ)
    → CleansAt o o'
    → DistinctAt name o
    → cache_count o i < sign_bit
    → cache_count o' i ≡ cache_count o i
cleans_same name none none i h d b = refl
cleans_same name none (some c) i h d b = absurd h
cleans_same name (some c) none i h d b = absurd h
cleans_same name (some c) (some c') i h d b = h.counts.same d.0 i b

-- A cleanup leaves the counts.
pub CleansSet-SetCounts : {s s' : FileCacheSet} → CleansSet s s' → SetCounts s s'
CleansSet-SetCounts {s} {s'} h = record {
  base = h.base_dir_name;
  distinct = λ d. record {
    keys = h.keys d.keys;
    objects = λ name.
        cleans_distinct name (get_file_cache_for_type s name) (get_file_cache_for_type s' name)
          (h.caches name) (d.objects name);
  };
  same = λ d name i b.
      cleans_same name (get_file_cache_for_type s name) (get_file_cache_for_type s' name) i
        (h.caches name) (d.objects name) b;
}

-- The cache of a type after another took its place.
find-with_cache :
    (s : FileCacheSet) (name other : Bytes) (c c' : FileCache)
    → get_file_cache_for_type s name ≡ some c
    → get_file_cache_for_type (with_cache s name c') other
      ≡ (if bytes_key.beq name other then some c' else get_file_cache_for_type s other)
find-with_cache s name other c c' e = ground (arith, Map.find-put name other c' s.cache_set, e)

distinct_found :
    (s : FileCacheSet) (name : Bytes) (c : FileCache)
    → get_file_cache_for_type s name ≡ some c
    → IsDistinctSet s
    → DistinctAt name (some c)
distinct_found s name c e d = rw (e) at (d.objects name)

with_cache-objects :
    (s : FileCacheSet) (name : Bytes) (c c' : FileCache)
    → get_file_cache_for_type s name ≡ some c
    → c'.cache_type ≡ c.cache_type
    → (IsTidy c.cached_objects → IsTidy c'.cached_objects)
    → IsDistinctSet s
    → IsDistinctSet (with_cache s name c')
with_cache-objects s name c c' e k f h = record {
  keys = Map.put-IsDistinct name c' s.cache_set h.keys;
  objects = λ other. elim (Bool-cases (bytes_key.beq name other)) [
    | inl b ↦
        let (d, t, plain) = distinct_found s name c e h in
        let same_name = (bytes_key.beq_iff name other).0 b in
        rw (find-with_cache s name other c c' e, b) (f d, k ∙ t ∙ same_name, rw (← same_name) plain)
    | inr b ↦ rw (find-with_cache s name other c c' e, b) (h.objects other)
  ];
}

pub with_cache-SetCounts :
    (s : FileCacheSet) (name : Bytes) (c c' : FileCache)
    → get_file_cache_for_type s name ≡ some c
    → SameCounts c c'
    → SetCounts s (with_cache s name c')
with_cache-SetCounts s name c c' e h = record {
  base = refl;
  distinct = λ d. with_cache-objects s name c c' e h.kind h.distinct d;
  same = λ d other i b. elim (Bool-cases (bytes_key.beq name other)) [
    | inl k ↦
        let same_name = (bytes_key.beq_iff name other).0 k in
        let there : get_file_cache_for_type s other ≡ some c = rw (← same_name) e in
        rw (find-with_cache s name other c c' e, k, there)
          (h.same (distinct_found s name c e d).0 i (rw (there) at b))
    | inr k ↦ rw (find-with_cache s name other c c' e, k) refl
  ];
}

-- One count is set, the others stay.
pub record SetsCount (s s' : FileCacheSet) (name : Bytes) (i : ℕ) (n : ℕ) : Type 0 where
  pub base : s'.base_dir_name ≡ s.base_dir_name
  pub distinct : IsDistinctSet s → IsDistinctSet s'
  pub at :
      (other : Bytes) (j : ℕ)
      → count_in s' other j
        ≡ (if bytes_key.beq name other && (i == j) then n else count_in s other j)

pub with_cache-SetsCount :
    (s : FileCacheSet) (name : Bytes) (c c' : FileCache) (i : ℕ) (o o' : CacheObject)
    → get_file_cache_for_type s name ≡ some c
    → Map.find i c.cached_objects ≡ some o
    → o'.id ≡ o.id
    → c'.cached_objects ≡ Map.put i o' c.cached_objects
    → c'.cache_type ≡ c.cache_type
    → SetsCount s (with_cache s name c') name i o'.subscription_count
with_cache-SetsCount s name c c' i o o' e f id p t = record {
  base = refl;
  distinct = λ d.
      with_cache-objects s name c c' e t
        (λ tidy. rw (p) (put-IsTidy i o o' c.cached_objects f id tidy)) d;
  at = λ other j. elim (Bool-cases (bytes_key.beq name other)) [
    | inl k ↦
        let same_name = (bytes_key.beq_iff name other).0 k in
        let there : get_file_cache_for_type s other ≡ some c = rw (← same_name) e in
        rw (find-with_cache s name other c c' e, k, there, p) (count-put j)
    | inr k ↦ rw (find-with_cache s name other c c' e, k) refl
  ];
}
  where
    count-put :
        (j : ℕ)
        → count_of (Map.find j (Map.put i o' c.cached_objects))
          ≡ (if i == j then o'.subscription_count else count_at c j)
    count-put j = elim (Bool-cases (i == j)) [
      | inl b ↦ ground (arith, Map.find-put i j o' c.cached_objects)
      | inr b ↦ ground (arith, Map.find-put i j o' c.cached_objects)
    ]
