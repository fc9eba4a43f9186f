-- ===== src/CacheSet/Counts/Defined.antt =====
-- The subscription counts when a type comes or goes: `DefineType` and `DeleteType` of
-- src/FileCacheSet.cpp.
use filecache.Base.{
  ℕ, ◌<◌, ◌≡◌, refl, ◌∙◌, sym, inl, inr, false, Option, none, some, List, [], ◌∷◌, arith, ◌==◌,
  Bool-cases, Option-cases, Bytes, Bool, map, reverse,
}
use filecache.Base.Word.{sign_bit}
use filecache.Base.Map
use filecache.Base.Map.{Map, ℕ_key, bytes_key}
use filecache.Os.{Os}
use filecache.Object.{CacheObject}
use filecache.Cache
use filecache.Cache.{FileCache}
use filecache.Cache.Counts.{count_of, IsTidy}
use filecache.Config.{
  CacheParamValues, Entries, Label, Labels, configure, read_config, read_entries, read_entry,
}
use filecache.CacheSet.State.{FileCacheSet, get_file_cache_for_type, expire_cache_object}
use filecache.CacheSet.Types.{define_type, delete_type, expire_each, avail_for_type}
use filecache.CacheSet.Cleans.{
  CleansSet, CleansSet-refl, CleansSet-trans, expire_cache_object-CleansSet,
}
use filecache.CacheSet.Counts.{IsPlain, SetCounts, SetCounts-refl, CleansSet-SetCounts, count_in}

-- The objects and the name of the type stay.
abbrev SameObjects : FileCache → FileCache → Type 0
SameObjects c c' = (c'.cached_objects ≡ c.cached_objects) × (c'.cache_type ≡ c.cache_type)

read_entry-objects :
    (e : Label × ℕ) (c : FileCache) (l : Labels) → SameObjects c (read_entry e (c, l)).0
unfolding read_entry
read_entry-objects (Label.lo_watermark, value) c l = (refl, refl)
read_entry-objects (Label.hi_watermark, value) c l = (refl, refl)
read_entry-objects (Label.default_size, value) c l = (refl, refl)
read_entry-objects (Label.default_cost, value) c l = (refl, refl)
read_entry-objects (Label.default_lifetime, value) c l = (refl, refl)
read_entry-objects (Label.dir_type, value) c l = (refl, refl)
read_entry-objects (Label.other, value) c l = (refl, refl)

read_entries-objects :
    (es : Entries) (c : FileCache) (l : Labels) → SameObjects c (read_entries es (c, l)).0
unfolding read_entries
read_entries-objects [] c l = (refl, refl)
read_entries-objects (e ∷ es) c l =
    let (c', l') = read_entry e (c, l) in
    let (objects, kind) = read_entry-objects e c l in
    let (objects', kind') = read_entries-objects es c' l' in (objects' ∙ objects, kind' ∙ kind)

read_config-objects : (c : FileCache) (file : Option Entries) → SameObjects c (read_config c file).1
unfolding read_config
read_config-objects c none = (refl, refl)
read_config-objects c (some es) = read_entries-objects es c _

configure-objects :
    (os : Os) (base : Bytes) (avail : ℕ) (file : Option Entries) (c : FileCache)
    (params : Option CacheParamValues) (dir_type : Bool)
    → SameObjects c (configure os base avail file c params dir_type).1
unfolding configure
configure-objects os base avail file c none dir_type = read_config-objects c file
configure-objects os base avail file c (some p) dir_type = (ground arith, ground arith)

empty-IsTidy : IsTidy []
unfolding Map.find
empty-IsTidy = record { distinct = tt; keyed = λ i o e. ground arith }

-- A type without objects is added.
insert_type-SetCounts :
    (s : FileCacheSet) (name : Bytes) (c : FileCache)
    → get_file_cache_for_type s name ≡ none
    → c.cached_objects ≡ []
    → c.cache_type ≡ name
    → IsPlain name
    → SetCounts s (record s { cache_set = Map.place name c s.cache_set })
unfolding Map.find
insert_type-SetCounts s name c e z t plain = record {
  base = refl;
  distinct = λ d. record {
    keys = Map.place-IsDistinct name c s.cache_set e d.keys;
    objects = λ other. elim (Bool-cases (bytes_key.beq name other)) [
      | inl b ↦
          let same_name = (bytes_key.beq_iff name other).0 b in
          rw (Map.find-place name other c s.cache_set e, b, z)
            (empty-IsTidy, t ∙ same_name, rw (← same_name) plain)
      | inr b ↦ rw (Map.find-place name other c s.cache_set e, b) (d.objects other)
    ];
  };
  same = λ d other i b. elim (Bool-cases (bytes_key.beq name other)) [
    | inl k ↦
        let there : get_file_cache_for_type s other ≡ none =
          rw (← (bytes_key.beq_iff name other).0 k) e in
        rw (Map.find-place name other c s.cache_set e, k, z, there) refl
    | inr k ↦ rw (Map.find-place name other c s.cache_set e, k) refl
  ];
}

pub define_type-SetCounts :
    (os : Os) (address : ℕ) (s : FileCacheSet) (name : Bytes) (file : Option Entries)
    (params : Option CacheParamValues) (dir_type : Bool)
    → IsPlain name
    → SetCounts s (define_type os address s name file params dir_type).set
unfolding define_type Cache.make
define_type-SetCounts os address s name file params dir_type plain =
    let r =
      configure os s.base_dir_name (avail_for_type s) file (Cache.make address name) params
        dir_type in
    elim (Option-cases (get_file_cache_for_type s name)) [
      | inr (c, e) ↦ rw (e, define_type) (SetCounts-refl s)
      | inl e ↦ elim (Bool-cases r.0) [
        | inl d ↦
            let (objects, kind) =
              configure-objects os s.base_dir_name (avail_for_type s) file (Cache.make address name)
                params dir_type in
            rw (e, define_type, d, Map.insert-place name r.1 s.cache_set e)
              (insert_type-SetCounts s name r.1 e objects kind plain)
        | inr d ↦ rw (e, define_type, d) (SetCounts-refl s)
      ]
    ]

pub expire_each-CleansSet :
    (os : Os) (is : List ℕ) (s : FileCacheSet) → CleansSet s (expire_each os is s)
unfolding expire_each
expire_each-CleansSet os [] s = CleansSet-refl s
expire_each-CleansSet os (i ∷ is) s =
    CleansSet-trans (expire_cache_object-CleansSet os s i)
      (expire_each-CleansSet os is (expire_cache_object os s i).1)

-- A cache that may be deleted has no subscription.
cleanable_count :
    (m : Map ℕ CacheObject) (i : ℕ)
    → Cache.has_subscribed m ≡ false
    → count_of (Map.find i m) < sign_bit
    → count_of (Map.find i m) ≡ 0
unfolding Cache.has_subscribed Map.find
cleanable_count [] i h b = refl
cleanable_count ((j, o) ∷ m) i h b = elim (Bool-cases (j == i)) [
  | inl k ↦ ground arith
  | inr k ↦ ground (arith, cleanable_count m i)
]

-- A type without subscriptions is erased.
erase_type-SetCounts :
    (s s' : FileCacheSet) (name : Bytes)
    → SetCounts s s'
    → ((i : ℕ) → count_in s name i < sign_bit → count_in s name i ≡ 0)
    → SetCounts s (record s' { cache_set = Map.erase name s'.cache_set })
erase_type-SetCounts s s' name h z = record {
  base = h.base;
  distinct = λ d. record {
    keys = Map.erase-IsDistinct name s'.cache_set (h.distinct d).keys;
    objects = λ other. elim (Bool-cases (bytes_key.beq name other)) [
      | inl b ↦
          rw
            (
              ← (bytes_key.beq_iff name other).0 b,
              Map.find-erase_self name s'.cache_set (h.distinct d).keys,
            )
            tt
      | inr b ↦ rw (Map.find-erase_ne name other s'.cache_set b) ((h.distinct d).objects other)
    ];
  };
  same = λ d other i b. elim (Bool-cases (bytes_key.beq name other)) [
    | inl k ↦
        let same_name = (bytes_key.beq_iff name other).0 k in
        rw (← same_name, Map.find-erase_self name s'.cache_set (h.distinct d).keys)
          (sym (z i (rw (← same_name) at b)))
    | inr k ↦ rw (Map.find-erase_ne name other s'.cache_set k) (h.same d other i b)
  ];
}

pub delete_type-SetCounts :
    (os : Os) (s : FileCacheSet) (name : Bytes) → SetCounts s (delete_type os s name).2
unfolding delete_type Cache.is_cleanable
delete_type-SetCounts os s name = elim (Option-cases (get_file_cache_for_type s name)) [
  | inl e ↦ rw (e, delete_type) (SetCounts-refl s)
  | inr (c, e) ↦ elim (Bool-cases (Cache.has_subscribed c.cached_objects)) [
    | inr b ↦
        rw (e, delete_type, b)
          (erase_type-SetCounts s _ name
            (CleansSet-SetCounts
              (expire_each-CleansSet os (reverse (map (λ x. x.0) c.cached_objects)) s))
            (λ i. rw (e) (cleanable_count c.cached_objects i b)))
    | inl b ↦ rw (e, delete_type, b) (SetCounts-refl s)
  ]
]
