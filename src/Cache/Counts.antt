-- ===== src/Cache/Counts.antt =====
-- The subscription counts of a cache, by id.
use filecache.Base.{
  ℕ, ◌<◌, ◌≡◌, refl, ◌∙◌, inl, inr, Option, none, some, arith, ◌==◌, Bool-cases, Option-cases,
  Bytes,
}
use filecache.Base.Word.{sign_bit}
use filecache.Base.Map
use filecache.Base.Map.{Map, ℕ_key}
use filecache.Os.{Os}
use filecache.Object
use filecache.Object.{CacheObject}
use filecache.Object.Lifecycle.{expire_cases}
use filecache.Cache.{FileCache, expire, expire_found, place_of}

abbrev pub count_of : Option CacheObject → ℕ
count_of none = 0
count_of (some o) = o.subscription_count

-- An id that the cache does not have counts as no subscription.
abbrev pub count_at : FileCache → ℕ → ℕ
count_at c i = count_of (Map.find i c.cached_objects)

-- No id occurs twice, and an object stands under its own.
pub record IsTidy (m : Map ℕ CacheObject) : Type 0 where
  pub distinct : Map.IsDistinct m
  pub keyed : (i : ℕ) (o : CacheObject) → Map.find i m ≡ some o → o.id ≡ i

pub put-IsTidy :
    (i : ℕ) (o o' : CacheObject) (m : Map ℕ CacheObject)
    → Map.find i m ≡ some o
    → o'.id ≡ o.id
    → IsTidy m
    → IsTidy (Map.put i o' m)
put-IsTidy i o o' m e same d = record {
  distinct = Map.put-IsDistinct i o' m d.distinct;
  keyed = λ j x f. elim (Bool-cases (i == j)) [
    | inl b ↦ ground (arith, Map.find-put i j o' m, d.keyed i o e, f)
    | inr b ↦ d.keyed j x (ground (arith, Map.find-put i j o' m, f))
  ];
}

erase-IsTidy : (i : ℕ) (m : Map ℕ CacheObject) → IsTidy m → IsTidy (Map.erase i m)
erase-IsTidy i m d = record {
  distinct = Map.erase-IsDistinct i m d.distinct;
  keyed = λ j x f. elim (Bool-cases (i == j)) [
    | inl b ↦ ground (arith, Map.find-erase_self i m d.distinct, f)
    | inr b ↦ d.keyed j x (rw (Map.find-erase_ne i j m b) at f)
  ];
}

pub place-IsTidy :
    (o : CacheObject) (m : Map ℕ CacheObject)
    → Map.find o.id m ≡ none
    → IsTidy m
    → IsTidy (Map.place o.id o m)
place-IsTidy o m e d = record {
  distinct = Map.place-IsDistinct o.id o m e d.distinct;
  keyed = λ j x f. elim (Bool-cases (o.id == j)) [
    | inl b ↦ ground (arith, Map.find-place o.id j o m e, f)
    | inr b ↦ d.keyed j x (ground (arith, Map.find-place o.id j o m e, f))
  ];
}

-- Every id keeps its count, if that is not negative.
pub record SameCounts (c c' : FileCache) : Type 0 where
  pub kind : c'.cache_type ≡ c.cache_type
  pub distinct : IsTidy c.cached_objects → IsTidy c'.cached_objects
  pub same :
      IsTidy c.cached_objects → (i : ℕ) → count_at c i < sign_bit → count_at c' i ≡ count_at c i

pub SameCounts-objects :
    (c c' : FileCache)
    → c'.cached_objects ≡ c.cached_objects
    → c'.cache_type ≡ c.cache_type
    → SameCounts c c'
SameCounts-objects c c' e t = record {
  kind = t;
  distinct = λ d. rw (e) d;
  same = λ d i b. rw (e) refl;
}

pub SameCounts-trans : {c d e : FileCache} → SameCounts c d → SameCounts d e → SameCounts c e
SameCounts-trans {c} {d} {e} h k = record {
  kind = k.kind ∙ h.kind;
  distinct = λ x. k.distinct (h.distinct x);
  same = λ x i b. k.same (h.distinct x) i (rw (h.same x i b) b) ∙ h.same x i b;
}

-- An object that keeps its count takes the place of another.
pub put-SameCounts :
    (c c' : FileCache) (i : ℕ) (o o' : CacheObject)
    → Map.find i c.cached_objects ≡ some o
    → o'.id ≡ o.id
    → o'.subscription_count ≡ o.subscription_count
    → c'.cached_objects ≡ Map.put i o' c.cached_objects
    → c'.cache_type ≡ c.cache_type
    → SameCounts c c'
put-SameCounts c c' i o o' found id same e t = record {
  kind = t;
  distinct = λ d. rw (e) (put-IsTidy i o o' c.cached_objects found id d);
  same = λ d j b. rw (e) (count-put j);
}
  where
    count-put : (j : ℕ) → count_of (Map.find j (Map.put i o' c.cached_objects)) ≡ count_at c j
    count-put j = elim (Bool-cases (i == j)) [
      | inl b ↦ ground (arith, Map.find-put i j o' c.cached_objects, same)
      | inr b ↦ ground (arith, Map.find-put i j o' c.cached_objects)
    ]

-- An object without subscriptions goes.
pub erase-SameCounts :
    (c c' : FileCache) (i : ℕ) (o : CacheObject)
    → Map.find i c.cached_objects ≡ some o
    → (o.subscription_count < sign_bit → o.subscription_count ≡ 0)
    → c'.cached_objects ≡ Map.erase i c.cached_objects
    → c'.cache_type ≡ c.cache_type
    → SameCounts c c'
erase-SameCounts c c' i o found none_left e t = record {
  kind = t;
  distinct = λ d. rw (e) (erase-IsTidy i c.cached_objects d);
  same = λ d j b. rw (e) (count-erase d.distinct j b);
}
  where
    count-erase :
        Map.IsDistinct c.cached_objects
        → (j : ℕ) → count_at c j < sign_bit
        → count_of (Map.find j (Map.erase i c.cached_objects)) ≡ count_at c j
    count-erase d j b = elim (Bool-cases (i == j)) [
      | inl h ↦ ground (arith, Map.find-erase_self i c.cached_objects d, none_left)
      | inr h ↦ rw (Map.find-erase_ne i j c.cached_objects h) refl
    ]

expire_found-SameCounts :
    (os : Os) (base : Bytes) (c : FileCache) (obj_id : ℕ) (o : CacheObject)
    → Map.find obj_id c.cached_objects ≡ some o
    → SameCounts c (expire_found os base c obj_id o).1
unfolding expire_found
expire_found-SameCounts os base c obj_id o found =
    let cases = expire_cases os (place_of base c) o in
    elim (Bool-cases (Object.expire os (place_of base c) o).0) [
      | inl gone ↦ rw (gone) (erase-SameCounts c _ obj_id o found (ground arith) refl refl)
      | inr kept ↦
          rw (kept) (put-SameCounts c _ obj_id o _ found (ground arith) (ground arith) refl refl)
    ]

pub expire-SameCounts :
    (os : Os) (base : Bytes) (c : FileCache) (obj_id : ℕ) → SameCounts c (expire os base c obj_id).1
unfolding expire
expire-SameCounts os base c obj_id = elim (Option-cases (Map.find obj_id c.cached_objects)) [
  | inl e ↦ rw (e, expire) (SameCounts-objects c c refl refl)
  | inr (o, e) ↦ rw (e, expire) (expire_found-SameCounts os base c obj_id o e)
]
