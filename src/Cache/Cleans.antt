-- ===== src/Cache/Cleans.antt =====
-- What the cleanup may do to a cache: expire objects that nobody is subscribed to.
use filecache.Base.{
  ℕ, ◌≤◌, length, [], ◌∷◌, ◌≡◌, refl, ◌∙◌, inl, inr, Bool, true, false, some, List, arith, ◌==◌,
  Bool-cases, Option-cases, Bytes,
}
use filecache.Base.Word.{lt32}
use filecache.Base.Map
use filecache.Base.Map.{Map, ℕ_key}
use filecache.Os.{Os}
use filecache.Object
use filecache.Object.{CacheObject}
use filecache.Object.Lifecycle.{expire_cases}
use filecache.Cache.{FileCache, expire, expire_found, place_of, remove_first, pop_back}
use filecache.Cache.Counts.{SameCounts, SameCounts-objects, SameCounts-trans, expire-SameCounts}
use filecache.Cache.Accounting.{IsAccounted, expire-IsAccounted}

abbrev pub is_pinned : CacheObject → Bool
is_pinned o = lt32 0 o.subscription_count

-- An object after the cleanup: it may have been marked as expired.
pub record SameObject (o o' : CacheObject) : Type 0 where
  pub id : o'.id ≡ o.id
  pub count : o'.subscription_count ≡ o.subscription_count
  pub size : o'.size ≡ o.size
  pub written : o'.written ≡ o.written

abbrev pub Keeps : FileCache → FileCache → Type 0
Keeps c c' =
    (i : ℕ) (o : CacheObject)
    → Map.find i c.cached_objects ≡ some o
    → is_pinned o ≡ true
    → (o' : CacheObject) × (Map.find i c'.cached_objects ≡ some o') × SameObject o o'

pub record Cleans (c c' : FileCache) : Type 0 where
  pub pinned : Keeps c c'
  pub accounted : IsAccounted c → IsAccounted c'
  pub cache_type : c'.cache_type ≡ c.cache_type
  pub lo_watermark : c'.lo_watermark ≡ c.lo_watermark
  pub hi_watermark : c'.hi_watermark ≡ c.hi_watermark
  pub default_size : c'.default_size ≡ c.default_size
  pub default_lifetime : c'.default_lifetime ≡ c.default_lifetime
  pub default_cost : c'.default_cost ≡ c.default_cost
  pub dir_type : c'.dir_type ≡ c.dir_type
  pub shorter : length c'.cache_list ≤ length c.cache_list
  pub counts : SameCounts c c'

SameObject-refl : (o : CacheObject) → SameObject o o
SameObject-refl o = record { id = refl; count = refl; size = refl; written = refl }

-- A change of the list alone.
pub list-Cleans :
    (c : FileCache) (list : List ℕ)
    → length list ≤ length c.cache_list
    → Cleans c (record c { cache_list = list })
list-Cleans c list h = record {
  pinned = λ i o e p. (o, e, SameObject-refl o);
  accounted = λ a. record { count = a.count; size = a.size };
  cache_type = refl;
  lo_watermark = refl;
  hi_watermark = refl;
  default_size = refl;
  default_lifetime = refl;
  default_cost = refl;
  dir_type = refl;
  shorter = h;
  counts = SameCounts-objects c (record c { cache_list = list }) refl refl;
}

pub Cleans-refl : (c : FileCache) → Cleans c c
Cleans-refl c = list-Cleans c c.cache_list (omega arith)

pub Cleans-trans : {c d e : FileCache} → Cleans c d → Cleans d e → Cleans c e
Cleans-trans {c} {d} {e} h k = record {
  pinned = λ i o f p.
      let (o', f', s) = h.pinned i o f p in
      let (o'', f'', s') = k.pinned i o' f' (ground (arith, s.count)) in
      (
        o'',
        f'',
        record {
          id = s'.id ∙ s.id;
          count = s'.count ∙ s.count;
          size = s'.size ∙ s.size;
          written = s'.written ∙ s.written;
        },
      );
  accounted = λ a. k.accounted (h.accounted a);
  cache_type = k.cache_type ∙ h.cache_type;
  lo_watermark = k.lo_watermark ∙ h.lo_watermark;
  hi_watermark = k.hi_watermark ∙ h.hi_watermark;
  default_size = k.default_size ∙ h.default_size;
  default_lifetime = k.default_lifetime ∙ h.default_lifetime;
  default_cost = k.default_cost ∙ h.default_cost;
  dir_type = k.dir_type ∙ h.dir_type;
  shorter = ground (arith, h.shorter, k.shorter);
  counts = SameCounts-trans h.counts k.counts;
}

length-remove_first : (obj_id : ℕ) (l : List ℕ) → length (remove_first obj_id l) ≤ length l
unfolding remove_first
length-remove_first obj_id [] = omega arith
length-remove_first obj_id (i ∷ is) = ground (arith, length-remove_first obj_id is)

pub length-pop_back : (i : ℕ) (is : List ℕ) → length (pop_back (i ∷ is)) ≡ length is
unfolding pop_back
length-pop_back i [] = refl
length-pop_back i (j ∷ is) = ground (arith, length-pop_back j is)

pub length-pop_back_le : (l : List ℕ) → length (pop_back l) ≤ length l
unfolding pop_back
length-pop_back_le [] = omega arith
length-pop_back_le (i ∷ is) = ground (arith, length-pop_back i is)

-- An object in place of another, or the object without the other.
put-Keeps :
    (i j : ℕ) (o x x' : CacheObject) (m : Map ℕ CacheObject)
    → Map.find j m ≡ some x
    → SameObject x x'
    → Map.find i m ≡ some o
    → (o' : CacheObject) × (Map.find i (Map.put j x' m) ≡ some o') × SameObject o o'
put-Keeps i j o x x' m found same e = elim (Bool-cases (j == i)) [
  | inl b ↦ (
    x',
    ground (arith, Map.find-put j i x' m),
    record {
      id = ground (arith, same.id);
      count = ground (arith, same.count);
      size = ground (arith, same.size);
      written = ground (arith, same.written);
    },
  )
  | inr b ↦ (o, ground (arith, Map.find-put j i x' m), SameObject-refl o)
]

erase-Keeps :
    (i j : ℕ) (o : CacheObject) (m : Map ℕ CacheObject)
    → (j == i) ≡ false
    → Map.find i m ≡ some o
    → (o' : CacheObject) × (Map.find i (Map.erase j m) ≡ some o') × SameObject o o'
erase-Keeps i j o m ne e = (o, Map.find-erase_ne j i m ne ∙ e, SameObject-refl o)

expire_found-Keeps :
    (os : Os) (base : Bytes) (c : FileCache) (obj_id : ℕ) (x : CacheObject)
    → Map.find obj_id c.cached_objects ≡ some x
    → Keeps c (expire_found os base c obj_id x).1
unfolding expire_found
expire_found-Keeps os base c obj_id x found i o e p =
    let cases = expire_cases os (place_of base c) x in
    elim (Bool-cases (Object.expire os (place_of base c) x).0) [
      | inl gone ↦ rw (gone) (erase-Keeps i obj_id o c.cached_objects (ground arith) e)
      | inr kept ↦ rw (kept) (
          put-Keeps i obj_id o x _ c.cached_objects found
            (record {
              id = ground arith;
              count = ground arith;
              size = ground arith;
              written = ground arith;
            })
            e)
    ]

pub expire-Cleans :
    (os : Os) (base : Bytes) (c : FileCache) (obj_id : ℕ) → Cleans c (expire os base c obj_id).1
unfolding expire expire_found
expire-Cleans os base c obj_id = elim (Option-cases (Map.find obj_id c.cached_objects)) [
  | inl e ↦ rw (e, expire) (Cleans-refl c)
  | inr (x, e) ↦ record {
    pinned = rw (e, expire) (expire_found-Keeps os base c obj_id x e);
    accounted = expire-IsAccounted os base c obj_id;
    cache_type = ground arith;
    lo_watermark = ground arith;
    hi_watermark = ground arith;
    default_size = ground arith;
    default_lifetime = ground arith;
    default_cost = ground arith;
    dir_type = ground arith;
    shorter = ground (arith, length-remove_first obj_id c.cache_list);
    counts = expire-SameCounts os base c obj_id;
  }
]
