-- ===== src/Bus/Handled.antt =====
-- Each handler of src/CategoryHandler.cpp, the end of a subscription and the two timers keep the
-- subscriptions in balance with the counts.
use filecache.Base.{
  ◌%◌, ℕ, ◌+◌, ◌≤◌, ◌<◌, ◌≡◌, refl, inl, inr, false, Option, none, some, [], ◌∷◌, ◌++◌, arith, ◌==◌,
  Bool-cases, Option-cases, Bytes, length, length-append,
}
use filecache.Base.Word.{sign_bit, word_mod, add32}
use filecache.Base.Map.{bytes_eq, bytes_eq_iff}
use filecache.ObjectId.{is_empty, get_object_id_from_path, get_type_name_from_path}
use filecache.Os.{Os}
use filecache.Config.{Entries}
use filecache.CacheSet.State.{FileCacheSet, get_type_for_object_id}
use filecache.CacheSet.Cleans.{expire_cache_object-CleansSet}
use filecache.CacheSet.Counts.{IsPlain, SetCounts, SetsCount, CleansSet-SetCounts, count_in}
use filecache.CacheSet.Counts.Kept.{touch-SetCounts, Kept, resize-Kept, change_type-SetCounts}
use filecache.CacheSet.Counts.Defined.{define_type-SetCounts, delete_type-SetCounts}
use filecache.Bus.{Payload, Service, get_or, with_set, on_path}
use filecache.Bus.Types
use filecache.Bus.Types.{payload_params}
use filecache.Bus.Objects
use filecache.Bus.Objects.{
  resize_answer, release, cancel_subscription, remove_at, worker_handler, cleaner_handler,
}
use filecache.Bus.Balance.{Label, Change, IsBalanced, keeps-IsBalanced, adds-IsBalanced}

-- The service after an event.
pub record After (l : Label) (svc svc' : Service) : Type 0 where
  pub balanced : IsBalanced svc'
  pub grown : length svc'.subscribers ≤ length svc.subscribers + 1
  pub base : svc'.set.base_dir_name ≡ svc.set.base_dir_name
  pub change : Change l svc.set.base_dir_name svc.subscribers svc'.subscribers

-- After an event with an outcome.
abbrev pub Afters {ℓ} : {A : Type ℓ} → Label → Service → Option (A × Service) → Type 0
Afters l svc none = Unit
Afters l svc (some r) = After l svc r.1

-- There is room for one more subscription, and the counts are right.
pub record Before (svc : Service) : Type 0 where
  pub balanced : IsBalanced svc
  pub few : length svc.subscribers + 1 < sign_bit

pub keeps-After :
    {l : Label} (svc : Service) (s' : FileCacheSet)
    → Before svc
    → SetCounts svc.set s'
    → After l svc (with_set svc s')
keeps-After svc s' b h = record {
  balanced = keeps-IsBalanced svc s' h (let few = b.few in omega arith) b.balanced;
  grown = omega arith;
  base = h.base;
  change = Change.unchanged refl;
}

pub same-After : {l : Label} (svc : Service) → Before svc → After l svc svc
same-After svc b = record {
  balanced = b.balanced;
  grown = omega arith;
  base = refl;
  change = Change.unchanged refl;
}

pub adds-After :
    (svc : Service) (s' : FileCacheSet) (path name : Bytes) (i : ℕ)
    → Before svc
    → SetsCount svc.set s' name i (add32 (count_in svc.set name i) 1)
    → get_object_id_from_path path ≡ some i
    → (i == 0) ≡ false
    → get_type_name_from_path svc.set.base_dir_name path ≡ name
    → is_empty name ≡ false
    → After Label.opening svc (record { set = s'; subscribers = svc.subscribers ++ path ∷ [] })
adds-After svc s' path name i b h e z t n = record {
  balanced = adds-IsBalanced svc s' path name i h b.few e z t n b.balanced;
  grown = omega (arith, length-append svc.subscribers (path ∷ []));
  base = h.base;
  change =
      Change.extended path refl (record { obj_id = i; read = e; positive = z; named = rw (t) n })
        refl;
}

-- Where the reading of the path name ends a handler, and where it goes on.
pub on_path-Afters {ℓ} :
    {A : Type ℓ} {l : Label} (svc : Service) (path : Bytes) (invalid gone : A × Service)
    (f : ℕ → Option (A × Service))
    → After l svc invalid.1
    → After l svc gone.1
    → ((i : ℕ)
        → get_object_id_from_path path ≡ some i
        → (i == 0) ≡ false
        → get_type_name_from_path svc.set.base_dir_name path ≡ get_type_for_object_id svc.set i
        → Afters l svc (f i))
    → Afters l svc (on_path svc.set path invalid gone f)
on_path-Afters svc path invalid gone f h k g = elim (Option-cases (get_object_id_from_path path)) [
  | inl e ↦ rw (e, Afters) tt
  | inr (i, e) ↦ elim (Bool-cases (i == 0)) [
    | inl z ↦ rw (e, z, Afters) h
    | inr z ↦
        let name = get_type_name_from_path svc.set.base_dir_name path in
        elim (Bool-cases (bytes_eq name (get_type_for_object_id svc.set i))) [
          | inl same ↦ rw (e, z, same, Afters) (g i e z ((bytes_eq_iff _ _).0 same))
          | inr other ↦ rw (e, z, other, Afters) k
        ]
  ]
]

pub define_type-After :
    (os : Os) (address : ℕ) (svc : Service) (file : Option Entries) (p : Payload)
    → IsPlain (get_or [] p.type_name)
    → Before svc
    → After Label.call svc (Types.define_type os address svc file p).1
unfolding Types.define_type
define_type-After os address svc file p plain b =
    let same = same-After {l = Label.call} svc b in
    let kept = keeps-After {l = Label.call} svc _ b (
      define_type-SetCounts os address svc.set (get_or [] p.type_name) file
        (some (payload_params p)) (get_or false p.dir_type) plain) in
    ground (arith, same, kept)

pub change_type-After :
    (os : Os) (svc : Service) (file : Option Entries) (p : Payload)
    → Before svc
    → After Label.call svc (Types.change_type os svc file p).1
unfolding Types.change_type
change_type-After os svc file p b =
    let kept =
      keeps-After {l = Label.call} svc _ b
        (change_type-SetCounts os svc.set (get_or [] p.type_name) file (payload_params p)) in
    let same = same-After {l = Label.call} svc b in ground (arith, same, kept)

pub delete_type-After :
    (os : Os) (svc : Service) (p : Payload)
    → Before svc
    → After Label.call svc (Types.delete_type os svc p).1
unfolding Types.delete_type
delete_type-After os svc p b =
    let kept =
      keeps-After {l = Label.call} svc _ b
        (delete_type-SetCounts os svc.set (get_or [] p.type_name)) in
    ground (arith, kept)

resize_answer-Afters :
    (svc : Service) (new_size : ℕ) (r : Option (ℕ × FileCacheSet))
    → Before svc
    → Kept svc.set r
    → Afters Label.call svc (resize_answer svc new_size r)
resize_answer-Afters svc new_size none b k = tt
resize_answer-Afters svc new_size (some (size, s)) b k = keeps-After svc s b k

pub resize_cache_object-Afters :
    (os : Os) (svc : Service) (p : Payload)
    → Before svc
    → Afters Label.call svc (Objects.resize_cache_object os svc p)
unfolding Objects.resize_cache_object
resize_cache_object-Afters os svc p b = elim (Option-cases p.new_size) [
  | inl e ↦ rw (e) tt
  | inr (new_size, e) ↦ rw (e) (
      on_path-Afters svc (get_or [] p.path_name) _ _ _ (same-After svc b) (same-After svc b)
        (λ i r z t.
          resize_answer-Afters svc _ _ b (resize-Kept os svc.set i (new_size % word_mod))))
]

pub expire_cache_object-Afters :
    (os : Os) (svc : Service) (p : Payload)
    → Before svc
    → Afters Label.call svc (Objects.expire_cache_object os svc p)
unfolding Objects.expire_cache_object
expire_cache_object-Afters os svc p b =
    let same = same-After {l = Label.call} svc b in
    on_path-Afters svc (get_or [] p.path_name) _ _ _ same (ground (arith, same)) (λ i r z t.
      keeps-After svc _ b (CleansSet-SetCounts (expire_cache_object-CleansSet os svc.set i)))

pub touch_cache_object-Afters :
    (os : Os) (svc : Service) (p : Payload)
    → Before svc
    → Afters Label.call svc (Objects.touch_cache_object os svc p)
unfolding Objects.touch_cache_object
touch_cache_object-Afters os svc p b =
    let same = same-After {l = Label.call} svc b in
    on_path-Afters svc (get_or [] p.path_name) _ _ _ same same
      (λ i r z t. keeps-After svc _ b (touch-SetCounts os svc.set i))
