-- ===== src/Object/Tests.antt =====
-- An object that is being written, and one that was.
use filecache.Base.{All, ◌≡◌, refl, ◌⊎◌, inr, true, false, none, some, arith, codes, [], ◌∷◌}
use filecache.Os.Tests.{quiet_os}
use filecache.Os.{Os}
use filecache.ObjectId.{
  build_pathname, append_file, append_chars, get_char_n_from_object_id, get_file_extension,
}
use filecache.Object.Removal.{unlink, Spares, expire_removals, destroy, removals-Spares}
use filecache.Object.Validate.{Verdict, validate, is_valid, validate-stat_size, stat_size_negative}
use filecache.Object.{stat_size, CacheObject, Place, unsubscribe, expire, get_pathname}
use filecache.Object.Invariant.{IsWellFormed, Reach-IsWellFormed, here, next, unsubscribes, expires}
use filecache.Object.Lifecycle.{Committed, unsubscribe_writer}

abbrev music : Place
music = record { base_dir_name = codes "/var/cache"; cache_type = codes "music" }

abbrev draft : CacheObject
draft = record {
  id = 5;
  size = 4096;
  cost = 3;
  lifetime = 60;
  subscription_count = 1;
  filename = codes "song.mp3";
  written = false;
  expired = false;
  dir_type = false;
  creation_time = 900;
  last_access_time = 900;
}

abbrev song : CacheObject
song = record draft { written = true; subscription_count = 0 }

draft-IsWellFormed : IsWellFormed draft
draft-IsWellFormed = record {
  single_writer = inr (omega arith);
  lifetime_pos = (omega arith, omega arith);
  cost_bound = refl;
}

Reach-IsWellFormed_example :
    IsWellFormed (expire quiet_os music (unsubscribe quiet_os music draft).1).1
Reach-IsWellFormed_example = Reach-IsWellFormed {pl = music} draft-IsWellFormed (
    next (next here (unsubscribes quiet_os draft (omega arith)))
      (expires quiet_os (unsubscribe quiet_os music draft).1))

unsubscribe_writer_example :
    let (removed, o') = unsubscribe quiet_os music draft in
    ((removed ≡ false)
      × (o'.expired ≡ false)
      × Committed quiet_os (get_pathname quiet_os music draft false) draft o')
    ⊎ ((removed ≡ true) × (o'.expired ≡ true) × (o'.written ≡ false))
unsubscribe_writer_example = unsubscribe_writer quiet_os music draft refl refl refl (omega arith)

validate-stat_size_example :
    is_valid (validate quiet_os (λ p. none) music draft)
    ≡ (stat_size quiet_os (get_pathname quiet_os music draft false) draft).0
unfolding get_pathname build_pathname append_file append_chars get_char_n_from_object_id
    get_file_extension
validate-stat_size_example =
    validate-stat_size quiet_os (λ p. none) music draft 100 refl refl refl refl (omega arith)
      (omega arith) refl

-- A file of 3 GB.
abbrev big_os : Os
big_os = record quiet_os { stat = λ p. some 3000000000 }

stat_size_negative_example :
    (validate big_os (λ p. none) music draft ≡ Verdict.no_size)
    × (stat_size big_os (get_pathname big_os music draft false) draft
        ≡ (true, record draft { size = 3000000000 }))
unfolding get_pathname build_pathname append_file append_chars get_char_n_from_object_id
    get_file_extension
stat_size_negative_example =
    stat_size_negative big_os (λ p. none) music draft 3000000000 refl refl refl refl (omega arith)
      refl refl

abbrev second_draft : CacheObject
second_draft = record draft { id = 7 }

removals-Spares_example :
    All
      (Spares (get_pathname quiet_os music second_draft false))
      (expire_removals quiet_os music draft)
    × All
        (Spares (get_pathname quiet_os music second_draft false))
        (destroy quiet_os (λ p. true) music draft)
removals-Spares_example =
    removals-Spares quiet_os quiet_os (λ p. true) music music draft second_draft
      (record {
        positive = omega arith;
        small = omega arith;
        whole = refl;
        dots = inr (refl, refl);
      })
      (record {
        positive = omega arith;
        small = omega arith;
        whole = refl;
        dots = inr (refl, refl);
      })
      refl (λ e. ground (arith, e))

-- A subscribed object keeps its file, and the destructor unlinks it.
kept_draft :
    (expire_removals quiet_os music draft ≡ [])
    × (destroy quiet_os (λ p. false) music draft
        ≡ unlink (get_pathname quiet_os music draft false) ∷ [])
unfolding expire_removals destroy get_pathname build_pathname append_file append_chars
    get_char_n_from_object_id get_file_extension
kept_draft = (refl, refl)
