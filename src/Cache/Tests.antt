-- ===== src/Cache/Tests.antt =====
-- A cache of two songs, one of which is being written.
use filecache.Base.{◌≡◌, refl, true, false, [], ◌∷◌, codes}
use filecache.Base.Map.{ℕ_key}
use filecache.BlockSize.{get_filesystem_file_size}
use filecache.Object.{CacheObject}
use filecache.Object.Removal.{unlink}
use filecache.Cache.Removal.{destroy}
use filecache.Cache.{FileCache, is_cleanable, has_subscribed, back, pop_back}
use filecache.Cache.Accounting.{IsAccounted}

abbrev pub draft : CacheObject
draft = record {
  id = 5;
  size = 4096;
  cost = 3;
  lifetime = 60;
  subscription_count = 1;
  filename = codes "song.mp3";
  written = false;
  expired = false;
  dir_type = false;
  creation_time = 900;
  last_access_time = 900;
}

abbrev pub song : CacheObject
song = record draft { id = 6; written = true; subscription_count = 0 }

abbrev pub music : FileCache
music = record {
  address = 1;
  cache_type = codes "music";
  num_objects = 2;
  cache_size = 16384;
  lo_watermark = 8192;
  hi_watermark = 40960;
  default_size = 4096;
  default_lifetime = 1;
  default_cost = 0;
  dir_type = false;
  cached_objects = (5, draft) ∷ (6, song) ∷ [];
  cache_list = 5 ∷ 6 ∷ [];
}

music-IsAccounted : IsAccounted music
unfolding get_filesystem_file_size
music-IsAccounted = record { count = refl; size = refl }

least_used : back music.cache_list ≡ 6
unfolding back
least_used = refl

others : pop_back music.cache_list ≡ 5 ∷ []
unfolding pop_back
others = refl

removed_with_song :
    destroy (codes "/var/cache") music ≡ unlink (codes "/var/cache/music/Type.defaults") ∷ []
unfolding destroy is_cleanable has_subscribed
removed_with_song = refl
