-- ===== src/Walk/Restart/Tests.antt =====
-- Files of songs that are met again.
use filecache.Base.{All, map, ◌≡◌, List, [], ◌∷◌, refl, true, false, some, Bytes, codes, arith}
use filecache.Base.Map
use filecache.Base.Map.{ℕ_key, bytes_key}
use filecache.ObjectId.{
  is_empty, append_chars, append_file, build_pathname, find_last, get_char_n_from_object_id,
  get_file_extension,
}
use filecache.Os.Tests.{quiet_os}
use filecache.Object.{CacheObject, get_pathname}
use filecache.Cache.{place_of}
use filecache.Bus.Runs.Tests.{no_music, music_name}
use filecache.Walk.{occurs, process_files}
use filecache.Walk.Tree.{process_all}
use filecache.Walk.Found.{IsFinished}
use filecache.Walk.Restart.Stored.{IsStored, Restored, path_of, recorded, process_all_stored}
use filecache.Walk.Tests.{disk, walking}
use filecache.Walk.Restart.{IsAwaited, process_files_sequence_named}

-- A song as it was before.
abbrev song : Bytes → CacheObject
song filename = record {
  id = 12582920;
  size = 4096;
  cost = 1;
  lifetime = 60;
  subscription_count = 2;
  filename = filename;
  written = true;
  expired = true;
  dir_type = false;
  creation_time = 5;
  last_access_time = 7;
}

abbrev numbered_path : Bytes
numbered_path = codes "/var/cache/music/A/AAAAwAAI.sequenceNumber"

song-IsAwaited :
    (filename path : Bytes)
    → path
      ≡ get_pathname quiet_os (place_of walking.set.base_dir_name no_music) (song filename) false
    → is_empty path ≡ false
    → IsAwaited (disk 1) walking no_music (song filename) path
song-IsAwaited filename path e built = record {
  pathname = e;
  built = built;
  small = omega arith;
  base = refl;
  plain = record { no_dot = refl; no_slash = refl };
  met = refl;
  outside = refl;
}

numbered_IsAwaited :
    IsAwaited (disk 1) walking no_music (song (codes "list.sequenceNumber")) numbered_path
unfolding get_pathname build_pathname append_chars append_file get_char_n_from_object_id
    get_file_extension find_last
numbered_IsAwaited = song-IsAwaited (codes "list.sequenceNumber") numbered_path refl refl

process_files_sequence_named_example :
    process_files (disk 1) numbered_path walking ≡ some (true, walking)
unfolding get_file_extension find_last
process_files_sequence_named_example =
    process_files_sequence_named (disk 1) walking no_music (song (codes "list.sequenceNumber"))
      numbered_path 4096 numbered_IsAwaited refl refl

abbrev songs : List CacheObject
songs = song (codes "new.mp3") ∷ record (song (codes "new.mp3")) { id = 12582921 } ∷ []

songs-IsStored : All (IsStored (disk 1) (codes "/var/cache") music_name) songs
unfolding get_pathname build_pathname append_chars append_file get_char_n_from_object_id
    get_file_extension find_last occurs
songs-IsStored = (
  record {
    st_size = 4096;
    built = refl;
    small = omega arith;
    cost = refl;
    lifetime = refl;
    no_config = refl;
    no_number = refl;
    stat = refl;
    finished = finished;
  },
  (
    record {
      st_size = 4096;
      built = refl;
      small = omega arith;
      cost = refl;
      lifetime = refl;
      no_config = refl;
      no_number = refl;
      stat = refl;
      finished = finished;
    },
    tt,
  ),
)
  where
    finished : {path : Bytes} → IsFinished (disk 1) path 4096 (recorded (song (codes "new.mp3")))
    finished = record {
      number = 1;
      written = refl;
      nonzero = refl;
      chmod = refl;
      size = refl;
      same = refl;
      name = refl;
      cost = refl;
      lifetime = refl;
    }

process_all_stored_example :
    Restored
      (disk 1)
      (codes "/var/cache")
      music_name
      refl
      (record { no_dot = refl; no_slash = refl })
      walking
      no_music
      songs
      (process_all (disk 1) (map (path_of (disk 1) (codes "/var/cache") music_name) songs) walking)
unfolding Map.find
process_all_stored_example =
    process_all_stored (disk 1) (codes "/var/cache") music_name refl
      (record { no_dot = refl; no_slash = refl }) walking no_music songs
      (record { same_base = refl; met = refl; cache = refl; outside = refl }) songs-IsStored
      (refl, (refl, tt)) ((refl, tt), (tt, tt))
