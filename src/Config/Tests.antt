-- ===== src/Config/Tests.antt =====
-- The configuration of a type, written and read.
use filecache.Base.{◌≡◌, refl, true, none, codes}
use filecache.Os.Tests.{quiet_os}
use filecache.Object.{sync_file}
use filecache.Cache.{make}
use filecache.Cache.Tests.{music}
use filecache.Config.{write_config, read_config}
use filecache.Config.RoundTrip.{with_config, read_config-write_config}

read_config-write_config_example :
    read_config (make 2 (codes "music")) (write_config quiet_os (codes "/var/cache") music none).1
    ≡ (true, with_config (make 2 (codes "music")) music)
unfolding write_config sync_file
read_config-write_config_example =
    read_config-write_config quiet_os (codes "/var/cache") (make 2 (codes "music")) music none refl
