-- ===== src/Os/Tests.antt =====
-- A system on which every call succeeds, for the tests.
use filecache.Base.{true, some}
use filecache.Os.{Os, Mkdir}

abbrev pub quiet_os : Os
quiet_os = record {
  now = 1000;
  mkdir = λ p. Mkdir.made;
  create = λ p. true;
  chmod = λ p perms. true;
  setxattr = λ p a replace. true;
  stat = λ p. some 100;
  open_file = λ p. true;
  fsync = λ p. true;
  close_file = λ p. true;
  unlink = λ p. true;
  remove_all = λ p. true;
  write_file = λ p. true;
  rename = λ p. true;
}
