-- ===== src/Sequence/Tests.antt =====
-- Ids of a run and of the next start.
use filecache.Base.{All, ℕ, ◌%◌, ◌^◌, ◌<◌, ◌≡◌, refl, none, some, List, [], ◌∷◌, arith, codes}
use filecache.Os.Tests.{quiet_os}
use filecache.Object.{sync_file}
use filecache.Sequence.{
  Sequence, max_seq_bits, get_next_cached_object_id, read_sequence_number, write_sequence_number,
  advance, get_random_integer,
}
use filecache.Sequence.Unique.{next_ids, Run, next_ids-Run}
use filecache.Sequence.Restart.{Writes, restart_above}

abbrev first : Sequence
first = record { number = 1; saved = some 1 }

one_round :
    get_next_cached_object_id quiet_os (codes "/var/cache") (3 ∷ []) first
    ≡ some (12582913, [], record { number = 2; saved = some 1 })
unfolding get_next_cached_object_id advance
one_round = refl

quiet_os-Writes : Writes quiet_os
quiet_os-Writes = record {
  writes = λ p. refl;
  opens = λ p. refl;
  syncs = λ p. refl;
  closes = λ p. refl;
  renames = λ p. refl;
}

next_ids-Run_example :
    (ids : List ℕ) × (q' : Sequence) × (next_ids quiet_os (codes "/var/cache") (7 ∷ 9 ∷ []) first
      ≡ some (ids, q'))
    × Run first 2 ids q'
next_ids-Run_example =
    next_ids-Run quiet_os (codes "/var/cache") (7 ∷ 9 ∷ []) first (omega arith, (omega arith, tt))
      (omega arith) (omega arith)

restart_above_example :
    (ids : List ℕ) × (q' : Sequence) × (next_ids quiet_os
        (codes "/var/cache")
        (7 ∷ [])
        (read_sequence_number quiet_os (codes "/var/cache") (some 300))
      ≡ some (ids, q'))
    × All
        (λ (i : ℕ).
          i % 2 ^ max_seq_bits
          < (read_sequence_number quiet_os (codes "/var/cache") q'.saved).number)
        ids
unfolding read_sequence_number write_sequence_number sync_file
restart_above_example =
    restart_above quiet_os (codes "/var/cache") (some 300) (7 ∷ []) quiet_os-Writes refl
      (omega arith, tt) (omega arith)

no_urandom : get_random_integer none ≡ 0
no_urandom = refl
