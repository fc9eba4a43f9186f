-- ===== src/Sequence.antt =====
-- The sequence numbers and the object ids of src/FileCacheSet.cpp: `ReadSequenceNumber`,
-- `WriteSequenceNumber` and `GetNextCachedObjectId`.
mod Unique
mod Restart
mod Tests
use filecache.Base.{
  ℕ, ◌+◌, ◌-◌, ◌*◌, ◌%◌, ◌^◌, Bool, true, false, ◌&&◌, Option, none, some, List, [], ◌∷◌, ◌++◌, ltb,
  ◌==◌, if◌then◌else◌, Bytes, codes,
}
use filecache.Base.Word.{word_mod}
use filecache.ObjectId.{is_empty, max_id}
use filecache.Os.{Os}
use filecache.Object.{sync_file}

-- `s_maxSeqBits`
abbrev pub max_seq_bits : ℕ
max_seq_bits = 22

-- `s_sequenceBumpCnt`
abbrev pub sequence_bump_cnt : ℕ
sequence_bump_cnt = 100

abbrev pub max_possible_seq_num : ℕ
max_possible_seq_num = 2 ^ max_seq_bits - 1

abbrev pub max_allow_seq_num : ℕ
max_allow_seq_num = max_possible_seq_num - max_possible_seq_num % sequence_bump_cnt

-- `m_sequenceNumber`, a `uint32_t`, and what the sequence file holds.
pub record Sequence : Type 0 where
  pub number : ℕ
  pub saved : Option ℕ

-- The temporary file is written and synced before it takes the place of the file.
unfoldable pub write_sequence_number : Os → Bytes → Sequence → Sequence
write_sequence_number os base_dir_name q =
    let tmp_file = base_dir_name ++ codes "/.sequenceNumber.tmp" in
    let written = os.write_file tmp_file && (sync_file os tmp_file && os.rename tmp_file) in
    if is_empty base_dir_name then q else if written then record q { saved = some q.number } else q

-- The number to begin with after a start.
abbrev pub bumped : ℕ → ℕ
bumped saved =
    let number = (saved + sequence_bump_cnt) % word_mod in
    if ltb number 1 then 1 else if ltb max_allow_seq_num number then 1 else number

unfoldable pub read_sequence_number : Os → Bytes → Option ℕ → Sequence
unfolding write_sequence_number
read_sequence_number os base_dir_name saved = elim saved [
  | none ↦ write_sequence_number os base_dir_name (record { number = 1; saved = none })
  | some n ↦ write_sequence_number os base_dir_name (record { number = bumped n; saved = some n })
]

-- The number of the round that `m_sequenceNumber` is in moves on, and is saved now and then.
unfoldable pub advance : Os → Bytes → Sequence → Sequence
unfolding write_sequence_number
advance os base_dir_name q =
    let q' : Sequence = record q { number = (q.number + 1) % word_mod } in
    if q'.number % sequence_bump_cnt == 0 then write_sequence_number os base_dir_name q' else q'

-- `GetRandomInteger`: the number that `fread` of /dev/urandom leaves in the variable, or `none` where
-- the file cannot be opened.
abbrev pub get_random_integer : Option ℕ → ℕ
get_random_integer none = 0
get_random_integer (some random) = random

abbrev pub make_id : ℕ → ℕ → ℕ
make_id rand_val number = (rand_val * 2 ^ max_seq_bits + number) % 2 ^ 64

abbrev pub is_valid_id : ℕ → Bool
is_valid_id obj_id = if ltb obj_id 1 then false else if ltb max_id obj_id then false else true

-- The loop asks for one random number in each round. `none`: it has not ended when the numbers
-- given are used up.
unfoldable pub get_next_cached_object_id :
    Os → Bytes → List ℕ → Sequence → Option (ℕ × List ℕ × Sequence)
get_next_cached_object_id os base_dir_name [] q = none
get_next_cached_object_id os base_dir_name (rand_val ∷ rand_vals) q =
    let obj_id = make_id rand_val q.number in
    let q' = advance os base_dir_name q in
    let again = get_next_cached_object_id os base_dir_name rand_vals q' in
    if is_valid_id obj_id then some (obj_id, rand_vals, q') else again
