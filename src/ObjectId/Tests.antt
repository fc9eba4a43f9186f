-- ===== src/ObjectId/Tests.antt =====
-- Path names and ids.
use filecache.Base.{◌≡◌, refl, inl, true, some, false, ◌∷◌, ◌++◌, arith, codes}
use filecache.ObjectId.{
  build_pathname, append_file, append_chars, get_char_n_from_object_id, id_before, end_position,
  find_last, scan_id, get_value_for_char, dot, get_object_id_from_path, get_file_extension,
}
use filecache.ObjectId.Codec.{get_object_id-build_pathname, get_object_id_dotted_type}

built :
    build_pathname
      (λ p. true)
      123456789123
      (codes "/var/file-cache")
      (codes "music")
      (codes "a.b.mp3")
      true
    ≡ codes "/var/file-cache/music/A/ABy+mRqD.mp3"
unfolding build_pathname append_file append_chars get_char_n_from_object_id get_file_extension
built = refl

read : get_object_id_from_path (codes "/var/file-cache/music/A/Bc37ZGDR.mp3") ≡ some 6382244094161
unfolding get_object_id_from_path id_before end_position find_last scan_id get_value_for_char
read = refl

get_object_id-build_pathname_example :
    get_object_id_from_path
      (build_pathname (λ p. true) 123456789123 (codes "/var") (codes "music") (codes "a.mp3") true)
    ≡ some 123456789123
unfolding build_pathname append_file append_chars get_char_n_from_object_id get_file_extension
get_object_id-build_pathname_example =
    get_object_id-build_pathname (λ p. true) 123456789123 (codes "/var") (codes "music")
      (codes "a.mp3") true (omega arith) refl (inl (λ e. absurd cc))

get_object_id_dotted_type_example :
    get_object_id_from_path (
      build_pathname
        (λ p. true)
        77
        (codes "/var")
        (codes "web" ++ dot ∷ codes "app")
        (codes "a")
        false)
    ≡ get_object_id_from_path (
        build_pathname
          (λ p. true)
          99
          (codes "/var")
          (codes "web" ++ dot ∷ codes "app")
          (codes "b")
          false)
unfolding get_file_extension
get_object_id_dotted_type_example =
    get_object_id_dotted_type (codes "/var") (codes "web") (codes "app") refl (λ p. true) 77 99
      (codes "a") (codes "b") (omega arith) (omega arith) refl refl
