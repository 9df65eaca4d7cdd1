-- ===== src/Examples/Strings.antt =====
-- Identifiers and line wrapping at concrete inputs.
use drasl.Prelude.{◌≡◌, refl, arith, Bytes, codes, some, List, ◌∷◌, ◌++◌, length}
use drasl.Errors.{ok, ◌>>=◌}
use drasl.Util.{wrap}
use drasl.Util.Wrap.{wrap_lines, join_lines, AreLines, concat}
use drasl.Model.Ids.{
  uuid_to_id, id_to_uuid, hyphenated, uuid_to_id-id_to_uuid, id_to_uuid-uuid_to_id,
}

wrap_run :
    wrap (codes "abcdefg") 3 ≡ some (codes "abc" ++ (b'\n' ∷ (codes "def" ++ (b'\n' ∷ codes "g"))))
unfolding wrap
wrap_run = refl

wrap_lines_example :
    (lines : List Bytes) × (wrap (codes "abcdefg") 3 ≡ some (join_lines lines))
    × AreLines 3 lines
    × (concat lines ≡ codes "abcdefg")
wrap_lines_example = wrap_lines (codes "abcdefg") 3 (omega arith)

abbrev id : Bytes
id = codes "0123456789abcdef0123456789abcdef"

uuid_to_id-id_to_uuid_example :
    (uuid : Bytes) × (id_to_uuid id ≡ ok uuid) × (length uuid ≡ 36) × (uuid_to_id uuid ≡ ok id)
uuid_to_id-id_to_uuid_example = uuid_to_id-id_to_uuid id refl (omega arith)

abbrev uuid : Bytes
uuid =
    hyphenated (codes "01234567") (codes "89ab") (codes "cdef") (codes "0123")
      (codes "456789abcdef")

id_to_uuid-uuid_to_id_example : (uuid_to_id uuid >>= id_to_uuid) ≡ ok uuid
id_to_uuid-uuid_to_id_example =
    id_to_uuid-uuid_to_id (codes "01234567") (codes "89ab") (codes "cdef") (codes "0123")
      (codes "456789abcdef") refl refl refl refl refl (omega arith)
