-- ===== src/Lfs/Tests.antt =====
-- A pointer of Git LFS, and the theorem at it.
use skillcdn.Common.{◌↔◌, ◌≡◌, refl, some, ◌++◌}
use skillcdn.Text.{Text, codes, has, same, starts_with, split}
use skillcdn.License.Words.{is_space, skip_spaces, trim}
use skillcdn.Lfs.{
  LfsPointer, is_lower_hex, read_oid, read_size, leading_digits, number_of, read_lines, pointer_of,
  names_version, parse_lfs_pointer,
}
use skillcdn.Lfs.Pointers.{IsPointer, parse_lfs_pointer_iff}

run : Unit {0}
unfolding has same starts_with split is_space skip_spaces trim is_lower_hex read_oid read_size
    leading_digits number_of read_lines pointer_of names_version parse_lfs_pointer
run = tt

abbrev hash : Text
hash = codes "0123456789abcdef0123456789abcdef0123456789abcdef0123456789abcdef"

abbrev text : Text
text =
    codes "version https://git-lfs.github.com/spec/v1\noid sha256:"
    ++ (hash ++ codes "\nsize 120\n")

abbrev pointer : LfsPointer
pointer = record { oid = hash; size = 120 }

parsed : parse_lfs_pointer text ≡ some pointer
unfolding run
parsed = refl

parse_lfs_pointer_iff_example : (parse_lfs_pointer text ≡ some pointer) ↔ IsPointer text pointer
parse_lfs_pointer_iff_example = parse_lfs_pointer_iff text pointer
