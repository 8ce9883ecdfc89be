-- ===== src/Core/Format.antt =====
-- `ArchiveFormat` and `detect_format` of archive/format.rs.
use gpzip.Prelude.{
  ℕ, ◌+◌, Bool, true, false, ◌==◌, leb, ◌&&◌, ◌||◌, if◌then◌else◌, Option, none, some, ◌>>=◌, List,
  [], ◌∷◌, map,
}
use gpzip.Core.Algorithm.{Algorithm, Name, deflate, gzip, zstd, lzma, bzip2}
use gpzip.Core.Suffix

pub data ArchiveFormat : Type 0 where
  zip : ArchiveFormat
  tar : ArchiveFormat
  tar_gz : ArchiveFormat
  tar_zst : ArchiveFormat
  tar_xz : ArchiveFormat
  tar_bz2 : ArchiveFormat
  rar : ArchiveFormat
  seven_z : ArchiveFormat

unfoldable pub payload_algorithm : ArchiveFormat → Option Algorithm
payload_algorithm zip = some deflate
payload_algorithm tar_gz = some gzip
payload_algorithm tar_zst = some zstd
payload_algorithm tar_xz = some lzma
payload_algorithm seven_z = some lzma
payload_algorithm tar_bz2 = some bzip2
payload_algorithm rar = some Algorithm.rar
payload_algorithm tar = none

unfoldable pub is_writable : ArchiveFormat → Bool
is_writable zip = true
is_writable tar = true
is_writable tar_gz = true
is_writable tar_zst = true
is_writable tar_xz = false
is_writable tar_bz2 = false
is_writable rar = false
is_writable seven_z = false

-- `to_ascii_lowercase` of a code point.
unfoldable pub to_lower : ℕ → ℕ
to_lower c = if leb 65 c && leb c 90 then c + 32 else c

unfoldable pub reverse_onto : List ℕ → List ℕ → List ℕ
reverse_onto [] acc = acc
reverse_onto (x ∷ xs) acc = reverse_onto xs (x ∷ acc)

unfoldable pub starts_with : List ℕ → List ℕ → Bool
starts_with [] name = true
starts_with (x ∷ xs) [] = false
starts_with (x ∷ xs) (y ∷ ys) = (x == y) && starts_with xs ys

-- `name.ends_with(suffix)`, from the back.
unfoldable pub ends_with : List ℕ → List ℕ → Bool
unfolding reverse_onto starts_with
ends_with suffix name = starts_with (reverse_onto suffix []) (reverse_onto name [])

-- The tests in their order, where `ends` is `name.ends_with`.
unfoldable pub detect_by : (Name → Bool) → Option ArchiveFormat
detect_by ends =
    if ends Suffix.tar_gz || ends Suffix.tgz
    then some tar_gz
    else if ends Suffix.tar_zst || ends Suffix.tzst
    then some tar_zst
    else if ends Suffix.tar_xz || ends Suffix.txz
    then some tar_xz
    else if ends Suffix.tar_bz2 || (ends Suffix.tbz2 || ends Suffix.tbz)
    then some tar_bz2
    else if ends Suffix.tar
    then some tar
    else if ends Suffix.zip
    then some zip
    else if ends Suffix.rar
    then some rar
    else if ends Suffix.seven_z
    then some seven_z
    else none

-- The file name of the path, where it has one that is valid Unicode.
unfoldable pub detect_format : Option Name → Option ArchiveFormat
unfolding to_lower ends_with detect_by
detect_format file_name = do
  name ← file_name
  detect_by (λ suffix. ends_with suffix (map to_lower name))
