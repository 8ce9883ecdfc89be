-- ===== src/Core/Suffix.antt =====
-- The suffixes that format.rs has as string literals, in its order, by their code points.
use gpzip.Prelude.{[], ◌∷◌}
use gpzip.Core.Algorithm.{Name}

-- ".tar.gz"
abbrev pub tar_gz : Name
tar_gz = 46 ∷ 116 ∷ 97 ∷ 114 ∷ 46 ∷ 103 ∷ 122 ∷ []

-- ".tgz"
abbrev pub tgz : Name
tgz = 46 ∷ 116 ∷ 103 ∷ 122 ∷ []

-- ".tar.zst"
abbrev pub tar_zst : Name
tar_zst = 46 ∷ 116 ∷ 97 ∷ 114 ∷ 46 ∷ 122 ∷ 115 ∷ 116 ∷ []

-- ".tzst"
abbrev pub tzst : Name
tzst = 46 ∷ 116 ∷ 122 ∷ 115 ∷ 116 ∷ []

-- ".tar.xz"
abbrev pub tar_xz : Name
tar_xz = 46 ∷ 116 ∷ 97 ∷ 114 ∷ 46 ∷ 120 ∷ 122 ∷ []

-- ".txz"
abbrev pub txz : Name
txz = 46 ∷ 116 ∷ 120 ∷ 122 ∷ []

-- ".tar.bz2"
abbrev pub tar_bz2 : Name
tar_bz2 = 46 ∷ 116 ∷ 97 ∷ 114 ∷ 46 ∷ 98 ∷ 122 ∷ 50 ∷ []

-- ".tbz2"
abbrev pub tbz2 : Name
tbz2 = 46 ∷ 116 ∷ 98 ∷ 122 ∷ 50 ∷ []

-- ".tbz"
abbrev pub tbz : Name
tbz = 46 ∷ 116 ∷ 98 ∷ 122 ∷ []

-- ".tar"
abbrev pub tar : Name
tar = 46 ∷ 116 ∷ 97 ∷ 114 ∷ []

-- ".zip"
abbrev pub zip : Name
zip = 46 ∷ 122 ∷ 105 ∷ 112 ∷ []

-- ".rar"
abbrev pub rar : Name
rar = 46 ∷ 114 ∷ 97 ∷ 114 ∷ []

-- ".7z"
abbrev pub seven_z : Name
seven_z = 46 ∷ 55 ∷ 122 ∷ []
