-- ===== src/Core/Detect.antt =====
-- `detect_format` knows a file by its ending, whatever comes before it and however it is capitalised.
use gpzip.Prelude.{ℕ, ◌≡◌, refl, ap, ◌∙◌, some, List, [], ◌∷◌, ◌++◌, All, map}
use gpzip.Core.Algorithm.{Name}
use gpzip.Core.Format.{
  ArchiveFormat, zip, tar, tar_gz, tar_zst, tar_xz, tar_bz2, rar, seven_z, to_lower, reverse_onto,
  starts_with, ends_with, detect_by, detect_format,
}
use gpzip.Core.Suffix

-- Each ending with the format that it stands for.
abbrev pub endings : List (Name × ArchiveFormat)
endings =
    (Suffix.tar_gz, tar_gz)
    ∷ (Suffix.tgz, tar_gz)
    ∷ (Suffix.tar_zst, tar_zst)
    ∷ (Suffix.tzst, tar_zst)
    ∷ (Suffix.tar_xz, tar_xz)
    ∷ (Suffix.txz, tar_xz)
    ∷ (Suffix.tar_bz2, tar_bz2)
    ∷ (Suffix.tbz2, tar_bz2)
    ∷ (Suffix.tbz, tar_bz2)
    ∷ (Suffix.tar, tar)
    ∷ (Suffix.zip, zip)
    ∷ (Suffix.rar, rar)
    ∷ (Suffix.seven_z, seven_z)
    ∷ []

reverse_onto-append :
    (xs ys acc : List ℕ) → reverse_onto (xs ++ ys) acc ≡ reverse_onto ys (reverse_onto xs acc)
unfolding reverse_onto
reverse_onto-append [] ys acc = refl
reverse_onto-append (x ∷ xs) ys acc = reverse_onto-append xs ys (x ∷ acc)

by_ending :
    (stem ending : Name) (f : ArchiveFormat)
    → detect_by (λ s. starts_with (reverse_onto s []) (reverse_onto ending (reverse_onto stem [])))
      ≡ some f
    → (name : Name) → map to_lower name ≡ stem ++ ending
    → detect_format (some name) ≡ some f
unfolding detect_format ends_with
by_ending stem ending f e name h =
    ap (λ n. detect_by (λ s. starts_with (reverse_onto s []) (reverse_onto n []))) h
    ∙ ap (λ r. detect_by (λ s. starts_with (reverse_onto s []) r))
        (reverse_onto-append stem ending [])
    ∙ e

-- A file whose name is, in lower case, anything and one of the thirteen endings has the format of that
-- ending.
pub detect_format-endings :
    (stem : Name)
    → All
        (λ e.
          (name : Name) → map to_lower name ≡ stem ++ e.0 → detect_format (some name) ≡ some e.1)
        endings
unfolding detect_by reverse_onto starts_with
detect_format-endings stem = (
  by_ending stem Suffix.tar_gz _ refl,
  (
    by_ending stem Suffix.tgz _ refl,
    (
      by_ending stem Suffix.tar_zst _ refl,
      (
        by_ending stem Suffix.tzst _ refl,
        (
          by_ending stem Suffix.tar_xz _ refl,
          (
            by_ending stem Suffix.txz _ refl,
            (
              by_ending stem Suffix.tar_bz2 _ refl,
              (
                by_ending stem Suffix.tbz2 _ refl,
                (
                  by_ending stem Suffix.tbz _ refl,
                  (
                    by_ending stem Suffix.tar _ refl,
                    (
                      by_ending stem Suffix.zip _ refl,
                      (
                        by_ending stem Suffix.rar _ refl,
                        (by_ending stem Suffix.seven_z _ refl, tt),
                      ),
                    ),
                  ),
                ),
              ),
            ),
          ),
        ),
      ),
    ),
  ),
)
