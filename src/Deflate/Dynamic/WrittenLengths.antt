-- ===== src/Deflate/Dynamic/WrittenLengths.antt =====
-- The list of code lengths in the header is read as the lengths that it stands for.
use gpzip.Prelude.{
  ℕ, zero, suc, ◌+◌, ◌≤◌, ◌<◌, ◌≡◌, refl, ap, sym, ◌∙◌, Option, some, List, [], ◌∷◌, ◌++◌, All,
  append_assoc, append-nil, length, length-append, length-replicate, get_or, replicate, bind_some,
  arith,
}
use gpzip.Huffman.Bounds.{IsLimited}
use gpzip.Huffman.Kraft.{Fits}
use gpzip.Deflate.Stream.{lsb_bits}
use gpzip.Deflate.Accum.{BitWriter, contents, IsValid}
use gpzip.Deflate.ReadBack.{read_lsb-lsb_bits}
use gpzip.Deflate.Rle.{RleEntry}
use gpzip.Deflate.RleReader.{readable, readable-meaning, expand}
use gpzip.Deflate.Fixed.{write_extra}
use gpzip.Deflate.TokenBits.{Adds, Adds-trans, write_extra-Adds}
use gpzip.Deflate.InflateDynamic.{read_symbol, read_lengths}
use gpzip.Deflate.Dynamic.Reference.{write_rle}
use gpzip.Deflate.Dynamic.Steps.{FitsExtra}
use gpzip.Deflate.Dynamic.WrittenCode.{
  WritesLengths, write_code-WritesCode, read_lengths-nil, read_lengths-cons,
}

module _ (meta : List ℕ) (limited : IsLimited 19 7 meta) (fits : Fits 7 meta) where
  read_entry :
      (e : RleEntry) (es : List RleEntry) (bits bits' : List ℕ)
      → FitsExtra e
      → ((rest : List ℕ) → read_symbol meta (bits ++ rest) ≡ some (e.code, rest))
      → ((fuel : ℕ) (prev : Option ℕ) (ls rest : List ℕ)
          → expand es prev ≡ some ls
          → length es ≤ fuel
          → read_lengths meta fuel (length ls) prev (bits' ++ rest) ≡ some (ls, rest))
      → (fuel : ℕ) (prev : Option ℕ) (ls rest : List ℕ) → expand (e ∷ es) prev ≡ some ls
      → suc (length es) ≤ fuel
      → read_lengths meta fuel
          (length ls)
          prev
          ((bits ++ (lsb_bits e.extra_bits e.extra_value ++ bits')) ++ rest)
        ≡ some (ls, rest)
  unfolding expand
  read_entry e es bits bits' fit reads reads' zero prev ls rest h enough = absurd (omega arith)
  read_entry e es bits bits' fit reads reads' (suc fuel) prev ls rest h enough =
      let extra : List ℕ = lsb_bits e.extra_bits e.extra_value in
      let (m, read_as, next) = bind_some (readable e prev) _ ls h in
      let (width, means) = readable-meaning e prev m read_as in
      let (ks, more, last) = bind_some (expand es (some m.1)) _ ls next in
      let whole : replicate m.0 m.1 ++ ks ≡ ls = cc in
      let long : m.0 + length ks ≡ length ls = omega (
        arith,
        ap length whole,
        length-append (replicate m.0 m.1) ks,
        length-replicate {A = ℕ} m.0 m.1,
      ) in
      let apart : (bits ++ (extra ++ bits')) ++ rest ≡ bits ++ (extra ++ (bits' ++ rest)) =
        append_assoc bits (extra ++ bits') rest
        ∙ ap (λ t. bits ++ t) (append_assoc extra bits' rest) in
      let read =
        read_lengths-cons meta fuel e prev m ks (bits ++ (extra ++ (bits' ++ rest)))
          (extra ++ (bits' ++ rest)) (bits' ++ rest) rest width (reads (extra ++ (bits' ++ rest)))
          (read_lsb-lsb_bits e.extra_bits e.extra_value (bits' ++ rest) fit.1) means
          (reads' fuel (some m.1) ks rest more (omega arith)) in
      rw apart (
        ap (λ (n : ℕ). read_lengths meta (suc fuel) n prev (bits ++ (extra ++ (bits' ++ rest))))
          (sym long)
        ∙ read
        ∙ ap (λ (t : List ℕ). some (t, rest)) whole)

  write_entry :
      (e : RleEntry) (es : List RleEntry) (w : BitWriter)
      → FitsExtra e
      → 0 < get_or meta e.code 0
      → IsValid w
      → ((w₁ : BitWriter) → IsValid w₁ → WritesLengths meta es w₁)
      → WritesLengths meta (e ∷ es) w
  unfolding write_rle
  write_entry e es w (wide, small, below) used v later =
      let (w₁, ran, bits, adds, _, reads) =
        write_code-WritesCode 7 meta meta e.code w (omega arith) limited.small
          (omega (arith, limited.enough)) fits (λ bits. refl) used v in
      let w₂ : BitWriter = write_extra e.extra_value e.extra_bits w₁ in
      let extra : List ℕ = lsb_bits e.extra_bits e.extra_value in
      let adds₂ : Adds w₁ extra w₂ = write_extra-Adds e.extra_value e.extra_bits w₁ adds.1 wide in
      let (w₃, ran', bits', adds₃, reads') = later w₂ adds₂.1 in
      (
        w₃,
        rw ran ran',
        bits ++ (extra ++ bits'),
        Adds-trans w w₁ w₃ bits (extra ++ bits') adds (Adds-trans w₁ w₂ w₃ extra bits' adds₂ adds₃),
        read_entry e es bits bits' (wide, small, below) reads reads',
      )

  pub write_rle-WritesLengths :
      (es : List RleEntry) (w : BitWriter)
      → All FitsExtra es
      → All (λ e. 0 < get_or meta e.code 0) es
      → IsValid w
      → WritesLengths meta es w
  write_rle-WritesLengths [] w h hu v = (
    w,
    unfold write_rle in refl,
    [],
    (sym (append-nil (contents w)), v),
    λ fuel prev ls rest e enough. nothing fuel prev ls rest e,
  )
    where
      nothing :
          (fuel : ℕ) (prev : Option ℕ) (ls rest : List ℕ)
          → expand [] prev ≡ some ls
          → read_lengths meta fuel (length ls) prev rest ≡ some (ls, rest)
      nothing fuel prev [] rest e = read_lengths-nil meta fuel prev rest
      nothing fuel prev (l ∷ ls) rest e =
          let no : some [] ≡ some (l ∷ ls) = unfold expand in e in absurd cc
  write_rle-WritesLengths (e ∷ es) w (h, hs) (hu, hus) v =
      write_entry e es w h hu v (λ w₁ v₁. write_rle-WritesLengths es w₁ hs hus v₁)
