-- ===== src/Deflate/Dynamic/WrittenTokens.antt =====
-- The tokens of a dynamic block are read as the tokens that were written.
use gpzip.Prelude.{
  ℕ, suc, ◌+◌, ◌≤◌, ◌<◌, ◌≡◌, refl, ap, ap₂, sym, ◌∙◌, ltb, ◌==◌, inl, inr, true, false, none, some,
  List, [], ◌∷◌, ◌++◌, All, append_assoc, append-nil, length, length-append, get_or, arith,
}
use gpzip.Lz77.{Token, back_ref, is_literal}
use gpzip.Deflate.Stream.{lsb_bits}
use gpzip.Deflate.Accum.{BitWriter, contents, IsValid}
use gpzip.Deflate.Codes.{length_code, distance_code}
use gpzip.Deflate.Rows.{IsCode, length_code-IsCode, distance_code-IsCode}
use gpzip.Deflate.Inflate.{length_base, length_extra, distance_base, distance_extra}
use gpzip.Deflate.ReadBack.{read_lsb-lsb_bits}
use gpzip.Deflate.Fixed.{write_extra}
use gpzip.Deflate.TokenBits.{
  IsToken, Adds, Adds-trans, write_extra-Adds, length_extra-le, distance_extra-le,
}
use gpzip.Deflate.InflateDynamic.{read_symbol, read_reference, read_item, read_items}
use gpzip.Deflate.Dynamic.PlanBounds.{planned}
use gpzip.Deflate.Dynamic.Reference.{write_dynamic_token, write_dynamic_tokens}
use gpzip.Deflate.Dynamic.Counts.{Has}
use gpzip.Deflate.Dynamic.WrittenCode.{WritesCode}

-- The codes are written from one list of lengths, and read with another.
module _ (litlen dist meta read_litlen read_dist : List ℕ)
    (litlen_codes : (s : ℕ) (w : BitWriter)
      → 0 < get_or litlen s 0
      → IsValid w
      → WritesCode litlen read_litlen s w)
    (dist_codes : (s : ℕ) (w : BitWriter)
      → 0 < get_or dist s 0
      → IsValid w
      → WritesCode dist read_dist s w) where
  -- Writing a token adds bits that read back as the token.
  abbrev WritesItem : Token → BitWriter → Type 0
  WritesItem t w =
      (w' : BitWriter) × (write_dynamic_token (planned litlen dist meta) t w ≡ some w')
      × (bits : List ℕ) × Adds w bits w'
      × (1 ≤ length bits)
      × ((rest : List ℕ) → read_item read_litlen read_dist (bits ++ rest) ≡ some (some t, rest))

  write_literal :
      (t : Token) (w : BitWriter)
      → t.length ≡ 0
      → t.distance < 256
      → 0 < get_or litlen t.distance 0
      → IsValid w
      → WritesItem t w
  unfolding write_dynamic_token read_item
  write_literal t w e small pos v =
      let (w', ran, bits, adds, long, reads) = litlen_codes t.distance w pos v in
      (
        w',
        rw is_lit ran,
        bits,
        adds,
        long,
        λ rest.
            rw (reads rest)
              (rw is_byte (ap (λ l. some (some (back_ref l t.distance), rest)) (sym e))),
      )
    where
      is_lit : is_literal t ≡ true
      is_lit = ground arith

      is_byte : ltb t.distance 256 ≡ true
      is_byte = ground arith

  read_reference-bits :
      (l distance : ℕ) (s d : ℕ × ℕ × ℕ) (db rest : List ℕ)
      → IsCode length_base length_extra 257 285 l s
      → IsCode distance_base distance_extra 0 29 distance d
      → ((rest : List ℕ) → read_symbol read_dist (db ++ rest) ≡ some (d.0, rest))
      → read_reference read_dist s.0 (lsb_bits s.1 s.2 ++ (db ++ (lsb_bits d.1 d.2 ++ rest)))
        ≡ some (back_ref l distance, rest)
  unfolding read_reference
  read_reference-bits l distance (s, sw, sv) (d, dw, dv) db rest cl cd reads =
      rw (sym cl.width, read_lsb-lsb_bits sw sv (db ++ (lsb_bits dw dv ++ rest)) cl.fits)
        (rw (reads (lsb_bits dw dv ++ rest)) (
          rw (sym cd.width, read_lsb-lsb_bits dw dv rest cd.fits)
            (rw known (ap₂ (λ x y. some (back_ref x y, rest)) cl.adds_up cd.adds_up))))
    where
      known : ltb 29 d ≡ false
      known = ground (arith, cd.symbol)

  write_reference :
      (t : Token) (w : BitWriter)
      → (3 ≤ t.length) × (t.length ≤ 258) × (1 ≤ t.distance) × (t.distance ≤ 32768)
      → 0 < get_or litlen (length_code t.length).0 0
      → 0 < get_or dist (distance_code t.distance).0 0
      → IsValid w
      → WritesItem t w
  unfolding write_dynamic_token read_item
  write_reference t w (l3, l258, d1, dmax) pl pd v =
      let cl = length_code-IsCode t.length l3 l258 in
      let cd = distance_code-IsCode t.distance d1 dmax in
      let (s, sw, sv) = length_code t.length in
      let (d, dw, dv) = distance_code t.distance in
      let (w₁, ran, bits, adds, long, reads) = litlen_codes s w pl v in
      let w₂ : BitWriter = write_extra sv sw w₁ in
      let adds₂ : Adds w₁ (lsb_bits sw sv) w₂ =
        write_extra-Adds sv sw w₁ adds.1 (omega (arith, cl.width, length_extra-le s cl.symbol.1)) in
      let (w₃, ran₃, db, adds₃, _, reads₃) = dist_codes d w₂ pd adds₂.1 in
      let adds₄ : Adds w₃ (lsb_bits dw dv) (write_extra dv dw w₃) =
        write_extra-Adds dv dw w₃ adds₃.1
          (omega (arith, cd.width, distance_extra-le d cd.symbol.1)) in
      let extras : List ℕ = lsb_bits sw sv ++ (db ++ lsb_bits dw dv) in
      let not_byte : ltb s 256 ≡ false = ground (arith, cl.symbol) in
      let not_end : (s == 256) ≡ false = ground (arith, cl.symbol) in
      let known : ltb 285 s ≡ false = ground (arith, cl.symbol) in
      (
        write_extra dv dw w₃,
        rw (is_ref, ran) (rw ran₃ refl),
        bits ++ extras,
        Adds-trans w w₁ _ bits extras adds
            (Adds-trans w₁ w₂ _ _ _ adds₂ (Adds-trans w₂ w₃ _ _ _ adds₃ adds₄)),
        omega (arith, length-append bits extras),
        λ rest. rw (append_assoc bits extras rest) (
            rw (reads (extras ++ rest)) (
              rw (not_byte, not_end, known)
                (rw
                  (
                    apart (lsb_bits sw sv) db (lsb_bits dw dv) rest,
                    read_reference-bits t.length t.distance (length_code t.length)
                        (distance_code t.distance) db rest cl cd reads₃,
                  )
                  refl))),
      )
    where
      is_ref : is_literal t ≡ false
      is_ref = ground arith

      apart : (xs ys zs rest : List ℕ) → (xs ++ (ys ++ zs)) ++ rest ≡ xs ++ (ys ++ (zs ++ rest))
      apart xs ys zs rest =
          append_assoc xs (ys ++ zs) rest ∙ ap (λ t. xs ++ t) (append_assoc ys zs rest)

  write_dynamic_token-WritesItem :
      (t : Token) (w : BitWriter) → IsToken t → Has litlen dist t → IsValid w → WritesItem t w
  write_dynamic_token-WritesItem t w (inl (e, small)) (inl (e', pos)) v =
      write_literal t w e small pos v
  write_dynamic_token-WritesItem t w (inl (e, small)) (inr (r, pos, pos')) v =
      absurd (omega (arith, r.0))
  write_dynamic_token-WritesItem t w (inr r) (inl (e', pos)) v = absurd (omega (arith, r.0))
  write_dynamic_token-WritesItem t w (inr h) (inr (h', pl, pd)) v = write_reference t w h pl pd v

  abbrev pub WritesItems : List Token → BitWriter → Type 0
  WritesItems ts w =
      (w' : BitWriter) × (write_dynamic_tokens (planned litlen dist meta) ts w ≡ some w')
      × (bits : List ℕ) × Adds w bits w'
      × (length ts ≤ length bits)
      × ((fuel : ℕ) (us : List Token) (rest rest' : List ℕ)
          → read_items read_litlen read_dist fuel rest ≡ some (us, rest')
          → read_items read_litlen read_dist (length ts + fuel) (bits ++ rest)
            ≡ some (ts ++ us, rest'))

  read_items-cons :
      (fuel : ℕ) (bits rest rest' : List ℕ) (t : Token) (ts : List Token)
      → read_item read_litlen read_dist bits ≡ some (some t, rest)
      → read_items read_litlen read_dist fuel rest ≡ some (ts, rest')
      → read_items read_litlen read_dist (suc fuel) bits ≡ some (t ∷ ts, rest')
  unfolding read_items
  read_items-cons fuel bits rest rest' t ts e e' = rw (e, read_items) (rw e')

  pub write_dynamic_tokens-WritesItems :
      (ts : List Token) (w : BitWriter)
      → All IsToken ts
      → All (Has litlen dist) ts
      → IsValid w
      → WritesItems ts w
  unfolding write_dynamic_tokens
  write_dynamic_tokens-WritesItems [] w h k v = (
    w,
    refl,
    [],
    (sym (append-nil (contents w)), v),
    omega arith,
    λ fuel us rest rest' e. ap (λ k. read_items read_litlen read_dist k rest) (omega arith) ∙ e,
  )
  write_dynamic_tokens-WritesItems (t ∷ ts) w (h, hs) (k, ks) v =
      let (w₁, ran₁, bits₁, adds₁, long₁, reads₁) = write_dynamic_token-WritesItem t w h k v in
      let (w₂, ran₂, bits₂, adds₂, long₂, reads₂) =
        write_dynamic_tokens-WritesItems ts w₁ hs ks adds₁.1 in
      (
        w₂,
        rw ran₁ ran₂,
        bits₁ ++ bits₂,
        Adds-trans w w₁ w₂ bits₁ bits₂ adds₁ adds₂,
        omega (arith, length-append bits₁ bits₂),
        λ fuel us rest rest' e.
            ap (read_items read_litlen read_dist (suc (length ts) + fuel))
              (append_assoc bits₁ bits₂ rest)
            ∙ ap (λ k. read_items read_litlen read_dist k (bits₁ ++ (bits₂ ++ rest))) (omega arith)
            ∙ read_items-cons (length ts + fuel) (bits₁ ++ (bits₂ ++ rest)) (bits₂ ++ rest) rest' t
                (ts ++ us) (reads₁ (bits₂ ++ rest)) (reads₂ fuel us rest rest' e),
      )

  -- The end-of-block symbol reads as the end.
  pub read_items-end :
      (fuel : ℕ) (bits rest : List ℕ)
      → read_symbol read_litlen bits ≡ some (256, rest)
      → read_items read_litlen read_dist (suc fuel) bits ≡ some ([], rest)
  unfolding read_items
  read_items-end fuel bits rest e = rw (end_item, read_items) refl
    where
      end_item : read_item read_litlen read_dist bits ≡ some (none, rest)
      end_item = unfold read_item in rw e refl
