-- ===== src/Deflate/Dynamic/Legible.antt =====
-- A plan whose block can be read: the codes fit side by side, and all symbols that are written have one.
use gpzip.Prelude.{
  ℕ, ◌≤◌, ◌<◌, ◌≡◌, refl, ap, subst, bind_some, Option, none, some, List, [], ◌∷◌, ◌++◌, All,
  length, length-append, length-take, get_or, replicate, length-replicate, take, arith,
}
use gpzip.Huffman.Kraft.{Fits}
use gpzip.Huffman.Coded.{try_build_code_lengths-IsCoded}
use gpzip.Deflate.Rle.{RleEntry, rle_encode_lengths}
use gpzip.Deflate.RleReader.{meaning, readable, readable-meaning, expand}
use gpzip.Deflate.RleRoundTrip.{expand-rle_encode_lengths}
use gpzip.Deflate.Trim.{trim_to_min}
use gpzip.Deflate.Dynamic.Plan.{
  Freqs, Plan, fix_dist, fix_litlen, listed_lengths, plan_lengths, plan_block,
}
use gpzip.Deflate.Dynamic.PlanBounds.{
  FitsBlock, planned, plan_block-FitsBlock, fix_dist-IsLimited, fix_litlen-IsLimited,
  listed_lengths-small,
}
use gpzip.Deflate.Dynamic.RleBounds.{rle_encode_lengths-FitsExtra}
use gpzip.Deflate.Dynamic.Steps.{FitsExtra}
use gpzip.Deflate.Dynamic.Total.{Counters, zeros-Counters, count_codes_total, lengths_total}
use gpzip.Deflate.Dynamic.Repair.{fix_dist-Fits, fix_dist-pos, fix_litlen-Fits, fix_litlen-pos}
use gpzip.Deflate.Dynamic.Counts.{Grows, zeros-Counted, count_codes_counts}

pub record Legible (f : Freqs) (p : Plan) : Type 0 where
  pub is_planned : p ≡ planned p.litlen_lens p.dist_lens p.meta_lens
  pub block : FitsBlock p
  pub litlen_fits : Fits 15 p.litlen_lens
  pub dist_fits : Fits 15 p.dist_lens
  pub meta_fits : Fits 7 p.meta_lens
  pub litlen_used : Grows f.litlen_freq p.litlen_lens
  pub dist_used : Grows f.dist_freq p.dist_lens
  pub meta_used :
      All
        (λ e. 0 < get_or p.meta_lens e.code 0)
        (rle_encode_lengths (listed_lengths p.litlen_lens p.dist_lens))

-- Every entry stands for one length at least.
pub meaning-pos : (e : RleEntry) (prev : Option ℕ) (m : ℕ × ℕ) → meaning e prev ≡ some m → 1 ≤ m.0
meaning-pos e prev (n, l) h = ground (arith, h)

pub length-expand :
    (es : List RleEntry) (prev : Option ℕ) (ls : List ℕ)
    → expand es prev ≡ some ls
    → length es ≤ length ls
unfolding expand
length-expand [] prev ls h = omega arith
length-expand (e ∷ es) prev ls h =
    let (m, first, next) = bind_some (readable e prev) _ ls h in
    let (rest, later, last) = bind_some (expand es (some m.1)) _ ls next in
    let whole : replicate m.0 m.1 ++ rest ≡ ls = cc in
    omega (
      arith,
      ap length whole,
      length-append (replicate m.0 m.1) rest,
      length-replicate {A = ℕ} m.0 m.1,
      meaning-pos e prev m (readable-meaning e prev m first).1,
      length-expand es (some m.1) rest later,
    )

pub below_16 : (xs : List ℕ) → All (λ l. l ≤ 15) xs → All (λ l. l < 16) xs
below_16 [] h = tt
below_16 (x ∷ xs) h = (omega arith, below_16 xs h.1)

codes_below : (es : List RleEntry) → All FitsExtra es → All (λ e. e.code < 19) es
codes_below [] h = tt
codes_below (e ∷ es) h = (h.0.2, codes_below es h.1)

used_entries :
    (freq lens : List ℕ) (es : List RleEntry)
    → Grows freq lens
    → All (λ e. 0 < get_or freq e.code 0) es
    → All (λ e. 0 < get_or lens e.code 0) es
used_entries freq lens [] g h = tt
used_entries freq lens (e ∷ es) g h = (g e.code h.0, used_entries freq lens es g h.1)

length-listed :
    (litlen dist : List ℕ)
    → length litlen ≡ 286
    → length dist ≡ 30
    → length (listed_lengths litlen dist) ≤ 316
unfolding listed_lengths
length-listed litlen dist l d =
    let a : List ℕ = take (trim_to_min litlen 257) litlen in
    let b : List ℕ = take (trim_to_min dist 1) dist in
    omega (
      arith,
      length-append a b,
      length-take (trim_to_min litlen 257) litlen,
      length-take (trim_to_min dist 1) dist,
    )

-- From 286 and 30 counters of 32 bits, with the end of the block counted, such a plan is made.
pub plan_block-Legible :
    (f : Freqs)
    → Counters 286 f.litlen_freq
    → Counters 30 f.dist_freq
    → 0 < get_or f.litlen_freq 256 0
    → (p : Plan) × (plan_block rle_encode_lengths f ≡ some (some p)) × Legible f p
plan_block-Legible f cl cd ending =
    let (l, built, lb) = lengths_total 286 15 f.litlen_freq (omega arith) (omega arith) cl in
    let (d, built', db) = lengths_total 30 15 f.dist_freq (omega arith) (omega arith) cd in
    let lc =
      try_build_code_lengths-IsCoded f.litlen_freq 15 l (omega arith) (omega arith) cl.1
        (omega (arith, cl.0)) built in
    let dc =
      try_build_code_lengths-IsCoded f.dist_freq 15 d (omega arith) (omega arith) cd.1
        (omega (arith, cd.0)) built' in
    let litlen : List ℕ = fix_litlen l in
    let dist : List ℕ = fix_dist d in
    let litlen_b = fix_litlen-IsLimited l lb in
    let dist_b = fix_dist-IsLimited d db in
    let listed : List ℕ = listed_lengths litlen dist in
    let es : List RleEntry = rle_encode_lengths listed in
    let small = listed_lengths-small litlen dist litlen_b.small dist_b.small in
    let short = length-listed litlen dist litlen_b.enough dist_b.enough in
    let again = expand-rle_encode_lengths listed (below_16 listed small) in
    let few = length-expand es none listed again in
    let extras = rle_encode_lengths-FitsExtra listed small in
    let (freq, counted, _, used) =
      count_codes_counts es 0 (replicate 19 0) (codes_below es extras) (omega arith)
        (zeros-Counted 19) in
    let (freq', counted', c) = count_codes_total es (replicate 19 0) extras (zeros-Counters 19) in
    let same : freq ≡ freq' = cc in
    let (m, built'', _) = lengths_total 19 7 freq' (omega arith) (omega arith) c in
    let mc =
      try_build_code_lengths-IsCoded freq' 7 m (omega arith) (omega arith) c.1 (omega (arith, c.0))
        built'' in
    let p : Plan = planned litlen dist m in
    let made : plan_block rle_encode_lengths f ≡ some (some p) =
      unfold plan_block plan_lengths in rw (built, built', counted', built'') refl in
    (
      p,
      made,
      record {
        is_planned = refl;
        block = plan_block-FitsBlock f p (cl.0, cd.0) made;
        litlen_fits = fix_litlen-Fits l (lc.all 256 ending) lc.fits;
        dist_fits = fix_dist-Fits d dc.fits;
        meta_fits = mc.fits;
        litlen_used = λ s k. fix_litlen-pos l s (lc.all s k);
        dist_used = λ s k. fix_dist-pos d s (dc.all s k);
        meta_used =
            used_entries freq' m es mc.all
              (subst (λ q. All (λ e. 0 < get_or q e.code 0) es) same used);
      },
    )
