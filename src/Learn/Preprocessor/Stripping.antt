-- ===== src/Learn/Preprocessor/Stripping.antt =====
-- What learn/json_preprocessor.go makes of a text.
use observability_cli.Prelude.{
  ℕ, ◌≤◌, ◌<◌, ◌≡◌, refl, sym, ap, ◌∙◌, nat_beq, Bool, true, false, not, List, [], ◌∷◌, ◌++◌,
  length, if◌then◌else◌, All, arith,
}
use observability_cli.Learn.Preprocessor.{strip, backslash}

-- Two buffers one after the other, with the flag kept between them, give what one buffer of both
-- gives.
pub strip-append :
    (b : Bool) (cs ds : List ℕ)
    → let (flag, out) = strip b cs in
      let (flag', out') = strip flag ds in strip b (cs ++ ds) ≡ (flag', out ++ out')
unfolding strip
strip-append b [] ds = refl
strip-append true (c ∷ cs) ds = ground (arith, strip-append true cs ds, strip-append false cs ds)
strip-append false (c ∷ cs) ds = ground (arith, strip-append true cs ds, strip-append false cs ds)

pub length-strip : (b : Bool) (cs : List ℕ) → length (strip b cs).1 ≤ length cs
unfolding strip
length-strip b [] = omega arith
length-strip true (c ∷ cs) = ground (arith, length-strip true cs, length-strip false cs)
length-strip false (c ∷ cs) = ground (arith, length-strip true cs, length-strip false cs)

abbrev pub IsPrintable : ℕ → Type 0
IsPrintable c = 31 < c

strip-All : (b : Bool) (cs : List ℕ) → All IsPrintable (strip b cs).1
unfolding strip
strip-All b [] = tt
strip-All true (c ∷ cs) = ground (arith, strip-All true cs, strip-All false cs)
strip-All false (c ∷ cs) = ground (arith, strip-All true cs, strip-All false cs)

-- Whether the last of `cs` is a backslash that escapes what comes next.
abbrev pub escapes : Bool → List ℕ → Bool
escapes b [] = b
escapes b (c ∷ cs) = escapes (if nat_beq c backslash then not b else false) cs

strip-All_id : (b : Bool) (cs : List ℕ) → All IsPrintable cs → strip b cs ≡ (escapes b cs, cs)
unfolding strip
strip-All_id b [] h = refl
strip-All_id b (c ∷ cs) h =
    ground (arith, strip-All_id (if nat_beq c backslash then not b else false) cs h.1)

strip-escapes : (b : Bool) (cs : List ℕ) → (strip b cs).0 ≡ escapes b (strip b cs).1
unfolding strip
strip-escapes b [] = refl
strip-escapes true (c ∷ cs) = ground (arith, strip-escapes true cs, strip-escapes false cs)
strip-escapes false (c ∷ cs) = ground (arith, strip-escapes true cs, strip-escapes false cs)

-- The output has no control characters, is left alone when it is stripped again, and the flag says
-- whether its last character escapes the next one.
pub strip_lem :
    (b : Bool) (cs : List ℕ)
    → let (flag, out) = strip b cs in
      All IsPrintable out × (strip b out ≡ (flag, out)) × (flag ≡ escapes b out)
strip_lem b cs =
    let printable = strip-All b cs in
    let escaped = strip-escapes b cs in
    (
      printable,
      strip-All_id b (strip b cs).1 printable ∙ ap (λ flag. (flag, (strip b cs).1)) (sym escaped),
      escaped,
    )
