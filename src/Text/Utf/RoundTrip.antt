-- ===== src/Text/Utf/RoundTrip.antt =====
-- kernel/text/utf.cpp: UTF-16 that is written as UTF-8 and read back.
use shirleys_os.Text.Utf.Points.{Encodes, put-Encodes}
use shirleys_os.Text.Utf.{
  encode_from, decode_from, utf16_to_utf8, utf8_to_utf16, put, joined, units_of, behind_units,
  pair_point, high_surrogate, low_surrogate, width,
}
use shirleys_os.Prelude.{
  ℕ, zero, suc, ◌+◌, ◌-◌, ◌/◌, ◌%◌, ◌<◌, ◌≤◌, ◌≡◌, refl, ap, Bool, true, false, ltb, leb, ◌==◌,
  List, [], ◌∷◌, ◌++◌, Option, none, some, Bool-cases, inl, inr, arith, Option-cases, length,
  length-append, subst, ◌∙◌, append-nil, not, ◌&&◌,
}

abbrev pub AreUnits : List ℕ → Type 0
AreUnits [] = Unit
AreUnits (u ∷ units) = (u < 0x10000) × AreUnits units

-- No low surrogate comes first after a high one that stands alone.
abbrev Follows : Bool → List ℕ → Type 0
Follows after [] = Unit
Follows after (u ∷ units) = (after && low_surrogate u) ≡ false

-- A round over the bytes of a point.
decode_from-Encodes :
    (rounds left p : ℕ) (after : Bool) (bytes rest units : List ℕ)
    → Encodes p bytes
    → (after && low_surrogate p) ≡ false
    → length (units_of p) ≤ left
    → decode_from rounds (high_surrogate p) (left - length (units_of p)) rest ≡ (true, units)
    → decode_from (suc rounds) after left (bytes ++ rest) ≡ (true, units_of p ++ units)
unfolding decode_from behind_units
decode_from-Encodes rounds left p after bytes rest units (b, bs, e, back) f l h =
    let room : ltb left (length (units_of p)) ≡ false = ground arith in
    rw (e, decode_from, back rest, f, room, h, behind_units) refl

joined-some :
    (bytes out : List ℕ) (o : Option (List ℕ))
    → joined bytes o ≡ some out
    → (rest : List ℕ) × (o ≡ some rest) × (bytes ++ rest ≡ out)
unfolding joined
joined-some bytes out none e = absurd cc
joined-some bytes out (some rest) e = (rest, refl, cc)

-- A round of both loops: `units` are those behind the point.
decode_from-joined :
    (rounds left room p : ℕ) (after : Bool) (bytes out units : List ℕ) (o : Option (List ℕ))
    → p < 0x110000
    → put left p ≡ some bytes
    → (after && low_surrogate p) ≡ false
    → length (units_of p) ≤ room
    → joined bytes o ≡ some out
    → length out ≤ rounds
    → ((n : ℕ) (rest : List ℕ)
        → o ≡ some rest
        → length rest ≤ n
        → decode_from n (high_surrogate p) (room - length (units_of p)) rest ≡ (true, units))
    → decode_from rounds after room out ≡ (true, units_of p ++ units)
decode_from-joined rounds left room p after bytes out units o l e f r j enough behind =
    let (b, bs, is, back) = put-Encodes left p bytes l e in
    let (rest, found, whole) = joined-some bytes out o j in
    let long : length bytes ≡ suc (length bs) = ap (λ (x : List ℕ). length x) is in
    let both : length out ≡ length bytes + length rest =
      (subst (λ (x : List ℕ). length x ≡ length bytes + length rest) whole
        (length-append bytes rest)) in
    let (n, more) : (n : ℕ) × (rounds ≡ suc n) = (rounds - 1, omega arith) in
    rw more (
      subst (λ (x : List ℕ). decode_from (suc n) after room x ≡ (true, units_of p ++ units)) whole
        (decode_from-Encodes n room p after bytes rest units (b, bs, is, back) f r
          (behind n rest found (omega arith))))

units_of-one : (u : ℕ) → u < 0x10000 → units_of u ≡ u ∷ []
unfolding units_of
units_of-one u l = ground arith

module _ (u v : ℕ) (h : high_surrogate u ≡ true) (l : low_surrogate v ≡ true) where
  pair_bounds : (0xd800 ≤ u) × (u ≤ 0xdbff) × (0xdc00 ≤ v) × (v ≤ 0xdfff)
  unfolding high_surrogate low_surrogate
  pair_bounds = (ground arith, ground arith, ground arith, ground arith)

  pair_point-lt : (pair_point u v < 0x110000) × (0x10000 ≤ pair_point u v)
  unfolding pair_point
  pair_point-lt = let (a, b, c, d) = pair_bounds in (omega arith, omega arith)

  units_of-pair_point : units_of (pair_point u v) ≡ u ∷ v ∷ []
  unfolding units_of pair_point
  units_of-pair_point =
      let (a, b, c, d) = pair_bounds in
      let e : leb 0x10000 (pair_point u v) ≡ true = ground arith in
      let f : 0xd800 + (pair_point u v - 0x10000) / 1024 ≡ u = omega arith in
      let g : 0xdc00 + (pair_point u v - 0x10000) % 1024 ≡ v = omega arith in
      rw (units_of, e, f, g) refl

  pair_point-plain :
      (high_surrogate (pair_point u v) ≡ false) × (low_surrogate (pair_point u v) ≡ false)
  unfolding high_surrogate low_surrogate
  pair_point-plain = let (a, b) = pair_point-lt in (ground arith, ground arith)

joined-nil : (bytes : List ℕ) → joined bytes (some []) ≡ some bytes
unfolding joined
joined-nil bytes = ap (λ (x : List ℕ). some x) (append-nil bytes)

Follows-false : (after : Bool) (units : List ℕ) → after ≡ false → Follows after units
Follows-false after [] e = tt
Follows-false after (u ∷ units) e = ground (arith, e)

-- No bytes are left, so the loop ends.
decode_from-[] : (n room : ℕ) (after : Bool) → decode_from n after room [] ≡ (true, [])
unfolding decode_from
decode_from-[] zero room after = refl
decode_from-[] (suc n) room after = refl

decode_from-encode_from :
    (units : List ℕ) (left rounds room : ℕ) (after : Bool) (out : List ℕ)
    → AreUnits units
    → Follows after units
    → length units ≤ room
    → encode_from units left ≡ some out
    → length out ≤ rounds
    → decode_from rounds after room out ≡ (true, units)
unfolding encode_from
decode_from-encode_from [] left rounds room after out a f l e enough =
    let z : [] ≡ out = cc in
    subst (λ (x : List ℕ). decode_from rounds after room x ≡ (true, [])) z
      (decode_from-[] rounds room after)
decode_from-encode_from (u ∷ []) left rounds room after out (a, b) f l e enough =
    elim (Bool-cases (u == 0)) [
      | inl nil ↦ absurd (let z : none ≡ some out = (rw nil at e) in cc)
      | inr good ↦
          let written : put left u ≡ some out = (rw good at e) in
          let one = units_of-one u a in
          let j : joined out (some []) ≡ some out = joined-nil out in
          let width_one : length (units_of u) ≡ 1 = ap (λ (x : List ℕ). length x) one in
          (rw one at (
            decode_from-joined rounds left room u after out out [] (some []) (omega arith) written f
              (omega arith) j enough
              (λ n rest h m.
                let z : [] ≡ rest = cc in
                subst
                  (λ (x : List ℕ).
                    decode_from n (high_surrogate u) (room - length (units_of u)) x ≡ (true, []))
                  z (decode_from-[] n _ _))))
    ]
decode_from-encode_from (u ∷ v ∷ units) left rounds room after out (a, (b, more)) f l e enough =
    elim (Bool-cases (u == 0)) [
      | inl nil ↦ absurd (let z : none ≡ some out = (rw (encode_from, nil) at e) in cc)
      | inr good ↦ elim (Bool-cases (high_surrogate u && low_surrogate v)) [
        | inl pair ↦
            let h : high_surrogate u ≡ true = ground arith in
            let k : low_surrogate v ≡ true = ground arith in
            let p = pair_point u v in
            let (below, above) = pair_point-lt u v h k in
            let (no_high, no_low) = pair_point-plain u v h k in
            let two = units_of-pair_point u v h k in
            let width_two : length (units_of p) ≡ 2 = ap (λ (x : List ℕ). length x) two in
            elim (Option-cases (put left p)) [
              | inl full ↦
                  absurd (let z : none ≡ some out = (rw (encode_from, good, pair, full) at e) in cc)
              | inr (bytes, written) ↦
                  (rw two at (
                    decode_from-joined rounds left room p after bytes out units
                      (encode_from units (left - width p)) below written (ground (arith, no_low))
                      (omega arith) (rw (encode_from, good, pair, written) at e) enough
                      (λ n rest found m.
                        decode_from-encode_from units (left - width p) n _ _ rest more
                          (Follows-false _ units no_high) (omega arith) found m)))
            ]
        | inr apart ↦
            let one = units_of-one u a in
            let width_one : length (units_of u) ≡ 1 = ap (λ (x : List ℕ). length x) one in
            elim (Option-cases (put left u)) [
              | inl full ↦
                  absurd
                    (let z : none ≡ some out = (rw (encode_from, good, apart, full) at e) in cc)
              | inr (bytes, written) ↦
                  (rw one at (
                    decode_from-joined rounds left room u after bytes out (v ∷ units)
                      (encode_from (v ∷ units) (left - width u)) (omega arith) written f
                      (omega arith) (rw (encode_from, good, apart, written) at e) enough
                      (λ n rest found m.
                        decode_from-encode_from (v ∷ units) (left - width u) n _ _ rest (b, more)
                          apart (omega arith) found m)))
            ]
      ]
    ]

-- Units that are written as UTF-8 are read back: where `utf16_to_utf8` answers with a text, `utf8_to_utf16`
-- gives back exactly the units from that text, into any buffer that has room for them. Units are numbers
-- below 2 ^ 16, surrogates without their other half among them.
pub utf8_to_utf16-utf16_to_utf8 :
    (units bytes : List ℕ) (capacity room : ℕ)
    → AreUnits units
    → length units ≤ room
    → utf16_to_utf8 true units true capacity ≡ (true, bytes)
    → utf8_to_utf16 (some bytes) true room ≡ (true, units)
unfolding utf16_to_utf8 utf8_to_utf16
utf8_to_utf16-utf16_to_utf8 units bytes capacity room a l e =
    let there : (not (length units == 0) && not true) ≡ false = ground arith in
    elim (Bool-cases (capacity == 0)) [
      | inl none_left ↦ absurd (
          let z : false ≡ true = ap (λ (r : Bool × List ℕ). r.0) (rw none_left at e) in
          ground arith)
      | inr some_left ↦ elim (Option-cases (encode_from units capacity)) [
        | inl bad ↦ absurd (
            let z : false ≡ true =
              ap (λ (r : Bool × List ℕ). r.0) (rw (some_left, there, bad) at e) in
            ground arith)
        | inr (out, good) ↦
            let same : out ≡ bytes =
              ap (λ (r : Bool × List ℕ). r.1) (rw (some_left, there, good) at e) in
            let back =
              decode_from-encode_from units capacity (length bytes) room false bytes a
                (Follows-false false units refl) l (good ∙ ap (λ (x : List ℕ). some x) same)
                (omega arith) in
            let buffer : (not (room == 0) && not true) ≡ false = ground arith in
            rw (utf8_to_utf16, buffer) back
      ]
    ]
