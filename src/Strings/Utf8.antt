-- ===== src/Strings/Utf8.antt =====
-- UTF-8 as Go decodes it: `utf8.ValidString` and the runes of a `range` over a string.
use loxilb_oam.Prelude.{
  ℕ, ◌+◌, ◌-◌, ◌*◌, ◌≤◌, ◌<◌, ◌≡◌, refl, Bool, false, ◌&&◌, ◌⊎◌, inl, inr, Option-cases, Option,
  none, some, List, [], ◌∷◌, Bytes, leb, ltb, ◌=ℕ◌, any, arith, if◌then◌else◌,
}
use mathlib.Core.Option

-- What is still expected of the rune being read: continuation bytes left, the range of the next
-- one, and the bits so far. `left` is 0 between runes.
pub record Decoder : Type 0 where
  pub left : ℕ
  pub lo : ℕ
  pub hi : ℕ
  pub bits : ℕ

abbrev pub between : Decoder
between = record { left = 0; lo = 0x80; hi = 0xbf; bits = 0 }

abbrev expect : ℕ → ℕ → ℕ → ℕ → Option Decoder
expect n l h b = some (record { left = n; lo = l; hi = h; bits = b })

-- The first byte of a rune of more than one byte, as in the table of unicode/utf8.
lead : ℕ → Option Decoder
lead b =
    if ltb b 0xc2
    then none
    else if leb b 0xdf
    then expect 1 0x80 0xbf (b - 0xc0)
    else if b =ℕ 0xe0
    then expect 2 0xa0 0xbf (b - 0xe0)
    else if b =ℕ 0xed
    then expect 2 0x80 0x9f (b - 0xe0)
    else if leb b 0xef
    then expect 2 0x80 0xbf (b - 0xe0)
    else if b =ℕ 0xf0
    then expect 3 0x90 0xbf (b - 0xf0)
    else if leb b 0xf3
    then expect 3 0x80 0xbf (b - 0xf0)
    else if b =ℕ 0xf4
    then expect 3 0x80 0x8f (b - 0xf0)
    else none

-- One byte: the next state, and the rune if one is complete.
feed : Decoder → ℕ → Option (Decoder × Option ℕ)
unfolding lead
feed d b =
    if d.left =ℕ 0
    then if ltb b 0x80 then some (between, some b) else Option.map (λ d'. (d', none)) (lead b)
    else if leb d.lo b && leb b d.hi
    then (if d.left =ℕ 1
        then some (between, some (d.bits * 64 + (b - 0x80)))
        else some (
          record { left = d.left - 1; lo = 0x80; hi = 0xbf; bits = d.bits * 64 + (b - 0x80) },
          none,
        ))
    else none

abbrev emit : Option ℕ → List ℕ → List ℕ
emit none rs = rs
emit (some r) rs = r ∷ rs

-- The runes of a string, `none` if it is not valid UTF-8.
decode : Decoder → Bytes → Option (List ℕ)
decode d [] = if d.left =ℕ 0 then some [] else none
decode d (b ∷ s) = elim (feed d b) [
  | none ↦ none
  | some (d', r) ↦ Option.map (emit r) (decode d' s)
]

unfoldable pub runes : Bytes → Option (List ℕ)
unfolding decode feed
runes = decode between

-- A predicate on bytes that holds of no byte from 0x80 on.
abbrev pub IsAscii : (ℕ → Bool) → Type 0
IsAscii p = (c : ℕ) → 0x80 ≤ c → p c ≡ false

-- Inside a rune the next byte is not ASCII.
abbrev Ready : Decoder → Type 0
Ready d = 0 < d.left → 0x80 ≤ d.lo

feed-Ready : (d d' : Decoder) (b : ℕ) (r : Option ℕ) → Ready d → feed d b ≡ some (d', r) → Ready d'
unfolding feed
feed-Ready d d' b r h e = ground arith

-- An ASCII byte that is accepted is a rune of its own.
feed-rune :
    (d d' : Decoder) (b : ℕ) (r : Option ℕ)
    → Ready d
    → feed d b ≡ some (d', r)
    → (0x80 ≤ b) ⊎ (r ≡ some b)
unfolding feed
feed-rune d d' b r h e = ground arith

step_any :
    (p : ℕ → Bool)
    → IsAscii p
    → (b : ℕ) (r : Option ℕ) (rs : List ℕ) → (0x80 ≤ b) ⊎ (r ≡ some b)
    → any p (emit r rs) ≡ false
    → (p b ≡ false) × (any p rs ≡ false)
step_any p ascii b none rs (inl q) h = (ascii b q, h)
step_any p ascii b (some x) rs (inl q) h = (ascii b q, ground arith)
step_any p ascii b none rs (inr q) h = cc
step_any p ascii b (some x) rs (inr q) h = ground arith

decode_inv :
    (d : Decoder) (b : ℕ) (s : Bytes) {rs : List ℕ}
    → decode d (b ∷ s) ≡ some rs
    → (d' : Decoder) × (r : Option ℕ) × (rs' : List ℕ) × (feed d b ≡ some (d', r))
      × (decode d' s ≡ some rs')
      × (rs ≡ emit r rs')
unfolding decode
decode_inv d b s e = elim (Option-cases (feed d b)) [
  | inl n ↦ ground (arith, n)
  | inr ((d', r), q) ↦ elim (Option-cases (decode d' s)) [
    | inl n ↦ ground (arith, q, n)
    | inr (rs', q') ↦ (d', r, rs', q, q', ground (arith, q, q'))
  ]
]

decode-any :
    (p : ℕ → Bool)
    → IsAscii p
    → (d : Decoder) (s : Bytes) {rs : List ℕ} → Ready d
    → decode d s ≡ some rs
    → any p rs ≡ false
    → any p s ≡ false
unfolding decode
decode-any p ascii d [] h e a = refl
decode-any p ascii d (b ∷ s) h e a =
    let (d', r, rs', fed, rest, whole) = decode_inv d b s e in
    let (hd, tl) = step_any p ascii b r rs' (feed-rune d d' b r h fed) (rw whole at a) in
    rw (hd, decode-any p ascii d' s (feed-Ready d d' b r h fed) rest tl)

-- If no rune of a string satisfies a predicate on ASCII, no byte of it does.
pub runes-any :
    (p : ℕ → Bool)
    → IsAscii p
    → (s : Bytes) {rs : List ℕ} → runes s ≡ some rs
    → any p rs ≡ false
    → any p s ≡ false
unfolding runes
runes-any p ascii s e a = decode-any p ascii between s (λ q. omega arith) e a

feed-ascii : (c : ℕ) → c < 0x80 → feed between c ≡ some (between, some c)
unfolding feed
feed-ascii c h = ground arith

decode-ascii :
    (c : ℕ) (s : Bytes) {rs : List ℕ}
    → c < 0x80
    → decode between s ≡ some rs
    → decode between (c ∷ s) ≡ some (c ∷ rs)
unfolding decode
decode-ascii c s h e = ground (arith, feed-ascii c h)

-- An ASCII byte in front is a rune in front.
pub runes-ascii :
    (c : ℕ) (s : Bytes) {rs : List ℕ} → c < 0x80 → runes s ≡ some rs → runes (c ∷ s) ≡ some (c ∷ rs)
unfolding runes
runes-ascii c s h e = decode-ascii c s h e
