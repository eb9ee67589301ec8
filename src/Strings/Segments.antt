-- ===== src/Strings/Segments.antt =====
-- strings.Split and strings.Join with a separator of one byte.
use loxilb_oam.Prelude.{
  ℕ, ◌≡◌, refl, ap, List, [], ◌∷◌, ◌++◌, Bytes, ◌=ℕ◌, All, arith, if◌then◌else◌, Bool-cases, inl,
  inr, ◌≢◌,
}

abbrev pub cons_head : ℕ → List Bytes → List Bytes
cons_head c [] = (c ∷ []) ∷ []
cons_head c (s ∷ ss) = (c ∷ s) ∷ ss

unfoldable pub split : ℕ → Bytes → List Bytes
split sep [] = [] ∷ []
split sep (c ∷ s) = let rest = split sep s in if c =ℕ sep then [] ∷ rest else cons_head c rest

unfoldable pub join : ℕ → List Bytes → Bytes
join sep [] = []
join sep (s ∷ []) = s
join sep (s ∷ t ∷ ss) = s ++ (sep ∷ join sep (t ∷ ss))

-- Joining what was split gives the string back.
join-cons_head : (sep c : ℕ) (ss : List Bytes) → join sep (cons_head c ss) ≡ c ∷ join sep ss
unfolding join
join-cons_head sep c [] = refl
join-cons_head sep c (s ∷ []) = refl
join-cons_head sep c (s ∷ t ∷ ss) = refl

split-nonempty : (sep : ℕ) (s : Bytes) → split sep s ≢ []
unfolding split
split-nonempty sep [] = λ e. cc
split-nonempty sep (c ∷ s) = ground arith

join-nil : (sep : ℕ) (ss : List Bytes) → ss ≢ [] → join sep ([] ∷ ss) ≡ sep ∷ join sep ss
unfolding join
join-nil sep [] h = absurd (h refl)
join-nil sep (s ∷ ss) h = refl

pub join-split : (sep : ℕ) (s : Bytes) → join sep (split sep s) ≡ s
unfolding split
join-split sep [] = unfold join in refl
join-split sep (c ∷ s) = elim (Bool-cases (c =ℕ sep)) [
  | inl e ↦
      rw e (rw (join-nil sep (split sep s) (split-nonempty sep s), join-split sep s) (ground arith))
  | inr n ↦ rw n (rw (join-cons_head sep c (split sep s)) (ap (λ t. c ∷ t) (join-split sep s)))
]

free-cons_head :
    (sep c : ℕ) (ss : List Bytes)
    → c ≢ sep
    → All (All (λ c. c ≢ sep)) ss
    → All (All (λ c. c ≢ sep)) (cons_head c ss)
free-cons_head sep c [] h a = ((h, tt), tt)
free-cons_head sep c (s ∷ ss) h a = ((h, a.0), a.1)

-- No segment holds the separator.
pub split-free : (sep : ℕ) (s : Bytes) → All (All (λ c. c ≢ sep)) (split sep s)
unfolding split
split-free sep [] = (tt, tt)
split-free sep (c ∷ s) = ground (arith, split-free sep s, free-cons_head sep c (split sep s))

-- Splitting a join of segments free of the separator gives the segments back.
pub split-join :
    (sep : ℕ) (s : Bytes) (ss : List Bytes)
    → All (All (λ c. c ≢ sep)) (s ∷ ss)
    → split sep (join sep (s ∷ ss)) ≡ s ∷ ss
unfolding split join
split-join sep [] [] h = refl
split-join sep (c ∷ s) [] h = ground (arith, split-join sep s [] (h.0.1, tt), h.0.0)
split-join sep [] (t ∷ ss) h = ground (arith, split-join sep t ss h.1)
split-join sep (c ∷ s) (t ∷ ss) h = ground (arith, split-join sep s (t ∷ ss) (h.0.1, h.1), h.0.0)
