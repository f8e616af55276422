-- ===== src/Storage/Writers/Exclusive.antt =====
-- Which locks of a shared log (src/rif_runtime/storage/jsonl.py) may be held at the same time.
use mandare.Prelude.{ℕ, ◌≡◌, refl, Bool, true, false, inl, inr, Bool-cases, ◌&&◌, ◌||◌, arith, eqb}
use mandare.Storage.Writers.{
  Phase, writing, reading, is_exclusive, has_lock, Shared, visible, phases_with,
}

-- The two may not hold their locks at the same time.
abbrev pub clash : Phase → Phase → Bool
clash a b = (is_exclusive a && has_lock b) || (has_lock a && is_exclusive b)

abbrev pub is_writing : Phase → Bool
is_writing (writing v) = true
is_writing _ = false

pub clash_sym : (a b : Phase) → clash a b ≡ false → clash b a ≡ false
clash_sym a b h = ground arith

pub clash_unlocked : (a b : Phase) → has_lock a ≡ false → clash a b ≡ false
clash_unlocked a b h = ground arith

pub clash_exclusive :
    (a a' b : Phase)
    → is_exclusive a ≡ true
    → is_exclusive a' ≡ true
    → clash a b ≡ false
    → clash a' b ≡ false
clash_exclusive a a' b h h' e = ground arith

pub shares : (a : Phase) → is_exclusive a ≡ false → clash reading a ≡ false
shares a h = ground arith

pub not_exclusive :
    (a b : Phase) → is_exclusive a ≡ true → clash a b ≡ false → is_exclusive b ≡ false
not_exclusive a b h e = ground arith

abbrev pub IsExclusive : (ℕ → Phase) → Type 0
IsExclusive phase_of = (p q : ℕ) → eqb p q ≡ false → clash (phase_of p) (phase_of q) ≡ false

pub eqb_eq : (p q : ℕ) → eqb p q ≡ true → p ≡ q
eqb_eq p q h = ground arith

module _ (p : ℕ) (phase : Phase) (phase_of : ℕ → Phase) where
  pub phases_with-All :
      (P : Phase → Type 0)
      → P phase
      → ((q : ℕ) → eqb p q ≡ false → P (phase_of q))
      → (q : ℕ) → P (phases_with p phase phase_of q)
  phases_with-All P new old q = elim (Bool-cases (eqb p q)) [
    | inl same ↦ rw same new
    | inr other ↦ rw other (old q other)
  ]

  pub phases_with-IsExclusive :
      IsExclusive phase_of
      → ((q : ℕ) → eqb p q ≡ false → clash phase (phase_of q) ≡ false)
      → IsExclusive (phases_with p phase phase_of)
  phases_with-IsExclusive old new q r apart = elim (Bool-cases (eqb p q)) [
    | inl same ↦
        let p_r : eqb p r ≡ false = rw (eqb_eq p q same) apart in rw (same, p_r) (new r p_r)
    | inr other ↦ elim (Bool-cases (eqb p r)) [
      | inl same ↦ rw (other, same) (clash_sym phase (phase_of q) (new q other))
      | inr other' ↦ rw (other, other') (old q r apart)
    ]
  ]

abbrev pub IsTorn : Shared → Type 0
IsTorn s = (p : ℕ) × (is_writing (s.phase_of p) ≡ true)

-- A process that has a lock, and is not itself at it, sees no torn row.
pub whole :
    (s : Shared) (p : ℕ)
    → IsExclusive s.phase_of
    → (s.torn ≡ true → IsTorn s)
    → has_lock (s.phase_of p) ≡ true
    → is_writing (s.phase_of p) ≡ false
    → visible s ≡ s.lines
unfolding visible
whole s p alone tear held still = elim (Bool-cases s.torn) [
  | inr clean ↦ rw clean refl
  | inl torn ↦
      let (q, at_it) = tear torn in
      elim (Bool-cases (eqb p q)) [
        | inl same ↦ cc (eqb_eq p q same, at_it, still)
        | inr apart ↦ let fine = alone p q apart in ground (arith, fine)
      ]
]
