-- ===== src/MoveResolver/Count.antt =====
-- The bounded loops of `MoveResolver`, and the counting argument behind its cycles: if every
-- member of a finite set is the image of another member, no image falls outside the set.
use cbc_engine.Prelude.{ℕ, zero, suc, ◌+◌, ◌≤◌, ◌<◌, ltb, ◌==◌, if◌then◌else◌, arith}
use cbc_engine.Prelude.{Bool, true, false, not, ◌&&◌, none, some, ◌≡◌, Bool-cases}
use cbc_engine.Prelude.{inl, inr}
use cbc_engine.MoveResolver.{for_below, first_below, any_below}

pub for_below-keeps {ℓ κ} :
    {S : Type ℓ} (P : S → Type κ) (f : ℕ → S → S) (k : ℕ) (s : S)
    → ((i : ℕ) (t : S) → i < k → P t → P (f i t))
    → P s
    → P (for_below k f s)
unfolding for_below
for_below-keeps P f zero s step h = h
for_below-keeps P f (suc k) s step h =
    step k _ (omega arith) (for_below-keeps P f k s (λ i t lt. step i t (omega arith)) h)

pub any_below-elim :
    (k : ℕ) (p : ℕ → Bool) → any_below k p ≡ true → (i : ℕ) × (i < k) × (p i ≡ true)
unfolding any_below
any_below-elim zero p h = absurd (cc)
any_below-elim (suc k) p h = elim (Bool-cases (any_below k p)) [
  | inl e ↦ let (i, lt, t) = any_below-elim k p e in (i, omega arith, t)
  | inr e ↦ (k, omega arith, rw e at h)
]

pub any_below-false : (k : ℕ) (p : ℕ → Bool) → any_below k p ≡ false → (i : ℕ) → i < k → p i ≡ false
unfolding any_below
any_below-false zero p h i lt = absurd (omega arith)
any_below-false (suc k) p h i lt = ground (arith, any_below-false k p (ground arith) i)

pub first_below-some :
    (k : ℕ) (p : ℕ → Bool) (i : ℕ) → first_below k p ≡ some i → (i < k) × (p i ≡ true)
unfolding first_below
first_below-some zero p i h = cc
first_below-some (suc k) p i h = ground (arith, first_below-some k p i)

pub first_below-none :
    (k : ℕ) (p : ℕ → Bool) → first_below k p ≡ none → (i : ℕ) → i < k → p i ≡ false
unfolding first_below
first_below-none zero p h i lt = absurd (omega arith)
first_below-none (suc k) p h i lt = ground (arith, first_below-none k p (ground arith) i)

pub count : ℕ → (ℕ → Bool) → ℕ
count zero p = 0
count (suc k) p = count k p + (if p k then 1 else 0)

pub count-le_self : (k : ℕ) (p : ℕ → Bool) → count k p ≤ k
unfolding count
count-le_self zero p = omega arith
count-le_self (suc k) p = ground (arith, count-le_self k p)

pub count_mono :
    (k : ℕ) (p q : ℕ → Bool) → ((i : ℕ) → i < k → p i ≡ true → q i ≡ true) → count k p ≤ count k q
unfolding count
count_mono zero p q h = omega arith
count_mono (suc k) p q h =
    ground (arith, count_mono k p q (λ i lt. h i (omega arith)), h k (omega arith))

-- One member more makes the count larger.
pub count_strict :
    (k : ℕ) (p q : ℕ → Bool) (i : ℕ)
    → ((j : ℕ) → j < k → p j ≡ true → q j ≡ true)
    → i < k
    → p i ≡ false
    → q i ≡ true
    → count k p < count k q
unfolding count
count_strict zero p q i h lt out within = absurd (omega arith)
count_strict (suc k) p q i h lt out within = elim (Bool-cases (i == k)) [
  | inl e ↦ ground (arith, count_mono k p q (λ j l. h j (omega arith)))
  | inr e ↦ ground (
    arith,
    count_strict k p q i (λ j l. h j (omega arith)) (ground arith) out within,
    h k (omega arith),
  )
]

-- `f` maps the members of `q` onto those of `p` below `k`.
count_onto :
    (n k : ℕ) (f : ℕ → ℕ) (p q : ℕ → Bool)
    → ((d : ℕ) → d < k → p d ≡ true → (o : ℕ) × (o < n) × (q o ≡ true) × (f o ≡ d))
    → count k p ≤ count n (λ o. q o && ltb (f o) k)
unfolding count
count_onto n zero f p q h = omega arith
count_onto n (suc k) f p q h =
    let smaller = count_onto n k f p q (λ d lt. h d (omega arith)) in
    elim (Bool-cases (p k)) [
      | inl e ↦
          let (o, lt, qo, fo) = h k (omega arith) e in
          let more =
            count_strict n (λ o. q o && ltb (f o) k) (λ o. q o && ltb (f o) (suc k)) o
              (λ j l t. ground arith) lt (ground arith) (ground arith) in
          rw e (omega arith)
      | inr e ↦
          let more =
            count_mono n (λ o. q o && ltb (f o) k) (λ o. q o && ltb (f o) (suc k))
              (λ j l t. ground arith) in
          rw e (omega arith)
    ]

-- Where each member of `p` is read by another member, each member reads another member.
pub reads_within :
    (n : ℕ) (f : ℕ → ℕ) (p : ℕ → Bool)
    → ((d : ℕ)
        → d < n
        → p d ≡ true
        → (o : ℕ) × (o < n) × (p o ≡ true) × ((o == d) ≡ false) × (f o ≡ d))
    → (o : ℕ) → o < n
    → p o ≡ true
    → (p (f o) ≡ true) × (f o < n) × ((f o == o) ≡ false)
reads_within n f p read o lt po = elim (Bool-cases (good o && ltb (f o) n)) [
  | inl e ↦ ground arith
  | inr e ↦
      let fewer = count_strict n (λ j. good j && ltb (f j) n) p o (λ j l t. ground arith) lt e po in
      absurd (omega (arith, onto))
]
  where
    good : ℕ → Bool
    good j = p j && (not (f j == j) && p (f j))

    reader : (d : ℕ) → d < n → p d ≡ true → (j : ℕ) × (j < n) × (good j ≡ true) × (f j ≡ d)
    reader d l pd =
        let (j, lj, pj, ne, e) = read d l pd in (j, lj, rw (e, pj) (rw pd (ground arith)), e)

    onto : count n p ≤ count n (λ j. good j && ltb (f j) n)
    onto = count_onto n n f p good reader
