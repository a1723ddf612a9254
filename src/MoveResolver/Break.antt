-- ===== src/MoveResolver/Break.antt =====
-- A round of `cycleResolver` that settles nothing leaves cycles only, and breaking one keeps every
-- value; the fixed-point iteration ends.
use cbc_engine.Prelude.{ℕ, zero, suc, ◌+◌, ◌≤◌, ◌<◌, ◌==◌, if◌then◌else◌, arith}
use cbc_engine.Prelude.{Bool, true, false, not, ◌&&◌, ◌||◌, ◌≡◌, refl, Bool-cases, inl, inr}
use cbc_engine.Prelude.{◌++◌, ◌∙◌, sym, some, Option-cases, both_ways}
use mathlib.Core.Path.{subst}
use cbc_engine.Prelude.Int.{ℤ}
use cbc_engine.Location.{LoadAccessKind, reg_count}
use cbc_engine.MoveResolver.{AssignmentInfo, Nodes, Temps, Shuffle}
use cbc_engine.MoveResolver.{
  move, load, src_of, is_load, enough, update, assign, needed, settle, temp_for,
}
use cbc_engine.MoveResolver.{break_at, break_first, for_below, first_below, round, iterate}
use cbc_engine.MoveResolver.{start}
use cbc_engine.MoveResolver.Count.{
  count, count-le_self, count_mono, count_strict, reads_within, any_below-elim,
}
use cbc_engine.MoveResolver.Count.{for_below-keeps, first_below-some, first_below-none}
use cbc_engine.MoveResolver.Machine.{Machine, node_value, run}
use cbc_engine.MoveResolver.Cycles.{Fits, Fits-temp, IsTemps, IsRunning, settle-IsRunning}
use cbc_engine.MoveResolver.Cycles.{emit-reg, emit-param, node_value-update}

-- Every pending node reads another pending node.
abbrev pub Cyclic : Shuffle → Type 0
Cyclic s =
    (d : ℕ)
    → d < reg_count
    → s.done d ≡ false
    → (s.done (src_of (s.nodes d)) ≡ false)
      × (src_of (s.nodes d) < reg_count)
      × ((src_of (s.nodes d) == d) ≡ false)

-- Where all pending nodes are needed, none reads a register that is done.
pub needed-Cyclic :
    (s : Shuffle) → ((d : ℕ) → d < reg_count → s.done d ≡ false → needed s d ≡ true) → Cyclic s
unfolding needed
needed-Cyclic s all d lt pending =
    let (within, below, other) =
      reads_within reg_count (λ o. src_of (s.nodes o)) (λ o. not (s.done o)) reader d lt
        (rw pending) in
    (ground arith, below, other)
  where
    reads : ℕ → ℕ → Bool
    reads dst o = not (s.done o) && not (o == dst) && src_of (s.nodes o) == dst

    reader :
        (e : ℕ)
        → e < reg_count
        → not (s.done e) ≡ true
        → (o : ℕ) × (o < reg_count)
          × (not (s.done o) ≡ true)
          × ((o == e) ≡ false)
          × (src_of (s.nodes o) ≡ e)
    reader e l p =
        let (o, lo, r) = any_below-elim reg_count (reads e) (all e l (ground arith)) in
        (o, lo, ground arith, ground arith, ground arith)

module _ {V : Type 0} (slot : ℕ → V) (memory : LoadAccessKind → V → ℤ → V) where
  pub break_at-IsRunning :
      {t : Temps} {nodes : Nodes} {m : Machine V} (d : ℕ) (s : Shuffle)
      → IsTemps t
      → d < reg_count
      → s.done d ≡ false
      → Cyclic s
      → IsRunning slot memory t nodes m s
      → IsRunning slot memory t nodes m (break_at t d s)
  unfolding break_at
  break_at-IsRunning {t} {nodes} {m} d s temps lt here cyclic h = record {
    fits = λ e l p. ground (arith, h.fits e l p, h.fits d lt here);
    pending = λ e l p. elim (Bool-cases (e == d)) [
      | inl same ↦ rw same (ground (arith, emitted (temp_for t d), h.pending d lt here))
      | inr other ↦ rw other (
          node_value-update slot memory (s.nodes e) _ _ (temp_for t d) _ emitted
            (ground (arith, cyclic e l p, h.ireg_temp_done, h.freg_temp_done))
          ∙ h.pending e l p)
    ];
    settled = λ e l p ni nf. ground (arith, emitted e, h.settled e l p ni nf);
    params = λ p. emit-param slot memory s.emitted (temp_for t d) (s.nodes d) m p low ∙ h.params p;
    ireg_temp_done = h.ireg_temp_done;
    freg_temp_done = h.freg_temp_done;
  }
    where
      low : temp_for t d < reg_count
      low = ground arith

      emitted :
          (j : ℕ)
          → (run slot memory (s.emitted ++ assign (temp_for t d) (s.nodes d)) m).reg j
            ≡ update
                (run slot memory s.emitted m).reg
                (temp_for t d)
                (node_value slot memory (run slot memory s.emitted m).reg (s.nodes d))
                j
      emitted j =
          emit-reg slot memory s.emitted (temp_for t d) (s.nodes d) m j low
            (Fits-temp t d (s.nodes d) temps.0 temps.1 (h.fits d lt here))

-- What is left to do: pending nodes, and those of them that do not yet read a temporary register.
abbrev reads_temp : Temps → Shuffle → ℕ → Bool
reads_temp t s d = src_of (s.nodes d) == t.ireg_temp || src_of (s.nodes d) == t.freg_temp

pub measure : Temps → Shuffle → ℕ
measure t s =
    count reg_count (λ d. not (s.done d))
    + count reg_count (λ d. not (s.done d) && not (reads_temp t s d))

measure-settle :
    (t : Temps) (d : ℕ) (s : Shuffle)
    → d < reg_count
    → measure t (settle d s) + (if (settle d s).changed then 1 else 0)
      ≤ measure t s + (if s.changed then 1 else 0)
unfolding settle measure
measure-settle t d s lt = elim (Bool-cases (s.done d)) [
  | inl done ↦ rw done (omega arith)
  | inr here ↦ elim (Bool-cases (needed s d)) [
    | inl wanted ↦ rw (here, wanted) (omega arith)
    | inr free ↦ rw (here, free) (ground (arith, fewer, no_more))
  ]
]
  where
    fewer :
        s.done d ≡ false
        → count reg_count (λ e. not (update s.done d true e))
          < count reg_count (λ e. not (s.done e))
    fewer here = count_strict reg_count _ _ d (λ j l p. ground arith) lt (ground arith) (rw here)

    no_more :
        count reg_count (λ e. not (update s.done d true e) && not (reads_temp t s e))
        ≤ count reg_count (λ e. not (s.done e) && not (reads_temp t s e))
    no_more = count_mono reg_count _ _ (λ j l p. ground arith)

settle_quiet :
    (d : ℕ) (s : Shuffle)
    → (settle d s).changed ≡ false
    → (settle d s ≡ s) × (s.done d ≡ false → needed s d ≡ true)
unfolding settle
settle_quiet d s h = ground arith

-- A pass that changes nothing found every pending node needed.
pub pass_quiet :
    (k : ℕ) (s : Shuffle)
    → (for_below k settle s).changed ≡ false
    → (for_below k settle s ≡ s) × ((d : ℕ) → d < k → s.done d ≡ false → needed s d ≡ true)
unfolding for_below
pass_quiet zero s h = (refl, λ d lt p. absurd (omega arith))
pass_quiet (suc k) s h =
    let (same, last) = settle_quiet k (for_below k settle s) h in
    let (before, all) = pass_quiet k s (rw same at h) in
    let here : s.done k ≡ false → needed s k ≡ true = rw before at last in
    (same ∙ before, λ d lt p. ground (arith, here, all d))

module _ {V : Type 0} (slot : ℕ → V) (memory : LoadAccessKind → V → ℤ → V) where
  -- A step keeps the state sound; it leaves less to do, or it ends the loop with every node done.
  abbrev pub Goes : Temps → Nodes → Machine V → Shuffle → Shuffle → Type 0
  Goes t nodes m s s' =
      IsRunning slot memory t nodes m s'
      × (s'.changed ≡ true → measure t s' < measure t s)
      × (s'.changed ≡ false → (d : ℕ) → d < reg_count → s'.done d ≡ true)

  undone : (b : Bool) → not b ≡ true → b ≡ false
  undone b h = ground arith

  -- The temporary registers are done, so what reads a pending node reads neither.
  pending_no_temp :
      (t : Temps) (s : Shuffle) (d : ℕ)
      → s.done (src_of (s.nodes d)) ≡ false
      → s.done t.ireg_temp ≡ true
      → s.done t.freg_temp ≡ true
      → reads_temp t s d ≡ false
  pending_no_temp t s d p ti tf = ground arith

  measure-break_at :
      (t : Temps) (d : ℕ) (s : Shuffle)
      → d < reg_count
      → s.done d ≡ false
      → reads_temp t s d ≡ false
      → measure t (break_at t d s) < measure t s
  unfolding break_at measure
  measure-break_at t d s lt here far =
      let fewer =
        count_strict reg_count (λ e. not (s.done e) && not (reads_temp t (break_at t d s) e))
          (λ e. not (s.done e) && not (reads_temp t s e)) d (λ j l p. ground arith) lt
          (ground arith) (rw (here, far)) in
      omega arith

  break_first-Goes :
      {t : Temps} {nodes : Nodes} {m : Machine V} (s : Shuffle)
      → IsTemps t
      → s.changed ≡ false
      → Cyclic s
      → IsRunning slot memory t nodes m s
      → Goes t nodes m s (break_first t s)
  unfolding break_first
  break_first-Goes {t} {nodes} {m} s temps idle cyclic h =
      elim (Option-cases (first_below reg_count (λ d. not (s.done d)))) [
        | inl end ↦
            rw (end, break_first)
              (
                h,
                (λ p. absurd (both_ways p idle)),
                λ p d lt. ground (arith, first_below-none reg_count (λ e. not (s.done e)) end d lt),
              )
        | inr (d, e) ↦
            let (lt, open_node) = first_below-some reg_count (λ e. not (s.done e)) d e in
            let here : s.done d ≡ false = undone (s.done d) open_node in
            let far : reads_temp t s d ≡ false =
              pending_no_temp t s d (cyclic d lt here).0 h.ireg_temp_done h.freg_temp_done in
            rw (e, break_first)
              (
                break_at-IsRunning slot memory d s temps lt here cyclic h,
                (λ p. measure-break_at t d s lt here far),
                λ p. absurd (both_ways (unfold break_at in refl) p),
              )
      ]

  pub round-Goes :
      {t : Temps} {nodes : Nodes} {m : Machine V} (s : Shuffle)
      → IsTemps t
      → IsRunning slot memory t nodes m s
      → Goes t nodes m s (round t s)
  unfolding round measure
  round-Goes {t} {nodes} {m} s temps h = choose passed.changed refl
    where
      entered : Shuffle
      entered = record s { changed = false }

      entered_sound : IsRunning slot memory t nodes m entered
      entered_sound = record {
        fits = h.fits;
        pending = h.pending;
        settled = h.settled;
        params = h.params;
        ireg_temp_done = h.ireg_temp_done;
        freg_temp_done = h.freg_temp_done;
      }

      passed : Shuffle
      passed = for_below reg_count settle entered

      passed_sound : IsRunning slot memory t nodes m passed
      passed_sound =
          for_below-keeps (IsRunning slot memory t nodes m) settle reg_count entered
            (λ i u lt. settle-IsRunning slot memory i u lt) entered_sound

      same_measure : measure t entered ≡ measure t s
      same_measure = unfold measure in refl

      less : measure t passed + (if passed.changed then 1 else 0) ≤ measure t s
      less =
          for_below-keeps (λ u. measure t u + (if u.changed then 1 else 0) ≤ measure t s) settle
            reg_count entered (λ i u lt below. omega (arith, measure-settle t i u lt))
            (omega (arith, same_measure))

      choose :
          (b : Bool)
          → passed.changed ≡ b
          → Goes t nodes m s (if b then passed else break_first t passed)
      choose true progress = (
        passed_sound,
        (λ p. omega (arith, rw progress at less)),
        λ p. absurd (both_ways progress p),
      )
      choose false quiet =
          let (same, all) = pass_quiet reg_count entered quiet in
          let cyclic : Cyclic passed = subst Cyclic (sym same) (needed-Cyclic entered all) in
          let (sound, drops, ends) = break_first-Goes passed temps quiet cyclic passed_sound in
          (sound, (λ p. omega (arith, drops p, rw quiet at less)), ends)

  -- With fuel above the measure the iteration ends, with every node done.
  pub iterate_total :
      {t : Temps} {nodes : Nodes} {m : Machine V} (fuel : ℕ) (s : Shuffle)
      → IsTemps t
      → IsRunning slot memory t nodes m s
      → measure t s < fuel
      → (s' : Shuffle) × (iterate fuel t s ≡ some s')
        × IsRunning slot memory t nodes m s'
        × ((d : ℕ) → d < reg_count → s'.done d ≡ true)
  unfolding iterate
  iterate_total zero s temps h lt = absurd (omega arith)
  iterate_total {t} {nodes} {m} (suc fuel) s temps h lt =
      let (sound, drops, ends) = round-Goes s temps h in
      elim (Bool-cases (round t s).changed) [
        | inl e ↦
            let (s', eq, sound', all) =
              iterate_total fuel (round t s) temps sound (omega (arith, drops e)) in
            rw (e, iterate) (s', eq, sound', all)
        | inr e ↦ rw (e, iterate) (round t s, refl, sound, ends e)
      ]

  -- At the start every node is pending or moves a register to itself.
  pub start-IsRunning :
      (t : Temps) (nodes : Nodes) (m : Machine V)
      → ((d : ℕ) → d < reg_count → Fits d (nodes d))
      → nodes t.ireg_temp ≡ move t.ireg_temp
      → nodes t.freg_temp ≡ move t.freg_temp
      → IsRunning slot memory t nodes m (start nodes)
  unfolding start run
  start-IsRunning t nodes m fits ti tf = record {
    fits = λ d l p. fits d l;
    pending = λ d l p. refl;
    settled = λ d l p ni nf. still d (nodes d) p;
    params = λ p. refl;
    ireg_temp_done = rw ti (ground arith);
    freg_temp_done = rw tf (ground arith);
  }
    where
      still :
          (d : ℕ) (i : AssignmentInfo)
          → (src_of i == d && not (is_load i)) ≡ true
          → m.reg d ≡ node_value slot memory m.reg i
      still d (move s) h = ground arith
      still d (load s offset ldk) h = ground arith

-- The fuel of `resolve` is enough.
pub measure-lt-enough : (t : Temps) (s : Shuffle) → measure t s < enough
unfolding measure
measure-lt-enough t s = omega (
  arith,
  count-le_self reg_count (λ d. not (s.done d)),
  count-le_self reg_count (λ d. not (s.done d) && not (reads_temp t s d)),
)
