-- ===== src/Kernel/Lookup.antt =====
-- The registry of quanta as a finite set of quantum numbers.
use limitless_os.Prelude.{
  ℕ, zero, suc, ◌+◌, ◌<◌, ◌≤◌, ◌≡◌, ◌≢◌, refl, sym, ap, subst, ◌∙◌, Bool, true, false, Option, none,
  some, ◌==◌, if◌then◌else◌, ℕ_discrete, arith, ==_iff,
}
use limitless_os.Temporal.Quantum.{Quanta, word64}
use limitless_os.Kernel.{max_quanta, Kernel, get_loop, continuum_get_quantum}

abbrev pub qid_at : Kernel → ℕ → ℕ
qid_at k i = let s = k.sched in (s.quanta (k.quanta i)).qid

-- Some entry of the registry has the number.
abbrev pub HasQid : Kernel → ℕ → Type 0
HasQid k qid = (i : ℕ) × (i < k.count) × (qid_at k i ≡ qid)

-- No two entries have the same number, all numbers were handed out before, and there are as many as fit.
pub record Numbered (k : Kernel) : Type 0 where
  pub apart : (i j : ℕ) → i < k.count → j < k.count → qid_at k i ≡ qid_at k j → i ≡ j
  pub handed_out : (i : ℕ) → i < k.count → qid_at k i < k.next_qid
  pub bounded : k.count ≤ max_quanta
  pub numbers_left : k.next_qid + 1 < word64

-- What a lookup among the entries from `i` up to `n` may answer.
abbrev Answer : (ℕ → ℕ) → Quanta → ℕ → ℕ → ℕ → Option ℕ → Type 0
Answer quanta store qid i n none = (j : ℕ) → i ≤ j → j < n → (store (quanta j)).qid ≢ qid
Answer quanta store qid i n (some x) =
    (j : ℕ) × (i ≤ j) × (j < n) × (quanta j ≡ x) × ((store x).qid ≡ qid)

get_loop_lem :
    (quanta : ℕ → ℕ) (store : Quanta) (qid i n : ℕ)
    → Answer quanta store qid i (i + n) (get_loop quanta store qid i n)
unfolding get_loop
get_loop_lem quanta store qid i zero = λ j lo hi. absurd (omega arith)
get_loop_lem quanta store qid i (suc n) =
    choose ((store (quanta i)).qid == qid) refl (get_loop quanta store qid (suc i) n)
      (get_loop_lem quanta store qid (suc i) n)
  where
    choose :
        (b : Bool)
        → ((store (quanta i)).qid == qid) ≡ b
        → (r : Option ℕ) → Answer quanta store qid (suc i) (suc i + n) r
        → Answer quanta store qid i (i + suc n) (if b then some (quanta i) else r)
    choose true e r a = (i, omega arith, omega arith, refl, (==_iff (store (quanta i)).qid qid).0 e)
    choose false e none a = λ j lo hi same. elim (ℕ_discrete i j) [
      | yes here ↦ absurd (
          cc (
            e,
            subst (λ (l : ℕ). ((store (quanta l)).qid == qid) ≡ true) (sym here)
                ((==_iff (store (quanta j)).qid qid).1 same),
          ))
      | no later ↦ a j (omega (arith, later)) (omega arith) same
    ]
    choose false e (some x) (j, lo, hi, at_entry, same) =
        (j, omega arith, omega arith, at_entry, same)

-- `continuum_get_quantum` finds a registered quantum with the number, and answers with a null pointer
-- exactly where no quantum of the registry has it.
pub continuum_get_quantum_lem :
    (k : Kernel) (qid : ℕ)
    → let found = continuum_get_quantum k qid in
      ((x : ℕ) → found ≡ some x → (i : ℕ) × (i < k.count) × (k.quanta i ≡ x) × (qid_at k i ≡ qid))
      × (found ≡ none → ¬ (HasQid k qid))
unfolding continuum_get_quantum
continuum_get_quantum_lem k qid =
    let s = k.sched in
    by_answer (get_loop k.quanta s.quanta qid 0 k.count)
      (get_loop_lem k.quanta s.quanta qid 0 k.count)
  where
    by_answer :
        (r : Option ℕ)
        → (let s = k.sched in Answer k.quanta s.quanta qid 0 (0 + k.count) r)
        → ((x : ℕ) → r ≡ some x → (i : ℕ) × (i < k.count) × (k.quanta i ≡ x) × (qid_at k i ≡ qid))
          × (r ≡ none → ¬ (HasQid k qid))
    by_answer none a = (λ x e. cc, λ e (i, hi, same). a i (omega arith) (omega arith) same)
    by_answer (some x) (j, lo, hi, at_entry, same) = (
      λ y e. (j, omega arith, cc, ap (λ (q : ℕ). (k.sched.quanta q).qid) at_entry ∙ same),
      λ e. cc,
    )
