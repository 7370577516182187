-- ===== src/Conduit/Broadcast/Search.antt =====
-- `strstr` finds the first place at which the needle stands.
use limitless_os.Prelude.{
  ℕ, ◌≡◌, ◌≢◌, inl, inr, refl, sym, ap, ap₂, subst, ◌∙◌, Bool, true, false, Option, none, some,
  List, [], ◌∷◌, ◌++◌, ◌==◌, if◌then◌else◌, ==_iff, ==_refl, Bool-cases, arith, length, ◌≤◌,
  length-append,
}
use limitless_os.Conduit.Broadcast.{after_match, is_nil, search_loop, strstr}

-- The needle stands at the start of the string.
pub record StartsWith (s needle : List ℕ) : Type 0 where
  pub rest : List ℕ
  pub split : s ≡ needle ++ rest

after_match-StartsWith : (h n : List ℕ) → is_nil (after_match h n) ≡ true → StartsWith h n
after_match-StartsWith h [] e = record { rest = h; split = refl }
after_match-StartsWith [] (c ∷ n) e = cc
after_match-StartsWith (d ∷ h) (c ∷ n) e = elim (Bool-cases (d == c)) [
  | inl same ↦
      (let w =
          after_match-StartsWith h n
            (sym (ap (λ (b : Bool). is_nil (if b then after_match h n else c ∷ n)) same) ∙ e) in
        record { rest = w.rest; split = ap₂ ◌∷◌ ((==_iff d c).0 same) w.split })
  | inr other ↦ cc (e, other)
]

after_match-append : (n rest : List ℕ) → is_nil (after_match (n ++ rest) n) ≡ true
after_match-append [] rest = refl
after_match-append (c ∷ n) rest =
    ap (λ (b : Bool). is_nil (if b then after_match (n ++ rest) n else c ∷ n)) (==_refl c)
    ∙ after_match-append n rest

-- What `strstr` returns for a haystack: a place where the needle stands, with no such place before it,
-- or nothing where there is none.
abbrev pub FirstOccurrence : List ℕ → List ℕ → Option (List ℕ) → Type 0
FirstOccurrence haystack needle none =
    (before s : List ℕ) → haystack ≡ before ++ s → ¬ (StartsWith s needle)
FirstOccurrence haystack needle (some s) =
    StartsWith s needle
    × ((before : List ℕ) × (haystack ≡ before ++ s)
        × ((before' s' : List ℕ)
            → haystack ≡ before' ++ s'
            → StartsWith s' needle
            → length before ≤ length before'))

StartsWith-found : (s needle : List ℕ) → StartsWith s needle → is_nil (after_match s needle) ≡ true
StartsWith-found s needle w =
    ap (λ (l : List ℕ). is_nil (after_match l needle)) w.split ∙ after_match-append needle w.rest

-- No place at the front: the places of the tail.
module _ (c : ℕ) (haystack needle : List ℕ)
    (front : is_nil (after_match (c ∷ haystack) needle) ≡ false) where
  not_at_front : ¬ (StartsWith (c ∷ haystack) needle)
  not_at_front w = absurd (cc (front, StartsWith-found (c ∷ haystack) needle w))

  later :
      (r : Option (List ℕ))
      → FirstOccurrence haystack needle r
      → FirstOccurrence (c ∷ haystack) needle r
  later none f = λ before s e w. go before s e w
    where
      go : (before s : List ℕ) → (c ∷ haystack) ≡ before ++ s → ¬ (StartsWith s needle)
      go [] s e w = not_at_front (subst (λ l. StartsWith l needle) (sym e) w)
      go (b ∷ before) s e w = f before s (tail_eq e) w
        where
          tail_eq : (c ∷ haystack) ≡ b ∷ (before ++ s) → haystack ≡ before ++ s
          tail_eq e = cc
  later (some s) (w, (before, e, least)) = (w, (c ∷ before, ap (◌∷◌ c) e, go))
    where
      go :
          (before' s' : List ℕ)
          → (c ∷ haystack) ≡ before' ++ s'
          → StartsWith s' needle
          → length (c ∷ before) ≤ length before'
      go [] s' e' w' = absurd (not_at_front (subst (λ l. StartsWith l needle) (sym e') w'))
      go (b ∷ before') s' e' w' = omega (arith, least before' s' (tail_eq e') w')
        where
          tail_eq : (c ∷ haystack) ≡ b ∷ (before' ++ s') → haystack ≡ before' ++ s'
          tail_eq e = cc

search_loop_lem :
    (haystack needle : List ℕ)
    → needle ≢ []
    → FirstOccurrence haystack needle (search_loop haystack needle)
search_loop_lem [] [] ne = absurd (ne refl)
search_loop_lem [] (c ∷ needle) ne =
    λ before s e w. absurd (omega (arith, ap length e, length-append before s, ap length w.split))
search_loop_lem (c ∷ haystack) needle ne =
    choose (is_nil (after_match (c ∷ haystack) needle)) refl (search_loop_lem haystack needle ne)
  where
    choose :
        (b : Bool)
        → is_nil (after_match (c ∷ haystack) needle) ≡ b
        → FirstOccurrence haystack needle (search_loop haystack needle)
        → FirstOccurrence
            (c ∷ haystack)
            needle
            (if b then some (c ∷ haystack) else search_loop haystack needle)
    choose true e f = (
      after_match-StartsWith (c ∷ haystack) needle e,
      ([], refl, λ before' s' e' w'. omega arith),
    )
    choose false e f = later c haystack needle e (search_loop haystack needle) f

-- `strstr` returns the first place at which the needle stands in the haystack, and a null pointer where
-- it stands nowhere.
pub strstr_lem :
    (haystack needle : List ℕ) → FirstOccurrence haystack needle (strstr haystack needle)
unfolding strstr
strstr_lem haystack [] =
    (record { rest = haystack; split = refl }, ([], refl, λ before' s' e' w'. omega arith))
strstr_lem haystack (c ∷ needle) = search_loop_lem haystack (c ∷ needle) (λ e. cc)
