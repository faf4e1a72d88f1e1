-- ===== src/Composition/Uniqueness.antt =====
-- `check_set_uniqueness` finds what stands in two sets.
use open_autonomy.Prelude.{
  ◌≤◌, ◌≡◌, refl, sym, subst, true, false, ◌||◌, List, [], ◌∷◌, ◌++◌, Comparable, ◌==◌, ==_to_eq,
  string_eq, ltb, arith, Bool-cases, inl, inr, ltb-false→le, false≢true,
}
use open_autonomy.Prelude.Dict.{mem}
use open_autonomy.Composition.{flatten, sets_in, find_repeated, check_set_uniqueness, is_some}

module _ {A : Type 0} ⦃e : Comparable A⦄ where
  mem-append_lists : (a : A) (xs ys : List A) → mem a (xs ++ ys) ≡ (mem a xs || mem a ys)
  mem-append_lists a [] ys = refl
  mem-append_lists a (x ∷ xs) ys = ground (arith, mem-append_lists a xs ys)

  sets_in-outside : (a : A) (xss : List (List A)) → mem a (flatten xss) ≡ false → sets_in a xss ≡ 0
  unfolding flatten sets_in
  sets_in-outside a [] h = refl
  sets_in-outside a (xs ∷ xss) h =
      ground (arith, mem-append_lists a xs (flatten xss), h, sets_in-outside a xss)

  find_repeated-none :
      (a : A) (elements : List A) (xss : List (List A))
      → is_some (find_repeated elements xss) ≡ false
      → mem a elements ≡ true
      → sets_in a xss ≤ 1
  unfolding find_repeated
  find_repeated-none a [] xss h m = cc
  find_repeated-none a (x ∷ elements) xss h m = elim (Bool-cases (ltb 1 (sets_in x xss))) [
    | inl twice ↦ absurd (false≢true (sym (rw twice at h)))
    | inr once ↦ elim (Bool-cases (x == a)) [
      | inl same ↦
          subst (λ b. sets_in b xss ≤ 1) (==_to_eq x a same) (ltb-false→le 1 (sets_in x xss) once)
      | inr other ↦ find_repeated-none a elements xss (rw once at h) (ground arith)
    ]
  ]

  -- When no repeated element is found, each is in one set at most.
  pub check_set_uniqueness_lem :
      (xss : List (List A))
      → is_some (check_set_uniqueness xss) ≡ false
      → (a : A) → sets_in a xss ≤ 1
  unfolding check_set_uniqueness
  check_set_uniqueness_lem xss h a = elim (Bool-cases (mem a (flatten xss))) [
    | inl inside ↦ find_repeated-none a (flatten xss) xss h inside
    | inr outside ↦ omega (arith, sets_in-outside a xss outside)
  ]
