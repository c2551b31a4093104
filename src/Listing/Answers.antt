-- ===== src/Listing/Answers.antt =====
-- What the dialog of GetAnswerFromList comes to.
use tools_acloud.Base.{
  Bool-cases, true, false, [], some, List, Bool, ℕ, All, ◌≤◌, ◌<◌, ◌≡◌, length, arith, suc,
  get_elem?, ◌++◌, ltb, ◌∷◌, get_elem?-of_lt, ◌&&◌, ◌==◌, ◌∙◌, &&-true, refl, inl, inr, zero, ◌-◌,
}
use tools_acloud.Listing.{
  take_choice, Typed, get_answer_from_list, Answer, number, max_choice, one_of, word, negative,
  ended, waiting,
}
use tools_acloud.Exec.{Result, err, ok, user_exit}
use mathlib.Core.Path.{subst}

module _ {ℓ} {A : Type ℓ} (answer_list : List A) (enable_choose_all : Bool) where
  -- A line that makes the loop ask again.
  abbrev pub IsRefused : Typed → Type 0
  IsRefused word = Unit
  IsRefused negative = Unit
  IsRefused (number choice) = max_choice answer_list enable_choose_all < choice

  -- What a choice gives.
  pub data Picks : ℕ → Result (List A) → Type ℓ where
    exits : Picks 0 (err user_exit)
    all_of_them : enable_choose_all ≡ true → Picks (suc (length answer_list)) (ok answer_list)
    one : (i : ℕ) (a : A) → get_elem? answer_list i ≡ some a → Picks (suc i) (ok (a ∷ []))

  one_of-Picks : (i : ℕ) → i < length answer_list → Picks (suc i) (one_of (get_elem? answer_list i))
  unfolding one_of
  one_of-Picks i lt = let (a, e) = get_elem?-of_lt answer_list i lt in rw e (one i a e)

  take_choice-Picks :
      (choice : ℕ) (again : Answer A)
      → choice ≤ max_choice answer_list enable_choose_all
      → (r : Result (List A)) × (take_choice answer_list enable_choose_all choice again ≡ ended r)
        × Picks choice r
  unfolding take_choice
  take_choice-Picks zero again le = (_, refl, exits)
  take_choice-Picks (suc i) again le =
      elim (Bool-cases (enable_choose_all && suc i == max_choice answer_list enable_choose_all)) [
        | inl y ↦ (ok answer_list, rw not_zero (rw y refl), last_choice y)
        | inr n ↦ (
          one_of (get_elem? answer_list i),
          rw not_zero (rw n (rw not_beyond (rw pred refl))),
          one_of-Picks i (inside n),
        )
      ]
    where
      not_zero : (suc i == 0) ≡ false
      not_zero = ground arith

      pred : suc i - 1 ≡ i
      pred = omega arith

      not_beyond : ltb (max_choice answer_list enable_choose_all) (suc i) ≡ false
      not_beyond = ground arith

      last_choice :
          (enable_choose_all && suc i == max_choice answer_list enable_choose_all) ≡ true
          → Picks (suc i) (ok answer_list)
      last_choice y =
          let (on, eq) = &&-true _ _ y in
          subst (λ n. Picks n (ok answer_list)) (ground arith) (all_of_them on)

      inside :
          (enable_choose_all && suc i == max_choice answer_list enable_choose_all) ≡ false
          → i < length answer_list
      inside n = ground arith

  too_big :
      (n : ℕ)
      → max_choice answer_list enable_choose_all < n
      → (again : Answer A) → take_choice answer_list enable_choose_all n again ≡ again
  unfolding take_choice
  too_big n lt again = ground arith

  -- Lines that are no integer, or out of the range that is asked for, are asked again. The first
  -- choice from 0 to the greatest decides, whatever comes after: 0 exits with the status EXIT_BY_USER, the number after the list's
  -- length gives the whole list where that is offered, and any other gives the item that is shown
  -- with it, so that no index is out of range.
  pub get_answer_from_list-Picks :
      (refused typed : List Typed)
      → All IsRefused refused
      → (choice : ℕ) → choice ≤ max_choice answer_list enable_choose_all
      → (get_answer_from_list answer_list enable_choose_all refused ≡ waiting)
        × ((r : Result (List A)) × (get_answer_from_list answer_list enable_choose_all
                (refused ++ number choice ∷ typed)
              ≡ ended r)
            × Picks choice r)
  unfolding get_answer_from_list
  get_answer_from_list-Picks [] typed h choice le = (refl, take_choice-Picks choice _ le)
  get_answer_from_list-Picks (word ∷ refused) typed h choice le =
      get_answer_from_list-Picks refused typed h.1 choice le
  get_answer_from_list-Picks (negative ∷ refused) typed h choice le =
      get_answer_from_list-Picks refused typed h.1 choice le
  get_answer_from_list-Picks (number n ∷ refused) typed h choice le =
      let (w, (r, e, p)) = get_answer_from_list-Picks refused typed h.1 choice le in
      (too_big n h.0 _ ∙ w, (r, too_big n h.0 _ ∙ e, p))
