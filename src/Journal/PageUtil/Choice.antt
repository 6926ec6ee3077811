-- ===== src/Journal/PageUtil/Choice.antt =====
-- `GetPageNumWithTime` of journal/PageUtil.cpp: the page that a look by time begins with.
use option_hedge.Base.{
  ℕ, ◌≡◌, ◌⊎◌, inl, inr, arith, true, false, refl, Bool-cases, List, [], ◌∷◌, ◌++◌, All, ap,
}
use option_hedge.Base.Text.{Text}
use option_hedge.Base.Word.{long_lt}
use option_hedge.Os.{Os, Sys, ok}
use option_hedge.Journal.PageUtil.{get_page_start, find_page_before}

-- The first page of the list that was started before the time, or 1 where there is none.
abbrev pub IsChosen : (ℕ → ℕ) → ℕ → List ℕ → ℕ → Type 0
IsChosen starts time ns n =
    ((newer : List ℕ) × (older : List ℕ) × (ns ≡ newer ++ n ∷ older)
      × All (λ m. long_lt (starts m) time ≡ false) newer
      × (long_lt (starts n) time ≡ true))
    ⊎ (All (λ m. long_lt (starts m) time ≡ false) ns × (n ≡ 1))

IsChosen-later :
    (starts : ℕ → ℕ) (time m : ℕ) (ns : List ℕ) (n : ℕ)
    → long_lt (starts m) time ≡ false
    → IsChosen starts time ns n
    → IsChosen starts time (m ∷ ns) n
IsChosen-later starts time m ns n late (inl (newer, older, split, all, early)) =
    inl (m ∷ newer, older, ap (λ xs. m ∷ xs) split, (late, all), early)
IsChosen-later starts time m ns n late (inr (all, one)) = inr ((late, all), one)

-- The loop over the page numbers answers the first page that was started before the time: every page
-- that it meets earlier was not. Without such a page it answers 1. It is stated for pages whose
-- headers can be read, and needs no fuel.
pub find_page_before_lem :
    (os : Os) (dir jname : Text) (time : ℕ) (starts : ℕ → ℕ) (s : Sys os) (ns : List ℕ)
    → All (λ m. get_page_start os dir jname m s ≡ ok (starts m, s)) ns
    → (n : ℕ) × (find_page_before os dir jname time ns s ≡ ok (n, s)) × IsChosen starts time ns n
unfolding find_page_before
find_page_before_lem os dir jname time starts s [] h = (1, refl, inr (tt, refl))
find_page_before_lem os dir jname time starts s (m ∷ ns) (read, reads) =
    let (n, found, chosen) = find_page_before_lem os dir jname time starts s ns reads in
    elim (Bool-cases (long_lt (starts m) time)) [
      | inl early ↦ (m, ground (arith, read, early), inl ([], ns, refl, tt, early))
      | inr late ↦
          (n, ground (arith, read, late, found), IsChosen-later starts time m ns n late chosen)
    ]
