-- ===== src/Journal/PageUtil/Latest.antt =====
-- `GetPageNumWithTime` of journal/PageUtil.cpp as a choice by the order of the page numbers.
use option_hedge.Base.{
  ℕ, ◌≡◌, ◌⊎◌, inl, inr, arith, true, false, refl, sym, ap, ◌∙◌, subst, Bool, List, [], ◌∷◌, ◌++◌,
  reverse, All, All-map, All-join, In, first, later, All-In, All-of_In,
}
use mathlib.Core.List.{reverse_aux, reverse-append, reverse-reverse, reverse-cons, append_assoc}
use option_hedge.Base.Text.{Text}
use option_hedge.Base.Word.{short_lt, long_lt}
use option_hedge.Os.{Os, Sys, ok}
use option_hedge.Journal.PageUtil.{
  read_page_nums, get_page_file_name_pattern, get_page_nums, get_page_start, get_page_num_with_time,
  sort_shorts,
}
use option_hedge.Journal.PageUtil.Choice.{IsChosen, find_page_before_lem}
use option_hedge.Journal.PageUtil.Sort.{
  IsSorted, sort_shorts-IsSorted, All-sort_shorts, sort_shorts-All,
}

-- The page of the list with the greatest number among those started before the time, or 1 where there
-- is none.
abbrev pub IsLatest : (ℕ → ℕ) → ℕ → List ℕ → ℕ → Type 0
IsLatest starts time ns n =
    (In n ns
      × (long_lt (starts n) time ≡ true)
      × All (λ m. short_lt n m ≡ true → long_lt (starts m) time ≡ false) ns)
    ⊎ (All (λ m. long_lt (starts m) time ≡ false) ns × (n ≡ 1))

All-reverse_aux :
    (P : ℕ → Type 0) (xs acc : List ℕ) → All P xs → All P acc → All P (reverse_aux xs acc)
All-reverse_aux P [] acc h k = k
All-reverse_aux P (x ∷ xs) acc (p, h) k = All-reverse_aux P xs (x ∷ acc) h (p, k)

All-reverse : (P : ℕ → Type 0) (xs : List ℕ) → All P xs → All P (reverse xs)
All-reverse P xs h = All-reverse_aux P xs [] h tt

In-middle : (n : ℕ) (xs ys : List ℕ) → In n (xs ++ n ∷ ys)
In-middle n [] ys = first refl
In-middle n (x ∷ xs) ys = later (In-middle n xs ys)

-- What stands in front of an entry of a sorted list is not greater.
IsSorted-before :
    (xs : List ℕ) (n : ℕ) (ys : List ℕ)
    → IsSorted (xs ++ n ∷ ys)
    → All (λ m. short_lt n m ≡ false) xs
IsSorted-before [] n ys h = tt
IsSorted-before (x ∷ xs) n ys (below, h) = (
  All-In (λ y. short_lt y x ≡ false) (xs ++ n ∷ ys) n below (In-middle n xs ys),
  IsSorted-before xs n ys h,
)

reverse-split :
    (xs newer : List ℕ) (n : ℕ) (older : List ℕ)
    → reverse xs ≡ newer ++ n ∷ older
    → xs ≡ reverse older ++ n ∷ reverse newer
reverse-split xs newer n older split =
    sym (reverse-reverse xs)
    ∙ ap reverse split
    ∙ reverse-append newer (n ∷ older)
    ∙ ap (λ l. l ++ reverse newer) (reverse-cons n older)
    ∙ append_assoc (reverse older) (n ∷ []) (reverse newer)

IsLatest-IsChosen :
    (starts : ℕ → ℕ) (time : ℕ) (ns : List ℕ) (n : ℕ)
    → IsChosen starts time (reverse (sort_shorts ns)) n
    → IsLatest starts time ns n
IsLatest-IsChosen starts time ns n (inr (late, one)) =
    let all = All-reverse (λ m. long_lt (starts m) time ≡ false) (reverse (sort_shorts ns)) late in
    inr (
      sort_shorts-All (λ m. long_lt (starts m) time ≡ false) ns
          (subst (All (λ m. long_lt (starts m) time ≡ false)) (reverse-reverse (sort_shorts ns))
            all),
      one,
    )
IsLatest-IsChosen starts time ns n (inl (newer, older, split, late, early)) =
    inl (listed, early, sort_shorts-All Later ns (subst (All Later) (sym sides) ordered))
  where
    Later : ℕ → Type 0
    Later m = short_lt n m ≡ true → long_lt (starts m) time ≡ false

    sides : sort_shorts ns ≡ reverse older ++ n ∷ reverse newer
    sides = reverse-split (sort_shorts ns) newer n older split

    listed : In n ns
    listed =
        All-In (λ y. In y ns) (sort_shorts ns) n
          (All-sort_shorts (λ y. In y ns) ns (All-of_In (λ y. In y ns) ns (λ a i. i)))
          (subst (In n) (sym sides) (In-middle n (reverse older) (reverse newer)))

    ordered : All Later (reverse older ++ n ∷ reverse newer)
    ordered =
        All-join Later (reverse older) (n ∷ reverse newer)
          (All-map (λ m. short_lt n m ≡ false) Later (reverse older)
            (λ m le gt. absurd (cc (le, gt)))
            (IsSorted-before (reverse older) n (reverse newer)
              (subst IsSorted sides (sort_shorts-IsSorted ns))))
          (
            (λ gt. ground (arith, gt)),
            All-reverse Later newer
                (All-map (λ m. long_lt (starts m) time ≡ false) Later newer (λ m h gt. h) late),
          )

-- The look for a page by time answers the page with the greatest number among those that were started
-- before the time, or 1 where there is none. It is stated for a directory whose page numbers can be
-- read, and pages whose headers can be read.
pub get_page_num_with_time-IsLatest :
    (os : Os) (matches : Text → Text → Bool) (dir jname : Text) (time : ℕ) (starts : ℕ → ℕ)
    (ns : List ℕ) (s : Sys os)
    → read_page_nums matches
        (get_page_file_name_pattern jname)
        jname
        (os.list_directory dir s.world)
      ≡ ok ns
    → All (λ m. get_page_start os dir jname m s ≡ ok (starts m, s)) ns
    → (n : ℕ) × (get_page_num_with_time os matches dir jname time s ≡ ok (n, s))
      × IsLatest starts time ns n
unfolding get_page_num_with_time get_page_nums
get_page_num_with_time-IsLatest os matches dir jname time starts ns s listed reads =
    let Reads = λ (m : ℕ). get_page_start os dir jname m s ≡ ok (starts m, s) in
    let (n, found, chosen) =
      find_page_before_lem os dir jname time starts s (reverse (sort_shorts ns))
        (All-reverse Reads (sort_shorts ns) (All-sort_shorts Reads ns reads)) in
    (n, ground (arith, listed, found), IsLatest-IsChosen starts time ns n chosen)
