-- ===== src/Journal/PageUtil/Unordered.antt =====
-- `GetPageNums` of journal/PageUtil.cpp and the order in which the directory lists its files.
use option_hedge.Base.{
  ℕ, ◌^◌, ◌<◌, ◌≡◌, inl, inr, ◌⊎◌, refl, sym, ap, ◌∙◌, arith, Bool, Bool-cases, Option-cases,
  length, ◌==◌, reverse, List, [], ◌∷◌, if◌then◌else◌,
}
use mathlib.Core.Option.{Option, none, some}
use mathlib.Core.List.{Perm, foldr}
use mathlib.Core.List.Perm
use option_hedge.Base.Memory.{load, blit}
use option_hedge.Base.Text.{Text}
use option_hedge.Os.{
  Os, Sys, Result, ok, err, out_of_range, Failure, Result-cases, null_pointer, indeterminate,
}
use option_hedge.Journal.PageUtil.{
  insert_short, sort_shorts, substr, extract_page_num, collect_page_nums, read_page_nums,
  get_page_nums, get_page_file_name_pattern, get_page_start, find_page_before,
  get_page_num_with_time, gen_page_full_path,
}

insert_short_comm :
    (x y : ℕ) (ns : List ℕ)
    → x < 2 ^ 16
    → y < 2 ^ 16
    → insert_short x (insert_short y ns) ≡ insert_short y (insert_short x ns)
unfolding insert_short
insert_short_comm x y [] hx hy = ground arith
insert_short_comm x y (n ∷ ns) hx hy =
    let rest = insert_short_comm x y ns hx hy in ground (arith, rest)

-- The loop and the sort in one: each number goes to its place as its file is met.
sort_in : (Text → Text → Bool) → Text → Text → Text → Option (List ℕ) → Option (List ℕ)
sort_in matches pattern jname f none = none
sort_in matches pattern jname f (some ns) =
    if matches pattern f
    then elim (extract_page_num f jname) [ ok n ↦ some (insert_short n ns) | err e ↦ none ]
    else some ns

to_result : Option (List ℕ) → Result (List ℕ)
to_result none = err out_of_range
to_result (some ns) = ok ns

pub extract_page_num-short : (f jname : Text) (n : ℕ) → extract_page_num f jname ≡ ok n → n < 2 ^ 16
unfolding extract_page_num
extract_page_num-short f jname n h = ground arith

extract_page_num-err :
    (f jname : Text) (e : Failure) → extract_page_num f jname ≡ err e → e ≡ out_of_range
unfolding extract_page_num substr
extract_page_num-err f jname e h = ground arith

sort_in-cases :
    (matches : Text → Text → Bool) (pattern jname f : Text)
    → ((n : ℕ) × (n < 2 ^ 16)
        × ((ns : List ℕ) → sort_in matches pattern jname f (some ns) ≡ some (insert_short n ns)))
      ⊎ ((ns : List ℕ) → sort_in matches pattern jname f (some ns) ≡ some ns)
      ⊎ ((ns : List ℕ) → sort_in matches pattern jname f (some ns) ≡ none)
unfolding sort_in
sort_in-cases matches pattern jname f = elim (Bool-cases (matches pattern f)) [
  | inr other ↦ inr (inl (λ ns. rw other))
  | inl page ↦ elim (Result-cases (extract_page_num f jname)) [
    | inl (x, failed) ↦ inr (inr (λ ns. rw (page, failed)))
    | inr (n, number) ↦ inl (n, extract_page_num-short f jname n number, λ ns. rw (page, number))
  ]
]

sort_in_comm :
    (matches : Text → Text → Bool) (pattern jname f g : Text) (ns : Option (List ℕ))
    → sort_in matches pattern jname f (sort_in matches pattern jname g ns)
      ≡ sort_in matches pattern jname g (sort_in matches pattern jname f ns)
sort_in_comm matches pattern jname f g none = unfold sort_in in refl
sort_in_comm matches pattern jname f g (some ns) =
    let nothing : (h : Text) → sort_in matches pattern jname h none ≡ none =
      λ h. unfold sort_in in refl in
    elim (sort_in-cases matches pattern jname f) [
      | inl (n, n_short, put_n) ↦ elim (sort_in-cases matches pattern jname g) [
        | inl (k, k_short, put_k) ↦
            rw (put_k, put_n, put_n, put_k) (ap some (insert_short_comm n k ns n_short k_short))
        | inr (inl same) ↦ rw (same, put_n, same)
        | inr (inr bad) ↦ rw (bad, put_n, bad, nothing)
      ]
      | inr (inl same) ↦ elim (sort_in-cases matches pattern jname g) [
        | inl (k, k_short, put_k) ↦ rw (put_k, same, same, put_k)
        | inr (inl same') ↦ rw (same', same, same')
        | inr (inr bad) ↦ rw (bad, same, bad, nothing)
      ]
      | inr (inr bad) ↦ elim (sort_in-cases matches pattern jname g) [
        | inl (k, k_short, put_k) ↦ rw (put_k, bad, bad, nothing)
        | inr (inl same) ↦ rw (same, bad, nothing)
        | inr (inr bad') ↦ rw (bad', bad, nothing, nothing)
      ]
    ]

sorted : Result (List ℕ) → Result (List ℕ)
sorted (ok ns) = ok (sort_shorts ns)
sorted (err e) = err e

-- The numbers that the loop collects, sorted, are those that are put to their places.
sorted-collect_page_nums :
    (matches : Text → Text → Bool) (pattern jname : Text) (fs : List Text)
    → sorted (collect_page_nums matches pattern jname fs)
      ≡ to_result (foldr (sort_in matches pattern jname) (some []) fs)
unfolding sorted to_result collect_page_nums sort_in sort_shorts
sorted-collect_page_nums matches pattern jname [] = refl
sorted-collect_page_nums matches pattern jname (f ∷ fs) =
    let rest = sorted-collect_page_nums matches pattern jname fs in
    elim (Result-cases (extract_page_num f jname)) [
      | inl (x, failed) ↦
          let named = extract_page_num-err f jname x failed in ground (arith, rest, failed, named)
      | inr (n, number) ↦ ground (arith, rest, number)
    ]

-- What a call answers, without the state it leaves.
abbrev pub outcome {ℓ} : {A S : Type ℓ} → Result (A × S) → Result A
outcome (ok (a, s)) = ok a
outcome (err e) = err e

outcome-read_page_nums :
    (os : Os) (matches : Text → Text → Bool) (dir jname : Text) (s : Sys os) (fs : List Text)
    → os.list_directory dir s.world ≡ some fs
    → outcome (get_page_nums os matches dir jname s)
      ≡ to_result (foldr (sort_in matches (get_page_file_name_pattern jname) jname) (some []) fs)
unfolding get_page_nums sorted
outcome-read_page_nums os matches dir jname s fs listed =
    let all = sorted-collect_page_nums matches (get_page_file_name_pattern jname) jname fs in
    ground (arith, all, listed)

-- Two listings with the same files, or of a directory that is not there.
abbrev pub SameFiles : Option (List Text) → Option (List Text) → Type 0
SameFiles (some fs) (some gs) = Perm fs gs
SameFiles none none = Unit
SameFiles _ _ = ⊥

-- Reading a page's start leaves the state.
get_page_start-cases :
    (os : Os) (dir jname : Text) (n : ℕ) (s : Sys os)
    → ((start : ℕ) × (get_page_start os dir jname n s ≡ ok (start, s)))
      ⊎ ((e : Failure) × (get_page_start os dir jname n s ≡ err e))
unfolding get_page_start
get_page_start-cases os dir jname n s =
    elim (Option-cases (os.read_prefix (gen_page_full_path dir jname n) 137 s.world)) [
      | inl missing ↦ inr (null_pointer, ground (arith, missing))
      | inr (bytes, got) ↦ elim (Bool-cases (length bytes == 137)) [
        | inl whole ↦ inl (load 8 33 (blit 0 bytes (λ _. 0)), ground (arith, got, whole))
        | inr short ↦ inr (indeterminate, ground (arith, got, short))
      ]
    ]

find_page_before-outcome :
    (os : Os) (dir jname : Text) (time : ℕ) (s t : Sys os) (ns : List ℕ)
    → ((n : ℕ)
        → outcome (get_page_start os dir jname n s) ≡ outcome (get_page_start os dir jname n t))
    → outcome (find_page_before os dir jname time ns s)
      ≡ outcome (find_page_before os dir jname time ns t)
unfolding find_page_before
find_page_before-outcome os dir jname time s t [] same = refl
find_page_before-outcome os dir jname time s t (n ∷ ns) same =
    let rest = find_page_before-outcome os dir jname time s t ns same in
    let in_s = get_page_start-cases os dir jname n s in
    let in_t = get_page_start-cases os dir jname n t in ground (arith, rest, same n, in_s, in_t)

get_page_nums-Perm :
    (os : Os) (matches : Text → Text → Bool) (dir jname : Text) (s t : Sys os)
    → SameFiles (os.list_directory dir s.world) (os.list_directory dir t.world)
    → outcome (get_page_nums os matches dir jname s)
      ≡ outcome (get_page_nums os matches dir jname t)
unfolding get_page_nums
get_page_nums-Perm os matches dir jname s t same =
    let step = sort_in matches (get_page_file_name_pattern jname) jname in
    let sorts = sort_in_comm matches (get_page_file_name_pattern jname) jname in
    elim (Option-cases (os.list_directory dir s.world)) [
      | inl none_s ↦ elim (Option-cases (os.list_directory dir t.world)) [
        | inl none_t ↦ ground (arith, none_s, none_t)
        | inr (gs, some_t) ↦ absurd (rw (none_s, some_t) at same)
      ]
      | inr (fs, some_s) ↦ elim (Option-cases (os.list_directory dir t.world)) [
        | inl none_t ↦ absurd (rw (some_s, none_t) at same)
        | inr (gs, some_t) ↦
            let perm : Perm fs gs = rw (some_s, some_t) at same in
            outcome-read_page_nums os matches dir jname s fs some_s
            ∙ ap to_result (Perm.foldr-eq (hlevel) step sorts perm (some []))
            ∙ sym (outcome-read_page_nums os matches dir jname t gs some_t)
      ]
    ]

get_page_nums-cases :
    (os : Os) (matches : Text → Text → Bool) (dir jname : Text) (s : Sys os)
    → ((ns : List ℕ) × (get_page_nums os matches dir jname s ≡ ok (ns, s)))
      ⊎ ((e : Failure) × (get_page_nums os matches dir jname s ≡ err e))
unfolding get_page_nums
get_page_nums-cases os matches dir jname s =
    let listed = Result-cases (
      read_page_nums matches (get_page_file_name_pattern jname) jname
        (os.list_directory dir s.world)) in
    elim listed [
      | inl (e, failed) ↦ inr (e, ground (arith, failed))
      | inr (ns, read) ↦ inl (sort_shorts ns, ground (arith, read))
    ]

-- The page numbers that are read in a directory, and the page that is found by time among them, do not
-- depend on the order in which the directory lists its files; nor does the error where the
-- directory, a number or a page's start cannot be read. It is stated for two states that list the same files and read the same
-- starts.
pub get_page_num_with_time-Perm :
    (os : Os) (matches : Text → Text → Bool) (dir jname : Text) (time : ℕ) (s t : Sys os)
    → SameFiles (os.list_directory dir s.world) (os.list_directory dir t.world)
    → ((n : ℕ)
        → outcome (get_page_start os dir jname n s) ≡ outcome (get_page_start os dir jname n t))
    → (outcome (get_page_nums os matches dir jname s)
        ≡ outcome (get_page_nums os matches dir jname t))
      × (outcome (get_page_num_with_time os matches dir jname time s)
          ≡ outcome (get_page_num_with_time os matches dir jname time t))
unfolding get_page_num_with_time
get_page_num_with_time-Perm os matches dir jname time s t same starts =
    let nums = get_page_nums-Perm os matches dir jname s t same in
    (
      nums,
      elim (get_page_nums-cases os matches dir jname s) [
        | inl (ns, in_s) ↦
            let found = find_page_before-outcome os dir jname time s t (reverse ns) starts in
            let in_t = get_page_nums-cases os matches dir jname t in
            ground (arith, nums, in_s, in_t, found)
        | inr (e, in_s) ↦
            let in_t = get_page_nums-cases os matches dir jname t in
            ground (arith, nums, in_s, in_t)
      ],
    )
