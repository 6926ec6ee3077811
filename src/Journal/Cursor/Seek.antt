-- ===== src/Journal/Cursor/Seek.antt =====
-- `seekTime` of journal/journal.cpp: which page is opened, and where the journal stands on it.
use option_hedge.Base.{
  subst, ℕ, ◌<◌, ◌^◌, ◌≡◌, ◌≢◌, inl, inr, arith, false, Bool, Bool-cases, Option, none, some, List,
  [], ◌∷◌, All, In, All-In, All-of_In, length,
}
use option_hedge.Base.Text.{Text}
use option_hedge.Base.Word.{short_lt}
use option_hedge.Constants.{time_to_last, time_from_first}
use option_hedge.Os.{Os, Sys, ok, Result-cases}
use option_hedge.Journal.Frame.{get_field, status}
use option_hedge.Journal.Page.{Page}
use option_hedge.Journal.Provider.{PageProvider}
use option_hedge.Journal.PageUtil.{
  get_page_num_with_time, collect_page_nums, read_page_nums, extract_page_num,
  get_page_file_name_pattern, get_page_nums, get_page_start, sort_shorts,
}
use option_hedge.Journal.PageUtil.Sort.{
  IsSorted, sort_shorts-IsSorted, All-sort_shorts, sort_shorts-All,
}
use option_hedge.Journal.PageUtil.Unordered.{extract_page_num-short}
use option_hedge.Journal.PageUtil.Latest.{IsLatest, get_page_num_with_time-IsLatest}
use option_hedge.Journal.Log.{Entry, IsLog}
use option_hedge.Journal.Log.Scan.{moved, older, pass_to_time_lem, pass_written_frame-moved}
use option_hedge.Journal.Cursor.{
  Journal, last_or, release_cur_page, seek_time, seek_last, seek_nano,
}

collect_page_nums-short :
    (matches : Text → Text → Bool) (pattern jname : Text) (fs : List Text) (ns : List ℕ)
    → collect_page_nums matches pattern jname fs ≡ ok ns
    → All (λ n. n < 2 ^ 16) ns
unfolding collect_page_nums
collect_page_nums-short matches pattern jname [] ns h =
    let none_left : ns ≡ [] = ground arith in rw none_left tt
collect_page_nums-short matches pattern jname (f ∷ fs) ns h =
    elim (Bool-cases (matches pattern f)) [
      | inr other ↦ collect_page_nums-short matches pattern jname fs ns (ground arith)
      | inl page ↦ elim (Result-cases (extract_page_num f jname)) [
        | inl (x, failed) ↦ ground (arith, page, failed)
        | inr (n, number) ↦ elim (Result-cases (collect_page_nums matches pattern jname fs)) [
          | inl (x, failed) ↦ ground (arith, page, number, failed)
          | inr (ms, rest) ↦
              let both : ns ≡ n ∷ ms = ground (arith, page, number, rest) in
              rw both (
                extract_page_num-short f jname n number,
                collect_page_nums-short matches pattern jname fs ms rest,
              )
        ]
      ]
    ]

read_page_nums-short :
    (matches : Text → Text → Bool) (pattern jname : Text) (fs : Option (List Text)) (ns : List ℕ)
    → read_page_nums matches pattern jname fs ≡ ok ns
    → All (λ n. n < 2 ^ 16) ns
read_page_nums-short matches pattern jname none ns h = absurd (cc h)
read_page_nums-short matches pattern jname (some fs) ns h =
    collect_page_nums-short matches pattern jname fs ns h

All-last : (P : ℕ → Type 0) (d : ℕ) (xs : List ℕ) → P d → All P xs → P (last_or d xs)
All-last P d [] p h = p
All-last P d (x ∷ xs) p (q, h) = All-last P x xs q h

-- The last entry of a sorted list is not less than any other.
last_or-greatest :
    (d : ℕ) (xs : List ℕ)
    → All (λ y. short_lt y d ≡ false) xs
    → IsSorted xs
    → All (λ y. short_lt (last_or d xs) y ≡ false) (d ∷ xs)
last_or-greatest d [] h s = (ground arith, tt)
last_or-greatest d (x ∷ xs) (le, h) (below, s) =
    let (top, rest) = last_or-greatest x xs below s in (ground arith, (top, rest))

-- So the last entry of the sorted list is the greatest short of the list.
last_or-sort_shorts :
    (n : ℕ) (ns : List ℕ)
    → In n ns
    → All (λ y. y < 2 ^ 16) ns
    → All (λ y. short_lt n y ≡ false) ns
    → last_or 1 (sort_shorts ns) ≡ n
last_or-sort_shorts n ns on_list shorts greatest =
    pick (sort_shorts ns) (sort_shorts-IsSorted ns)
      (All-In Sorted ns n (sort_shorts-All Sorted ns (All-of_In Sorted (sort_shorts ns) (λ a i. i)))
        on_list)
      (All-sort_shorts (λ y. y < 2 ^ 16) ns shorts)
      (All-sort_shorts (λ y. short_lt n y ≡ false) ns greatest)
  where
    Sorted : ℕ → Type 0
    Sorted y = In y (sort_shorts ns)

    pick :
        (xs : List ℕ)
        → IsSorted xs
        → In n xs
        → All (λ y. y < 2 ^ 16) xs
        → All (λ y. short_lt n y ≡ false) xs
        → last_or 1 xs ≡ n
    pick [] s i h g = elim i [ ]
    pick (x ∷ xs) (below, s) i h g =
        let top =
          All-In (λ y. short_lt (last_or x xs) y ≡ false) (x ∷ xs) n (last_or-greatest x xs below s)
            i in
        let low = All-last (λ y. short_lt n y ≡ false) x xs g.0 g.1 in
        let n_short = All-In (λ y. y < 2 ^ 16) (x ∷ xs) n h i in
        let last_short = All-last (λ y. y < 2 ^ 16) x xs h.0 h.1 in
        ground (arith, top, low, n_short, last_short)

module _ (os : Os) (provider : PageProvider os) where
  seek_last-moved :
      (matches : Text → Text → Bool) (fuel : ℕ) (j : Journal) (ns : List ℕ) (n : ℕ)
      → (p : Page) (es : List Entry) (b : ℕ) (s s1 : Sys os)
      → read_page_nums matches
          (get_page_file_name_pattern j.short_name)
          j.short_name
          (os.list_directory j.directory s.world)
        ≡ ok ns
      → In n ns
      → All (λ y. short_lt n y ≡ false) ns
      → provider.get_page j.directory j.short_name j.service_idx n s ≡ ok (some p, s1)
      → IsLog s1.mem p.frame es b
      → get_field status b s1.mem ≢ 1
      → length es < fuel
      → seek_last os provider matches fuel j s ≡ ok (record j { cur_page = some (moved p es) }, s1)
  unfolding seek_last get_page_nums
  seek_last-moved matches fuel j ns n p es b s s1 listed on_list greatest got l stop enough =
      let shorts =
        read_page_nums-short matches (get_page_file_name_pattern j.short_name) j.short_name
          (os.list_directory j.directory s.world) ns listed in
      let last = last_or-sort_shorts n ns on_list shorts greatest in
      let passed = pass_written_frame-moved fuel p s1.mem es b l stop enough in
      ground (arith, listed, last, got, passed)

  -- Going to the end of a journal opens its last page, the one whose number is the greatest short among
  -- the journal's files, and stands behind that page's last written frame; the journal counts as live
  -- again. It is so where the old page is released, the numbers of the files can be read, the provider
  -- gives the page, and the written frames of the page are a log of fewer entries than the fuel.
  pub seek_time-last :
      (matches : Text → Text → Bool) (fuel : ℕ) (j : Journal) (ns : List ℕ) (n : ℕ)
      → (p : Page) (es : List Entry) (b : ℕ) (s0 s s1 : Sys os)
      → release_cur_page os provider j j.cur_page s0 ≡ ok (tt, s)
      → read_page_nums matches
          (get_page_file_name_pattern j.short_name)
          j.short_name
          (os.list_directory j.directory s.world)
        ≡ ok ns
      → In n ns
      → All (λ y. short_lt n y ≡ false) ns
      → provider.get_page j.directory j.short_name j.service_idx n s ≡ ok (some p, s1)
      → IsLog s1.mem p.frame es b
      → get_field status b s1.mem ≢ 1
      → length es < fuel
      → seek_time os provider matches fuel time_to_last j s0
        ≡ ok (record j { cur_page = some (moved p es); expired = false }, s1)
  unfolding seek_time
  seek_time-last matches fuel j ns n p es b s0 s s1 released listed on_list greatest got l stop
        enough =
      let at_end =
        seek_last-moved matches fuel j ns n p es b s s1 listed on_list greatest got l stop enough in
      ground (arith, released, at_end)

  -- Going to a time opens the latest page that was started before it, or page 1 where there is none, and
  -- stands there on the first frame that is not older than the time, or behind the last frame; the
  -- journal counts as live again. It is so for a time that is neither of the two special ones, where the
  -- old page is released, the files' numbers and the pages' headers can be read, and the provider gives
  -- the page that is found, with a log of fewer entries than the fuel.
  pub seek_time-at :
      (matches : Text → Text → Bool) (fuel time : ℕ) (j : Journal) (ns : List ℕ) (starts : ℕ → ℕ)
      → (n : ℕ) (p : Page) (es : List Entry) (b : ℕ) (s0 s s1 : Sys os) → time ≢ time_to_last
      → time ≢ time_from_first
      → release_cur_page os provider j j.cur_page s0 ≡ ok (tt, s)
      → read_page_nums matches
          (get_page_file_name_pattern j.short_name)
          j.short_name
          (os.list_directory j.directory s.world)
        ≡ ok ns
      → All (λ m. get_page_start os j.directory j.short_name m s ≡ ok (starts m, s)) ns
      → get_page_num_with_time os matches j.directory j.short_name time s ≡ ok (n, s)
      → provider.get_page j.directory j.short_name j.service_idx n s ≡ ok (some p, s1)
      → IsLog s1.mem p.frame es b
      → get_field status b s1.mem ≢ 1
      → length es < fuel
      → IsLatest starts time ns n
        × (seek_time os provider matches fuel time j s0
            ≡ ok (record j { cur_page = some (moved p (older time es)); expired = false }, s1))
  unfolding seek_time seek_nano
  seek_time-at matches fuel time j ns starts n p es b s0 s s1 not_last not_first released listed
        reads found got l stop enough =
      let (m, found', latest) =
        get_page_num_with_time-IsLatest os matches j.directory j.short_name time starts ns s listed
          reads in
      let same : m ≡ n = cc (found, found') in
      let passed = pass_to_time_lem fuel time p s1.mem es b l stop enough in
      (
        subst (IsLatest starts time ns) same latest,
        ground (arith, released, found, got, passed, not_last, not_first),
      )
