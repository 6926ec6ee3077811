-- ===== src/Tests/UtilTests.antt =====
-- The theorems on page files at concrete inputs.
use option_hedge.Base.{
  ℕ, zero, suc, ◌≡◌, refl, arith, none, some, true, false, List, [], ◌∷◌, ◌++◌, if◌then◌else◌, ◌==◌,
  length,
}
use mathlib.Core.List.Perm
use option_hedge.Base.Text.{codes}
use option_hedge.Base.Memory.{load, blit}
use option_hedge.Os.{Os, Sys, ok}
use option_hedge.Journal.Provider.{PageProvider}
use option_hedge.Journal.PageUtil.{
  find_page_before, sort_shorts, gen_page_file_name, gen_page_full_path, extract_page_num,
  get_page_start, collect_page_nums, read_page_nums, get_page_nums, get_page_num_with_time,
  get_page_file_name_pattern, substr, atoi, read_digits, digits, to_string,
}
use option_hedge.Journal.PageUtil.Names.{extract_page_num-gen_page_file_name}
use option_hedge.Journal.PageUtil.Latest.{IsLatest}
use option_hedge.Journal.PageUtil.Unordered.{outcome, get_page_num_with_time-Perm}
use option_hedge.Journal.Cursor.{seek_time}
use option_hedge.Journal.Cursor.Seek.{seek_time-at}
use option_hedge.Journal.Log.Scan.{moved, older}
use option_hedge.Tests.JournalTests.{first_page, quoted, quote_entries, quoted-IsLog, quoted-stop}
use option_hedge.Tests.TurnTests.{gives, unplaced}
use option_hedge.Tests.Toy.{toy_os}

-- A negative page number.
extract_page_num-gen_page_file_name_example :
    extract_page_num (gen_page_file_name (codes "quotes") 65535) (codes "quotes") ≡ ok 65535
extract_page_num-gen_page_file_name_example =
    extract_page_num-gen_page_file_name (codes "quotes") 65535 (omega arith)

abbrev zeros_of : ℕ → List ℕ
zeros_of zero = []
zeros_of (suc n) = 0 ∷ zeros_of n

-- A page's header holds the length of its path as its time.
abbrev shelf_os : Os
shelf_os = record toy_os {
  list_directory = λ dir w.
      some (gen_page_file_name (codes "quotes") 9 ∷ gen_page_file_name (codes "quotes") 10 ∷ []);
  read_prefix = λ path n w. some (zeros_of 33 ++ length path ∷ zeros_of 103);
}

abbrev shelf : Sys shelf_os
shelf = record { world = 0; mem = quoted; timer = some 0 }

abbrev start_of : ℕ → ℕ
start_of m = if m == 10 then 38 else 37

read_10 : get_page_start shelf_os (codes "/var/tmp") (codes "quotes") 10 shelf ≡ ok (38, shelf)
unfolding get_page_start gen_page_full_path gen_page_file_name to_string digits load blit
read_10 = refl

read_9 : get_page_start shelf_os (codes "/var/tmp") (codes "quotes") 9 shelf ≡ ok (37, shelf)
unfolding get_page_start gen_page_full_path gen_page_file_name to_string digits load blit
read_9 = refl

listed_shelf :
    read_page_nums
      (λ _ _. true)
      (get_page_file_name_pattern (codes "quotes"))
      (codes "quotes")
      (shelf_os.list_directory (codes "/var/tmp") 0)
    ≡ ok (9 ∷ 10 ∷ [])
unfolding collect_page_nums extract_page_num substr atoi read_digits digits to_string
    gen_page_file_name
listed_shelf = refl

-- A provider that has page 9 alone.
abbrev page_9 : PageProvider shelf_os
page_9 = record (gives first_page) {
  get_page = λ dir name idx n s. if n == 9 then ok (some first_page, s) else ok (none, s);
}

found_9 :
    get_page_num_with_time shelf_os (λ _ _. true) (codes "/var/tmp") (codes "quotes") 38 shelf
    ≡ ok (9, shelf)
unfolding get_page_num_with_time get_page_nums find_page_before collect_page_nums extract_page_num
    substr atoi read_digits digits to_string gen_page_file_name get_page_start gen_page_full_path
    load blit sort_shorts
found_9 = refl

-- The pages 9 and 10 of a journal, of which 10 was started too late.
seek_time-at_example :
    IsLatest start_of 38 (9 ∷ 10 ∷ []) 9
    × (seek_time shelf_os page_9 (λ _ _. true) 2 38 unplaced shelf
        ≡ ok (
          record unplaced {
            cur_page = some (moved first_page (older 38 quote_entries));
            expired = false;
          },
          shelf,
        ))
seek_time-at_example =
    seek_time-at shelf_os page_9 (λ _ _. true) 2 38 unplaced (9 ∷ 10 ∷ []) start_of 9 first_page
      quote_entries 1041 shelf shelf shelf (λ e. omega (arith, e)) (λ e. omega (arith, e)) refl
      listed_shelf (read_9, (read_10, tt)) found_9 refl quoted-IsLog quoted-stop (omega arith)

-- The same files, listed the other way round as the world goes on.
abbrev turning_os : Os
turning_os = record shelf_os {
  list_directory = λ dir w.
      if w == 0
      then some
          (gen_page_file_name (codes "quotes") 9 ∷ gen_page_file_name (codes "quotes") 10 ∷ [])
      else some
          (gen_page_file_name (codes "quotes") 10 ∷ gen_page_file_name (codes "quotes") 9 ∷ []);
}

abbrev turning : ℕ → Sys turning_os
turning w = record { world = w; mem = quoted; timer = some 0 }

turning_starts :
    (n : ℕ)
    → outcome (get_page_start turning_os (codes "/var/tmp") (codes "quotes") n (turning 0))
      ≡ outcome (get_page_start turning_os (codes "/var/tmp") (codes "quotes") n (turning 1))
unfolding get_page_start
turning_starts n = refl

get_page_num_with_time-Perm_example :
    (outcome
        (get_page_nums turning_os (λ _ _. true) (codes "/var/tmp") (codes "quotes") (turning 0))
      ≡ outcome
          (get_page_nums turning_os (λ _ _. true) (codes "/var/tmp") (codes "quotes") (turning 1)))
    × (outcome (
          get_page_num_with_time turning_os
            (λ _ _. true)
            (codes "/var/tmp")
            (codes "quotes")
            38
            (turning 0))
        ≡ outcome (
            get_page_num_with_time turning_os
              (λ _ _. true)
              (codes "/var/tmp")
              (codes "quotes")
              38
              (turning 1)))
get_page_num_with_time-Perm_example =
    get_page_num_with_time-Perm turning_os (λ _ _. true) (codes "/var/tmp") (codes "quotes") 38
      (turning 0) (turning 1)
      (Perm.swap (gen_page_file_name (codes "quotes") 10) (gen_page_file_name (codes "quotes") 9)
        [])
      turning_starts
