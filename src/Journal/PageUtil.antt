-- ===== src/Journal/PageUtil.antt =====
-- journal/PageUtil.h and journal/PageUtil.cpp: the names of page files, the choice of a page by time,
-- and the mapping of files into memory.
pub mod Names
pub mod Choice
pub mod Sort
pub mod Latest
pub mod Unordered
use option_hedge.Base.{
  ℕ, zero, suc, ◌+◌, ◌-◌, ◌*◌, ◌/◌, ◌%◌, ◌^◌, Bool, true, false, ◌&&◌, Option, none, some, List, [],
  ◌∷◌, ◌++◌, if◌then◌else◌, ◌==◌, ltb, leb, not, ◌||◌, length, drop, take, reverse,
}
use option_hedge.Base.Text.{Text, codes}
use option_hedge.Base.Memory.{load, blit}
use option_hedge.Base.Word.{to_short, to_int, short_lt, long_lt}
use option_hedge.Constants.{journal_prefix, journal_suffix}
use option_hedge.Os.{
  Os, Sys, M, Result, ok, err, ◌>>=◌, ◌>>◌, pure, fail, get, modify, call, when, exit_failure,
  out_of_range, null_pointer, filesystem_error, indeterminate,
}

-- The decimal digits of a number below 10 ^ fuel, in front of `rest`.
unfoldable pub digits : ℕ → ℕ → Text → Text
digits zero n rest = rest
digits (suc fuel) n rest =
    let digit = b'0' + n % 10 in
    let more = digits fuel (n / 10) (digit ∷ rest) in if n / 10 == 0 then digit ∷ rest else more

-- std::to_string of a short: 5 digits are enough for 2 ^ 15.
unfoldable pub to_string : ℕ → Text
to_string n = if ltb n (2 ^ 15) then digits 5 n [] else b'-' ∷ digits 5 (2 ^ 16 - n) []

unfoldable pub gen_page_file_name : Text → ℕ → Text
gen_page_file_name jname page_num =
    journal_prefix
    ++ codes "."
    ++ jname
    ++ codes "."
    ++ to_string page_num
    ++ codes "."
    ++ journal_suffix

unfoldable pub gen_page_full_path : Text → Text → ℕ → Text
gen_page_full_path dir jname page_num = dir ++ codes "/" ++ gen_page_file_name jname page_num

unfoldable pub get_page_file_name_pattern : Text → Text
get_page_file_name_pattern jname =
    journal_prefix ++ codes "\\." ++ jname ++ codes "\\.[0-9]+\\." ++ journal_suffix

abbrev pub is_digit : ℕ → Bool
is_digit c = leb b'0' c && leb c b'9'

-- The digits at the front of a text, read as `atoi` reads them.
unfoldable pub read_digits : ℕ → Text → ℕ
read_digits acc [] = acc
read_digits acc (c ∷ cs) =
    let rest = read_digits (acc * 10 + (c - b'0')) cs in if is_digit c then rest else acc

abbrev pub is_space : ℕ → Bool
is_space c = c == b' ' || (leb 9 c && leb c 13)

-- After the blanks: an optional sign and digits. The value is an int.
abbrev pub read_signed : Text → ℕ
read_signed [] = 0
read_signed (c ∷ cs) =
    if c == b'-'
    then to_int (2 ^ 32 - read_digits 0 cs % 2 ^ 32)
    else if c == b'+'
    then to_int (read_digits 0 cs)
    else to_int (read_digits 0 (c ∷ cs))

unfoldable pub atoi : Text → ℕ
atoi [] = 0
atoi (c ∷ cs) = let rest = atoi cs in if is_space c then rest else read_signed (c ∷ cs)

-- std::string::substr
unfoldable pub substr : Text → ℕ → ℕ → Result Text
substr s pos count = if ltb (length s) pos then err out_of_range else ok (take count (drop pos s))

unfoldable pub extract_page_num : Text → Text → Result ℕ
extract_page_num filename jname =
    elim (substr filename (length journal_prefix + length jname + 2)
      (length filename - length journal_suffix)) [
        | ok num ↦ ok (to_short (atoi num))
        | err e ↦ err e
      ]

-- std::sort of shorts, by their signed order.
insert_short : ℕ → List ℕ → List ℕ
insert_short x [] = x ∷ []
insert_short x (y ∷ ys) = if short_lt y x then y ∷ insert_short x ys else x ∷ y ∷ ys

unfoldable pub sort_shorts : List ℕ → List ℕ
unfolding insert_short
sort_shorts [] = []
sort_shorts (x ∷ xs) = insert_short x (sort_shorts xs)

-- The loop over the directory, in front of the sort. `matches` is boost::regex_match.
unfoldable pub collect_page_nums : (Text → Text → Bool) → Text → Text → List Text → Result (List ℕ)
collect_page_nums matches pattern jname [] = ok []
collect_page_nums matches pattern jname (f ∷ fs) =
    let rest = collect_page_nums matches pattern jname fs in
    if matches pattern f
    then elim (extract_page_num f jname) [
      | ok n ↦ elim rest [ ok ns ↦ ok (n ∷ ns) | err e ↦ err e ]
      | err e ↦ err e
    ]
    else rest

-- The loop over a directory that may not be there.
abbrev pub read_page_nums :
    (Text → Text → Bool) → Text → Text → Option (List Text) → Result (List ℕ)
read_page_nums matches pattern jname none = err filesystem_error
read_page_nums matches pattern jname (some files) = collect_page_nums matches pattern jname files

module _ (os : Os) where
  abbrev pub lift : {A : Type 0} → Result A → M (Sys os) A
  lift (ok a) s = ok (a, s)
  lift (err e) s = err e

  unfoldable pub get_page_nums : (Text → Text → Bool) → Text → Text → M (Sys os) (List ℕ)
  get_page_nums matches dir jname = do
    s ← get
    nums ← lift (
        read_page_nums matches (get_page_file_name_pattern jname) jname
          (os.list_directory dir s.world))
    pure (sort_shorts nums)

  -- The header's `start_nano`, 8 bytes at offset 33 of the 137 that are read. A file that cannot be
  -- opened goes on to `fread` with a null pointer; a short one leaves the header unset.
  unfoldable pub get_page_start : Text → Text → ℕ → M (Sys os) ℕ
  get_page_start dir jname page_num s =
      elim (os.read_prefix (gen_page_full_path dir jname page_num) 137 s.world) [
        | none ↦ err null_pointer
        | some bytes ↦
            if length bytes == 137
            then ok (load 8 33 (blit 0 bytes (λ _. 0)), s)
            else err indeterminate
      ]

  -- The loop of `GetPageNumWithTime`, over the page numbers in the order of its visits.
  unfoldable pub find_page_before : Text → Text → ℕ → List ℕ → M (Sys os) ℕ
  find_page_before dir jname time [] = pure 1
  find_page_before dir jname time (n ∷ ns) = do
    start ← get_page_start dir jname n
    if long_lt start time then pure n else find_page_before dir jname time ns

  unfoldable pub get_page_num_with_time : (Text → Text → Bool) → Text → Text → ℕ → M (Sys os) ℕ
  get_page_num_with_time matches dir jname time = do
    nums ← get_page_nums matches dir jname
    find_page_before dir jname time (reverse nums)

  close_and_exit : {A : Type 0} → ℕ → M (Sys os) A
  close_and_exit fd = do
    modify (λ s. record s { world = os.close_file fd s.world })
    fail exit_failure

  -- A file opened for writing is stretched to `size` bytes.
  stretch_file : ℕ → ℕ → M (Sys os) (Unit {0})
  unfolding close_and_exit
  stretch_file fd size = do
    moved ← call os (os.seek fd (size - 1))
    when (not moved) (close_and_exit fd)
    wrote ← call os (os.write_zero fd)
    when (not wrote) (close_and_exit fd)

  map_buffer : ℕ → ℕ → Bool → M (Sys os) ℕ
  unfolding close_and_exit
  map_buffer fd size is_writing s =
      let (buffer, w, m) = os.map_file size is_writing fd s.world s.mem in
      elim buffer [
        | none ↦ close_and_exit fd (record s { world = w; mem = m })
        | some b ↦ ok (b, record s { world = w; mem = m })
      ]

  -- `madvise (...) != 0 && mlock (...) != 0`: the second call is made if the first one failed.
  unfoldable pub advise_or_lock : ℕ → ℕ → M (Sys os) Bool
  advise_or_lock buffer size = do
    advised ← call os (os.advise_random buffer size)
    if advised then pure true else call os (os.lock_memory buffer size)

  prepare_memory : ℕ → ℕ → ℕ → M (Sys os) (Unit {0})
  unfolding close_and_exit
  prepare_memory fd buffer size = do
    done ← advise_or_lock buffer size
    when (not done) (call os (os.unmap buffer size) >>= λ _. close_and_exit fd)

  map_open_file : ℕ → ℕ → Bool → Bool → M (Sys os) (Option ℕ)
  unfolding stretch_file map_buffer prepare_memory
  map_open_file fd size is_writing quick_mode = do
    when is_writing (stretch_file fd size)
    buffer ← map_buffer fd size is_writing
    when (not quick_mode) (prepare_memory fd buffer size)
    modify (λ s. record s { world = os.close_file fd s.world })
    pure (some buffer)

  unfoldable pub load_page_buffer : Text → ℕ → Bool → Bool → M (Sys os) (Option ℕ)
  unfolding map_open_file
  load_page_buffer path size is_writing quick_mode = do
    opened ← call os (os.open_file path is_writing)
    elim opened [
      | none ↦ if is_writing then fail exit_failure else pure none
      | some fd ↦ map_open_file fd size is_writing quick_mode
    ]

  unfoldable pub release_page_buffer : ℕ → ℕ → Bool → M (Sys os) (Unit {0})
  release_page_buffer buffer size quick_mode = do
    unlocked ← if quick_mode then pure true else call os (os.unlock_memory buffer size)
    when (not unlocked) (fail exit_failure)
    unmapped ← call os (os.unmap buffer size)
    when (not unmapped) (fail exit_failure)

  unfoldable pub file_exists : Text → M (Sys os) Bool
  file_exists path = do
    opened ← call os (os.open_file path false)
    elim opened [
      | none ↦ pure false
      | some fd ↦ do modify (λ s. record s { world = os.close_file fd s.world }); pure true
    ]
