-- ===== src/Tools/Rounds.antt =====
-- The loop of tools/main.cpp: what it leaves in the journal.
use option_hedge.Base.{
  ℕ, zero, suc, ◌+◌, ◌-◌, ◌*◌, ◌/◌, ◌%◌, ◌^◌, ◌<◌, ◌≤◌, ◌≡◌, refl, ap, ◌∙◌, arith, List, [], ◌∷◌,
  ◌++◌, length, length-append, drop, All, true, false, some, none, Bool, Bool-cases, inl, inr, ◌==◌,
}
use option_hedge.Base.Text.{Text}
use option_hedge.Base.Memory.{IsOutside}
use option_hedge.Base.Word.{minus_one_int}
use option_hedge.Constants.{
  journal_page_size, page_min_headroom, subscribe_market_data, msg_type_code,
}
use option_hedge.Os.{Os, Sys, ok, Result-cases}
use option_hedge.Journal.PageUtil.{digits}
use option_hedge.Journal.Page.{Page}
use option_hedge.Journal.Cursor.{Journal}
use option_hedge.Journal.Writer.{FrameArgs, Writer, write_frame, write_frame_full}
use option_hedge.Journal.Writer.Run.{
  frames_length, entries_of, IsPlaced, write_all, write_all-appends,
}
use option_hedge.Journal.Log.{Entry}
use option_hedge.Journal.Log.Append.{IsArgs, entry_of}
use option_hedge.Tools.{
  TestData, content_length, test_text, strcpy, set_round, int_bytes, data_bytes, write_round,
  write_rounds,
}

length-digits : (fuel n : ℕ) (rest : Text) → length (digits fuel n rest) ≤ fuel + length rest
unfolding digits
length-digits zero n rest = omega arith
length-digits (suc fuel) n rest =
    let more = length-digits fuel (n / 10) ((b'0' + n % 10) ∷ rest) in
    elim (Bool-cases (n / 10 == 0)) [
      | inl last ↦ rw last (omega arith)
      | inr longer ↦ rw longer (omega (arith, more))
    ]

length-test_text : (i : ℕ) → length (test_text i) ≤ 31
unfolding test_text
length-test_text i = omega (arith, length-digits 10 i [])

length-drop : (n : ℕ) (xs : List ℕ) → length (drop n xs) ≡ length xs - n
length-drop zero xs = omega arith
length-drop (suc n) [] = omega arith
length-drop (suc n) (x ∷ xs) = omega (arith, length-drop n xs)

length-set_round :
    (i : ℕ) (td : TestData)
    → length td.content ≡ content_length
    → length (set_round i td).content ≡ content_length
unfolding set_round strcpy
length-set_round i td h = omega (
  arith,
  length-append (test_text i) (0 ∷ drop (length (test_text i) + 1) td.content),
  length-drop (length (test_text i) + 1) td.content,
  length-test_text i,
  h,
)

-- The calls of `write_frame` in the rounds.
abbrev round_args : TestData → FrameArgs
round_args td = record {
  bytes = data_bytes td;
  source_arg = 1;
  msg_type_arg = 51;
  last_flag_arg = 0;
  request_id = minus_one_int;
  extra_nano_arg = 0;
  error_id = 0;
  error_msg = none;
}

abbrev rounds_args : ℕ → ℕ → TestData → List FrameArgs
rounds_args zero i td = []
rounds_args (suc rounds) i td =
    round_args (set_round i td) ∷ rounds_args rounds (i + 1) (set_round i td)

length-data_bytes :
    (i : ℕ) (td : TestData)
    → length td.content ≡ content_length
    → length (data_bytes (set_round i td)) ≡ 260
unfolding data_bytes
length-data_bytes i td h = omega (
  arith,
  length-append (int_bytes (set_round i td).id) (set_round i td).content,
  length-set_round i td h,
)

rounds_args-IsArgs :
    (rounds i : ℕ) (td : TestData)
    → length td.content ≡ content_length
    → All IsArgs (rounds_args rounds i td)
rounds_args-IsArgs zero i td h = tt
rounds_args-IsArgs (suc rounds) i td h = (
  record {
    source_short = omega arith;
    msg_type_short = omega arith;
    last_flag_byte = omega arith;
    request_id_int = omega arith;
    extra_nano_long = omega arith;
    error_id_int = omega arith;
    length_int = omega (arith, length-data_bytes i td h);
  },
  rounds_args-IsArgs rounds (i + 1) (set_round i td) (length-set_round i td h),
)

frames_length-rounds_args :
    (rounds i : ℕ) (td : TestData)
    → length td.content ≡ content_length
    → frames_length (rounds_args rounds i td) ≡ 298 * rounds
frames_length-rounds_args zero i td h = omega arith
frames_length-rounds_args (suc rounds) i td h = omega (
  arith,
  length-data_bytes i td h,
  frames_length-rounds_args rounds (i + 1) (set_round i td) (length-set_round i td h),
)

length-rounds_args : (rounds i : ℕ) (td : TestData) → length (rounds_args rounds i td) ≡ rounds
length-rounds_args zero i td = omega arith
length-rounds_args (suc rounds) i td =
    omega (arith, length-rounds_args rounds (i + 1) (set_round i td))

-- The frame of round `i`: the number, and the text that names it, with its NUL.
pub record IsRound (i : ℕ) (e : Entry) : Type 0 where
  pub has_source : e.source_of ≡ 1
  pub has_msg_type : e.msg_type_of ≡ msg_type_code subscribe_market_data
  pub has_request : e.request_id_of ≡ minus_one_int
  pub no_error : e.error_id_of ≡ 0
  pub residue : List ℕ
  pub has_bytes : e.bytes_of ≡ int_bytes i ++ test_text i ++ 0 ∷ residue
  pub has_length : length e.bytes_of ≡ 260

abbrev pub IsNumbered : ℕ → List Entry → Type 0
IsNumbered i [] = Unit
IsNumbered i (e ∷ es) = IsRound i e × IsNumbered (i + 1) es

entry_of-IsRound :
    (i : ℕ) (td : TestData) (time : ℕ)
    → length td.content ≡ content_length
    → IsRound i (entry_of (round_args (set_round i td)) time)
unfolding msg_type_code
entry_of-IsRound i td time h = record {
  has_source = refl;
  has_msg_type = refl;
  has_request = refl;
  no_error = refl;
  residue = drop (length (test_text i) + 1) td.content;
  has_bytes = unfold data_bytes set_round strcpy in refl;
  has_length = length-data_bytes i td h;
}

entries_of-IsNumbered :
    (rounds i : ℕ) (td : TestData) (ts : List ℕ)
    → length td.content ≡ content_length
    → length ts ≡ rounds
    → IsNumbered i (entries_of (rounds_args rounds i td) ts)
      × (length (entries_of (rounds_args rounds i td) ts) ≡ rounds)
entries_of-IsNumbered zero i td ts h n = (tt, omega arith)
entries_of-IsNumbered (suc rounds) i td [] h n = absurd (omega arith)
entries_of-IsNumbered (suc rounds) i td (t ∷ ts) h n =
    let (rest, count) =
      entries_of-IsNumbered rounds (i + 1) (set_round i td) ts (length-set_round i td h)
        (omega arith) in
    ((entry_of-IsRound i td t h, rest), omega (arith, count))

module _ (os : Os) (matches : Text → Text → Bool) (pages fuel : ℕ) where
  write_rounds-write_all :
      (rounds i : ℕ) (td : TestData) (w u : Writer os) (ts : List ℕ) (s s' : Sys os)
      → write_all os matches pages fuel (rounds_args rounds i td) w s ≡ ok ((u, ts), s')
      → write_rounds os matches pages fuel rounds i td w s ≡ ok (u, s')
  unfolding write_all write_rounds write_round write_frame msg_type_code
  write_rounds-write_all zero i td w u ts s s' ran = ground arith
  write_rounds-write_all (suc rounds) i td w u ts s s' ran =
      elim (Result-cases
        (write_frame_full os matches pages fuel (round_args (set_round i td)) w s)) [
          | inl (x, failed) ↦ ground (arith, failed)
          | inr (((v, t), s1), wrote) ↦
              elim (Result-cases (
                write_all os matches pages fuel (rounds_args rounds (i + 1) (set_round i td)) v
                  s1)) [
                    | inl (x, failed) ↦ ground (arith, wrote, failed)
                    | inr (((u', ts'), s2), rest) ↦
                        let later =
                          write_rounds-write_all rounds (i + 1) (set_round i td) v u' ts' s1 s2
                            rest in
                        ground (arith, wrote, rest, later)
                  ]
        ]

-- The rounds for which the writer's page has room append one frame each, in the order of their numbers:
-- the frame of round `i` is 260 bytes long and holds `i` and the text that names it, with its NUL. All
-- rounds return, no byte outside the page changes, and the log that was there is kept.
pub write_rounds-IsNumbered :
    (os : Os) (matches : Text → Text → Bool) (pages fuel rounds i : ℕ) (td : TestData)
    (w : Writer os) (j : Journal) (p : Page) (s : Sys os) (start : ℕ) (es : List Entry)
    → w.journal ≡ some j
    → j.expired ≡ false
    → j.is_writing ≡ true
    → j.cur_page ≡ some p
    → IsPlaced p s.mem start es
    → length td.content ≡ content_length
    → p.position + 298 * rounds + page_min_headroom < journal_page_size
    → p.buffer + 2 ^ 33 < 2 ^ 64
    → (s' : Sys os) × (q : Page) × (added : List Entry) × (write_rounds os matches
          (suc pages)
          (suc fuel)
          rounds
          i
          td
          w
          s
        ≡ ok (record w { journal = some (record j { cur_page = some q }) }, s'))
      × IsPlaced q s'.mem start (es ++ added)
      × (length added ≡ rounds)
      × IsNumbered i added
      × (q.position ≡ p.position + 298 * rounds)
      × ((x : ℕ) → IsOutside x p.buffer journal_page_size → s'.mem x ≡ s.mem x)
write_rounds-IsNumbered os matches pages fuel rounds i td w j p s start es hj live writing at_p
      placed h room fits =
    let total = frames_length-rounds_args rounds i td h in
    let (ts, s', k, q, ran, at_k, count, placed', position, outside, texts, before) =
      write_all-appends os matches pages fuel (rounds_args rounds i td) w j p s start es hj live
        writing at_p placed (rounds_args-IsArgs rounds i td h) (omega (arith, total)) fits in
    let (numbered, number) =
      entries_of-IsNumbered rounds i td ts h
        (omega (arith, count, length-rounds_args rounds i td)) in
    (
      s',
      q,
      entries_of (rounds_args rounds i td) ts,
      write_rounds-write_all os matches (suc pages) (suc fuel) rounds i td w
            (record w { journal = some k }) ts s s' ran
          ∙ ap (λ l. ok (record w { journal = some l }, s')) at_k,
      placed',
      number,
      numbered,
      omega (arith, total),
      outside,
    )
