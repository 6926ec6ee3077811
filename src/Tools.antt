-- ===== src/Tools.antt =====
-- tools/main.cpp: the program that fills a testing journal with numbered frames.
pub mod Rounds
use option_hedge.Base.{
  ℕ, zero, suc, ◌+◌, ◌/◌, ◌%◌, ◌^◌, Bool, Option, List, [], ◌∷◌, ◌++◌, length, drop,
}
use option_hedge.Base.Text.{Text, codes}
use option_hedge.Base.Memory.{Mem, store, bytes_at}
use option_hedge.Base.Word.{minus_one_int}
use option_hedge.Constants.{subscribe_market_data, msg_type_code}
use option_hedge.Os.{Os, Sys, M, ok, ◌>>=◌, pure}
use option_hedge.Journal.PageUtil.{digits}
use option_hedge.Journal.Provider.{PageProvider}
use option_hedge.Journal.Writer.{Writer, write_frame, create_named}

-- `content` is a `char [256]`.
pub record TestData : Type 0 where
  pub id : ℕ
  pub content : List ℕ

abbrev pub content_length : ℕ
content_length = 256

unfoldable pub zeros_of_length : ℕ → List ℕ
zeros_of_length zero = []
zeros_of_length (suc n) = 0 ∷ zeros_of_length n

-- `new TestData ()`
unfoldable pub new_test_data : TestData
unfolding zeros_of_length
new_test_data = record { id = 0; content = zeros_of_length content_length }

-- The text that the stream holds: an int that is not negative is printed in decimal.
unfoldable pub test_text : ℕ → Text
test_text i = codes "testing data num is: " ++ digits 10 i []

-- The text with its NUL, over what the array held.
unfoldable pub strcpy : List ℕ → Text → List ℕ
strcpy content text = text ++ 0 ∷ drop (length text + 1) content

unfoldable pub set_round : ℕ → TestData → TestData
set_round i td = record td { id = i; content = strcpy td.content (test_text i) }

-- The bytes of an int, the lowest first.
abbrev pub int_bytes : ℕ → List ℕ
int_bytes n = n % 256 ∷ n / 256 % 256 ∷ n / 65536 % 256 ∷ n / 16777216 % 256 ∷ []

-- The sizeof (TestData) bytes at `td`.
unfoldable pub data_bytes : TestData → List ℕ
data_bytes td = int_bytes td.id ++ td.content

module _ (os : Os) (matches : Text → Text → Bool) (pages fuel : ℕ) where
  write_round : TestData → Writer os → M (Sys os) (Writer os × ℕ)
  write_round td =
      write_frame os matches pages fuel (data_bytes td) 1 (msg_type_code subscribe_market_data) 0
        minus_one_int

  -- The loop, with the rounds that are left, from the round `i` on.
  unfoldable pub write_rounds : ℕ → ℕ → TestData → Writer os → M (Sys os) (Writer os)
  unfolding write_round
  write_rounds zero i td w = pure w
  write_rounds (suc rounds) i td w = do
    (v, time) ← write_round (set_round i td) w
    write_rounds rounds (i + 1) (set_round i td) v

  unfoldable pub main : Option (Text → Bool → M (Sys os) (PageProvider os)) → M (Sys os) (Writer os)
  unfolding write_rounds
  main service = do
    w ←
        create_named os matches pages fuel service (codes "/var/tmp") (codes "testingJournal")
          (codes "testingClient1")
    write_rounds 520000 0 new_test_data w
