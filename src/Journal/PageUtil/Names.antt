-- ===== src/Journal/PageUtil/Names.antt =====
-- The names of page files: a page number survives its way through a file name.
use option_hedge.Base.{
  ℕ, zero, suc, ◌+◌, ◌-◌, ◌*◌, ◌/◌, ◌%◌, ◌^◌, ◌<◌, ◌≤◌, ◌≡◌, inl, inr, arith, refl, Bool-cases, [],
  ◌∷◌, ◌++◌, ◌==◌, ltb, length, length-append, take, drop, ap, sym, ◌∙◌,
}
use native.Mathlib.Nat.{pow-suc}
use mathlib.Core.List.{append_assoc}
use option_hedge.Base.Text.{Text, codes}
use option_hedge.Base.Word.{to_short}
use option_hedge.Constants.{journal_prefix, journal_suffix}
use option_hedge.Os.{ok}
use option_hedge.Journal.PageUtil.{
  digits, to_string, gen_page_file_name, read_digits, atoi, substr, extract_page_num,
}

read_digits-digit :
    (acc d : ℕ) (rest : Text)
    → d < 10
    → read_digits acc ((b'0' + d) ∷ rest) ≡ read_digits (acc * 10 + d) rest
unfolding read_digits
read_digits-digit acc d rest h =
    let value : acc * 10 + (b'0' + d - b'0') ≡ acc * 10 + d = omega arith in
    ground (arith, ap (λ x. read_digits x rest) value)

-- The digits of a number read back as the number, in front of whatever follows.
read_digits-digits :
    (fuel n : ℕ) (rest : Text)
    → n < 10 ^ suc fuel
    → read_digits 0 (digits (suc fuel) n rest) ≡ read_digits n rest
unfolding digits
read_digits-digits zero n rest h =
    let one : 0 * 10 + n % 10 ≡ n = omega arith in
    let read = read_digits-digit 0 (n % 10) rest (omega arith) in
    ground (arith, read, ap (λ x. read_digits x rest) one)
read_digits-digits (suc fuel) n rest h =
    let read = read_digits-digit 0 (n % 10) rest (omega arith) in
    let next = read_digits-digit (n / 10) (n % 10) rest (omega arith) in
    let below : n / 10 < 10 ^ suc fuel =
      let power : 10 ^ suc (suc fuel) ≡ 10 ^ suc fuel * 10 = pow-suc 10 (suc fuel) in
      omega (arith, power) in
    let ih = read_digits-digits fuel (n / 10) ((b'0' + n % 10) ∷ rest) below in
    elim (Bool-cases (n / 10 == 0)) [
      | inl small ↦
          let one : 0 * 10 + n % 10 ≡ n = ground arith in
          ground (arith, read, ap (λ x. read_digits x rest) one)
      | inr large ↦
          let whole : n / 10 * 10 + n % 10 ≡ n = omega arith in
          ground (arith, ih, next, ap (λ x. read_digits x rest) whole)
    ]

-- They begin with a digit.
digits-starts :
    (fuel n : ℕ) (rest : Text)
    → (d : ℕ) × (cs : Text) × (d < 10) × (digits (suc fuel) n rest ≡ (b'0' + d) ∷ cs)
unfolding digits
digits-starts zero n rest = (n % 10, rest, omega arith, ground arith)
digits-starts (suc fuel) n rest = elim (Bool-cases (n / 10 == 0)) [
  | inl small ↦ (n % 10, rest, omega arith, ground arith)
  | inr large ↦
      let (d, cs, h, e) = digits-starts fuel (n / 10) ((b'0' + n % 10) ∷ rest) in
      (d, cs, h, ground (arith, e))
]

digits-append : (fuel n : ℕ) (xs ys : Text) → digits fuel n xs ++ ys ≡ digits fuel n (xs ++ ys)
unfolding digits
digits-append zero n xs ys = refl
digits-append (suc fuel) n xs ys =
    let ih = digits-append fuel (n / 10) ((b'0' + n % 10) ∷ xs) ys in ground (arith, ih)

read_digits-stop : (n : ℕ) (rest : Text) → read_digits n (b'.' ∷ rest) ≡ n
unfolding read_digits
read_digits-stop n rest = refl

-- The digits up to a full stop.
read_digits-number :
    (n : ℕ) (rest : Text) → n < 10 ^ 5 → read_digits 0 (digits 5 n [] ++ b'.' ∷ rest) ≡ n
read_digits-number n rest h =
    ap (read_digits 0) (digits-append 5 n [] (b'.' ∷ rest))
    ∙ read_digits-digits 4 n (b'.' ∷ rest) h
    ∙ read_digits-stop n rest

atoi-positive : (n : ℕ) (rest : Text) → n < 2 ^ 15 → atoi (digits 5 n [] ++ b'.' ∷ rest) ≡ n
unfolding atoi
atoi-positive n rest h =
    let (d, cs, small, starts) = digits-starts 4 n (b'.' ∷ rest) in
    let text : digits 5 n [] ++ b'.' ∷ rest ≡ (b'0' + d) ∷ cs =
      digits-append 5 n [] (b'.' ∷ rest) ∙ starts in
    let value : read_digits 0 ((b'0' + d) ∷ cs) ≡ n =
      ap (read_digits 0) (sym text) ∙ read_digits-number n rest (omega arith) in
    rw text (ground (arith, value))

atoi-negative :
    (n : ℕ) (rest : Text)
    → n < 2 ^ 16
    → 2 ^ 15 ≤ n
    → to_short (atoi (b'-' ∷ digits 5 (2 ^ 16 - n) [] ++ b'.' ∷ rest)) ≡ n
unfolding atoi
atoi-negative n rest h low =
    let value = read_digits-number (2 ^ 16 - n) rest (omega arith) in rw value (omega arith)

atoi-to_string :
    (n : ℕ) (rest : Text) → n < 2 ^ 16 → to_short (atoi (to_string n ++ b'.' ∷ rest)) ≡ n
unfolding to_string
atoi-to_string n rest h = elim (Bool-cases (ltb n (2 ^ 15))) [
  | inl positive ↦
      let value = atoi-positive n rest (ground arith) in rw positive (rw value (omega arith))
  | inr negative ↦ rw negative (atoi-negative n rest h (ground arith))
]

drop-append : (xs ys : Text) (k : ℕ) → drop (length xs + k) (xs ++ ys) ≡ drop k ys
drop-append [] ys k = ap (λ i. drop i ys) (omega arith)
drop-append (x ∷ xs) ys k =
    let one : suc (length xs) + k ≡ suc (length xs + k) = omega arith in
    rw one (drop-append xs ys k)

take-all : (xs : Text) (k : ℕ) → length xs ≤ k → take k xs ≡ xs
take-all [] zero h = refl
take-all [] (suc k) h = refl
take-all (x ∷ xs) zero h = absurd (omega arith)
take-all (x ∷ xs) (suc k) h = ap (λ ys. x ∷ ys) (take-all xs k (omega arith))

-- The part of a file name behind the journal's name.
abbrev ending : ℕ → Text
ending n = to_string n ++ b'.' ∷ journal_suffix

gen_page_file_name-shape :
    (jname : Text) (n : ℕ)
    → gen_page_file_name jname n ≡ journal_prefix ++ codes "." ++ (jname ++ b'.' ∷ ending n)
unfolding gen_page_file_name
gen_page_file_name-shape jname n =
    ap (λ x. journal_prefix ++ codes "." ++ x)
      (append_assoc (jname ++ codes "." ++ to_string n) (codes ".") journal_suffix
        ∙ append_assoc (jname ++ codes ".") (to_string n) (b'.' ∷ journal_suffix)
        ∙ append_assoc jname (codes ".") (ending n))

length-gen_page_file_name :
    (jname : Text) (n : ℕ)
    → length (gen_page_file_name jname n) ≡ 13 + length jname + length (ending n)
length-gen_page_file_name jname n =
    let l = length-append jname (b'.' ∷ ending n) in
    ap length (gen_page_file_name-shape jname n) ∙ omega (arith, l)

drop-gen_page_file_name :
    (jname : Text) (n : ℕ)
    → drop (length (journal_prefix ++ codes ".") + (length jname + 1)) (gen_page_file_name jname n)
      ≡ ending n
drop-gen_page_file_name jname n =
    ap (drop (length (journal_prefix ++ codes ".") + (length jname + 1)))
      (gen_page_file_name-shape jname n)
    ∙ drop-append (journal_prefix ++ codes ".") (jname ++ b'.' ∷ ending n) (length jname + 1)
    ∙ drop-append jname (b'.' ∷ ending n) 1

-- A page's number is read back out of its file name, whatever the journal's name is, for positive and
-- for negative numbers.
pub extract_page_num-gen_page_file_name :
    (jname : Text) (n : ℕ) → n < 2 ^ 16 → extract_page_num (gen_page_file_name jname n) jname ≡ ok n
unfolding extract_page_num substr
extract_page_num-gen_page_file_name jname n h =
    let name = gen_page_file_name jname n in
    let size = length-gen_page_file_name jname n in
    let at : length journal_prefix + length jname + 2
        ≡ length (journal_prefix ++ codes ".") + (length jname + 1) =
      omega arith in
    let dropped : drop (length journal_prefix + length jname + 2) name ≡ ending n =
      ap (λ i. drop i name) at ∙ drop-gen_page_file_name jname n in
    let taken = take-all (ending n) (length name - length journal_suffix) (omega (arith, size)) in
    let value = atoi-to_string n journal_suffix h in ground (arith, size, dropped, taken, value)
