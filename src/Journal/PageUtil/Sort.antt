-- ===== src/Journal/PageUtil/Sort.antt =====
-- The sort of page numbers in journal/PageUtil.cpp: shorts in their signed order.
use option_hedge.Base.{ℕ, ◌≡◌, inl, inr, arith, false, Bool-cases, List, [], ◌∷◌, All, All-map}
use mathlib.Core.List.{Perm}
use mathlib.Core.List.Perm
use option_hedge.Base.Word.{short_lt}
use option_hedge.Journal.PageUtil.{insert_short, sort_shorts}

-- No later entry is less than an earlier one.
abbrev pub IsSorted : List ℕ → Type 0
IsSorted [] = Unit
IsSorted (x ∷ xs) = All (λ y. short_lt y x ≡ false) xs × IsSorted xs

insert_short-perm : (x : ℕ) (xs : List ℕ) → Perm (insert_short x xs) (x ∷ xs)
unfolding insert_short
insert_short-perm x [] = Perm.rfl
insert_short-perm x (y ∷ ys) = elim (Bool-cases (short_lt y x)) [
  | inl less ↦ rw less (Perm.trans (Perm.cons y (insert_short-perm x ys)) (Perm.swap x y ys))
  | inr more ↦ rw more Perm.rfl
]

pub sort_shorts-perm : (xs : List ℕ) → Perm (sort_shorts xs) xs
unfolding sort_shorts
sort_shorts-perm [] = Perm.rfl
sort_shorts-perm (x ∷ xs) =
    Perm.trans (insert_short-perm x (sort_shorts xs)) (Perm.cons x (sort_shorts-perm xs))

All-insert_short :
    (P : ℕ → Type 0) (x : ℕ) (xs : List ℕ) → P x → All P xs → All P (insert_short x xs)
unfolding insert_short
All-insert_short P x [] p h = (p, tt)
All-insert_short P x (y ∷ ys) p (q, qs) = elim (Bool-cases (short_lt y x)) [
  | inl less ↦ rw less (q, All-insert_short P x ys p qs)
  | inr more ↦ rw more (p, (q, qs))
]

insert_short-All :
    (P : ℕ → Type 0) (x : ℕ) (xs : List ℕ) → All P (insert_short x xs) → P x × All P xs
unfolding insert_short
insert_short-All P x [] h = h
insert_short-All P x (y ∷ ys) h = elim (Bool-cases (short_lt y x)) [
  | inl less ↦
      let h' : All P (y ∷ insert_short x ys) = rw less at h in
      let (p, qs) = insert_short-All P x ys h'.1 in (p, (h'.0, qs))
  | inr more ↦ let h' : All P (x ∷ y ∷ ys) = rw more at h in h'
]

insert_short-IsSorted : (x : ℕ) (xs : List ℕ) → IsSorted xs → IsSorted (insert_short x xs)
unfolding insert_short
insert_short-IsSorted x [] h = (tt, tt)
insert_short-IsSorted x (y ∷ ys) (below, h) = elim (Bool-cases (short_lt y x)) [
  | inl less ↦ rw less (
    All-insert_short (λ z. short_lt z y ≡ false) x ys (ground arith) below,
    insert_short-IsSorted x ys h,
  )
  | inr more ↦ rw more (
    (
      more,
      All-map (λ z. short_lt z y ≡ false) (λ z. short_lt z x ≡ false) ys (λ z le. ground arith)
          below,
    ),
    (below, h),
  )
]

pub sort_shorts-IsSorted : (xs : List ℕ) → IsSorted (sort_shorts xs)
unfolding sort_shorts
sort_shorts-IsSorted [] = tt
sort_shorts-IsSorted (x ∷ xs) = insert_short-IsSorted x (sort_shorts xs) (sort_shorts-IsSorted xs)

pub All-sort_shorts : (P : ℕ → Type 0) (xs : List ℕ) → All P xs → All P (sort_shorts xs)
unfolding sort_shorts
All-sort_shorts P [] h = tt
All-sort_shorts P (x ∷ xs) (p, h) = All-insert_short P x (sort_shorts xs) p (All-sort_shorts P xs h)

pub sort_shorts-All : (P : ℕ → Type 0) (xs : List ℕ) → All P (sort_shorts xs) → All P xs
unfolding sort_shorts
sort_shorts-All P [] h = tt
sort_shorts-All P (x ∷ xs) h =
    let (p, rest) = insert_short-All P x (sort_shorts xs) h in (p, sort_shorts-All P xs rest)
