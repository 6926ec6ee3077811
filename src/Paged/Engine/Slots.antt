-- ===== src/Paged/Engine/Slots.antt =====
-- `reg_journal` of paged/PageEngine.cpp: the search for a free index, and what the call changes.
use option_hedge.Base.{
  ℕ, zero, suc, ◌+◌, ◌<◌, ◌≤◌, ◌≡◌, ◌≢◌, inl, inr, arith, true, none, some, [], ◌∷◌, ◌++◌,
  Bool-cases, subst, ◌==◌,
}
use option_hedge.Base.Text.{Text, text_eq_iff}
use option_hedge.Base.Word.{to_int, minus_one_int}
use option_hedge.Base.Map.{insert, text_key}
use native.Mathlib.Decide.{dec_le}
use option_hedge.Os.{Os}
use option_hedge.Paged.Msg.{
  CommStatus, raw, occupied, comm_status_code, is_status, CommTable, set_msg, max_comm_user_number,
}
use option_hedge.Paged.Engine.{
  PageClientInfo, SystemWriter, Engine, find_raw, take_index, reg_journal,
}

abbrev pub IsRaw : CommTable → ℕ → Type 0
IsRaw t i = (t i).status ≡ raw

is_status-raw :
    (s : CommStatus) → (is_status s raw ≡ true → s ≡ raw) × (s ≡ raw → is_status s raw ≡ true)
unfolding comm_status_code
is_status-raw s = (λ h. ground arith, λ h. ground arith)

-- The search ends at the first raw message, or behind all that it may look at.
pub find_raw_lem :
    (rounds idx : ℕ) (t : CommTable)
    → (idx ≤ find_raw rounds idx t)
      × (find_raw rounds idx t ≤ idx + rounds)
      × ((i : ℕ) → idx ≤ i → i < find_raw rounds idx t → ¬ IsRaw t i)
      × (find_raw rounds idx t < idx + rounds → IsRaw t (find_raw rounds idx t))
unfolding find_raw
find_raw_lem zero idx t =
    (omega arith, omega arith, λ i l u. absurd (omega arith), λ h. absurd (omega arith))
find_raw_lem (suc rounds) idx t = elim (Bool-cases (is_status (t idx).status raw)) [
  | inl here ↦ rw here (
    omega arith,
    omega arith,
    λ i l u. absurd (omega arith),
    λ h. (is_status-raw (t idx).status).0 here,
  )
  | inr not_here ↦
      let (lo, hi, before, found) = find_raw_lem rounds (idx + 1) t in
      rw not_here (
        omega arith,
        omega arith,
        λ i l u r. elim (Bool-cases (i == idx)) [
          | inl e ↦
              let same : i ≡ idx = ground arith in
              cc (not_here, (is_status-raw (t idx).status).1 (subst (IsRaw t) same r))
          | inr n ↦ before i (ground arith) u r
        ],
        λ h. found (omega arith),
      )
]

-- With a raw message below the limit the search finds one, and no smaller index is raw.
pub find_raw_below :
    (n : ℕ) (t : CommTable) (k : ℕ)
    → k < n
    → IsRaw t k
    → (find_raw n 0 t ≤ k) × (IsRaw t (find_raw n 0 t))
find_raw_below n t k h r =
    let (lo, hi, before, found) = find_raw_lem n 0 t in
    let small : find_raw n 0 t ≤ k = elim (dec_le (find_raw n 0 t) k) [
      | yes p ↦ p
      | no q ↦ absurd (before k (omega arith) (omega arith) r)
    ] in
    (small, found (omega arith))

module _ (os : Os) (system : SystemWriter os) (e : Engine os system) (name : Text) where
  -- What the call computes to for a registered client.
  reg_journal-known :
      (info : PageClientInfo)
      → e.client_journals name ≡ some info
      → let idx = find_raw max_comm_user_number 0 e.comm in
        reg_journal os system name e ≡ (
          idx,
          record (take_index os system idx e) {
            client_journals =
                insert name
                  (record info { user_index_vec = info.user_index_vec ++ idx ∷ [] })
                  e.client_journals;
          },
        )
  unfolding reg_journal
  reg_journal-known info known =
      let idx = find_raw max_comm_user_number 0 e.comm in
      let most : idx ≤ max_comm_user_number = (find_raw_lem max_comm_user_number 0 e.comm).1 in
      let at_idx : to_int idx ≡ idx = omega arith in ground (arith, at_idx, most)

  -- For a registered client, with a raw message among the first 1000, `reg_journal` answers the first
  -- raw index; it marks that message occupied with no last page, leaves every other message, and
  -- appends the index to that client's list and to no other's. The comm thread's range covers it.
  pub reg_journal-free :
      (info : PageClientInfo) (k : ℕ)
      → e.client_journals name ≡ some info
      → k < max_comm_user_number
      → IsRaw e.comm k
      → let (idx, f) = reg_journal os system name e in
        (idx ≤ k)
        × IsRaw e.comm idx
        × ((i : ℕ) → i < idx → ¬ IsRaw e.comm i)
        × ((f.comm idx).status ≡ occupied)
        × ((f.comm idx).last_page_num ≡ 0)
        × ((i : ℕ) → i ≢ idx → f.comm i ≡ e.comm i)
        × (f.client_journals name
            ≡ some (record info { user_index_vec = info.user_index_vec ++ idx ∷ [] }))
        × ((other : Text) → other ≢ name → f.client_journals other ≡ e.client_journals other)
        × (idx ≤ f.max_idx)
  unfolding take_index set_msg
  reg_journal-free info k known h r =
      let (small, is_raw) = find_raw_below max_comm_user_number e.comm k h r in
      let (lo, hi, before, found) = find_raw_lem max_comm_user_number 0 e.comm in
      rw (reg_journal-known info known) (
        small,
        is_raw,
        λ i u. before i (omega arith) u,
        ground arith,
        ground arith,
        λ i n. ground arith,
        ground (arith, text_eq_iff name name),
        λ other n. ground (arith, text_eq_iff other name),
        ground arith,
      )

  -- When the first 1000 messages are all in use, a registered client is not refused: it is given the
  -- index 1000, whatever state the message there is in and whoever holds it.
  pub reg_journal-full :
      (info : PageClientInfo)
      → e.client_journals name ≡ some info
      → ((i : ℕ) → i < max_comm_user_number → ¬ IsRaw e.comm i)
      → let (idx, f) = reg_journal os system name e in
        (idx ≡ max_comm_user_number)
        × ((f.comm max_comm_user_number).status ≡ occupied)
        × (f.client_journals name
            ≡ some
                (record info { user_index_vec = info.user_index_vec ++ max_comm_user_number ∷ [] }))
  unfolding take_index set_msg
  reg_journal-full info known full =
      let (lo, hi, before, found) = find_raw_lem max_comm_user_number 0 e.comm in
      let last : find_raw max_comm_user_number 0 e.comm ≡ max_comm_user_number =
        elim (dec_le max_comm_user_number (find_raw max_comm_user_number 0 e.comm)) [
          | yes p ↦ omega arith
          | no q ↦ absurd (full _ (omega arith) (found (omega arith)))
        ] in
      rw (reg_journal-known info known)
        (last, rw last (ground arith), rw last (ground (arith, text_eq_iff name name)))

  -- For a client that is not registered the answer is -1, and yet the first raw message among the
  -- first 1000 is marked occupied. The clients and their lists stay as they were.
  pub reg_journal-unknown :
      (k : ℕ)
      → e.client_journals name ≡ none
      → k < max_comm_user_number
      → IsRaw e.comm k
      → let (idx, f) = reg_journal os system name e in
        let lost = find_raw max_comm_user_number 0 e.comm in
        (idx ≡ minus_one_int)
        × IsRaw e.comm lost
        × ((f.comm lost).status ≡ occupied)
        × (f.client_journals ≡ e.client_journals)
  unfolding reg_journal set_msg
  reg_journal-unknown k unknown h r =
      let (small, is_raw) = find_raw_below max_comm_user_number e.comm k h r in
      (ground arith, is_raw, ground arith, ground arith)
