-- ===== src/Paged/Engine/Loop.antt =====
-- The loop of the comm thread of paged/PageEngine.cpp over the table.
use option_hedge.Base.{
  ℕ, zero, suc, ◌+◌, ◌-◌, ◌%◌, ◌<◌, ◌≤◌, ◌≡◌, ◌≢◌, sym, ap, subst, arith, true, Bool-cases, ◌==◌,
  inl, inr, ◌∙◌,
}
use native.Mathlib.Nat.{mod-add-mod, mod-eq_of_lt, add-mod_right}
use native.Mathlib.Decide.{dec_le}
use option_hedge.Os.{Os, Result-cases, ok}
use option_hedge.Paged.Msg.{requesting, file_key}
use option_hedge.Paged.Engine.{SystemWriter, Engine}
use option_hedge.Paged.Engine.Requests.{serve, start_comm}
use option_hedge.Paged.Engine.Serve.{Served, serve-Served}

round_index : (idx k m : ℕ) → ((idx + 1) % m + k) % m ≡ (idx + suc k) % m
round_index idx k m = mod-add-mod (idx + 1) m k ∙ ap (λ x. x % m) (omega arith)

round_start : (idx n : ℕ) → idx ≤ n → (idx + 0) % (n + 1) ≡ idx
round_start idx n h = ap (λ x. x % (n + 1)) (omega arith) ∙ mod-eq_of_lt (omega arith)

-- Every index of the range is met within one turn.
round_meets : (i idx n : ℕ) → i ≤ n → idx ≤ n → (k : ℕ) × (k < n + 1) × ((idx + k) % (n + 1) ≡ i)
round_meets i idx n hi hx = elim (dec_le idx i) [
  | yes p ↦ (i - idx, omega arith, ap (λ x. x % (n + 1)) (omega arith) ∙ mod-eq_of_lt (omega arith))
  | no q ↦ (
    i + (n + 1) - idx,
    omega arith,
    ap (λ x. x % (n + 1)) (omega arith) ∙ add-mod_right i (n + 1) ∙ mod-eq_of_lt (omega arith),
  )
]

module _ (os : Os) (system : SystemWriter os) where
  -- Rounds of the loop that return keep the range and what is answered; the index goes round.
  record Ran (rounds idx : ℕ) (e f : Engine os system) : Type 0 where
    pub kept_done : (i : ℕ) → (e.comm i).status ≢ requesting → (f.comm i).status ≢ requesting
    pub visited : (k : ℕ) → k < rounds → (f.comm ((idx + k) % (e.max_idx + 1))).status ≢ requesting

  -- The status of the message that the loop meets after `k` rounds, when the rounds are over.
  Served-visited :
      (rounds idx : ℕ) (e g f : Engine os system)
      → idx ≤ e.max_idx
      → Served os system idx e g
      → Ran rounds ((idx + 1) % (e.max_idx + 1)) g f
      → (k : ℕ) → k < suc rounds
      → (f.comm ((idx + k) % (e.max_idx + 1))).status ≢ requesting
  Served-visited rounds idx e g f within s r zero l =
      rw (round_start idx e.max_idx within) (r.kept_done idx s.done)
  Served-visited rounds idx e g f within s r (suc k) l =
      let met = r.visited k (omega arith) in
      let met' : (f.comm (((idx + 1) % (e.max_idx + 1) + k) % (e.max_idx + 1))).status
          ≢ requesting =
        subst (λ n. (f.comm (((idx + 1) % (e.max_idx + 1) + k) % (n + 1))).status ≢ requesting)
          s.range met in
      subst (λ x. (f.comm x).status ≢ requesting) (round_index idx k (e.max_idx + 1)) met'

  Served-Ran :
      (rounds idx : ℕ) (e g f : Engine os system)
      → idx ≤ e.max_idx
      → Served os system idx e g
      → Ran rounds ((idx + 1) % (e.max_idx + 1)) g f
      → Ran (suc rounds) idx e f
  Served-Ran rounds idx e g f within s r = record {
    kept_done = λ i d. r.kept_done i (elim (Bool-cases (i == idx)) [
      | inl here ↦
          let at_i : i ≡ idx = ground arith in
          subst (λ x. (g.comm x).status ≢ requesting) (sym at_i) s.done
      | inr there ↦ λ asks. d (ground (arith, s.others i (ground arith)))
    ]);
    visited = Served-visited rounds idx e g f within s r;
  }

  start_comm-Ran :
      (rounds idx next : ℕ) (e f : Engine os system)
      → e.comm_running ≡ true
      → idx ≤ e.max_idx
      → start_comm os system rounds idx e ≡ ok (next, f)
      → Ran rounds idx e f
  unfolding start_comm
  start_comm-Ran zero idx next e f running within h =
      let same : f ≡ e = ground arith in
      rw same (record { kept_done = λ i d. d; visited = λ k l. absurd (omega arith) })
  start_comm-Ran (suc rounds) idx next e f running within h =
      elim (Result-cases (serve os system idx e)) [
        | inl (x, failed) ↦ ground arith
        | inr ((u, g), done) ↦
            let s = serve-Served os system idx e g done in
            let i : ℕ = (idx + 1) % (e.max_idx + 1) in
            Served-Ran rounds idx e g f within s (
              start_comm-Ran rounds i next g f (s.running ∙ running) (omega (arith, s.range))
                (ground (arith, s.range)))
      ]

  -- One turn of the loop answers every request in its range: as many rounds as there are messages in
  -- the range, begun at any index of it while the flag is set, leave no message there requesting,
  -- unless a round fails.
  pub start_comm-answers :
      (idx next i : ℕ) (e f : Engine os system)
      → e.comm_running ≡ true
      → idx ≤ e.max_idx
      → i ≤ e.max_idx
      → start_comm os system (e.max_idx + 1) idx e ≡ ok (next, f)
      → (f.comm i).status ≢ requesting
  start_comm-answers idx next i e f running within in_range h =
      let (k, l, meets) = round_meets i idx e.max_idx in_range within in
      subst (λ x. (f.comm x).status ≢ requesting) meets
        ((start_comm-Ran (e.max_idx + 1) idx next e f running within h).visited k l)
