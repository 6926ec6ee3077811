-- ===== src/Paged/Engine/Threads/Answer.antt =====
-- The answer of paged/PageEngine.cpp's comm thread in two stores, and what the other operations leave.
use option_hedge.Base.{
  ℕ, ◌≡◌, ◌≢◌, ◌<◌, inl, inr, sym, ap, ◌∙◌, arith, Bool, Bool-cases, Option-cases, true, Option,
  ◌==◌,
}
use mathlib.Core.Path.{fun_ext}
use option_hedge.Base.Text.{Text}
use option_hedge.Os.{Os, ok, ◌>>◌, Result-cases}
use option_hedge.Paged.Msg.{
  PageCommMsg, CommTable, CommStatus, comm_status_code, requesting, set_msg, is_status,
  max_comm_user_number,
}
use option_hedge.Paged.Engine.{
  SystemWriter, Engine, reg_journal, reg_client, take_index, link_journal, find_raw,
}
use option_hedge.Paged.Engine.Files.{initiate_page}
use option_hedge.Paged.Engine.Requests.{give_up_old, serve}
use option_hedge.Paged.Engine.Slots.{IsRaw, find_raw_below}
use option_hedge.Paged.Engine.Clients.{reg_client-comm}
use option_hedge.Paged.Engine.Threads.{note_last, answer_request}

pub note_last-set_msg :
    (idx : ℕ) (msg : PageCommMsg) (t : CommTable)
    → (x : ℕ)
    → note_last idx (set_msg idx msg t) x
      ≡ set_msg idx (record msg { last_page_num = msg.page_num }) t x
unfolding note_last set_msg
note_last-set_msg idx msg t x = ground arith

pub note_last-set_msg_ne :
    (i idx : ℕ) (msg : PageCommMsg) (t : CommTable)
    → i ≢ idx
    → (x : ℕ) → note_last i (set_msg idx msg t) x ≡ set_msg idx msg (note_last i t) x
unfolding note_last set_msg
note_last-set_msg_ne i idx msg t ne x = ground (arith, ne)

pub note_last-status : (i idx : ℕ) (t : CommTable) → (note_last i t idx).status ≡ (t idx).status
unfolding note_last set_msg
note_last-status i idx t = elim (Bool-cases (idx == i)) [
  | inl same ↦ let at_i : idx ≡ i = ground (arith, same) in rw (same, at_i)
  | inr apart ↦ rw apart
]

pub requesting_of : (st : CommStatus) → is_status st requesting ≡ true → st ≡ requesting
unfolding comm_status_code
requesting_of st h = ground (arith, h)

-- The socket thread's operations leave the messages that wait for an answer.
unfoldable pub Waits : CommTable → CommTable → Type 0
Waits t t' = (i : ℕ) → (t i).status ≡ requesting → (t' i).status ≡ requesting

pub set_msg-Waits :
    (idx : ℕ) (msg : PageCommMsg) (t : CommTable)
    → (t idx).status ≢ requesting
    → Waits t (set_msg idx msg t)
unfolding Waits set_msg
set_msg-Waits idx msg t quiet i asked =
    let apart : i ≢ idx = λ same. absurd (quiet (ap (λ x. (t x).status) (sym same) ∙ asked)) in
    ground (arith, apart, asked)

module _ (os : Os) (system : SystemWriter os) where
  pub serve-answer_request :
      (idx : ℕ) (e f : Engine os system)
      → (e.comm idx).status ≡ requesting
      → answer_request os system idx e ≡ ok (tt, f)
      → serve os system idx e ≡ ok (tt, record f { comm = note_last idx f.comm })
  unfolding answer_request serve
  serve-answer_request idx e f asked answered =
      elim (Result-cases
        ((give_up_old os system (e.comm idx) >> initiate_page os system (e.comm idx)) e)) [
          | inl (x, failed) ↦ ground (arith, answered, failed)
          | inr ((status, g), ok_at) ↦
              let msg = record (e.comm idx) { status = status } in
              let after : f ≡ record g { comm = set_msg idx msg g.comm } =
                ground (arith, answered, ok_at) in
              let noted = fun_ext (note_last-set_msg idx msg g.comm) in
              let served : serve os system idx e
                  ≡ ok (
                    tt,
                    record g {
                      comm = set_msg idx (record msg { last_page_num = msg.page_num }) g.comm;
                    },
                  ) =
                ground (arith, asked, ok_at) in
              rw (after, noted) served
        ]

  pub reg_client-Waits :
      (name : Text) (pid : ℕ) (is_writer : Bool) (r : Option (Text × ℕ)) (e f : Engine os system)
      → reg_client os system name pid is_writer e ≡ ok (r, f)
      → Waits e.comm f.comm
  unfolding Waits
  reg_client-Waits name pid is_writer r e f h i asked =
      rw (reg_client-comm os system name pid is_writer r e f h) asked

  pub reg_journal-Waits :
      (name : Text) (k : ℕ) (e : Engine os system)
      → k < max_comm_user_number
      → IsRaw e.comm k
      → Waits e.comm (reg_journal os system name e).1.comm
  unfolding Waits reg_journal take_index link_journal set_msg
  reg_journal-Waits name k e small is_raw i asked =
      let idx = find_raw max_comm_user_number 0 e.comm in
      let (below, free) = find_raw_below max_comm_user_number e.comm k small is_raw in
      let other : i ≢ idx = λ same. absurd (cc (asked, ap (λ x. (e.comm x).status) same, free)) in
      elim (Option-cases (e.client_journals name)) [
        | inl unknown ↦ ground (arith, unknown, other, below, asked)
        | inr (info, known) ↦ ground (arith, known, other, below, asked)
      ]
