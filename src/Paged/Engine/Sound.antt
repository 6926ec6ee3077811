-- ===== src/Paged/Engine/Sound.antt =====
-- The clients' lists of messages, which the operations of paged/PageEngine.cpp keep sound: every message
-- on a list is in use, and is on one list only.
use option_hedge.Base.{
  ℕ, ◌≡◌, ◌≢◌, ◌⊎◌, ◌<◌, inl, inr, arith, some, none, [], ◌∷◌, ◌++◌, All, In, All-In, All-of_In,
  In-append, Bool, Bool-cases, Option-cases, ap, sym, ◌∙◌, subst, Option, refl,
}
use option_hedge.Base.Text.{Text, text_eq, text_eq_iff}
use option_hedge.Base.Map.{insert, erase, text_key}
use option_hedge.Os.{Os, Sys, ok}
use option_hedge.Paged.Msg.{PageCommMsg, raw, set_msg, max_comm_user_number}
use option_hedge.Paged.Engine.{
  PageClientInfo, SystemWriter, Engine, new_engine, reg_journal, take_index, link_journal,
  reg_client,
}
use option_hedge.Paged.Engine.Clients.{reg_client-new, reg_client-known}
use option_hedge.Paged.Engine.Slots.{IsRaw, reg_journal-free}
use option_hedge.Paged.Engine.Requests.{serve, exit_client}
use option_hedge.Paged.Engine.Serve.{serve-Served}
use option_hedge.Paged.Engine.Links.{IsLinked, IsLinked-step, reg_journal-IsLinked}
use option_hedge.Paged.Engine.Exit.{exit_client-frees}

module _ (os : Os) (system : SystemWriter os) (dump : Text → Text → ℕ → ℕ → ℕ → Text) where
  -- Every message on a client's list is in use, and is on no other client's list.
  pub record IsSound (e : Engine os system) : Type 0 where
    pub linked : IsLinked os system e
    pub alone :
        (c d : Text) (info other : PageClientInfo) (i : ℕ)
        → e.client_journals c ≡ some info
        → e.client_journals d ≡ some other
        → In i info.user_index_vec
        → In i other.user_index_vec
        → c ≡ d

  -- A step that keeps the clients and makes no message raw.
  IsSound-step :
      (e f : Engine os system)
      → f.client_journals ≡ e.client_journals
      → ((i : ℕ) → IsRaw f.comm i → IsRaw e.comm i)
      → IsSound e
      → IsSound f
  IsSound-step e f same back sound =
      let old = λ (c : Text) (info : PageClientInfo) (at : f.client_journals c ≡ some info).
        sym (ap (λ m. m c) same) ∙ at in
      record {
        linked = IsLinked-step os system e f same back sound.linked;
        alone = λ c d info other i at_c at_d.
            sound.alone c d info other i (old c info at_c) (old d other at_d);
      }

  pub writes-IsSound :
      (e : Engine os system) (idx : ℕ) (msg : PageCommMsg)
      → msg.status ≢ raw
      → ¬ IsRaw e.comm idx
      → IsSound e
      → IsSound (record e { comm = set_msg idx msg e.comm })
  unfolding set_msg
  writes-IsSound e idx msg used held sound =
      IsSound-step e (record e { comm = set_msg idx msg e.comm }) refl (λ i h. ground arith) sound

  pub serves-IsSound :
      (e f : Engine os system) (idx : ℕ)
      → serve os system idx e ≡ ok (tt, f)
      → IsSound e
      → IsSound f
  serves-IsSound e f idx h sound =
      let s = serve-Served os system idx e f h in IsSound-step e f s.clients s.still_raw sound

  -- A client after the exit of another one.
  remains :
      (e f : Engine os system) (name c : Text) (info : PageClientInfo)
      → f.client_journals ≡ erase name e.client_journals
      → f.client_journals c ≡ some info
      → (c ≢ name) × (e.client_journals c ≡ some info)
  remains e f name c info gone at =
      let at' : erase name e.client_journals c ≡ some info = sym (ap (λ m. m c) gone) ∙ at in
      (λ h. ground (arith, (text_eq_iff c name).1 h), ground arith)

  pub exits-IsSound :
      (e f : Engine os system) (name : Text)
      → exit_client os system dump name e ≡ ok (tt, f)
      → IsSound e
      → IsSound f
  exits-IsSound e f name h sound = elim (Option-cases (e.client_journals name)) [
    | inl free ↦
        let same : f ≡ e = unfold exit_client in ground (arith, h, free) in
        subst IsSound (sym same) sound
    | inr (info, known) ↦
        let (gone, kept) = exit_client-frees os system dump name info e f known h in
        record {
          linked = λ c other at.
              let (apart, at_e) = remains e f name c other gone at in
              All-of_In (λ i. ¬ IsRaw f.comm i) other.user_index_vec
                λ i on_list h.
                  let unfreed : All (λ k. i ≢ k) info.user_index_vec =
                    All-of_In (λ k. i ≢ k) info.user_index_vec
                      λ k listed same. apart (
                        sound.alone c name other info i at_e known on_list
                          (subst (λ x. In x info.user_index_vec) (sym same) listed)) in
                  All-In (λ x. ¬ IsRaw e.comm x) other.user_index_vec i (sound.linked c other at_e)
                    on_list (sym (ap (λ m. m.status) (kept i unfreed)) ∙ h);
          alone = λ c d one other i at_c at_d.
              sound.alone c d one other i (remains e f name c one gone at_c).1
                (remains e f name d other gone at_d).1;
        }
  ]

  -- A client after another one is registered is that one, whose list is empty, or it was there before.
  arrives :
      (e f : Engine os system) (name c : Text) (fresh info : PageClientInfo)
      → f.client_journals ≡ insert name fresh e.client_journals
      → fresh.user_index_vec ≡ []
      → f.client_journals c ≡ some info
      → (info.user_index_vec ≡ []) ⊎ (e.client_journals c ≡ some info)
  arrives e f name c fresh info added empty at =
      let at' : insert name fresh e.client_journals c ≡ some info =
        sym (ap (λ m. m c) added) ∙ at in
      elim (Bool-cases (text_eq c name)) [
        | inl same ↦ inl (ground (arith, at', same, empty))
        | inr apart ↦ inr (ground (arith, at', apart))
      ]

  pub registers-IsSound :
      (e f : Engine os system) (name : Text) (pid : ℕ) (is_writer : Bool) (r : Option (Text × ℕ))
      → reg_client os system name pid is_writer e ≡ ok (r, f)
      → IsSound e
      → IsSound f
  registers-IsSound e f name pid is_writer r h sound =
      elim (Option-cases (e.client_journals name)) [
        | inr (info, known) ↦
            let same : f ≡ e =
              ground (arith, h, reg_client-known os system name pid is_writer e info known) in
            subst IsSound (sym same) sound
        | inl free ↦
            let (g, done, now) = reg_client-new os system name pid is_writer e free in
            let same : f ≡ g = ground (arith, h, done) in
            let old = λ (c : Text) (info : PageClientInfo) (at : g.client_journals c ≡ some info).
              arrives e g name c _ info now.client.1 refl at in
            subst IsSound (sym same) (record {
              linked = λ c info at. elim (old c info at) [
                | inl empty ↦ subst (All (λ i. ¬ IsRaw g.comm i)) (sym empty) tt
                | inr before ↦ rw now.same_comm (sound.linked c info before)
              ];
              alone = λ c d info other i at_c at_d in_c in_d. elim (old c info at_c) [
                | inl empty ↦ elim (subst (In i) empty in_c) [ ]
                | inr before_c ↦ elim (old d other at_d) [
                  | inl empty ↦ elim (subst (In i) empty in_d) [ ]
                  | inr before_d ↦ sound.alone c d info other i before_c before_d in_c in_d
                ]
              ];
            })
      ]

  joins_unknown :
      (e : Engine os system) (name : Text)
      → e.client_journals name ≡ none
      → let f = (reg_journal os system name e).1 in
        (f.client_journals ≡ e.client_journals) × ((i : ℕ) → IsRaw f.comm i → IsRaw e.comm i)
  unfolding reg_journal take_index link_journal set_msg
  joins_unknown e name free = (ground (arith, free), λ i h. ground (arith, free))

  -- What stands on a list after a journal is registered stood there before, or is the new index.
  joined :
      (e f : Engine os system) (name c : Text) (known info : PageClientInfo) (idx i : ℕ)
      → e.client_journals name ≡ some known
      → f.client_journals name
        ≡ some (record known { user_index_vec = known.user_index_vec ++ idx ∷ [] })
      → ((d : Text) → d ≢ name → f.client_journals d ≡ e.client_journals d)
      → f.client_journals c ≡ some info
      → In i info.user_index_vec
      → ((old : PageClientInfo) × (e.client_journals c ≡ some old) × In i old.user_index_vec)
        ⊎ ((c ≡ name) × (i ≡ idx))
  joined e f name c known info idx i was listed unlisted at on_list =
      elim (Bool-cases (text_eq c name)) [
        | inr apart ↦
            let off_name : c ≢ name = λ h. cc (apart, (text_eq_iff c name).1 h) in
            inl (info, sym (unlisted c off_name) ∙ at, on_list)
        | inl same ↦
            let at_name : c ≡ name = (text_eq_iff c name).0 same in
            let lists : info.user_index_vec ≡ known.user_index_vec ++ idx ∷ [] =
              cc (at_name, listed, at) in
            elim (In-append i known.user_index_vec idx (subst (In i) lists on_list)) [
              | inl old ↦ inl (known, rw at_name was, old)
              | inr new ↦ inr (at_name, new)
            ]
      ]

  pub joins-IsSound :
      (e : Engine os system) (name : Text) (k : ℕ)
      → k < max_comm_user_number
      → IsRaw e.comm k
      → IsSound e
      → IsSound (reg_journal os system name e).1
  joins-IsSound e name k small r sound = elim (Option-cases (e.client_journals name)) [
    | inl free ↦
        let (same, back) = joins_unknown e name free in
        IsSound-step e (reg_journal os system name e).1 same back sound
    | inr (info, known) ↦
        let (idx, f) = reg_journal os system name e in
        let (below, is_raw, before, marked, no_page, others, listed, unlisted, covered) =
          reg_journal-free os system e name info k known small r in
        let (linked, fresh) =
          reg_journal-IsLinked os system e name info k sound.linked known small r in
        let old = λ (c : Text) (one : PageClientInfo) (i : ℕ).
          joined e f name c info one idx i known listed unlisted in
        let taken =
          λ (c : Text) (one : PageClientInfo) (at : e.client_journals c ≡ some one)
              (h : In idx one.user_index_vec).
            All-In (λ i. i ≢ idx) one.user_index_vec idx (fresh c one at) h refl in
        record {
          linked = linked;
          alone = λ c d one other i at_c at_d in_c in_d. elim (old c one i at_c in_c) [
            | inl (x, was_c, on_c) ↦ elim (old d other i at_d in_d) [
              | inl (y, was_d, on_d) ↦ sound.alone c d x y i was_c was_d on_c on_d
              | inr (d_name, i_new) ↦
                  absurd (taken c x was_c (subst (λ v. In v x.user_index_vec) i_new on_c))
            ]
            | inr (c_name, i_new) ↦ elim (old d other i at_d in_d) [
              | inl (y, was_d, on_d) ↦
                  absurd (taken d y was_d (subst (λ v. In v y.user_index_vec) i_new on_d))
              | inr (d_name, j_new) ↦ c_name ∙ sym d_name
            ]
          ];
        }
  ]

  -- The constructor's engine has no clients.
  pub new_engine-IsSound : (s : Sys os) → IsSound (new_engine os system s)
  unfolding new_engine
  new_engine-IsSound s = record {
    linked = λ c info at. cc at;
    alone = λ c d info other i at_c. cc at_c;
  }
