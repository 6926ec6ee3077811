-- ===== src/Paged/Engine/Links.antt =====
-- The engine's clients and the table of paged/PageEngine.cpp: which message belongs to whom.
use option_hedge.Base.{
  ℕ, ◌≡◌, ◌≢◌, ◌<◌, inl, inr, arith, some, [], ◌∷◌, ◌++◌, All, All-map, All-append, Bool-cases,
  ◌==◌, ap, sym, ◌∙◌, subst,
}
use option_hedge.Base.Text.{Text, text_eq, text_eq_iff}
use option_hedge.Os.{Os}
use option_hedge.Paged.Msg.{max_comm_user_number}
use option_hedge.Paged.Engine.{PageClientInfo, SystemWriter, Engine, reg_journal}
use option_hedge.Paged.Engine.Slots.{IsRaw, reg_journal-free}

module _ (os : Os) (system : SystemWriter os) where
  -- No message on a client's list is raw.
  abbrev pub IsLinked : Engine os system → Type 0
  IsLinked e =
      (c : Text) (info : PageClientInfo)
      → e.client_journals c ≡ some info
      → All (λ i. ¬ IsRaw e.comm i) info.user_index_vec

  -- A step that makes no message raw and keeps the clients keeps the links.
  pub IsLinked-step :
      (e f : Engine os system)
      → f.client_journals ≡ e.client_journals
      → ((i : ℕ) → IsRaw f.comm i → IsRaw e.comm i)
      → IsLinked e
      → IsLinked f
  IsLinked-step e f same back links c info at =
      All-map (λ i. ¬ IsRaw e.comm i) (λ i. ¬ IsRaw f.comm i) info.user_index_vec
        (λ i free r. free (back i r)) (links c info (sym (ap (λ m. m c) same) ∙ at))

  -- Where no message on a client's list is raw, the index that a registered client is given is on no
  -- client's list, and afterwards still no message on a client's list is raw. It is stated for a table
  -- with a raw message among the first 1000.
  pub reg_journal-IsLinked :
      (e : Engine os system) (name : Text) (info : PageClientInfo) (k : ℕ)
      → IsLinked e
      → e.client_journals name ≡ some info
      → k < max_comm_user_number
      → IsRaw e.comm k
      → let (idx, f) = reg_journal os system name e in
        IsLinked f
        × ((c : Text) (other : PageClientInfo)
            → e.client_journals c ≡ some other
            → All (λ i. i ≢ idx) other.user_index_vec)
  reg_journal-IsLinked e name info k links known small r =
      let (idx, f) = reg_journal os system name e in
      let (below, is_raw, before, marked, no_page, others, listed, unlisted, covered) =
        reg_journal-free os system e name info k known small r in
      let back : (i : ℕ) → IsRaw f.comm i → IsRaw e.comm i = λ i h. elim (Bool-cases (i == idx)) [
        | inl at ↦ let same : i ≡ idx = ground arith in cc (marked, subst (IsRaw f.comm) same h)
        | inr off ↦
            let apart : i ≢ idx = ground arith in sym (ap (λ m. m.status) (others i apart)) ∙ h
      ] in
      let kept = λ (c : Text) (other : PageClientInfo) (at : e.client_journals c ≡ some other).
        All-map (λ i. ¬ IsRaw e.comm i) (λ i. ¬ IsRaw f.comm i) other.user_index_vec
          (λ i free h. free (back i h)) (links c other at) in
      (
        λ c other at. elim (Bool-cases (text_eq c name)) [
          | inl same ↦
              let at_name : c ≡ name = (text_eq_iff c name).0 same in
              let lists : other.user_index_vec ≡ info.user_index_vec ++ idx ∷ [] =
                cc (at_name, listed, at) in
              subst (All (λ i. ¬ IsRaw f.comm i)) (sym lists) (
                All-append (λ i. ¬ IsRaw f.comm i) info.user_index_vec idx (kept name info known)
                  (λ h. cc (marked, h)))
          | inr apart ↦
              let off_name : c ≢ name = λ h. cc (apart, (text_eq_iff c name).1 h) in
              kept c other (sym (unlisted c off_name) ∙ at)
        ],
        λ c other at.
            All-map (λ i. ¬ IsRaw e.comm i) (λ i. i ≢ idx) other.user_index_vec
              (λ i free same. free (subst (IsRaw e.comm) (sym same) is_raw)) (links c other at),
      )
