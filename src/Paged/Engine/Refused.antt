-- ===== src/Paged/Engine/Refused.antt =====
-- What a refused writer's next request does in paged/PageEngine.cpp.
use option_hedge.Base.{ℕ, ◌≡◌, ◌≢◌, ap, arith, true, none, some, inl, inr, ◌∙◌}
use option_hedge.Base.Map.{Map, beq_ne}
use option_hedge.Os.{Os, Result-cases, ok}
use option_hedge.Paged.Msg.{
  CommStatus, requesting, allocated, PageCommMsg, FileKey, file_key, key_of,
}
use option_hedge.Paged.Engine.{SystemWriter, Engine}
use option_hedge.Paged.Engine.Files.{release_page, initiate_page}
use option_hedge.Paged.Engine.Requests.{has_old_page, give_up_old, serve}
use option_hedge.Paged.Engine.Pages.{initiate_page-writer}
use option_hedge.Paged.Engine.Release.{release_page-writer}
use option_hedge.Paged.Engine.Serve.{served, serve-Served}

old_key :
    (msg : PageCommMsg)
    → has_old_page msg ≡ true
    → key_of (record msg { page_num = msg.last_page_num }) ≢ key_of msg
unfolding has_old_page
old_key msg old e = let pages = ap (λ (k : FileKey). k.key_page) e in ground (arith, pages)

module _ (os : Os) (system : SystemWriter os) where
  give_up_old-releases :
      (msg : PageCommMsg) (e g : Engine os system)
      → has_old_page msg ≡ true
      → give_up_old os system msg e ≡ ok (tt, g)
      → release_page os system (record msg { page_num = msg.last_page_num }) e ≡ ok (tt, g)
  unfolding give_up_old
  give_up_old-releases msg e g old h = ground arith

  -- A writer's request counts no writer on another page.
  initiate_page-other :
      (msg : PageCommMsg) (g k : Engine os system) (s : CommStatus) (key : FileKey)
      → msg.is_writer ≡ true
      → key ≢ key_of msg
      → initiate_page os system msg g ≡ ok (s, k)
      → g.file_writer_counts key ≡ none
      → k.file_writer_counts key ≡ none
  initiate_page-other msg g k s key w other h gone =
      elim (initiate_page-writer os system msg g k s w h).0 [
        | inl (_, _, counts) ↦
            ap (λ (m : Map FileKey ℕ). m key) counts ∙ ground (arith, beq_ne key (key_of msg) other)
        | inr (inl (_, _, counts)) ↦ ap (λ (m : Map FileKey ℕ). m key) counts ∙ gone
        | inr (inr (_, counts)) ↦ ap (λ (m : Map FileKey ℕ). m key) counts ∙ gone
      ]

  -- A writer that was refused a page, because another one holds it, takes the count of that page away
  -- with its next request: the request gives up the last page, whether or not it was allocated. So the
  -- holder is still allocated the page, and the engine counts no writer on it.
  pub serve-refused_writer :
      (idx holder : ℕ) (msg : PageCommMsg) (e f : Engine os system)
      → e.comm idx ≡ msg
      → holder ≢ idx
      → (e.comm holder).status ≡ allocated
      → key_of (e.comm holder) ≡ key_of (record msg { page_num = msg.last_page_num })
      → msg.status ≡ requesting
      → msg.is_writer ≡ true
      → has_old_page msg ≡ true
      → e.file_writer_counts (key_of (e.comm holder)) ≡ some 1
      → serve os system idx e ≡ ok (tt, f)
      → ((f.comm holder).status ≡ allocated)
        × (f.file_writer_counts (key_of (e.comm holder)) ≡ none)
  unfolding serve
  serve-refused_writer idx holder msg e f at_msg apart held same asks writes old counted h =
      let before : PageCommMsg = record msg { page_num = msg.last_page_num } in
      let at_holder = (serve-Served os system idx e f h).others holder apart in
      elim (Result-cases (give_up_old os system msg e)) [
        | inl (x, failed) ↦ ground arith
        | inr ((u, g), freed) ↦ elim (Result-cases (initiate_page os system msg g)) [
          | inl (x, failed) ↦ ground arith
          | inr ((s, k), answered) ↦
              let gone : g.file_writer_counts (key_of before) ≡ none =
                (release_page-writer os system before e g writes (rw same at counted)
                  (give_up_old-releases msg e g old freed)).0 in
              let stays : k.file_writer_counts (key_of before) ≡ none =
                initiate_page-other msg g k s (key_of before) writes (old_key msg old) answered
                  gone in
              let f_is : f ≡ served os system msg idx s k = ground arith in
              (ground (arith, at_holder), rw (same, f_is) stays)
        ]
      ]
