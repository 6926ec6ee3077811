-- ===== src/Paged/Engine/SocketThread.antt =====
-- The socket thread of paged/PageEngine.cpp: the handler of paged/PageSocketHandler.cpp on the engine.
use option_hedge.Base.{
  ℕ, suc, ◌+◌, ◌≡◌, ◌≢◌, ◌<◌, ◌≤◌, inl, inr, sym, subst, arith, Option, List, [], ◌∷◌, length,
  Option-cases,
}
use option_hedge.Base.Text.{Text}
use option_hedge.Os.{Os, M, ok, Result-cases}
use option_hedge.Paged.Msg.{CommTable, set_msg, max_comm_user_number}
use option_hedge.Paged.Engine.{
  SystemWriter, Engine, reg_journal, reg_client, take_index, link_journal, find_raw,
}
use option_hedge.Paged.Engine.Slots.{IsRaw, find_raw_below}
use option_hedge.Paged.Engine.Clients.{reg_client-comm}
use option_hedge.Paged.Engine.Requests.{exit_client, register_strategy, sub_md, login_td}
use option_hedge.Paged.Engine.Sound.{IsSound}
use option_hedge.Paged.Engine.Counts.{IsSingle}
use option_hedge.Paged.Engine.Single.{Reach-IsSingle}
use option_hedge.Paged.Engine.Reach.{Reach, Reach-IsSound, here, next, registers, joins}
use option_hedge.Paged.Socket.{PageSocketUtil, process_msg}
use option_hedge.Paged.Socket.Server.{
  Handler, receive, answer, handle_accept, handle_connections, run_handler, get_handler,
  open_handler,
}
use option_hedge.Paged.Socket.Wire.{read_request}
use option_hedge.Paged.Socket.Steps.{Handled, left, joined, registered, process_msg-Handled}

-- From an index on, the first 1000 messages are raw.
abbrev pub IsFreeFrom : ℕ → CommTable → Type 0
IsFreeFrom m t = (i : ℕ) → m ≤ i → i < max_comm_user_number → IsRaw t i

module _ (os : Os) (system : SystemWriter os) (dump : Text → Text → ℕ → ℕ → ℕ → Text) where
  -- PageEngine as the IPageSocketUtil of its handler.
  abbrev pub engine_util : PageSocketUtil (Engine os system)
  engine_util = record {
    reg_journal = reg_journal os system;
    register_strategy = register_strategy os system;
    reg_client = reg_client os system;
    exit_client = exit_client os system dump;
    sub_md = sub_md os system;
    login_td = login_td os system;
  }

  -- The connections that arrive while the handler runs; `unset` is what an unset member is sent as.
  unfoldable pub start_socket :
      ℕ → List (List ℕ) → Option Handler → M (Engine os system) (Handler × List (List ℕ))
  start_socket unset connections m_ptr =
      run_handler engine_util unset connections (get_handler m_ptr)

  reg_journal-IsFreeFrom :
      (name : Text) (m : ℕ) (e : Engine os system)
      → m < max_comm_user_number
      → IsFreeFrom m e.comm
      → IsFreeFrom (suc m) (reg_journal os system name e).1.comm
  unfolding reg_journal take_index link_journal set_msg
  reg_journal-IsFreeFrom name m e small free i lo hi =
      let (below, is_raw) =
        find_raw_below max_comm_user_number e.comm m small (free m (omega arith) small) in
      let still = free i (omega arith) hi in
      let apart : i ≢ find_raw max_comm_user_number 0 e.comm = λ same. omega (arith, same, below) in
      elim (Option-cases (e.client_journals name)) [
        | inl unknown ↦ ground (arith, unknown, apart, below, still)
        | inr (info, known) ↦ ground (arith, known, apart, below, still)
      ]

  Handled-Reach :
      (m : ℕ) (e f : Engine os system)
      → m < max_comm_user_number
      → IsFreeFrom m e.comm
      → Handled engine_util e f
      → Reach os system dump e f × IsFreeFrom (suc m) f.comm
  Handled-Reach m e _ small free left = (here, λ i lo hi. free i (omega arith) hi)
  Handled-Reach m e _ small free (joined name) = (
    next here (joins name m small (free m (omega arith) small)),
    reg_journal-IsFreeFrom name m e small free,
  )
  Handled-Reach m e f small free (registered name pid is_writer r _ done) = (
    next here (registers name pid is_writer r f done),
    λ i lo hi.
        rw (reg_client-comm os system name pid is_writer r e f done) (free i (omega arith) hi),
  )

  Reach-trans :
      (e f g : Engine os system)
      → Reach os system dump e f
      → Reach os system dump f g
      → Reach os system dump e g
  Reach-trans e f _ first here = first
  Reach-trans e f g first (next {f = h} run step) = next (Reach-trans e f h first run) step

  handle_accept-Handled :
      (unset : ℕ) (bytes : List ℕ) (h : Handler) (r : Handler × List ℕ) (e f : Engine os system)
      → handle_accept engine_util unset bytes h e ≡ ok (r, f)
      → Handled engine_util e f
  unfolding handle_accept answer
  handle_accept-Handled unset bytes h r e f done =
      elim (Option-cases (read_request (receive bytes h).buffer)) [
        | inl none_read ↦ ground (arith, done, none_read)
        | inr (req, read) ↦ elim (Result-cases (process_msg engine_util req e)) [
          | inl (x, failed) ↦ ground (arith, done, read, failed)
          | inr ((rsp, g), answered) ↦
              let same : f ≡ g = ground (arith, done, read, answered) in
              subst (Handled engine_util e) (sym same)
                (process_msg-Handled engine_util req rsp e g answered)
        ]
      ]

  handle_connections-Reach :
      (unset m : ℕ) (connections : List (List ℕ)) (h : Handler) (r : Handler × List (List ℕ))
      → (e f : Engine os system) → IsFreeFrom m e.comm
      → m + length connections ≤ max_comm_user_number
      → handle_connections engine_util unset connections h e ≡ ok (r, f)
      → Reach os system dump e f
  unfolding handle_connections
  handle_connections-Reach unset m [] h r e f free room done =
      let same : f ≡ e = ground (arith, done) in subst (Reach os system dump e) (sym same) here
  handle_connections-Reach unset m (bytes ∷ later) h r e f free room done =
      elim (Result-cases (handle_accept engine_util unset bytes h e)) [
        | inl (x, failed) ↦ ground (arith, done, failed)
        | inr ((k, g), first) ↦
            elim (Result-cases (handle_connections engine_util unset later k.0 g)) [
              | inl (x, failed) ↦ ground (arith, done, first, failed)
              | inr ((l, o), rest) ↦
                  let same : f ≡ o = ground (arith, done, first, rest) in
                  let (run, free') =
                    Handled-Reach m e g (omega arith) free
                      (handle_accept-Handled unset bytes h k e g first) in
                  subst (Reach os system dump e) (sym same) (
                    Reach-trans e g o run (
                      handle_connections-Reach unset (suc m) later k.0 l g o free' (omega arith)
                        rest))
            ]
      ]

  start_socket-Reach :
      (unset m : ℕ) (connections : List (List ℕ)) (m_ptr : Option Handler)
      → (r : Handler × List (List ℕ)) (e f : Engine os system) → IsFreeFrom m e.comm
      → m + length connections ≤ max_comm_user_number
      → start_socket unset connections m_ptr e ≡ ok (r, f)
      → Reach os system dump e f
  unfolding start_socket run_handler
  start_socket-Reach unset m connections m_ptr r e f free room done =
      handle_connections-Reach unset m connections (open_handler (get_handler m_ptr)) r e f free
        room done

  -- The socket thread's run over the bytes of at most as many connections as there are raw messages at the
  -- table's end, up to a thousand after the start, keeps each message on a client's list in use and on no
  -- other client's list, and leaves no page with a second writer counted. It is so for runs that do not
  -- fail.
  pub start_socket-IsSound :
      (unset m : ℕ) (connections : List (List ℕ)) (m_ptr : Option Handler)
      → (r : Handler × List (List ℕ)) (e f : Engine os system) → IsSound os system dump e
      → IsSingle e.file_writer_counts
      → IsFreeFrom m e.comm
      → m + length connections ≤ max_comm_user_number
      → start_socket unset connections m_ptr e ≡ ok (r, f)
      → IsSound os system dump f × IsSingle f.file_writer_counts
  start_socket-IsSound unset m connections m_ptr r e f sound single free room done =
      let run = start_socket-Reach unset m connections m_ptr r e f free room done in
      (Reach-IsSound os system dump e f sound run, Reach-IsSingle os system dump e f single run)
